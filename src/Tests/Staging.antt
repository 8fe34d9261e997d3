-- ===== src/Tests/Staging.antt =====
-- Stages of a small image, and the theorems of `Image.Stage` and `Engine.Staging` at them.
use diskforge.Base.{
  ◌≡◌, refl, true, false, Option, none, some, [], ◌∷◌, Bytes, codes, length, arith,
}
use diskforge.Base.Int.{pos}
use diskforge.Errors.{is, ok, err, sentinel, other_error, wrapped, format}
use diskforge.Go.Hex.{encode_to_string, decode_string}
use diskforge.Go.Strings.{to_lower}
use diskforge.Go.FilePath.{base, dir, clean, is_abs}
use diskforge.Digest.{digest_test}
use diskforge.Image.Model.{Verified, format_raw}
use diskforge.Image.Streams.{read_all, copy_limited, judge}
use diskforge.Image.Verify.{
  validate_digest, verify_descriptor, descriptor_format, read_full, read_up_to, header_failure,
}
use diskforge.Image.Stage.{Response, Client, Partial, Disk, Published, read_limit, stage, cleaned}
use diskforge.Image.Stage.Publication.{IsReceived}
use diskforge.Image.Stage.Inputs.{IsAsked}
use diskforge.Image.Stage.Outcomes.{EndsClean, IsStored, stage-EndsClean, stage_publishes}
use diskforge.Engine.Types.{StageRequest}
use diskforge.Engine.Requests.{
  Url, validate_context, validate_stage_request, validate_image_path, refused_url,
}
use diskforge.Engine.Requests
use diskforge.Engine.Staging.{engine_stage, engine_stage_ok, IsStagedAs, staged_of}
use diskforge.Tests.Machine.{zero_hash, zero_digest}

abbrev response : Response
response = record {
  status = pos 200;
  content_length = pos 3;
  body = (1 ∷ 2 ∷ []) ∷ (3 ∷ []) ∷ [];
  finish = none;
}

abbrev client : Client
client = record { new_request = λ url. ok tt; perform = λ url. ok response }

abbrev partial : Partial
partial = record {
  path = codes "/d/.a.partial-1";
  descriptor = 5;
  chmod = ok tt;
  writer = record { accept = λ content q. (length q, none); sync = λ content. ok tt };
  source = record {
    regular = ok true;
    hash_rewind = ok tt;
    hash_pieces = (1 ∷ 2 ∷ 3 ∷ []) ∷ [];
    hash_finish = none;
    header_rewind = ok tt;
    header_pieces = (1 ∷ 2 ∷ 3 ∷ []) ∷ [];
    header_finish = none;
    last_rewind = ok tt;
  };
}

abbrev disk : Disk
disk = record {
  mkdir_all = λ path. ok tt;
  create_temp = λ path pattern. ok partial;
  rename = λ old new. ok tt;
  directory = λ path. record { opened = ok tt; synced = ok tt; closed = ok tt };
}

abbrev verified : Verified
verified = record {
  path = codes "/d/a";
  sha256 = zero_digest;
  format = format_raw;
  compressed_bytes = pos 3;
  file = some 5;
}

run : Disk → Published
unfolding is stage validate_digest digest_test decode_string to_lower read_limit copy_limited judge
    encode_to_string verify_descriptor descriptor_format read_full read_up_to header_failure
    read_all dir base
run d =
    stage zero_hash (some none) (some client) d (codes "http://h/a") (codes "/d/a") zero_digest
      (pos 3)

published_run : run disk ≡ cleaned true (ok verified)
unfolding run
published_run = refl

-- The rename fails: the partial file is closed and removed.
rename_fails :
    run (record disk { rename = λ old new. err (sentinel (other_error 1)) })
    ≡ cleaned false
        (err (wrapped (format "publish staged image: %w" []) (sentinel (other_error 1))))
unfolding run
rename_fails = refl

stage-EndsClean_example :
    EndsClean zero_hash
      (some none)
      (some client)
      disk
      (codes "http://h/a")
      (codes "/d/a")
      zero_digest
      (pos 3)
      (run disk)
unfolding run
stage-EndsClean_example =
    stage-EndsClean zero_hash (some none) (some client) disk (codes "http://h/a") (codes "/d/a")
      zero_digest (pos 3) (omega arith, omega arith)

stage_publishes_example :
    (r : Response) × IsAsked zero_hash
      (some none)
      (some client)
      disk
      (codes "http://h/a")
      (codes "/d/a")
      zero_digest
      (pos 3)
      r
    × IsStored zero_hash
        (some none)
        (some client)
        disk
        (codes "http://h/a")
        (codes "/d/a")
        zero_digest
        (pos 3)
        r
    × IsReceived zero_hash r (codes "/d/a") zero_digest (pos 3)
unfolding run
stage_publishes_example =
    stage_publishes zero_hash (some none) (some client) disk (codes "http://h/a") (codes "/d/a")
      zero_digest (pos 3) (omega arith, omega arith) refl

abbrev request : StageRequest
request = record {
  url = codes "http://h/a";
  destination = codes "/d/a";
  sha256 = zero_digest;
  maximum_bytes = pos 3;
}

abbrev parsed : Bytes → Option Url
parsed s = some (record { scheme = codes "http"; host = codes "h"; has_user = false })

engine_stage_ok_example :
    IsStagedAs zero_hash parsed (some none) none client disk request (staged_of verified)
unfolding run engine_stage validate_context validate_stage_request validate_image_path refused_url
    clean is_abs Requests.validate_digest
engine_stage_ok_example =
    engine_stage_ok zero_hash parsed (some none) none client disk request (staged_of verified)
      (omega arith, omega arith) refl
