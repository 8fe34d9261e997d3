-- ===== src/Tests/Image.antt =====
-- Runs of internal/image over small files, and the theorems of `Image` at them.
use diskforge.Base.{
  ap, ℕ, ◌≡◌, refl, Bool, true, false, Option, none, some, [], ◌∷◌, Bytes, codes, length, arith,
  bytes_eq,
}
use diskforge.Base.Int.{pos, ◌<ℤ◌}
use diskforge.Errors.{
  Error, Result, ok, err, sentinel, wrapped, format, number, image_size_mismatch,
}
use diskforge.Go.Hex.{encode_to_string}
use diskforge.Image.Model.{Verified, format_raw}
use diskforge.Image.Streams.{Reader, Writer, read_all, copy_limited, judge, read_extra}
use diskforge.Image.Write.{
  HeldFile, ContextErrors, Written, write, write_locked, stream, finish_write, finish_read,
  sync_write, reverify_source, expanded_reader, validate_write_inputs,
}
use diskforge.Image.Write.Delivery.{IsInterrupting, Reverified, Delivered, write_delivers}
use diskforge.Base.{sym}
use diskforge.Image.Streams.Bounds.{IsLawful}
use diskforge.Image.Write.Safety.{IsSafe, write-IsSafe}
use diskforge.Go.Hex.{decode_string}
use diskforge.Go.Strings.{to_lower}
use diskforge.Digest.{digest_test}
use diskforge.Image.Model.{format_zstd}
use diskforge.Image.Verify.{
  SourceFile, verify, validate_digest, verify_descriptor, descriptor_format, read_full, read_up_to,
  header_failure,
}
use diskforge.Image.Verify.Outcomes.{Hashed, verify_ok}

-- A stand-in for SHA-256: a text's first byte.
abbrev first_byte : Bytes → Bytes
first_byte [] = []
first_byte (b ∷ s) = b ∷ []

abbrev no_decoder : Reader → Result Reader
no_decoder reader = ok reader

abbrev source : Verified
source = record {
  path = codes "/a";
  sha256 = codes "01";
  format = format_raw;
  compressed_bytes = pos 5;
  file = some 3;
}

abbrev file : HeldFile
file = record {
  size = ok (pos 5);
  first_rewind = ok tt;
  first_pieces = (1 ∷ 2 ∷ 3 ∷ []) ∷ (4 ∷ 5 ∷ []) ∷ [];
  first_finish = none;
  second_rewind = ok tt;
  second_pieces = (1 ∷ 2 ∷ []) ∷ [] ∷ (3 ∷ 4 ∷ 5 ∷ []) ∷ [];
  second_finish = none;
}

abbrev disk : Writer
disk = record { accept = λ content q. (length q, none); sync = λ content. ok tt }

abbrev context : ContextErrors
context index = none

run : HeldFile → ℕ → Written
unfolding write write_locked stream finish_write finish_read sync_write reverify_source
    expanded_reader validate_write_inputs read_all copy_limited judge read_extra encode_to_string
    bytes_eq
run f expected =
    write first_byte no_decoder (some context) (some source) f (some disk) (pos expected) true

whole : run file 5 ≡ record {
  result = ok (record { written_bytes = pos 5 });
  content = 1 ∷ 2 ∷ 3 ∷ 4 ∷ 5 ∷ [];
  reports = 0 ∷ 2 ∷ 5 ∷ [];
  synced = true;
}
unfolding run
whole = refl

-- One expected byte too few: the destination holds what was asked for, and is not synced.
too_long : run file 4 ≡ record {
  result = err (
      wrapped
        (format "%w: expanded image exceeds %d bytes" (number (pos 4) ∷ []))
        (sentinel image_size_mismatch));
  content = 1 ∷ 2 ∷ 3 ∷ 4 ∷ [];
  reports = 0 ∷ 2 ∷ 4 ∷ [];
  synced = false;
}
unfolding run
too_long = refl

-- The context here gives no error.
quiet :
    (c : ContextErrors) (s : Verified) (reader : Reader)
    → some context ≡ some c
    → some source ≡ some s
    → expanded_reader no_decoder c s file ≡ ok reader
    → IsInterrupting reader
unfolding run
quiet c s reader ec es er i e d =
    let q : expanded_reader no_decoder context source file ≡ ok reader = cc in
    let done : Result Reader → Option Error =
      λ r. elim r [ err f ↦ none | ok reader ↦ reader.done i ] in
    absurd (ground (arith, ap done q))

write_delivers_example :
    (c : ContextErrors) × (s : Verified) × (writer : Writer) × (reader : Reader) × (some context
      ≡ some c)
    × (some source ≡ some s)
    × (some disk ≡ some writer)
    × (pos 0 <ℤ pos 5)
    × Reverified first_byte no_decoder s file
    × (expanded_reader no_decoder c s file ≡ ok reader)
    × Delivered writer reader 5
        (write first_byte no_decoder (some context) (some source) file (some disk) (pos 5) true)
        (record { written_bytes = pos 5 })
unfolding run
write_delivers_example =
    write_delivers first_byte no_decoder (some context) (some source) file (some disk) (pos 5) true
      quiet (unfold run in refl)

abbrev zeros : ℕ → Bytes
zeros ℕ.zero = []
zeros (ℕ.suc n) = 0 ∷ zeros n

abbrev zero_hash : Bytes → Bytes
zero_hash s = zeros 32

abbrev zero_digest : Bytes
zero_digest = codes "0000000000000000000000000000000000000000000000000000000000000000"

abbrev zstd_file : SourceFile
zstd_file = record {
  regular = ok true;
  hash_rewind = ok tt;
  hash_pieces = (0x28 ∷ 0xb5 ∷ 0x2f ∷ 0xfd ∷ 7 ∷ []) ∷ [];
  hash_finish = none;
  header_rewind = ok tt;
  header_pieces = (0x28 ∷ 0xb5 ∷ []) ∷ (0x2f ∷ 0xfd ∷ []) ∷ [];
  header_finish = none;
  last_rewind = ok tt;
}

run_verify : Result ℕ → SourceFile → Result Verified × Bool
unfolding verify validate_digest verify_descriptor descriptor_format read_full read_up_to
    header_failure read_all encode_to_string bytes_eq digest_test decode_string to_lower
run_verify opened f = verify zero_hash (codes "/a.zst") zero_digest opened f

abbrev zstd_source : Verified
zstd_source = record {
  path = codes "/a.zst";
  sha256 = zero_digest;
  format = format_zstd;
  compressed_bytes = pos 5;
  file = some 7;
}

verified : run_verify (ok 7) zstd_file ≡ (ok zstd_source, false)
unfolding run_verify
verified = refl

verify_ok_example :
    Hashed zero_hash (codes "/a.zst") zero_digest (ok 7) zstd_file zstd_source × (false ≡ false)
unfolding run_verify
verify_ok_example = verify_ok zero_hash (codes "/a.zst") zero_digest (ok 7) zstd_file verified

abbrev directory : SourceFile
directory = record zstd_file { regular = ok false }

disk-IsLawful : (d : Writer) → some disk ≡ some d → IsLawful d
disk-IsLawful d e content q = let same : disk ≡ d = cc in rw (sym same) (omega arith)

write-IsSafe_example :
    IsSafe first_byte no_decoder
      (some context)
      (some source)
      file
      4
      (write first_byte no_decoder (some context) (some source) file (some disk) (pos 4) true)
write-IsSafe_example =
    write-IsSafe first_byte no_decoder (some context) (some source) file (some disk) (pos 4) true
      disk-IsLawful
