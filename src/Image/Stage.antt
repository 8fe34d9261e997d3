-- ===== src/Image/Stage.antt =====
-- internal/image/stage.go: the bounded download of an image and its publication. The HTTP client, the
-- temporary file and the calls of package os are parameters.
pub mod Publication
pub mod Inputs
pub mod Outcomes
use diskforge.Base.{
  ℕ, ◌+◌, Bool, true, false, not, ◌&&◌, ◌||◌, Option, none, some, List, [], ◌∷◌, ◌++◌, Bytes, codes,
  bytes_eq, length, if◌then◌else◌,
}
use diskforge.Base.Int.{ℤ, pos, negsuc, pos_part, leb_ℤ, ltb_ℤ, eq_ℤ, max_int64, wrap64}
use diskforge.Errors.{
  Error, Result, ok, err, sentinel, wrapped, format, text, number, refuse_if, ◌>>=◌, ◌>>◌,
  image_invalid_argument, image_download_rejected, image_size_mismatch, image_digest_mismatch,
}
use diskforge.Go.Hex.{encode_to_string}
use diskforge.Go.FilePath.{base, dir}
use diskforge.Image.Model.{Verified}
use diskforge.Image.Streams.{Writer, Copied, wrap_err, copy_limited}
use diskforge.Image.Verify.{SourceFile, no_context, validate_digest, verify_descriptor}

-- `http.Response`, whose body gives its pieces and then ends, or fails.
pub record Response : Type 0 where
  pub status : ℤ
  pub content_length : ℤ
  pub body : List Bytes
  pub finish : Option Error

-- `http.NewRequestWithContext` and `Client.Do`, at a URL.
pub record Client : Type 0 where
  pub new_request : Bytes → Result (Unit {0})
  pub perform : Bytes → Result Response

-- The file of `os.CreateTemp`: `source` is what it answers when it is read again.
pub record Partial : Type 0 where
  pub path : Bytes
  pub descriptor : ℕ
  pub chmod : Result (Unit {0})
  pub writer : Writer
  pub source : SourceFile

pub record Directory : Type 0 where
  pub opened : Result (Unit {0})
  pub synced : Result (Unit {0})
  pub closed : Result (Unit {0})

-- The calls of package os, by their arguments.
pub record Disk : Type 0 where
  pub mkdir_all : Bytes → Result (Unit {0})
  pub create_temp : Bytes → Bytes → Result Partial
  pub rename : Bytes → Bytes → Result (Unit {0})
  pub directory : Bytes → Directory

-- The context is none if nil, and its `Err` otherwise.
abbrev pub context_error : Option (Option Error) → Result (Unit {0})
context_error none =
    err (wrapped (format "%w: context is required" []) (sentinel image_invalid_argument))
context_error (some none) = ok tt
context_error (some (some e)) = err e

abbrev pub required_client : Option Client → Result Client
required_client none =
    err (wrapped (format "%w: HTTP client is required" []) (sentinel image_invalid_argument))
required_client (some client) = ok client

unfoldable pub validate_stage_inputs :
    Option (Option Error) → Option Client → Bytes → ℤ → Result (Client × Bytes)
validate_stage_inputs context client expected maximum = do
  context_error context
  present ← required_client client
  refuse_if (leb_ℤ maximum (pos 0) || eq_ℤ maximum (pos max_int64)) (
      wrapped (format "%w: maximum download size must be positive and bounded" [])
        (sentinel image_invalid_argument))
  digest ← validate_digest expected
  ok (present, digest)

unfoldable pub download : Client → Bytes → Result Response
download client url = do
  wrap_err (format "create download request: %w" []) (client.new_request url)
  wrap_err (format "download image: %w" []) (client.perform url)

unfoldable pub validate_response : Response → ℤ → Result (Unit {0})
validate_response response maximum = do
  refuse_if (ltb_ℤ response.status (pos 200) || leb_ℤ (pos 300) response.status) (
      wrapped (format "%w: HTTP status %d" (number response.status ∷ []))
        (sentinel image_download_rejected))
  refuse_if (ltb_ℤ maximum response.content_length) (
      wrapped (format "%w: download exceeds %d bytes" (number maximum ∷ []))
        (sentinel image_size_mismatch))

unfoldable pub sync_directory : Directory → Result (Unit {0})
sync_directory directory = do
  wrap_err (format "open destination directory: %w" []) directory.opened
  wrap_err (format "sync destination directory: %w" []) directory.synced
  wrap_err (format "close destination directory: %w" []) directory.closed

-- The limit of the reader, `maximumBytes+1`; an `io.LimitReader` below nothing gives nothing.
unfoldable pub read_limit : ℤ → ℕ
read_limit (pos n) = pos_part (wrap64 (n + 1))
read_limit (negsuc n) = 0

-- `io.Copy` into the file and the hasher, which both get the content.
unfoldable pub copy_body : Partial → Response → ℤ → Copied
copy_body partial response maximum =
    copy_limited partial.writer no_context response.finish 0 [] (read_limit maximum) response.body

abbrev pub copied_content : Copied → Result Bytes
copied_content copied = elim copied.failure [
  | none ↦ ok copied.content
  | some e ↦ err (wrapped (format "download image: %w" []) e)
]

-- The tests behind the copy.
unfoldable pub check_received : (Bytes → Bytes) → Bytes → ℤ → Bytes → ℤ → Result (Unit {0})
check_received sha256 content content_length expected maximum = do
  refuse_if (ltb_ℤ maximum (pos (length content))) (
      wrapped (format "%w: download exceeds %d bytes" (number maximum ∷ []))
        (sentinel image_size_mismatch))
  refuse_if (leb_ℤ (pos 0) content_length && not (eq_ℤ (pos (length content)) content_length)) (
      wrapped
        (format "%w: download length mismatch: got %d, want %d"
          (number (pos (length content)) ∷ number content_length ∷ []))
        (sentinel image_size_mismatch))
  refuse_if (not (bytes_eq (encode_to_string (sha256 content)) expected)) (
      wrapped (format "%w: got %s" (text (encode_to_string (sha256 content)) ∷ []))
        (sentinel image_digest_mismatch))

-- What a publication leaves: whether the partial file was moved to the destination, and whether its
-- descriptor was closed and its name removed.
pub record Published : Type 0 where
  pub result : Result Verified
  pub renamed : Bool
  pub closed : Bool
  pub removed : Bool

-- Before there is a partial file.
abbrev pub nothing : Error → Published
nothing e = record { result = err e; renamed = false; closed = false; removed = false }

-- With the deferred clean-up.
abbrev pub cleaned : Bool → Result Verified → Published
cleaned renamed (ok verified) = record {
  result = ok verified;
  renamed = renamed;
  closed = false;
  removed = true;
}
cleaned renamed (err e) = record {
  result = err e;
  renamed = renamed;
  closed = true;
  removed = true;
}

abbrev pub then_keep : Result (Unit {0}) → Verified → Result Verified
then_keep (ok done) verified = ok verified
then_keep (err e) verified = err e

module _ (sha256 : Bytes → Bytes) where
  -- Up to the verification of the partial file.
  unfoldable pub fill : Partial → Response → Bytes → Bytes → ℤ → Result Verified
  unfolding copy_body check_received
  fill partial response destination expected maximum = do
    wrap_err (format "set partial image permissions: %w" []) partial.chmod
    content ← copied_content (copy_body partial response maximum)
    check_received sha256 content response.content_length expected maximum
    wrap_err (format "sync partial image: %w" []) (partial.writer.sync content)
    verify_descriptor sha256 partial.descriptor partial.source destination expected

  -- From the verified partial file on.
  unfoldable pub rename_filled : Disk → Bytes → Bytes → Result Verified → Published
  unfolding sync_directory
  rename_filled disk path destination (err e) = cleaned false (err e)
  rename_filled disk path destination (ok verified) = elim (disk.rename path destination) [
    | err e ↦ cleaned false (err (wrapped (format "publish staged image: %w" []) e))
    | ok done ↦
        cleaned true (then_keep (sync_directory (disk.directory (dir destination))) verified)
  ]

  unfoldable pub publish_partial : Disk → Partial → Response → Bytes → Bytes → ℤ → Published
  unfolding fill rename_filled
  publish_partial disk partial response destination expected maximum =
      rename_filled disk partial.path destination
        (fill partial response destination expected maximum)

  unfoldable pub publish_response : Disk → Response → Bytes → Bytes → ℤ → Published
  unfolding publish_partial
  publish_response disk response destination expected maximum =
      elim (disk.mkdir_all (dir destination)) [
        | err e ↦ nothing (wrapped (format "create destination directory: %w" []) e)
        | ok done ↦
            elim (disk.create_temp (dir destination)
              (b'.' ∷ (base destination ++ codes ".partial-*"))) [
                | err e ↦ nothing (wrapped (format "create partial image: %w" []) e)
                | ok partial ↦ publish_partial disk partial response destination expected maximum
              ]
      ]

  -- From the response on; its body is closed at the end.
  unfoldable pub stage_response : Disk → Response → Bytes → Bytes → ℤ → Published
  unfolding publish_response validate_response
  stage_response disk response destination expected maximum =
      elim (validate_response response maximum) [
        | err e ↦ nothing e
        | ok done ↦ publish_response disk response destination expected maximum
      ]

  unfoldable pub stage :
      Option (Option Error) → Option Client → Disk → Bytes → Bytes → Bytes → ℤ → Published
  unfolding validate_stage_inputs download stage_response
  stage context client disk url destination expected maximum =
      elim (validate_stage_inputs context client expected maximum) [
        | err e ↦ nothing e
        | ok (present, digest) ↦ elim (download present url) [
          | err e ↦ nothing e
          | ok response ↦ stage_response disk response destination digest maximum
        ]
      ]
