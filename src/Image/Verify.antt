-- ===== src/Image/Verify.antt =====
-- internal/image/verified.go: `Verify`, which hashes a file and keeps its descriptor. SHA-256 is a
-- parameter, and so is what the opened file answers.
pub mod Outcomes
use diskforge.Base.{
  ℕ, suc, ◌-◌, Bool, true, false, not, ◌&&◌, ◌||◌, Option, none, some, List, [], ◌∷◌, ◌++◌, Bytes,
  bytes_eq, length, take, leb, ◌==◌, if◌then◌else◌,
}
use diskforge.Base.Int.{pos}
use diskforge.Errors.{
  Error, Result, ok, err, sentinel, wrapped, format, text, is, refuse_if, ◌>>=◌, ◌>>◌,
  image_invalid_digest, image_invalid_source, image_digest_mismatch, io_eof, io_unexpected_eof,
}
use diskforge.Go.Hex.{encode_to_string}
use diskforge.Go.Strings.{is_empty}
use diskforge.Digest.{digest_test}
use diskforge.Image.Model.{Format, Verified, format_raw, format_zstd}
use diskforge.Image.Streams.{wrap_err, read_all}

-- What the opened file answers: whether it is regular, the three rewinds, and the two readings.
pub record SourceFile : Type 0 where
  pub regular : Result Bool
  pub hash_rewind : Result (Unit {0})
  pub hash_pieces : List Bytes
  pub hash_finish : Option Error
  pub header_rewind : Result (Unit {0})
  pub header_pieces : List Bytes
  pub header_finish : Option Error
  pub last_rewind : Result (Unit {0})

unfoldable pub validate_digest : Bytes → Result Bytes
validate_digest value =
    refuse_if (not (digest_test value)) (
      wrapped (format "%w: must contain exactly 64 lowercase hexadecimal characters" [])
        (sentinel image_invalid_digest))
    >>= λ _. ok value

abbrev pub no_context : ℕ → Option Error
no_context index = none

-- The first `wanted` bytes of the reads of `io.ReadFull`, or all that there are.
unfoldable pub read_up_to : ℕ → List Bytes → Bytes
read_up_to wanted [] = []
read_up_to wanted (p ∷ ps) = let rest = read_up_to (wanted - length p) ps in take wanted p ++ rest

-- `io.ReadFull`; the end of the file behind a first byte is `io.ErrUnexpectedEOF`.
unfoldable pub read_full : ℕ → Option Error → List Bytes → Bytes × Option Error
read_full wanted finish pieces =
    let bytes = read_up_to wanted pieces in
    if leb wanted (length bytes) then (bytes, none) else elim finish [
      | some e ↦ (bytes, some e)
      | none ↦
          if is_empty bytes
          then (bytes, some (sentinel io_eof))
          else (bytes, some (sentinel io_unexpected_eof))
    ]

abbrev pub zstd_magic : Bytes
zstd_magic = 0x28 ∷ 0xb5 ∷ 0x2f ∷ 0xfd ∷ []

-- The errors of the header's reading that `descriptorFormat` returns.
unfoldable pub header_failure : Option Error → Result (Unit {0})
header_failure none = ok tt
header_failure (some e) =
    refuse_if (not (is e io_unexpected_eof) && not (is e io_eof))
      (wrapped (format "read image header: %w" []) e)

unfoldable pub descriptor_format : SourceFile → Result Format
descriptor_format file = do
  wrap_err (format "rewind image source: %w" []) file.header_rewind
  header_failure ((read_full 4 file.header_finish file.header_pieces).1)
  wrap_err (format "rewind image source: %w" []) file.last_rewind
  ok (
      if bytes_eq (read_full 4 file.header_finish file.header_pieces).0 zstd_magic
      then format_zstd
      else format_raw)

module _ (sha256 : Bytes → Bytes) where
  unfoldable pub verify_descriptor : ℕ → SourceFile → Bytes → Bytes → Result Verified
  verify_descriptor descriptor file path expected = do
    regular ← wrap_err (format "stat image source: %w" []) file.regular
    refuse_if (not regular)
        (wrapped (format "%w: must be a regular file" []) (sentinel image_invalid_source))
    wrap_err (format "rewind image source: %w" []) file.hash_rewind
    content ←
        wrap_err (format "hash complete image: %w" [])
          (read_all no_context file.hash_finish 0 file.hash_pieces)
    refuse_if (not (bytes_eq (encode_to_string (sha256 content)) expected)) (
        wrapped (format "%w: got %s" (text (encode_to_string (sha256 content)) ∷ []))
          (sentinel image_digest_mismatch))
    found ← descriptor_format file
    ok (record {
      path = path;
      sha256 = encode_to_string (sha256 content);
      format = found;
      compressed_bytes = pos (length content);
      file = some descriptor;
    })

  -- The deferred close: whether the descriptor was closed again.
  abbrev pub keep_or_close : Result Verified → Result Verified × Bool
  keep_or_close (ok verified) = (ok verified, false)
  keep_or_close (err e) = (err e, true)

  -- `opened` is what `os.Open` gives at the path.
  unfoldable pub verify : Bytes → Bytes → Result ℕ → SourceFile → Result Verified × Bool
  verify path expected opened file = elim (validate_digest expected) [
    | err e ↦ (err e, false)
    | ok digest ↦ elim opened [
      | err e ↦ (err (wrapped (format "open image source: %w" []) e), false)
      | ok descriptor ↦ keep_or_close (verify_descriptor descriptor file path digest)
    ]
  ]
