-- ===== src/Image/Write.antt =====
-- internal/image/write.go: `Write` and its steps. SHA-256 and the zstd decoder are parameters.
pub mod Delivery
pub mod Safety
use diskforge.Base.{
  ℕ, suc, ◌+◌, ◌==◌, Bool, true, false, not, Option, none, some, List, [], ◌∷◌, Bytes, bytes_eq,
  length, if◌then◌else◌,
}
use diskforge.Base.Int.{ℤ, pos, pos_part, leb_ℤ, eq_ℤ}
use diskforge.Errors.{
  Error, Message, Result, ok, err, sentinel, wrapped, format, number, text, is, refuse_if, ◌>>=◌,
  ◌>>◌, image_invalid_argument, image_source_changed, image_size_mismatch, image_unsupported_format,
  os_closed, io_eof,
}
use diskforge.Go.Hex.{encode_to_string}
use diskforge.Image.Model.{Verified, WriteResult, format_raw, format_zstd}
use diskforge.Image.Streams.{Reader, Writer, Copied, wrap_err, read_all, copy_limited, read_extra}

-- A context by what `Err` gives at its number of times asked: at the entry, then at each read.
abbrev pub ContextErrors : Type 0
ContextErrors = ℕ → Option Error

-- What the held descriptor answers: its size, the two rewinds, and what is read after each.
pub record HeldFile : Type 0 where
  pub size : Result ℤ
  pub first_rewind : Result (Unit {0})
  pub first_pieces : List Bytes
  pub first_finish : Option Error
  pub second_rewind : Result (Unit {0})
  pub second_pieces : List Bytes
  pub second_finish : Option Error

abbrev pub invalid_argument : Message → Error
invalid_argument m = wrapped m (sentinel image_invalid_argument)

unfoldable pub validate_write_inputs :
    Option ContextErrors → Option Verified → Option Writer → ℤ → Result (Unit {0})
validate_write_inputs none source destination expected =
    err (invalid_argument (format "%w: context is required" []))
validate_write_inputs (some context) source destination expected = elim (context 0) [
  | some e ↦ err e
  | none ↦ elim source [
    | none ↦ err (invalid_argument (format "%w: verified source is required" []))
    | some s ↦ elim destination [
      | none ↦ err (invalid_argument (format "%w: destination is required" []))
      | some d ↦
          refuse_if (leb_ℤ expected (pos 0))
            (invalid_argument (format "%w: expected expanded byte count must be positive" []))
    ]
  ]
]

module _ (sha256 : Bytes → Bytes) where
  unfoldable pub reverify_source : ContextErrors → Verified → HeldFile → Result (Unit {0})
  reverify_source context source file = do
    size ← wrap_err (format "stat verified source: %w" []) file.size
    refuse_if (not (eq_ℤ size source.compressed_bytes)) (
        wrapped
          (format "%w: got %d bytes, want %d" (number size ∷ number source.compressed_bytes ∷ []))
          (sentinel image_source_changed))
    wrap_err (format "rewind verified source: %w" []) file.first_rewind
    content ←
        wrap_err (format "reverify source content: %w" [])
          (read_all context file.first_finish 1 file.first_pieces)
    refuse_if (not (bytes_eq (encode_to_string (sha256 content)) source.sha256)) (
        wrapped (format "%w: got SHA-256 %s" (text (encode_to_string (sha256 content)) ∷ []))
          (sentinel image_source_changed))
    wrap_err (format "rewind verified source: %w" []) file.second_rewind

-- The reads of the first pass come before those of the second.
abbrev pub second_context : ContextErrors → HeldFile → ContextErrors
second_context context file index = context (suc (suc (length file.first_pieces)) + index)

-- `zstd.NewReader` under its limits is `decode`, from the reader of the compressed bytes.
unfoldable pub expanded_reader :
    (Reader → Result Reader) → ContextErrors → Verified → HeldFile → Result Reader
expanded_reader decode context source file =
    let reader : Reader = record {
      pieces = file.second_pieces;
      finish = file.second_finish;
      done = second_context context file;
    } in
    if bytes_eq source.format format_raw
    then ok reader
    else if not (bytes_eq source.format format_zstd)
    then err
        (wrapped (format "%w: %q" (text source.format ∷ [])) (sentinel image_unsupported_format))
    else wrap_err (format "create zstd decoder: %w" []) (decode reader)

-- What a write leaves: its result, what the destination holds, the reported counts, and whether the
-- destination was asked to sync.
pub record Written : Type 0 where
  pub result : Result WriteResult
  pub content : Bytes
  pub reports : List ℕ
  pub synced : Bool

abbrev pub refused : Error → Written
refused e = record { result = err e; content = []; reports = []; synced = false }

unfoldable pub sync_write : Writer → Bytes → Result WriteResult
sync_write writer content =
    wrap_err (format "sync destination: %w" []) (writer.sync content) >>= λ _.
    ok (record { written_bytes = pos (length content) })

-- From the exact size on, by the error of the read behind it.
unfoldable pub finish_read : Writer → Bytes → Option Error → Result WriteResult × Bool
finish_read writer content none = (sync_write writer content, true)
finish_read writer content (some e) =
    if not (is e io_eof)
    then (err (wrapped (format "finish expanded image: %w" []) e), false)
    else (sync_write writer content, true)

-- From a completed copy on: the exact-size tests and `Sync`.
unfoldable pub finish_write : Writer → Reader → ℕ → Copied → Result WriteResult × Bool
finish_write writer reader expected copied = elim copied.failure [
  | some e ↦ (err (wrapped (format "write expanded image: %w" []) e), false)
  | none ↦
      if not (length copied.content == expected)
      then (
        err (
            wrapped
              (format "%w: expanded image is too short: got %d bytes, want %d"
                (number (pos (length copied.content)) ∷ number (pos expected) ∷ []))
              (sentinel image_size_mismatch)),
        false,
      )
      else (let (came, failure) = read_extra reader.done reader.finish copied.index copied.rest in
          if came
          then (
            err (
                wrapped (format "%w: expanded image exceeds %d bytes" (number (pos expected) ∷ []))
                  (sentinel image_size_mismatch)),
            false,
          )
          else finish_read writer copied.content failure)
]

-- From the verified content on.
unfoldable pub stream : Writer → ℕ → Bool → Result Reader → Written
stream writer expected reporting (err e) = refused e
stream writer expected reporting (ok reader) =
    let copied = copy_limited writer reader.done reader.finish 0 [] expected reader.pieces in
    let end = finish_write writer reader expected copied in
    record {
      result = end.0;
      content = copied.content;
      reports = if reporting then 0 ∷ copied.reports else [];
      synced = end.1;
    }

module _ (sha256 : Bytes → Bytes) (decode : Reader → Result Reader) where
  -- Under the source's lock; `reporting` says whether there is a progress callback.
  unfoldable pub write_locked : ContextErrors → Verified → HeldFile → Writer → ℕ → Bool → Written
  write_locked context source file writer expected reporting = elim source.file [
    | none ↦
        refused
          (wrapped (format "verified source descriptor is unavailable: %w" []) (sentinel os_closed))
    | some descriptor ↦ elim (reverify_source sha256 context source file) [
      | err e ↦ refused e
      | ok u ↦ stream writer expected reporting (expanded_reader decode context source file)
    ]
  ]

  unfoldable pub write :
      Option ContextErrors → Option Verified → HeldFile → Option Writer → ℤ → Bool → Written
  write context source file destination expected reporting =
      elim (validate_write_inputs context source destination expected) [
        | err e ↦ refused e
        | ok u ↦ write_valid context source destination
      ]
    where
      write_valid : Option ContextErrors → Option Verified → Option Writer → Written
      write_valid (some c) (some s) (some d) = write_locked c s file d (pos_part expected) reporting
      -- The tests exclude a nil argument.
      write_valid _ _ _ = refused (sentinel image_invalid_argument)
