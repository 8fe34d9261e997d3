-- ===== src/Image/Write/Delivery.antt =====
-- What a successful `Write` has delivered.
use diskforge.Base.{
  ℕ, ◌≡◌, refl, sym, ap, ◌∙◌, inl, inr, Bool, true, false, Option, none, some, [], ◌++◌, Bytes,
  length, arith, append-nil, bytes_eq, bytes_eq_iff,
}
use diskforge.Base.Int.{ℤ, pos, pos_part, ◌<ℤ◌, eq_ℤ, eq_ℤ_iff}
use diskforge.Errors.{Result-cases, Error, Result, ok, err, is, io_eof}
use diskforge.Go.Hex.{encode_to_string}
use diskforge.Image.Model.{Verified, WriteResult}
use diskforge.Image.Streams.{Reader, Writer, Copied, copy_limited, read_extra, read_all}
use diskforge.Image.Streams.Laws.{flat, copy_ok, read_all_ok, read_extra_none}
use diskforge.Image.Write.{
  HeldFile, ContextErrors, Written, write, write_locked, stream, finish_write, finish_read,
  sync_write, reverify_source, expanded_reader, validate_write_inputs,
}

-- No error of the reader's context reads as the end of a file.
abbrev pub IsInterrupting : Reader → Type 0
IsInterrupting reader = (i : ℕ) (e : Error) → reader.done i ≡ some e → is e io_eof ≡ false

finish_read_ok :
    (writer : Writer) (content : Bytes) (failure : Option Error) {r : WriteResult} {synced : Bool}
    → finish_read writer content failure ≡ (ok r, synced)
    → (r.written_bytes ≡ pos (length content))
      × (synced ≡ true)
      × ((e : Error) → failure ≡ some e → is e io_eof ≡ true)
      × (writer.sync content ≡ ok tt)
unfolding finish_read sync_write
finish_read_ok writer content none h =
    (ground arith, ground arith, λ e f. absurd (ground arith), ground arith)
finish_read_ok writer content (some e) h =
    (ground arith, ground arith, λ e' f. ground arith, ground arith)

stream_err :
    (writer : Writer) (expected : ℕ) (reporting : Bool) (e : Error) {r : WriteResult}
    → (stream writer expected reporting (err e)).result ≡ ok r
    → ⊥
unfolding stream
stream_err writer expected reporting e h = ground arith

-- The reader's bytes, whole and no more, are in the destination and synced.
pub record Delivered (writer : Writer) (reader : Reader) (expected : ℕ) (w : Written)
    (r : WriteResult) : Type 0 where
  pub content : w.content ≡ flat reader.pieces
  pub size : length w.content ≡ expected
  pub reported : r.written_bytes ≡ pos expected
  pub synced : w.synced ≡ true
  pub sync_ok : writer.sync w.content ≡ ok tt

finish_ok :
    (writer : Writer) (reader : Reader) (expected : ℕ) (copied : Copied) {r : WriteResult}
    {synced : Bool}
    → finish_write writer reader expected copied ≡ (ok r, synced)
    → (copied.failure ≡ none)
      × (length copied.content ≡ expected)
      × ((failure : Option Error) × (read_extra reader.done reader.finish copied.index copied.rest
            ≡ (false, failure))
          × (finish_read writer copied.content failure ≡ (ok r, synced)))
unfolding finish_write
finish_ok writer reader expected copied h =
    let e1 : copied.failure ≡ none = ground arith in
    let e2 : length copied.content ≡ expected = ground arith in
    let x = read_extra reader.done reader.finish copied.index copied.rest in
    let e3 : x.0 ≡ false = ground arith in
    (e1, e2, (x.1, ground (arith, e3), ground (arith, e1, e2, e3)))

stream_ok :
    (writer : Writer) (expected : ℕ) (reporting : Bool) (reader : Reader) {r : WriteResult}
    → IsInterrupting reader
    → (stream writer expected reporting (ok reader)).result ≡ ok r
    → Delivered writer reader expected (stream writer expected reporting (ok reader)) r
unfolding stream
stream_ok writer expected reporting reader i h =
    let copied = copy_limited writer reader.done reader.finish 0 [] expected reader.pieces in
    let (e1, e2, (failure, e3, e4)) =
      finish_ok writer reader expected copied
        (ap (λ q. (q, (finish_write writer reader expected copied).1)) h) in
    let (f1, f2, f3, f4) = finish_read_ok writer copied.content failure e4 in
    let took = copy_ok writer reader.done reader.finish 0 [] expected reader.pieces e1 in
    let empty =
      read_extra_none reader.done i reader.finish copied.index copied.rest failure e3 f3 in
    record {
      content =
          took.content_eq
          ∙ sym (append-nil took.taken)
          ∙ ap (λ t. took.taken ++ t) (sym empty)
          ∙ sym took.bytes_eq;
      size = e2;
      reported = f1 ∙ ap pos e2;
      synced = f2;
      sync_ok = f4;
    }

module _ (sha256 : Bytes → Bytes) (decode : Reader → Result Reader) where
  -- What the source showed before the first byte was written.
  pub record Reverified (source : Verified) (file : HeldFile) : Type 0 where
    pub size : file.size ≡ ok source.compressed_bytes
    pub hash : encode_to_string (sha256 (flat file.first_pieces)) ≡ source.sha256

  pub reverify_ok :
      (context : ContextErrors) (source : Verified) (file : HeldFile)
      → reverify_source sha256 context source file ≡ ok tt
      → Reverified source file
  unfolding reverify_source
  reverify_ok context source file h = elim (Result-cases file.size) [
    | inl (e, f) ↦ absurd (ground arith)
    | inr (n, f) ↦ elim (Result-cases (read_all context file.first_finish 1 file.first_pieces)) [
      | inl (e, g) ↦ absurd (ground arith)
      | inr (content, g) ↦
          let z : eq_ℤ n source.compressed_bytes ≡ true = ground arith in
          let d : bytes_eq (encode_to_string (sha256 content)) source.sha256 ≡ true =
            ground arith in
          record {
            size = f ∙ ap ok ((eq_ℤ_iff n source.compressed_bytes).0 z);
            hash =
                ap (λ c. encode_to_string (sha256 c))
                  (sym (read_all_ok context file.first_finish 1 file.first_pieces g))
                ∙ (bytes_eq_iff (encode_to_string (sha256 content)) source.sha256).0 d;
          }
    ]
  ]

  locked_eq :
      (context : ContextErrors) (source : Verified) (file : HeldFile) (writer : Writer)
      (expected : ℕ) (reporting : Bool) {r : WriteResult}
      → (write_locked sha256 decode context source file writer expected reporting).result ≡ ok r
      → (reverify_source sha256 context source file ≡ ok tt)
        × (write_locked sha256 decode context source file writer expected reporting
            ≡ stream writer expected reporting (expanded_reader decode context source file))
  unfolding write_locked
  locked_eq context source file writer expected reporting h = (ground arith, ground arith)

  locked_ok :
      (context : ContextErrors) (source : Verified) (file : HeldFile) (writer : Writer)
      (expected : ℕ) (reporting : Bool) {r : WriteResult}
      → ((reader : Reader)
          → expanded_reader decode context source file ≡ ok reader
          → IsInterrupting reader)
      → (write_locked sha256 decode context source file writer expected reporting).result ≡ ok r
      → Reverified source file
        × ((reader : Reader) × (expanded_reader decode context source file ≡ ok reader)
            × Delivered writer reader expected
                (write_locked sha256 decode context source file writer expected reporting)
                r)
  locked_ok context source file writer expected reporting {r = r} i h =
      let (v, q) = locked_eq context source file writer expected reporting h in
      let g = sym (ap (λ w. w.result) q) ∙ h in
      elim (Result-cases (expanded_reader decode context source file)) [
        | inl (e, f) ↦ absurd (
            stream_err writer expected reporting e
              (sym (ap (λ x. (stream writer expected reporting x).result) f) ∙ g))
        | inr (reader, f) ↦
            let w = q ∙ ap (stream writer expected reporting) f in
            (
              reverify_ok context source file v,
              (
                reader,
                f,
                rw w (
                    stream_ok writer expected reporting reader (i reader f)
                      (sym (ap (λ w. w.result) w) ∙ h)),
              ),
            )
      ]

  -- A successful `Write` had a source, a destination and a positive size; it found the held file of the verified size, read
  -- it whole and found the verified hash before the first byte was written; and it left in the
  -- destination exactly the expanded reader's bytes, as many as expected, and synced them. The errors of the contexts
  -- that the reader asks are taken not to be `io.EOF`.
  pub write_delivers :
      (context : Option ContextErrors) (source : Option Verified) (file : HeldFile)
      (destination : Option Writer) (expected : ℤ) (reporting : Bool) {r : WriteResult}
      → ((c : ContextErrors) (s : Verified) (reader : Reader)
          → context ≡ some c
          → source ≡ some s
          → expanded_reader decode c s file ≡ ok reader
          → IsInterrupting reader)
      → (write sha256 decode context source file destination expected reporting).result ≡ ok r
      → (c : ContextErrors) × (s : Verified) × (writer : Writer) × (reader : Reader) × (context
          ≡ some c)
        × (source ≡ some s)
        × (destination ≡ some writer)
        × (pos 0 <ℤ expected)
        × Reverified s file
        × (expanded_reader decode c s file ≡ ok reader)
        × Delivered writer reader
            (pos_part expected)
            (write sha256 decode context source file destination expected reporting)
            r
  unfolding write validate_write_inputs
  write_delivers none source file destination expected reporting i h = absurd (ground arith)
  write_delivers (some c) none file destination expected reporting i h = absurd (ground arith)
  write_delivers (some c) (some s) file none expected reporting i h = absurd (ground arith)
  write_delivers (some c) (some s) file (some writer) expected reporting i h =
      let q : write sha256 decode (some c) (some s) file (some writer) expected reporting
          ≡ write_locked sha256 decode c s file writer (pos_part expected) reporting =
        ground arith in
      let (v, (reader, f, d)) =
        locked_ok c s file writer (pos_part expected) reporting
          (λ reader f. i c s reader refl refl f) (sym (ap (λ w. w.result) q) ∙ h) in
      (c, s, writer, reader, refl, refl, refl, ground arith, v, f, rw q d)
