-- ===== src/Image/Write/Safety.antt =====
-- What `Write` may have done to the destination, however it ends.
use diskforge.Base.{
  ◌+◌, ℕ, ◌≡◌, ◌≤◌, refl, sym, ap, ◌∙◌, ◌⊎◌, inl, inr, Bool, true, false, Option, none, some, List,
  [], ◌∷◌, ◌++◌, Bytes, length, arith, Option-cases, if◌then◌else◌,
}
use diskforge.Base.Int.{ℤ, pos_part}
use diskforge.Errors.{Result-cases, Result, ok}
use diskforge.Image.Model.{Verified}
use diskforge.Image.Streams.{Reader, Writer, copy_limited}
use diskforge.Image.Streams.Laws.{flat}
use diskforge.Image.Streams.Bounds.{IsLawful, IsRising, IsRising-shift, copy-Kept}
use diskforge.Image.Write.{
  HeldFile, ContextErrors, Written, write, write_locked, stream, reverify_source, expanded_reader,
  validate_write_inputs,
}
use diskforge.Image.Write.Delivery.{Reverified, reverify_ok}

-- The destination holds a first part of the reader's bytes, at most `expected`, and the reported counts rise up to it.
pub record Contained (reader : Reader) (expected : ℕ) (w : Written) : Type 0 where
  pub left : Bytes
  pub prefix : flat reader.pieces ≡ w.content ++ left
  pub bounded : length w.content ≤ expected
  pub reported : (w.reports ≡ []) ⊎ ((ns : List ℕ) × (w.reports ≡ 0 ∷ ns) × IsRising 0 expected ns)

stream-Contained :
    (writer : Writer) (expected : ℕ) (reporting : Bool) (reader : Reader)
    → IsLawful writer
    → Contained reader expected (stream writer expected reporting (ok reader))
unfolding stream
stream-Contained writer expected reporting reader l =
    let k = copy-Kept writer l reader.done reader.finish 0 [] expected reader.pieces in
    let copied = copy_limited writer reader.done reader.finish 0 [] expected reader.pieces in
    record {
      left = k.left;
      prefix = k.bytes_eq ∙ ap (λ t. t ++ k.left) (sym k.content_eq);
      bounded = rw k.content_eq k.bounded;
      reported = counts reporting copied.reports (
          IsRising-shift 0 0 (0 + expected) expected copied.reports copied.reports refl
            (omega arith) refl k.rising);
    }
  where
    counts :
        (b : Bool) (ns : List ℕ)
        → IsRising 0 expected ns
        → ((if b then 0 ∷ ns else []) ≡ [])
          ⊎ ((ms : List ℕ) × ((if b then 0 ∷ ns else []) ≡ 0 ∷ ms) × IsRising 0 expected ms)
    counts true ns r = inr (ns, refl, r)
    counts false ns r = inl refl

module _ (sha256 : Bytes → Bytes) (decode : Reader → Result Reader) where
  -- Nothing was written or reported, or the source was found unchanged and its bytes went to the
  -- destination in order.
  abbrev pub IsSafe : Option ContextErrors → Option Verified → HeldFile → ℕ → Written → Type 0
  IsSafe context source file expected w =
      ((w.content ≡ []) × (w.reports ≡ []))
      ⊎ ((c : ContextErrors) × (s : Verified) × (reader : Reader) × (context ≡ some c)
          × (source ≡ some s)
          × Reverified sha256 decode s file
          × (expanded_reader decode c s file ≡ ok reader)
          × Contained reader expected w)

  locked-IsSafe :
      (c : ContextErrors) (s : Verified) (file : HeldFile) (writer : Writer) (expected : ℕ)
      (reporting : Bool)
      → IsLawful writer
      → IsSafe
          (some c)
          (some s)
          file
          expected
          (write_locked sha256 decode c s file writer expected reporting)
  unfolding write_locked stream
  locked-IsSafe c s file writer expected reporting l = elim (Option-cases s.file) [
    | inl e ↦ inl (ground arith)
    | inr (d, e) ↦ elim (Result-cases (reverify_source sha256 c s file)) [
      | inl (x, f) ↦ inl (ground arith)
      | inr (u, f) ↦ elim (Result-cases (expanded_reader decode c s file)) [
        | inl (x, g) ↦ inl (ground arith)
        | inr (reader, g) ↦
            let q : write_locked sha256 decode c s file writer expected reporting
                ≡ stream writer expected reporting (ok reader) =
              ground arith in
            inr (
              c,
              s,
              reader,
              refl,
              refl,
              reverify_ok sha256 decode c s file f,
              g,
              rw q (stream-Contained writer expected reporting reader l),
            )
      ]
    ]
  ]

  -- However `Write` ends, it wrote and reported nothing, or it had found the held file unchanged, and the destination holds
  -- a first part of the expanded reader's bytes, at most the expected number, with reported counts that start at 0
  -- and rise up to at most that number. The destination takes no more than it is given.
  pub write-IsSafe :
      (context : Option ContextErrors) (source : Option Verified) (file : HeldFile)
      (destination : Option Writer) (expected : ℤ) (reporting : Bool)
      → ((d : Writer) → destination ≡ some d → IsLawful d)
      → IsSafe context source file
          (pos_part expected)
          (write sha256 decode context source file destination expected reporting)
  unfolding write validate_write_inputs
  write-IsSafe none source file destination expected reporting l = inl (refl, refl)
  write-IsSafe (some c) none file destination expected reporting l = inl (ground arith)
  write-IsSafe (some c) (some s) file none expected reporting l = inl (ground arith)
  write-IsSafe (some c) (some s) file (some writer) expected reporting l =
      elim (Result-cases (validate_write_inputs (some c) (some s) (some writer) expected)) [
        | inl (e, f) ↦ inl (ground arith)
        | inr (u, f) ↦
            let q : write sha256 decode (some c) (some s) file (some writer) expected reporting
                ≡ write_locked sha256 decode c s file writer (pos_part expected) reporting =
              ground arith in
            rw q (locked-IsSafe c s file writer (pos_part expected) reporting (l writer refl))
      ]
