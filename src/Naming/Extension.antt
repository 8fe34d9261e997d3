-- ===== src/Naming/Extension.antt =====
-- What `validExtension` accepts, as a predicate that knows nothing of its loop.
use diskforge.Base.{
  ℕ, ◌≤◌, ◌≡◌, ◌↔◌, ◌⊎◌, inl, inr, refl, sym, ◌∙◌, Bool, true, false, [], ◌∷◌, arith, Bytes, leb,
  if◌then◌else◌, length, leb→le, All, Bool-cases,
}
use diskforge.Naming.{valid_extension, extension_loop, is_lower_alphanumeric}
use diskforge.Naming.Label.{IsLowerAlphanumeric, is_lower_alphanumeric_iff, First, Last}

abbrev pub IsSeparator : ℕ → Type 0
IsSeparator c = (c ≡ b'.') ⊎ (c ≡ b'-')

-- No two separators stand side by side.
abbrev pub NoDoubleSeparator : Bytes → Type 0
NoDoubleSeparator [] = Unit {0}
NoDoubleSeparator (c ∷ []) = Unit {0}
NoDoubleSeparator (c ∷ d ∷ s) = ¬ (IsSeparator c × IsSeparator d) × NoDoubleSeparator (d ∷ s)

-- An extension has 1 to 63 bytes, all of them lowercase letters, digits, dots and dashes, begins and
-- ends with a letter or a digit, and holds no two separators side by side.
pub record IsExtension (s : Bytes) : Type 0 where
  pub first : First IsLowerAlphanumeric s
  pub last : Last IsLowerAlphanumeric s
  pub bytes : All (λ c. IsLowerAlphanumeric c ⊎ IsSeparator c) s
  pub single : NoDoubleSeparator s
  pub short : length s ≤ 63

not_both : (c : ℕ) → IsLowerAlphanumeric c → IsSeparator c → ⊥
not_both c a s = ground arith

loop-alphanumeric :
    (c : ℕ) (s : Bytes) (b : Bool)
    → is_lower_alphanumeric c ≡ true
    → extension_loop (c ∷ s) b ≡ extension_loop s false
unfolding extension_loop
loop-alphanumeric c s b h = rw h

loop-other :
    (c : ℕ) (s : Bytes) (b : Bool)
    → is_lower_alphanumeric c ≡ false
    → extension_loop (c ∷ s) b ≡ true
    → IsSeparator c × (b ≡ false) × (extension_loop s true ≡ true)
unfolding extension_loop
loop-other c s b h e = ground arith

loop-separator :
    (c : ℕ) (s : Bytes) → IsSeparator c → extension_loop (c ∷ s) false ≡ extension_loop s true
unfolding extension_loop is_lower_alphanumeric
loop-separator c s h = ground arith

-- What the flag says of the byte before.
abbrev Kind : Bool → ℕ → Type 0
Kind true c = IsSeparator c
Kind false c = IsLowerAlphanumeric c

-- What the bytes behind `c` must be for the whole to be an extension.
record Tail (c : ℕ) (s : Bytes) : Type 0 where
  last : Last IsLowerAlphanumeric (c ∷ s)
  bytes : All (λ c. IsLowerAlphanumeric c ⊎ IsSeparator c) s
  single : NoDoubleSeparator (c ∷ s)

not_both_kinds :
    (b : Bool) (c d : ℕ) → Kind b c → IsLowerAlphanumeric d → ¬ (IsSeparator c × IsSeparator d)
not_both_kinds b c d k a (_, s) = not_both d a s

loop_sound : (s : Bytes) (b : Bool) (c : ℕ) → Kind b c → extension_loop s b ≡ true → Tail c s
loop_sound [] true c k h = unfold extension_loop in cc h
loop_sound [] false c k h = record { last = k; bytes = tt; single = tt }
loop_sound (d ∷ s) b c k h = elim (Bool-cases (is_lower_alphanumeric d)) [
  | inl e ↦
      let a = (is_lower_alphanumeric_iff d).0 e in
      let t = loop_sound s false d a (sym (loop-alphanumeric d s b e) ∙ h) in
      record {
        last = t.last;
        bytes = (inl a, t.bytes);
        single = (not_both_kinds b c d k a, t.single);
      }
  | inr e ↦
      let (sep, was, rest) = loop-other d s b e h in
      let t = loop_sound s true d sep rest in
      let a : IsLowerAlphanumeric c = rw was at k in
      record {
        last = t.last;
        bytes = (inr sep, t.bytes);
        single = (λ (x, _). not_both c a x, t.single);
      }
]

behind_separator :
    (b : Bool) (c d : ℕ) (s : Bytes)
    → Kind b c
    → ¬ (IsSeparator c × IsSeparator d)
    → IsSeparator d
    → extension_loop s true ≡ true
    → extension_loop (d ∷ s) b ≡ true
behind_separator true c d s k h sep e = absurd (h (k, sep))
behind_separator false c d s k h sep e = loop-separator d s sep ∙ e

loop_complete : (s : Bytes) (b : Bool) (c : ℕ) → Kind b c → Tail c s → extension_loop s b ≡ true
loop_complete [] true c k t = absurd (not_both c t.last k)
loop_complete [] false c k t = unfold extension_loop in refl
loop_complete (d ∷ s) b c k t = go (λ b' k'. loop_complete s b' d k' rest) t.bytes.0
  where
    rest : Tail d s
    rest = record { last = t.last; bytes = t.bytes.1; single = t.single.1 }

    go :
        ((b' : Bool) → Kind b' d → extension_loop s b' ≡ true)
        → IsLowerAlphanumeric d ⊎ IsSeparator d
        → extension_loop (d ∷ s) b ≡ true
    go ih (inl a) = loop-alphanumeric d s b ((is_lower_alphanumeric_iff d).1 a) ∙ ih false a
    go ih (inr sep) = behind_separator b c d s k t.single.0 sep (ih true sep)

valid_extension-cons :
    (c : ℕ) (s : Bytes)
    → valid_extension (c ∷ s)
      ≡ (if leb (length (c ∷ s)) 63 then extension_loop (c ∷ s) true else false)
unfolding valid_extension
valid_extension-cons c s = ground arith

-- At the start the flag is set, so the first byte is a letter or a digit.
loop_start :
    (c : ℕ) (s : Bytes) → extension_loop (c ∷ s) true ≡ true → is_lower_alphanumeric c ≡ true
unfolding extension_loop
loop_start c s h = ground arith

-- `validExtension` decides `IsExtension`.
pub valid_extension_iff : (s : Bytes) → (valid_extension s ≡ true) ↔ IsExtension s
valid_extension_iff [] = (λ h. unfold valid_extension in cc h, λ x. absurd x.first)
valid_extension_iff (c ∷ s) = (forth, back)
  where
    forth : valid_extension (c ∷ s) ≡ true → IsExtension (c ∷ s)
    forth h =
        let short : leb (length (c ∷ s)) 63 ≡ true = ground (arith, valid_extension-cons c s) in
        let run : extension_loop (c ∷ s) true ≡ true = ground (arith, valid_extension-cons c s) in
        let a = loop_start c s run in
        let k = (is_lower_alphanumeric_iff c).0 a in
        let t = loop_sound s false c k (sym (loop-alphanumeric c s true a) ∙ run) in
        record {
          first = k;
          last = t.last;
          bytes = (inl k, t.bytes);
          single = t.single;
          short = leb→le _ 63 short;
        }

    back : IsExtension (c ∷ s) → valid_extension (c ∷ s) ≡ true
    back x =
        let t : Tail c s = record { last = x.last; bytes = x.bytes.1; single = x.single } in
        let a = (is_lower_alphanumeric_iff c).1 x.first in
        let run : extension_loop (c ∷ s) true ≡ true =
          loop-alphanumeric c s true a ∙ loop_complete s false c x.first t in
        let short : length (c ∷ s) ≤ 63 = x.short in ground (arith, valid_extension-cons c s)
