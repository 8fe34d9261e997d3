-- ===== src/Naming/Label.antt =====
-- What `ValidLabel` accepts, as a predicate that knows nothing of its loop.
use diskforge.Base.{
  ℕ, zero, suc, ◌-◌, ◌≤◌, ◌≡◌, ◌↔◌, ◌⊎◌, inl, refl, sym, ◌∙◌, Bool, true, ◌&&◌, ◌||◌, [], ◌∷◌,
  arith, Bytes, ◌==◌, leb, length, take, all, All, Lacks, All-map,
}
use diskforge.Go.Strings.{test_at}
use diskforge.Naming.{valid_label, label_loop, is_lower_alphanumeric}

abbrev pub IsLowerAlphanumeric : ℕ → Type 0
IsLowerAlphanumeric c = (b'a' ≤ c) × (c ≤ b'z') ⊎ (b'0' ≤ c) × (c ≤ b'9')

abbrev pub IsLabelByte : ℕ → Type 0
IsLabelByte c = IsLowerAlphanumeric c ⊎ (c ≡ b'-')

module _ (P : ℕ → Type 0) where
  abbrev pub First : Bytes → Type 0
  First [] = ⊥
  First (c ∷ s) = P c

  abbrev pub Last : Bytes → Type 0
  Last [] = ⊥
  Last (c ∷ []) = P c
  Last (c ∷ d ∷ s) = Last (d ∷ s)

-- A label has 1 to 63 bytes, all of them lowercase letters, digits and dashes, and begins and ends
-- with no dash.
pub record IsLabel (s : Bytes) : Type 0 where
  pub first : First IsLowerAlphanumeric s
  pub last : Last IsLowerAlphanumeric s
  pub bytes : All IsLabelByte s
  pub short : length s ≤ 63

pub is_lower_alphanumeric_iff : (c : ℕ) → (is_lower_alphanumeric c ≡ true) ↔ IsLowerAlphanumeric c
unfolding is_lower_alphanumeric
is_lower_alphanumeric_iff c = ground arith

label_byte : ℕ → Bool
label_byte c = is_lower_alphanumeric c || c == b'-'

label_byte_iff : (c : ℕ) → (label_byte c ≡ true) ↔ IsLabelByte c
unfolding label_byte
label_byte_iff c = ground (arith, is_lower_alphanumeric_iff c)

-- The loop from `index` reads what stands behind the first byte from `index - 1`.
label_loop-cons :
    (rounds index c : ℕ) (s : Bytes)
    → label_loop rounds (suc index) (c ∷ s) ≡ label_loop rounds index s
unfolding label_loop
label_loop-cons zero index c s = refl
label_loop-cons (suc rounds) index c s = ground (arith, label_loop-cons rounds (suc index) c s)

label_loop-all :
    (rounds : ℕ) (s : Bytes)
    → rounds ≤ length s
    → label_loop rounds 0 s ≡ all label_byte (take rounds s)
unfolding label_loop label_byte
label_loop-all zero s h = refl
label_loop-all (suc rounds) [] h = absurd (omega arith)
label_loop-all (suc rounds) (c ∷ s) h =
    ground (arith, label_loop-cons rounds 0 c s, label_loop-all rounds s)

last_test : (p : ℕ → Bool) → ℕ → Bytes → Bool
last_test p c [] = p c
last_test p c (d ∷ s) = last_test p d s

test_at-last : (p : ℕ → Bool) (c : ℕ) (s : Bytes) → test_at p (c ∷ s) (length s) ≡ last_test p c s
unfolding test_at last_test
test_at-last p c [] = refl
test_at-last p c (d ∷ s) = test_at-last p d s

last_test_iff :
    (c : ℕ) (s : Bytes)
    → (last_test is_lower_alphanumeric c s ≡ true) ↔ Last IsLowerAlphanumeric (c ∷ s)
unfolding last_test
last_test_iff c [] = is_lower_alphanumeric_iff c
last_test_iff c (d ∷ s) = last_test_iff d s

-- Where the last byte is alphanumeric, reading all but the last is reading all.
init_sound :
    (c : ℕ) (s : Bytes)
    → last_test is_lower_alphanumeric c s ≡ true
    → all label_byte (take (length s) (c ∷ s)) ≡ true
    → All IsLabelByte (c ∷ s)
unfolding last_test
init_sound c [] h e = (inl ((is_lower_alphanumeric_iff c).0 h), tt)
init_sound c (d ∷ s) h e = ((label_byte_iff c).0 (ground arith), init_sound d s h (ground arith))

init_complete :
    (c : ℕ) (s : Bytes) → All IsLabelByte (c ∷ s) → all label_byte (take (length s) (c ∷ s)) ≡ true
init_complete c [] h = refl
init_complete c (d ∷ s) (h, hs) = rw ((label_byte_iff c).1 h) (init_complete d s hs)

-- The bytes between the first and the last, read by the loop.
loop_interior :
    (c d : ℕ) (s : Bytes)
    → label_loop (length (c ∷ d ∷ s) - 2) 1 (c ∷ d ∷ s) ≡ all label_byte (take (length s) (d ∷ s))
loop_interior c d s =
    let e : length (c ∷ d ∷ s) - 2 ≡ length s = omega arith in
    rw (e, label_loop-cons (length s) 0 c (d ∷ s)) (label_loop-all (length s) (d ∷ s) (omega arith))

last_index :
    (c : ℕ) (s : Bytes)
    → test_at is_lower_alphanumeric (c ∷ s) (length (c ∷ s) - 1)
      ≡ last_test is_lower_alphanumeric c s
last_index c s =
    let e : length (c ∷ s) - 1 ≡ length s = omega arith in
    rw e (test_at-last is_lower_alphanumeric c s)

valid_label-one : (c : ℕ) → valid_label (c ∷ []) ≡ is_lower_alphanumeric c
unfolding valid_label test_at
valid_label-one c = ground arith

-- With two bytes or more the guards and the loop are one conjunction.
valid_label-more :
    (c d : ℕ) (s : Bytes)
    → valid_label (c ∷ d ∷ s) ≡ (
        leb (length (c ∷ d ∷ s)) 63
        && (is_lower_alphanumeric c
            && (last_test is_lower_alphanumeric c (d ∷ s)
                && all label_byte (take (length s) (d ∷ s)))))
unfolding valid_label test_at
valid_label-more c d s = ground (arith, loop_interior c d s, last_index c (d ∷ s))

-- `ValidLabel` decides `IsLabel`.
pub valid_label_iff : (s : Bytes) → (valid_label s ≡ true) ↔ IsLabel s
unfolding last_test
valid_label_iff [] = (λ h. unfold valid_label in cc h, λ l. absurd l.first)
valid_label_iff (c ∷ []) = (
  λ h.
      let a = (is_lower_alphanumeric_iff c).0 (sym (valid_label-one c) ∙ h) in
      record { first = a; last = a; bytes = (inl a, tt); short = omega arith },
  λ l. valid_label-one c ∙ (is_lower_alphanumeric_iff c).1 l.first,
)
valid_label_iff (c ∷ d ∷ s) = (forth, back)
  where
    forth : valid_label (c ∷ d ∷ s) ≡ true → IsLabel (c ∷ d ∷ s)
    forth h =
        let l : last_test is_lower_alphanumeric c (d ∷ s) ≡ true =
          ground (arith, valid_label-more c d s) in
        let f = (is_lower_alphanumeric_iff c).0 (ground (arith, valid_label-more c d s)) in
        record {
          first = f;
          last = (last_test_iff c (d ∷ s)).0 l;
          bytes = (inl f, init_sound d s l (ground (arith, valid_label-more c d s)));
          short = ground (arith, valid_label-more c d s);
        }

    back : IsLabel (c ∷ d ∷ s) → valid_label (c ∷ d ∷ s) ≡ true
    back l = ground (
      arith,
      valid_label-more c d s,
      (is_lower_alphanumeric_iff c).1 l.first,
      (last_test_iff c (d ∷ s)).1 l.last,
      init_complete d s (l.bytes.1),
      l.short,
    )

-- A label holds none of the bytes that separate names in a path or in an artifact's name.
pub IsLabel-Lacks : (b : ℕ) (s : Bytes) → IsLabel s → ¬ IsLabelByte b → Lacks b s
IsLabel-Lacks b s l h = All-map IsLabelByte _ (λ c hc e. h (rw (← e) hc)) s l.bytes
