-- ===== src/Go/Decimal.antt =====
-- `%d` of a non-negative number, in decimal.
use diskforge.Base.{
  ℕ, zero, suc, ◌+◌, ◌-◌, ◌*◌, ◌/◌, ◌%◌, ◌≤◌, ◌<◌, ◌≡◌, ◌≢◌, refl, sym, ◌∙◌, ap, Bool, false, ◌&&◌,
  [], ◌∷◌, ◌++◌, append_assoc, append-nil, arith, Bytes, ltb, leb, if◌then◌else◌, All, Bool-cases,
  inl, inr, All-append, Lacks, All-map,
}

abbrev digit : ℕ → ℕ
digit d = b'0' + d

-- The fuel bounds the number of digits; a number has at most as many digits as one more than itself.
print_fuel : ℕ → ℕ → Bytes
print_fuel zero n = []
print_fuel (suc f) n =
    let more = print_fuel f (n / 10) in
    if ltb n 10 then digit n ∷ [] else more ++ digit (n % 10) ∷ []

unfoldable pub print : ℕ → Bytes
unfolding print_fuel
print n = print_fuel (suc n) n

abbrev pub is_digit : ℕ → Bool
is_digit c = leb b'0' c && leb c b'9'

abbrev pub IsDigit : ℕ → Type 0
IsDigit c = (b'0' ≤ c) × (c ≤ b'9')

-- More fuel than the number changes nothing.
print_fuel_enough : (f g n : ℕ) → n < f → n < g → print_fuel f n ≡ print_fuel g n
unfolding print_fuel
print_fuel_enough zero g n h k = elim h [ ]
print_fuel_enough (suc f) zero n h k = elim k [ ]
print_fuel_enough (suc f) (suc g) n h k = elim (Bool-cases (ltb n 10)) [
  | inl e ↦ rw e
  | inr e ↦ rw (e, print_fuel_enough f g (n / 10) (ground arith) (ground arith))
]

pub print_one : (n : ℕ) → n < 10 → print n ≡ (b'0' + n) ∷ []
unfolding print
print_one n h = ground arith

-- A number of two digits or more is printed by printing all but its last digit first.
pub print_more : (n d : ℕ) → 0 < n → d < 10 → print (n * 10 + d) ≡ print n ++ (b'0' + d) ∷ []
unfolding print
print_more n d h k =
    let m : (n * 10 + d) / 10 ≡ n = omega arith in
    let l : (n * 10 + d) % 10 ≡ d = omega arith in
    let t : ltb (n * 10 + d) 10 ≡ false = ground arith in
    rw (t, m, l, print_fuel_enough (n * 10 + d) (suc n) n (omega arith) (omega arith))

-- The number that digits spell behind `n`.
abbrev pub value : ℕ → Bytes → ℕ
value n [] = n
value n (c ∷ s) = value (n * 10 + (c - b'0')) s

-- Reading digits behind a positive number and printing the result gives the digits back.
pub print-value : (n : ℕ) (s : Bytes) → 0 < n → All IsDigit s → print (value n s) ≡ print n ++ s
print-value n [] h hs = sym (append-nil _)
print-value n (c ∷ s) h ((lo, hi), hs) =
    print-value (n * 10 + (c - b'0')) s (omega arith) hs
    ∙ ap (λ t. t ++ s) (print_more n (c - b'0') h (omega arith))
    ∙ append_assoc (print n) _ s
    ∙ ap (λ b. print n ++ b ∷ s) (omega arith)

print_fuel-IsDigit : (f n : ℕ) → All IsDigit (print_fuel f n)
unfolding print_fuel
print_fuel-IsDigit zero n = tt
print_fuel-IsDigit (suc f) n = elim (Bool-cases (ltb n 10)) [
  | inl e ↦ rw e ((omega arith, ground arith), tt)
  | inr e ↦
      rw e (All-append IsDigit _ _ (print_fuel-IsDigit f (n / 10)) ((omega arith, omega arith), tt))
]

pub print-IsDigit : (n : ℕ) → All IsDigit (print n)
unfolding print
print-IsDigit n = print_fuel-IsDigit (suc n) n

pub print-Lacks : (b n : ℕ) → is_digit b ≡ false → Lacks b (print n)
print-Lacks b n h = All-map IsDigit _ (λ c (lo, hi) e. ground arith) (print n) (print-IsDigit n)

-- The first digit of a positive number is not 0.
abbrev pub FirstIsNonzero : Bytes → Type 0
FirstIsNonzero [] = ⊥
FirstIsNonzero (c ∷ s) = c ≢ b'0'

FirstIsNonzero-append : (s t : Bytes) → FirstIsNonzero s → FirstIsNonzero (s ++ t)
FirstIsNonzero-append [] t h = absurd h
FirstIsNonzero-append (c ∷ s) t h = h

print_fuel-FirstIsNonzero : (f n : ℕ) → 0 < n → n < f → FirstIsNonzero (print_fuel f n)
unfolding print_fuel
print_fuel-FirstIsNonzero zero n h k = elim k [ ]
print_fuel-FirstIsNonzero (suc f) n h k = elim (Bool-cases (ltb n 10)) [
  | inl e ↦ rw e (omega arith)
  | inr e ↦ rw e (
      FirstIsNonzero-append (print_fuel f (n / 10)) _
        (print_fuel-FirstIsNonzero f (n / 10) (ground arith) (ground arith)))
]

pub print-FirstIsNonzero : (n : ℕ) → 0 < n → FirstIsNonzero (print n)
unfolding print
print-FirstIsNonzero n h = print_fuel-FirstIsNonzero (suc n) n h (omega arith)

value-append : (n : ℕ) (s : Bytes) (c : ℕ) → value n (s ++ c ∷ []) ≡ value n s * 10 + (c - b'0')
value-append n [] c = refl
value-append n (d ∷ s) c = value-append (n * 10 + (d - b'0')) s c

value-print_fuel : (f n : ℕ) → n < f → value 0 (print_fuel f n) ≡ n
unfolding print_fuel
value-print_fuel zero n h = elim h [ ]
value-print_fuel (suc f) n h = elim (Bool-cases (ltb n 10)) [
  | inl e ↦ rw e (omega arith)
  | inr e ↦
      rw (e, value-append 0 (print_fuel f (n / 10)) (digit (n % 10)))
        (ground (arith, value-print_fuel f (n / 10)))
]

-- Reading a print gives the number back.
pub value-print : (n : ℕ) → value 0 (print n) ≡ n
unfolding print
value-print n = value-print_fuel (suc n) n (omega arith)

pub print_inj : (m n : ℕ) → print m ≡ print n → m ≡ n
print_inj m n e = sym (value-print m) ∙ ap (value 0) e ∙ value-print n

append-ne-nil : (s : Bytes) (c : ℕ) → s ++ c ∷ [] ≢ []
append-ne-nil [] c e = cc
append-ne-nil (d ∷ s) c e = cc

pub print-ne-nil : (n : ℕ) → print n ≢ []
unfolding print print_fuel
print-ne-nil n e = elim (Bool-cases (ltb n 10)) [
  | inl h ↦ cc (rw h at e)
  | inr h ↦ append-ne-nil (print_fuel n (n / 10)) (digit (n % 10)) (rw h at e)
]
