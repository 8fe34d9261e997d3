-- ===== src/Naming/Semver.antt =====
-- What `ValidSemverTag` accepts: three numbers as `%d` prints them.
use diskforge.Base.{
  ℕ, zero, suc, ◌-◌, ◌≤◌, ◌<◌, ◌≡◌, ◌↔◌, inl, inr, refl, sym, ap, ◌∙◌, Bool, true, false, not, ◌&&◌,
  List, [], ◌∷◌, ◌++◌, arith, Bytes, ◌==◌, leb, if◌then◌else◌, length, all, All, Bool-cases,
  length-append, &&_iff, ==_iff,
}
use diskforge.Go.Strings.{split, join}
use diskforge.Go.Strings.Laws.{join-split, split-append, split-Lacks}
use diskforge.Go.Decimal.{
  print, IsDigit, print-IsDigit, print-value, print_one, value, FirstIsNonzero,
  print-FirstIsNonzero, print-Lacks,
}
use diskforge.Naming.{valid_numeric_identifier, valid_semver_tag, in_digit_range}

in_digit_range_iff : (c : ℕ) → (in_digit_range c ≡ true) ↔ IsDigit c
unfolding in_digit_range
in_digit_range_iff c = ground arith

all_digits_iff : (s : Bytes) → (all in_digit_range s ≡ true) ↔ All IsDigit s
all_digits_iff [] = (λ _. tt, λ _. refl)
all_digits_iff (c ∷ s) = (
  λ h. let (a, b) = (&&_iff _ _).0 h in ((in_digit_range_iff c).0 a, (all_digits_iff s).0 b),
  λ (a, b). (&&_iff _ _).1 ((in_digit_range_iff c).1 a, (all_digits_iff s).1 b),
)

numeric-one : (c : ℕ) → valid_numeric_identifier (c ∷ []) ≡ all in_digit_range (c ∷ [])
unfolding valid_numeric_identifier
numeric-one c = refl

numeric-more :
    (c d : ℕ) (s : Bytes)
    → valid_numeric_identifier (c ∷ d ∷ s)
      ≡ (if c == b'0' then false else all in_digit_range (c ∷ d ∷ s))
unfolding valid_numeric_identifier
numeric-more c d s = ground arith

sound : (s : Bytes) → valid_numeric_identifier s ≡ true → (n : ℕ) × (s ≡ print n)
sound [] h = unfold valid_numeric_identifier in cc h
sound (c ∷ []) h =
    let ((lo, hi), _) = (all_digits_iff (c ∷ [])).0 (sym (numeric-one c) ∙ h) in
    (c - b'0', ap (λ b. b ∷ []) (omega arith) ∙ sym (print_one (c - b'0') (omega arith)))
sound (c ∷ d ∷ s) h = elim (Bool-cases (c == b'0')) [
  | inl e ↦ absurd (ground (arith, numeric-more c d s))
  | inr e ↦
      let digits : All IsDigit (c ∷ d ∷ s) =
        (all_digits_iff (c ∷ d ∷ s)).0 (rw e at (sym (numeric-more c d s) ∙ h)) in
      let ((lo, hi), rest) = digits in
      let positive : 0 < c - b'0' = ground arith in
      (
        value (c - b'0') (d ∷ s),
        sym (
            print-value (c - b'0') (d ∷ s) positive rest
            ∙ ap (λ t. t ++ d ∷ s) (print_one (c - b'0') (omega arith))
            ∙ ap (λ b. b ∷ d ∷ s) (omega arith)),
      )
]

complete_of : (s : Bytes) → All IsDigit s → FirstIsNonzero s → valid_numeric_identifier s ≡ true
complete_of [] h f = absurd f
complete_of (c ∷ []) h f = numeric-one c ∙ (all_digits_iff (c ∷ [])).1 h
complete_of (c ∷ d ∷ s) h f = ground (arith, numeric-more c d s, (all_digits_iff (c ∷ d ∷ s)).1 h)

complete : (n : ℕ) → valid_numeric_identifier (print n) ≡ true
complete zero = unfold valid_numeric_identifier print in refl
complete (suc n) =
    complete_of (print (suc n)) (print-IsDigit (suc n)) (print-FirstIsNonzero (suc n) (omega arith))

-- `validNumericIdentifier` accepts the decimal prints of the numbers and nothing else.
pub valid_numeric_identifier_iff :
    (s : Bytes) → (valid_numeric_identifier s ≡ true) ↔ ((n : ℕ) × (s ≡ print n))
valid_numeric_identifier_iff s = (sound s, λ (n, e). rw e (complete n))

-- `vMAJOR.MINOR.PATCH`
abbrev pub tag_of : ℕ → ℕ → ℕ → Bytes
tag_of major minor patch = b'v' ∷ (print major ++ b'.' ∷ (print minor ++ b'.' ∷ print patch))

abbrev three_numeric : List Bytes → Bool
three_numeric cs = if not (length cs == 3) then false else all valid_numeric_identifier cs

valid_semver_tag-cons :
    (c : ℕ) (s : Bytes)
    → valid_semver_tag (c ∷ s)
      ≡ (leb 6 (length (c ∷ s)) && (c == b'v' && three_numeric (split s b'.')))
unfolding valid_semver_tag
valid_semver_tag-cons c s = ground arith

tag-parts :
    (c : ℕ) (s : Bytes)
    → valid_semver_tag (c ∷ s) ≡ true
    → (c ≡ b'v') × (three_numeric (split s b'.') ≡ true)
tag-parts c s h =
    let h' : (leb 6 (length (c ∷ s)) && (c == b'v' && three_numeric (split s b'.'))) ≡ true =
      sym (valid_semver_tag-cons c s) ∙ h in
    let rest = ((&&_iff _ (c == b'v' && three_numeric (split s b'.'))).0 h').1 in
    (
      (==_iff c b'v').0 ((&&_iff (c == b'v') (three_numeric (split s b'.'))).0 rest).0,
      ((&&_iff (c == b'v') (three_numeric (split s b'.'))).0 rest).1,
    )

three_numeric_sound :
    (cs : List Bytes)
    → three_numeric cs ≡ true
    → (major : ℕ) × (minor : ℕ) × (patch : ℕ) × (cs ≡ print major ∷ print minor ∷ print patch ∷ [])
three_numeric_sound [] h = cc h
three_numeric_sound (a ∷ []) h = cc h
three_numeric_sound (a ∷ b ∷ []) h = cc h
three_numeric_sound (a ∷ b ∷ c ∷ d ∷ cs) h = absurd (ground arith)
three_numeric_sound (a ∷ b ∷ c ∷ []) h =
    let (ha, hbc) = (&&_iff _ _).0 h in
    let (hb, hc) = (&&_iff _ _).0 hbc in
    let (hc', _) = (&&_iff _ _).0 hc in
    let (x, ex) = sound a ha in
    let (y, ey) = sound b hb in let (z, ez) = sound c hc' in (x, y, z, cc)

print-length : (n : ℕ) → 1 ≤ length (print n)
print-length zero = unfold print in omega arith
print-length (suc n) = nonempty (print (suc n)) (print-FirstIsNonzero (suc n) (omega arith))
  where
    nonempty : (s : Bytes) → FirstIsNonzero s → 1 ≤ length s
    nonempty [] h = absurd h
    nonempty (c ∷ s) h = omega arith

split-tag :
    (a b c : ℕ)
    → split (print a ++ b'.' ∷ (print b ++ b'.' ∷ print c)) b'.' ≡ print a ∷ print b ∷ print c ∷ []
split-tag a b c = rw (
  split-append (print a) _ b'.' (print-Lacks b'.' a (ground arith)),
  split-append (print b) _ b'.' (print-Lacks b'.' b (ground arith)),
  split-Lacks (print c) b'.' (print-Lacks b'.' c (ground arith)),
)

join-three : (a b c : Bytes) (sep : ℕ) → join (a ∷ b ∷ c ∷ []) sep ≡ a ++ sep ∷ (b ++ sep ∷ c)
unfolding join
join-three a b c sep = refl

tag-length : (a b c : ℕ) → leb 6 (length (tag_of a b c)) ≡ true
tag-length a b c = ground (
  arith,
  print-length a,
  print-length b,
  print-length c,
  length-append (print a) (b'.' ∷ (print b ++ b'.' ∷ print c)),
  length-append (print b) (b'.' ∷ print c),
)

-- `ValidSemverTag` accepts exactly the texts `vMAJOR.MINOR.PATCH` of three decimal numbers.
pub valid_semver_tag_iff :
    (s : Bytes)
    → (valid_semver_tag s ≡ true)
      ↔ ((major : ℕ) × (minor : ℕ) × (patch : ℕ) × (s ≡ tag_of major minor patch))
valid_semver_tag_iff s = (forth s, λ (a, b, c, e). rw e (back a b c))
  where
    forth :
        (s : Bytes)
        → valid_semver_tag s ≡ true
        → (major : ℕ) × (minor : ℕ) × (patch : ℕ) × (s ≡ tag_of major minor patch)
    forth [] h = unfold valid_semver_tag in cc h
    forth (c ∷ s) h =
        let (hv, hs) = tag-parts c s h in
        let (x, y, z, e) = three_numeric_sound (split s b'.') hs in
        let body : s ≡ print x ++ b'.' ∷ (print y ++ b'.' ∷ print z) =
          sym (join-split s b'.') ∙ ap (λ t. join t b'.') e ∙ join-three _ _ _ b'.' in
        (x, y, z, cc (hv, body))

    back : (a b c : ℕ) → valid_semver_tag (tag_of a b c) ≡ true
    back a b c =
        valid_semver_tag-cons b'v' _
        ∙ rw (tag-length a b c, split-tag a b c, complete a, complete b, complete c)
