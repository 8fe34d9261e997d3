-- ===== src/Policy/Confirmation/Text.antt =====
-- What a confirmation record is made of, and that no field's text runs into the next one's.
use diskforge.Base.{
  ℕ, suc, ◌≤◌, ◌≡◌, ◌≢◌, ◌↔◌, refl, sym, ap, ◌∙◌, true, false, [], ◌∷◌, ◌++◌, arith, Bytes, codes,
  leb, if◌then◌else◌, length, all, All, All-map, Lacks, &&_iff,
}
use diskforge.Base.Int.{ℤ, pos, negsuc}
use diskforge.Go.Strings.Laws.{
  append_separator_inj, append_counted_inj, count, count-append, count-cons_self, count-Lacks,
  count-nil,
}
use diskforge.Go.Decimal.{print, print_inj, print-Lacks, IsDigit, print-IsDigit}
use diskforge.Go.Hex.Laws.{IsDigest, IsHexDigit}
use diskforge.Policy.Model.{TargetIdentity, ImageIdentity}
use diskforge.Policy.Confirmation.{
  valid_identity_text, is_printable, print_int, newline, confirmation_record,
}

abbrev pub IsPrintable : ℕ → Type 0
IsPrintable c = (0x20 ≤ c) × (c ≤ 0x7e)

-- At most 256 printable ASCII characters, possibly none.
pub record IsIdentityText (s : Bytes) : Type 0 where
  pub printable : All IsPrintable s
  pub short : length s ≤ 256

is_printable_iff : (c : ℕ) → (is_printable c ≡ true) ↔ IsPrintable c
unfolding is_printable
is_printable_iff c = ground arith

all-IsPrintable_iff : (s : Bytes) → (all is_printable s ≡ true) ↔ All IsPrintable s
all-IsPrintable_iff [] = (λ _. tt, λ _. refl)
all-IsPrintable_iff (c ∷ s) = (
  λ h.
      let (a, b) = (&&_iff (is_printable c) (all is_printable s)).0 h in
      ((is_printable_iff c).0 a, (all-IsPrintable_iff s).0 b),
  λ (a, b). (&&_iff _ _).1 ((is_printable_iff c).1 a, (all-IsPrintable_iff s).1 b),
)

valid_identity_text_lem :
    (s : Bytes) → valid_identity_text s ≡ (if leb (length s) 256 then all is_printable s else false)
unfolding valid_identity_text
valid_identity_text_lem s = ground arith

-- `validIdentityText` decides `IsIdentityText`.
pub valid_identity_text_iff : (s : Bytes) → (valid_identity_text s ≡ true) ↔ IsIdentityText s
valid_identity_text_iff s = (
  λ h. record {
    printable = (all-IsPrintable_iff s).0 (ground (arith, valid_identity_text_lem s));
    short = ground (arith, valid_identity_text_lem s);
  },
  λ t.
      let printable = (all-IsPrintable_iff s).1 t.printable in
      let short : length s ≤ 256 = t.short in ground (arith, valid_identity_text_lem s),
)

IsIdentityText-Lacks : (s : Bytes) → IsIdentityText s → Lacks newline s
IsIdentityText-Lacks s t = All-map IsPrintable _ (λ c (lo, hi) e. omega arith) s t.printable

IsDigest-Lacks : (s : Bytes) → IsDigest s → Lacks newline s
IsDigest-Lacks s d = All-map IsHexDigit _ (λ c h e. ground arith) s d.digits

print_int-Lacks : (n : ℤ) → Lacks newline (print_int n)
unfolding print_int
print_int-Lacks (pos n) = print-Lacks newline n refl
print_int-Lacks (negsuc n) = (omega arith, print-Lacks newline (suc n) refl)

-- A print does not begin with a minus sign.
print-ne-minus : (n : ℕ) (s : Bytes) → print n ≢ b'-' ∷ s
print-ne-minus n s e =
    let digits : All IsDigit (b'-' ∷ s) = rw e at (print-IsDigit n) in omega (arith, digits.0.0)

pub print_int_inj : (m n : ℤ) → print_int m ≡ print_int n → m ≡ n
unfolding print_int
print_int_inj (pos m) (pos n) e = ap pos (print_inj m n e)
print_int_inj (pos m) (negsuc n) e = absurd (print-ne-minus m _ e)
print_int_inj (negsuc m) (pos n) e = absurd (print-ne-minus n _ (sym e))
print_int_inj (negsuc m) (negsuc n) e =
    let e' = print_inj (suc m) (suc n) (cc) in ap negsuc (omega arith)

-- The six fields that a record is made of.
pub record SameBinding (t : TargetIdentity) (i : ImageIdentity) (t' : TargetIdentity)
    (i' : ImageIdentity) : Type 0 where
  pub canonical_path : t.canonical_path ≡ t'.canonical_path
  pub serial : t.serial ≡ t'.serial
  pub wwn : t.wwn ≡ t'.wwn
  pub size_bytes : t.size_bytes ≡ t'.size_bytes
  pub uncompressed_bytes : i.uncompressed_bytes ≡ i'.uncompressed_bytes
  pub sha256 : i.sha256 ≡ i'.sha256

-- The texts that a record needs, so that its lines can be told apart.
pub record HasLines (t : TargetIdentity) (i : ImageIdentity) : Type 0 where
  pub serial : IsIdentityText t.serial
  pub wwn : IsIdentityText t.wwn
  pub sha256 : IsDigest i.sha256

-- The lines of a record behind the path.
tail_lines : TargetIdentity → ImageIdentity → Bytes
tail_lines t i =
    t.serial
    ++ newline
      ∷ (t.wwn
          ++ newline
            ∷ (print_int t.size_bytes
                ++ newline
                  ∷ (print_int i.uncompressed_bytes ++ newline ∷ (i.sha256 ++ newline ∷ []))))

count-line :
    (s t : Bytes) → Lacks newline s → count newline (s ++ newline ∷ t) ≡ suc (count newline t)
count-line s t h = omega (
  arith,
  count-append newline s (newline ∷ t),
  count-Lacks newline s h,
  count-cons_self newline t,
)

count-tail_lines :
    (t : TargetIdentity) (i : ImageIdentity) → HasLines t i → count newline (tail_lines t i) ≡ 5
count-tail_lines t i h =
    unfold tail_lines in
    count-line t.serial _ (IsIdentityText-Lacks t.serial h.serial)
    ∙ ap suc (
        count-line t.wwn _ (IsIdentityText-Lacks t.wwn h.wwn)
        ∙ ap suc (
            count-line (print_int t.size_bytes) _ (print_int-Lacks t.size_bytes)
            ∙ ap suc (
                count-line (print_int i.uncompressed_bytes) _ (print_int-Lacks i.uncompressed_bytes)
                ∙ ap suc (
                    count-line i.sha256 [] (IsDigest-Lacks i.sha256 h.sha256)
                    ∙ ap suc (count-nil newline)))))

tail_lines_inj :
    (t : TargetIdentity) (i : ImageIdentity) (t' : TargetIdentity) (i' : ImageIdentity)
    → HasLines t i
    → HasLines t' i'
    → t.canonical_path ≡ t'.canonical_path
    → tail_lines t i ≡ tail_lines t' i'
    → SameBinding t i t' i'
unfolding tail_lines
tail_lines_inj t i t' i' h h' p e =
    let (es, e1) =
      append_separator_inj t.serial t'.serial _ _ newline (IsIdentityText-Lacks _ h.serial)
        (IsIdentityText-Lacks _ h'.serial) e in
    let (ew, e2) =
      append_separator_inj t.wwn t'.wwn _ _ newline (IsIdentityText-Lacks _ h.wwn)
        (IsIdentityText-Lacks _ h'.wwn) e1 in
    let (ez, e3) =
      append_separator_inj (print_int t.size_bytes) (print_int t'.size_bytes) _ _ newline
        (print_int-Lacks t.size_bytes) (print_int-Lacks t'.size_bytes) e2 in
    let (eu, e4) =
      append_separator_inj (print_int i.uncompressed_bytes) (print_int i'.uncompressed_bytes) _ _
        newline (print_int-Lacks i.uncompressed_bytes) (print_int-Lacks i'.uncompressed_bytes) e3 in
    let (ed, _) =
      append_separator_inj i.sha256 i'.sha256 _ _ newline (IsDigest-Lacks _ h.sha256)
        (IsDigest-Lacks _ h'.sha256) e4 in
    record {
      canonical_path = p;
      serial = es;
      wwn = ew;
      size_bytes = print_int_inj _ _ ez;
      uncompressed_bytes = print_int_inj _ _ eu;
      sha256 = ed;
    }

record-lines :
    (t : TargetIdentity) (i : ImageIdentity)
    → confirmation_record t i
      ≡ codes "v1" ++ newline ∷ (t.canonical_path ++ newline ∷ tail_lines t i)
unfolding confirmation_record tail_lines
record-lines t i = refl

-- Two records are the same text only if all six fields are the same, whatever bytes the path holds.
pub confirmation_record_inj :
    (t : TargetIdentity) (i : ImageIdentity) (t' : TargetIdentity) (i' : ImageIdentity)
    → HasLines t i
    → HasLines t' i'
    → confirmation_record t i ≡ confirmation_record t' i'
    → SameBinding t i t' i'
confirmation_record_inj t i t' i' h h' e =
    let e' : codes "v1" ++ newline ∷ (t.canonical_path ++ newline ∷ tail_lines t i)
        ≡ codes "v1" ++ newline ∷ (t'.canonical_path ++ newline ∷ tail_lines t' i') =
      sym (record-lines t i) ∙ e ∙ record-lines t' i' in
    let (ep, et) =
      append_counted_inj t.canonical_path t'.canonical_path (tail_lines t i) (tail_lines t' i')
        newline (count-tail_lines t i h ∙ sym (count-tail_lines t' i' h')) (cc e') in
    tail_lines_inj t i t' i' h h' ep et
