-- ===== src/Go/FilePath/Laws.antt =====
-- What `filepath.Clean` and `filepath.Dir` make of a path with a last element.
use mathlib.Core.List.{reverse}
use diskforge.Base.{
  All-append_right, ℕ, ◌≢◌, ◌≡◌, refl, sym, ap, ◌⊎◌, inl, inr, Bool, false, List, [], ◌∷◌, ◌++◌,
  Bytes, arith, Lacks, ◌==◌, Bool-cases,
}
use diskforge.Go.Strings.{has_prefix, split, join, is_empty, onto_head}
use diskforge.Go.Strings.Laws.{split-Lacks, split-ne-nil}
use diskforge.Go.FilePath.{slash, clean, clean_elements, push_element, spell, upto_slash, is_abs}

pub clean_elements-append :
    (rooted : Bool) (xs : List Bytes) (e : Bytes) (es : List Bytes)
    → clean_elements rooted (xs ++ e ∷ []) es ≡ push_element rooted e (clean_elements rooted xs es)
unfolding clean_elements
clean_elements-append rooted [] e es = refl
clean_elements-append rooted (x ∷ xs) e es =
    clean_elements-append rooted xs e (push_element rooted x es)

-- Every text lacks a byte or has a last place of it.
pub last_place :
    (b : ℕ) (s : Bytes)
    → Lacks b s ⊎ ((v : Bytes) × (name : Bytes) × (s ≡ v ++ b ∷ name) × Lacks b name)
last_place b [] = inl tt
last_place b (c ∷ s) = elim (last_place b s) [
  | inr (v, name, e, h) ↦ inr (c ∷ v, name, ap (λ t. c ∷ t) e, h)
  | inl h ↦ elim (Bool-cases (c == b)) [
    | inl e ↦ inr ([], s, ground arith, h)
    | inr e ↦ inl (ground arith, h)
  ]
]

pub upto_slash-Lacks : (s : Bytes) → Lacks slash s → upto_slash s ≡ []
unfolding upto_slash
upto_slash-Lacks [] h = refl
upto_slash-Lacks (c ∷ s) (h, hs) = ground (arith, upto_slash-Lacks s hs)

is_empty-append : (v : Bytes) (b : ℕ) (s : Bytes) → is_empty (v ++ b ∷ s) ≡ false
is_empty-append [] b s = refl
is_empty-append (c ∷ v) b s = refl

pub upto_slash-append :
    (v name : Bytes) → Lacks slash name → upto_slash (v ++ slash ∷ name) ≡ v ++ slash ∷ []
unfolding upto_slash
upto_slash-append [] name h = ground (arith, upto_slash-Lacks name h)
upto_slash-append (c ∷ v) name h =
    rw (upto_slash-append v name h) (ground (arith, is_empty-append v slash []))

onto_head-append :
    (c : ℕ) (ps qs : List Bytes) → ps ≢ [] → onto_head c (ps ++ qs) ≡ onto_head c ps ++ qs
onto_head-append c [] qs h = absurd (h refl)
onto_head-append c (p ∷ ps) qs h = refl

pub split-append_any :
    (v s : Bytes) (sep : ℕ) → split (v ++ sep ∷ s) sep ≡ split v sep ++ split s sep
unfolding split
split-append_any [] s sep = ground arith
split-append_any (c ∷ v) s sep = ground (
  arith,
  split-append_any v s sep,
  onto_head-append c (split v sep) (split s sep) (split-ne-nil v sep),
)

-- The elements of a path are those before its last slash, and its last one.
pub clean-last :
    (v name : Bytes)
    → Lacks slash name
    → clean (v ++ slash ∷ name) ≡ (
        let rooted = is_abs (v ++ slash ∷ name) in
        spell rooted
          (reverse (push_element rooted name (clean_elements rooted (split v slash) []))))
unfolding clean
clean-last v name h =
    simp (split-append_any v name slash, split-Lacks name slash h, clean_elements-append)

pub is_abs-last : (v : Bytes) (s t : Bytes) → is_abs (v ++ slash ∷ s) ≡ is_abs (v ++ slash ∷ t)
unfolding is_abs has_prefix
is_abs-last [] s t = refl
is_abs-last (c ∷ v) s t = refl

-- A directory spelt with one element has no other.
pub join_one :
    (es : List Bytes) (e : Bytes) → e ≢ [] → Lacks slash e → join es slash ≡ e → es ≡ e ∷ []
unfolding join
join_one [] e n h eq = absurd (n (sym eq))
join_one (p ∷ []) e n h eq = ap (λ t. t ∷ []) eq
join_one (p ∷ q ∷ ps) e n h eq =
    absurd ((All-append_right (λ c. c ≢ slash) p (slash ∷ join (q ∷ ps) slash) (rw eq h)).0 refl)
