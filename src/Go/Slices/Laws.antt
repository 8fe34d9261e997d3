-- ===== src/Go/Slices/Laws.antt =====
-- Which items a list of strings holds, and how many of some names it does not hold yet.
use diskforge.Base.{
  ℕ, ◌+◌, ◌≤◌, ◌<◌, ◌≡◌, ◌↔◌, ◌⊎◌, inl, inr, refl, sym, ap, ◌∙◌, true, false, List, [], ◌∷◌, Bytes,
  arith, length, bytes_eq, bytes_eq_iff, bytes_eq_refl, if◌then◌else◌, Bool-cases,
}
use diskforge.Go.Slices.{contains}
use diskforge.Go.Sort.{sort, insert_sorted}

abbrev pub IsIn : Bytes → List Bytes → Type 0
IsIn x l = contains x l ≡ true

pub not_in_nil {ℓ} : {A : Type ℓ} (x : Bytes) → IsIn x [] → A
unfolding contains
not_in_nil x h = absurd (cc)

pub IsIn-cons : (x y : Bytes) (l : List Bytes) → IsIn x (y ∷ l) ↔ ((x ≡ y) ⊎ IsIn x l)
unfolding contains
IsIn-cons x y l = ground (arith, bytes_eq_iff x y)

pub IsIn-head : (x : Bytes) (l : List Bytes) → IsIn x (x ∷ l)
unfolding contains
IsIn-head x l = ground (arith, bytes_eq_refl x)

pub IsIn-tail : (x y : Bytes) (l : List Bytes) → IsIn x l → IsIn x (y ∷ l)
unfolding contains
IsIn-tail x y l h = ground arith

contains-insert_sorted :
    (x y : Bytes) (l : List Bytes) → contains x (insert_sorted y l) ≡ contains x (y ∷ l)
unfolding contains insert_sorted
contains-insert_sorted x y [] = refl
contains-insert_sorted x y (z ∷ l) = ground (arith, contains-insert_sorted x y l)

-- Sorting keeps the items.
pub contains-sort : (x : Bytes) (l : List Bytes) → contains x (sort l) ≡ contains x l
unfolding contains sort
contains-sort x [] = refl
contains-sort x (y ∷ l) = ground (arith, contains-insert_sorted x y (sort l), contains-sort x l)

-- One list holds at least the items of another.
abbrev pub Grows : List Bytes → List Bytes → Type 0
Grows s t = (x : Bytes) → IsIn x s → IsIn x t

pub Grows-trans : (s t u : List Bytes) → Grows s t → Grows t u → Grows s u
Grows-trans s t u g h x i = h x (g x i)

-- How many of the names the list does not hold.
unfoldable pub unseen : List Bytes → List Bytes → ℕ
unseen [] s = 0
unseen (n ∷ ns) s = (if contains n s then 0 else 1) + unseen ns s

pub unseen-le-length : (ns s : List Bytes) → unseen ns s ≤ length ns
unfolding unseen
unseen-le-length [] s = omega arith
unseen-le-length (n ∷ ns) s = ground (arith, unseen-le-length ns s)

pub unseen_mono : (ns s t : List Bytes) → Grows s t → unseen ns t ≤ unseen ns s
unfolding unseen
unseen_mono [] s t g = omega arith
unseen_mono (n ∷ ns) s t g = ground (arith, g n, unseen_mono ns s t g)

-- A name that is new to a growing list takes one away.
pub unseen-lt :
    (ns s t : List Bytes) (x : Bytes)
    → Grows s t
    → IsIn x ns
    → contains x s ≡ false
    → IsIn x t
    → unseen ns t < unseen ns s
unfolding unseen contains
unseen-lt [] s t x g i f j = cc
unseen-lt (n ∷ ns) s t x g i f j = elim (Bool-cases (bytes_eq x n)) [
  | inl e ↦
      let same = (bytes_eq_iff x n).0 e in
      let f' = sym (ap (λ y. contains y s) same) ∙ f in
      let j' = sym (ap (λ y. contains y t) same) ∙ j in ground (arith, unseen_mono ns s t g)
  | inr e ↦ ground (arith, g n, unseen-lt ns s t x g)
]
