-- ===== src/Go/Sort/Laws.antt =====
-- The order of strings is total, and sorting does not depend on the order of the items given.
use mathlib.Core.List.{Permᴰ}
use diskforge.Base.{◌≡◌, refl, ap, ◌∙◌, true, false, List, [], ◌∷◌, Bytes, arith}
use diskforge.Go.Sort.{bytes_leb, insert_sorted, sort}

bytes_leb_total : (s t : Bytes) → bytes_leb s t ≡ false → bytes_leb t s ≡ true
unfolding bytes_leb
bytes_leb_total [] t h = cc
bytes_leb_total (a ∷ s) [] h = refl
bytes_leb_total (a ∷ s) (b ∷ t) h = ground (arith, bytes_leb_total s t)

bytes_leb_antisymm : (s t : Bytes) → bytes_leb s t ≡ true → bytes_leb t s ≡ true → s ≡ t
unfolding bytes_leb
bytes_leb_antisymm [] [] h k = refl
bytes_leb_antisymm [] (b ∷ t) h k = cc
bytes_leb_antisymm (a ∷ s) [] h k = cc
bytes_leb_antisymm (a ∷ s) (b ∷ t) h k = ground (arith, bytes_leb_antisymm s t)

bytes_leb_trans :
    (s t u : Bytes) → bytes_leb s t ≡ true → bytes_leb t u ≡ true → bytes_leb s u ≡ true
unfolding bytes_leb
bytes_leb_trans [] t u h k = refl
bytes_leb_trans (a ∷ s) [] u h k = cc
bytes_leb_trans (a ∷ s) (b ∷ t) [] h k = cc
bytes_leb_trans (a ∷ s) (b ∷ t) (c ∷ u) h k = ground (arith, bytes_leb_trans s t u)

insert_sorted_comm :
    (x y : Bytes) (l : List Bytes)
    → insert_sorted x (insert_sorted y l) ≡ insert_sorted y (insert_sorted x l)
unfolding insert_sorted
insert_sorted_comm x y [] = ground (arith, bytes_leb_total x y, bytes_leb_antisymm x y)
insert_sorted_comm x y (z ∷ l) = ground (
  arith,
  insert_sorted_comm x y l,
  bytes_leb_total x y,
  bytes_leb_antisymm x y,
  bytes_leb_total x z,
  bytes_leb_total y z,
  bytes_leb_trans x y z,
  bytes_leb_trans y x z,
)

-- However the items are ordered, they are sorted into one list.
pub sort-Perm : (l m : List Bytes) → Permᴰ l m → sort l ≡ sort m
unfolding sort
sort-Perm l m p = go p
  where
    go : {l m : List Bytes} → Permᴰ l m → sort l ≡ sort m
    go Permᴰ.nil = refl
    go (Permᴰ.cons {a = a} {b = b} {l₂ = l₂} e d) =
        ap (insert_sorted a) (go d) ∙ ap (λ x. insert_sorted x (sort l₂)) e
    go (Permᴰ.swap {a = a} {b = b} {l = l} e f) = cc (insert_sorted_comm a b (sort l))
    go (Permᴰ.trans d d') = go d ∙ go d'
