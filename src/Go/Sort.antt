-- ===== src/Go/Sort.antt =====
-- `slices.Sort` on strings: their order, and insertion in place of the library's algorithm, since a
-- sorted list is determined by its items (`sort-Perm`).
pub mod Laws
use diskforge.Base.{Bool, true, false, ◌&&◌, ◌||◌, List, [], ◌∷◌, Bytes, ltb, ◌==◌, if◌then◌else◌}

-- `s <= t` on strings
unfoldable pub bytes_leb : Bytes → Bytes → Bool
bytes_leb [] t = true
bytes_leb (a ∷ s) [] = false
bytes_leb (a ∷ s) (b ∷ t) = ltb a b || a == b && bytes_leb s t

unfoldable pub insert_sorted : Bytes → List Bytes → List Bytes
insert_sorted x [] = x ∷ []
insert_sorted x (y ∷ ys) = if bytes_leb x y then x ∷ y ∷ ys else y ∷ insert_sorted x ys

unfoldable pub sort : List Bytes → List Bytes
unfolding insert_sorted bytes_leb
sort [] = []
sort (x ∷ xs) = insert_sorted x (sort xs)
