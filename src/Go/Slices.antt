-- ===== src/Go/Slices.antt =====
-- `slices.Contains` and `slices.Index` on strings.
pub mod Laws
use diskforge.Base.{
  ℕ, suc, Bool, true, false, ◌||◌, Option, none, some, List, [], ◌∷◌, Bytes, bytes_eq,
  if◌then◌else◌,
}

unfoldable pub contains : Bytes → List Bytes → Bool
contains x [] = false
contains x (y ∷ ys) = bytes_eq x y || contains x ys

abbrev shifted : Option ℕ → Option ℕ
shifted none = none
shifted (some n) = some (suc n)

-- None is the index -1.
unfoldable pub index : List Bytes → Bytes → Option ℕ
index [] x = none
index (y ∷ ys) x = if bytes_eq y x then some 0 else shifted (index ys x)
