-- ===== src/Go/Fields.antt =====
-- White space as package `strings` has it: `Fields` and `TrimSpace` on UTF-8.
pub mod Laws
use diskforge.Base.{
  ℕ, zero, suc, ◌-◌, Bool, true, false, not, ◌&&◌, ◌||◌, List, [], ◌∷◌, Bytes, codes, leb, ◌==◌,
  ◌++◌, ◌≡◌, refl, if◌then◌else◌,
}
use diskforge.Go.Strings.{is_empty}

-- A white space of two or three bytes, by its first and those behind it: U+0085, U+00A0, U+1680,
-- U+2000 to U+200A, U+2028, U+2029, U+202F, U+205F and U+3000.
unfoldable pub wide_space_width : ℕ → Bytes → ℕ
wide_space_width a [] = 0
wide_space_width a (b ∷ []) = if a == 0xc2 && (b == 0x85 || b == 0xa0) then 2 else 0
wide_space_width a (b ∷ c ∷ s) =
    if a == 0xc2 && (b == 0x85 || b == 0xa0)
    then 2
    else if a == 0xe1 && (b == 0x9a && c == 0x80)
        || a == 0xe2
          && (b == 0x80 && (leb 0x80 c && leb c 0x8a || (c == 0xa8 || (c == 0xa9 || c == 0xaf)))
              || b == 0x81 && c == 0x9f)
        || a == 0xe3 && (b == 0x80 && c == 0x80)
    then 3
    else 0

-- The number of bytes of the white space in front, or 0.
unfoldable pub space_width : Bytes → ℕ
unfolding wide_space_width
space_width [] = 0
space_width (a ∷ s) = if a == 32 || leb 9 a && leb a 13 then 1 else wide_space_width a s

abbrev with_field : Bytes → List Bytes → List Bytes
with_field current rest = if is_empty current then rest else current ∷ rest

-- From a place on: how many bytes of a white space are still to pass, and the field begun.
unfoldable pub fields_from : ℕ → Bytes → Bytes → List Bytes
fields_from skip current [] = with_field current []
fields_from (suc skip) current (c ∷ s) = fields_from skip current s
fields_from zero current (c ∷ s) = elim (space_width (c ∷ s)) [
  | zero ↦ fields_from zero (current ++ c ∷ []) s
  | suc skip ↦ with_field current (fields_from skip [] s)
]

-- `strings.Fields`
unfoldable pub fields : Bytes → List Bytes
unfolding fields_from space_width
fields s = fields_from zero [] s

unfoldable pub trim_left_from : ℕ → Bytes → Bytes
trim_left_from skip [] = []
trim_left_from (suc skip) (c ∷ s) = trim_left_from skip s
trim_left_from zero (c ∷ s) = elim (space_width (c ∷ s)) [
  | zero ↦ c ∷ s
  | suc skip ↦ trim_left_from skip s
]

-- A text of white space alone is cut off behind the place where it starts.
unfoldable pub trim_right : Bytes → Bytes
unfolding trim_left_from
trim_right [] = []
trim_right (c ∷ s) =
    let rest = trim_right s in if is_empty (trim_left_from zero (c ∷ s)) then [] else c ∷ rest

-- `strings.TrimSpace`
unfoldable pub trim_space : Bytes → Bytes
unfolding trim_left_from trim_right space_width
trim_space s = trim_right (trim_left_from zero s)

fields_examples :
    (fields (codes " a\tbc  d\n") ≡ codes "a" ∷ codes "bc" ∷ codes "d" ∷ [])
    × (fields (97 ∷ 0xc2 ∷ 0xa0 ∷ 98 ∷ []) ≡ codes "a" ∷ codes "b" ∷ [])
    × (fields [] ≡ [])
unfolding fields
fields_examples = (refl, refl, refl)

trim_space_example : trim_space (codes " 1 2\n") ≡ codes "1 2"
unfolding trim_space
trim_space_example = refl
