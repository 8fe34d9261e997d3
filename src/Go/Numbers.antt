-- ===== src/Go/Numbers.antt =====
-- `strconv.ParseInt` and `strconv.ParseUint` in base 10; a syntax error and a range error are none.
pub mod Laws
use diskforge.Base.{
  ℕ, suc, ◌+◌, ◌-◌, ◌*◌, ◌^◌, ◌≡◌, refl, Bool, true, false, ◌&&◌, ◌||◌, Option, none, some, List,
  [], ◌∷◌, Bytes, codes, leb, ltb, ◌==◌, if◌then◌else◌,
}
use diskforge.Base.Int.{ℤ, pos, negsuc}
use diskforge.Go.Decimal.{is_digit}

-- The number that digits spell behind `n`, or none at another byte.
unfoldable pub digits_from : ℕ → Bytes → Option ℕ
digits_from n [] = some n
digits_from n (c ∷ s) =
    let rest = digits_from (n * 10 + (c - b'0')) s in if is_digit c then rest else none

unfoldable pub parse_digits : Bytes → Option ℕ
unfolding digits_from
parse_digits [] = none
parse_digits (c ∷ s) = digits_from 0 (c ∷ s)

abbrev pub minus : ℕ → ℤ
minus ℕ.zero = pos 0
minus (suc n) = negsuc n

abbrev below_bound : ℕ → Option ℕ → Option ℕ
below_bound bound none = none
below_bound bound (some n) = if ltb n bound then some n else none

abbrev signed : Bool → Option ℕ → Option ℤ
signed negative none = none
signed true (some n) = if leb n (2 ^ 63) then some (minus n) else none
signed false (some n) = if ltb n (2 ^ 63) then some (pos n) else none

-- `strconv.ParseInt(s, 10, 64)`
unfoldable pub parse_int : Bytes → Option ℤ
unfolding parse_digits
parse_int [] = none
parse_int (c ∷ s) =
    if c == b'-'
    then signed true (parse_digits s)
    else signed false (parse_digits (if c == b'+' then s else c ∷ s))

-- `strconv.ParseUint(s, 10, 32)`
unfoldable pub parse_uint32 : Bytes → Option ℕ
unfolding parse_digits
parse_uint32 s = below_bound (2 ^ 32) (parse_digits s)

parse_int_examples :
    (parse_int (codes "-9223372036854775808") ≡ some (negsuc 9223372036854775807))
    × (parse_int (codes "9223372036854775808") ≡ none)
    × (parse_int (codes "+7") ≡ some (pos 7))
    × (parse_int (codes "0x7") ≡ none)
unfolding parse_int
parse_int_examples = (refl, refl, refl, refl)
