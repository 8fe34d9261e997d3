-- ===== src/Go/Hex.antt =====
-- Package `encoding/hex`.
pub mod Laws
use diskforge.Base.{
  ℕ, ◌+◌, ◌-◌, ◌*◌, ◌/◌, ◌%◌, Bool, ◌&&◌, Option, none, some, List, [], ◌∷◌, Bytes, ltb, leb,
  if◌then◌else◌,
}

-- A digit of either case.
unfoldable pub nibble : ℕ → Option ℕ
nibble c =
    if leb b'0' c && leb c b'9'
    then some (c - b'0')
    else if leb b'a' c && leb c b'f'
    then some (c - b'a' + 10)
    else if leb b'A' c && leb c b'F'
    then some (c - b'A' + 10)
    else none

abbrev pub with_byte : Option ℕ → Option ℕ → Option Bytes → Option Bytes
with_byte (some h) (some l) (some s) = some ((16 * h + l) ∷ s)
with_byte _ _ _ = none

-- `hex.DecodeString`: an odd length and a byte that is no digit are errors.
unfoldable pub decode_string : Bytes → Option Bytes
unfolding nibble
decode_string [] = some []
decode_string (a ∷ []) = none
decode_string (a ∷ b ∷ s) = with_byte (nibble a) (nibble b) (decode_string s)

unfoldable pub hex_digit : ℕ → ℕ
hex_digit n = if ltb n 10 then b'0' + n else b'a' + (n - 10)

-- `hex.EncodeToString`
unfoldable pub encode_to_string : Bytes → Bytes
unfolding hex_digit
encode_to_string [] = []
encode_to_string (b ∷ s) = hex_digit (b / 16) ∷ hex_digit (b % 16) ∷ encode_to_string s
