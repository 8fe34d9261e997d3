-- ===== src/Go/Hex/Laws.antt =====
-- What a SHA-256 digest in lowercase hexadecimal is, and how decoding reads it.
use diskforge.Base.{
  ℕ, suc, ◌+◌, ◌-◌, ◌*◌, ◌/◌, ◌%◌, ◌≤◌, ◌<◌, ◌≡◌, ◌⊎◌, inl, inr, refl, ◌&&◌, Option, none, some, [],
  ◌∷◌, arith, Bytes, leb, if◌then◌else◌, length, All,
}
use diskforge.Go.Strings.{to_lower}
use diskforge.Go.Hex.{nibble, decode_string, with_byte, hex_digit, encode_to_string}

abbrev pub IsHexDigit : ℕ → Type 0
IsHexDigit c = (b'0' ≤ c) × (c ≤ b'9') ⊎ (b'a' ≤ c) × (c ≤ b'f')

-- 64 lowercase hexadecimal digits.
pub record IsDigest (s : Bytes) : Type 0 where
  pub digits : All IsHexDigit s
  pub size : length s ≡ 64

lower_digit :
    (c n : ℕ)
    → nibble c ≡ some n
    → (if leb b'A' c && leb c b'Z' then c + 32 else c) ≡ c
    → IsHexDigit c
unfolding nibble
lower_digit c n h e = ground arith

nibble-IsHexDigit :
    (c : ℕ)
    → IsHexDigit c
    → (n : ℕ) × (nibble c ≡ some n) × ((if leb b'A' c && leb c b'Z' then c + 32 else c) ≡ c)
unfolding nibble
nibble-IsHexDigit c (inl h) = (c - b'0', ground arith, ground arith)
nibble-IsHexDigit c (inr h) = (c - b'a' + 10, ground arith, ground arith)

-- A pair of digits was read only if both are digits and the rest was read.
with_byte_inv :
    (x y : Option ℕ) (z : Option Bytes) (d : Bytes)
    → with_byte x y z ≡ some d
    → (h : ℕ) × (l : ℕ) × (r : Bytes) × (x ≡ some h)
      × (y ≡ some l)
      × (z ≡ some r)
      × (length d ≡ suc (length r))
with_byte_inv none y z d e = cc
with_byte_inv (some h) none z d e = cc
with_byte_inv (some h) (some l) none d e = cc
with_byte_inv (some h) (some l) (some r) d e = (h, l, r, refl, refl, refl, ground arith)

pub decode-digits : (s d : Bytes) → decode_string s ≡ some d → s ≡ to_lower s → All IsHexDigit s
unfolding decode_string to_lower
decode-digits [] d h e = tt
decode-digits (a ∷ []) d h e = cc
decode-digits (a ∷ b ∷ s) d h e =
    let (x, y, r, ex, ey, er, _) = with_byte_inv (nibble a) (nibble b) (decode_string s) d h in
    (lower_digit a x ex (cc), (lower_digit b y ey (cc), decode-digits s r er (cc)))

pub digits-decode :
    (n : ℕ) (s : Bytes)
    → length s ≡ n + n
    → All IsHexDigit s
    → (d : Bytes) × (decode_string s ≡ some d) × (length d ≡ n) × (to_lower s ≡ s)
unfolding decode_string to_lower
digits-decode n [] e h = ([], refl, omega arith, refl)
digits-decode n (a ∷ []) e h = absurd (omega arith)
digits-decode ℕ.zero (a ∷ b ∷ s) e h = absurd (omega arith)
digits-decode (suc n) (a ∷ b ∷ s) e (ha, (hb, hs)) =
    let (x, ex, la) = nibble-IsHexDigit a ha in
    let (y, ey, lb) = nibble-IsHexDigit b hb in
    let (d, ed, ld, ls) = digits-decode n s (omega arith) hs in
    ((16 * x + y) ∷ d, cc, omega arith, cc)

hex_digit_inj : (m n : ℕ) → m < 16 → n < 16 → hex_digit m ≡ hex_digit n → m ≡ n
unfolding hex_digit
hex_digit_inj m n hm hn e = ground arith

pub length-encode : (s : Bytes) → length (encode_to_string s) ≡ length s + length s
unfolding encode_to_string
length-encode [] = refl
length-encode (b ∷ s) = omega (arith, length-encode s)

parts :
    (a b : ℕ) (s t : Bytes)
    → encode_to_string (a ∷ s) ≡ encode_to_string (b ∷ t)
    → (hex_digit (a / 16) ≡ hex_digit (b / 16))
      × (hex_digit (a % 16) ≡ hex_digit (b % 16))
      × (encode_to_string s ≡ encode_to_string t)
parts a b s t e = unfold encode_to_string in (cc e, cc e, cc e)

-- Different texts of bytes are spelled differently.
pub encode_inj :
    (s t : Bytes)
    → All (λ b. b < 256) s
    → All (λ b. b < 256) t
    → encode_to_string s ≡ encode_to_string t
    → s ≡ t
encode_inj [] [] hs ht e = refl
encode_inj [] (b ∷ t) hs ht e = unfold encode_to_string in cc e
encode_inj (a ∷ s) [] hs ht e = unfold encode_to_string in cc e
encode_inj (a ∷ s) (b ∷ t) (ha, hs) (hb, ht) e =
    let (high, low, rest) = parts a b s t e in
    let h = hex_digit_inj (a / 16) (b / 16) (omega arith) (omega arith) high in
    let l = hex_digit_inj (a % 16) (b % 16) (omega arith) (omega arith) low in
    let ab : a ≡ b = omega arith in let st = encode_inj s t hs ht rest in cc
