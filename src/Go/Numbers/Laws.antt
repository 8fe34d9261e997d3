-- ===== src/Go/Numbers/Laws.antt =====
-- The numbers that `strconv` parses are those that `%d` prints.
use diskforge.Base.{
  ℕ, ◌+◌, ◌*◌, ◌-◌, ◌^◌, ◌<◌, ◌≡◌, refl, ap, ◌∙◌, some, [], ◌∷◌, Bytes, arith, All, ◌≢◌,
}
use diskforge.Base.Int.{pos}
use diskforge.Go.Decimal.{print, value, IsDigit, print-IsDigit, value-print, print-ne-nil}
use diskforge.Go.Numbers.{digits_from, parse_digits, parse_int}

digits_from-value : (n : ℕ) (s : Bytes) → All IsDigit s → digits_from n s ≡ some (value n s)
unfolding digits_from
digits_from-value n [] h = refl
digits_from-value n (c ∷ s) (p, h) = ground (arith, digits_from-value (n * 10 + (c - b'0')) s h)

parse_digits-value : (s : Bytes) → s ≢ [] → All IsDigit s → parse_digits s ≡ some (value 0 s)
unfolding parse_digits
parse_digits-value [] n h = absurd (n refl)
parse_digits-value (c ∷ s) n h = digits_from-value 0 (c ∷ s) h

pub parse_digits-print : (n : ℕ) → parse_digits (print n) ≡ some n
parse_digits-print n =
    parse_digits-value (print n) (print-ne-nil n) (print-IsDigit n) ∙ ap some (value-print n)

parse_int-digits :
    (s : Bytes) (n : ℕ)
    → All IsDigit s
    → parse_digits s ≡ some n
    → n < 2 ^ 63
    → parse_int s ≡ some (pos n)
unfolding parse_int parse_digits
parse_int-digits [] n h e b = absurd (cc (e))
parse_int-digits (c ∷ s) n ((lo, hi), h) e b = ground (arith, e)

pub parse_int-print : (n : ℕ) → n < 2 ^ 63 → parse_int (print n) ≡ some (pos n)
parse_int-print n h = parse_int-digits (print n) n (print-IsDigit n) (parse_digits-print n) h
