-- ===== src/Digest.antt =====
-- The test of a SHA-256 digest that `policy.ConfirmationToken`, `image.validateDigest` and the public
-- `validateDigest` each spell out in the same words.
use diskforge.Base.{
  ◌≡◌, ◌↔◌, inl, inr, sym, ◌∙◌, Bool, true, false, ◌&&◌, none, some, arith, Bytes, ◌==◌, length,
  bytes_eq, bytes_eq_iff, Option-cases,
}
use diskforge.Go.Strings.{to_lower}
use diskforge.Go.Hex.{decode_string}
use diskforge.Go.Hex.Laws.{IsDigest, decode-digits, digits-decode}

-- `decoded, err := hex.DecodeString(s)` and the four tests behind it.
unfoldable pub digest_test : Bytes → Bool
digest_test s = elim (decode_string s) [
  | none ↦ false
  | some d ↦ length d == 32 && (length s == 64 && bytes_eq s (to_lower s))
]

-- The test accepts exactly the texts of 64 lowercase hexadecimal digits.
pub digest_test_iff : (s : Bytes) → (digest_test s ≡ true) ↔ IsDigest s
unfolding digest_test
digest_test_iff s = (forth, back)
  where
    forth : digest_test s ≡ true → IsDigest s
    forth h = elim (Option-cases (decode_string s)) [
      | inl e ↦ absurd (ground arith)
      | inr (d, e) ↦ record {
        digits = decode-digits s d e ((bytes_eq_iff s (to_lower s)).0 (ground arith));
        size = ground arith;
      }
    ]

    back : IsDigest s → digest_test s ≡ true
    back i =
        let (d, e, l, low) = digits-decode 32 s (i.size ∙ omega arith) i.digits in
        rw (e, digest_test) (ground (arith, (bytes_eq_iff s (to_lower s)).1 (sym low), i.size))
