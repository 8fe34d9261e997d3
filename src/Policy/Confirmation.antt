-- ===== src/Policy/Confirmation.antt =====
-- internal/policy/confirmation.go: the token that binds consent to a target and an image. SHA-256 is
-- the parameter `sha256`, any function on texts.
pub mod Text
pub mod Token
use diskforge.Base.{
  ℕ, suc, ◌≡◌, ◌≢◌, Bool, true, false, not, ◌&&◌, ◌||◌, List, [], ◌∷◌, ◌++◌, Bytes, codes, ltb,
  length, all, take, bytes_eq, if◌then◌else◌,
}
use diskforge.Base.Int.{ℤ, pos, negsuc, leb_ℤ}
use diskforge.Go.Strings.{has_prefix}
use diskforge.Go.Decimal.{print}
use diskforge.Go.Hex.{encode_to_string}
use diskforge.Go.FilePath.{is_abs, clean, base}
use diskforge.Digest.{digest_test}
use diskforge.Errors.{
  Error, gate, Message, format, Result, ok, err, invalid_target, invalid_image_size, invalid_digest,
  ◌>>=◌, ◌>>◌, refuse_if,
}
use diskforge.Naming.{valid_label}
use diskforge.Policy.Model.{TargetIdentity, ImageIdentity}

abbrev pub max_identity_length : ℕ
max_identity_length = 256

-- `value[index] < 0x20 || value[index] > 0x7e` is the test's negation.
unfoldable pub is_printable : ℕ → Bool
is_printable c = not (ltb c 0x20 || ltb 0x7e c)

unfoldable pub valid_identity_text : Bytes → Bool
unfolding is_printable
valid_identity_text value =
    if ltb max_identity_length (length value) then false else all is_printable value

-- `%d` of an int64
unfoldable pub print_int : ℤ → Bytes
unfolding print
print_int (pos n) = print n
print_int (negsuc n) = b'-' ∷ print (suc n)

abbrev pub newline : ℕ
newline = 10

-- The `record` that is hashed, `"v1\n%s\n%s\n%s\n%d\n%d\n%s\n"`.
unfoldable pub confirmation_record : TargetIdentity → ImageIdentity → Bytes
unfolding print_int
confirmation_record target image =
    codes "v1"
    ++ newline
      ∷ (target.canonical_path
          ++ newline
            ∷ (target.serial
                ++ newline
                  ∷ (target.wwn
                      ++ newline
                        ∷ (print_int target.size_bytes
                            ++ newline
                              ∷ (print_int image.uncompressed_bytes
                                  ++ newline ∷ (image.sha256 ++ newline ∷ []))))))

-- The first condition of `ConfirmationToken`, true where the target is refused.
unfoldable pub refused_target : TargetIdentity → Bool
refused_target target =
    not (is_abs target.canonical_path)
    || (not (bytes_eq (clean target.canonical_path) target.canonical_path)
        || (not (has_prefix target.canonical_path (codes "/dev/"))
            || (leb_ℤ target.size_bytes (pos 0)
                || (not (valid_label (base target.canonical_path))
                    || (not (valid_identity_text target.serial)
                        || not (valid_identity_text target.wwn))))))

module _ (sha256 : Bytes → Bytes) where
  -- `"confirm-v1-%s-%s-%s"`
  unfoldable pub format_token : TargetIdentity → ImageIdentity → Bytes
  unfolding confirmation_record encode_to_string base
  format_token target image =
      let binding = sha256 (confirmation_record target image) in
      codes "confirm-v1-"
      ++ (base target.canonical_path
          ++ b'-' ∷ (take 12 image.sha256 ++ b'-' ∷ encode_to_string (take 8 binding)))

  unfoldable pub confirmation_token : TargetIdentity → ImageIdentity → Result Bytes
  confirmation_token target image = do
    refuse_if (refused_target target) (
        gate invalid_target
          (format "target must be a canonical absolute /dev path with positive capacity" []))
    refuse_if (leb_ℤ image.uncompressed_bytes (pos 0))
        (gate invalid_image_size (format "uncompressed image size must be positive" []))
    refuse_if (not (digest_test image.sha256)) (
        gate invalid_digest
          (format "SHA-256 digest must contain exactly 64 lowercase hexadecimal characters" []))
    ok (format_token target image)
