-- ===== src/Naming.antt =====
-- internal/naming/naming.go: the portable identifiers of releases and targets.
pub mod Label
pub mod Semver
pub mod Extension
pub mod Artifact
use diskforge.Base.{
  ℕ, zero, suc, ◌-◌, Bool, true, false, not, ◌&&◌, ◌||◌, List, [], ◌∷◌, ◌++◌, Bytes, codes, ◌==◌,
  ltb, leb, if◌then◌else◌, length, drop, all,
}
use diskforge.Go.Strings.{test_at, is_empty, split, trim_prefix}

abbrev pub max_artifact_name_length : ℕ
max_artifact_name_length = 255

abbrev pub max_label_length : ℕ
max_label_length = 63

abbrev pub semver_component_count : ℕ
semver_component_count = 3

unfoldable pub is_lower_alphanumeric : ℕ → Bool
is_lower_alphanumeric c = leb b'a' c && leb c b'z' || leb b'0' c && leb c b'9'

-- `value[index] < '0' || value[index] > '9'` is the test's negation.
unfoldable pub in_digit_range : ℕ → Bool
in_digit_range c = not (ltb c b'0' || ltb b'9' c)

unfoldable pub valid_numeric_identifier : Bytes → Bool
unfolding test_at in_digit_range
valid_numeric_identifier value =
    if is_empty value || ltb 1 (length value) && test_at (λ c. c == b'0') value 0
    then false
    else all in_digit_range value

unfoldable pub valid_semver_tag : Bytes → Bool
unfolding test_at split valid_numeric_identifier
valid_semver_tag value =
    let components = split (drop 1 value) b'.' in
    if ltb (length value) (length (codes "v0.0.0")) || not (test_at (λ c. c == b'v') value 0)
    then false
    else if not (length components == semver_component_count)
    then false
    else all valid_numeric_identifier components

-- `for index := 1; index < len(value)-1; index++`, by the rounds left.
label_loop : ℕ → ℕ → Bytes → Bool
unfolding test_at is_lower_alphanumeric
label_loop zero index value = true
label_loop (suc rounds) index value =
    let rest = label_loop rounds (suc index) value in
    if not (test_at is_lower_alphanumeric value index) && not (test_at (λ c. c == b'-') value index)
    then false
    else rest

unfoldable pub valid_label : Bytes → Bool
unfolding label_loop
valid_label value =
    if is_empty value || ltb max_label_length (length value)
    then false
    else if not (test_at is_lower_alphanumeric value 0)
        || not (test_at is_lower_alphanumeric value (length value - 1))
    then false
    else label_loop (length value - 2) 1 value

-- The loop over the bytes; the flag is `previousWasSeparator`.
extension_loop : Bytes → Bool → Bool
unfolding is_lower_alphanumeric
extension_loop [] previous_was_separator = not previous_was_separator
extension_loop (c ∷ rest) previous_was_separator =
    let after_character = extension_loop rest false in
    let after_separator = extension_loop rest true in
    if is_lower_alphanumeric c
    then after_character
    else if not (c == b'.') && not (c == b'-') || previous_was_separator
    then false
    else after_separator

unfoldable pub valid_extension : Bytes → Bool
unfolding extension_loop
valid_extension value =
    if is_empty value || ltb max_label_length (length value)
    then false
    else extension_loop value true

-- What `ErrInvalidArtifactName` is wrapped with.
pub data ArtifactNameError : Type 0 where
  stable_release_tag : Bytes → ArtifactNameError
  operating_system_label : Bytes → ArtifactNameError
  architecture_label : Bytes → ArtifactNameError
  artifact_extension : Bytes → ArtifactNameError
  exceeds_bytes : ℕ → ArtifactNameError

pub data ArtifactNameResult : Type 0 where
  name : Bytes → ArtifactNameResult
  invalid : ArtifactNameError → ArtifactNameResult

-- `fmt.Sprintf("diskforge_%s_%s_%s.%s", …)`
unfoldable pub format_artifact_name : Bytes → Bytes → Bytes → Bytes → Bytes
unfolding trim_prefix
format_artifact_name version goos goarch extension =
    codes "diskforge_"
    ++ (trim_prefix version (codes "v") ++ b'_' ∷ (goos ++ b'_' ∷ (goarch ++ b'.' ∷ extension)))

unfoldable pub artifact_name : Bytes → Bytes → Bytes → Bytes → ArtifactNameResult
artifact_name version goos goarch extension =
    let result = format_artifact_name version goos goarch extension in
    if not (valid_semver_tag version)
    then invalid (stable_release_tag version)
    else if not (valid_label goos)
    then invalid (operating_system_label goos)
    else if not (valid_label goarch)
    then invalid (architecture_label goarch)
    else if not (valid_extension extension)
    then invalid (artifact_extension extension)
    else if ltb max_artifact_name_length (length result)
    then invalid (exceeds_bytes max_artifact_name_length)
    else name result
