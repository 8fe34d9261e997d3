-- ===== src/Tests/Naming.antt =====
-- Names from internal/naming/naming_test.go, and the theorems of `Naming` at them.
use diskforge.Base.{◌≡◌, ◌↔◌, refl, false, Bytes, bytes_eq, codes}
use diskforge.Go.Strings.{to_lower}
use diskforge.Go.Hex.{decode_string}
use diskforge.Digest.{digest_test}
use diskforge.Naming.{
  valid_label, valid_semver_tag, valid_extension, artifact_name, format_artifact_name, name,
  invalid, operating_system_label,
}
use diskforge.Naming.Artifact.{AreParts, artifact_name_iff, artifact_name_inj}

abbrev release : Bytes
release = codes "diskforge_1.20.3_linux_amd64.tar.gz"

release_name :
    artifact_name (codes "v1.20.3") (codes "linux") (codes "amd64") (codes "tar.gz") ≡ name release
unfolding artifact_name valid_semver_tag valid_label valid_extension format_artifact_name
release_name = refl

upper_case :
    artifact_name (codes "v1.20.3") (codes "Linux") (codes "amd64") (codes "tar.gz")
    ≡ invalid (operating_system_label (codes "Linux"))
unfolding artifact_name valid_semver_tag valid_label
upper_case = refl

leading_zero : valid_semver_tag (codes "v1.02.3") ≡ false
unfolding valid_semver_tag
leading_zero = refl

double_dot : valid_extension (codes "tar..gz") ≡ false
unfolding valid_extension
double_dot = refl

artifact_name_iff_example :
    (artifact_name (codes "v1.20.3") (codes "linux") (codes "amd64") (codes "tar.gz")
      ≡ name release)
    ↔ (AreParts (codes "v1.20.3") (codes "linux") (codes "amd64") (codes "tar.gz")
        × (release
            ≡ format_artifact_name
                (codes "v1.20.3")
                (codes "linux")
                (codes "amd64")
                (codes "tar.gz")))
artifact_name_iff_example =
    artifact_name_iff (codes "v1.20.3") (codes "linux") (codes "amd64") (codes "tar.gz") release

artifact_name_inj_example :
    (codes "v1.20.3" ≡ codes "v1.20.3")
    × (codes "linux" ≡ codes "linux")
    × (codes "amd64" ≡ codes "amd64")
    × (codes "tar.gz" ≡ codes "tar.gz")
artifact_name_inj_example =
    artifact_name_inj (codes "v1.20.3") (codes "linux") (codes "amd64") (codes "tar.gz")
      (codes "v1.20.3") (codes "linux") (codes "amd64") (codes "tar.gz") release release_name
      release_name

abbrev digest : Bytes
digest = codes "9f86d081884c7d659a2feaa0c55ad015a3bf4f1b2b0b822cd15d6c15b0f00a08"

upper_digest :
    digest_test (codes "9F86D081884C7D659A2FEAA0C55AD015A3BF4F1B2B0B822CD15D6C15B0F00A08") ≡ false
unfolding digest_test decode_string to_lower bytes_eq
upper_digest = refl
