-- ===== src/Tests/Policy.antt =====
-- Inspections as in internal/policy/inspect_test.go, and the theorems of `Policy` at them.
use mathlib.Core.List.{Permᴰ}
use diskforge.Base.{ℕ, ◌≡◌, ◌≢◌, ◌↔◌, ◌⊎◌, refl, true, false, [], ◌∷◌, arith, Bytes, codes, take}
use diskforge.Base.Int.{pos, ◌<ℤ◌}
use diskforge.Go.Hex.Laws.{IsDigest}
use diskforge.Errors.{Result, ok, err, gate, format, target_mounted, text, live_memory, number}
use diskforge.Policy.Model.{
  Mode, mode_rescue, mode_live, TargetIdentity, ImageIdentity, DeviceMap, HostObservation,
  Inspection,
}
use diskforge.Policy.Confirmation.{
  confirmation_token, format_token, confirmation_record, refused_target, valid_identity_text,
}
use diskforge.Go.Strings.{to_lower}
use diskforge.Go.Hex.{decode_string}
use diskforge.Go.FilePath.{base, clean, is_abs}
use diskforge.Digest.{digest_test}
use diskforge.Naming.{valid_label}
use diskforge.Policy.Confirmation.Text.{SameBinding, HasLines, confirmation_record_inj}
use diskforge.Policy.Confirmation.Token.{
  IsConfirmable, IsHash, confirmation_token_iff, confirmation_token_ignores,
  confirmation_token_binds,
}
use diskforge.Policy.Inspect.{
  inspect, intersects, device_names, minimum_live_available_bytes, map_from_slice, inspect_mode,
  inspect_rescue, inspect_live,
}
use diskforge.Policy.Inspect.Gates.{IsSafe, inspect_iff, inspect-Perm}
use diskforge.Engine
use diskforge.Engine.Requests.{from_policy_target, from_policy_image}
use diskforge.Engine.Consent.{confirmation_token-inspect}

-- A hash that meets `IsHash`: 32 zeros.
abbrev zeros : ℕ → Bytes
zeros ℕ.zero = []
zeros (ℕ.suc n) = 0 ∷ zeros n

abbrev null_hash : Bytes → Bytes
null_hash s = zeros 32

null_hash-IsHash : IsHash null_hash
null_hash-IsHash = record { size = λ s. omega arith; bytes = λ s. omega arith }

abbrev disk : TargetIdentity
disk = record {
  canonical_path = codes "/dev/sda";
  serial = codes "S1";
  wwn = [];
  size_bytes = pos 4096;
  kname = codes "sda";
  is_partition = false;
  descendants = codes "sda" ∷ codes "sda1" ∷ [];
}

abbrev raw_image : ImageIdentity
raw_image = record {
  path = codes "/tmp/a.raw";
  sha256 = codes "9f86d081884c7d659a2feaa0c55ad015a3bf4f1b2b0b822cd15d6c15b0f00a08";
  format = [];
  compressed_bytes = pos 10;
  uncompressed_bytes = pos 2048;
}

abbrev host : HostObservation
host = record {
  euid = pos 0;
  root_disk = [];
  mounted_devices = (codes "sdb1", true) ∷ (codes "sda1", false) ∷ [];
  swap_devices = [];
  source_filesystem = codes "ext4";
  source_backing_devices = codes "sdb1" ∷ codes "sdb" ∷ [];
  memory_available_bytes = pos 0;
  sysrq_trigger_available = false;
}

abbrev token : Bytes
token = codes "confirm-v1-sda-9f86d081884c-0000000000000000"

run_token : TargetIdentity → ImageIdentity → Result Bytes
unfolding confirmation_token refused_target format_token digest_test decode_string to_lower base
    clean is_abs valid_label valid_identity_text
run_token = confirmation_token null_hash

run_inspect : Mode → TargetIdentity → ImageIdentity → HostObservation → Result Inspection
unfolding inspect run_token intersects device_names map_from_slice inspect_mode inspect_rescue
    inspect_live
run_inspect = inspect null_hash

token_of_disk : run_token disk raw_image ≡ ok token
unfolding run_token
token_of_disk = refl

-- The inactive entry of the target's partition does not count.
accepted :
    run_inspect mode_rescue disk raw_image host
    ≡ ok (record {
      mode = mode_rescue;
      target = disk;
      image = raw_image;
      confirmation_token = token;
    })
unfolding run_inspect
accepted = refl

mounted :
    run_inspect mode_rescue disk raw_image
      (record host { mounted_devices = (codes "sda1", true) ∷ (codes "sda", true) ∷ [] })
    ≡ err (gate target_mounted (format "target descendant %s is mounted" (text (codes "sda") ∷ [])))
unfolding run_inspect
mounted = refl

too_little_memory :
    run_inspect mode_live disk raw_image
      (record host { root_disk = codes "/dev/sda"; source_filesystem = codes "tmpfs" })
    ≡ err (
        gate live_memory (
          format "live mode requires at least %d available bytes"
            (number minimum_live_available_bytes ∷ [])))
unfolding run_inspect
too_little_memory = refl

confirmation_token_iff_example : (run_token disk raw_image ≡ ok token) ↔ (
    IsConfirmable disk
    × (pos 0 <ℤ pos 2048)
    × IsDigest raw_image.sha256
    × (token ≡ format_token null_hash disk raw_image))
unfolding run_token
confirmation_token_iff_example = confirmation_token_iff null_hash disk raw_image token

abbrev renamed : TargetIdentity
renamed = record disk { kname = codes "dm-0"; is_partition = true; descendants = [] }

confirmation_token_ignores_example :
    confirmation_token null_hash renamed
      (record raw_image { path = codes "/a"; format = codes "zstd"; compressed_bytes = pos 1 })
    ≡ confirmation_token null_hash disk raw_image
confirmation_token_ignores_example =
    confirmation_token_ignores null_hash disk raw_image (codes "dm-0") (codes "/a") (codes "zstd")
      true [] (pos 1)

renamed_token : run_token renamed raw_image ≡ ok token
unfolding run_token
renamed_token = refl

confirmation_token_binds_example :
    SameBinding disk raw_image renamed raw_image
    ⊎ ((confirmation_record disk raw_image ≢ confirmation_record renamed raw_image)
        × (take 8 (null_hash (confirmation_record disk raw_image))
            ≡ take 8 (null_hash (confirmation_record renamed raw_image))))
unfolding run_token
confirmation_token_binds_example =
    confirmation_token_binds null_hash null_hash-IsHash disk raw_image renamed raw_image token
      token_of_disk renamed_token

lines_of :
    (t : TargetIdentity)
    → confirmation_token null_hash t raw_image ≡ ok token
    → HasLines t raw_image
lines_of t made =
    let (c, _, d, _) = (confirmation_token_iff null_hash t raw_image token).0 made in
    record { serial = c.serial; wwn = c.wwn; sha256 = d }

confirmation_record_inj_example : SameBinding disk raw_image renamed raw_image
unfolding confirmation_record run_token
confirmation_record_inj_example =
    confirmation_record_inj disk raw_image renamed raw_image (lines_of disk token_of_disk)
      (lines_of renamed renamed_token) refl

inspect_iff_example :
    (run_inspect mode_rescue disk raw_image host
      ≡ ok (record {
        mode = mode_rescue;
        target = disk;
        image = raw_image;
        confirmation_token = token;
      }))
    ↔ (IsSafe mode_rescue disk raw_image host
        × ◌≡◌ {A = Inspection}
            (record {
              mode = mode_rescue;
              target = disk;
              image = raw_image;
              confirmation_token = token;
            })
            (record {
              mode = mode_rescue;
              target = disk;
              image = raw_image;
              confirmation_token = format_token null_hash disk raw_image;
            }))
unfolding run_inspect
inspect_iff_example =
    inspect_iff null_hash mode_rescue disk raw_image host
      (record { mode = mode_rescue; target = disk; image = raw_image; confirmation_token = token })

abbrev reordered : DeviceMap
reordered = (codes "sda1", false) ∷ (codes "sdb1", true) ∷ []

inspect-Perm_example :
    inspect null_hash mode_rescue disk raw_image (record host { mounted_devices = reordered })
    ≡ inspect null_hash mode_rescue disk raw_image host
inspect-Perm_example =
    inspect-Perm null_hash mode_rescue disk raw_image host reordered [] (Permᴰ.swap refl refl)
      Permᴰ.nil

confirmation_token-inspect_example :
    Engine.confirmation_token null_hash (from_policy_target disk) (from_policy_image raw_image)
    ≡ ok token
unfolding run_inspect
confirmation_token-inspect_example =
    confirmation_token-inspect null_hash mode_rescue disk raw_image host
      (record { mode = mode_rescue; target = disk; image = raw_image; confirmation_token = token })
      accepted
