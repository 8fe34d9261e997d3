-- ===== src/Policy/Inspect.antt =====
-- internal/policy/inspect.go: the gates of a write, in the order in which they are tried.
pub mod Devices
pub mod Gates
use diskforge.Base.{
  ℕ, ◌*◌, Bool, true, false, not, ◌&&◌, ◌||◌, Option, none, some, List, [], ◌∷◌, ◌++◌, Bytes, codes,
  String, bytes_eq, if◌then◌else◌,
}
use diskforge.Base.Int.{ℤ, pos, ltb_ℤ, eq_ℤ}
use diskforge.Go.Strings.{is_empty}
use diskforge.Go.FilePath.{clean, base}
use diskforge.Go.Sort.{sort}
use diskforge.Errors.{
  GateCode, Error, gate, Message, format, Argument, text, number, Result, ok, err, ◌>>=◌, ◌>>◌,
  refuse_if, invalid_mode, not_root, target_partition, target_too_small, source_on_target,
  target_mounted, target_swap, live_target_not_root, live_source_not_tmpfs, live_memory, live_sysrq,
}
use diskforge.Policy.Model.{
  Mode, mode_rescue, mode_live, TargetIdentity, ImageIdentity, DeviceMap, HostObservation,
  Inspection,
}
use diskforge.Policy.Confirmation.{confirmation_token}

abbrev pub minimum_live_available_bytes : ℤ
minimum_live_available_bytes = pos (512 * 1024 * 1024)

abbrev pub tmpfs_filesystem : Bytes
tmpfs_filesystem = codes "tmpfs"

abbrev pub refuse : {A : Type 0} → GateCode → Message → Result A
refuse code message = err (gate code message)

-- The bases of the texts that are not empty.
unfoldable pub named : List Bytes → List Bytes
named [] = []
named (v ∷ vs) = let rest = named vs in if is_empty v then rest else base v ∷ rest

-- The keys of the set, as often as they are put in.
unfoldable pub device_names : TargetIdentity → List Bytes
unfolding named
device_names target = named target.descendants ++ named (target.kname ∷ target.canonical_path ∷ [])

-- `_, found := candidates[key]`
unfoldable pub has_key : Bytes → List Bytes → Bool
has_key key [] = false
has_key key (n ∷ ns) = bytes_eq key n || has_key key ns

unfoldable pub active_devices : DeviceMap → List Bytes
active_devices [] = []
active_devices ((device, active) ∷ rest) =
    let more = active_devices rest in if active then device ∷ more else more

-- The first device whose base is a candidate.
unfoldable pub first_among : List Bytes → List Bytes → Option Bytes
unfolding has_key base
first_among [] candidates = none
first_among (d ∷ ds) candidates =
    let rest = first_among ds candidates in if has_key (base d) candidates then some d else rest

-- The device and `true`, or none.
unfoldable pub intersects : DeviceMap → List Bytes → Option Bytes
unfolding active_devices first_among sort
intersects devices candidates = first_among (sort (active_devices devices)) candidates

-- `result[value] = true` for each value; a value that comes twice is one key.
unfoldable pub map_from_slice : List Bytes → DeviceMap
unfolding has_key
map_from_slice [] = []
map_from_slice (v ∷ vs) =
    let rest = map_from_slice vs in if has_key v vs then rest else (v, true) ∷ rest

-- `if device, found := …; found { return refuse(code, …) }`
abbrev pub refuse_found : Option Bytes → GateCode → String → Result (Unit {0})
refuse_found none code message = ok tt
refuse_found (some device) code message = refuse code (format message (text device ∷ []))

unfoldable pub inspect_rescue : HostObservation → List Bytes → Result (Unit {0})
inspect_rescue host target_devices = do
  refuse_found (intersects host.mounted_devices target_devices) target_mounted
      "target descendant %s is mounted"
  refuse_found (intersects host.swap_devices target_devices) target_swap
      "target descendant %s is active swap"

unfoldable pub inspect_live : TargetIdentity → HostObservation → Result (Unit {0})
inspect_live target host = do
  refuse_if (not (bytes_eq (clean host.root_disk) target.canonical_path))
      (gate live_target_not_root (format "live target must be the root disk" []))
  refuse_if (not (bytes_eq host.source_filesystem tmpfs_filesystem))
      (gate live_source_not_tmpfs (format "live source must reside on tmpfs" []))
  refuse_if (ltb_ℤ host.memory_available_bytes minimum_live_available_bytes) (
      gate live_memory (
        format "live mode requires at least %d available bytes"
          (number minimum_live_available_bytes ∷ [])))
  refuse_if (not host.sysrq_trigger_available)
      (gate live_sysrq (format "live mode requires a writable SysRq trigger" []))

unfoldable pub inspect_mode :
    Mode → TargetIdentity → HostObservation → List Bytes → Result (Unit {0})
inspect_mode mode target host target_devices =
    if bytes_eq mode mode_rescue
    then inspect_rescue host target_devices
    else inspect_live target host

module _ (sha256 : Bytes → Bytes) where
  -- `slices.Clone` gives an equal list.
  unfoldable pub inspect :
      Mode → TargetIdentity → ImageIdentity → HostObservation → Result Inspection
  inspect mode target image host = do
    refuse_if (not (bytes_eq mode mode_rescue) && not (bytes_eq mode mode_live))
        (gate invalid_mode (format "unsupported write mode %q" (text mode ∷ [])))
    refuse_if (not (eq_ℤ host.euid (pos 0)))
        (gate not_root (format "whole-disk inspection requires root" []))
    refuse_if target.is_partition (gate target_partition (format "target is a partition" []))
    refuse_if (ltb_ℤ target.size_bytes image.uncompressed_bytes) (
        gate target_too_small (
          format "target has %d bytes but image expands to %d bytes"
            (number target.size_bytes ∷ number image.uncompressed_bytes ∷ [])))
    token ← confirmation_token sha256 target image
    let target_devices = device_names target
    refuse_found (intersects (map_from_slice host.source_backing_devices) target_devices)
        source_on_target "source is backed by target descendant %s"
    inspect_mode mode target host target_devices
    ok (record { mode = mode; target = target; image = image; confirmation_token = token })
