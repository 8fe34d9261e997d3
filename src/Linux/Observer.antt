-- ===== src/Linux/Observer.antt =====
-- internal/linux/observer.go: the devices below mounts, swap areas and a path.
pub mod Mounted
pub mod Selected
use diskforge.Base.{
  ℕ, ◌+◌, ◌*◌, ◌/◌, Bool, true, false, not, ◌&&◌, ◌||◌, Option, none, some, List, [], ◌∷◌, ◌++◌,
  Bytes, codes, length, ltb, leb, ◌==◌, bytes_eq, if◌then◌else◌,
}
use Prim.Native.Nat.{bit_and}
use diskforge.Base.Int.{ℤ, pos, negsuc, wrap64, max_int64}
use diskforge.Errors.{
  Error, Result, ok, err, sentinel, wrapped, format, text, number, refuse_if, ◌>>=◌, ◌>>◌,
  linux_invalid_block_device, linux_invalid_procfs, linux_unresolved_device,
}
use diskforge.Go.Strings.{is_empty, has_prefix}
use diskforge.Go.FilePath.{is_abs, clean, base, join_path}
use diskforge.Go.Numbers.{parse_int}
use diskforge.Policy.Model.{TargetIdentity, DeviceMap}
use diskforge.Linux.Files.{Files, FileInfo, Observer}
use diskforge.Linux.Procfs.{
  MountRecord, SwapRecord, mounts, read_swap_records, memory_available_bytes,
}
use diskforge.Linux.Sysfs.{
  exists, read_trimmed, sorted_entries, block_root, top_level_names, block_path, related,
  partition_file, slaves_directory,
}
use diskforge.Linux.Devices.{device_root, name_by_device_number}

-- `result[device] = true`
unfoldable pub set_true : Bytes → DeviceMap → DeviceMap
set_true device [] = (device, true) ∷ []
set_true device ((k, v) ∷ result) =
    let rest = set_true device result in
    if bytes_eq device k then (k, true) ∷ result else (k, v) ∷ rest

unfoldable pub set_all : List Bytes → DeviceMap → DeviceMap
unfolding set_true
set_all [] result = result
set_all (device ∷ devices) result = set_all devices (set_true device result)

unfoldable pub path_within : Bytes → Bytes → Bool
path_within path mountpoint =
    if bytes_eq mountpoint (codes "/")
    then is_abs path
    else bytes_eq path mountpoint || has_prefix path (mountpoint ++ b'/' ∷ [])

abbrev pub is_longer : MountRecord → Option MountRecord → Bool
is_longer mount none = true
is_longer mount (some selected) = ltb (length selected.mountpoint) (length mount.mountpoint)

-- The loop of `Source`.
unfoldable pub select_mount : Bytes → Option MountRecord → List MountRecord → Option MountRecord
unfolding path_within
select_mount path selected [] = selected
select_mount path selected (mount ∷ mounts) =
    select_mount path
      (if path_within path mount.mountpoint && is_longer mount selected
        then some mount
        else selected)
      mounts

abbrev backed_swap : SwapRecord → Bytes × List Bytes → Result (List Bytes)
backed_swap swap (filesystem, []) = err (
    wrapped (format "%w: block backing for swap file %q cannot be proven" (text swap.source ∷ []))
      (sentinel linux_unresolved_device))
backed_swap swap (filesystem, name ∷ names) = ok (name ∷ names)

module _ (observer : Observer) where
  unfoldable pub expand : DeviceMap → Bytes → Result DeviceMap
  unfolding set_all
  expand result name = related observer name >>= λ devices. ok (set_all devices result)

  abbrev pub expand_found : DeviceMap → Option Bytes → Result DeviceMap
  expand_found result none = ok result
  expand_found result (some name) = expand result name

  -- The loop of `MountedDevices`.
  unfoldable pub mounted_from : DeviceMap → List MountRecord → Result DeviceMap
  mounted_from result [] = ok result
  mounted_from result (mount ∷ records) = do
    found ← name_by_device_number observer mount.device
    next ← expand_found result found
    mounted_from next records

  unfoldable pub mounted_devices : Result DeviceMap
  unfolding mounted_from
  mounted_devices = mounts observer >>= mounted_from []

  abbrev pub backing_of : MountRecord → Option Bytes → Result (Bytes × List Bytes)
  backing_of selected none = ok (selected.filesystem, [])
  backing_of selected (some name) =
      related observer name >>= λ backing. ok (selected.filesystem, backing)

  unfoldable pub source_on : Bytes → Option MountRecord → Result (Bytes × List Bytes)
  source_on cleaned none = err (
      wrapped (format "%w: no mount contains source %q" (text cleaned ∷ []))
        (sentinel linux_unresolved_device))
  source_on cleaned (some selected) =
      name_by_device_number observer selected.device >>= backing_of selected

  unfoldable pub source : Bytes → Result (Bytes × List Bytes)
  unfolding select_mount source_on
  source path = do
    refuse_if (not (is_abs (clean path))) (
        wrapped (format "%w: source path must be absolute" [])
          (sentinel linux_invalid_block_device))
    records ← mounts observer
    source_on (clean path) (select_mount (clean path) none records)

  -- The devices of a swap area.
  unfoldable pub swap_backing : SwapRecord → Result (List Bytes)
  swap_backing swap =
      if bytes_eq swap.kind (codes "partition")
      then related observer (base swap.source)
      else if bytes_eq swap.kind (codes "file")
      then elim (source swap.source) [
        | err e ↦ err (wrapped (format "resolve swap file %q: %w" (text swap.source ∷ [])) e)
        | ok found ↦ backed_swap swap found
      ]
      else err (
          wrapped (format "%w: unsupported swap type %q" (text swap.kind ∷ []))
            (sentinel linux_invalid_procfs))

  -- The loop of `SwapDevices`.
  unfoldable pub swaps_from : DeviceMap → List SwapRecord → Result DeviceMap
  unfolding swap_backing set_all
  swaps_from result [] = ok result
  swaps_from result (swap ∷ swaps) = do
    devices ← swap_backing swap
    swaps_from (set_all devices result) swaps

  unfoldable pub swap_devices : Result DeviceMap
  unfolding swaps_from
  swap_devices = read_swap_records observer >>= swaps_from []
