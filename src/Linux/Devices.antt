-- ===== src/Linux/Devices.antt =====
-- internal/linux/observer.go: the target and the device behind a number.
pub mod Sizes
use diskforge.Base.{
  ℕ, ◌+◌, ◌*◌, ◌/◌, Bool, true, false, not, ◌&&◌, ◌||◌, Option, none, some, List, [], ◌∷◌, ◌++◌,
  Bytes, codes, length, ltb, leb, ◌==◌, bytes_eq, if◌then◌else◌,
}
use Prim.Native.Nat.{bit_and}
use diskforge.Base.Int.{ℤ, pos, negsuc, wrap64, max_int64}
use diskforge.Errors.{
  Error, Result, ok, err, sentinel, wrapped, format, text, number, refuse_if, ◌>>=◌, ◌>>◌,
  linux_invalid_block_device, linux_invalid_procfs, linux_unresolved_device,
}
use diskforge.Go.Strings.{is_empty, has_prefix}
use diskforge.Go.FilePath.{is_abs, clean, base, join_path}
use diskforge.Go.Numbers.{parse_int}
use diskforge.Policy.Model.{TargetIdentity, DeviceMap}
use diskforge.Linux.Files.{Files, FileInfo, Observer}
use diskforge.Linux.Procfs.{
  MountRecord, SwapRecord, mounts, read_swap_records, memory_available_bytes,
}
use diskforge.Linux.Sysfs.{
  exists, read_trimmed, sorted_entries, block_root, top_level_names, block_path, related,
  partition_file, slaves_directory,
}

abbrev pub device_root : Bytes
device_root = codes "/dev"

-- The loop of `readOptional`.
unfoldable pub read_optional : Files → Bytes → List Bytes → Bytes
read_optional files root [] = []
read_optional files root (relative ∷ paths) =
    let rest = read_optional files root paths in
    elim (read_trimmed files (join_path (root ∷ relative ∷ []))) [
      | err e ↦ rest
      | ok value ↦ if is_empty value then rest else value
    ]

-- `sectors * sectorBytes`, where the sectors are few enough, or none.
unfoldable pub size_of_sectors : Option ℤ → Option ℤ
size_of_sectors none = none
size_of_sectors (some (negsuc n)) = none
size_of_sectors (some (pos sectors)) =
    if ltb (max_int64 / 512) sectors then none else some (wrap64 (sectors * 512))

unfoldable pub refused_path : Bytes → Bytes → Bool
refused_path cleaned name =
    not (bytes_eq cleaned (join_path (device_root ∷ name ∷ [])))
    || (bytes_eq name (codes ".") || bytes_eq name (codes "/"))

abbrev sector_error : Bytes → Error
sector_error name =
    wrapped (format "%w: sector count for %s" (text name ∷ []))
      (sentinel linux_invalid_block_device)

abbrev pub sized : Bytes → Option ℤ → Result ℤ
sized name none = err (sector_error name)
sized name (some size) = ok size

abbrev pub children_paths : Bytes → List Bytes → List Bytes
children_paths path [] = []
children_paths path (child ∷ children) =
    join_path (path ∷ child ∷ []) ∷ children_paths path children

abbrev found_or : Option Bytes → Result (Option Bytes) → Result (Option Bytes)
found_or none rest = rest
found_or (some name) rest = ok (some name)

module _ (observer : Observer) where
  unfoldable pub target : Bytes → Result TargetIdentity
  unfolding refused_path size_of_sectors read_optional
  target path = do
    let cleaned = clean path
    let name = base cleaned
    refuse_if (refused_path cleaned name) (
        wrapped (format "%w: expected canonical /dev/<name> path" [])
          (sentinel linux_invalid_block_device))
    sys_path ← block_path observer name
    sectors ← read_trimmed observer.files (join_path (sys_path ∷ codes "size" ∷ []))
    size ← sized name (size_of_sectors (parse_int sectors))
    descendants ← related observer name
    ok (record {
      canonical_path = cleaned;
      serial = read_optional observer.files sys_path (codes "device/serial" ∷ codes "serial" ∷ []);
      wwn = read_optional observer.files sys_path (codes "device/wwid" ∷ codes "wwid" ∷ []);
      size_bytes = size;
      kname = name;
      is_partition = exists observer.files (join_path (sys_path ∷ partition_file ∷ []));
      descendants = descendants;
    })

  -- The first of the paths whose `dev` file holds the number, by its last element.
  unfoldable pub device_among : Bytes → List Bytes → Option Bytes
  device_among device [] = none
  device_among device (path ∷ paths) =
      let rest = device_among device paths in
      elim (read_trimmed observer.files (join_path (path ∷ codes "dev" ∷ []))) [
        | err e ↦ rest
        | ok value ↦ if bytes_eq value device then some (base path) else rest
      ]

  -- The loop of `nameByDeviceNumber`.
  unfoldable pub device_below : Bytes → List Bytes → Result (Option Bytes)
  unfolding device_among
  device_below device [] = ok none
  device_below device (parent ∷ parents) =
      let path = join_path (block_root observer ∷ parent ∷ []) in
      let rest = device_below device parents in
      elim (observer.files.read_dir path) [
        | err e ↦ err (wrapped (format "read block device %q: %w" (text path ∷ [])) e)
        | ok children ↦ found_or (device_among device (path ∷ children_paths path children)) rest
      ]

  unfoldable pub name_by_device_number : Bytes → Result (Option Bytes)
  unfolding device_below
  name_by_device_number device = top_level_names observer >>= device_below device
