-- ===== src/Policy/Model.antt =====
-- internal/policy/model.go, whose types types.go repeats for the public API: strings are bytes, an
-- int64 is an integer, and a Go map is the list of its entries in the order of one iteration.
use diskforge.Base.{Bool, List, Bytes, codes}
use diskforge.Base.Int.{ℤ}

-- `Mode`, any string
abbrev pub Mode : Type 0
Mode = Bytes

abbrev pub mode_rescue : Mode
mode_rescue = codes "rescue"

abbrev pub mode_live : Mode
mode_live = codes "live"

pub record TargetIdentity : Type 0 where
  pub canonical_path : Bytes
  pub serial : Bytes
  pub wwn : Bytes
  pub size_bytes : ℤ
  pub kname : Bytes
  pub is_partition : Bool
  pub descendants : List Bytes

pub record ImageIdentity : Type 0 where
  pub path : Bytes
  pub sha256 : Bytes
  pub format : Bytes
  pub compressed_bytes : ℤ
  pub uncompressed_bytes : ℤ

-- `map[string]bool`
abbrev pub DeviceMap : Type 0
DeviceMap = List (Bytes × Bool)

pub record HostObservation : Type 0 where
  pub euid : ℤ
  pub root_disk : Bytes
  pub mounted_devices : DeviceMap
  pub swap_devices : DeviceMap
  pub source_filesystem : Bytes
  pub source_backing_devices : List Bytes
  pub memory_available_bytes : ℤ
  pub sysrq_trigger_available : Bool

pub record Inspection : Type 0 where
  pub mode : Mode
  pub target : TargetIdentity
  pub image : ImageIdentity
  pub confirmation_token : Bytes
