-- ===== src/Linux/System.antt =====
-- internal/linux/system.go: `Inspect`, which gathers what the gates of internal/policy are given.
pub mod Rescue
pub mod Live
use diskforge.Base.{Bool, false, List, [], Bytes, bytes_eq, if◌then◌else◌}
use diskforge.Base.Int.{ℤ, pos}
use diskforge.Errors.{Error, Result, ok, err, format, ◌>>=◌, ◌>>◌}
use diskforge.Image.Streams.{wrap_err}
use diskforge.Policy.Model.{
  Mode, mode_live, TargetIdentity, ImageIdentity, HostObservation, Inspection,
}
use diskforge.Policy.Inspect.{inspect}
use diskforge.Linux.Files.{Observer}
use diskforge.Linux.Procfs.{memory_available_bytes}
use diskforge.Linux.Devices.{target}
use diskforge.Linux.Observer.{mounted_devices, swap_devices, source}
use diskforge.Linux.Root.{root_disk, sysrq_trigger_available}
use diskforge.Linux.Boundary.{Request}

unfoldable pub observe_live : Observer → HostObservation → Result HostObservation
observe_live observer host = do
  root ← root_disk observer
  memory ← memory_available_bytes observer
  sysrq ← sysrq_trigger_available observer
  ok (record host {
    root_disk = root;
    memory_available_bytes = memory;
    sysrq_trigger_available = sysrq;
  })

unfoldable pub observe_mode : Observer → Mode → HostObservation → Result HostObservation
unfolding observe_live
observe_mode observer mode host =
    if bytes_eq mode mode_live then observe_live observer host else ok host

-- `euid` is what `os.Geteuid` gives, and the image's size is `os.Stat`'s.
unfoldable pub gather :
    Observer → ℤ → Request → Result (TargetIdentity × ImageIdentity × HostObservation)
unfolding observe_mode
gather observer euid request = do
  found ← target observer request.target_path
  mounted ← mounted_devices observer
  swaps ← swap_devices observer
  held ← source observer request.image_path
  info ← wrap_err (format "stat image source: %w" []) (observer.files.stat request.image_path)
  host ← observe_mode observer request.mode (record {
    euid = euid;
    root_disk = [];
    mounted_devices = mounted;
    swap_devices = swaps;
    source_filesystem = held.0;
    source_backing_devices = held.1;
    memory_available_bytes = pos 0;
    sysrq_trigger_available = false;
  })
  ok (
    found,
    record {
      path = request.image_path;
      sha256 = request.sha256;
      format = [];
      compressed_bytes = info.size;
      uncompressed_bytes = request.expected_bytes;
    },
    host,
  )

module _ (sha256 : Bytes → Bytes) where
  unfoldable pub system_inspect : Observer → ℤ → Request → Result Inspection
  unfolding gather
  system_inspect observer euid request = gather observer euid request >>= λ (found, image, host).
      inspect sha256 request.mode found image host
