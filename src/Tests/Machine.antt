-- ===== src/Tests/Machine.antt =====
-- A guarded write in rescue mode over the small host, and the remount of a live one.
use diskforge.Base.{
  ℕ, zero, suc, ◌≡◌, ◌↔◌, ◌⊎◌, refl, true, false, none, some, [], ◌∷◌, Bytes, codes, length,
  if◌then◌else◌,
}
use diskforge.Base.Int.{pos}
use diskforge.Errors.{Error, Result, ok, err}
use diskforge.Go.Hex.{encode_to_string, decode_string}
use diskforge.Go.Strings.{to_lower, cut}
use diskforge.Go.Numbers.{parse_uint32}
use diskforge.Digest.{digest_test}
use diskforge.Naming.{valid_label}
use diskforge.Policy.Model.{mode_rescue, mode_live, Inspection}
use diskforge.Policy.Confirmation.{
  confirmation_token, format_token, refused_target, valid_identity_text,
}
use diskforge.Policy.Inspect.{
  inspect, intersects, device_names, map_from_slice, inspect_mode, inspect_rescue,
}
use diskforge.Image.Model.{WriteResult}
use diskforge.Image.Streams.{Reader, read_all, copy_limited, judge, read_extra}
use diskforge.Image.Verify.{
  verify, validate_digest, verify_descriptor, descriptor_format, read_full, read_up_to,
  header_failure,
}
use diskforge.Image.Write.{
  write, write_locked, stream, finish_write, finish_read, sync_write, reverify_source,
  expanded_reader, validate_write_inputs,
}
use diskforge.Linux.Boundary.{Request, Trace}
use diskforge.Linux.Execute.{
  execute, execute_held, open_and_write, pass_gates, prepare, hold_identical, same_identity,
  prepare_live, reboot_live, write_target,
}
use diskforge.Linux.Controls.{confirm}
use diskforge.Linux.OpenedTarget.{open_target, device_number}
use diskforge.Linux.System.{system_inspect}
use diskforge.Linux.Machine.{Machine, system_boundary}
use diskforge.Linux.Machine.Rescued.{IsRescued, execute-IsRescued}
use diskforge.Base.{leb}
use diskforge.Linux.Files.{Observer}
use diskforge.Linux.Procfs.{contains_option}
use diskforge.Linux.Root.{block_mounts_read_only}
use diskforge.Linux.Controls.{write_control, remount_read_only}
use diskforge.Linux.Controls.Remount.{EndsAt, remount_read_only_iff}
use diskforge.Linux.System.Rescue.{IsRescuable, system_inspect-IsRescuable}
use diskforge.Linux.OpenedTarget.Identity.{IsOpened, open_target_iff, open_target_closes}
use diskforge.Tests.Host.{host, disk, run_target, run_mounted, run_swaps, run_source}

abbrev pub zeros : ℕ → Bytes
zeros zero = []
zeros (suc n) = 0 ∷ zeros n

abbrev pub zero_hash : Bytes → Bytes
zero_hash s = zeros 32

abbrev pub no_decoder : Reader → Result Reader
no_decoder reader = ok reader

abbrev pub zero_digest : Bytes
zero_digest = codes "0000000000000000000000000000000000000000000000000000000000000000"

abbrev pub request : Request
request = record {
  mode = mode_rescue;
  target_path = codes "/dev/sda";
  image_path = codes "/a";
  sha256 = zero_digest;
  expected_bytes = pos 5;
  confirmation = codes "confirm-v1-sda-000000000000-0000000000000000";
  reboot = false;
}

-- Every call succeeds, the disk is 8:0, and the image holds five bytes.
abbrev pub machine : Machine
machine = record {
  euid = pos 0;
  observer = λ t. host;
  polls = λ t n. host;
  memory = λ t. record {
    getrlimit = ok (record { current = 0; maximum = 9 });
    setrlimit = λ l. ok tt;
    lock_all = ok tt;
  };
  swap = λ t. record { encode = λ p. ok tt; turn_off = λ p. ok tt };
  controls = λ t path. record { opened = ok tt; written = λ v. ok tt; closed = ok tt };
  descriptors = λ t. record {
    open_path = λ p exclusive. ok 4;
    fstat = λ d. ok (record { mode = 0x61b0; major = 8; minor = 0 });
    fstat_again = λ d. ok (record { mode = 0x61b0; major = 8; minor = 0 });
  };
  open_image = λ t path. ok 3;
  image_file = λ t path. record {
    regular = ok true;
    hash_rewind = ok tt;
    hash_pieces = (1 ∷ 2 ∷ 3 ∷ 4 ∷ 5 ∷ []) ∷ [];
    hash_finish = none;
    header_rewind = ok tt;
    header_pieces = (1 ∷ 2 ∷ 3 ∷ 4 ∷ []) ∷ [];
    header_finish = none;
    last_rewind = ok tt;
  };
  context = λ t. some (λ index. none);
  held_file = λ t v. record {
    size = ok (pos 5);
    first_rewind = ok tt;
    first_pieces = (1 ∷ 2 ∷ 3 ∷ []) ∷ (4 ∷ 5 ∷ []) ∷ [];
    first_finish = none;
    second_rewind = ok tt;
    second_pieces = (1 ∷ 2 ∷ []) ∷ [] ∷ (3 ∷ 4 ∷ 5 ∷ []) ∷ [];
    second_finish = none;
  };
  writer = λ t d. record { accept = λ content q. (length q, none); sync = λ content. ok tt };
  reporting = false;
  fdatasync = λ t d. ok tt;
  flush_block = λ t d. ok tt;
  close_source = λ t v. ok tt;
}

run_inspect : Result Inspection
unfolding system_inspect run_target run_mounted run_swaps run_source confirmation_token
    refused_target format_token digest_test decode_string to_lower valid_label valid_identity_text
    inspect intersects device_names map_from_slice inspect_mode inspect_rescue
run_inspect = system_inspect zero_hash host (pos 0) request

unfoldable pub run : Result WriteResult × Trace
unfolding run_inspect system_boundary execute execute_held open_and_write pass_gates prepare
    hold_identical same_identity prepare_live reboot_live write_target confirm open_target
    device_number cut parse_uint32 verify validate_digest verify_descriptor descriptor_format
    read_full read_up_to header_failure write write_locked stream finish_write finish_read
    sync_write reverify_source expanded_reader validate_write_inputs read_all copy_limited judge
    read_extra encode_to_string
run = execute (system_boundary zero_hash no_decoder machine) request []

rescued : run.0 ≡ ok (record { written_bytes = pos 5 })
unfolding run
rescued = refl

execute-IsRescued_example :
    IsRescued zero_hash no_decoder machine request [] (record { written_bytes = pos 5 }) run.1
unfolding run
execute-IsRescued_example =
    execute-IsRescued zero_hash no_decoder machine request [] (record { written_bytes = pos 5 })
      run.1 refl refl

abbrev inspection : Inspection
inspection = record {
  mode = mode_rescue;
  target = disk;
  image = record {
    path = codes "/a";
    sha256 = zero_digest;
    format = [];
    compressed_bytes = pos 5;
    uncompressed_bytes = pos 5;
  };
  confirmation_token = codes "confirm-v1-sda-000000000000-0000000000000000";
}

system_inspect-IsRescuable_example : IsRescuable host request disk
unfolding run_inspect
system_inspect-IsRescuable_example =
    system_inspect-IsRescuable host zero_hash (pos 0) request inspection refl refl

open_target_iff_example :
    (open_target host (machine.descriptors []) (codes "/dev/sda") mode_rescue disk ≡ (ok 4, []))
    ↔ IsOpened host (machine.descriptors []) (codes "/dev/sda") mode_rescue disk 4
open_target_iff_example =
    open_target_iff host (machine.descriptors []) (codes "/dev/sda") mode_rescue disk 4

open_target_closes_example :
    (open_target host (machine.descriptors []) (codes "/dev/sda") mode_live disk ≡ (ok 4, []))
    ⊎ ((e : Error) × (open_target host (machine.descriptors []) (codes "/dev/sda") mode_live disk
          ≡ (err e, 4 ∷ [])))
open_target_closes_example =
    open_target_closes host (machine.descriptors []) (codes "/dev/sda") mode_live disk 4 refl

-- From the third poll on the root is mounted read-only.
abbrev settling : ℕ → Observer
settling n = record host {
  files = record (host.files) {
    scan = λ path. ok (
      codes (
            if leb 2 n
            then "21 1 8:16 / / ro - ext4 /dev/sdb ro"
            else "21 1 8:16 / / rw - ext4 /dev/sdb rw")
          ∷ [],
      none,
    );
  };
}

unfoldable pub run_remount : Result (Unit {0})
unfolding run_source remount_read_only block_mounts_read_only contains_option
run_remount = remount_read_only (machine.controls []) (codes "/p") settling

remounted : run_remount ≡ ok tt
unfolding run_remount
remounted = refl

remount_read_only_iff_example :
    (remount_read_only (machine.controls []) (codes "/p") settling ≡ ok tt) ↔ (
      (write_control (machine.controls []) (codes "/p/sysrq-trigger") (codes "u") ≡ ok tt)
      × ((k : ℕ) × EndsAt 600 settling k))
unfolding run_remount
remount_read_only_iff_example = remount_read_only_iff (machine.controls []) (codes "/p") settling
