-- ===== src/Tests/Live.antt =====
-- A guarded write in live mode over a host whose root is the target and whose image is on a tmpfs.
use diskforge.Base.{◌≡◌, refl, true, none, List, [], ◌∷◌, Bytes, codes, Option}
use diskforge.Base.Int.{pos}
use diskforge.Errors.{Error, Result, ok}
use diskforge.Policy.Model.{mode_live}
use diskforge.Policy.Inspect.{inspect_live}
use diskforge.Image.Model.{WriteResult}
use diskforge.Linux.Files.{Observer}
use diskforge.Linux.Procfs.{memory_available_bytes, is_available_line}
use diskforge.Linux.Root.{root_disk, physical_root_disk, sysrq_trigger_available, physical_among}
use diskforge.Linux.Boundary.{Request, Trace}
use diskforge.Linux.Execute.{execute}
use diskforge.Linux.Controls.{
  mlockall, swapoff, enable_sysrq, remount_read_only, sysrq_sync, sysrq_reboot,
}
use diskforge.Linux.Machine.{Machine, system_boundary}
use diskforge.Linux.Machine.Overwritten.{IsOverwritten, execute-IsOverwritten}
use diskforge.Tests.Host.{host, found, contents, stats}
use diskforge.Tests.Machine.{machine, request, zero_hash, no_decoder, run, run_remount}

abbrev scans : List (Bytes × (List Bytes × Option Error))
scans =
    (
      codes "/p/self/mountinfo",
      (
        codes "21 1 8:0 / / ro - ext4 /dev/sda ro" ∷ codes "22 1 0:5 / /t rw - tmpfs tmpfs rw" ∷ [],
        none,
      ),
    )
    ∷ (codes "/p/swaps", (codes "Filename Type Size Used Priority" ∷ [], none))
    ∷ (codes "/p/meminfo", (codes "MemAvailable: 1000000 kB" ∷ [], none))
    ∷ []

abbrev live_host : Observer
live_host = record host {
  files = record (host.files) {
    scan = found scans;
    read_file = found ((codes "/p/sys/kernel/sysrq", codes "1\n") ∷ contents);
    stat = found (
        (codes "/p/sysrq-trigger", record { size = pos 0; perm = 0x80 })
        ∷ (codes "/t/a", record { size = pos 5; perm = 0 })
        ∷ stats);
  };
}

abbrev live_machine : Machine
live_machine = record machine { observer = λ t. live_host; polls = λ t n. live_host }

abbrev live_request : Request
live_request = record request { mode = mode_live; image_path = codes "/t/a"; reboot = true }

run_live : Result WriteResult × Trace
unfolding run run_remount root_disk physical_root_disk physical_among memory_available_bytes
    is_available_line sysrq_trigger_available inspect_live mlockall swapoff enable_sysrq
    remount_read_only sysrq_sync sysrq_reboot
run_live = execute (system_boundary zero_hash no_decoder live_machine) live_request []

overwritten : run_live.0 ≡ ok (record { written_bytes = pos 5 })
unfolding run_live
overwritten = refl

execute-IsOverwritten_example :
    IsOverwritten zero_hash no_decoder live_machine live_request [] run_live.1
unfolding run_live
execute-IsOverwritten_example =
    execute-IsOverwritten zero_hash no_decoder live_machine live_request []
      (record { written_bytes = pos 5 }) run_live.1 refl refl
