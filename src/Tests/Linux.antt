-- ===== src/Tests/Linux.antt =====
-- Runs of `Execute` over boundaries that answer as in internal/linux/execute_test.go.
use diskforge.Base.{◌≡◌, ◌⊎◌, refl, Bool, true, false, some, [], ◌∷◌, ◌++◌, codes, bytes_eq}
use diskforge.Base.Int.{pos}
use diskforge.Errors.{Result, ok, err, format, sentinel, other_error, wrapped}
use diskforge.Policy.Model.{Mode, mode_rescue, mode_live, Inspection}
use diskforge.Image.Model.{Verified, WriteResult}
use diskforge.Linux.Boundary
use diskforge.Linux.Boundary.{Request, Call, Trace, Target}
use diskforge.Linux.Execute.{
  execute, execute_held, open_and_write, pass_gates, prepare, hold_identical, same_identity,
  prepare_live, reboot_live, write_target,
}
use diskforge.Linux.Execute.Order.{complete_trace, Succeeded, execute_ok}
use diskforge.Linux.Execute.Gated.{IsUntouched, IsUnchanged, Opens, execute_gated}
use diskforge.Linux.Execute.Outcomes.{execute-IsUnchanged, execute_closes, EndsClosed}

abbrev request : Mode → Bool → Request
request mode reboot = record {
  mode = mode;
  target_path = codes "/dev/sda";
  image_path = codes "/a";
  sha256 = codes "00";
  expected_bytes = pos 8;
  confirmation = codes "t";
  reboot = reboot;
}

abbrev pub inspected : Mode → Inspection
inspected mode = record {
  mode = mode;
  target = record {
    canonical_path = codes "/dev/sda";
    serial = [];
    wwn = [];
    size_bytes = pos 16;
    kname = codes "sda";
    is_partition = false;
    descendants = [];
  };
  image = record {
    path = codes "/a";
    sha256 = codes "00";
    format = [];
    compressed_bytes = pos 8;
    uncompressed_bytes = pos 8;
  };
  confirmation_token = codes "t";
}

abbrev pub held : Verified
held = record {
  path = codes "/a";
  sha256 = codes "00";
  format = codes "raw";
  compressed_bytes = pos 8;
  file = some 3;
}

abbrev pub written : WriteResult
written = record { written_bytes = pos 8 }

-- Every call succeeds; the opened target is descriptor 4.
abbrev pub willing : Boundary.Boundary
willing = record {
  inspect = λ t r. ok (inspected r.mode);
  verify_image = λ t p d. ok (some held);
  confirm = λ t a b. ok tt;
  mlockall = λ t. ok tt;
  swapoff = λ t. ok tt;
  enable_sysrq = λ t. ok tt;
  remount_read_only = λ t. ok tt;
  sysrq_sync = λ t. ok tt;
  sysrq_reboot = λ t. ok tt;
  open_target = λ t p m i. ok 4;
  write_verified = λ t v d n. ok written;
  fdatasync = λ t d. ok tt;
  flush_block = λ t d. ok tt;
  close_source = λ t v. ok tt;
}

run : Boundary.Boundary → Request → Result WriteResult × Trace
unfolding execute execute_held open_and_write pass_gates prepare hold_identical same_identity
    bytes_eq prepare_live reboot_live write_target
run system r = execute system r []

live_run :
    run willing (request mode_live true)
    ≡ (ok written, complete_trace (request mode_live true) (inspected mode_live) held 4)
unfolding run
live_run = refl

-- A swap area that cannot be turned off stops a live write before the target is opened.
swapoff_fails :
    run (record willing { swapoff = λ t. err (sentinel (other_error 1)) }) (request mode_live true)
    ≡ (
      err (wrapped (format "disable swap: %w" []) (sentinel (other_error 1))),
      Call.inspect (request mode_live true)
          ∷ Call.verify_image (codes "/a") (codes "00")
          ∷ Call.confirm (codes "t") (codes "t")
          ∷ Call.mlockall
          ∷ Call.swapoff
          ∷ Call.close_source held
          ∷ [],
    )
unfolding run
swapoff_fails = refl

execute_ok_example :
    (inspection : Inspection) × (verified : Verified) × (target : Target) × (complete_trace
        (request mode_live true)
        (inspected mode_live)
        held
        4
      ≡ complete_trace (request mode_live true) inspection verified target)
    × Succeeded willing (request mode_live true) [] inspection verified target written
unfolding run
execute_ok_example = execute_ok willing (request mode_live true) [] live_run

execute_gated_example :
    IsUntouched (execute willing (request mode_rescue false) []).1
    ⊎ Opens willing
        (request mode_rescue false)
        []
        (execute willing (request mode_rescue false) []).1
execute_gated_example = execute_gated willing (request mode_rescue false) []

execute-IsUnchanged_example : IsUnchanged (execute willing (request mode_rescue false) []).1
execute-IsUnchanged_example = execute-IsUnchanged willing (request mode_rescue false) [] (λ e. cc)

execute_closes_example :
    (rest : Trace) × ((execute willing (request mode_live true) []).1
      ≡ rest ++ Call.close_source held ∷ [])
    × EndsClosed willing (request mode_live true) [] (inspected mode_live) rest
execute_closes_example =
    execute_closes willing (request mode_live true) [] (inspected mode_live) held refl refl
