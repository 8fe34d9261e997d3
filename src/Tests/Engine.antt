-- ===== src/Tests/Engine.antt =====
-- Runs of the public engine, and the theorems of `Engine` at them.
use diskforge.Base.{
  ◌≡◌, ◌↔◌, refl, List, Bool, true, false, none, some, [], ◌∷◌, ◌++◌, Bytes, codes, bytes_eq,
}
use diskforge.Base.Int.{pos}
use diskforge.Errors.{
  Error, Result, ok, gate, wrapped, format, as_gate, target_swap, target_mounted, text_of,
}
use diskforge.Policy.Model.{Inspection}
use diskforge.Image.Model.{Verified}
use diskforge.Image.Model
use diskforge.Linux.Boundary
use diskforge.Linux.Boundary.{Call, Trace, Target}
use diskforge.Linux.Execute.{
  execute, execute_held, open_and_write, pass_gates, prepare, hold_identical, same_identity,
  prepare_live, reboot_live, write_target,
}
use diskforge.Linux.Execute.Order.{complete_trace, Succeeded, prepare_calls}
use diskforge.Go.FilePath.{clean, dir, base}
use diskforge.Digest.{digest_test}
use diskforge.Go.Hex.{decode_string}
use diskforge.Go.Strings.{to_lower}
use diskforge.Engine.Types.{WriteRequest, WriteResult, mode_live, is_refusal, zero_inspection}
use diskforge.Engine.Requests.{
  validate_target_path, validate_write_request, validate_inspect_request, linux_write_request,
  from_policy_inspection, validate_context, validate_mode, validate_image_path, validate_digest,
}
use diskforge.Engine.{
  write, write_dry, write_target_image, public_error, publish, publishing, guarding, new,
}
use diskforge.Engine.TargetPath.{IsDevicePath, validate_target_path_iff}
use diskforge.Engine.DryRun.{IsDryRun}
use diskforge.Engine.Validation.{IsWritable, validate_write_request_iff}
use diskforge.Engine.Runs.{IsReading, write-IsReading, write_dry_ok, write_ok}
use diskforge.Engine.Failures.{IsInternal, public_error_gate}
use diskforge.Engine.Construction.{
  OwnOption, own_client, own_progress, IsBounded, options_of, new-IsBounded,
}
use diskforge.Tests.Linux.{inspected, held, willing}

abbrev digest : Bytes
digest = codes "9f86d081884c7d659a2feaa0c55ad015a3bf4f1b2b0b822cd15d6c15b0f00a08"

abbrev request : Bool → WriteRequest
request dry_run = record {
  mode = mode_live;
  target_path = codes "/dev/sda";
  image_path = codes "/a";
  sha256 = digest;
  expected_bytes = pos 8;
  confirmation = codes "t";
  reboot = true;
  dry_run = dry_run;
}

abbrev observed : Inspection
observed = record (inspected mode_live) {
  image = record ((inspected mode_live).image) { sha256 = digest };
}

abbrev source : Verified
source = record held { sha256 = digest }

abbrev system : Boundary.Boundary
system = record willing { inspect = λ t r. ok observed; verify_image = λ t p d. ok (some source) }

run : WriteRequest → Result WriteResult × Trace
unfolding write write_dry write_target_image publish publishing guarding validate_context
    validate_write_request validate_inspect_request validate_mode validate_target_path
    validate_image_path validate_digest linux_write_request execute execute_held open_and_write
    pass_gates prepare hold_identical same_identity bytes_eq prepare_live reboot_live write_target
    clean dir base digest_test decode_string to_lower
run r = write system (some none) r []

dry_run : run (request true) ≡ (
  ok (record {
    written_bytes = pos 0;
    dry_run = true;
    inspection = from_policy_inspection observed;
  }),
  prepare_calls (linux_write_request (request true)) ++ Call.close_source source ∷ [],
)
unfolding run
dry_run = refl

live_run : run (request false) ≡ (
  ok (record { written_bytes = pos 8; dry_run = false; inspection = zero_inspection }),
  complete_trace (linux_write_request (request false)) observed source 4,
)
unfolding run
live_run = refl

validate_target_path_iff_example :
    (validate_target_path (codes "/dev/sda") ≡ ok tt) ↔ IsDevicePath (codes "/dev/sda")
validate_target_path_iff_example = validate_target_path_iff (codes "/dev/sda")

validate_write_request_iff_example :
    (validate_write_request (request false) ≡ ok tt) ↔ IsWritable (request false)
validate_write_request_iff_example = validate_write_request_iff (request false)

write-IsReading_example : IsReading (write system (some none) (request true) []).1
write-IsReading_example = write-IsReading system (some none) (request true) [] refl

write_dry_ok_example :
    IsWritable (request true)
    × IsDryRun system
        (request true)
        []
        (record {
          written_bytes = pos 0;
          dry_run = true;
          inspection = from_policy_inspection observed;
        })
        (prepare_calls (linux_write_request (request true)) ++ Call.close_source source ∷ [])
unfolding run
write_dry_ok_example = write_dry_ok system (some none) (request true) [] refl dry_run

write_ok_example :
    IsWritable (request false)
    × ((inspection : Inspection) × (verified : Verified) × (target : Target)
        × (done : Model.WriteResult) × (complete_trace
              (linux_write_request (request false))
              observed
              source
              4
            ≡ complete_trace (linux_write_request (request false)) inspection verified target)
        × Succeeded system (linux_write_request (request false)) [] inspection verified target done
        × ◌≡◌ {A = WriteResult}
            (record { written_bytes = pos 8; dry_run = false; inspection = zero_inspection })
            (record {
              written_bytes = done.written_bytes;
              dry_run = false;
              inspection = zero_inspection;
            }))
unfolding run
write_ok_example = write_ok system (some none) (request false) [] refl live_run

abbrev swap_error : Error
swap_error = wrapped (format "inspect: %w" []) (gate target_swap (format "busy" []))

public_error_gate_example :
    (is_refusal (public_error swap_error) (text_of target_mounted) ≡ true)
    ↔ (target_swap ≡ target_mounted)
unfolding as_gate IsInternal
public_error_gate_example =
    public_error_gate swap_error target_swap (format "busy" []) tt refl target_mounted

abbrev options : List (OwnOption Bool)
options = own_progress (some true) ∷ own_client (some (record { timeout = pos 5 })) ∷ []

new-IsBounded_example : IsBounded (new system (options_of options))
new-IsBounded_example = new-IsBounded system options
