-- ===== src/Linux/Machine/Rescued.antt =====
-- A whole guarded write in rescue mode over the host.
use diskforge.Base.{ℕ, ◌≡◌, some, [], ◌∷◌, ◌++◌, Bytes}
use diskforge.Errors.{Result, ok}
use diskforge.Policy.Model.{mode_rescue, Inspection}
use diskforge.Image.Model.{Verified, WriteResult}
use diskforge.Image.Streams.{Reader}
use diskforge.Image.Write.{write}
use diskforge.Linux.Boundary.{Request, Trace}
use diskforge.Linux.Execute.{execute}
use diskforge.Linux.Execute.Order.{execute_ok, complete_trace, prepare_calls, gate_calls, opening}
use diskforge.Linux.Controls.{confirm_iff}
use diskforge.Linux.OpenedTarget.Identity.{IsOpened, open_target_iff, open_target_kept}
use diskforge.Linux.System.Rescue.{IsRescuable, system_inspect-IsRescuable}
use diskforge.Linux.Machine.{Machine, system_boundary}

module _ (sha256 : Bytes → Bytes) (decode : Reader → Result Reader) (machine : Machine)
    (request : Request) where
  -- When the target is opened: behind the inspection, the verification and the gates.
  abbrev pub at_opening : Trace → Inspection → Trace
  at_opening before inspection = (before ++ prepare_calls request) ++ gate_calls request inspection

  -- What a success in rescue mode has shown of the host.
  pub record IsRescued (before : Trace) (r : WriteResult) (made : Trace) : Type 0 where
    pub inspection : Inspection
    pub verified : Verified
    pub descriptor : ℕ
    pub traced : made ≡ complete_trace request inspection verified descriptor
    pub asked : inspection.target.canonical_path ≡ request.target_path
    pub rescuable : IsRescuable (machine.observer before) request inspection.target
    pub confirmed : request.confirmation ≡ inspection.confirmation_token
    pub opened :
        IsOpened
          (machine.observer (at_opening before inspection))
          (machine.descriptors (at_opening before inspection))
          request.target_path
          request.mode
          inspection.target
          descriptor
    pub written :
        (write sha256 decode
          (machine.context (at_opening before inspection ++ opening request inspection ∷ []))
          (some verified)
          (machine.held_file
            (at_opening before inspection ++ opening request inspection ∷ [])
            verified)
          (some (
            machine.writer
              (at_opening before inspection ++ opening request inspection ∷ [])
              descriptor))
          request.expected_bytes
          machine.reporting).result
        ≡ ok r

  -- A guarded write in rescue mode that succeeds over the host has inspected it with no mount, swap
  -- area or image on the target or a related device, was confirmed by the whole token of that
  -- inspection, has then opened, at the requested path, a block device that sysfs shows to be the
  -- unchanged target, and has passed the result of the image's writing to its descriptor on.
  pub execute-IsRescued :
      (before : Trace) (r : WriteResult) (made : Trace)
      → request.mode ≡ mode_rescue
      → execute (system_boundary sha256 decode machine) request before ≡ (ok r, made)
      → IsRescued before r made
  unfolding system_boundary
  execute-IsRescued before r made rescue e =
      let (inspection, verified, descriptor, traced, s) =
        execute_ok (system_boundary sha256 decode machine) request before e in
      let observer = machine.observer (at_opening before inspection) in
      let calls = machine.descriptors (at_opening before inspection) in
      record {
        inspection = inspection;
        verified = verified;
        descriptor = descriptor;
        traced = traced;
        asked = s.identical.target_path;
        rescuable =
            system_inspect-IsRescuable (machine.observer before) sha256 machine.euid request
              inspection rescue s.inspected;
        confirmed = (confirm_iff request.confirmation inspection.confirmation_token).0 s.confirmed;
        opened =
            (open_target_iff observer calls request.target_path request.mode inspection.target
                descriptor).0
              (open_target_kept observer calls request.target_path request.mode inspection.target
                descriptor s.opened);
        written = s.flushed.written;
      }
