-- ===== src/Linux/Machine/Overwritten.antt =====
-- A whole guarded write in live mode over the host.
use diskforge.Base.{ℕ, ◌≡◌, ◌<◌, true, List, [], ◌∷◌, ◌++◌, Bytes}
use diskforge.Errors.{Result, ok}
use diskforge.Policy.Model.{mode_live, Inspection}
use diskforge.Image.Model.{Verified, WriteResult}
use diskforge.Image.Streams.{Reader}
use diskforge.Linux.Boundary.{Request, Trace, Call}
use diskforge.Linux.Procfs.{MountRecord}
use diskforge.Linux.Execute.{execute}
use diskforge.Linux.Execute.Order.{execute_ok, complete_trace, prepare_calls, gate_calls}
use diskforge.Linux.Controls.{confirm_iff}
use diskforge.Linux.Controls.Remount.{AllSettled, remount_read_only_settles}
use diskforge.Linux.OpenedTarget.Identity.{IsOpened, open_target_iff, open_target_kept}
use diskforge.Linux.System.Live.{IsOverwritable, system_inspect-IsOverwritable}
use diskforge.Linux.Machine.{Machine, system_boundary}

module _ (sha256 : Bytes → Bytes) (decode : Reader → Result Reader) (machine : Machine)
    (request : Request) where
  -- The calls made when the mounts are asked to be read-only.
  abbrev pub at_remount : Trace → Inspection → Trace
  at_remount before inspection =
      ((((before ++ prepare_calls request)
            ++ Call.confirm request.confirmation inspection.confirmation_token ∷ [])
          ++ Call.mlockall ∷ [])
        ++ Call.swapoff ∷ [])
      ++ Call.enable_sysrq ∷ []

  -- What a success in live mode has shown of the host.
  pub record IsOverwritten (before : Trace) (made : Trace) : Type 0 where
    pub inspection : Inspection
    pub verified : Verified
    pub descriptor : ℕ
    pub traced : made ≡ complete_trace request inspection verified descriptor
    pub overwritable : IsOverwritable (machine.observer before) request inspection.target
    pub confirmed : request.confirmation ≡ inspection.confirmation_token
    pub approved : request.reboot ≡ true
    pub poll : ℕ
    pub within : poll < 600
    pub records : List MountRecord
    pub settled : AllSettled (machine.polls (at_remount before inspection) poll) records
    pub opened :
        IsOpened
          (machine.observer ((before ++ prepare_calls request) ++ gate_calls request inspection))
          (machine.descriptors ((before ++ prepare_calls request) ++ gate_calls request inspection))
          request.target_path
          request.mode
          inspection.target
          descriptor

  -- A guarded write in live mode that succeeds over the host has inspected it with the target as the
  -- disk of the root and the image on a tmpfs, was confirmed by the whole token of that inspection with
  -- the reboot approved, has seen every mount on a block device read-only, and has then opened, at the
  -- requested path, a block device that sysfs shows to be the unchanged target.
  pub execute-IsOverwritten :
      (before : Trace) (r : WriteResult) (made : Trace)
      → request.mode ≡ mode_live
      → execute (system_boundary sha256 decode machine) request before ≡ (ok r, made)
      → IsOverwritten before made
  unfolding system_boundary
  execute-IsOverwritten before r made live e =
      let (inspection, verified, descriptor, traced, s) =
        execute_ok (system_boundary sha256 decode machine) request before e in
      let prepared = s.prepared live in
      let place = (before ++ prepare_calls request) ++ gate_calls request inspection in
      let (poll, within, records, settled) =
        remount_read_only_settles (machine.controls (at_remount before inspection))
          (machine.observer (at_remount before inspection)).proc_root
          (machine.polls (at_remount before inspection)) prepared.remounted in
      record {
        inspection = inspection;
        verified = verified;
        descriptor = descriptor;
        traced = traced;
        overwritable =
            system_inspect-IsOverwritable (machine.observer before) sha256 machine.euid request
              inspection live s.inspected;
        confirmed = (confirm_iff request.confirmation inspection.confirmation_token).0 s.confirmed;
        approved = s.approved live;
        poll = poll;
        within = within;
        records = records;
        settled = settled;
        opened =
            (open_target_iff (machine.observer place) (machine.descriptors place)
                request.target_path request.mode inspection.target descriptor).0
              (open_target_kept (machine.observer place) (machine.descriptors place)
                request.target_path request.mode inspection.target descriptor s.opened);
      }
