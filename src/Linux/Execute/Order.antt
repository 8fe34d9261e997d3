-- ===== src/Linux/Execute/Order.antt =====
-- The order of the calls of `Execute`: that of docs/safety-model.md, "Destructive order".
use diskforge.Base.{◌≡◌, true, some, [], ◌∷◌, ◌++◌, arith, bytes_eq, bytes_eq_iff, if◌then◌else◌}
use diskforge.Errors.{ok}
use diskforge.Policy.Model.{Mode, mode_live, Inspection}
use diskforge.Image.Model.{Verified, WriteResult}
use diskforge.Linux.Boundary
use diskforge.Linux.Boundary.{
  Request, Target, Call, Trace, Program, ◌>>=◌, pure, call, closing, wrapping,
}
use diskforge.Linux.Boundary.Laws.{bind-ok, call-ok, closing-ok}
use diskforge.Linux.Execute.Identity.{IsIdentical, same_identity_iff}
use diskforge.Linux.Execute.Live.{
  IsPrepared, prepare_live-IsPrepared, IsFlushed, write_target-IsFlushed,
}
use diskforge.Linux.Execute.{
  open_and_write, prepare, prepare_live, reboot_live, write_target, pass_gates, execute_held,
  execute, hold_identical,
}

abbrev pub live_calls : Mode → Trace
live_calls mode =
    if bytes_eq mode mode_live
    then Call.mlockall ∷ Call.swapoff ∷ Call.enable_sysrq ∷ Call.remount_read_only ∷ []
    else []

abbrev pub reboot_calls : Mode → Trace
reboot_calls mode = if bytes_eq mode mode_live then Call.sysrq_sync ∷ Call.sysrq_reboot ∷ [] else []

abbrev pub write_calls : Request → Verified → Target → Trace
write_calls request verified target =
    Call.write_verified verified target request.expected_bytes
    ∷ Call.fdatasync target
    ∷ Call.flush_block target
    ∷ reboot_calls request.mode

abbrev pub gate_calls : Request → Inspection → Trace
gate_calls request inspection =
    Call.confirm request.confirmation inspection.confirmation_token ∷ live_calls request.mode

abbrev pub prepare_calls : Request → Trace
prepare_calls request =
    Call.inspect request ∷ Call.verify_image request.image_path request.sha256 ∷ []

abbrev pub opening : Request → Inspection → Call
opening request inspection = Call.open_target request.target_path request.mode inspection.target

-- The trace of a write that succeeds.
abbrev pub complete_trace : Request → Inspection → Verified → Target → Trace
complete_trace request inspection verified target =
    prepare_calls request
    ++ (((gate_calls request inspection
          ++ (opening request inspection
              ∷ (write_calls request verified target ++ Call.close_target target ∷ [])))
        ++ Call.close_source verified ∷ []))

module _ (system : Boundary.Boundary) (request : Request) where
  pub reboot_live_ok :
      (before : Trace) {made : Trace}
      → reboot_live system request.mode before ≡ (ok tt, made)
      → made ≡ reboot_calls request.mode
  unfolding reboot_live
  reboot_live_ok before h = ground arith

  pub prepare_live_ok :
      (before : Trace) {made : Trace}
      → prepare_live system request.mode before ≡ (ok tt, made)
      → made ≡ live_calls request.mode
  unfolding prepare_live
  prepare_live_ok before h = ground arith

  made_calls :
      (verified : Verified) (target : Target) (before : Trace) {r : WriteResult} {made : Trace}
      → write_target system request verified target before ≡ (ok r, made)
      → made ≡ write_calls request verified target
  unfolding write_target reboot_live
  made_calls verified target before h = ground arith

  write_target_ok :
      (verified : Verified) (target : Target) (before : Trace) {r : WriteResult} {made : Trace}
      → write_target system request verified target before ≡ (ok r, made)
      → (made ≡ write_calls request verified target)
        × IsFlushed system request verified target r before
  write_target_ok verified target before h = (
    made_calls verified target before h,
    write_target-IsFlushed system request verified target before h,
  )

  preparing_run :
      (inspection : Inspection) (before : Trace) {made : Trace}
      → request.mode ≡ mode_live
      → pass_gates system request inspection before ≡ (ok tt, made)
      → (more : Trace) × (prepare_live system request.mode
            (before ++ Call.confirm request.confirmation inspection.confirmation_token ∷ [])
          ≡ (ok tt, more))
  unfolding pass_gates
  preparing_run inspection before live h =
      let is_live = (bytes_eq_iff request.mode mode_live).1 live in
      (
        (prepare_live system request.mode
            (before ++ Call.confirm request.confirmation inspection.confirmation_token ∷ [])).1,
        ground arith,
      )

  pub pass_gates_ok :
      (inspection : Inspection) (before : Trace) {made : Trace}
      → pass_gates system request inspection before ≡ (ok tt, made)
      → (made ≡ gate_calls request inspection)
        × (system.confirm before request.confirmation inspection.confirmation_token ≡ ok tt)
        × (request.mode ≡ mode_live → request.reboot ≡ true)
        × (request.mode ≡ mode_live
            → IsPrepared system request
                (before ++ Call.confirm request.confirmation inspection.confirmation_token ∷ []))
  unfolding pass_gates prepare_live
  pass_gates_ok inspection before h = (
    ground arith,
    ground arith,
    λ e. ground (arith, (bytes_eq_iff request.mode mode_live).1 e),
    λ e.
        let (more, run) = preparing_run inspection before e h in
        prepare_live-IsPrepared system request _ e run,
  )

  pub prepare_ok :
      (before : Trace) {inspection : Inspection} {verified : Verified} {made : Trace}
      → prepare system request before ≡ (ok (inspection, verified), made)
      → (made ≡ prepare_calls request)
        × (system.inspect before request ≡ ok inspection)
        × (system.verify_image
              (before ++ Call.inspect request ∷ [])
              request.image_path
              request.sha256
            ≡ ok (some verified))
        × IsIdentical request inspection verified
  unfolding prepare hold_identical
  prepare_ok before {inspection = inspection} {verified = verified} h = (
    ground arith,
    ground arith,
    ground arith,
    (same_identity_iff request inspection verified).0 (ground arith),
  )

  -- What a success shows of the run's answers.
  pub record Succeeded (before : Trace) (inspection : Inspection) (verified : Verified)
      (target : Target) (r : WriteResult) : Type 0 where
    pub inspected : system.inspect before request ≡ ok inspection
    pub verifying :
        system.verify_image (before ++ Call.inspect request ∷ []) request.image_path request.sha256
        ≡ ok (some verified)
    pub identical : IsIdentical request inspection verified
    pub confirmed :
        system.confirm
          (before ++ prepare_calls request)
          request.confirmation
          inspection.confirmation_token
        ≡ ok tt
    pub approved : request.mode ≡ mode_live → request.reboot ≡ true
    pub prepared :
        request.mode ≡ mode_live
        → IsPrepared system request (
            (before ++ prepare_calls request)
            ++ Call.confirm request.confirmation inspection.confirmation_token ∷ [])
    pub opened :
        system.open_target
          ((before ++ prepare_calls request) ++ gate_calls request inspection)
          request.target_path
          request.mode
          inspection.target
        ≡ ok target
    pub flushed : IsFlushed system request verified target r (
        ((before ++ prepare_calls request) ++ gate_calls request inspection)
        ++ opening request inspection ∷ [])

  open_and_write_ok :
      (inspection : Inspection) (verified : Verified) (before : Trace) {r : WriteResult}
      {made : Trace}
      → open_and_write system request inspection verified before ≡ (ok r, made)
      → (target : Target) × (made
          ≡ opening request inspection
            ∷ (write_calls request verified target ++ Call.close_target target ∷ []))
        × (system.open_target before request.target_path request.mode inspection.target ≡ ok target)
        × IsFlushed system request verified target r (before ++ opening request inspection ∷ [])
  unfolding open_and_write
  open_and_write_ok inspection verified before h =
      let (target, m, n, e, f, g) =
        bind-ok
          (call (opening request inspection)
            (λ t. system.open_target t request.target_path request.mode inspection.target))
          (λ target.
            closing (Call.close_target target) (write_target system request verified target))
          before h in
      let (opened, o) =
        call-ok (opening request inspection)
          (λ t. system.open_target t request.target_path request.mode inspection.target) before e in
      let (w, f', g') =
        closing-ok (Call.close_target target) (write_target system request verified target)
          (before ++ m) f in
      let (w1, w2) = write_target_ok verified target (before ++ m) f' in
      (target, cc, opened, rw o at w2)

  -- `Execute` reports success only after the documented sequence, whole and in its order: inspection,
  -- verification, confirmation, in live mode the four preparations, opening, writing, fdatasync, the
  -- flush, in live mode SysRq sync and reboot, and the two closes; each of these calls but the closes
  -- succeeded, the request, the inspection and the verified source agree in path, digest and sizes, live
  -- mode had the reboot's approval, and the result is the one that the write gave.
  pub execute_ok :
      (before : Trace) {r : WriteResult} {made : Trace}
      → execute system request before ≡ (ok r, made)
      → (inspection : Inspection) × (verified : Verified) × (target : Target) × (made
          ≡ complete_trace request inspection verified target)
        × Succeeded before inspection verified target r
  unfolding execute execute_held
  execute_ok before h =
      let ((inspection, verified), m1, n1, e1, f1, g1) =
        bind-ok (prepare system request)
          (λ held. closing (Call.close_source held.1) (execute_held system request held.0 held.1))
          before h in
      let (p1, p2, p3, p4) = prepare_ok before e1 in
      let (m2, f2, g2) =
        closing-ok (Call.close_source verified) (execute_held system request inspection verified)
          (before ++ m1) f1 in
      let (u, m3, n3, e3, f3, g3) =
        bind-ok (pass_gates system request inspection)
          (λ _. open_and_write system request inspection verified) (before ++ m1) f2 in
      let (q1, q2, q3, q4) = pass_gates_ok inspection (before ++ m1) e3 in
      let (target, w1, w2, w3) = open_and_write_ok inspection verified ((before ++ m1) ++ m3) f3 in
      (
        inspection,
        verified,
        target,
        cc,
        record {
          inspected = p2;
          verifying = p3;
          identical = p4;
          confirmed = cc;
          approved = q3;
          prepared = rw p1 at q4;
          opened = cc;
          flushed = rw (p1, q1) at w3;
        },
      )
