-- ===== src/Linux/Execute/Outcomes.antt =====
-- How runs of `Execute` and `Prepare` end: what is closed, and what the modes leave alone.
use diskforge.Base.{
  ◌≡◌, ◌≢◌, inl, inr, refl, sym, ap, ◌∙◌, false, some, [], ◌∷◌, ◌++◌, arith, bytes_eq, bytes_eq_iff,
  if◌then◌else◌, Bool-cases, All-append, append_assoc, append-nil,
}
use diskforge.Errors.{Error, ok, err, Result-cases}
use diskforge.Policy.Model.{mode_live, Inspection}
use diskforge.Image.Model.{Verified}
use diskforge.Linux.Boundary
use diskforge.Linux.Boundary.{
  Request, Target, Call, Trace, Program, ◌>>=◌, pure, call, closing, wrapping,
}
use diskforge.Linux.Boundary.Laws.{bind-cases}
use diskforge.Linux.Execute.{
  open_and_write, prepare, prepare_live, reboot_live, write_target, pass_gates, execute_held,
  execute, hold_identical, same_identity, live_reboot_error, identity_changed_error,
}
use diskforge.Linux.Execute.Order.{opening, prepare_calls}
use diskforge.Linux.Execute.Gated.{
  pass_gates-IsUntouched, prepare-IsUntouched, IsUntouched, IsUnchanged,
}

module _ (system : Boundary.Boundary) (request : Request) where
  -- A live write without the reboot's approval is refused once its token is accepted: no preparation
  -- and no call on the target is made, and the source is closed.
  pub execute_unapproved :
      (before : Trace) (inspection : Inspection) (verified : Verified)
      → request.mode ≡ mode_live
      → request.reboot ≡ false
      → prepare system request before ≡ (ok (inspection, verified), prepare_calls request)
      → system.confirm
          (before ++ prepare_calls request)
          request.confirmation
          inspection.confirmation_token
        ≡ ok tt
      → execute system request before ≡ (
        err live_reboot_error,
        prepare_calls request
            ++ Call.confirm request.confirmation inspection.confirmation_token
              ∷ Call.close_source verified
              ∷ [],
      )
  unfolding execute execute_held pass_gates
  execute_unapproved before inspection verified live unapproved prepared confirmed =
      ground (arith, (bytes_eq_iff request.mode mode_live).1 live)

  execute_held-IsUnchanged :
      (inspection : Inspection) (verified : Verified) (before : Trace)
      → bytes_eq request.mode mode_live ≡ false
      → IsUnchanged (execute_held system request inspection verified before).1
  unfolding execute_held pass_gates prepare_live open_and_write write_target reboot_live
  execute_held-IsUnchanged inspection verified before h = ground arith

  -- Outside live mode no run locks memory, turns swap off, touches SysRq or reboots.
  pub execute-IsUnchanged :
      (before : Trace) → request.mode ≢ mode_live → IsUnchanged (execute system request before).1
  unfolding execute
  execute-IsUnchanged before h =
      elim (bind-cases (prepare system request)
        (λ held. closing (Call.close_source held.1) (execute_held system request held.0 held.1))
        before) [
          | inl (e, m, f, g) ↦
              rw (ap (λ x. x.1) g ∙ sym (ap (λ x. x.1) f))
                (prepare-IsUntouched system request before).1
          | inr ((inspection, verified), m, f, g) ↦ rw (ap (λ x. x.1) g) (
              All-append _ m _
                (rw (← ap (λ x. x.1) f) (prepare-IsUntouched system request before).1)
                (All-append _ _ _
                  (execute_held-IsUnchanged inspection verified (before ++ m)
                    (ground (arith, (bytes_eq_iff request.mode mode_live).0)))
                  (refl, tt)))
        ]

  -- How the calls before a source's closing go, for a run behind `before`: the target is untouched, or
  -- its opening was the last call and failed, or its opening gave a target that the last call closes.
  pub data EndsClosed (before : Trace) (inspection : Inspection) (made : Trace) : Type 0 where
    untouched : IsUntouched made → EndsClosed before inspection made
    unopened :
        (inner : Trace) (e : Error)
        → IsUntouched inner
        → made ≡ inner ++ opening request inspection ∷ []
        → system.open_target (before ++ inner) request.target_path request.mode inspection.target
          ≡ err e
        → EndsClosed before inspection made
    closed :
        (inner rest : Trace) (target : Target)
        → IsUntouched inner
        → made ≡ inner ++ opening request inspection ∷ (rest ++ Call.close_target target ∷ [])
        → system.open_target (before ++ inner) request.target_path request.mode inspection.target
          ≡ ok target
        → EndsClosed before inspection made

  opened_run :
      (inspection : Inspection) (verified : Verified) (before : Trace) (target : Target)
      → system.open_target before request.target_path request.mode inspection.target ≡ ok target
      → (rest : Trace) × ((open_and_write system request inspection verified before).1
          ≡ opening request inspection ∷ (rest ++ Call.close_target target ∷ []))
  unfolding open_and_write
  opened_run inspection verified before target o = (
    (write_target system request verified target (before ++ opening request inspection ∷ [])).1,
    rw o,
  )

  unopened_run :
      (inspection : Inspection) (verified : Verified) (before : Trace) (e : Error)
      → system.open_target before request.target_path request.mode inspection.target ≡ err e
      → (open_and_write system request inspection verified before).1
        ≡ opening request inspection ∷ []
  unfolding open_and_write
  unopened_run inspection verified before e o = rw o

  open_and_write-EndsClosed :
      (inspection : Inspection) (verified : Verified) (before : Trace)
      → EndsClosed before inspection (open_and_write system request inspection verified before).1
  open_and_write-EndsClosed inspection verified before =
      let nothing : before ≡ before ++ [] = sym (append-nil before) in
      elim (Result-cases
        (system.open_target before request.target_path request.mode inspection.target)) [
          | inl (e, o) ↦
              unopened [] e tt (unopened_run inspection verified before e o) (rw nothing at o)
          | inr (target, o) ↦
              let (rest, run) = opened_run inspection verified before target o in
              closed [] rest target tt run (rw nothing at o)
        ]

  EndsClosed-append :
      (before : Trace) (inspection : Inspection) (m made : Trace)
      → IsUntouched m
      → EndsClosed (before ++ m) inspection made
      → EndsClosed before inspection (m ++ made)
  EndsClosed-append before inspection m made u (untouched v) = untouched (All-append _ m made u v)
  EndsClosed-append before inspection m made u (unopened inner e v q o) =
      unopened (m ++ inner) e (All-append _ m inner u v)
        (ap (λ t. m ++ t) q ∙ sym (append_assoc m inner _)) (rw (append_assoc before m inner) at o)
  EndsClosed-append before inspection m made u (closed inner rest target v q o) =
      closed (m ++ inner) rest target (All-append _ m inner u v)
        (ap (λ t. m ++ t) q ∙ sym (append_assoc m inner _)) (rw (append_assoc before m inner) at o)

  held_ends :
      (inspection : Inspection) (verified : Verified) (before : Trace)
      → EndsClosed before inspection (execute_held system request inspection verified before).1
  unfolding execute_held
  held_ends inspection verified before =
      elim (bind-cases (pass_gates system request inspection)
        (λ _. open_and_write system request inspection verified) before) [
          | inl (e, m, f, g) ↦ untouched (
              rw (ap (λ x. x.1) g ∙ sym (ap (λ x. x.1) f))
                (pass_gates-IsUntouched system request inspection before))
          | inr (u, m, f, g) ↦
              let gated : IsUntouched m =
                rw (ap (λ x. x.1) f) at (pass_gates-IsUntouched system request inspection before) in
              rw (ap (λ x. x.1) g) (
                EndsClosed-append before inspection m _ gated
                  (open_and_write-EndsClosed inspection verified (before ++ m)))
        ]

  prepare_held :
      (before : Trace) (inspection : Inspection) (verified : Verified)
      → system.inspect before request ≡ ok inspection
      → system.verify_image (before ++ Call.inspect request ∷ []) request.image_path request.sha256
        ≡ ok (some verified)
      → prepare system request before ≡ (
          if same_identity request inspection (some verified)
          then (ok (inspection, verified), prepare_calls request)
          else (
            err identity_changed_error,
            prepare_calls request ++ Call.close_source verified ∷ [],
          ))
  unfolding prepare hold_identical
  prepare_held before inspection verified i v = ground arith

  execute_after :
      (before : Trace) (held : Inspection × Verified) (m : Trace)
      → prepare system request before ≡ (ok held, m)
      → (execute system request before).1
        ≡ m
          ++ ((execute_held system request held.0 held.1 (before ++ m)).1
              ++ Call.close_source held.1 ∷ [])
  unfolding execute
  execute_after before held m e = rw e

  execute_stopped :
      (before : Trace) (e : Error) (m : Trace)
      → prepare system request before ≡ (err e, m)
      → (execute system request before).1 ≡ m
  unfolding execute
  execute_stopped before e m h = rw h

  -- A source that was verified is closed by the last call of the run, and before that the target is
  -- untouched, or its opening was the last call and failed, or its opening gave the target that the
  -- last call closes.
  pub execute_closes :
      (before : Trace) (inspection : Inspection) (verified : Verified)
      → system.inspect before request ≡ ok inspection
      → system.verify_image (before ++ Call.inspect request ∷ []) request.image_path request.sha256
        ≡ ok (some verified)
      → (rest : Trace) × ((execute system request before).1
          ≡ rest ++ Call.close_source verified ∷ [])
        × EndsClosed before inspection rest
  execute_closes before inspection verified i v =
      let p = prepare_held before inspection verified i v in
      elim (Bool-cases (same_identity request inspection (some verified))) [
        | inl same ↦
            let made =
              (execute_held system request inspection verified
                (before ++ prepare_calls request)).1 in
            let run = rw same at p in
            (
              prepare_calls request ++ made,
              execute_after before (inspection, verified) (prepare_calls request) run
                  ∙ sym (append_assoc (prepare_calls request) made _),
              EndsClosed-append before inspection (prepare_calls request) made (refl, (refl, tt))
                  (held_ends inspection verified (before ++ prepare_calls request)),
            )
        | inr differ ↦ (
          prepare_calls request,
          execute_stopped before identity_changed_error _ (rw differ at p),
          untouched (refl, (refl, tt)),
        )
      ]
