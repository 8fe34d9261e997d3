-- ===== src/Linux/Execute/Gated.antt =====
-- What a run of `Execute` has not done when it stops early, whatever the boundary answers.
use diskforge.Base.{
  ◌≡◌, ◌⊎◌, inl, inr, refl, sym, ap, ◌∙◌, Bool, true, false, some, [], ◌∷◌, ◌++◌, arith, All,
  All-append, append_assoc,
}
use diskforge.Errors.{ok}
use diskforge.Policy.Model.{mode_live, Inspection}
use diskforge.Image.Model.{Verified}
use diskforge.Linux.Boundary
use diskforge.Linux.Boundary.{
  Request, Target, Call, Trace, Program, ◌>>=◌, pure, call, closing, wrapping,
}
use diskforge.Linux.Boundary.Laws.{bind-cases, call-starts}
use diskforge.Linux.Execute.{
  open_and_write, prepare, prepare_live, write_target, pass_gates, execute_held, execute,
  hold_identical,
}
use diskforge.Linux.Execute.Identity.{IsIdentical}
use diskforge.Linux.Execute.Live.{IsPrepared}
use diskforge.Linux.Execute.Order.{prepare_calls, gate_calls, opening, prepare_ok, pass_gates_ok}

-- A call on the target's descriptor, or the one that opens it.
abbrev pub touches_target : Call → Bool
touches_target (Call.open_target path mode identity) = true
touches_target (Call.write_verified verified target expected) = true
touches_target (Call.fdatasync target) = true
touches_target (Call.flush_block target) = true
touches_target (Call.close_target target) = true
touches_target _ = false

-- A call that changes the host: live preparation and reboot.
abbrev pub changes_host : Call → Bool
changes_host Call.mlockall = true
changes_host Call.swapoff = true
changes_host Call.enable_sysrq = true
changes_host Call.remount_read_only = true
changes_host Call.sysrq_sync = true
changes_host Call.sysrq_reboot = true
changes_host _ = false

abbrev pub IsUntouched : Trace → Type 0
IsUntouched = All (λ c. touches_target c ≡ false)

abbrev pub IsUnchanged : Trace → Type 0
IsUnchanged = All (λ c. changes_host c ≡ false)

module _ (system : Boundary.Boundary) (request : Request) where
  pub prepare-IsUntouched :
      (before : Trace)
      → IsUntouched (prepare system request before).1
        × IsUnchanged (prepare system request before).1
  unfolding prepare hold_identical
  prepare-IsUntouched before = ground arith

  pub pass_gates-IsUntouched :
      (inspection : Inspection) (before : Trace)
      → IsUntouched (pass_gates system request inspection before).1
  unfolding pass_gates prepare_live
  pass_gates-IsUntouched inspection before = ground arith

  open_and_write_starts :
      (inspection : Inspection) (verified : Verified) (before : Trace)
      → (rest : Trace) × ((open_and_write system request inspection verified before).1
          ≡ opening request inspection ∷ rest)
  unfolding open_and_write
  open_and_write_starts inspection verified before =
      call-starts (opening request inspection)
        (λ t. system.open_target t request.target_path request.mode inspection.target)
        (λ target. closing (Call.close_target target) (write_target system request verified target))
        before

  -- The gates that a run has passed before it opens the target.
  pub record Passed (before : Trace) (inspection : Inspection) (verified : Verified) : Type 0 where
    pub inspected : system.inspect before request ≡ ok inspection
    pub verifying :
        system.verify_image (before ++ Call.inspect request ∷ []) request.image_path request.sha256
        ≡ ok (some verified)
    pub identical : IsIdentical request inspection verified
    pub confirmed :
        system.confirm
          (before ++ prepare_calls request)
          request.confirmation
          inspection.confirmation_token
        ≡ ok tt
    pub approved : request.mode ≡ mode_live → request.reboot ≡ true
    pub prepared :
        request.mode ≡ mode_live
        → IsPrepared system request (
            (before ++ prepare_calls request)
            ++ Call.confirm request.confirmation inspection.confirmation_token ∷ [])

  abbrev pub Opens : Trace → Trace → Type 0
  Opens before made =
      (inspection : Inspection) × (verified : Verified) × (rest : Trace) × (made
        ≡ prepare_calls request
          ++ (gate_calls request inspection ++ opening request inspection ∷ rest))
      × Passed before inspection verified

  held_gated :
      (inspection : Inspection) (verified : Verified) (before : Trace)
      → IsUntouched (execute_held system request inspection verified before).1
        ⊎ ((rest : Trace) × ((execute_held system request inspection verified before).1
              ≡ gate_calls request inspection ++ opening request inspection ∷ rest)
            × (pass_gates system request inspection before
                ≡ (ok tt, gate_calls request inspection)))
  unfolding execute_held
  held_gated inspection verified before =
      elim (bind-cases (pass_gates system request inspection)
        (λ _. open_and_write system request inspection verified) before) [
          | inl (e, m, f, g) ↦ inl (
              rw (ap (λ x. x.1) g ∙ sym (ap (λ x. x.1) f))
                (pass_gates-IsUntouched inspection before))
          | inr (u, m, f, g) ↦
              let (q, _, _, _) = pass_gates_ok system request inspection before f in
              let (rest, o) = open_and_write_starts inspection verified (before ++ m) in
              inr (rest, cc (ap (λ x. x.1) g), cc)
        ]

  -- A run of `Execute`, whatever its outcome, makes no call on the target's descriptor, or its calls
  -- begin with inspection, verification, confirmation and, in live mode, the four preparations, and
  -- then the opening; by then the inspection, the verification, the confirmation and the preparations
  -- had succeeded, the request, the inspection and the verified source agreed in path, digest and
  -- sizes, and live mode had the reboot's approval.
  pub execute_gated :
      (before : Trace)
      → IsUntouched (execute system request before).1
        ⊎ Opens before (execute system request before).1
  unfolding execute
  execute_gated before =
      elim (bind-cases (prepare system request)
        (λ held. closing (Call.close_source held.1) (execute_held system request held.0 held.1))
        before) [
          | inl (e, m, f, g) ↦
              inl (rw (ap (λ x. x.1) g ∙ sym (ap (λ x. x.1) f)) (prepare-IsUntouched before).0)
          | inr ((inspection, verified), m, f, g) ↦
              let (p, i, v, s) = prepare_ok system request before f in
              elim (held_gated inspection verified (before ++ m)) [
                | inl untouched ↦ inl (
                    rw (ap (λ x. x.1) g) (
                      All-append _ m _ (rw (← ap (λ x. x.1) f) (prepare-IsUntouched before).0) (
                        All-append _
                          (execute_held system request inspection verified (before ++ m)).1 _
                          untouched (refl, tt))))
                | inr (rest, r, q) ↦
                    let (_, c, a, l) = pass_gates_ok system request inspection (before ++ m) q in
                    inr (
                      inspection,
                      verified,
                      rest ++ Call.close_source verified ∷ [],
                      ap (λ x. x.1) g
                          ∙ rw (r, p)
                              (ap (λ t. prepare_calls request ++ t)
                                (append_assoc (gate_calls request inspection) _ _)),
                      record {
                        inspected = i;
                        verifying = v;
                        identical = s;
                        confirmed = cc;
                        approved = a;
                        prepared = rw p at l;
                      },
                    )
              ]
        ]
