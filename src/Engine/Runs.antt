-- ===== src/Engine/Runs.antt =====
-- Runs of the public `Write`.
use diskforge.Base.{
  ◌≡◌, refl, sym, ap, ◌∙◌, ◌⊎◌, inl, inr, Bool, true, false, [], ◌∷◌, ◌++◌, arith, append-nil,
  if◌then◌else◌, All,
}
use diskforge.Base.Int.{pos}
use diskforge.Errors.{Error, Result, ok, err}
use diskforge.Policy.Model.{Inspection}
use diskforge.Image.Model
use diskforge.Image.Model.{Verified}
use diskforge.Linux.Boundary
use diskforge.Linux.Boundary.{Call, Trace, Target, Program, pure, ◌>>=◌, ◌>>◌}
use diskforge.Linux.Boundary.Laws.{bind-ok}
use diskforge.Linux.Execute.{prepare, hold_identical, execute}
use diskforge.Linux.Execute.Order.{complete_trace, Succeeded, execute_ok, prepare_ok}
use diskforge.Engine.Types.{WriteRequest, WriteResult, zero_inspection}
use diskforge.Engine.Requests.{
  Context, validate_context, validate_write_request, linux_write_request, from_policy_inspection,
}
use diskforge.Engine.DryRun.{IsDryRun, passed_on}
use diskforge.Engine.Validation.{IsWritable, validate_write_request_iff}
use diskforge.Engine.{
  write, write_dry, write_target_image, closed_result, publish, publishing, guarding,
}

abbrev only_reads : Call → Bool
only_reads (Call.inspect r) = true
only_reads (Call.verify_image p d) = true
only_reads (Call.close_source v) = true
only_reads _ = false

-- Calls that inspect, verify and close, and nothing else.
abbrev pub IsReading : Trace → Type 0
IsReading = All (λ c. only_reads c ≡ true)

guarding-cases :
    {A : Type 0} (r : Result (Unit {0})) (f : Unit {0} → Program A) (before : Trace)
    → ((e : Error) × (r ≡ err e) × ((guarding r >>= f) before ≡ (err e, [])))
      ⊎ ((r ≡ ok tt) × ((guarding r >>= f) before ≡ f tt before))
unfolding guarding
guarding-cases (err e) f before = inl (e, refl, refl)
guarding-cases (ok tt) f before = inr (refl, ap (f tt) (append-nil before))

publishing-ok :
    {A : Type 0} (p : Program A) (before : Trace) {a : A} {made : Trace}
    → publishing p before ≡ (ok a, made)
    → p before ≡ (ok a, made)
unfolding publishing publish
publishing-ok p before h = ground arith

module _ (system : Boundary.Boundary) (context : Context) (request : WriteRequest) where
  body : Program WriteResult
  body = if request.dry_run then write_dry system request else write_target_image system request

  body_dry : request.dry_run ≡ true → body ≡ write_dry system request
  unfolding body
  body_dry d = ap (λ b. if b then write_dry system request else write_target_image system request) d

  body_wet : request.dry_run ≡ false → body ≡ write_target_image system request
  unfolding body
  body_wet d = ap (λ b. if b then write_dry system request else write_target_image system request) d

  -- Either test refuses before any call, or both pass and the rest runs.
  write-cases :
      (before : Trace)
      → ((e : Error) × (write system context request before ≡ (err e, [])))
        ⊎ (IsWritable request × (write system context request before ≡ body before))
  unfolding write body
  write-cases before =
      elim (guarding-cases (validate_context context)
        (λ _. guarding (validate_write_request request) >> body) before) [
          | inl (e, _, h) ↦ inl (e, h)
          | inr (_, h) ↦ elim (guarding-cases (validate_write_request request) (λ _. body) before) [
            | inl (e, _, g) ↦ inl (e, h ∙ g)
            | inr (v, g) ↦ inr ((validate_write_request_iff request).0 v, h ∙ g)
          ]
        ]

  -- A request that is not writable is refused before any call.
  pub write_invalid :
      (before : Trace)
      → (IsWritable request → ⊥)
      → (e : Error) × (write system context request before ≡ (err e, []))
  write_invalid before h = elim (write-cases before) [
    | inl refused ↦ refused
    | inr (w, _) ↦ absurd (h w)
  ]

  dry-IsReading : (before : Trace) → IsReading (write_dry system request before).1
  unfolding write_dry publishing prepare hold_identical
  dry-IsReading before = ground arith

  -- A dry run makes no call but of inspection, verification and the source's closing, whatever these
  -- answer.
  pub write-IsReading :
      (before : Trace) → request.dry_run ≡ true → IsReading (write system context request before).1
  write-IsReading before d = elim (write-cases before) [
    | inl (e, h) ↦ rw h tt
    | inr (w, h) ↦ rw (h, body_dry d) (dry-IsReading before)
  ]

  closed_ok :
      (inspection : Inspection) (verified : Verified) (before : Trace) {r : WriteResult}
      {made : Trace}
      → closed_result system (inspection, verified) before ≡ (ok r, made)
      → (made ≡ Call.close_source verified ∷ [])
        × (r ≡ record {
          written_bytes = pos 0;
          dry_run = true;
          inspection = from_policy_inspection inspection;
        })
  closed_ok inspection verified before h = ground arith

  dry_ok :
      (before : Trace) {r : WriteResult} {made : Trace}
      → write_dry system request before ≡ (ok r, made)
      → IsDryRun system request before r made
  unfolding write_dry linux_write_request from_policy_inspection
  dry_ok before h =
      let ((inspection, verified), m, n, e, f, g) =
        bind-ok (publishing (prepare system (passed_on request))) (closed_result system) before h in
      let (m1, i, v, s) =
        prepare_ok system (passed_on request) before
          (publishing-ok (prepare system (passed_on request)) before e) in
      let (k, w) = closed_ok inspection verified (before ++ m) f in
      record {
        inspection = inspection;
        verified = verified;
        traced = g ∙ ap (λ x. m ++ x) k ∙ ap (λ x. x ++ Call.close_source verified ∷ []) m1;
        inspected = i;
        verifying = v;
        identical = s;
        unwritten = ap (λ x. x.written_bytes) w;
        dry = ap (λ x. x.dry_run) w;
        shown = ap (λ x. x.inspection) w;
      }

  wet_ok :
      (before : Trace) {r : WriteResult} {made : Trace}
      → write_target_image system request before ≡ (ok r, made)
      → (inspection : Inspection) × (verified : Verified) × (target : Target)
        × (done : Model.WriteResult) × (made
            ≡ complete_trace (linux_write_request request) inspection verified target)
        × Succeeded system (linux_write_request request) before inspection verified target done
        × (r ≡ record {
          written_bytes = done.written_bytes;
          dry_run = false;
          inspection = zero_inspection;
        })
  unfolding write_target_image
  wet_ok before h =
      let (done, m, n, e, f, g) =
        bind-ok (publishing (execute system (linux_write_request request)))
          (λ result. pure (record {
            written_bytes = result.written_bytes;
            dry_run = false;
            inspection = zero_inspection;
          }))
          before h in
      let (inspection, verified, target, t, s) =
        execute_ok system (linux_write_request request) before
          (publishing-ok (execute system (linux_write_request request)) before e) in
      let k : n ≡ [] = sym (ap (λ x. x.1) f) in
      (inspection, verified, target, done, g ∙ ap (λ x. m ++ x) k ∙ append-nil m ∙ t, s, cc)

  -- A dry run that succeeds had a writable request and made three calls: an inspection of the request
  -- passed on unchanged and a verification of its image, which both succeeded and agree with it in mode,
  -- target, image path, digest and sizes, and the source's closing; it reports no written byte and the
  -- inspection field by field.
  pub write_dry_ok :
      (before : Trace) {r : WriteResult} {made : Trace}
      → request.dry_run ≡ true
      → write system context request before ≡ (ok r, made)
      → IsWritable request × IsDryRun system request before r made
  write_dry_ok before d h = elim (write-cases before) [
    | inl (e, g) ↦ absurd (cc)
    | inr (w, g) ↦ (w, dry_ok before (sym (ap (λ p. p before) (body_dry d)) ∙ sym g ∙ h))
  ]

  -- A write that is no dry run and succeeds had a writable request, made the documented sequence of
  -- calls with the agreements of `Succeeded`, and reports the bytes that the write gave.
  pub write_ok :
      (before : Trace) {r : WriteResult} {made : Trace}
      → request.dry_run ≡ false
      → write system context request before ≡ (ok r, made)
      → IsWritable request
        × ((inspection : Inspection) × (verified : Verified) × (target : Target)
            × (done : Model.WriteResult) × (made
                ≡ complete_trace (linux_write_request request) inspection verified target)
            × Succeeded system (linux_write_request request) before inspection verified target done
            × (r ≡ record {
              written_bytes = done.written_bytes;
              dry_run = false;
              inspection = zero_inspection;
            }))
  write_ok before d h = elim (write-cases before) [
    | inl (e, g) ↦ absurd (cc)
    | inr (w, g) ↦ (w, wet_ok before (sym (ap (λ p. p before) (body_wet d)) ∙ sym g ∙ h))
  ]
