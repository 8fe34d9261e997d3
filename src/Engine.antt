-- ===== src/Engine.antt =====
-- diskforge.go: the public engine over a Linux boundary.
pub mod Types
pub mod Requests
pub mod TargetPath
pub mod Validation
pub mod DryRun
pub mod Runs
pub mod Construction
pub mod Consent
pub mod Failures
pub mod Staging
use diskforge.Base.{
  ℕ, suc, Bool, true, false, ◌||◌, Option, none, some, List, [], ◌∷◌, Bytes, if◌then◌else◌,
}
use diskforge.Base.Int.{ℤ, pos, leb_ℤ}
use diskforge.Errors.{
  Error, Sentinel, image_invalid_digest, image_digest_mismatch, image_size_mismatch, public_gate,
  cause, shown, format, number, text_of, is, as_gate, Result, ok, err, wrapped,
}
use diskforge.Policy.Confirmation
use diskforge.Policy.Model
use diskforge.Image.Model.{Verified}
use diskforge.Linux.Boundary
use diskforge.Linux.Boundary.{Call, Trace, Program, pure, raise, call, wrapping, ◌>>=◌, ◌>>◌}
use diskforge.Linux.Execute.{prepare, execute}
use diskforge.Engine.Types.{
  TargetIdentity, ImageIdentity, Inspection, InspectRequest, WriteRequest, WriteResult,
  zero_inspection, gate_invalid_digest, gate_invalid_image_size,
}
use diskforge.Engine.Requests.{
  Context, invalid, validate_context, validate_inspect_request, validate_write_request,
  linux_request, linux_write_request, to_policy_target, to_policy_image, from_policy_inspection,
}

unfoldable pub public_error : Error → Error
public_error e = elim (as_gate e) [
  | some (code, message) ↦ public_gate (text_of code) message (cause e)
  | none ↦
      if is e image_invalid_digest || is e image_digest_mismatch
      then public_gate gate_invalid_digest (shown "%v" e) (cause e)
      else if is e image_size_mismatch
      then public_gate gate_invalid_image_size (shown "%v" e) (cause e)
      else e
]

module _ {A : Type 0} where
  unfoldable pub publish : Result A → Result A
  unfolding public_error
  publish (ok a) = ok a
  publish (err e) = err (public_error e)

  -- `if err != nil { return …, publicError(err) }`
  unfoldable pub publishing : Program A → Program A
  publishing p before = let (r, made) = p before in (publish r, made)

  -- A test that calls nothing.
  unfoldable pub guarding : Result A → Program A
  guarding r before = (r, [])

unfoldable pub confirmation_token : (Bytes → Bytes) → TargetIdentity → ImageIdentity → Result Bytes
confirmation_token sha256 target source =
    publish
      (Confirmation.confirmation_token sha256 (to_policy_target target) (to_policy_image source))

module _ (system : Boundary.Boundary) where
  unfoldable pub inspect : Context → InspectRequest → Program Inspection
  inspect context request = do
    guarding (validate_context context)
    guarding (validate_inspect_request request)
    inspection ← publishing (
        call (Call.inspect (linux_request request)) (λ t. system.inspect t (linux_request request)))
    pure (from_policy_inspection inspection)

  -- The end of a dry run, from the prepared source on.
  abbrev pub closed_result : Model.Inspection × Verified → Program WriteResult
  closed_result held =
      wrapping (format "close verified dry-run source: %w" [])
        (call (Call.close_source held.1) (λ t. system.close_source t held.1))
      >> pure (record {
        written_bytes = pos 0;
        dry_run = true;
        inspection = from_policy_inspection held.0;
      })

  -- The branch of `request.DryRun`.
  unfoldable pub write_dry : WriteRequest → Program WriteResult
  write_dry request = do
    held ← publishing (prepare system (linux_write_request request))
    closed_result held

  unfoldable pub write_target_image : WriteRequest → Program WriteResult
  write_target_image request = do
    result ← publishing (execute system (linux_write_request request))
    pure (record {
      written_bytes = result.written_bytes;
      dry_run = false;
      inspection = zero_inspection;
    })

  unfoldable pub write : Context → WriteRequest → Program WriteResult
  write context request = do
    guarding (validate_context context)
    guarding (validate_write_request request)
    if request.dry_run then write_dry request else write_target_image request

-- `http.Client`, of which only the timeout is read, in nanoseconds.
pub record HttpClient : Type 0 where
  pub timeout : ℤ

-- `6 * time.Hour`
abbrev pub default_http_timeout : ℤ
default_http_timeout = pos 21600000000000

-- `Engine`; `Callback` is the type `func(Progress)`.
pub record Engine (Callback : Type 0) : Type 0 where
  pub client : HttpClient
  pub system : Boundary.Boundary
  pub progress : Option Callback

-- `Option`: what it makes of the engine, or its error.
abbrev pub EngineOption : Type 0 → Type 0
EngineOption Callback = Engine Callback → Result (Engine Callback)

module _ {Callback : Type 0} where
  unfoldable pub with_http_client : Option HttpClient → EngineOption Callback
  with_http_client none engine = err (invalid (format "%w: HTTP client is nil" []))
  with_http_client (some client) engine =
      if leb_ℤ client.timeout (pos 0)
      then err (invalid (format "%w: HTTP client timeout must be positive" []))
      else ok (record engine { client = client })

  unfoldable pub with_progress : Option Callback → EngineOption Callback
  with_progress callback engine = ok (record engine { progress = callback })

  unfoldable pub with_boundary : Option Boundary.Boundary → EngineOption Callback
  with_boundary none engine = err (invalid (format "%w: Linux boundary is nil" []))
  with_boundary (some boundary) engine = ok (record engine { system = boundary })

  abbrev pub wrap_option : ℕ → Result (Engine Callback) → Result (Engine Callback)
  wrap_option index (ok engine) = ok engine
  wrap_option index (err e) =
      err (wrapped (format "apply option %d: %w" (number (pos index) ∷ [])) e)

  -- The loop of `New`; a nil option is `none`.
  unfoldable pub apply_options :
      ℕ → List (Option (EngineOption Callback)) → Engine Callback → Result (Engine Callback)
  apply_options index [] engine = ok engine
  apply_options index (none ∷ options) engine =
      err (invalid (format "%w: option %d is nil" (number (pos index) ∷ [])))
  apply_options index (some option ∷ options) engine = elim (option engine) [
    | ok next ↦ apply_options (suc index) options next
    | err e ↦ wrap_option index (err e)
  ]

  -- `default_system` is what `linuxsystem.DefaultSystem` gives.
  unfoldable pub new :
      Boundary.Boundary → List (Option (EngineOption Callback)) → Result (Engine Callback)
  new default_system options = apply_options 0 options (record {
    client = record { timeout = default_http_timeout };
    system = default_system;
    progress = none;
  })
