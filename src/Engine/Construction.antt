-- ===== src/Engine/Construction.antt =====
-- What `New` makes of the package's own options.
use diskforge.Base.{◌≡◌, refl, ℕ, suc, true, Option, none, some, List, [], ◌∷◌, arith}
use diskforge.Base.Int.{pos, ◌<ℤ◌}
use diskforge.Errors.{Result, ok, err, is, invalid_request}
use diskforge.Linux.Boundary
use diskforge.Engine
use diskforge.Engine.{
  HttpClient, EngineOption, with_http_client, with_progress, with_boundary, apply_options, new,
  default_http_timeout,
}

-- The package's own options, and nil.
pub data OwnOption (Callback : Type 0) : Type 0 where
  own_client : Option HttpClient → OwnOption Callback
  own_progress : Option Callback → OwnOption Callback
  own_boundary : Option Boundary.Boundary → OwnOption Callback
  own_nil : OwnOption Callback

module _ {Callback : Type 0} where
  abbrev pub option_of : OwnOption Callback → Option (EngineOption Callback)
  option_of (own_client c) = some (with_http_client c)
  option_of (own_progress c) = some (with_progress c)
  option_of (own_boundary b) = some (with_boundary b)
  option_of own_nil = none

  abbrev pub options_of : List (OwnOption Callback) → List (Option (EngineOption Callback))
  options_of [] = []
  options_of (o ∷ os) = option_of o ∷ options_of os

  -- An engine whose requests end, or an error that a client recognises.
  abbrev pub IsBounded : Result (Engine.Engine Callback) → Type 0
  IsBounded (ok engine) = pos 0 <ℤ engine.client.timeout
  IsBounded (err e) = is e invalid_request ≡ true

  loop-IsBounded :
      (index : ℕ) (options : List (OwnOption Callback)) (engine : Engine.Engine Callback)
      → pos 0 <ℤ engine.client.timeout
      → IsBounded (apply_options index (options_of options) engine)
  unfolding apply_options with_http_client with_progress with_boundary is
  loop-IsBounded index [] engine b = b
  loop-IsBounded index (own_client none ∷ options) engine b = refl
  loop-IsBounded index (own_client (some c) ∷ options) engine b =
      ground (arith, loop-IsBounded (suc index) options (record engine { client = c }))
  loop-IsBounded index (own_progress c ∷ options) engine b =
      loop-IsBounded (suc index) options (record engine { progress = c }) b
  loop-IsBounded index (own_boundary none ∷ options) engine b = refl
  loop-IsBounded index (own_boundary (some s) ∷ options) engine b =
      loop-IsBounded (suc index) options (record engine { system = s }) b
  loop-IsBounded index (own_nil ∷ options) engine b = refl

  -- `New` over the package's own options, nil ones included, gives an engine whose HTTP client has a
  -- positive timeout, or an error that is `ErrInvalidRequest`.
  pub new-IsBounded :
      (system : Boundary.Boundary) (options : List (OwnOption Callback))
      → IsBounded (new system (options_of options))
  unfolding new
  new-IsBounded system options =
      loop-IsBounded 0 options
        (record {
          client = record { timeout = default_http_timeout };
          system = system;
          progress = none;
        })
        (ground arith)
