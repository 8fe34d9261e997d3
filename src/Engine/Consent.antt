-- ===== src/Engine/Consent.antt =====
-- The token that a client derives from what `Inspect` gave it.
use diskforge.Base.{◌≡◌, refl, sym, ap, ◌∙◌, Bytes}
use diskforge.Errors.{Result, ok}
use diskforge.Policy.Model.{Mode, TargetIdentity, ImageIdentity, HostObservation, Inspection}
use diskforge.Policy.Confirmation
use diskforge.Policy.Confirmation.{format_token}
use diskforge.Policy.Confirmation.Token.{confirmation_token_iff}
use diskforge.Policy.Inspect
use diskforge.Policy.Inspect.Gates.{inspect_iff}
use diskforge.Engine
use diskforge.Engine.Requests.{
  from_policy_target, from_policy_image, to_policy_target, to_policy_image,
}

module _ (sha256 : Bytes → Bytes) where
  published : TargetIdentity → ImageIdentity → Result Bytes
  published t i = Engine.confirmation_token sha256 (from_policy_target t) (from_policy_image i)

  published_eq :
      (t : TargetIdentity) (i : ImageIdentity)
      → published t i ≡ Engine.publish (Confirmation.confirmation_token sha256 t i)
  unfolding published Engine.confirmation_token from_policy_target from_policy_image
      to_policy_target to_policy_image
  published_eq t i = refl

-- The public `ConfirmationToken` of an accepted inspection's published target and image is the
-- inspection's own token.
pub confirmation_token-inspect :
    (sha256 : Bytes → Bytes) (mode : Mode) (t : TargetIdentity) (i : ImageIdentity)
    (h : HostObservation) (r : Inspection)
    → Inspect.inspect sha256 mode t i h ≡ ok r
    → Engine.confirmation_token sha256 (from_policy_target r.target) (from_policy_image r.image)
      ≡ ok r.confirmation_token
unfolding published Engine.publish
confirmation_token-inspect sha256 mode t i h r e =
    let (safe, eq) = (inspect_iff sha256 mode t i h r).0 e in
    let token =
      (confirmation_token_iff sha256 t i (format_token sha256 t i)).1
        (safe.target, safe.expands, safe.digest, refl) in
    published_eq sha256 r.target r.image
    ∙ ap (λ q. Engine.publish (Confirmation.confirmation_token sha256 q.target q.image)) eq
    ∙ ap Engine.publish token
    ∙ ap (λ q. ok q.confirmation_token) (sym eq)
