-- ===== src/Engine/Failures.antt =====
-- What `publicError` keeps of an error, and how a client tells refusals apart.
use diskforge.Base.{
  ◌≡◌, refl, ap, ◌↔◌, ◌⊎◌, inl, inr, true, false, some, Bytes, arith, bytes_eq_iff, Option-cases,
}
use diskforge.Errors.{
  Error, sentinel, wrapped, public_gate, cause, GateCode, Message, Sentinel, gate, is, as_gate,
  text_of,
}
use diskforge.Go.Strings.{is_empty}
use diskforge.Engine.Types.{is_refusal}
use diskforge.Engine.{public_error}

-- Different gates have different codes.
pub text_of_inj : (c d : GateCode) → text_of c ≡ text_of d → c ≡ d
unfolding text_of
text_of_inj c d h = ground arith

code_not_empty : (c : GateCode) → is_empty (text_of c) ≡ false
unfolding text_of
code_not_empty c = ground arith

-- An error of the packages below: it holds no public gate error.
unfoldable pub IsInternal : Error → Type 0
IsInternal (sentinel s) = Unit
IsInternal (wrapped m e) = IsInternal e
IsInternal (gate c m) = Unit
IsInternal (public_gate c m e) = ⊥

internal-no_refusal : (e : Error) (code : Bytes) → IsInternal e → is_refusal e code ≡ false
unfolding IsInternal is_refusal
internal-no_refusal (sentinel s) code h = refl
internal-no_refusal (wrapped m e) code h = internal-no_refusal e code h
internal-no_refusal (gate c m) code h = refl
internal-no_refusal (public_gate c m e) code h = absurd h

-- The published error is the error itself or a public gate error caused by it.
form :
    (e : Error)
    → (public_error e ≡ e)
      ⊎ ((b : Bytes) × (m : Message) × (public_error e ≡ public_gate b m (cause e)))
unfolding public_error
form e = elim (Option-cases (as_gate e)) [
  | inl h ↦ ground arith
  | inr ((c, m), h) ↦ inr (text_of c, m, ground arith)
]

-- `publicError` changes neither what `errors.Is` finds at any sentinel nor the policy gate that
-- `errors.As` finds.
pub public_error_keeps :
    (e : Error) (s : Sentinel)
    → (is (public_error e) s ≡ is e s) × (as_gate (public_error e) ≡ as_gate e)
unfolding is as_gate
public_error_keeps e s = elim (form e) [
  | inl h ↦ (ap (λ x. is x s) h, ap as_gate h)
  | inr (b, m, h) ↦ (ap (λ x. is x s) h, ap as_gate h)
]

published :
    (e : Error) (c : GateCode) (m : Message)
    → as_gate e ≡ some (c, m)
    → public_error e ≡ public_gate (text_of c) m (cause e)
unfolding public_error
published e c m h = ground (arith, h)

-- A published policy gate matches a refusal exactly by its own code.
pub public_error_gate :
    (e : Error) (c : GateCode) (m : Message)
    → IsInternal e
    → as_gate e ≡ some (c, m)
    → (d : GateCode) → (is_refusal (public_error e) (text_of d) ≡ true) ↔ (c ≡ d)
unfolding is_refusal
public_error_gate e c m i h d = rw (published e c m h) (
    ground (
      arith,
      code_not_empty d,
      internal-no_refusal e (text_of d) i,
      bytes_eq_iff (text_of c) (text_of d),
      text_of_inj c d,
    ))
