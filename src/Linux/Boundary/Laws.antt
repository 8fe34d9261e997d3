-- ===== src/Linux/Boundary/Laws.antt =====
-- Taking a run of a program apart at a bind, a call and a close.
use diskforge.Base.{◌≡◌, refl, ◌⊎◌, inl, inr, [], ◌∷◌, ◌++◌, arith}
use diskforge.Errors.{Error, Result, ok, err}
use diskforge.Linux.Boundary.{Call, Trace, Program, ◌>>=◌, and_then, call, closing}

module _ {A B : Type 0} where
  and_then-ok :
      (x : Result A × Trace) (f : A → Program B) (before : Trace) {b : B} {made : Trace}
      → and_then x f before ≡ (ok b, made)
      → (a : A) × (m : Trace) × (n : Trace) × (x ≡ (ok a, m))
        × (f a (before ++ m) ≡ (ok b, n))
        × (made ≡ m ++ n)
  and_then-ok (ok a, m) f before h = (a, m, (f a (before ++ m)).1, refl, ground arith, ground arith)
  and_then-ok (err e, m) f before h = absurd (ground arith)

  -- A run that succeeds is a run of each part that succeeds.
  pub bind-ok :
      (p : Program A) (f : A → Program B) (before : Trace) {b : B} {made : Trace}
      → (p >>= f) before ≡ (ok b, made)
      → (a : A) × (m : Trace) × (n : Trace) × (p before ≡ (ok a, m))
        × (f a (before ++ m) ≡ (ok b, n))
        × (made ≡ m ++ n)
  bind-ok p f before h = and_then-ok (p before) f before h

  and_then-cases :
      (x : Result A × Trace) (f : A → Program B) (before : Trace)
      → ((e : Error) × (m : Trace) × (x ≡ (err e, m)) × (and_then x f before ≡ (err e, m)))
        ⊎ ((a : A) × (m : Trace) × (x ≡ (ok a, m))
            × (and_then x f before ≡ ((f a (before ++ m)).0, m ++ (f a (before ++ m)).1)))
  and_then-cases (ok a, m) f before = inr (a, m, refl, refl)
  and_then-cases (err e, m) f before = inl (e, m, refl, refl)

  -- A run stops at the first part that fails, or goes on with what that part gives.
  pub bind-cases :
      (p : Program A) (f : A → Program B) (before : Trace)
      → ((e : Error) × (m : Trace) × (p before ≡ (err e, m)) × ((p >>= f) before ≡ (err e, m)))
        ⊎ ((a : A) × (m : Trace) × (p before ≡ (ok a, m))
            × ((p >>= f) before ≡ ((f a (before ++ m)).0, m ++ (f a (before ++ m)).1)))
  bind-cases p f before = and_then-cases (p before) f before

module _ {A : Type 0} where
  pub closing-ok :
      (c : Call) (p : Program A) (before : Trace) {a : A} {made : Trace}
      → closing c p before ≡ (ok a, made)
      → (m : Trace) × (p before ≡ (ok a, m)) × (made ≡ m ++ c ∷ [])
  closing-ok c p before h = ((p before).1, ground arith, ground arith)

  pub call-ok :
      (c : Call) (answer : Trace → Result A) (before : Trace) {a : A} {m : Trace}
      → call c answer before ≡ (ok a, m)
      → (answer before ≡ ok a) × (m ≡ c ∷ [])
  call-ok c answer before h = (ground arith, ground arith)

module _ {A B : Type 0} where
  and_then-starts :
      (r : Result A) (c : Call) (f : A → Program B) (before : Trace)
      → (rest : Trace) × ((and_then (r, c ∷ []) f before).1 ≡ c ∷ rest)
  and_then-starts (ok a) c f before = ((f a (before ++ c ∷ [])).1, refl)
  and_then-starts (err e) c f before = ([], refl)

  -- Whatever a call answers, it is the first in the trace.
  pub call-starts :
      (c : Call) (answer : Trace → Result A) (f : A → Program B) (before : Trace)
      → (rest : Trace) × (((call c answer >>= f) before).1 ≡ c ∷ rest)
  call-starts c answer f before = and_then-starts (answer before) c f before
