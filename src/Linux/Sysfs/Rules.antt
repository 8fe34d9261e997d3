-- ===== src/Linux/Sysfs/Rules.antt =====
-- Rules for what walks leave.
use diskforge.Base.{◌≡◌, refl, List, [], ◌∷◌, Bytes}
use mathlib.Core.Logic.{⊎_elim}
use diskforge.Errors.{Result, ok, err}
use diskforge.Go.Slices.Laws.{IsIn, IsIn-cons, IsIn-head, IsIn-tail, not_in_nil, Grows}
use diskforge.Linux.Sysfs.{Walk, walked, failed, out_of_fuel, after, given, Visit, visit_all}

-- What holds of the names that a walk leaves, and what of one that runs out of fuel.
abbrev pub Post : Type 0 → (List Bytes → Type 0) → Walk → Type 0
Post F P (walked t) = P t
Post F P (failed e) = Unit
Post F P out_of_fuel = F

module _ (F : Type 0) where
  pub Post-after :
      (P Q : List Bytes → Type 0) (w : Walk) (next : List Bytes → Walk)
      → Post F P w
      → ((t : List Bytes) → P t → Post F Q (next t))
      → Post F Q (after w next)
  Post-after P Q (walked t) next h k = k t h
  Post-after P Q (failed e) next h k = tt
  Post-after P Q out_of_fuel next h k = h

  pub Post-map :
      (P Q : List Bytes → Type 0) (w : Walk)
      → ((t : List Bytes) → P t → Q t)
      → Post F P w
      → Post F Q w
  Post-map P Q (walked t) k h = k t h
  Post-map P Q (failed e) k h = tt
  Post-map P Q out_of_fuel k h = h

  pub Post-given :
      {A : Type 0} (Q : List Bytes → Type 0) (r : Result A) (next : A → Walk)
      → ((a : A) → r ≡ ok a → Post F Q (next a))
      → Post F Q (given r next)
  Post-given Q (ok a) next k = k a refl
  Post-given Q (err e) next k = tt

  -- An invariant of the names seen that each visit keeps holds behind all of them, and each of the
  -- visited names is seen then.
  pub Post-visit_all :
      (I : List Bytes → Type 0) (visit : Visit) (ns s : List Bytes)
      → ((x : Bytes) (u : List Bytes)
          → IsIn x ns
          → I u
          → Post F (λ t. I t × Grows u t × IsIn x t) (visit x u))
      → I s
      → Post F (λ t. I t × Grows s t × ((x : Bytes) → IsIn x ns → IsIn x t)) (visit_all visit ns s)
  unfolding visit_all
  Post-visit_all I visit [] s k i = (i, λ x h. h, λ x h. not_in_nil x h)
  Post-visit_all I visit (n ∷ ns) s k i =
      Post-after (λ t. I t × Grows s t × IsIn n t)
        (λ t. I t × Grows s t × ((x : Bytes) → IsIn x (n ∷ ns) → IsIn x t)) (visit n s)
        (visit_all visit ns) (k n s (IsIn-head n ns) i)
        (λ t (j, g, m).
          Post-map _ _ (visit_all visit ns t)
            (λ u (a, b, c). (
              a,
              λ x h. b x (g x h),
              λ x h. ⊎_elim (λ e. b x (rw e m)) (c x) ((IsIn-cons x n ns).0 h),
            ))
            (Post-visit_all I visit ns t (λ x u h. k x u (IsIn-tail x n ns h)) j))
