-- ===== src/Linux/Sysfs/Relations/Collect.antt =====
-- A walk collects exactly the related names.
use diskforge.Base.{
  ℕ, zero, suc, ◌≡◌, ◌↔◌, refl, sym, ap, ◌∙◌, inl, inr, Bool, true, false, Option, none, some, List,
  [], ◌∷◌, Bytes, Bool-cases, length,
}
use mathlib.Core.Logic.{⊎_elim}
use diskforge.Errors.{ok}
use diskforge.Go.FilePath.{join_path}
use diskforge.Go.Slices.{contains}
use diskforge.Go.Slices.Laws.{IsIn, IsIn-cons, IsIn-head, not_in_nil, Grows, contains-sort}
use diskforge.Go.Sort.{sort}
use diskforge.Linux.Files.{Observer}
use diskforge.Linux.Sysfs.{
  Walk, walked, failed, out_of_fuel, Visit, visit_all, partition_children, sorted_entries,
  partition_parent, block_path, visit_parent, walk_partitions, walk_name, walk_related, enough_fuel,
  slaves_directory, related, sorted_walk,
}
use diskforge.Linux.Sysfs.Rules.{Post, Post-after, Post-given, Post-map, Post-visit_all}
use diskforge.Linux.Sysfs.Relations.{
  RestsOn, on_parent, on_slave, IsRelated, itself, partition_of, below, Closes, Closes-refl,
  Closes-trans, WantsAll, rests, children, collected,
}

module _ (observer : Observer) where
  module _ (P : Bytes → Type 0) (keep : (u v : Bytes) → P u → RestsOn observer u v → P v) where
    -- What a walk from `name` leaves behind `seen`.
    abbrev pub Collected : Bytes → List Bytes → List Bytes → Type 0
    Collected name seen t = Closes observer seen t × IsIn name t × ((x : Bytes) → IsIn x t → P x)

    abbrev AllHold : List Bytes → Type 0
    AllHold s = (x : Bytes) → IsIn x s → P x

    -- The state between two visits, from the names `base` on.
    abbrev Between : List Bytes → List Bytes → Type 0
    Between base s = Closes observer base s × AllHold s

    visits :
        (visit : Visit) (base ns s : List Bytes)
        → ((x : Bytes) (u : List Bytes) → P x → AllHold u → Post Unit (Collected x u) (visit x u))
        → ((x : Bytes) → IsIn x ns → P x)
        → Between base s
        → Post Unit
            (λ t. Between base t × Grows s t × ((x : Bytes) → IsIn x ns → IsIn x t))
            (visit_all visit ns s)
    visits visit base ns s k p b =
        Post-visit_all Unit (Between base) visit ns s
          (λ x u i (c, a).
            Post-map Unit _ _ (visit x u)
              (λ t (d, m, h). ((Closes-trans observer base u t c d, h), d.grows, m))
              (k x u (p x i) a))
          b

    -- Behind a walk of a name: all that it rests observer on is in, and its partitions if these are wanted.
    abbrev Finished : Bytes → Bool → List Bytes → List Bytes → Type 0
    Finished name parts base t =
        Between base t
        × ((v : Bytes) → RestsOn observer name v → IsIn v t)
        × WantsAll observer parts name (λ c. IsIn c t)

    abbrev WithParent : List Bytes → Option Bytes → List Bytes → Type 0
    WithParent base parent s = Between base s × ((v : Bytes) → parent ≡ some v → IsIn v s)

    abbrev WithAll : Bytes → List Bytes → List Bytes → Type 0
    WithAll name base s = Between base s × ((v : Bytes) → RestsOn observer name v → IsIn v s)

    name_finishes :
        (visit : Visit) (name : Bytes) (parts : Bool) (base : List Bytes)
        → ((x : Bytes) (u : List Bytes) → P x → AllHold u → Post Unit (Collected x u) (visit x u))
        → P name
        → WantsAll observer parts name P
        → AllHold base
        → Post Unit (Finished name parts base) (walk_name observer visit name parts base)
    unfolding walk_name walk_partitions
    name_finishes visit name parts base k p q b =
        Post-given Unit goal (block_path observer name) _ λ path pe.
          Post-given Unit goal (partition_parent observer name) _ λ parent qe.
            Post-after Unit (WithParent base parent) goal (visit_parent observer visit parent base)
              _ (to_parent parent qe)
              λ s h.
                Post-given Unit goal
                  (sorted_entries observer.files (join_path (path ∷ slaves_directory ∷ []))) _
                  λ slaves se.
                    Post-after Unit (WithAll name base) goal (visit_all visit slaves s) _
                      (to_slaves path pe parent qe slaves se s h) (to_partitions path pe parts q)
      where
        goal : List Bytes → Type 0
        goal = Finished name parts base

        to_parent :
            (parent : Option Bytes)
            → partition_parent observer name ≡ ok parent
            → Post Unit (WithParent base parent) (visit_parent observer visit parent base)
        to_parent none e = ((Closes-refl observer base, b), λ v f. absurd (cc))
        to_parent (some w) e =
            Post-map Unit (Collected w base) (WithParent base (some w)) (visit w base)
              (λ t (c, m, a). ((c, a), λ v f. let same : w ≡ v = cc in rw (sym same) m))
              (k w base (keep name w p (on_parent e)) b)

        to_slaves :
            (path : Bytes)
            → block_path observer name ≡ ok path
            → (parent : Option Bytes) → partition_parent observer name ≡ ok parent
            → (slaves : List Bytes)
            → sorted_entries observer.files (join_path (path ∷ slaves_directory ∷ [])) ≡ ok slaves
            → (s : List Bytes) → WithParent base parent s
            → Post Unit (WithAll name base) (visit_all visit slaves s)
        to_slaves path pe parent qe slaves se s (i, h) =
            Post-map Unit _ (WithAll name base) (visit_all visit slaves s)
              (λ t (j, g, m).
                (j, rests observer name path pe parent qe slaves se t (λ v f. g v (h v f)) m))
              (visits visit base slaves s k (λ x m. keep name x p (on_slave path slaves pe se m)) i)

        to_partitions :
            (path : Bytes)
            → block_path observer name ≡ ok path
            → (b : Bool) → WantsAll observer b name P
            → (s : List Bytes) → WithAll name base s
            → Post Unit (Finished name b base) (walk_partitions observer visit path b s)
        to_partitions path pe false q s (i, h) = (i, h, λ e. absurd (cc))
        to_partitions path pe true q s (i, h) =
            Post-given Unit (Finished name true base) (partition_children observer.files path) _
              λ ns ne.
                Post-map Unit _ (Finished name true base) (visit_all visit ns s)
                  (λ t (j, g, m). (
                    j,
                    λ v r. g v (h v r),
                    λ e path' ns' pe' ne' c i.
                        children observer name path pe ns ne t m path' ns' pe' ne' c i,
                  ))
                  (visits visit base ns s k (λ x m. q refl path ns pe ne x m) i)

    walk_collects :
        (fuel : ℕ) (name : Bytes) (parts : Bool) (seen : List Bytes)
        → P name
        → WantsAll observer parts name P
        → AllHold seen
        → Post Unit (Collected name seen) (walk_related observer fuel name parts seen)
    unfolding walk_related
    walk_collects zero name parts seen p q a = tt
    walk_collects (suc fuel) name parts seen p q a = elim (Bool-cases (contains name seen)) [
      | inl e ↦ simp e (Closes-refl observer seen, refl, a)
      | inr e ↦ simp e (
          Post-map Unit (Finished name parts (name ∷ seen)) (Collected name seen)
            (walk_name observer (λ x u. walk_related observer fuel x false u) name parts
              (name ∷ seen))
            (λ t ((c, h), r, w).
              (collected observer name seen t c r, c.grows name (IsIn-head name seen), h))
            (name_finishes (λ x u. walk_related observer fuel x false u) name parts (name ∷ seen)
              (λ x u k b. walk_collects fuel x false u k (λ f. absurd (cc)) b) p q
              (λ x i. ⊎_elim (λ f. rw f p) (a x) ((IsIn-cons x name seen).0 i))))
    ]

    -- The first name is not seen before, so that its partitions are walked to.
    walk_start :
        (fuel : ℕ) (name : Bytes)
        → P name
        → WantsAll observer true name P
        → Post Unit (Finished name true (name ∷ [])) (walk_related observer (suc fuel) name true [])
    unfolding walk_related contains
    walk_start fuel name p q =
        name_finishes (λ x u. walk_related observer fuel x false u) name true (name ∷ [])
          (λ x u k b. walk_collects fuel x false u k (λ f. absurd (cc)) b) p q
          (λ x i. ⊎_elim (λ f. rw f p) (not_in_nil x) ((IsIn-cons x name []).0 i))

  sorted_walk_ok :
      (P : List Bytes → Type 0) (w : Walk) {r : List Bytes}
      → Post Unit P w
      → sorted_walk observer w ≡ ok r
      → (s : List Bytes) × P s × (r ≡ sort s)
  sorted_walk_ok P (walked s) h e = (s, h, cc)
  sorted_walk_ok P (failed f) h e = absurd (cc)
  sorted_walk_ok P out_of_fuel h e = absurd (cc)

  -- `related` gives exactly the start, its partitions, and all devices on which these rest, at any
  -- depth.
  pub related_iff :
      (start : Bytes) (r : List Bytes)
      → related observer start ≡ ok r
      → (x : Bytes) → IsIn x r ↔ IsRelated observer start x
  unfolding related
  related_iff start r e x =
      let (s, ((c, a), all, parts), same) =
        sorted_walk_ok (Finished (IsRelated observer start) (λ u v. below) start true (start ∷ []))
          (walk_related observer (enough_fuel observer) start true [])
          (walk_start (IsRelated observer start) (λ u v. below) (suc (length observer.files.names))
            start itself (λ f path ns pe ne y i. partition_of path ns pe ne i))
          e in
      let to_sorted : (y : Bytes) → contains y r ≡ contains y s =
        λ y. ap (contains y) same ∙ contains-sort y s in
      (λ i. a x (sym (to_sorted x) ∙ i), λ d. to_sorted x ∙ complete start s c all (parts refl) d)
    where
      complete :
          (start : Bytes) (s : List Bytes)
          → Closes observer (start ∷ []) s
          → ((v : Bytes) → RestsOn observer start v → IsIn v s)
          → ((path : Bytes) (ns : List Bytes)
              → block_path observer start ≡ ok path
              → partition_children observer.files path ≡ ok ns
              → Grows ns s)
          → {y : Bytes} → IsRelated observer start y
          → IsIn y s
      complete start s c all parts itself = c.grows start (IsIn-head start [])
      complete start s c all parts (partition_of path ns pe ne i) = parts path ns pe ne _ i
      complete start s c all parts (below {other = o} d r) =
          ⊎_elim (λ i. ⊎_elim (λ f. all _ (rw f at r)) (not_in_nil o) ((IsIn-cons o start []).0 i))
            (λ k. k _ r) (c.closed o (complete start s c all parts d))
