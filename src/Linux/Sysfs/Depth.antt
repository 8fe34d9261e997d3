-- ===== src/Linux/Sysfs/Depth.antt =====
-- The recursion of `walkRelated` ends in a tree of finitely many names.
use diskforge.Base.{
  ℕ, zero, suc, ◌<◌, ◌≡◌, ◌≢◌, refl, sym, ap, ◌∙◌, inl, inr, Bool, true, false, Option, none, some,
  List, [], ◌∷◌, Bytes, arith, Bool-cases,
}
use diskforge.Errors.{ok, Result-cases, is, os_not_exist}
use diskforge.Go.FilePath.{join_path}
use diskforge.Go.Slices.{contains}
use diskforge.Go.Slices.Laws.{
  IsIn, IsIn-cons, IsIn-head, IsIn-tail, not_in_nil, Grows, unseen, unseen-le-length, unseen_mono,
  unseen-lt, contains-sort,
}
use diskforge.Go.Sort.{sort}
use diskforge.Linux.Files.{Files, Observer}
use diskforge.Linux.Sysfs.{
  Walk, out_of_fuel, Visit, visit_all, with_marker, partition_children, sorted_entries,
  top_level_names, parent_among, partition_parent, block_path, block_root, visit_parent,
  walk_partitions, walk_name, walk_related, enough_fuel, slaves_directory,
}
use diskforge.Linux.Sysfs.Rules.{Post, Post-after, Post-given, Post-map, Post-visit_all}

-- Every entry of a directory is among the tree's names.
abbrev pub IsFinite : Files → Type 0
IsFinite files =
    (path : Bytes) (ns : List Bytes) → files.read_dir path ≡ ok ns → Grows ns files.names

with_marker-Grows :
    (files : Files) (path : Bytes) (ns : List Bytes) → Grows (with_marker files path ns) ns
unfolding with_marker
with_marker-Grows files path [] x i = i
with_marker-Grows files path (n ∷ ns) x i = ground (
  arith,
  with_marker-Grows files path ns x,
  IsIn-cons x n ns,
  IsIn-cons x n (with_marker files path ns),
)

parent_among-IsIn :
    (observer : Observer) (name : Bytes) (parents : List Bytes) (p : Bytes)
    → parent_among observer name parents ≡ some p
    → IsIn p parents
unfolding parent_among
parent_among-IsIn observer name [] p h = absurd (ground arith)
parent_among-IsIn observer name (q ∷ parents) p h =
    ground (arith, parent_among-IsIn observer name parents p, IsIn-cons p q parents)

module _ (observer : Observer) (finite : IsFinite observer.files) where
  slaves_named :
      (path : Bytes) (ns : List Bytes)
      → sorted_entries observer.files path ≡ ok ns
      → Grows ns observer.files.names
  unfolding sorted_entries
  slaves_named path ns h x i = elim (Result-cases (observer.files.read_dir path)) [
    | inr (d, e) ↦
        let same : sort d ≡ ns = ground arith in
        finite path d e x (sym (contains-sort x d) ∙ ap (contains x) same ∙ i)
    | inl (f, e) ↦ elim (Bool-cases (is f os_not_exist)) [
      | inl g ↦ let same : [] ≡ ns = ground arith in not_in_nil x (ap (contains x) same ∙ i)
      | inr g ↦ absurd (ground arith)
    ]
  ]

  parent_named :
      (name parent : Bytes)
      → partition_parent observer name ≡ ok (some parent)
      → IsIn parent observer.files.names
  unfolding partition_parent top_level_names
  parent_named name parent h = elim (Result-cases (observer.files.read_dir (block_root observer))) [
    | inr (d, e) ↦
        let found : parent_among observer name (sort d) ≡ some parent = ground arith in
        finite (block_root observer) d e parent
          (sym (contains-sort parent d) ∙ parent_among-IsIn observer name (sort d) parent found)
    | inl (f, e) ↦ absurd (ground arith)
  ]

  partitions_named :
      (path : Bytes) (ns : List Bytes)
      → partition_children observer.files path ≡ ok ns
      → Grows ns observer.files.names
  unfolding partition_children
  partitions_named path ns h x i = elim (Result-cases (observer.files.read_dir path)) [
    | inr (d, e) ↦
        let same : with_marker observer.files path d ≡ ns = ground arith in
        finite path d e x (with_marker-Grows observer.files path d x (ap (contains x) same ∙ i))
    | inl (f, e) ↦ absurd (ground arith)
  ]

  -- A walk that has ended has seen its name, and all that was seen before it.
  abbrev EndsWith : Bytes → List Bytes → Walk → Type 0
  EndsWith name seen = Post ⊥ (λ t. Grows seen t × IsIn name t)

  abbrev Shallower : ℕ → Type 0
  Shallower fuel =
      (name : Bytes) (parts : Bool) (seen : List Bytes)
      → suc (unseen observer.files.names (name ∷ seen)) < fuel
      → EndsWith name seen (walk_related observer fuel name parts seen)

  visit_ends :
      (fuel : ℕ) (base : List Bytes)
      → suc (unseen observer.files.names base) < suc fuel
      → Shallower fuel
      → (x : Bytes) (u : List Bytes) → IsIn x observer.files.names
      → Grows base u
      → Post ⊥ (λ t. Grows base t × Grows u t × IsIn x t) (walk_related observer fuel x false u)
  unfolding walk_related
  visit_ends zero base h ih x u i g = absurd (omega arith)
  visit_ends (suc fuel) base h ih x u i g = elim (Bool-cases (contains x u)) [
    | inl e ↦ simp e (g, λ y k. k, refl)
    | inr e ↦
        let less =
          unseen-lt observer.files.names u (x ∷ u) x (λ y. IsIn-tail y x u) i e (IsIn-head x u) in
        let most = unseen_mono observer.files.names base u g in
        Post-map ⊥ _ _ (walk_related observer (suc fuel) x false u)
          (λ t (a, b). (λ y k. a y (g y k), a, b)) (ih x false u (omega arith))
  ]

  -- The walks that the walk of one name makes, over names of the tree.
  name_ends :
      (visit : Visit) (name : Bytes) (parts : Bool) (base : List Bytes)
      → ((x : Bytes) (u : List Bytes)
          → IsIn x observer.files.names
          → Grows base u
          → Post ⊥ (λ t. Grows base t × Grows u t × IsIn x t) (visit x u))
      → Post ⊥ (Grows base) (walk_name observer visit name parts base)
  unfolding walk_name walk_partitions
  name_ends visit name parts base k =
      Post-given ⊥ (Grows base) (block_path observer name) _ λ path pe.
        Post-given ⊥ (Grows base) (partition_parent observer name) _ λ parent qe.
          Post-after ⊥ (Grows base) (Grows base) (visit_parent observer visit parent base) _
            (to_parent parent qe)
            λ s g.
              Post-given ⊥ (Grows base)
                (sorted_entries observer.files (join_path (path ∷ slaves_directory ∷ []))) _
                λ slaves se.
                  Post-after ⊥ (Grows base) (Grows base) (visit_all visit slaves s) _
                    (all slaves (slaves_named _ slaves se) s g) (to_partitions path parts)
    where
      all :
          (ns : List Bytes)
          → Grows ns observer.files.names
          → (s : List Bytes) → Grows base s
          → Post ⊥ (Grows base) (visit_all visit ns s)
      all ns n s g =
          Post-map ⊥ _ _ (visit_all visit ns s) (λ t r. r.0)
            (Post-visit_all ⊥ (Grows base) visit ns s (λ x u i. k x u (n x i)) g)

      to_parent :
          (parent : Option Bytes)
          → partition_parent observer name ≡ ok parent
          → Post ⊥ (Grows base) (visit_parent observer visit parent base)
      to_parent none e = λ x h. h
      to_parent (some p) e =
          Post-map ⊥ _ _ (visit p base) (λ t r. r.0) (k p base (parent_named name p e) (λ x h. h))

      to_partitions :
          (path : Bytes) (b : Bool) (s : List Bytes)
          → Grows base s
          → Post ⊥ (Grows base) (walk_partitions observer visit path b s)
      to_partitions path false s g = g
      to_partitions path true s g =
          Post-given ⊥ (Grows base) (partition_children observer.files path) _
            λ ns e. all ns (partitions_named path ns e) s g

  walk_ends : (fuel : ℕ) → Shallower fuel
  unfolding walk_related
  walk_ends zero name parts seen h = absurd (omega arith)
  walk_ends (suc fuel) name parts seen h = elim (Bool-cases (contains name seen)) [
    | inl e ↦ simp e (λ x k. k, refl)
    | inr e ↦ simp e (
        Post-map ⊥ _ _
          (walk_name observer (λ x u. walk_related observer fuel x false u) name parts
            (name ∷ seen))
          (λ t g. (λ x k. g x (IsIn-tail x name seen k), g name (IsIn-head name seen)))
          (name_ends (λ x u. walk_related observer fuel x false u) name parts (name ∷ seen)
            (visit_ends fuel (name ∷ seen) h (walk_ends fuel))))
  ]

  -- In a tree of finitely many names the walk from any name ends within the fuel that `related`
  -- gives it.
  pub walk_related_ends :
      (start : Bytes) → walk_related observer (enough_fuel observer) start true [] ≢ out_of_fuel
  walk_related_ends start e = rw e at (
      walk_ends (enough_fuel observer) start true []
        (omega (arith, unseen-le-length observer.files.names (start ∷ []))))
