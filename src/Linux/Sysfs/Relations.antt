-- ===== src/Linux/Sysfs/Relations.antt =====
-- The names that a walk collects are the devices on which the first one rests.
pub mod Collect
use diskforge.Base.{
  ℕ, zero, suc, ◌≡◌, ◌↔◌, refl, sym, ap, ◌∙◌, ◌⊎◌, inl, inr, Bool, true, false, Option, none, some,
  List, [], ◌∷◌, Bytes, arith, Bool-cases, length,
}
use mathlib.Core.Logic.{⊎_elim}
use diskforge.Errors.{Error, Result, ok, err, Result-cases}
use diskforge.Go.FilePath.{join_path}
use diskforge.Go.Slices.{contains}
use diskforge.Go.Slices.Laws.{
  IsIn, IsIn-cons, IsIn-head, IsIn-tail, not_in_nil, Grows, Grows-trans, contains-sort,
}
use diskforge.Go.Sort.{sort}
use diskforge.Linux.Files.{Files, Observer}
use diskforge.Linux.Sysfs.{
  Walk, walked, failed, out_of_fuel, after, given, Visit, visit_all, partition_children,
  sorted_entries, partition_parent, block_path, visit_parent, walk_partitions, walk_name,
  walk_related, enough_fuel, slaves_directory, related, sorted_walk,
}
use diskforge.Linux.Sysfs.Rules.{Post, Post-after, Post-given, Post-map, Post-visit_all}

module _ (observer : Observer) where
  -- A device rests on the disk that it is a partition of, and on its slaves.
  pub data RestsOn (name : Bytes) (other : Bytes) : Type 0 where
    on_parent : partition_parent observer name ≡ ok (some other) → RestsOn name other
    on_slave :
        (path : Bytes) (slaves : List Bytes)
        → block_path observer name ≡ ok path
        → sorted_entries observer.files (join_path (path ∷ slaves_directory ∷ [])) ≡ ok slaves
        → IsIn other slaves
        → RestsOn name other

  -- The start, its partitions, and what these rest on, at any depth.
  pub data IsRelated (start : Bytes) : Bytes → Type 0 where
    itself : IsRelated start start
    partition_of :
        {name : Bytes} (path : Bytes) (partitions : List Bytes)
        → block_path observer start ≡ ok path
        → partition_children observer.files path ≡ ok partitions
        → IsIn name partitions
        → IsRelated start name
    below : {other name : Bytes} → IsRelated start other → RestsOn other name → IsRelated start name

  -- From the names `s` to the names `t`: all that is new in `t` has what it rests on in `t`.
  pub record Closes (s t : List Bytes) : Type 0 where
    pub grows : Grows s t
    pub closed : (u : Bytes) → IsIn u t → IsIn u s ⊎ ((v : Bytes) → RestsOn u v → IsIn v t)

  pub Closes-refl : (s : List Bytes) → Closes s s
  Closes-refl s = record { grows = λ x h. h; closed = λ u h. inl h }

  pub Closes-trans : (s t u : List Bytes) → Closes s t → Closes t u → Closes s u
  Closes-trans s t u a b = record {
    grows = Grows-trans s t u a.grows b.grows;
    closed = λ x h.
        ⊎_elim (λ i. ⊎_elim (λ j. inl j) (λ k. inr (λ v r. b.grows v (k v r))) (a.closed x i))
          (λ k. inr k) (b.closed x h);
  }

  pub collected :
      (name : Bytes) (seen t : List Bytes)
      → Closes (name ∷ seen) t
      → ((v : Bytes) → RestsOn name v → IsIn v t)
      → Closes seen t
  collected name seen t c r = record {
    grows = λ x i. c.grows x (IsIn-tail x name seen i);
    closed = λ u i.
        ⊎_elim
          (λ j.
            ⊎_elim (λ e. inr (λ v d. r v (rw e at d))) (λ k. inl k) ((IsIn-cons u name seen).0 j))
          (λ k. inr k) (c.closed u i);
  }

  -- Where the partitions of a name are wanted, each of them has the property.
  abbrev pub WantsAll : Bool → Bytes → (Bytes → Type 0) → Type 0
  WantsAll parts name Q =
      parts ≡ true
      → (path : Bytes) (ns : List Bytes) → block_path observer name ≡ ok path
      → partition_children observer.files path ≡ ok ns
      → (c : Bytes) → IsIn c ns
      → Q c

  pub rests :
      (name path : Bytes)
      → block_path observer name ≡ ok path
      → (parent : Option Bytes) → partition_parent observer name ≡ ok parent
      → (slaves : List Bytes)
      → sorted_entries observer.files (join_path (path ∷ slaves_directory ∷ [])) ≡ ok slaves
      → (t : List Bytes) → ((v : Bytes) → parent ≡ some v → IsIn v t)
      → Grows slaves t
      → (v : Bytes) → RestsOn name v
      → IsIn v t
  rests name path pe parent qe slaves se t a b v (on_parent e) = a v cc
  rests name path pe parent qe slaves se t a b v (on_slave path' slaves' pe' se' i) =
      let same_path : path' ≡ path = cc in let same : slaves' ≡ slaves = cc in b v (rw same at i)

  pub children :
      (name path : Bytes)
      → block_path observer name ≡ ok path
      → (ns : List Bytes) → partition_children observer.files path ≡ ok ns
      → (t : List Bytes) → Grows ns t
      → (path' : Bytes) (ns' : List Bytes) → block_path observer name ≡ ok path'
      → partition_children observer.files path' ≡ ok ns'
      → Grows ns' t
  children name path pe ns ne t m path' ns' pe' ne' c i =
      let same_path : path' ≡ path = cc in let same : ns' ≡ ns = cc in m c (rw same at i)
