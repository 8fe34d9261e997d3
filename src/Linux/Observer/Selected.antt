-- ===== src/Linux/Observer/Selected.antt =====
-- Which mount a path is resolved to, and what backs it.
use diskforge.Base.{
  ◌≤◌, ◌<◌, ◌≡◌, ◌↔◌, ◌⊎◌, inl, inr, refl, sym, ap, true, ◌&&◌, Option, none, some, List, [], ◌∷◌,
  ◌++◌, Bytes, codes, arith, All, bytes_eq, bytes_eq_iff, Bool-cases, Option-cases, length,
}
use mathlib.Core.Logic.{⊎_elim}
use diskforge.Errors.{ok, Result-cases}
use diskforge.Go.Strings.Laws.{has_prefix_sound}
use diskforge.Go.FilePath.{is_abs, clean}
use diskforge.Go.Slices.Laws.{IsIn, not_in_nil}
use diskforge.Linux.Files.{Observer}
use diskforge.Linux.Procfs.{MountRecord, mounts}
use diskforge.Linux.Sysfs.{related}
use diskforge.Linux.Sysfs.Relations.Collect.{related_iff}
use diskforge.Linux.Devices.{name_by_device_number}
use diskforge.Linux.Observer.{path_within, is_longer, select_mount, source, source_on, backing_of}
use diskforge.Linux.Observer.Mounted.{IsBelow}

module _ (path : Bytes) where
  -- The path is below the mount's point.
  abbrev pub Contains : MountRecord → Type 0
  Contains mount = path_within path mount.mountpoint ≡ true

  abbrev IsShorter : MountRecord → MountRecord → Type 0
  IsShorter r mount = Contains mount → length mount.mountpoint < length r.mountpoint

  abbrev IsNoLonger : MountRecord → MountRecord → Type 0
  IsNoLonger r mount = Contains mount → length mount.mountpoint ≤ length r.mountpoint

  -- The first of the longest mount points that contain the path.
  pub record IsChosen (records : List MountRecord) (r : MountRecord) : Type 0 where
    pub before : List MountRecord
    pub behind : List MountRecord
    pub listed : records ≡ before ++ r ∷ behind
    pub inside : Contains r
    pub shorter : All (IsShorter r) before
    pub no_longer : All (IsNoLonger r) behind

  abbrev Beats : MountRecord → Option MountRecord → Type 0
  Beats r selected =
      (s : MountRecord) → selected ≡ some s → length s.mountpoint < length r.mountpoint

  IsChosen-head :
      (mount r : MountRecord) (records : List MountRecord)
      → mount ≡ r
      → Contains mount
      → All (IsNoLonger r) records
      → IsChosen (mount ∷ records) r
  IsChosen-head mount r records e c a = rw e (record {
    before = [];
    behind = records;
    listed = refl;
    inside = rw e at c;
    shorter = tt;
    no_longer = a;
  })

  IsChosen-tail :
      (mount r : MountRecord) (records : List MountRecord)
      → IsShorter r mount
      → IsChosen records r
      → IsChosen (mount ∷ records) r
  IsChosen-tail mount r records s c = record {
    before = mount ∷ c.before;
    behind = c.behind;
    listed = ap (λ l. mount ∷ l) c.listed;
    inside = c.inside;
    shorter = (s, c.shorter);
    no_longer = c.no_longer;
  }

  select_mount_ok :
      (selected : Option MountRecord) (records : List MountRecord) (r : MountRecord)
      → select_mount path selected records ≡ some r
      → ((selected ≡ some r) × All (IsNoLonger r) records) ⊎ (IsChosen records r × Beats r selected)
  unfolding select_mount
  select_mount_ok selected [] r e = inl (e, tt)
  select_mount_ok none (mount ∷ records) r e =
      elim (Bool-cases (path_within path mount.mountpoint)) [
        | inl c ↦ elim (select_mount_ok (some mount) records r (ground arith)) [
          | inl (same, a) ↦ inr (IsChosen-head mount r records (cc) c a, λ s f. absurd (cc))
          | inr (chosen, beats) ↦
              inr (IsChosen-tail mount r records (λ _. beats mount refl) chosen, λ s f. absurd (cc))
        ]
        | inr c ↦ elim (select_mount_ok none records r (ground arith)) [
          | inl (same, a) ↦ absurd (cc)
          | inr (chosen, beats) ↦
              inr (IsChosen-tail mount r records (λ d. absurd (cc)) chosen, λ s f. absurd (cc))
        ]
      ]
  select_mount_ok (some s) (mount ∷ records) r e =
      elim (Bool-cases (path_within path mount.mountpoint && is_longer mount (some s))) [
        | inl c ↦
            let inside : Contains mount = ground arith in
            elim (select_mount_ok (some mount) records r (ground arith)) [
              | inl (same, a) ↦
                  let m : mount ≡ r = cc in
                  inr (
                    IsChosen-head mount r records m inside a,
                    λ o f. let one : s ≡ o = cc in rw (sym one, sym m) (ground arith),
                  )
              | inr (chosen, beats) ↦
                  let longer = beats mount refl in
                  inr (
                    IsChosen-tail mount r records (λ _. longer) chosen,
                    λ o f. let one : s ≡ o = cc in rw (sym one) (ground arith),
                  )
            ]
        | inr c ↦ elim (select_mount_ok (some s) records r (ground arith)) [
          | inl (same, a) ↦ let m : s ≡ r = cc in inl (same, (λ d. rw (sym m) (ground arith), a))
          | inr (chosen, beats) ↦
              let longer = beats s refl in
              inr (IsChosen-tail mount r records (λ d. ground arith) chosen, beats)
        ]
      ]

  chosen :
      (records : List MountRecord) (r : MountRecord)
      → select_mount path none records ≡ some r
      → IsChosen records r
  chosen records r e =
      ⊎_elim (λ (f, a). absurd (cc)) (λ (c, b). c) (select_mount_ok none records r e)

-- A path that is the mount point, or below it by a separator; all absolute paths are below the root.
pub data IsWithin (path mountpoint : Bytes) : Type 0 where
  at_root : mountpoint ≡ codes "/" → is_abs path ≡ true → IsWithin path mountpoint
  itself : path ≡ mountpoint → IsWithin path mountpoint
  beneath : (rest : Bytes) → path ≡ (mountpoint ++ b'/' ∷ []) ++ rest → IsWithin path mountpoint

path_within_ok :
    (path mountpoint : Bytes) → path_within path mountpoint ≡ true → IsWithin path mountpoint
unfolding path_within
path_within_ok path mountpoint e = elim (Bool-cases (bytes_eq mountpoint (codes "/"))) [
  | inl r ↦ at_root ((bytes_eq_iff mountpoint (codes "/")).0 r) (ground arith)
  | inr r ↦ elim (Bool-cases (bytes_eq path mountpoint)) [
    | inl s ↦ itself ((bytes_eq_iff path mountpoint).0 s)
    | inr s ↦
        let (rest, split) = has_prefix_sound path (mountpoint ++ b'/' ∷ []) (ground arith) in
        beneath rest split
  ]
]

-- What `Source` has found.
pub record IsSource (observer : Observer) (path filesystem : Bytes) (backing : List Bytes)
    (records : List MountRecord) : Type 0 where
  pub mount : MountRecord
  pub chosen : IsChosen (clean path) records mount
  pub within : IsWithin (clean path) mount.mountpoint
  pub filesystem_of : filesystem ≡ mount.filesystem
  pub backed : (x : Bytes) → IsIn x backing ↔ IsBelow observer x mount

module _ (observer : Observer) (path filesystem : Bytes) (backing : List Bytes) where
  backed_by :
      (records : List MountRecord) (mount : MountRecord) (found : Option Bytes)
      → select_mount (clean path) none records ≡ some mount
      → name_by_device_number observer mount.device ≡ ok found
      → backing_of observer mount found ≡ ok (filesystem, backing)
      → IsSource observer path filesystem backing records
  backed_by records mount none me ne e =
      let choice = chosen (clean path) records mount me in
      let empty : backing ≡ [] = cc in
      record {
        mount = mount;
        chosen = choice;
        within = path_within_ok (clean path) mount.mountpoint choice.inside;
        filesystem_of = cc;
        backed = λ x. (λ i. not_in_nil x (rw empty at i), λ (name, f, r). absurd (cc));
      }
  backed_by records mount (some name) me ne e = elim (Result-cases (related observer name)) [
    | inl (f, re) ↦ absurd (cc)
    | inr (devices, re) ↦
        let choice = chosen (clean path) records mount me in
        let same : devices ≡ backing = ground arith in
        record {
          mount = mount;
          chosen = choice;
          within = path_within_ok (clean path) mount.mountpoint choice.inside;
          filesystem_of = ground arith;
          backed = λ x.
              let (a, b) = related_iff observer name devices re x in
              rw (sym same) (
                λ i. (name, ne, a i),
                λ (other, f, r). let one : other ≡ name = cc in b (rw one at r),
              );
        }
  ]

  -- `Source` resolves a path to the first of the longest mount points that contain it, and gives its
  -- file system and exactly the devices on which that mount rests.
  pub source_ok :
      source observer path ≡ ok (filesystem, backing)
      → (records : List MountRecord) × (mounts observer ≡ ok records)
        × IsSource observer path filesystem backing records
  source_ok e = elim (Result-cases (mounts observer)) [
    | inl (f, me) ↦ absurd (unfold source in ground arith)
    | inr (records, me) ↦ elim (Option-cases (select_mount (clean path) none records)) [
      | inl se ↦ absurd (unfold source in unfold source_on in ground arith)
      | inr (mount, se) ↦ elim (Result-cases (name_by_device_number observer mount.device)) [
        | inl (f, ne) ↦ absurd (unfold source in unfold source_on in ground arith)
        | inr (found, ne) ↦
            let done : backing_of observer mount found ≡ ok (filesystem, backing) =
              unfold source in unfold source_on in ground arith in
            (records, me, backed_by records mount found se ne done)
      ]
    ]
  ]
