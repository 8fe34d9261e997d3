-- ===== src/Policy/Inspect/Devices.antt =====
-- Which devices are the target's, and that the search for one does not depend on a map's order.
use mathlib.Core.List.{Permᴰ}
use diskforge.Base.{
  ◌≡◌, ◌≢◌, ◌↔◌, inl, inr, refl, ap, Bool, true, false, none, List, [], ◌∷◌, arith, Bytes, bytes_eq,
  bytes_eq_iff, All, All-append, All-append_left, All-append_right, All-map, Bool-cases,
}
use diskforge.Go.FilePath.{base}
use diskforge.Go.Sort.{sort, insert_sorted, bytes_leb}
use diskforge.Go.Sort.Laws.{sort-Perm}
use diskforge.Policy.Model.{TargetIdentity, DeviceMap}
use diskforge.Policy.Inspect.{
  named, device_names, has_key, active_devices, first_among, intersects, map_from_slice,
}

-- The device's base is none of the names.
abbrev pub IsClear : List Bytes → Bytes → Type 0
IsClear names d = All (λ n. base d ≢ n) names

-- The device is not the target by its path or its kernel name, nor one of its descendants.
pub record IsForeign (t : TargetIdentity) (d : Bytes) : Type 0 where
  pub descendants : All (λ v. v ≢ [] → base d ≢ base v) t.descendants
  pub kname : t.kname ≢ [] → base d ≢ base t.kname
  pub canonical_path : t.canonical_path ≢ [] → base d ≢ base t.canonical_path

-- No active device of the map is the target's.
abbrev pub IsIdle : TargetIdentity → DeviceMap → Type 0
IsIdle t = All (λ (d, active). active ≡ true → IsForeign t d)

has_key_iff : (k : Bytes) (ns : List Bytes) → (has_key k ns ≡ false) ↔ All (λ n. k ≢ n) ns
unfolding has_key
has_key_iff k [] = (λ _. tt, λ _. refl)
has_key_iff k (n ∷ ns) = (
  λ h. (λ e. ground (arith, (bytes_eq_iff k n).1 e), (has_key_iff k ns).0 (ground arith)),
  λ (a, b). ground (arith, (has_key_iff k ns).1 b, (bytes_eq_iff k n).0),
)

first_among_iff : (ds cs : List Bytes) → (first_among ds cs ≡ none) ↔ All (IsClear cs) ds
unfolding first_among
first_among_iff [] cs = (λ _. tt, λ _. refl)
first_among_iff (d ∷ ds) cs = (
  λ h. ((has_key_iff (base d) cs).0 (ground arith), (first_among_iff ds cs).0 (ground arith)),
  λ (a, b). ground (arith, (has_key_iff (base d) cs).1 a, (first_among_iff ds cs).1 b),
)

module _ (P : Bytes → Type 0) where
  All-insert_sorted : (x : Bytes) (l : List Bytes) → All P (insert_sorted x l) ↔ (P x × All P l)
  unfolding insert_sorted
  All-insert_sorted x [] = (λ h. h, λ h. h)
  All-insert_sorted x (y ∷ l) = elim (Bool-cases (bytes_leb x y)) [
    | inl e ↦ rw e (λ (a, b). (a, b), λ (a, b). (a, b))
    | inr e ↦ rw e (
      λ (a, b). let (c, d) = (All-insert_sorted x l).0 b in (c, (a, d)),
      λ (c, (a, d)). (a, (All-insert_sorted x l).1 (c, d)),
    )
  ]

  All-sort : (l : List Bytes) → All P (sort l) ↔ All P l
  unfolding sort
  All-sort [] = (λ h. h, λ h. h)
  All-sort (x ∷ l) = (
    λ h. let (a, b) = (All-insert_sorted x (sort l)).0 h in (a, (All-sort l).0 b),
    λ (a, b). (All-insert_sorted x (sort l)).1 (a, (All-sort l).1 b),
  )

  All-active_devices : (m : DeviceMap) → All P (active_devices m) ↔ All (λ (d, a). a ≡ true → P d) m
  unfolding active_devices
  All-active_devices [] = (λ h. h, λ h. h)
  All-active_devices ((d, true) ∷ m) = (
    λ (a, b). (λ _. a, (All-active_devices m).0 b),
    λ (a, b). (a refl, (All-active_devices m).1 b),
  )
  All-active_devices ((d, false) ∷ m) =
      (λ b. (λ e. absurd (cc e), (All-active_devices m).0 b), λ (a, b). (All-active_devices m).1 b)

  All-has_key : (k : Bytes) (l : List Bytes) → has_key k l ≡ true → All P l → P k
  unfolding has_key
  All-has_key k [] h a = absurd (cc h)
  All-has_key k (n ∷ l) h (p, a) = elim (Bool-cases (bytes_eq k n)) [
    | inl e ↦ rw ((bytes_eq_iff k n).0 e) p
    | inr e ↦ All-has_key k l (ground arith) a
  ]

  All-map_from_slice :
      (l : List Bytes) → All (λ (d, a). a ≡ true → P d) (map_from_slice l) ↔ All P l
  unfolding map_from_slice
  All-map_from_slice [] = (λ h. h, λ h. h)
  All-map_from_slice (v ∷ l) = elim (Bool-cases (has_key v l)) [
    | inl e ↦ rw e (
      λ b. let r = (All-map_from_slice l).0 b in (All-has_key v l e r, r),
      λ (a, b). (All-map_from_slice l).1 b,
    )
    | inr e ↦ rw e (
      λ (a, b). (a refl, (All-map_from_slice l).0 b),
      λ (a, b). (λ _. a, (All-map_from_slice l).1 b),
    )
  ]

named_iff :
    (d : Bytes) (vs : List Bytes) → IsClear (named vs) d ↔ All (λ v. v ≢ [] → base d ≢ base v) vs
unfolding named
named_iff d [] = (λ h. h, λ h. h)
named_iff d ([] ∷ vs) =
    (λ b. (λ h. absurd (h refl), (named_iff d vs).0 b), λ (a, b). (named_iff d vs).1 b)
named_iff d ((c ∷ v) ∷ vs) =
    (λ (a, b). (λ _. a, (named_iff d vs).0 b), λ (a, b). (a (λ e. cc e), (named_iff d vs).1 b))

pub device_names_iff : (t : TargetIdentity) (d : Bytes) → IsClear (device_names t) d ↔ IsForeign t d
unfolding device_names
device_names_iff t d = (
  λ h.
      let own =
        (named_iff d (t.kname ∷ t.canonical_path ∷ [])).0
          (All-append_right _ (named t.descendants) _ h) in
      record {
        descendants = (named_iff d t.descendants).0 (All-append_left _ (named t.descendants) _ h);
        kname = own.0;
        canonical_path = own.1.0;
      },
  λ f.
      All-append _ (named t.descendants) _ ((named_iff d t.descendants).1 f.descendants)
        ((named_iff d (t.kname ∷ t.canonical_path ∷ [])).1 (f.kname, (f.canonical_path, tt))),
)

-- `intersects` finds nothing exactly when no active device is the target's.
pub intersects-none_iff :
    (t : TargetIdentity) (m : DeviceMap) → (intersects m (device_names t) ≡ none) ↔ IsIdle t m
unfolding intersects
intersects-none_iff t m = (
  λ h.
      All-map _ _ (λ (d, a) f e. (device_names_iff t d).0 (f e)) m
        ((All-active_devices (IsClear names) m).0
          ((All-sort (IsClear names) (active_devices m)).0 ((first_among_iff _ names).0 h))),
  λ h. (first_among_iff _ names).1 (
      (All-sort (IsClear names) (active_devices m)).1 (
        (All-active_devices (IsClear names) m).1
          (All-map _ _ (λ (d, a) f e. (device_names_iff t d).1 (f e)) m h))),
)
  where
    names : List Bytes
    names = device_names t

-- The same for the devices of a slice, which all count.
pub intersects-slice_iff :
    (t : TargetIdentity) (l : List Bytes)
    → (intersects (map_from_slice l) (device_names t) ≡ none) ↔ All (IsForeign t) l
intersects-slice_iff t l = (
  λ h. (All-map_from_slice (IsForeign t) l).0 ((intersects-none_iff t (map_from_slice l)).0 h),
  λ h. (intersects-none_iff t (map_from_slice l)).1 ((All-map_from_slice (IsForeign t) l).1 h),
)

perm_refl : (l : List Bytes) → Permᴰ l l
perm_refl [] = Permᴰ.nil
perm_refl (x ∷ l) = Permᴰ.cons refl (perm_refl l)

keep :
    (m n : DeviceMap) (x : Bytes × Bool)
    → Permᴰ (active_devices m) (active_devices n)
    → Permᴰ (active_devices (x ∷ m)) (active_devices (x ∷ n))
unfolding active_devices
keep m n (d, true) p = Permᴰ.cons refl p
keep m n (d, false) p = p

exchange :
    (x y : Bytes × Bool) (m : DeviceMap)
    → Permᴰ (active_devices (x ∷ y ∷ m)) (active_devices (y ∷ x ∷ m))
unfolding active_devices
exchange (d, true) (e, true) m = Permᴰ.swap refl refl
exchange (d, true) (e, false) m = perm_refl _
exchange (d, false) (e, true) m = perm_refl _
exchange (d, false) (e, false) m = perm_refl _

active_devices-Perm : {m n : DeviceMap} → Permᴰ m n → Permᴰ (active_devices m) (active_devices n)
active_devices-Perm Permᴰ.nil = perm_refl (active_devices [])
active_devices-Perm (Permᴰ.cons {b = b} {l₁ = l} {l₂ = r} e p) =
    rw e (keep l r b (active_devices-Perm p))
active_devices-Perm (Permᴰ.swap {a' = a'} {b' = b'} {l = l} e f) = rw (e, f) (exchange b' a' l)
active_devices-Perm (Permᴰ.trans p q) = Permᴰ.trans (active_devices-Perm p) (active_devices-Perm q)

-- The device found does not depend on the order in which the map is iterated.
pub intersects-Perm :
    (m n : DeviceMap) (cs : List Bytes) → Permᴰ m n → intersects m cs ≡ intersects n cs
unfolding intersects
intersects-Perm m n cs p =
    ap (λ l. first_among l cs)
      (sort-Perm (active_devices m) (active_devices n) (active_devices-Perm p))
