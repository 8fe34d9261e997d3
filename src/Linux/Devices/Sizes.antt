-- ===== src/Linux/Devices/Sizes.antt =====
-- What `Target` has read of a device.
use diskforge.Base.{
  ℕ, ◌*◌, ◌^◌, ◌<◌, ◌≡◌, ◌↔◌, inl, inr, refl, ap, ◌∙◌, false, Option, none, some, [], ◌∷◌, Bytes,
  codes, arith, bytes_eq_iff, Bool-cases,
}
use diskforge.Base.Int.{ℤ, pos, negsuc}
use diskforge.Errors.{ok, Result-cases}
use diskforge.Go.FilePath.{clean, base, join_path}
use diskforge.Go.Numbers.{parse_int}
use diskforge.Go.Slices.Laws.{IsIn}
use diskforge.Policy.Model.{TargetIdentity}
use diskforge.Linux.Files.{Observer}
use diskforge.Linux.Sysfs.{block_path, read_trimmed, related}
use diskforge.Linux.Sysfs.Relations.{IsRelated}
use diskforge.Linux.Sysfs.Relations.Collect.{related_iff}
use diskforge.Linux.Devices.{size_of_sectors, refused_path, target, device_root, sized}

-- The size is 512 times the sectors, without an overflow.
pub size_of_sectors_iff :
    (read : Option ℤ) (size : ℤ)
    → (size_of_sectors read ≡ some size)
      ↔ ((n : ℕ) × (read ≡ some (pos n)) × (size ≡ pos (n * 512)) × (n * 512 < 2 ^ 63))
unfolding size_of_sectors
size_of_sectors_iff none size = (λ e. absurd (cc), λ (n, e, s, b). absurd (cc))
size_of_sectors_iff (some (negsuc k)) size = (λ e. absurd (cc), λ (n, e, s, b). absurd (cc))
size_of_sectors_iff (some (pos k)) size = (
  λ e.
      let bound : k * 512 < 2 ^ 63 = ground arith in
      let exact : size ≡ pos (k * 512) = ground arith in (k, refl, exact, bound),
  λ (n, e, s, b). let same : k ≡ n = ground arith in ground arith,
)

module _ (observer : Observer) (path : Bytes) where
  -- A target read from the files: its path is that of its kernel name below `/dev`, its size the 512
  -- times of the sectors, within an int64, and its descendants are the devices related to it.
  pub record IsTarget (t : TargetIdentity) : Type 0 where
    pub canonical : t.canonical_path ≡ clean path
    pub kname : t.kname ≡ base (clean path)
    pub below_dev : t.canonical_path ≡ join_path (device_root ∷ t.kname ∷ [])
    pub sys_path : Bytes
    pub located : block_path observer t.kname ≡ ok sys_path
    pub sectors : ℕ
    pub size_text : Bytes
    pub size_read :
        read_trimmed observer.files (join_path (sys_path ∷ codes "size" ∷ [])) ≡ ok size_text
    pub parsed : parse_int size_text ≡ some (pos sectors)
    pub size : t.size_bytes ≡ pos (sectors * 512)
    pub bounded : sectors * 512 < 2 ^ 63
    pub descendants : (x : Bytes) → IsIn x t.descendants ↔ IsRelated observer t.kname x

  sized_ok : (name : Bytes) (s : Option ℤ) (size : ℤ) → sized name s ≡ ok size → s ≡ some size
  sized_ok name none size e = absurd (cc)
  sized_ok name (some z) size e = cc

  accepted_path :
      (cleaned name : Bytes)
      → refused_path cleaned name ≡ false
      → cleaned ≡ join_path (device_root ∷ name ∷ [])
  unfolding refused_path
  accepted_path cleaned name e =
      (bytes_eq_iff cleaned (join_path (device_root ∷ name ∷ []))).0 (ground arith)

  -- What `Target` reads where it succeeds.
  pub target_ok : (t : TargetIdentity) → target observer path ≡ ok t → IsTarget t
  unfolding target
  target_ok t e = elim (Bool-cases (refused_path (clean path) (base (clean path)))) [
    | inl r ↦ absurd (ground arith)
    | inr r ↦ elim (Result-cases (block_path observer (base (clean path)))) [
      | inl (f, be) ↦ absurd (ground arith)
      | inr (sys, be) ↦
          elim (Result-cases (read_trimmed observer.files (join_path (sys ∷ codes "size" ∷ [])))) [
            | inl (f, se) ↦ absurd (ground arith)
            | inr (text, se) ↦
                elim (Result-cases (sized (base (clean path)) (size_of_sectors (parse_int text)))) [
                  | inl (f, ze) ↦ absurd (ground arith)
                  | inr (size, ze) ↦ elim (Result-cases (related observer (base (clean path)))) [
                    | inl (f, re) ↦ absurd (ground arith)
                    | inr (descendants, re) ↦
                        let (n, parsed, exact, bound) =
                          (size_of_sectors_iff (parse_int text) size).0 (sized_ok _ _ size ze) in
                        let canonical : t.canonical_path ≡ clean path = ground arith in
                        let kname : t.kname ≡ base (clean path) = ground arith in
                        let sized_as : t.size_bytes ≡ size = ground arith in
                        let listed : t.descendants ≡ descendants = ground arith in
                        record {
                          canonical = canonical;
                          kname = kname;
                          below_dev =
                              rw (canonical, kname)
                                (accepted_path (clean path) (base (clean path)) r);
                          sys_path = sys;
                          located = ap (block_path observer) kname ∙ be;
                          sectors = n;
                          size_text = text;
                          size_read = se;
                          parsed = parsed;
                          size = sized_as ∙ exact;
                          bounded = bound;
                          descendants = λ x.
                              rw (kname, listed)
                                (related_iff observer (base (clean path)) descendants re x);
                        }
                  ]
                ]
          ]
    ]
  ]
