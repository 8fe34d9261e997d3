-- ===== src/Linux/Controls/Remount.antt =====
-- When the wait for read-only mounts ends, and what a passed remount has shown.
use diskforge.Base.{
  ℕ, zero, suc, ◌+◌, ◌<◌, ◌≡◌, ◌↔◌, ◌⊎◌, inl, inr, sym, ap, ◌∙◌, Bool, true, false, none, some,
  List, [], ◌∷◌, Bytes, codes, arith, All, Any,
}
use diskforge.Errors.{ok, Result-cases}
use diskforge.Linux.Files.{Observer}
use diskforge.Linux.Procfs.{MountRecord, mounts}
use diskforge.Linux.Devices.{name_by_device_number}
use diskforge.Linux.Root.{all_read_only, block_mounts_read_only}
use diskforge.Linux.Controls.{Controls, write_control, sysrq_trigger, poll, remount_read_only}

module _ (observer : Observer) where
  -- The mount is on a block device that the files name.
  abbrev pub IsBacked : MountRecord → Type 0
  IsBacked mount = (name : Bytes) × (name_by_device_number observer mount.device ≡ ok (some name))

  -- The mount is on no block device, or read-only.
  pub data IsSettled (mount : MountRecord) : Type 0 where
    unbacked : name_by_device_number observer mount.device ≡ ok none → IsSettled mount
    backed : IsBacked mount → mount.read_only ≡ true → IsSettled mount

  all_read_only_ok :
      (found : Bool) (records : List MountRecord)
      → all_read_only observer found records ≡ ok true
      → All IsSettled records × ((found ≡ true) ⊎ Any IsBacked records)
  unfolding all_read_only
  all_read_only_ok found [] e = (tt, inl (cc))
  all_read_only_ok found (mount ∷ records) e =
      elim (Result-cases (name_by_device_number observer mount.device)) [
        | inl (f, ne) ↦ absurd (cc)
        | inr (none, ne) ↦
            let rest : all_read_only observer found records ≡ ok true = ground arith in
            let (a, b) = all_read_only_ok found records rest in
            ((unbacked ne, a), elim b [ inl c ↦ inl c | inr c ↦ inr (inr c) ])
        | inr (some name, ne) ↦
            let only : mount.read_only ≡ true = ground arith in
            let rest : all_read_only observer true records ≡ ok true = ground arith in
            let (a, b) = all_read_only_ok true records rest in
            ((backed (name, ne) only, a), inr (inl (name, ne)))
      ]

  -- All mounts of the list are settled, and one of them is on a block device.
  pub record AllSettled (records : List MountRecord) : Type 0 where
    pub listed : mounts observer ≡ ok records
    pub settled : All IsSettled records
    pub some_backed : Any IsBacked records

  block_mounts_read_only_ok :
      block_mounts_read_only observer ≡ ok true → (records : List MountRecord) × AllSettled records
  unfolding block_mounts_read_only
  block_mounts_read_only_ok e = elim (Result-cases (mounts observer)) [
    | inl (f, me) ↦ absurd (cc)
    | inr (records, me) ↦
        let (a, b) = all_read_only_ok false records (ground arith) in
        (
          records,
          record {
            listed = me;
            settled = a;
            some_backed = elim b [ inl c ↦ absurd (cc) | inr c ↦ c ];
          },
        )
  ]

-- The wait ends well at the first of `attempts` polls that finds the mounts read-only, where no
-- earlier one fails.
pub record EndsAt (attempts : ℕ) (at : ℕ → Observer) (k : ℕ) : Type 0 where
  pub within : k < attempts
  pub settled : block_mounts_read_only (at k) ≡ ok true
  pub earlier : (i : ℕ) → i < k → block_mounts_read_only (at i) ≡ ok false

-- A number below another is nothing or behind one.
from_next :
    (P : ℕ → Type 0) (k : ℕ) → P 0 → ((i : ℕ) → i < k → P (i + 1)) → (i : ℕ) → i < k + 1 → P i
from_next P k first next zero b = first
from_next P k first next (suc i) b =
    let e : i + 1 ≡ suc i = omega arith in rw (sym e) (next i (omega arith))

poll_ok :
    (attempts : ℕ) (at : ℕ → Observer) → poll attempts at ≡ ok tt → (k : ℕ) × EndsAt attempts at k
unfolding poll
poll_ok zero at e = absurd (cc)
poll_ok (suc attempts) at e = elim (Result-cases (block_mounts_read_only (at 0))) [
  | inl (f, be) ↦ absurd (cc)
  | inr (true, be) ↦
      (0, record { within = omega arith; settled = be; earlier = λ i b. absurd (omega arith) })
  | inr (false, be) ↦
      let (k, ends) = poll_ok attempts (λ n. at (n + 1)) (ground arith) in
      (
        k + 1,
        record {
          within = omega (arith, ends.within);
          settled = ends.settled;
          earlier = from_next (λ i. block_mounts_read_only (at i) ≡ ok false) k be ends.earlier;
        },
      )
]

poll_of :
    (attempts : ℕ) (at : ℕ → Observer) (k : ℕ) → EndsAt attempts at k → poll attempts at ≡ ok tt
unfolding poll
poll_of zero at k ends = absurd (omega (arith, ends.within))
poll_of (suc attempts) at zero ends = let settled = ends.settled in ground arith
poll_of (suc attempts) at (suc k) ends =
    let first = ends.earlier 0 (omega arith) in
    let step : suc k ≡ k + 1 = omega arith in
    let rest =
      poll_of attempts (λ n. at (n + 1)) k
        (record {
          within = omega (arith, ends.within);
          settled = ap (λ i. block_mounts_read_only (at i)) (sym step) ∙ ends.settled;
          earlier = λ i b. ends.earlier (i + 1) (omega arith);
        }) in
    ground arith

-- The remount succeeds exactly when the control file takes the request and one of the 600 polls finds
-- the block-backed mounts read-only, where no poll before it fails.
pub remount_read_only_iff :
    (controls : Controls) (proc_root : Bytes) (at : ℕ → Observer)
    → (remount_read_only controls proc_root at ≡ ok tt) ↔ (
        (write_control controls (sysrq_trigger proc_root) (codes "u") ≡ ok tt)
        × ((k : ℕ) × EndsAt 600 at k))
unfolding remount_read_only
remount_read_only_iff controls proc_root at = (
  λ e. elim (Result-cases (write_control controls (sysrq_trigger proc_root) (codes "u"))) [
    | inl (f, we) ↦ absurd (cc)
    | inr (done, we) ↦ (we, poll_ok 600 at (ground arith))
  ],
  λ (we, (k, ends)). let done = poll_of 600 at k ends in ground arith,
)

-- At the end of a successful remount some poll showed every mount on a block device read-only, and at
-- least one such mount.
pub remount_read_only_settles :
    (controls : Controls) (proc_root : Bytes) (at : ℕ → Observer)
    → remount_read_only controls proc_root at ≡ ok tt
    → (k : ℕ) × (k < 600) × (records : List MountRecord) × AllSettled (at k) records
remount_read_only_settles controls proc_root at e =
    let (we, (k, ends)) = (remount_read_only_iff controls proc_root at).0 e in
    let (records, all) = block_mounts_read_only_ok (at k) ends.settled in
    (k, ends.within, records, all)
