-- ===== src/Linux/OpenedTarget/Identity.antt =====
-- What the validation of an opened descriptor has shown, and when it is closed again.
use diskforge.Base.{
  ℕ, ◌≡◌, ◌↔◌, ◌⊎◌, inl, inr, refl, sym, ap, ◌∙◌, true, List, [], ◌∷◌, Bytes, arith, bytes_eq,
  bytes_eq_iff,
}
use diskforge.Base.Int.{eq_ℤ_iff}
use diskforge.Errors.{Error, Result, ok, err, Result-cases}
use diskforge.Policy.Model.{Mode, mode_rescue, TargetIdentity}
use diskforge.Linux.Files.{Observer}
use diskforge.Linux.Devices.{target}
use diskforge.Linux.OpenedTarget.{
  DescriptorStat, Descriptors, same_strings, same_target, device_number, validate_opened_target,
  is_block_device, validate_descriptor, open_target,
}

same_strings_ok : (xs ys : List Bytes) → same_strings xs ys ≡ true → xs ≡ ys
unfolding same_strings
same_strings_ok [] [] e = refl
same_strings_ok [] (y ∷ ys) e = absurd (cc)
same_strings_ok (x ∷ xs) [] e = absurd (cc)
same_strings_ok (x ∷ xs) (y ∷ ys) e =
    let head = (bytes_eq_iff x y).0 (ground arith) in
    let tail = same_strings_ok xs ys (ground arith) in cc

same_strings_refl : (xs : List Bytes) → same_strings xs xs ≡ true
unfolding same_strings
same_strings_refl [] = refl
same_strings_refl (x ∷ xs) = ground (arith, (bytes_eq_iff x x).1 refl, same_strings_refl xs)

-- The comparison of two targets holds exactly when they are equal.
pub same_target_iff : (a b : TargetIdentity) → (same_target a b ≡ true) ↔ (a ≡ b)
unfolding same_target
same_target_iff a b = (
  λ e.
      let path = (bytes_eq_iff a.canonical_path b.canonical_path).0 (ground arith) in
      let serial = (bytes_eq_iff a.serial b.serial).0 (ground arith) in
      let wwn = (bytes_eq_iff a.wwn b.wwn).0 (ground arith) in
      let size = (eq_ℤ_iff a.size_bytes b.size_bytes).0 (ground arith) in
      let kname = (bytes_eq_iff a.kname b.kname).0 (ground arith) in
      let part : a.is_partition ≡ b.is_partition = ground arith in
      let below = same_strings_ok a.descendants b.descendants (ground arith) in cc,
  λ e. rw e (
      ground (
        arith,
        (bytes_eq_iff b.canonical_path b.canonical_path).1 refl,
        (bytes_eq_iff b.serial b.serial).1 refl,
        (bytes_eq_iff b.wwn b.wwn).1 refl,
        (eq_ℤ_iff b.size_bytes b.size_bytes).1 refl,
        (bytes_eq_iff b.kname b.kname).1 refl,
        same_strings_refl b.descendants,
      )),
)

module _ (observer : Observer) (expected : TargetIdentity) where
  -- A descriptor's answer names the device that the files show for the expected target.
  pub record IsSame (again : Result DescriptorStat) : Type 0 where
    pub unchanged : target observer expected.canonical_path ≡ ok expected
    pub opened : DescriptorStat
    pub answered : again ≡ ok opened
    pub numbers : device_number observer expected.kname ≡ ok (opened.major, opened.minor)

  validated :
      (again : Result DescriptorStat) (current : TargetIdentity) (numbers : ℕ × ℕ)
      (opened : DescriptorStat)
      → target observer expected.canonical_path ≡ ok current
      → device_number observer expected.kname ≡ ok numbers
      → again ≡ ok opened
      → validate_opened_target observer again expected ≡ ok tt
      → IsSame again
  unfolding validate_opened_target
  validated again current numbers opened t n a e =
      let same : same_target current expected ≡ true = ground arith in
      let major : opened.major ≡ numbers.0 = ground arith in
      let minor : opened.minor ≡ numbers.1 = ground arith in
      record {
        unchanged = t ∙ ap ok ((same_target_iff current expected).0 same);
        opened = opened;
        answered = a;
        numbers = cc;
      }

  validate_opened_target_iff :
      (again : Result DescriptorStat)
      → (validate_opened_target observer again expected ≡ ok tt) ↔ IsSame again
  validate_opened_target_iff again = (
    λ e. elim (Result-cases (target observer expected.canonical_path)) [
      | inl (f, te) ↦ absurd (unfold validate_opened_target in cc)
      | inr (current, te) ↦ elim (Result-cases (device_number observer expected.kname)) [
        | inl (f, ne) ↦ absurd (unfold validate_opened_target in ground arith)
        | inr (numbers, ne) ↦ elim (Result-cases again) [
          | inl (f, ae) ↦ absurd (unfold validate_opened_target in ground arith)
          | inr (opened, ae) ↦ validated again current numbers opened te ne ae e
        ]
      ]
    ],
    λ s.
        unfold validate_opened_target in
        let same = (same_target_iff expected expected).1 refl in
        let found = s.unchanged in
        let numbers = s.numbers in
        let answered = s.answered in simp (found, same, numbers, answered) (ground arith),
  )

module _ (observer : Observer) (calls : Descriptors) (path : Bytes) (mode : Mode)
    (expected : TargetIdentity) where
  -- The descriptor is a block device, and the one of the expected target.
  pub record IsOpened (descriptor : ℕ) : Type 0 where
    pub opened : calls.open_path path (bytes_eq mode mode_rescue) ≡ ok descriptor
    pub stat : DescriptorStat
    pub stated : calls.fstat descriptor ≡ ok stat
    pub block : is_block_device stat ≡ true
    pub same : IsSame observer expected (calls.fstat_again descriptor)

  validate_descriptor_iff :
      (descriptor : ℕ)
      → (validate_descriptor observer calls descriptor expected ≡ ok tt) ↔ (
          (stat : DescriptorStat) × (calls.fstat descriptor ≡ ok stat)
          × (is_block_device stat ≡ true)
          × IsSame observer expected (calls.fstat_again descriptor))
  unfolding validate_descriptor
  validate_descriptor_iff descriptor = (
    λ e. elim (Result-cases (calls.fstat descriptor)) [
      | inl (f, fe) ↦ absurd (cc)
      | inr (stat, fe) ↦
          let block : is_block_device stat ≡ true = ground arith in
          let valid : validate_opened_target observer (calls.fstat_again descriptor) expected
              ≡ ok tt =
            ground arith in
          (
            stat,
            fe,
            block,
            (validate_opened_target_iff observer expected (calls.fstat_again descriptor)).0 valid,
          )
    ],
    λ (stat, fe, block, same).
        let valid =
          (validate_opened_target_iff observer expected (calls.fstat_again descriptor)).1 same in
        simp (fe, block, valid) refl,
  )

  -- `OpenTarget` returns a descriptor exactly when it is a block device whose numbers are the ones that
  -- sysfs shows for the expected target, which sysfs still shows unchanged; none is closed then.
  pub open_target_iff :
      (descriptor : ℕ)
      → (open_target observer calls path mode expected ≡ (ok descriptor, [])) ↔ IsOpened descriptor
  unfolding open_target
  open_target_iff descriptor = (
    λ e. elim (Result-cases (calls.open_path path (bytes_eq mode mode_rescue))) [
      | inl (f, oe) ↦ absurd (cc)
      | inr (d, oe) ↦ elim (Result-cases (validate_descriptor observer calls d expected)) [
        | inl (f, ve) ↦ absurd (cc)
        | inr (done, ve) ↦
            let same : d ≡ descriptor = cc in
            let (stat, stated, block, kept) = (validate_descriptor_iff d).0 ve in
            rw (sym same)
              (record { opened = oe; stat = stat; stated = stated; block = block; same = kept })
      ]
    ],
    λ o.
        let opened = o.opened in
        let valid = (validate_descriptor_iff descriptor).1 (o.stat, o.stated, o.block, o.same) in
        ground arith,
  )

  -- A descriptor that was opened is the result, or it is closed again, once, and the result is an
  -- error.
  pub open_target_closes :
      (descriptor : ℕ)
      → calls.open_path path (bytes_eq mode mode_rescue) ≡ ok descriptor
      → (open_target observer calls path mode expected ≡ (ok descriptor, []))
        ⊎ ((e : Error) × (open_target observer calls path mode expected ≡ (err e, descriptor ∷ [])))
  unfolding open_target
  open_target_closes descriptor oe =
      elim (Result-cases (validate_descriptor observer calls descriptor expected)) [
        | inl (f, ve) ↦ inr (f, ground arith)
        | inr (done, ve) ↦ inl (ground arith)
      ]

  pub open_target_kept :
      (descriptor : ℕ)
      → (open_target observer calls path mode expected).0 ≡ ok descriptor
      → open_target observer calls path mode expected ≡ (ok descriptor, [])
  unfolding open_target
  open_target_kept descriptor e =
      elim (Result-cases (calls.open_path path (bytes_eq mode mode_rescue))) [
        | inl (f, oe) ↦ absurd (ground arith)
        | inr (d, oe) ↦ elim (Result-cases (validate_descriptor observer calls d expected)) [
          | inl (f, ve) ↦ absurd (ground arith)
          | inr (done, ve) ↦ ground arith
        ]
      ]
