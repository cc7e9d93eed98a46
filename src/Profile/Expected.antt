-- ===== src/Profile/Expected.antt =====
-- `expectedConfigurationRegister` of src/LDC1614.cpp against the replay table.
use ldc.Base.{
  ℕ, zero, suc, ◌+◌, ◌≤◌, ◌<◌, ◌≡◌, ◌≢◌, ◌∙◌, refl, ap, sym, true, false, ◌==◌, ◌&&◌, ==_iff, arith,
  Bool-cases, inl, inr, if_cases,
}
use ldc.Status.{is_ok, ok_status}
use ldc.Config.{Config, DeviceVariant}
use ldc.Registers.{channel_count_for}
use ldc.Profile.{config_write_at, configuration_comparison_mask}
use ldc.Validate.{validate_config}
use ldc.Direct.{Expectation, expected_from, expected_configuration_register}
use ldc.Trust.{total_writes, register_at}
use ldc.Trust.Table.{rows-distinct, row_lem}
use ldc.Trust.Polls.{validate-variant}

abbrev value_of_row : Config → ℕ → ℕ
value_of_row c k = (config_write_at c (channel_count_for c.variant) k).value

-- The expectation that row `k` gives.
abbrev pub from_row : Config → ℕ → Expectation
from_row c k = (ok_status, value_of_row c k, configuration_comparison_mask (register_at c k))

row_valid :
    (c : Config) (k : ℕ)
    → c.variant ≢ DeviceVariant.unspecified
    → k < total_writes c
    → (config_write_at c (channel_count_for c.variant) k).valid ≡ true
row_valid c k u b = ground (arith, row_lem c.variant c k b u)

-- The loop at the row of a register, and at the row of another.
found :
    (c : Config) (reg rounds step : ℕ)
    → c.variant ≢ DeviceVariant.unspecified
    → step < total_writes c
    → register_at c step ≡ reg
    → expected_from c reg (suc rounds) step ≡ from_row c step
unfolding expected_from
found c reg rounds step u b e =
    if_cases (λ (x : Expectation). x ≡ from_row c step)
      ((config_write_at c (channel_count_for c.variant) step).valid && register_at c step == reg) _
      _
      (λ _.
        ap (λ (r : ℕ). (ok_status, value_of_row c step, configuration_comparison_mask r)) (sym e))
      (λ n. absurd (ground (arith, row_valid c step u b, e, n)))

passed :
    (c : Config) (reg rounds step : ℕ)
    → (config_write_at c (channel_count_for c.variant) step).valid && register_at c step == reg
      ≡ false
    → expected_from c reg (suc rounds) step ≡ expected_from c reg rounds (step + 1)
unfolding expected_from
passed c reg rounds step n = simp n refl

-- The loop finds the only row of a register.
expected_from-row :
    (c : Config) (rounds step k : ℕ)
    → c.variant ≢ DeviceVariant.unspecified
    → step ≤ k
    → k < step + rounds
    → step + rounds ≤ total_writes c
    → expected_from c (register_at c k) rounds step ≡ from_row c k
expected_from-row c zero step k u l m t = absurd (omega arith)
expected_from-row c (suc rounds) step k u l m t = elim (Bool-cases (step == k)) [
  | inl e ↦
      let same = (==_iff step k).0 e in
      found c (register_at c k) rounds step u (omega arith) (ap (register_at c) same)
      ∙ ap (from_row c) same
  | inr e ↦
      let earlier : step < k = ground (arith, e, l) in
      passed c (register_at c k) rounds step
        (ground (arith, rows-distinct c.variant c step k earlier (omega arith) u))
      ∙ expected_from-row c rounds (step + 1) k u (omega arith) (omega arith) (omega arith)
]

-- A register that the loop finds is that of a row.
expected_from_sound :
    (c : Config) (reg rounds step : ℕ)
    → c.variant ≢ DeviceVariant.unspecified
    → step + rounds ≤ total_writes c
    → is_ok (expected_from c reg rounds step).0 ≡ true
    → (k : ℕ) × (k < total_writes c)
      × (register_at c k ≡ reg)
      × (expected_from c reg rounds step ≡ from_row c k)
unfolding expected_from is_ok
expected_from_sound c reg zero step u t h = absurd (ground arith)
expected_from_sound c reg (suc rounds) step u t h =
    elim (Bool-cases
      ((config_write_at c (channel_count_for c.variant) step).valid && register_at c step == reg)) [
        | inl e ↦
            let same : register_at c step ≡ reg = ground (arith, e) in
            (step, omega arith, same, found c reg rounds step u (omega arith) same)
        | inr e ↦
            let next = passed c reg rounds step e in
            let later =
              expected_from_sound c reg rounds (step + 1) u (omega arith) (rw next at h) in
            (later.0, later.1, later.2, next ∙ later.3)
      ]

module _ (c : Config) (valid : is_ok (validate_config c) ≡ true) where
  -- For every step of the replay of a valid profile, the expectation of the register that the step
  -- writes is OK with the value that the step writes, and the comparison mask of the register.
  pub expected-row :
      (k : ℕ)
      → k < total_writes c
      → expected_configuration_register c (register_at c k) ≡ from_row c k
  unfolding expected_configuration_register
  expected-row k b = simp valid (
      expected_from-row c (total_writes c) 0 k (validate-variant c valid) (omega arith)
        (omega arith) (omega arith))

  -- A register of a valid profile with an expectation is that of a step of the replay.
  pub expected_sound :
      (reg : ℕ)
      → is_ok (expected_configuration_register c reg).0 ≡ true
      → (k : ℕ) × (k < total_writes c)
        × (register_at c k ≡ reg)
        × (expected_configuration_register c reg ≡ from_row c k)
  unfolding expected_configuration_register
  expected_sound reg h = simp valid (
      expected_from_sound c reg (total_writes c) 0 (validate-variant c valid) (omega arith)
        (simp valid at h))
