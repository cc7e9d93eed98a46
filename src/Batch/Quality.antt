-- ===== src/Batch/Quality.antt =====
-- The quality flags of a published sample of src/LDC1614.cpp, and what they imply for the masks.
use ldc.Base.{
  ℕ, zero, suc, ◌/◌, ◌≤◌, ◌<◌, ◌≡◌, ◌∙◌, refl, ap, sym, Bool, true, false, ◌&&◌, ◌||◌, not, ltb,
  ◌==◌, if◌then◌else◌, arith, bit, bit_and, bit_or, bit_xor, has_bits, Bool-cases, inl, inr, ==_iff,
}
use ldc.Base.Bits.{
  bit_of_zero, bit-lt, bit-bit_and, bit-bit_or, has_bits-pow, bit_and-halves, bit_and-zero,
}
use ldc.Four
use ldc.Cmd.Mask
use ldc.Config.{index_bit, DeviceVariant}
use ldc.Types.{
  SampleBatch, ChannelSample, DeviceStatus, stale, under_range, over_range, watchdog,
  amplitude_suspect, zero_count, data_lost,
}
use ldc.Registers.{channel_count_for}
use ldc.Profile.{or_when}
use ldc.Driver.{Driver, configured_channel_count}
use ldc.Batch.{
  build_acquisition, final_quality, fresh_quality, status_quality, status_applies, clear_when,
  invalid_flags, error_flags,
}
use ldc.Batch.Masks.{is_valid_at, is_error_at, build_acquisition-bits, index_bit-pow}

-- A common bit.
has_bits-common : (x m k : ℕ) → bit x k ≡ 1 → bit m k ≡ 1 → has_bits x m ≡ true
has_bits-common x m k p q = elim (Bool-cases (bit_and x m == 0)) [
  | inl e ↦ absurd (
      omega (
        arith,
        ap (λ (v : ℕ). bit v k) ((==_iff (bit_and x m) 0).0 e),
        bit-bit_and k x m,
        bit_of_zero k,
        p,
        q,
      ))
  | inr e ↦ ground (arith, e)
]

-- A larger mask has no fewer bits in common.
bit_and_mono :
    (most x m n : ℕ) → m ≤ most → ((k : ℕ) → bit m k ≤ bit n k) → bit_and x m ≤ bit_and x n
bit_and_mono zero x m n h below =
    let none_left : m ≡ 0 = omega arith in
    omega (arith, ap (λ (v : ℕ). bit_and x v) none_left, bit_and-zero x)
bit_and_mono (suc most) x m n h below = elim (Bool-cases (m == 0)) [
  | inl e ↦ omega (arith, ap (λ (v : ℕ). bit_and x v) ((==_iff m 0).0 e), bit_and-zero x)
  | inr e ↦ ground (
    arith,
    bit_and-halves x m,
    bit_and-halves x n,
    below 0,
    e,
    bit_and_mono most (x / 2) (m / 2) (n / 2) (ground (arith, e)) (λ k. below (suc k)),
  )
]

-- An error is a flag that invalidates the sample.
error_flags-le : (k : ℕ) → bit error_flags k ≤ bit invalid_flags k
error_flags-le zero = omega arith
error_flags-le (suc zero) = omega arith
error_flags-le (suc (suc zero)) = omega arith
error_flags-le (suc (suc (suc zero))) = omega arith
error_flags-le (suc (suc (suc (suc zero)))) = omega arith
error_flags-le (suc (suc (suc (suc (suc zero))))) = omega arith
error_flags-le (suc (suc (suc (suc (suc (suc zero)))))) = omega arith
error_flags-le (suc (suc (suc (suc (suc (suc (suc k))))))) = omega arith

has_error-has_invalid : (q : ℕ) → has_bits q error_flags ≡ true → has_bits q invalid_flags ≡ true
has_error-has_invalid q h =
    ground (arith, bit_and_mono 128 q error_flags invalid_flags (omega arith) error_flags-le, h)

-- The stale bit is set by the first step, and no later one clears it.
or_when-kept : (flag : Bool) (m v k : ℕ) → bit v k ≡ 1 → bit (or_when flag m v) k ≡ 1
or_when-kept true m v k h = omega (arith, bit-bit_or k v m, bit-lt k m, h)
or_when-kept false m v k h = h

clear_when-kept :
    (flag : Bool) (m v k : ℕ)
    → bit (bit_xor 0xFFFF m) k ≡ 1
    → bit v k ≡ 1
    → bit (clear_when flag m v) k ≡ 1
clear_when-kept true m v k c h = omega (arith, bit-bit_and k v (bit_xor 0xFFFF m), c, h)
clear_when-kept false m v k c h = h

fresh_quality-stale : (s : ChannelSample) → bit (fresh_quality false s) 1 ≡ 1
unfolding fresh_quality
fresh_quality-stale s =
    let marked : bit (bit_or s.quality stale) 1 ≡ 1 =
      omega (arith, bit-bit_or 1 s.quality stale, bit-lt 1 s.quality) in
    clear_when-kept (not (has_bits s.raw_data_msb Mask.data_err_or)) over_range _ 1 refl
      (clear_when-kept (not (has_bits s.raw_data_msb Mask.data_err_ur)) under_range _ 1 refl marked)

status_quality-kept :
    (applies : Bool) (s : DeviceStatus) (q k : ℕ)
    → bit q k ≡ 1
    → bit (status_quality applies s q) k ≡ 1
unfolding status_quality
status_quality-kept false s q k h = h
status_quality-kept true s q k h = or_when-kept s.error_zero_count zero_count _ k (
    or_when-kept (s.error_amplitude_high || s.error_amplitude_low) amplitude_suspect _ k (
      or_when-kept s.error_watchdog watchdog _ k (
        or_when-kept s.error_over_range over_range _ k
          (or_when-kept s.error_under_range under_range _ k h))))

stale_bit :
    (d : Driver) (b : SampleBatch) (i : ℕ)
    → has_bits b.fresh_channels (index_bit i) ≡ false
    → bit (final_quality d b i) 1 ≡ 1
unfolding final_quality
stale_bit d b i h = rw h (
    or_when-kept (has_bits b.overrun_channels (index_bit i)) data_lost _ 1 (
      status_quality-kept (status_applies d.scratch_status_before i) d.scratch_status_before _ 1
        (fresh_quality-stale (Four.get d.scratch_samples i))))

-- A sample that is not fresh is invalid.
stale-has_invalid :
    (d : Driver) (b : SampleBatch) (i : ℕ)
    → has_bits b.fresh_channels (index_bit i) ≡ false
    → has_bits (final_quality d b i) invalid_flags ≡ true
unfolding final_quality
stale-has_invalid d b i h =
    has_bits-common (final_quality d b i) invalid_flags 1 (stale_bit d b i h) refl

both_true : (p v : Bool) (x : ℕ) → x ≡ (if p && v then 1 else 0) → x ≡ 1 → (p ≡ true) × (v ≡ true)
both_true p v x e h = ground arith

both_tests : (p q : Bool) → (p && not q) ≡ true → (p ≡ true) × (q ≡ false)
both_tests p q h = ground arith

below_eight : (v : DeviceVariant) (k : ℕ) → ltb k (channel_count_for v) ≡ true → k < 8
below_eight v k h = ground arith

of_index : (mask k : ℕ) → k < 8 → has_bits mask (index_bit k) ≡ true → bit mask k ≡ 1
of_index mask k small h =
    (==_iff (bit mask k) 1).0
      (sym (has_bits-pow k mask) ∙ (ap (has_bits mask) (sym (index_bit-pow k small)) ∙ h))

fresh_if_valid :
    (d : Driver) (b : SampleBatch) (i : ℕ)
    → has_bits (final_quality d b i) invalid_flags ≡ false
    → has_bits b.fresh_channels (index_bit i) ≡ true
fresh_if_valid d b i h = ground (arith, stale-has_invalid d b i, h)

no_error_if_valid :
    (d : Driver) (b : SampleBatch) (i : ℕ) (physical : Bool)
    → has_bits (final_quality d b i) invalid_flags ≡ false
    → ◌≡◌ {A = ℕ} (if physical && is_error_at d b i then 1 else 0) 0
no_error_if_valid d b i physical h = ground (arith, has_error-has_invalid (final_quality d b i), h)

module _ (d : Driver) (time k : ℕ) where
  -- A valid channel of a published batch is selected, has a fresh conversion, and has no error.
  pub build_acquisition-valid :
      bit (build_acquisition d time).valid_channels k ≡ 1
      → let b = build_acquisition d time in
        (bit b.selected_channels k ≡ 1)
        × (bit b.fresh_channels k ≡ 1)
        × (bit b.error_channels k ≡ 0)
  build_acquisition-valid h =
      let b = build_acquisition d time in
      let bits = build_acquisition-bits d time k in
      let test = both_true (ltb k (configured_channel_count d)) (is_valid_at d b k) _ bits.0 h in
      let small = below_eight d.config.variant k test.0 in
      let parts = both_tests _ _ test.1 in
      (
        of_index b.selected_channels k small parts.0,
        of_index b.fresh_channels k small (fresh_if_valid d b k parts.1),
        bits.1 ∙ no_error_if_valid d b k _ parts.1,
      )
