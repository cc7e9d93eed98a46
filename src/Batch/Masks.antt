-- ===== src/Batch/Masks.antt =====
-- The channel masks of a batch that `_buildAcquisition` of src/LDC1614.cpp publishes, bit by bit.
use ldc.Base.{
  ℕ, zero, suc, ◌+◌, ◌≤◌, ◌<◌, ◌^◌, ◌≡◌, ◌∙◌, refl, ap, Bool, ◌&&◌, not, ltb, leb, ◌==◌,
  if◌then◌else◌, arith, bit, ==_iff, all_below_sound, has_bits, Bool-cases, inl, inr,
}
use ldc.Base.Bits.{bit_of_zero, bit-pow, bit-lt}
use ldc.Config.{index_bit, DeviceVariant}
use ldc.Types.{SampleBatch}
use ldc.Registers.{channel_count_for}
use ldc.Profile.{or_when}
use ldc.Profile.Encode.{bit-or_when}
use ldc.Driver.{Driver, configured_channel_count}
use ldc.Batch.{
  build_acquisition, publish_channels, publish_channel, batch_header, final_quality, invalid_flags,
  error_flags,
}

-- The header of a batch, which the loop keeps.
record SameHeader (b c : SampleBatch) : Type 0 where
  selected : c.selected_channels ≡ b.selected_channels
  fresh_mask : c.fresh_channels ≡ b.fresh_channels
  overrun : c.overrun_channels ≡ b.overrun_channels

-- A selected channel with no flag that invalidates its sample, and one with a flag of an error.
abbrev pub is_valid_at : Driver → SampleBatch → ℕ → Bool
is_valid_at d b i =
    has_bits b.selected_channels (index_bit i) && not (has_bits (final_quality d b i) invalid_flags)

abbrev pub is_error_at : Driver → SampleBatch → ℕ → Bool
is_error_at d b i =
    has_bits b.selected_channels (index_bit i) && has_bits (final_quality d b i) error_flags

-- The mask of the indices that a test accepts, from index `i` on.
abbrev collect : ℕ → ℕ → (ℕ → Bool) → ℕ → ℕ
collect zero i test mask = mask
collect (suc n) i test mask = collect n (i + 1) test (or_when (test i) (index_bit i) mask)

pub index_bit-pow : (i : ℕ) → i < 8 → index_bit i ≡ 2 ^ i
index_bit-pow i h = (==_iff _ _).0 (all_below_sound 8 (λ i. index_bit i == 2 ^ i) i refl h)

bit-or_index :
    (flag : Bool) (i mask k : ℕ)
    → i < 8
    → bit (or_when flag (index_bit i) mask) k ≡ (if flag && i == k then 1 else bit mask k)
bit-or_index flag i mask k h =
    ap (λ (p : ℕ). bit (or_when flag p mask) k) (index_bit-pow i h)
    ∙ (bit-or_when flag i mask k ∙ ground (arith, bit-pow i k, bit-lt k mask))

bit-collect :
    (n i : ℕ) (test : ℕ → Bool) (mask k : ℕ)
    → i + n ≤ 8
    → bit (collect n i test mask) k ≡ (if leb i k && ltb k (i + n) && test k then 1 else bit mask k)
bit-collect zero i test mask k h = ground arith
bit-collect (suc n) i test mask k h =
    let rest = bit-collect n (i + 1) test (or_when (test i) (index_bit i) mask) k (omega arith) in
    let here = bit-or_index (test i) i mask k (omega arith) in
    elim (Bool-cases (i == k)) [
      | inl e ↦ ground (arith, rest, here, e, ap test ((==_iff i k).0 e))
      | inr e ↦ ground (arith, rest, here, e)
    ]

publish_channel-SameHeader :
    (d : Driver) (i : ℕ) (b : SampleBatch) → SameHeader b (publish_channel d i b)
unfolding publish_channel
publish_channel-SameHeader d i b = record { selected = refl; fresh_mask = refl; overrun = refl }

trans_header : {a b c : SampleBatch} → SameHeader a b → SameHeader b c → SameHeader a c
trans_header p q = record {
  selected = q.selected ∙ p.selected;
  fresh_mask = q.fresh_mask ∙ p.fresh_mask;
  overrun = q.overrun ∙ p.overrun;
}

-- The tests of a batch read only its header.
same_tests :
    (d : Driver) (b c : SampleBatch) (i : ℕ)
    → SameHeader b c
    → (is_valid_at d c i ≡ is_valid_at d b i) × (is_error_at d c i ≡ is_error_at d b i)
unfolding final_quality
same_tests d b c i s = rw (s.selected, s.fresh_mask, s.overrun) (refl, refl)

collect_same :
    (n i : ℕ) (f g : ℕ → Bool) (mask : ℕ)
    → ((k : ℕ) → f k ≡ g k)
    → collect n i f mask ≡ collect n i g mask
collect_same zero i f g mask h = refl
collect_same (suc n) i f g mask h =
    ap (λ (t : Bool). collect n (i + 1) f (or_when t (index_bit i) mask)) (h i)
    ∙ collect_same n (i + 1) f g (or_when (g i) (index_bit i) mask) h

abbrev one_round : Driver → ℕ → SampleBatch → SampleBatch
one_round d i b = if has_bits b.selected_channels (index_bit i) then publish_channel d i b else b

one_round-masks :
    (d : Driver) (i : ℕ) (b : SampleBatch)
    → let p = one_round d i b in
      SameHeader b p
      × (p.valid_channels ≡ or_when (is_valid_at d b i) (index_bit i) b.valid_channels)
      × (p.error_channels ≡ or_when (is_error_at d b i) (index_bit i) b.error_channels)
unfolding publish_channel
one_round-masks d i b = ground arith

publish_channels-masks :
    (d : Driver) (n i : ℕ) (b : SampleBatch)
    → let p = publish_channels d n i b in
      SameHeader b p
      × (p.valid_channels ≡ collect n i (is_valid_at d b) b.valid_channels)
      × (p.error_channels ≡ collect n i (is_error_at d b) b.error_channels)
unfolding publish_channels
publish_channels-masks d zero i b =
    (record { selected = refl; fresh_mask = refl; overrun = refl }, refl, refl)
publish_channels-masks d (suc n) i b =
    let c = one_round d i b in
    let here = one_round-masks d i b in
    let rest = publish_channels-masks d n (i + 1) c in
    let same = λ (k : ℕ). same_tests d b c k here.0 in
    (
      trans_header here.0 rest.0,
      rest.1
          ∙ (collect_same n (i + 1) (is_valid_at d c) (is_valid_at d b) c.valid_channels
                (λ k. (same k).0)
              ∙ ap (collect n (i + 1) (is_valid_at d b)) here.1),
      rest.2
          ∙ (collect_same n (i + 1) (is_error_at d c) (is_error_at d b) c.error_channels
                (λ k. (same k).1)
              ∙ ap (collect n (i + 1) (is_error_at d b)) here.2),
    )

channel_count-le : (v : DeviceVariant) → 0 + channel_count_for v ≤ 8
channel_count-le v = ground arith

module _ (d : Driver) (time k : ℕ) where
  -- A channel is valid in a published batch if it is a physical channel of the variant, is selected,
  -- and its final quality has no flag that invalidates the sample; it has an error if its final
  -- quality has a flag of an error. No other bit is in the masks of valid channels and of errors.
  pub build_acquisition-bits :
      let b = build_acquisition d time in
      let physical = ltb k (configured_channel_count d) in
      (bit b.valid_channels k ≡ (if physical && is_valid_at d b k then 1 else 0))
      × (bit b.error_channels k ≡ (if physical && is_error_at d b k then 1 else 0))
  unfolding build_acquisition batch_header
  build_acquisition-bits =
      let h = batch_header d time in
      let n = configured_channel_count d in
      let p = publish_channels-masks d n 0 h in
      let same = same_tests d h (build_acquisition d time) k p.0 in
      let small = channel_count-le d.config.variant in
      let no_bit = bit_of_zero k in
      (
        ap (λ (m : ℕ). bit m k) p.1
            ∙ (bit-collect n 0 (is_valid_at d h) 0 k small ∙ ground (arith, same, no_bit)),
        ap (λ (m : ℕ). bit m k) p.2
            ∙ (bit-collect n 0 (is_error_at d h) 0 k small ∙ ground (arith, same, no_bit)),
      )
