-- ===== src/Validate/Equal.antt =====
-- `validateConfig` of src/LDC1614.cpp against the rules over unbounded numbers.
use ldc.Base.{
  ℕ, zero, suc, ◌+◌, ◌-◌, ◌*◌, ◌/◌, ◌≤◌, ◌<◌, ◌≡◌, ◌∙◌, refl, ap, Bool, true, false, ◌&&◌, ◌||◌,
  not, ltb, if◌then◌else◌, arith, Bool-cases, inl, inr, has_bits,
}
use native.Mathlib.Nat.{mul-le-mul}
use ldc.Status.{Status, Err, is_ok, ok_status, error}
use ldc.Four
use ldc.Config.{Config, ChannelConfig, index_bit}
use ldc.Clock.{mul64, add64, sub64, ceil_divide, reference_clock_bounds_hz, is_internal, ppm_scale}
use ldc.Registers.{channel_count_for}
use ldc.Profile.{is_external}
use ldc.Validate.{
  and_then, check_transport, check_clock, check_mode, check_registers, check_sensor, check_timing,
  check_channel, check_channels, validate_config,
}
use ldc.Validate.Exact.{
  ceiling, clock_bounds, clock_rules, timing_rules, channel_rules, channels_rules, profile_rules,
  IsTypedChannel, IsTypedConfig,
}

-- Two chains with the same first part agree where the rest does after an OK.
and_then_same : (a x y : Status) → (is_ok a ≡ true → x ≡ y) → and_then a x ≡ and_then a y
and_then_same a x y h = elim (Bool-cases (is_ok a)) [ inl e ↦ simp e (h e) | inr e ↦ simp e refl ]

-- A product within bounds whose product fits.
mul64_exact :
    (a b top most : ℕ)
    → a ≤ top
    → b ≤ most
    → top * most < 18446744073709551616
    → (mul64 a b ≡ a * b) × (a * b ≤ top * most)
mul64_exact a b top most p q small =
    let le : a * b ≤ top * most = mul-le-mul p q in (omega (arith, le, small), le)

three_exact :
    (a b c top most last : ℕ)
    → a ≤ top
    → b ≤ most
    → c ≤ last
    → (top * most < 18446744073709551616) × (top * most * last < 18446744073709551616)
    → mul64 (mul64 a b) c ≡ a * b * c
three_exact a b c top most last p q r small =
    let first = mul64_exact a b top most p q small.0 in
    ap (λ (n : ℕ). mul64 n c) first.0
    ∙ (mul64_exact (a * b) c (top * most) last first.1 r small.1).0

ceil_divide_exact :
    (n d : ℕ) → n ≤ 1000000000000000000 → d ≤ 1000000000000000000 → ceil_divide n d ≡ ceiling n d
unfolding ceil_divide
ceil_divide_exact n d p q = ground (arith, p, q)

-- The bounds of an admitted clock do not wrap.
external_exact :
    (clock tolerance : ℕ)
    → clock ≤ 40000000
    → tolerance ≤ 999999
    → (mul64 clock (sub64 ppm_scale tolerance) ≡ clock * (ppm_scale - tolerance))
      × (ceil_divide (mul64 clock (add64 ppm_scale tolerance)) ppm_scale
          ≡ ceiling (clock * (ppm_scale + tolerance)) ppm_scale)
external_exact clock tolerance p q =
    let minus : sub64 ppm_scale tolerance ≡ ppm_scale - tolerance = omega arith in
    let plus : add64 ppm_scale tolerance ≡ ppm_scale + tolerance = omega arith in
    let low =
      mul64_exact clock (ppm_scale - tolerance) 40000000 1000000 p (omega arith) (omega arith) in
    let high =
      mul64_exact clock (ppm_scale + tolerance) 40000000 1999999 p (omega arith) (omega arith) in
    (
      ap (mul64 clock) minus ∙ low.0,
      ap (λ (n : ℕ). ceil_divide n ppm_scale) (ap (mul64 clock) plus ∙ high.0)
          ∙ ceil_divide_exact (clock * (ppm_scale + tolerance)) ppm_scale (omega (arith, high.1))
              (omega arith),
    )

bounds_exact :
    (c : Config)
    → (is_internal c.reference_clock.source ≡ false → c.reference_clock.frequency_hz ≤ 40000000)
    → c.reference_clock.tolerance_ppm ≤ 999999
    → reference_clock_bounds_hz c ≡ clock_bounds c
unfolding reference_clock_bounds_hz
bounds_exact c p q = elim (Bool-cases (is_internal c.reference_clock.source)) [
  | inl e ↦ simp e refl
  | inr e ↦
      let x =
        external_exact c.reference_clock.frequency_hz c.reference_clock.tolerance_ppm (p e) q in
      simp e (rw (x.0, x.1) refl)
]

same_else :
    {A : Type 0} (b : Bool) (x y z : A)
    → (b ≡ false → y ≡ z)
    → (if b then x else y) ≡ (if b then x else z)
same_else true x y z h = refl
same_else false x y z h = h refl

if_same : (b : Bool) (x y z : Status) → x ≡ y → (if b then x else z) ≡ (if b then y else z)
if_same b x y z h = ap (λ (s : Status). if b then s else z) h

check_clock_exact : (c : Config) → check_clock c ≡ clock_rules c
unfolding check_clock
check_clock_exact c =
    let clock = c.reference_clock.frequency_hz in
    let source = c.reference_clock.source in
    same_else (not (is_internal source) && not (is_external source)) _ _ _ (λ _.
      same_else (is_internal source && (ltb clock 35000000 || ltb 55000000 clock)) _ _ _ (λ _.
        same_else (not (is_internal source) && (ltb clock 2000000 || ltb 40000000 clock)) _ _ _
          (λ range. same_else (ltb 999999 c.reference_clock.tolerance_ppm) _ _ _ (λ small.
            ap
              (λ (p : ℕ × ℕ).
                if not (is_internal source) && (ltb p.0 2000000 || ltb 40000000 p.1)
                then error Err.invalid_config
                else ok_status)
              (bounds_exact c (λ e. ground (arith, e, range)) (ground (arith, small)))))))

-- What the clock rules leave.
record ClockFits (c : Config) : Type 0 where
  clock : is_internal c.reference_clock.source ≡ false → c.reference_clock.frequency_hz ≤ 40000000
  tolerance : c.reference_clock.tolerance_ppm ≤ 999999
  low : (clock_bounds c).0 ≤ 55000000
  high : (clock_bounds c).1 ≤ 55000000

low_fits :
    (clock tolerance : ℕ)
    → clock ≤ 40000000
    → clock * (ppm_scale - tolerance) / ppm_scale ≤ 40000000
low_fits clock tolerance h =
    let share : ppm_scale - tolerance ≤ 1000000 = omega arith in
    let le : clock * (ppm_scale - tolerance) ≤ 40000000 * 1000000 = mul-le-mul h share in
    omega (arith, le)

external_rules :
    (c : Config)
    → is_internal c.reference_clock.source ≡ false
    → is_ok (clock_rules c) ≡ true
    → (c.reference_clock.frequency_hz ≤ 40000000)
      × (c.reference_clock.tolerance_ppm ≤ 999999)
      × ((clock_bounds c).1 ≤ 40000000)
unfolding is_ok
external_rules c e h = ground arith

clock_rules-ClockFits : (c : Config) → is_ok (clock_rules c) ≡ true → ClockFits c
unfolding is_ok
clock_rules-ClockFits c h = elim (Bool-cases (is_internal c.reference_clock.source)) [
  | inl e ↦ record {
    clock = λ f. absurd (ground (arith, e, f));
    tolerance = ground (arith, e, h);
    low = simp e (omega arith);
    high = simp e (omega arith);
  }
  | inr e ↦
      let rules = external_rules c e h in
      record {
        clock = λ _. rules.0;
        tolerance = rules.1;
        low = simp e (
            omega (
              arith,
              low_fits c.reference_clock.frequency_hz c.reference_clock.tolerance_ppm rules.0,
            ));
        high = omega (arith, rules.2);
      }
]

sensor_fits :
    (c : Config) (ch : ChannelConfig) (index : ℕ)
    → is_ok (check_registers ch index) ≡ true
    → is_ok (check_sensor c ch index) ≡ true
    → (ch.fref_divider ≤ 1023)
      × (ch.fin_divider ≤ 15)
      × (ch.expected_sensor_min_hz ≤ 10000000)
      × (ch.expected_sensor_max_hz ≤ 10000000)
unfolding check_registers check_sensor is_ok
sensor_fits c ch index r s = ground arith

check_timing_exact :
    (c : Config) (ch : ChannelConfig) (index : ℕ)
    → ClockFits c
    → IsTypedChannel ch
    → is_ok (check_registers ch index) ≡ true
    → is_ok (check_sensor c ch index) ≡ true
    → check_timing c ch index ≡ timing_rules c ch index
unfolding check_timing
check_timing_exact c ch index k t r s =
    let fits = sensor_fits c ch index r s in
    let bounds = bounds_exact c k.clock k.tolerance in
    let low = (clock_bounds c).0 in
    let high = (clock_bounds c).1 in
    let cycles = ch.rcount * 16 + 4 in
    let minimum = ch.expected_sensor_min_hz in
    let e1 = ceil_divide_exact high ch.fref_divider (omega (arith, k.high)) (omega (arith, fits)) in
    let e2 : add64 (mul64 ch.rcount 16) 4 ≡ cycles = omega (arith, t) in
    let e3 =
      three_exact cycles minimum ch.fref_divider 2000000 10000000 1023 (omega (arith, t)) fits.2
        fits.0 (omega arith) in
    let e4 = (mul64_exact high ch.fin_divider 55000000 15 k.high fits.1 (omega arith)).0 in
    let e5 =
      three_exact minimum 65536 ch.fref_divider 10000000 65536 1023 fits.2 (omega arith) fits.0
        (omega arith) in
    let e6 =
      three_exact ch.offset high ch.fin_divider 65536 55000000 15 (omega (arith, t)) k.high fits.1
        (omega arith) in
    let e7 = (mul64_exact low ch.fin_divider 55000000 15 k.low fits.1 (omega arith)).0 in
    let e8 =
      three_exact ch.expected_sensor_max_hz 4 ch.fref_divider 10000000 4 1023 fits.3 (omega arith)
        fits.0 (omega arith) in
    simp (bounds, e1, e2, e3, e4, e5, e6, e7, e8) refl

check_channel_exact :
    (c : Config) (index : ℕ)
    → ClockFits c
    → IsTypedConfig c
    → check_channel c index ≡ channel_rules c index
unfolding check_channel
check_channel_exact c index k t =
    let ch = Four.get c.channel index in
    and_then_same (check_registers ch index) _ _ (λ r.
      if_same (has_bits c.channels (index_bit index)) _ _ ok_status (
        and_then_same (check_sensor c ch index) _ _
          (λ s. check_timing_exact c ch index k (t index) r s)))

check_channels_exact :
    (c : Config) (rounds index : ℕ)
    → ClockFits c
    → IsTypedConfig c
    → check_channels c rounds index ≡ channels_rules c rounds index
unfolding check_channels
check_channels_exact c zero index k t = refl
check_channels_exact c (suc rounds) index k t =
    ap (λ (s : Status). and_then s (check_channels c rounds (index + 1)))
      (check_channel_exact c index k t)
    ∙ ap (and_then (channel_rules c index)) (check_channels_exact c rounds (index + 1) k t)

-- `validateConfig` returns the same status as the rules over unbounded numbers, for a profile whose
-- RCOUNT and OFFSET fields have 16 bits: no product or sum of its uint64_t arithmetic that decides
-- the result wraps around.
pub validate_config-exact : (c : Config) → IsTypedConfig c → validate_config c ≡ profile_rules c
unfolding validate_config
validate_config-exact c t =
    ap
      (λ (s : Status).
        and_then (check_transport c)
          (and_then s (and_then (check_mode c) (check_channels c (channel_count_for c.variant) 0))))
      (check_clock_exact c)
    ∙ and_then_same (check_transport c) _ _ (λ _. and_then_same (clock_rules c) _ _ (λ k.
      and_then_same (check_mode c) _ _ (λ _.
        check_channels_exact c (channel_count_for c.variant) 0 (clock_rules-ClockFits c k) t)))
