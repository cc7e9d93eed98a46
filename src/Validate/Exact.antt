-- ===== src/Validate/Exact.antt =====
-- The rules of `validateConfig` of src/LDC1614.cpp over unbounded numbers: no product or sum wraps.
use ldc.Base.{
  ℕ, zero, suc, ◌+◌, ◌-◌, ◌*◌, ◌/◌, ◌&&◌, ◌||◌, not, ltb, leb, ◌==◌, if◌then◌else◌, has_bits, ◌<◌,
}
use ldc.Status.{Status, Err, ok_status, error, error_detail}
use ldc.Four
use ldc.Four.{Four}
use ldc.Config.{Config, ChannelConfig, index_bit}
use ldc.Registers.{channel_count_for}
use ldc.Profile.{is_external}
use ldc.Clock.{
  internal_clock_min_hz, internal_clock_max_hz, external_clock_min_hz, external_clock_max_hz,
  max_tolerance_ppm, ppm_scale, is_internal,
}
use ldc.Validate.{and_then, check_transport, check_mode, check_registers, check_sensor, fref_limit}

-- The quotient, rounded up.
abbrev pub ceiling : ℕ → ℕ → ℕ
ceiling n d = if d == 0 then 0 else (n + d - 1) / d

-- The reference clock with its tolerance: rounded down below, and up above.
abbrev pub clock_bounds : Config → ℕ × ℕ
clock_bounds c =
    let clock = c.reference_clock.frequency_hz in
    let tolerance = c.reference_clock.tolerance_ppm in
    if is_internal c.reference_clock.source
    then (internal_clock_min_hz, internal_clock_max_hz)
    else (
      clock * (ppm_scale - tolerance) / ppm_scale,
      ceiling (clock * (ppm_scale + tolerance)) ppm_scale,
    )

abbrev pub clock_rules : Config → Status
clock_rules c =
    let clock = c.reference_clock.frequency_hz in
    let source = c.reference_clock.source in
    let bounds = clock_bounds c in
    if not (is_internal source) && not (is_external source)
    then error Err.invalid_config
    else if is_internal source
        && (ltb clock internal_clock_min_hz || ltb internal_clock_max_hz clock)
    then error Err.invalid_config
    else if not (is_internal source)
        && (ltb clock external_clock_min_hz || ltb external_clock_max_hz clock)
    then error Err.invalid_config
    else if ltb max_tolerance_ppm c.reference_clock.tolerance_ppm
    then error Err.invalid_config
    else if not (is_internal source)
        && (ltb bounds.0 external_clock_min_hz || ltb external_clock_max_hz bounds.1)
    then error Err.invalid_config
    else ok_status

abbrev pub timing_rules : Config → ChannelConfig → ℕ → Status
timing_rules c ch index =
    let bad = error_detail Err.invalid_config index in
    let low = (clock_bounds c).0 in
    let high = (clock_bounds c).1 in
    let cycles = ch.rcount * 16 + 4 in
    if low / ch.fref_divider == 0 || ltb (fref_limit c) (ceiling high ch.fref_divider)
    then bad
    else if ltb (cycles * ch.expected_sensor_min_hz * ch.fref_divider) (high * ch.fin_divider)
    then bad
    else if leb (ch.expected_sensor_min_hz * 65536 * ch.fref_divider)
        (ch.offset * high * ch.fin_divider)
    then bad
    else if leb (low * ch.fin_divider) (ch.expected_sensor_max_hz * 4 * ch.fref_divider)
    then bad
    else ok_status

abbrev pub channel_rules : Config → ℕ → Status
channel_rules c index =
    let ch = Four.get c.channel index in
    and_then (check_registers ch index) (
      if has_bits c.channels (index_bit index)
      then and_then (check_sensor c ch index) (timing_rules c ch index)
      else ok_status)

abbrev pub channels_rules : Config → ℕ → ℕ → Status
channels_rules c zero index = ok_status
channels_rules c (suc rounds) index =
    and_then (channel_rules c index) (channels_rules c rounds (index + 1))

abbrev pub profile_rules : Config → Status
profile_rules c = and_then (check_transport c) (
    and_then (clock_rules c)
      (and_then (check_mode c) (channels_rules c (channel_count_for c.variant) 0)))

-- The fields of a profile as their C++ types bound them.
abbrev pub IsTypedChannel : ChannelConfig → Type 0
IsTypedChannel ch = (ch.rcount < 65536) × (ch.offset < 65536)

abbrev pub IsTypedConfig : Config → Type 0
IsTypedConfig c = (i : ℕ) → IsTypedChannel (Four.get c.channel i)
