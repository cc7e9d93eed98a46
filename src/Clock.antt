-- ===== src/Clock.antt =====
-- src/LDC1614.cpp, the reference-clock arithmetic, in uint64_t.
use ldc.Base.{ℕ, ◌+◌, ◌-◌, ◌*◌, ◌/◌, ◌==◌, if◌then◌else◌, u64, Bool, true, false}
use ldc.Config.{Config, Deglitch, RefClkSrc}

abbrev pub sensor_frequency_min_hz : ℕ
sensor_frequency_min_hz = 1000

abbrev pub sensor_frequency_max_hz : ℕ
sensor_frequency_max_hz = 10000000

abbrev pub internal_clock_min_hz : ℕ
internal_clock_min_hz = 35000000

abbrev pub internal_clock_max_hz : ℕ
internal_clock_max_hz = 55000000

abbrev pub external_clock_min_hz : ℕ
external_clock_min_hz = 2000000

abbrev pub external_clock_max_hz : ℕ
external_clock_max_hz = 40000000

abbrev pub max_tolerance_ppm : ℕ
max_tolerance_ppm = 999999

abbrev pub ppm_scale : ℕ
ppm_scale = 1000000

abbrev pub micros_per_second : ℕ
micros_per_second = 1000000

abbrev pub nanos_per_second : ℕ
nanos_per_second = 1000000000

abbrev pub wake_delay_cycles : ℕ
wake_delay_cycles = 16384

abbrev pub channel_switch_base_ns : ℕ
channel_switch_base_ns = 692

abbrev pub channel_switch_cycles : ℕ
channel_switch_cycles = 5

-- `a - b` in uint64_t.
abbrev pub sub64 : ℕ → ℕ → ℕ
sub64 a b = u64 (a + 18446744073709551616 - b)

abbrev pub add64 : ℕ → ℕ → ℕ
add64 a b = u64 (a + b)

abbrev pub mul64 : ℕ → ℕ → ℕ
mul64 a b = u64 (a * b)

unfoldable pub ceil_divide : ℕ → ℕ → ℕ
ceil_divide numerator denominator =
    if denominator == 0 then 0 else sub64 (add64 numerator denominator) 1 / denominator

abbrev pub is_internal : RefClkSrc → Bool
is_internal RefClkSrc.internal = true
is_internal _ = false

-- The minimum and the maximum.
unfoldable pub reference_clock_bounds_hz : Config → ℕ × ℕ
reference_clock_bounds_hz c =
    let clock = c.reference_clock.frequency_hz in
    let tolerance = c.reference_clock.tolerance_ppm in
    if is_internal c.reference_clock.source
    then (internal_clock_min_hz, internal_clock_max_hz)
    else (
      mul64 clock (sub64 ppm_scale tolerance) / ppm_scale,
      ceil_divide (mul64 clock (add64 ppm_scale tolerance)) ppm_scale,
    )

unfoldable pub deglitch_bandwidth_hz : Deglitch → ℕ
deglitch_bandwidth_hz Deglitch.bw_1mhz = 1000000
deglitch_bandwidth_hz Deglitch.bw_3mhz = 3300000
deglitch_bandwidth_hz Deglitch.bw_10mhz = 10000000
deglitch_bandwidth_hz Deglitch.bw_33mhz = 33000000
deglitch_bandwidth_hz Deglitch.unspecified = 0

abbrev pub is_valid_deglitch : Deglitch → Bool
is_valid_deglitch Deglitch.unspecified = false
is_valid_deglitch _ = true
