-- ===== src/Timing.antt =====
-- src/LDC1614.cpp, `estimateFrameTiming`, in uint64_t.
use ldc.Base.{ℕ, zero, suc, ◌+◌, ◌*◌, ◌/◌, ◌||◌, leb, ◌==◌, if◌then◌else◌, has_bits, u8}
use ldc.Status.{Status, Err, is_ok, ok_status, error, error_detail}
use ldc.Four
use ldc.Config.{Config, ChannelConfig, ChannelMask, index_bit, is_empty}
use ldc.Types.{FrameTiming, no_frame_timing}
use ldc.Registers.{channel_count_for, popcount}
use ldc.Profile.{is_sequential}
use ldc.Clock.{
  mul64, add64, ceil_divide, reference_clock_bounds_hz, internal_clock_min_hz, wake_delay_cycles,
  micros_per_second, nanos_per_second, channel_switch_base_ns, channel_switch_cycles,
}
use ldc.Validate.{validate_config, exceeds}

-- The sums that the loop carries: wake and settle, conversion, channel switches.
pub record Sums : Type 0 where
  pub settle_us : ℕ
  pub conversion_us : ℕ
  pub switch_us : ℕ

-- One selected channel at its minimum reference clock.
unfoldable pub add_channel : ChannelConfig → ℕ → Sums → Sums
add_channel ch fref s =
    let settle_cycles = if leb ch.settle_count 1 then 32 else mul64 ch.settle_count 16 in
    let conversion_cycles = add64 (mul64 ch.rcount 16) 4 in
    let switch_ns =
      add64 channel_switch_base_ns (ceil_divide (channel_switch_cycles * nanos_per_second) fref) in
    record {
      settle_us = add64 s.settle_us (ceil_divide (mul64 settle_cycles micros_per_second) fref);
      conversion_us =
          add64 s.conversion_us (ceil_divide (mul64 conversion_cycles micros_per_second) fref);
      switch_us = add64 s.switch_us (ceil_divide switch_ns 1000);
    }

-- The loop over the channels, with the rounds left; an early return keeps the sums so far.
unfoldable pub timing_loop : Config → ChannelMask → ℕ → ℕ → ℕ → Sums → Status × Sums
timing_loop c mask clock_min zero index s = (ok_status, s)
timing_loop c mask clock_min (suc rounds) index s =
    let ch = Four.get c.channel index in
    let fref = clock_min / ch.fref_divider in
    let skip = timing_loop c mask clock_min rounds (index + 1) s in
    let more = timing_loop c mask clock_min rounds (index + 1) (add_channel ch fref s) in
    if has_bits mask (index_bit index)
    then (if fref == 0 then (error_detail Err.invalid_config index, s) else more)
    else skip

unfoldable pub estimate_frame_timing : Config → ChannelMask → Status × FrameTiming
estimate_frame_timing c channels =
    let validation = validate_config c in
    let clock_min = (reference_clock_bounds_hz c).0 in
    let wake = ceil_divide (wake_delay_cycles * micros_per_second) internal_clock_min_hz in
    let start : Sums = record { settle_us = wake; conversion_us = 0; switch_us = 0 } in
    let mask = if is_sequential c.mode then c.channels else channels in
    let done = timing_loop c mask clock_min (channel_count_for c.variant) 0 start in
    let partial : FrameTiming = record no_frame_timing {
      wake_and_settle_us = done.1.settle_us;
      conversion_us = done.1.conversion_us;
    } in
    let full : FrameTiming = record partial {
      sequential_frame_us = add64 (add64 done.1.settle_us done.1.conversion_us) done.1.switch_us;
      acquisition_transfers = u8 (2 + 2 * popcount channels);
    } in
    if is_ok validation
    then (if is_empty channels || exceeds channels c.channels
        then (error Err.invalid_param, no_frame_timing)
        else if clock_min == 0
        then (error Err.invalid_config, no_frame_timing)
        else if is_ok done.0
        then (ok_status, full)
        else (done.0, partial))
    else (validation, no_frame_timing)
