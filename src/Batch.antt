-- ===== src/Batch.antt =====
-- src/LDC1614.cpp, `_buildAcquisition`: the published batch from the scratch of an acquisition.
pub mod Masks
pub mod Quality
use ldc.Base.{
  ℕ, zero, suc, ◌+◌, Bool, ◌&&◌, ◌||◌, not, ◌==◌, if◌then◌else◌, bit_and, bit_or, bit_xor, has_bits,
}
use ldc.Four
use ldc.Cmd.Mask
use ldc.Config.{channel_index, index_bit}
use ldc.Types.{
  DeviceStatus, has_error, ChannelSample, SampleBatch, no_sample_batch, SampleQualityFlags, fresh,
  stale, under_range, over_range, watchdog, amplitude_suspect, zero_count, data_lost,
}
use ldc.Profile.{or_when}
use ldc.Driver.{Driver, configured_channel_count}

-- `quality &= ~flag` on a uint16_t.
abbrev pub clear_when : Bool → SampleQualityFlags → SampleQualityFlags → SampleQualityFlags
clear_when b flag q = if b then bit_and q (bit_xor 0xFFFF flag) else q

-- Freshness, and the raw endpoints that count only where silicon reports them.
unfoldable pub fresh_quality : Bool → ChannelSample → SampleQualityFlags
fresh_quality is_fresh s =
    let q1 = bit_or s.quality stale in
    let q2 = clear_when (not (has_bits s.raw_data_msb Mask.data_err_ur)) under_range q1 in
    let q3 = clear_when (not (has_bits s.raw_data_msb Mask.data_err_or)) over_range q2 in
    if is_fresh then bit_or s.quality fresh else q3

-- The errors of STATUS-before, where they name the channel.
unfoldable pub status_quality : Bool → DeviceStatus → SampleQualityFlags → SampleQualityFlags
status_quality applies s q =
    let q1 = or_when s.error_under_range under_range q in
    let q2 = or_when s.error_over_range over_range q1 in
    let q3 = or_when s.error_watchdog watchdog q2 in
    let q4 = or_when (s.error_amplitude_high || s.error_amplitude_low) amplitude_suspect q3 in
    let q5 = or_when s.error_zero_count zero_count q4 in if applies then q5 else q

abbrev pub invalid_flags : SampleQualityFlags
invalid_flags =
    bit_or
      (bit_or (bit_or (bit_or (bit_or stale under_range) over_range) watchdog) amplitude_suspect)
      zero_count

abbrev pub error_flags : SampleQualityFlags
error_flags = bit_and invalid_flags (bit_xor 0xFFFF stale)

-- The comparison `errorChannel == static_cast<Channel>(index)`.
abbrev pub status_applies : DeviceStatus → ℕ → Bool
status_applies s index = has_error s && channel_index s.error_channel == index

unfoldable pub final_quality : Driver → SampleBatch → ℕ → SampleQualityFlags
final_quality d b index =
    let s = Four.get d.scratch_samples index in
    let bit = index_bit index in
    let before = d.scratch_status_before in
    let q1 = fresh_quality (has_bits b.fresh_channels bit) s in
    let q2 = status_quality (status_applies before index) before q1 in
    or_when (has_bits b.overrun_channels bit) data_lost q2

-- One round of the loop, for a selected channel.
unfoldable pub publish_channel : Driver → ℕ → SampleBatch → SampleBatch
publish_channel d index b =
    let q = final_quality d b index in
    let s = Four.get d.scratch_samples index in
    record b {
      valid_channels = or_when (not (has_bits q invalid_flags)) (index_bit index) b.valid_channels;
      error_channels = or_when (has_bits q error_flags) (index_bit index) b.error_channels;
      channel = Four.set b.channel index (record s { quality = q });
    }

-- The loop over the physical channels, with the rounds left.
unfoldable pub publish_channels : Driver → ℕ → ℕ → SampleBatch → SampleBatch
publish_channels d zero index b = b
publish_channels d (suc rounds) index b =
    publish_channels d rounds (index + 1)
      (if has_bits b.selected_channels (index_bit index) then publish_channel d index b else b)

-- The batch before the loop.
unfoldable pub batch_header : Driver → ℕ → SampleBatch
batch_header d completed_uptime_ms =
    let selected = d.progress.requested_channels in
    record no_sample_batch {
      selected_channels = selected;
      status_before = d.scratch_status_before;
      status_after = d.scratch_status_after;
      completed_uptime_ms = completed_uptime_ms;
      config_revision = d.config_revision;
      fresh_channels = bit_and d.scratch_status_before.unread_channels selected;
      overrun_channels = bit_and d.scratch_status_after.unread_channels selected;
    }

unfoldable pub build_acquisition : Driver → ℕ → SampleBatch
build_acquisition d completed_uptime_ms =
    publish_channels d (configured_channel_count d) 0 (batch_header d completed_uptime_ms)
