-- ===== src/Types.antt =====
-- include/LDC1614/LDC1614.h: the enumerations, snapshots and results of the driver, with the
-- defaults of every member.
use ldc.Base.{ℕ, Bool, true, false, ◌||◌, has_bits}
use ldc.Status.{Status, ok_status}
use ldc.Four.{Four, four}
use ldc.Config.{Channel, ChannelMask}

pub data AppliedConfigState : Type 0 where
  unknown applying applied_sleeping applied_active dirty : AppliedConfigState

pub data JobKind : Type 0 where
  none initialize apply_config reset_and_reapply acquire : JobKind

pub data JobPhase : Type 0 where
  none verify_manufacturer verify_device force_sleep write_rcount write_settlecount : JobPhase
  write_clock_dividers write_offset write_drive_current write_error_config write_mux_config :
      JobPhase
  write_final_config software_reset read_status_before read_data_msb read_data_lsb : JobPhase
  read_status_after : JobPhase

pub data TerminalOutcome : Type 0 where
  none success failed cancelled timed_out : TerminalOutcome

abbrev pub is_acquire : JobKind → Bool
is_acquire JobKind.acquire = true
is_acquire _ = false

abbrev pub is_success : TerminalOutcome → Bool
is_success TerminalOutcome.success = true
is_success _ = false

abbrev pub is_unknown : AppliedConfigState → Bool
is_unknown AppliedConfigState.unknown = true
is_unknown _ = false

abbrev pub is_sleeping : AppliedConfigState → Bool
is_sleeping AppliedConfigState.applied_sleeping = true
is_sleeping _ = false

abbrev pub is_active : AppliedConfigState → Bool
is_active AppliedConfigState.applied_active = true
is_active _ = false

-- `EffectFlag`, a uint8_t of bits.
abbrev pub EffectFlags : Type 0
EffectFlags = ℕ

abbrev pub read_side_effects : EffectFlags
read_side_effects = 1

abbrev pub partial_write : EffectFlags
partial_write = 2

abbrev pub indeterminate_write : EffectFlags
indeterminate_write = 4

abbrev pub has_effect : EffectFlags → EffectFlags → Bool
has_effect flags flag = has_bits flags flag

pub record ConfigFault : Type 0 where
  pub valid : Bool
  pub cause : Status
  pub job : JobKind
  pub phase : JobPhase
  pub register_address : ℕ
  pub channel : Channel
  pub effects : EffectFlags

abbrev pub no_config_fault : ConfigFault
no_config_fault = record {
  valid = false;
  cause = ok_status;
  job = JobKind.none;
  phase = JobPhase.none;
  register_address = 0xFF;
  channel = Channel.none;
  effects = 0;
}

pub record DeviceStatus : Type 0 where
  pub observed : Bool
  pub error_channel : Channel
  pub error_under_range : Bool
  pub error_over_range : Bool
  pub error_watchdog : Bool
  pub error_amplitude_high : Bool
  pub error_amplitude_low : Bool
  pub error_zero_count : Bool
  pub data_ready : Bool
  pub unread_channels : ChannelMask
  pub raw : ℕ

abbrev pub no_device_status : DeviceStatus
no_device_status = record {
  observed = false;
  error_channel = Channel.none;
  error_under_range = false;
  error_over_range = false;
  error_watchdog = false;
  error_amplitude_high = false;
  error_amplitude_low = false;
  error_zero_count = false;
  data_ready = false;
  unread_channels = 0;
  raw = 0;
}

abbrev pub has_error : DeviceStatus → Bool
has_error s =
    s.error_under_range || s.error_over_range || s.error_watchdog || s.error_amplitude_high
    || s.error_amplitude_low || s.error_zero_count

-- `SampleQualityFlag`, a uint16_t of bits.
abbrev pub SampleQualityFlags : Type 0
SampleQualityFlags = ℕ

abbrev pub fresh : SampleQualityFlags
fresh = 1

abbrev pub stale : SampleQualityFlags
stale = 2

abbrev pub under_range : SampleQualityFlags
under_range = 4

abbrev pub over_range : SampleQualityFlags
over_range = 8

abbrev pub watchdog : SampleQualityFlags
watchdog = 16

abbrev pub amplitude_suspect : SampleQualityFlags
amplitude_suspect = 32

abbrev pub zero_count : SampleQualityFlags
zero_count = 64

abbrev pub data_lost : SampleQualityFlags
data_lost = 128

pub record ChannelSample : Type 0 where
  pub raw_count28 : ℕ
  pub raw_data_msb : ℕ
  pub raw_data_lsb : ℕ
  pub quality : SampleQualityFlags

abbrev pub no_channel_sample : ChannelSample
no_channel_sample = record { raw_count28 = 0; raw_data_msb = 0; raw_data_lsb = 0; quality = 0 }

pub record SampleBatch : Type 0 where
  pub selected_channels : ChannelMask
  pub valid_channels : ChannelMask
  pub fresh_channels : ChannelMask
  pub error_channels : ChannelMask
  pub overrun_channels : ChannelMask
  pub status_before : DeviceStatus
  pub status_after : DeviceStatus
  pub channel : Four ChannelSample
  pub completed_uptime_ms : ℕ
  pub config_revision : ℕ

abbrev pub no_sample_batch : SampleBatch
no_sample_batch = record {
  selected_channels = 0;
  valid_channels = 0;
  fresh_channels = 0;
  error_channels = 0;
  overrun_channels = 0;
  status_before = no_device_status;
  status_after = no_device_status;
  channel = four no_channel_sample;
  completed_uptime_ms = 0;
  config_revision = 0;
}

pub record JobProgress : Type 0 where
  pub active : Bool
  pub operation_id : ℕ
  pub kind : JobKind
  pub phase : JobPhase
  pub register_address : ℕ
  pub channel : Channel
  pub deadline_ms : ℕ
  pub completed_transfers : ℕ
  pub maximum_transfers : ℕ
  pub requested_channels : ChannelMask
  pub completed_channels : ChannelMask
  pub effects : EffectFlags
  pub config_revision : ℕ

abbrev pub no_job_progress : JobProgress
no_job_progress = record {
  active = false;
  operation_id = 0;
  kind = JobKind.none;
  phase = JobPhase.none;
  register_address = 0xFF;
  channel = Channel.none;
  deadline_ms = 0;
  completed_transfers = 0;
  maximum_transfers = 0;
  requested_channels = 0;
  completed_channels = 0;
  effects = 0;
  config_revision = 0;
}

pub record OperationResult : Type 0 where
  pub operation_id : ℕ
  pub kind : JobKind
  pub outcome : TerminalOutcome
  pub status : Status
  pub effects : EffectFlags
  pub config_fault : ConfigFault
  pub config_revision : ℕ
  pub completed_uptime_ms : ℕ
  pub final_progress : JobProgress
  pub has_sample_batch : Bool
  pub sample_batch : SampleBatch

abbrev pub no_operation_result : OperationResult
no_operation_result = record {
  operation_id = 0;
  kind = JobKind.none;
  outcome = TerminalOutcome.none;
  status = ok_status;
  effects = 0;
  config_fault = no_config_fault;
  config_revision = 0;
  completed_uptime_ms = 0;
  final_progress = no_job_progress;
  has_sample_batch = false;
  sample_batch = no_sample_batch;
}

pub record TransportStats : Type 0 where
  pub total_attempts : ℕ
  pub total_success : ℕ
  pub total_failures : ℕ
  pub last_status : Status

abbrev pub no_transport_stats : TransportStats
no_transport_stats = record {
  total_attempts = 0;
  total_success = 0;
  total_failures = 0;
  last_status = ok_status;
}

pub record FrameTiming : Type 0 where
  pub wake_and_settle_us : ℕ
  pub conversion_us : ℕ
  pub sequential_frame_us : ℕ
  pub acquisition_transfers : ℕ

abbrev pub no_frame_timing : FrameTiming
no_frame_timing = record {
  wake_and_settle_us = 0;
  conversion_us = 0;
  sequential_frame_us = 0;
  acquisition_transfers = 0;
}
