-- ===== src/Driver.antt =====
-- src/LDC1614.cpp and the private part of include/LDC1614/LDC1614.h: the state of the driver, and
-- the private helpers that no transfer is part of.
use ldc.Base.{ℕ, ◌+◌, ◌%◌, Bool, true, false, ◌&&◌, ◌||◌, ltb, ◌==◌, if◌then◌else◌, bit_or, u8}
use ldc.Status.{Status}
use ldc.Four.{Four, four}
use ldc.Config.{Config, Channel, ChannelMask, default_config}
use ldc.Types.{
  AppliedConfigState, JobPhase, EffectFlags, ConfigFault, no_config_fault, DeviceStatus,
  no_device_status, ChannelSample, no_channel_sample, JobProgress, no_job_progress, OperationResult,
  no_operation_result, TransportStats, no_transport_stats,
}
use ldc.Registers.{channel_count_for}

-- `_results[RESULT_CAPACITY]`. Every index that the driver forms is below 2.
pub record Slots : Type 0 where
  pub slot0 : OperationResult
  pub slot1 : OperationResult

abbrev pub result_capacity : ℕ
result_capacity = 2

abbrev pub get_slot : Slots → ℕ → OperationResult
get_slot s i = if i == 0 then s.slot0 else s.slot1

abbrev pub set_slot : Slots → ℕ → OperationResult → Slots
set_slot s i r = if i == 0 then record s { slot0 = r } else record s { slot1 = r }

abbrev pub no_results : Slots
no_results = record { slot0 = no_operation_result; slot1 = no_operation_result }

pub record Driver : Type 0 where
  pub config : Config
  pub bound : Bool
  pub applied_state : AppliedConfigState
  pub config_revision : ℕ
  pub config_fault : ConfigFault
  pub transport_stats : TransportStats
  pub progress : JobProgress
  pub job_step : ℕ
  pub job_channel : Channel
  pub last_write_phase : JobPhase
  pub last_write_register : ℕ
  pub last_write_channel : Channel
  pub scratch_msb : ℕ
  pub scratch_status_before : DeviceStatus
  pub scratch_status_after : DeviceStatus
  pub scratch_samples : Four ChannelSample
  pub scratch_completed : ChannelMask
  pub results : Slots
  pub result_head : ℕ
  pub result_count : ℕ

abbrev pub invalid_register : ℕ
invalid_register = 0xFF

-- A driver before its first `bind`.
abbrev pub initial : Driver
initial = record {
  config = default_config;
  bound = false;
  applied_state = AppliedConfigState.unknown;
  config_revision = 0;
  config_fault = no_config_fault;
  transport_stats = no_transport_stats;
  progress = no_job_progress;
  job_step = 0;
  job_channel = Channel.none;
  last_write_phase = JobPhase.none;
  last_write_register = invalid_register;
  last_write_channel = Channel.none;
  scratch_msb = 0;
  scratch_status_before = no_device_status;
  scratch_status_after = no_device_status;
  scratch_samples = four no_channel_sample;
  scratch_completed = 0;
  results = no_results;
  result_head = 0;
  result_count = 0;
}

unfoldable pub clear_active_job : Driver → Driver
clear_active_job d = record d {
  progress = no_job_progress;
  job_step = 0;
  job_channel = Channel.none;
  last_write_phase = JobPhase.none;
  last_write_register = invalid_register;
  last_write_channel = Channel.none;
  scratch_msb = 0;
  scratch_status_before = no_device_status;
  scratch_status_after = no_device_status;
  scratch_completed = 0;
  scratch_samples = four no_channel_sample;
}

-- The loop of `_operationIdInUse` runs over at most the two slots.
unfoldable pub operation_id_in_use : Driver → ℕ → Bool
operation_id_in_use d id =
    (d.progress.active && d.progress.operation_id == id)
    || (ltb 0 d.result_count
        && (get_slot d.results (u8 ((d.result_head + 0) % result_capacity))).operation_id == id)
    || (ltb 1 d.result_count
        && (get_slot d.results (u8 ((d.result_head + 1) % result_capacity))).operation_id == id)

abbrev pub reserve_result_slot : Driver → Bool
reserve_result_slot d = ltb d.result_count result_capacity

abbrev pub configured_channel_count : Driver → ℕ
configured_channel_count d = channel_count_for d.config.variant

abbrev pub record_config_fault : Status → JobPhase → ℕ → Channel → EffectFlags → Driver → Driver
record_config_fault cause phase reg channel effects d = record d {
  config_fault = record {
    valid = true;
    cause = cause;
    job = d.progress.kind;
    phase = phase;
    register_address = reg;
    channel = channel;
    effects = effects;
  };
}

-- `_progress.effects |= flag`.
abbrev pub add_effect : EffectFlags → Driver → Driver
add_effect flag d = record d {
  progress = record (d.progress) { effects = bit_or d.progress.effects flag };
}
