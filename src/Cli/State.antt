-- ===== src/Cli/State.antt =====
-- examples/common/Ldc1614Cli.h: the state of the diagnostic command line, and its platform.
-- The driver is a member; what the class prints is left out, and so are the frequencies in double of
-- its channel statistics.
use ldc.Base.{ℕ, Bool, false, List}
use ldc.Status.{Status, ok_status}
use ldc.Config.{Config, ChannelMask}
use ldc.Types.{JobKind, OperationResult, SampleBatch, DeviceStatus, no_device_status}
use ldc.Driver.{Driver}
use ldc.Bus.{Bus}
use ldc.Cli.{CommandId}

pub data SessionKind : Type 0 where
  none probe discover dump_config dump_all verify watch sample_rate stress stress_mix : SessionKind
  stress_id stress_reset stress_bus_freq soak self_test : SessionKind

pub data SessionPhase : Type 0 where
  none wait_interval sample_ready wait_acquire probe_manufacturer probe_device : SessionPhase
  discover_manufacturer discover_device dump_register verify_register mix_status : SessionPhase
  mix_ready mix_intb mix_init_drive mix_acquire self_pure self_manufacturer self_device :
      SessionPhase
  self_status self_ready self_intb self_init_drive self_verify self_acquire : SessionPhase
  stress_id_manufacturer stress_id_device stress_reset_schedule stress_bus_freq_switch :
      SessionPhase
  stress_bus_freq_restore : SessionPhase

pub data OperationOwner : Type 0 where
  none command session : OperationOwner

pub record I2cBusInfo : Type 0 where
  pub open_bus : Bool
  pub port : ℕ
  pub sda : ℕ
  pub scl : ℕ
  pub sda_level : ℕ
  pub scl_level : ℕ
  pub address : ℕ
  pub frequency_hz : ℕ

abbrev pub no_bus_info : I2cBusInfo
no_bus_info = record {
  open_bus = false;
  port = 0xFF;
  sda = 0xFF;
  scl = 0xFF;
  sda_level = 0xFF;
  scl_level = 0xFF;
  address = 0;
  frequency_hz = 0;
}

pub record PendingOperation : Type 0 where
  pub owner : OperationOwner
  pub id : ℕ
  pub kind : JobKind
  pub command : CommandId
  pub started_ms : ℕ

abbrev pub no_pending_operation : PendingOperation
no_pending_operation = record {
  owner = OperationOwner.none;
  id = 0;
  kind = JobKind.none;
  command = CommandId.unknown;
  started_ms = 0;
}

pub record SessionStats : Type 0 where
  pub requested : ℕ
  pub completed : ℕ
  pub passed : ℕ
  pub failed : ℕ
  pub skipped : ℕ
  pub started_ms : ℕ
  pub latency_samples : ℕ
  pub latency_total_ms : ℕ
  pub minimum_latency_ms : ℕ
  pub maximum_latency_ms : ℕ
  pub has_failure : Bool
  pub first_failure : Status
  pub last_failure : Status

abbrev pub no_session_stats : SessionStats
no_session_stats = record {
  requested = 0;
  completed = 0;
  passed = 0;
  failed = 0;
  skipped = 0;
  started_ms = 0;
  latency_samples = 0;
  latency_total_ms = 0;
  minimum_latency_ms = 4294967295;
  maximum_latency_ms = 0;
  has_failure = false;
  first_failure = ok_status;
  last_failure = ok_status;
}

pub record DiagnosticSession : Type 0 where
  pub kind : SessionKind
  pub phase : SessionPhase
  pub command : CommandId
  pub id : ℕ
  pub channels : ChannelMask
  pub count : ℕ
  pub index : ℕ
  pub period_ms : ℕ
  pub next_due_ms : ℕ
  pub ready_deadline_ms : ℕ
  pub ready_checks : ℕ
  pub sample_ready_checks : ℕ
  pub channel : ℕ
  pub physical_channel : ℕ
  pub discovery_address : ℕ
  pub discovery_responding : ℕ
  pub discovery_matched : ℕ
  pub discovery_mismatched : ℕ
  pub discovery_failed : ℕ
  pub register_index : ℕ
  pub iteration_failed : Bool
  pub stop_requested : Bool
  pub manufacturer_id : ℕ
  pub device_id : ℕ
  pub initial_frequency_hz : ℕ
  pub active_frequency_hz : ℕ
  pub first_failure_iteration : ℕ
  pub restore_status : Status
  pub last_ready_status : DeviceStatus
  pub has_ready_status : Bool
  pub stats : SessionStats

abbrev pub no_session : DiagnosticSession
no_session = record {
  kind = SessionKind.none;
  phase = SessionPhase.none;
  command = CommandId.unknown;
  id = 0;
  channels = 0;
  count = 0;
  index = 0;
  period_ms = 0;
  next_due_ms = 0;
  ready_deadline_ms = 0;
  ready_checks = 0;
  sample_ready_checks = 0;
  channel = 0;
  physical_channel = 0;
  discovery_address = 0x2A;
  discovery_responding = 0;
  discovery_matched = 0;
  discovery_mismatched = 0;
  discovery_failed = 0;
  register_index = 0;
  iteration_failed = false;
  stop_requested = false;
  manufacturer_id = 0;
  device_id = 0;
  initial_frequency_hz = 0;
  active_frequency_hz = 0;
  first_failure_iteration = 4294967295;
  restore_status = ok_status;
  last_ready_status = no_device_status;
  has_ready_status = false;
  stats = no_session_stats;
}

pub data Outcome : Type 0 where
  success failed cancelled : Outcome

-- What `finishSession` prints: the session as it ends, the status and the outcome.
pub record Report : Type 0 where
  pub session : DiagnosticSession
  pub status : Status
  pub outcome : Outcome

-- The members of the class, the reports that it has printed, newest first, and the driver that it refers to.
pub record Cli : Type 0 where
  pub device : Driver
  pub next_operation_id : ℕ
  pub next_session_id : ℕ
  pub pending : PendingOperation
  pub session : DiagnosticSession
  pub last_result : OperationResult
  pub last_batch : SampleBatch
  pub has_last_result : Bool
  pub has_last_batch : Bool
  pub staged_config : Config
  pub staged_initialized : Bool
  pub staged_dirty : Bool
  pub verbose : Bool
  pub prompt_deferred : Bool
  pub last_now_ms : ℕ
  pub reports : List Report

-- The callbacks of the platform, with which of them are not nullptr. A reading changes no world.
pub record Platform (W : Type 0) : Type 0 where
  pub bus : Bus W
  pub has_now_ms : Bool
  pub now_ms : W → ℕ
  pub has_i2c_bus_info : Bool
  pub i2c_bus_info : W → I2cBusInfo
  pub has_i2c_set_frequency : Bool
  pub i2c_set_frequency : ℕ → W → Status × W
