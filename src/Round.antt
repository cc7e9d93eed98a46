-- ===== src/Round.antt =====
-- src/LDC1614.cpp: what the rounds of the two state machines share.
-- A round is one iteration of a `while` of `_pollInitializeOrApply` or `_pollAcquire`.
pub mod Apply
pub mod Acquire
pub mod Ends
pub mod Cost
use ldc.Base.{
  ℕ, zero, suc, ◌+◌, ◌-◌, ◌/◌, ◌^◌, Bool, true, false, ◌&&◌, ◌||◌, not, ltb, leb, ◌==◌, ◌!=◌,
  if◌then◌else◌, bit_or, u8, u32,
}
use ldc.Status.{Status, Err, is_ok, is_in_progress, ok_status, error, error_detail}
use ldc.Four
use ldc.Cmd
use ldc.Cmd.Reg
use ldc.Cmd.Mask
use ldc.Config.{Channel, channel_index, index_bit}
use ldc.Types.{
  AppliedConfigState, JobKind, JobPhase, TerminalOutcome, no_config_fault, has_effect,
  partial_write, indeterminate_write, read_side_effects, is_acquire, is_unknown, JobProgress,
}
use ldc.Registers.{advance_acquire_channel, transfer_failure_may_have_reached_device}
use ldc.Profile.{ConfigWrite, config_write_at, configuration_transfer_count}
use ldc.Decode.{decode_device_status, decode_channel_sample}
use ldc.Clock.{sub64}
use ldc.Driver.{Driver, add_effect, record_config_fault, configured_channel_count}
use ldc.Bus.{Bus, ReadResult, WriteResult, read_register, write_register}
use ldc.Jobs.{finish_job, abandon_writes}

-- How one round ends: `continue`, a `return` after a transfer, or a `return` without one.
pub data Round (W : Type 0) : Type 0 where
  again : Driver → W → Round W
  done : Status → Driver → W → Round W
  closed : Status → Driver → W → Round W

-- `_progress.phase`, `registerAddress` and `channel`.
abbrev pub at_register : JobPhase → ℕ → Channel → Driver → Driver
at_register phase reg channel d = record d {
  progress = record (d.progress) { phase = phase; register_address = reg; channel = channel };
}

-- `++_progress.completedTransfers`.
abbrev pub count_transfer : Driver → Driver
count_transfer d = record d {
  progress = record (d.progress) { completed_transfers = u8 (d.progress.completed_transfers + 1) };
}

abbrev pub finish : {W : Type 0} → TerminalOutcome → Status → ℕ → Driver → W → Round W
finish outcome status now d w = let r = finish_job outcome status now d in done r.0 r.1 w

-- A confirmed write.
abbrev pub confirm_write : JobPhase → ℕ → Channel → AppliedConfigState → Driver → Driver
confirm_write phase reg channel state d = record (add_effect partial_write d) {
  last_write_phase = phase;
  last_write_register = reg;
  last_write_channel = channel;
  applied_state = state;
  job_step = u8 (d.job_step + 1);
}
