-- ===== src/Invariant.antt =====
-- What holds of the driver between any two calls of its public interface.
pub mod Pending
pub mod Rounds
pub mod Frame
pub mod Polls
pub mod Calls
pub mod Queue
pub mod Budget
pub mod Owed
pub mod Reports
pub mod Outcome
use ldc.Base.{ℕ, ◌+◌, ◌*◌, ◌≤◌, ◌<◌, ◌≡◌, ◌≢◌, Bool, true, false, min, has_bits}
use ldc.Status.{is_ok}
use ldc.Config.{Channel, channel_index, index_bit}
use ldc.Types.{JobPhase, is_acquire}
use ldc.Validate.{validate_config}
use ldc.Profile.{configuration_transfer_count}
use ldc.Registers.{channel_count_for}
use ldc.Driver.{Driver, configured_channel_count}
use ldc.Round.Apply.{apply_offset}
use ldc.Bus.{u32_max}
use ldc.Poll.{is_reset}
use Pending.{acquire_pending, IsAimed}

-- The queue is in range, and an active job has a slot reserved.
pub record QueueInv (d : Driver) : Type 0 where
  pub head : d.result_head < 2
  pub count : d.result_count ≤ 2
  pub reserved : d.progress.active ≡ true → d.result_count < 2

-- A bound driver has a valid profile, and only a bound one has a job, with a nonzero id.
pub record BindInv (d : Driver) : Type 0 where
  pub valid : d.bound ≡ true → is_ok (validate_config d.config) ≡ true
  pub masked : d.bound ≡ true → d.config.channels < 16
  pub admitted : d.progress.active ≡ true → d.bound ≡ true
  pub named : d.progress.active ≡ true → d.progress.operation_id ≢ 0
  pub revision : d.config_revision ≤ u32_max

-- The transfers of an active job: those made and those still to make are the bound of its
-- admission, and at least one is still to make.
pub record JobInv (d : Driver) : Type 0 where
  pub replays :
      d.progress.active ≡ true
      → is_acquire d.progress.kind ≡ false
      → (d.progress.completed_transfers ≡ d.job_step)
        × (d.job_step < d.progress.maximum_transfers)
        × (d.progress.maximum_transfers
            ≡ apply_offset d.progress.kind (is_reset d.progress.kind)
              + configuration_transfer_count (configured_channel_count d))
  pub acquires :
      d.progress.active ≡ true
      → is_acquire d.progress.kind ≡ true
      → (d.progress.completed_transfers
            + acquire_pending d.progress.phase d.progress.requested_channels d.job_channel
          ≡ d.progress.maximum_transfers)
        × (0 < acquire_pending d.progress.phase d.progress.requested_channels d.job_channel)
        × (d.progress.maximum_transfers ≤ 10)
        × IsAimed d.progress.phase d.progress.requested_channels d.job_channel

pub record Inv (d : Driver) : Type 0 where
  pub queue : QueueInv d
  pub binding : BindInv d
  pub job : JobInv d

-- The counters saturate together.
pub record StatsInv (d : Driver) : Type 0 where
  pub attempts :
      d.transport_stats.total_attempts
      ≡ min u32_max (d.transport_stats.total_success + d.transport_stats.total_failures)
  pub success : d.transport_stats.total_success ≤ u32_max
  pub failures : d.transport_stats.total_failures ≤ u32_max
