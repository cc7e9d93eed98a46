-- ===== src/Cli.antt =====
-- examples/common/Ldc1614Cli.h and .cpp: the diagnostic command line over the driver.
pub mod Text
pub mod Table
pub mod Resolve
pub mod Words
pub mod Arguments
pub mod Number
pub mod Digits
pub mod State
pub mod Schedule
pub mod Sessions
pub mod Identity
pub mod BusStress
pub mod Verify
pub mod Transfers
pub mod Admission
pub mod Restore
pub mod Access
pub mod Sampling
pub mod Staged
pub mod Stop
use ldc.Base.{ℕ}

pub data CommandId : Type 0 where
  help version color verbose bus bind end init apply reset_reapply sleep wake cancel : CommandId
  job result invalidate bus_recover bus_freq read last watch sample_rate ready status : CommandId
  status_raw intb init_drive cfg profile addr variant mode refclk deglitch activation : CommandId
  timeout rp autoamp high_current intb_config errors error rcount settle fin_div : CommandId
  fref_div offset drive sensor_bounds probe discover dump verify reg wreg decode freq : CommandId
  timing drive_ua driver state diag xfer selftest stress stress_mix stress_id : CommandId
  stress_reset stress_bus_freq soak sd unknown : CommandId

pub data HelpSection : Type 0 where
  common lifecycle measurements configuration registers_and_helpers diagnostics : HelpSection

pub data CommandSafety : Type 0 where
  safe confirm_mutation confirm_destructive_read build_profile_only : CommandSafety

pub data ExecutionKind : Type 0 where
  cache_only pure one_transfer core_job cli_job owner_bus lifecycle : ExecutionKind

pub data FixtureRequirement : Type 0 where
  any no_sensor_ok sensor_required intb_wired sd_wired drive_tuning : FixtureRequirement
