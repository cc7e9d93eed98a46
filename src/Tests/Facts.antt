-- ===== src/Tests/Facts.antt =====
-- What holds of the concrete driver of the tests, by evaluation.
use ldc.Base.{◌≡◌, refl, true, arith, [], ◌∷◌}
use ldc.Status.{is_ok}
use ldc.Clock.{reference_clock_bounds_hz, ceil_divide, deglitch_bandwidth_hz}
use ldc.Validate.{
  validate_config, check_transport, check_clock, check_mode, check_channels, check_channel,
  check_registers, check_sensor, check_timing,
}
use ldc.Profile.{configuration_transfer_count}
use ldc.Driver.{initial, clear_active_job, operation_id_in_use}
use ldc.Jobs.{start_initialize, start_job, first_phase}
use ldc.Lifecycle.{bind}
use ldc.Api.{run, step, binds, initializes}
use ldc.Invariant.{Inv}
use ldc.Tests.Fixtures.{profile, counting_bus, started}

pub profile-is_ok : is_ok (validate_config profile) ≡ true
unfolding is_ok validate_config check_transport check_clock check_mode check_channels check_channel
    check_registers check_sensor deglitch_bandwidth_hz check_timing reference_clock_bounds_hz
    ceil_divide
profile-is_ok = refl

-- The driver is the one that `bind` and `startInitialize` leave.
started_reached : (run counting_bus (binds profile ∷ initializes 7 100 ∷ []) initial 0).0 ≡ started
unfolding run step bind start_initialize start_job first_phase clear_active_job operation_id_in_use
    configuration_transfer_count is_ok validate_config check_transport check_clock check_mode
    check_channels check_channel check_registers check_sensor deglitch_bandwidth_hz check_timing
    reference_clock_bounds_hz ceil_divide
started_reached = refl

pub started-Inv : Inv started
unfolding configuration_transfer_count
started-Inv = ground (arith, profile-is_ok)
