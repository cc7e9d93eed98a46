-- ===== src/Tests/Trusting.antt =====
-- A device with a register memory, on which an applied state can be trusted.
use ldc.Base.{ℕ, ap, ◌∙◌, ◌≡◌, ◌||◌, ◌==◌, refl, true, if◌then◌else◌, List, [], ◌∷◌, arith}
use ldc.Status.{ok_status, is_ok}
use ldc.Types.{AppliedConfigState, is_sleeping, is_active}
use ldc.Registers.{transfer_failure_may_have_reached_device}
use ldc.Bus.{Bus}
use ldc.Driver.{initial}
use ldc.Api.{Call, run, step, binds, initializes, polls}
use ldc.Status.{is_in_progress}
use ldc.Clock.{reference_clock_bounds_hz, ceil_divide, deglitch_bandwidth_hz}
use ldc.Validate.{
  validate_config, check_transport, check_clock, check_mode, check_channels, check_channel,
  check_registers, check_sensor, check_timing,
}
use ldc.Profile.{
  configuration_transfer_count, config_write_at, channel_write, build_config_register,
  build_mux_config_register, encode_error_reporting, configuration_comparison_mask,
}
use ldc.Driver.{clear_active_job, operation_id_in_use}
use ldc.Bus.{tracked, read_register, write_register}
use ldc.Registers.{
  configuration_channel_for_register, configuration_phase_for_register, is_ldc1614_only_register,
}
use ldc.Jobs.{start_initialize, start_job, first_phase, finish_job, push_result, terminal_result}
use ldc.Lifecycle.{bind}
use ldc.Round.Apply.{apply_round, identity_round, replay_round, failed_write}
use ldc.Poll.{
  poll, poll_budget, poll_timeout, poll_loop, machine, due_or_past, poll_initialize_or_apply,
  run_rounds,
}
use ldc.Cmd.Reg
use ldc.Config.{Config}
use ldc.Direct.{expected_configuration_register, expected_from}
use ldc.Trust.Verify.{Matches, run-Matches}
use ldc.Trust.{IsFaithful, Trusted}
use ldc.Trust.Calls.{run-Trusted}
use ldc.Tests.Fixtures.{answer, first_acquisition, profile}

-- A write of a register's bytes.
abbrev store : List ℕ → (ℕ → List ℕ) → ℕ → List ℕ
store [] w r = w r
store (reg ∷ bytes) w r = if r == reg then bytes else w r

abbrev memory_bus : Bus (ℕ → List ℕ)
memory_bus = record {
  i2c_write = λ f a tx t u w. (ok_status, store tx w);
  i2c_write_read = λ f a tx t u w. (ok_status, answer tx, w);
  intb_asserted = λ f u w. (ok_status, true, w);
}

memory_bus-IsFaithful : IsFaithful memory_bus (λ w. w)
unfolding transfer_failure_may_have_reached_device
memory_bus-IsFaithful = record {
  accepts = λ f a reg bytes t u w ok n r. refl;
  refuses = λ f a tx t u w h. absurd (ground arith);
  reads = λ f a tx t u w r. refl;
  observes = λ f u w r. refl;
}

run-Trusted_example :
    let r = run memory_bus first_acquisition initial (λ r. []) in
    Trusted r.1 r.0.applied_state r.0.config
run-Trusted_example =
    run-Trusted memory_bus (λ w. w) memory_bus-IsFaithful first_acquisition (λ r. []) (omega arith)

-- A client that binds the profile and applies it.
abbrev application : List Call
application = binds profile ∷ initializes 7 100 ∷ polls 0 30 ∷ []

application_applies :
    let r = (run memory_bus application initial (λ r. [])).0 in
    (r.bound ≡ true)
    × (r.applied_state ≡ AppliedConfigState.applied_sleeping)
    × (r.config ≡ profile)
unfolding run step bind start_initialize start_job first_phase clear_active_job operation_id_in_use
    configuration_transfer_count is_ok is_in_progress validate_config check_transport check_clock
    check_mode check_channels check_channel check_registers check_sensor deglitch_bandwidth_hz
    check_timing reference_clock_bounds_hz ceil_divide poll poll_budget poll_timeout poll_loop
    machine due_or_past poll_initialize_or_apply run_rounds apply_round identity_round replay_round
    config_write_at channel_write write_register read_register tracked failed_write
    is_ldc1614_only_register configuration_phase_for_register build_config_register
    build_mux_config_register encode_error_reporting finish_job push_result
    configuration_channel_for_register terminal_result
application_applies = (refl, refl, refl)

dividers_expected : is_ok (expected_configuration_register profile Reg.clock_dividers0).0 ≡ true
unfolding is_ok expected_configuration_register expected_from configuration_transfer_count
    config_write_at channel_write validate_config check_transport check_clock check_mode
    check_channels check_channel check_registers check_sensor deglitch_bandwidth_hz check_timing
    reference_clock_bounds_hz ceil_divide configuration_comparison_mask
dividers_expected = refl

run-Matches_example :
    let r = run memory_bus application initial (λ r. []) in
    Matches r.1 Reg.clock_dividers0 (expected_configuration_register r.0.config Reg.clock_dividers0)
run-Matches_example =
    run-Matches memory_bus (λ w. w) memory_bus-IsFaithful application (λ r. []) Reg.clock_dividers0
      (omega arith) application_applies.0
      (ap (λ (a : AppliedConfigState). is_sleeping a || is_active a) application_applies.1)
      (ap (λ (c : Config). is_ok (expected_configuration_register c Reg.clock_dividers0).0)
          application_applies.2
        ∙ dividers_expected)
