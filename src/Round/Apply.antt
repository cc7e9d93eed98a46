-- ===== src/Round/Apply.antt =====
-- src/LDC1614.cpp: one round of `_pollInitializeOrApply`: the reset, the identity reads, the replay.
use ldc.Base.{ℕ, ◌+◌, ◌-◌, Bool, ◌&&◌, ◌||◌, not, ltb, leb, ◌==◌, ◌!=◌, if◌then◌else◌, u8}
use ldc.Status.{Status, Err, is_ok, ok_status, error_detail}
use ldc.Cmd
use ldc.Cmd.Reg
use ldc.Cmd.Mask
use ldc.Config.{Channel}
use ldc.Types.{
  AppliedConfigState, JobKind, JobPhase, TerminalOutcome, no_config_fault, has_effect,
  partial_write, indeterminate_write, is_unknown,
}
use ldc.Registers.{transfer_failure_may_have_reached_device}
use ldc.Profile.{config_write_at, configuration_transfer_count}
use ldc.Driver.{Driver, add_effect, record_config_fault, configured_channel_count}
use ldc.Bus.{Bus, read_register, write_register}
use ldc.Jobs.{finish_job}
use ldc.Round.{Round, again, closed, at_register, count_transfer, finish, confirm_write}

-- A failed write: what it leaves of the trust in the device, before the job fails.
unfoldable pub failed_write : Status → JobPhase → ℕ → Channel → AppliedConfigState → Driver → Driver
failed_write status phase reg channel state d =
    let reached = transfer_failure_may_have_reached_device status in
    let marked = if reached then add_effect indeterminate_write d else d in
    if reached || has_effect marked.progress.effects partial_write
    then record_config_fault status phase reg channel marked.progress.effects
        (record marked { applied_state = state })
    else marked

-- An identity register: its address, its value, and the phase.
pub record IdentityStep : Type 0 where
  pub reg : ℕ
  pub expected : ℕ
  pub phase : JobPhase

abbrev pub identity_step_at : ℕ → IdentityStep
identity_step_at i =
    if i == 0
    then record {
      reg = Reg.manufacturer_id;
      expected = Cmd.manufacturer_id_value;
      phase = JobPhase.verify_manufacturer;
    }
    else record {
      reg = Reg.device_id;
      expected = Cmd.device_id_value;
      phase = JobPhase.verify_device;
    }

-- `applyOffset`: the steps before the replay.
abbrev pub apply_offset : JobKind → Bool → ℕ
apply_offset JobKind.initialize reset_first = 2
apply_offset _ reset_first = if reset_first then 3 else 0

module _ {W : Type 0} (bus : Bus W) where
  unfoldable pub reset_round : ℕ → ℕ → Driver → W → Round W
  reset_round now timeout d w =
      let at_reset = at_register JobPhase.software_reset Reg.reset_dev Channel.none d in
      let t = write_register bus Reg.reset_dev Mask.reset_dev timeout at_reset w in
      let counted = count_transfer t.driver in
      let confirmed =
        confirm_write JobPhase.software_reset Reg.reset_dev Channel.none AppliedConfigState.unknown
          counted in
      let next = record confirmed {
        progress = record (confirmed.progress) {
          phase = JobPhase.verify_manufacturer;
          register_address = Reg.manufacturer_id;
        };
      } in
      if is_ok t.status
      then again next t.world
      else finish TerminalOutcome.failed t.status now
          (failed_write t.status JobPhase.software_reset Reg.reset_dev Channel.none
            AppliedConfigState.unknown counted)
          t.world

  unfoldable pub identity_round : ℕ → ℕ → ℕ → Driver → W → Round W
  identity_round now timeout index d w =
      let step = identity_step_at index in
      let t =
        read_register bus step.reg timeout (at_register step.phase step.reg Channel.none d) w in
      let counted = count_transfer t.driver in
      let distrusted = record counted { applied_state = AppliedConfigState.unknown } in
      let fail = λ (status : Status).
        finish TerminalOutcome.failed status now
          (record_config_fault status step.phase step.reg Channel.none counted.progress.effects
            distrusted)
          t.world in
      let more = ltb (index + 1) 2 in
      let next = record counted {
        applied_state =
            if step.reg == Reg.device_id && is_unknown counted.applied_state
            then AppliedConfigState.dirty
            else counted.applied_state;
        job_step = u8 (counted.job_step + 1);
        progress = record (counted.progress) {
          phase = if more then JobPhase.verify_device else JobPhase.force_sleep;
          register_address = if more then Reg.device_id else Reg.config;
        };
      } in
      if not (is_ok t.status)
      then fail t.status
      else if t.value != step.expected
      then fail (error_detail Err.device_not_found t.value)
      else again next t.world

  -- The replay of the profile: step `apply_step` of `config_write_at`.
  unfoldable pub replay_round : ℕ → ℕ → ℕ → Driver → W → Round W
  replay_round now timeout apply_step d w =
      let count = configured_channel_count d in
      let write = config_write_at d.config count apply_step in
      let applied = λ (d : Driver). record d {
        applied_state = AppliedConfigState.applied_sleeping;
        config_fault = no_config_fault;
      } in
      let closing = finish_job TerminalOutcome.success ok_status now (applied d) in
      let at_write = at_register write.phase write.reg write.channel d in
      let t = write_register bus write.reg write.value timeout at_write w in
      let counted = count_transfer t.driver in
      let confirmed =
        confirm_write write.phase write.reg write.channel AppliedConfigState.applying counted in
      let next_write = config_write_at d.config count (u8 (apply_step + 1)) in
      if not write.valid
      then closed closing.0 closing.1 w
      else if not (is_ok t.status)
      then finish TerminalOutcome.failed t.status now
          (failed_write t.status write.phase write.reg write.channel AppliedConfigState.dirty
            counted)
          t.world
      else if leb (configuration_transfer_count count) (u8 (apply_step + 1))
      then finish TerminalOutcome.success ok_status now (applied confirmed) t.world
      else again (at_register next_write.phase next_write.reg next_write.channel confirmed) t.world

  -- One iteration of the loop of `_pollInitializeOrApply`.
  unfoldable pub apply_round : JobKind → Bool → ℕ → ℕ → Driver → W → Round W
  apply_round kind reset_first now timeout d w =
      let offset = apply_offset kind reset_first in
      let step = d.job_step in
      if reset_first && step == 0
      then reset_round now timeout d w
      else if offset != 0 && leb (offset - 2) step && ltb step offset
      then identity_round now timeout (u8 (step - (offset - 2))) d w
      else replay_round now timeout (u8 (step - offset)) d w
