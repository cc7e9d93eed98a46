-- ===== src/Round/Acquire.antt =====
-- src/LDC1614.cpp: one round of `_pollAcquire`: STATUS, the DATAx pairs, STATUS again.
use ldc.Base.{ℕ, if◌then◌else◌, bit_or}
use ldc.Status.{Err, is_ok, ok_status, error}
use ldc.Four
use ldc.Cmd
use ldc.Cmd.Reg
use ldc.Config.{Channel, channel_index, index_bit}
use ldc.Types.{JobPhase, TerminalOutcome, read_side_effects}
use ldc.Registers.{advance_acquire_channel, transfer_failure_may_have_reached_device}
use ldc.Decode.{decode_device_status, decode_channel_sample}
use ldc.Driver.{Driver, add_effect}
use ldc.Bus.{Bus, read_register}
use ldc.Jobs.{finish_job}
use ldc.Round.{Round, again, closed, at_register, count_transfer, finish}

-- The phases that an acquisition goes through; any other is the error at the end of the loop.
pub data AcquirePhase : Type 0 where
  status_before data_msb data_lsb status_after invalid : AcquirePhase

abbrev pub acquire_phase : JobPhase → AcquirePhase
acquire_phase JobPhase.read_status_before = status_before
acquire_phase JobPhase.read_data_msb = data_msb
acquire_phase JobPhase.read_data_lsb = data_lsb
acquire_phase JobPhase.read_status_after = status_after
acquire_phase _ = invalid

-- The end of the loop body: no phase matched, and no transfer is made.
unfoldable pub invalid_round : {W : Type 0} → ℕ → Driver → W → Round W
invalid_round now d w =
    let r = finish_job TerminalOutcome.failed (error Err.invalid_param) now d in closed r.0 r.1 w

module _ {W : Type 0} (bus : Bus W) where
  unfoldable pub read_status_before_round : ℕ → ℕ → Driver → W → Round W
  read_status_before_round now timeout d w =
      let t =
        read_register bus Reg.status timeout
          (at_register d.progress.phase Reg.status Channel.none d) w in
      let counted = count_transfer t.driver in
      let failed =
        if transfer_failure_may_have_reached_device t.status
        then add_effect read_side_effects counted
        else counted in
      let observed = add_effect read_side_effects counted in
      let next = advance_acquire_channel observed.progress Channel.none in
      if is_ok t.status
      then again
          (record observed {
            scratch_status_before = decode_device_status t.value;
            progress = next.0;
            job_channel = next.1;
          })
          t.world
      else finish TerminalOutcome.failed t.status now failed t.world

  unfoldable pub read_data_msb_round : ℕ → ℕ → Driver → W → Round W
  read_data_msb_round now timeout d w =
      let index = channel_index d.job_channel in
      let reg = Cmd.reg_data_msb index in
      let t = read_register bus reg timeout (at_register d.progress.phase reg d.job_channel d) w in
      let counted = count_transfer t.driver in
      let observed = add_effect read_side_effects counted in
      if is_ok t.status
      then again
          (record observed {
            scratch_msb = t.value;
            progress = record (observed.progress) {
              phase = JobPhase.read_data_lsb;
              register_address = Cmd.reg_data_lsb index;
            };
          })
          t.world
      else finish TerminalOutcome.failed t.status now counted t.world

  unfoldable pub read_data_lsb_round : ℕ → ℕ → Driver → W → Round W
  read_data_lsb_round now timeout d w =
      let index = channel_index d.job_channel in
      let reg = Cmd.reg_data_lsb index in
      let t = read_register bus reg timeout (at_register d.progress.phase reg d.job_channel d) w in
      let counted = count_transfer t.driver in
      let completed = bit_or counted.scratch_completed (index_bit index) in
      let next =
        advance_acquire_channel (record (counted.progress) { completed_channels = completed })
          d.job_channel in
      if is_ok t.status
      then again
          (record counted {
            scratch_samples =
                Four.set counted.scratch_samples index
                  (decode_channel_sample counted.scratch_msb t.value);
            scratch_completed = completed;
            progress = next.0;
            job_channel = next.1;
          })
          t.world
      else finish TerminalOutcome.failed t.status now counted t.world

  unfoldable pub read_status_after_round : ℕ → ℕ → Driver → W → Round W
  read_status_after_round now timeout d w =
      let t =
        read_register bus Reg.status timeout
          (at_register d.progress.phase Reg.status Channel.none d) w in
      let counted = count_transfer t.driver in
      let observed = record (add_effect read_side_effects counted) {
        scratch_status_after = decode_device_status t.value;
      } in
      if is_ok t.status
      then finish TerminalOutcome.success ok_status now observed t.world
      else finish TerminalOutcome.failed t.status now counted t.world

  -- One iteration of the loop of `_pollAcquire`.
  unfoldable pub acquire_round : ℕ → ℕ → Driver → W → Round W
  acquire_round now timeout d w = elim (acquire_phase d.progress.phase) [
    | status_before ↦ read_status_before_round now timeout d w
    | data_msb ↦ read_data_msb_round now timeout d w
    | data_lsb ↦ read_data_lsb_round now timeout d w
    | status_after ↦ read_status_after_round now timeout d w
    | invalid ↦ invalid_round now d w
  ]
