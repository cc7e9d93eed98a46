-- ===== src/Liveness/Succeeds.antt =====
-- The jobs of src/LDC1614.cpp on a device that answers.
use ldc.Base.{
  ap, ℕ, ◌+◌, ◌≡◌, ◌==◌, ◌!=◌, Bool, true, false, not, arith, Bool-cases, inl, inr, if_cases, refl,
  leb, u8,
}
use ldc.Status.{Status, is_ok}
use ldc.Cmd.Reg
use ldc.Cmd.Mask
use ldc.Config.{Channel, channel_index}
use ldc.Cmd
use ldc.Types.{JobKind, JobPhase, TerminalOutcome, AppliedConfigState, is_acquire}
use ldc.Registers.{advance_acquire_channel}
use ldc.Profile.{config_write_at, configuration_transfer_count}
use ldc.Driver.{Driver, clear_active_job, configured_channel_count}
use ldc.Bus.{Bus, read_register, write_register, tracked}
use ldc.Jobs.{finish_job, push_result, terminal_result}
use ldc.Round.{Round, at_register}
use ldc.Round.Apply.{apply_round, reset_round, identity_round, replay_round, identity_step_at}
use ldc.Round.Acquire.{
  acquire_round, read_status_before_round, read_data_msb_round, read_data_lsb_round,
  read_status_after_round, acquire_phase, invalid,
}
use ldc.Round.Ends.{apply_round_cases, acquire_round_cases}
use ldc.Poll.{is_reset}
use ldc.Poll.Loop.{Holds}
use ldc.Invariant.{JobInv, QueueInv}
use ldc.Liveness.{Answers, Succeeded}

finish_job-Succeeded :
    (kind : JobKind) (s : Status) (t : ℕ) (d : Driver)
    → QueueInv d
    → d.progress.active ≡ true
    → (is_acquire kind ≡ false → d.applied_state ≡ AppliedConfigState.applied_sleeping)
    → Succeeded kind (finish_job TerminalOutcome.success s t d).1
unfolding finish_job push_result clear_active_job terminal_result
finish_job-Succeeded kind s t d v a h = ground arith

-- An acquisition with a transfer left is in one of its phases.
valid_phase :
    {d : Driver}
    → d.progress.active ≡ true
    → d.progress.kind ≡ JobKind.acquire
    → JobInv d
    → acquire_phase d.progress.phase ≡ invalid
    → ⊥
valid_phase {d} a k j i = ground (arith, j.acquires a (ap is_acquire k))

pub differs : {b : Bool} → b ≡ false → b ≡ true → ⊥
differs p q = ground arith

module _ {W : Type 0} (bus : Bus W) (f : Answers bus) where
  write-is_ok :
      (reg value timeout : ℕ) (d : Driver) (w : W)
      → is_ok (write_register bus reg value timeout d w).status ≡ true
  unfolding write_register
  write-is_ok reg value timeout d w = f.writes d.config.i2c_write _ _ timeout d.config.i2c_user w

  read-is_ok :
      (reg timeout : ℕ) (d : Driver) (w : W)
      → is_ok (read_register bus reg timeout d w).status ≡ true
  unfolding read_register
  read-is_ok reg timeout d w = f.reads d.config.i2c_write_read _ _ timeout d.config.i2c_user w

  read-identity :
      (index timeout : ℕ) (d : Driver) (w : W)
      → let step = identity_step_at index in
        ((read_register bus step.reg timeout d w).value != step.expected) ≡ false
  unfolding read_register
  read-identity index timeout d w = elim (Bool-cases (index == 0)) [
    | inl e ↦
        simp
          (
            e,
            f.reads d.config.i2c_write_read _ _ timeout d.config.i2c_user w,
            f.manufacturer d.config.i2c_write_read _ timeout d.config.i2c_user w,
          )
          refl
    | inr e ↦
        simp
          (
            e,
            f.reads d.config.i2c_write_read _ _ timeout d.config.i2c_user w,
            f.device d.config.i2c_write_read _ timeout d.config.i2c_user w,
          )
          refl
  ]

  module _ (now timeout : ℕ) (d : Driver) (w : W) where
    abbrev Goes : JobKind → Round W → Type 0
    Goes kind = Holds (λ e w. Succeeded kind e)

    reset_round-Succeeded :
        (kind : JobKind) → d.progress.active ≡ true → Goes kind (reset_round bus now timeout d w)
    unfolding reset_round write_register tracked
    reset_round-Succeeded kind a =
        let e = at_register JobPhase.software_reset Reg.reset_dev Channel.none d in
        if_cases (Goes kind)
          (is_ok (write_register bus Reg.reset_dev Mask.reset_dev timeout e w).status) _ _
          (λ _ ended. absurd (differs ended a))
          (λ bad. absurd (differs bad (write-is_ok Reg.reset_dev Mask.reset_dev timeout e w)))

    identity_round-Succeeded :
        (kind : JobKind) (index : ℕ)
        → d.progress.active ≡ true
        → Goes kind (identity_round bus now timeout index d w)
    unfolding identity_round read_register tracked
    identity_round-Succeeded kind index a =
        let step = identity_step_at index in
        let e = at_register step.phase step.reg Channel.none d in
        let t = read_register bus step.reg timeout e w in
        if_cases (Goes kind) (not (is_ok t.status)) _ _
          (λ bad. absurd (differs (ground (arith, bad)) (read-is_ok step.reg timeout e w)))
          (λ _.
            if_cases (Goes kind) (t.value != step.expected) _ _
              (λ other. absurd (differs (read-identity index timeout e w) other))
              (λ _ ended. absurd (differs ended a)))

    replay_round-Succeeded :
        (kind : JobKind) (k : ℕ)
        → d.progress.active ≡ true
        → QueueInv d
        → Goes kind (replay_round bus now timeout k d w)
    unfolding replay_round write_register tracked
    replay_round-Succeeded kind k a v =
        let count = configured_channel_count d in
        let row = config_write_at d.config count k in
        let e = at_register row.phase row.reg row.channel d in
        let t = write_register bus row.reg row.value timeout e w in
        if_cases (Goes kind) (not row.valid) _ _
          (λ _.
            finish_job-Succeeded kind _ now _
              (record { head = v.head; count = v.count; reserved = v.reserved }) a (λ _. refl))
          (λ _.
            if_cases (Goes kind) (not (is_ok t.status)) _ _
              (λ bad.
                absurd (differs (ground (arith, bad)) (write-is_ok row.reg row.value timeout e w)))
              (λ _.
                if_cases (Goes kind) (leb (configuration_transfer_count count) (u8 (k + 1))) _ _
                  (λ _.
                    finish_job-Succeeded kind _ now _
                      (record { head = v.head; count = v.count; reserved = v.reserved }) a
                      (λ _. refl))
                  (λ _ ended. absurd (differs ended a))))

    pub apply_round-Succeeded :
        (kind : JobKind)
        → d.progress.active ≡ true
        → QueueInv d
        → Goes kind (apply_round bus kind (is_reset kind) now timeout d w)
    apply_round-Succeeded kind a v =
        apply_round_cases bus (Goes kind) kind (is_reset kind) now timeout d w
          (λ _. reset_round-Succeeded kind a) (λ _. identity_round-Succeeded kind _ a)
          (λ _ _. replay_round-Succeeded kind _ a v)

    pub acquire_round-Succeeded :
        d.progress.active ≡ true
        → d.progress.kind ≡ JobKind.acquire
        → QueueInv d
        → JobInv d
        → Goes JobKind.acquire (acquire_round bus now timeout d w)
    unfolding read_status_before_round read_data_msb_round read_data_lsb_round
        read_status_after_round advance_acquire_channel read_register tracked
    acquire_round-Succeeded a k v j =
        let index = channel_index d.job_channel in
        let at = λ (reg : ℕ) (ch : Channel). at_register d.progress.phase reg ch d in
        let status = at Reg.status Channel.none in
        let msb = at (Cmd.reg_data_msb index) d.job_channel in
        let lsb = at (Cmd.reg_data_lsb index) d.job_channel in
        let go = λ (reg : ℕ) (e : Driver).
          if_cases (Goes JobKind.acquire) (is_ok (read_register bus reg timeout e w).status) in
        let fails =
          λ (reg : ℕ) (e : Driver) (bad : is_ok (read_register bus reg timeout e w).status ≡ false).
            differs bad (read-is_ok reg timeout e w) in
        acquire_round_cases bus (Goes JobKind.acquire) now timeout d w
          (λ _.
            go Reg.status status _ _ (λ _ ended. absurd (differs ended a))
              (λ bad. absurd (fails Reg.status status bad)))
          (λ _.
            go (Cmd.reg_data_msb index) msb _ _ (λ _ ended. absurd (differs ended a))
              (λ bad. absurd (fails (Cmd.reg_data_msb index) msb bad)))
          (λ _.
            go (Cmd.reg_data_lsb index) lsb _ _ (λ _ ended. absurd (differs ended a))
              (λ bad. absurd (fails (Cmd.reg_data_lsb index) lsb bad)))
          (λ _.
            go Reg.status status _ _
              (λ _.
                finish_job-Succeeded JobKind.acquire _ now _
                  (record { head = v.head; count = v.count; reserved = v.reserved }) a
                  (λ e. absurd (differs e refl)))
              (λ bad. absurd (fails Reg.status status bad)))
          (λ i. absurd (valid_phase a k j i))
