-- ===== src/Trust/Calls.antt =====
-- The promise of the applied state, and the public interface of src/LDC1614.cpp.
use ldc.Base.{
  if_cases, ℕ, ◌==◌, ◌!=◌, ◌∙◌, Bool, not, ◌&&◌, ◌||◌, if◌then◌else◌, List, [], ◌∷◌, arith,
}
use ldc.Status.{Status, is_ok}
use ldc.Cmd
use ldc.Cmd.Reg
use ldc.Config.{Config, Channel, channel_index, contains, valid_channel_mask}
use ldc.Types.{AppliedConfigState, is_active, DeviceStatus}
use ldc.Registers.{
  transfer_failure_may_have_reached_device, is_valid_register_address, is_ldc1614_only_register,
  is_configuration_register, is_concrete_channel,
}
use ldc.Driver.{Driver, initial}
use ldc.Bus.{Bus, read_register, write_register, tracked}
use ldc.Direct.{
  read_device_status, read_data_ready, read_register16, read_init_drive_current, write_register16,
  read_intb, Reply, is_ldc1612,
}
use ldc.Api.{
  Call, binds, updates, ends, cancels, takes, sleeps, wakes, reads_status, reads_ready, reads_intb,
  initializes, applies, resets, acquires, polls, invalidates, reads_init_drive, reads, writes, step,
  run,
}
use ldc.Invariant.{Inv}
use ldc.Invariant.Calls.{AllTyped, step-Inv}
use ldc.Trust.{IsFaithful, Trusted, TrustInv, register_at}
use ldc.Trust.Writes.{Trusted-frame, write-refused, read-held}
use ldc.Trust.Polls.{poll-TrustInv}
use ldc.Trust.Local.{
  idle-TrustInv, start_call-TrustInv, cancel_job-TrustInv, take_result-TrustInv, bind-TrustInv,
  end-TrustInv, update-TrustInv, invalidate-TrustInv,
}
use ldc.Trust.Switch.{sleep-TrustInv, wake-TrustInv}

-- A write outside a job leaves nothing trusted.
distrusted-Trusted :
    (h : ℕ → List ℕ) (b : Bool) (c : Config)
    → Trusted h (if b then AppliedConfigState.unknown else AppliedConfigState.dirty) c
distrusted-Trusted h b c = ground arith

module _ {W : Type 0} (bus : Bus W) (held : W → ℕ → List ℕ) (f : IsFaithful bus held) where
  -- A register read of a call keeps the promise.
  read_call-TrustInv :
      (reg : ℕ) (d : Driver) (w : W)
      → TrustInv (held w) d
      → let t = read_register bus reg d.config.i2c_timeout_ms d w in
        TrustInv (held t.world) t.driver
  unfolding read_register tracked
  read_call-TrustInv reg d w v =
      let t = read_register bus reg d.config.i2c_timeout_ms d w in
      let same = read-held bus held f reg d.config.i2c_timeout_ms d w in
      record {
        trusted = Trusted-frame (held w) (held t.world) d.applied_state d.config same v.trusted;
        replayed = λ a n j p. same (register_at d.config j) ∙ v.replayed a n j p;
      }

  read_device_status-TrustInv :
      (d : Driver) (w : W)
      → TrustInv (held w) d
      → let r = read_device_status bus d w in TrustInv (held r.world) r.driver
  unfolding read_device_status
  read_device_status-TrustInv d w v =
      let Keeps : Reply DeviceStatus W → Type 0 = λ r. TrustInv (held r.world) r.driver in
      if_cases Keeps (not d.bound) _ _ (λ _. v)
        (λ _.
          if_cases Keeps d.progress.active _ _ (λ _. v) (λ _. read_call-TrustInv Reg.status d w v))

  read_register16-TrustInv :
      (reg : ℕ) (d : Driver) (w : W)
      → TrustInv (held w) d
      → let r = read_register16 bus reg d w in TrustInv (held r.world) r.driver
  unfolding read_register16
  read_register16-TrustInv reg d w v =
      let Keeps : Reply ℕ W → Type 0 = λ r. TrustInv (held r.world) r.driver in
      if_cases Keeps (not d.bound) _ _ (λ _. v)
        (λ _.
          if_cases Keeps d.progress.active _ _ (λ _. v)
            (λ _.
              if_cases Keeps (not (is_valid_register_address reg)) _ _ (λ _. v)
                (λ _.
                  if_cases Keeps (is_ldc1612 d.config.variant && is_ldc1614_only_register reg) _ _
                    (λ _. v) (λ _. read_call-TrustInv reg d w v))))

  write_register16-TrustInv :
      (reg value : ℕ) (d : Driver) (w : W)
      → TrustInv (held w) d
      → let r = write_register16 bus reg value d w in TrustInv (held r.2) r.1
  unfolding write_register16 write_register tracked
  write_register16-TrustInv reg value d w v =
      let Keeps : Status × Driver × W → Type 0 = λ p. TrustInv (held p.2) p.1 in
      let t = write_register bus reg value d.config.i2c_timeout_ms d w in
      if_cases Keeps (not d.bound) _ _ (λ _. v)
        (λ _.
          if_cases Keeps d.progress.active _ _ (λ _. v)
            (λ a.
              if_cases Keeps (not (is_configuration_register reg)) _ _ (λ _. v)
                (λ _.
                  if_cases Keeps (is_ldc1612 d.config.variant && is_ldc1614_only_register reg) _ _
                    (λ _. v)
                    (λ _.
                      if_cases (λ (e : Driver). TrustInv (held t.world) e)
                        (is_ok t.status || transfer_failure_may_have_reached_device t.status) _ _
                        (λ _.
                          idle-TrustInv (held t.world) _ a (distrusted-Trusted (held t.world) _ _))
                        (λ no_reach. idle-TrustInv (held t.world) _ a (
                          Trusted-frame (held w) (held t.world) d.applied_state d.config
                            (write-refused bus held f reg value d.config.i2c_timeout_ms d w
                              (ground (arith, no_reach)))
                            v.trusted))))))

  read_init_drive_current-TrustInv :
      (ch : Channel) (d : Driver) (w : W)
      → TrustInv (held w) d
      → let r = read_init_drive_current bus ch d w in TrustInv (held r.world) r.driver
  unfolding read_init_drive_current
  read_init_drive_current-TrustInv ch d w v =
      let Keeps : Reply ℕ W → Type 0 = λ r. TrustInv (held r.world) r.driver in
      if_cases Keeps (not d.bound) _ _ (λ _. v)
        (λ _.
          if_cases Keeps
            (not (is_concrete_channel ch)
              || not (contains (valid_channel_mask d.config.variant) ch))
            _ _ (λ _. v)
            (λ _. read_register16-TrustInv (Cmd.reg_drive_current (channel_index ch)) d w v))

  -- INTB is looked at, which writes nothing.
  observed-TrustInv :
      (d : Driver) (w : W)
      → TrustInv (held w) d
      → TrustInv (held (bus.intb_asserted d.config.intb_asserted d.config.intb_user w).2) d
  observed-TrustInv d w v =
      let world = (bus.intb_asserted d.config.intb_asserted d.config.intb_user w).2 in
      let same = f.observes d.config.intb_asserted d.config.intb_user w in
      record {
        trusted = Trusted-frame (held w) (held world) d.applied_state d.config same v.trusted;
        replayed = λ a n j p. same (register_at d.config j) ∙ v.replayed a n j p;
      }

  read_intb-TrustInv :
      (d : Driver) (w : W) → TrustInv (held w) d → TrustInv (held (read_intb bus d w).2) d
  unfolding read_intb
  read_intb-TrustInv d w v =
      let Keeps : Status × Bool × W → Type 0 = λ r. TrustInv (held r.2) d in
      if_cases Keeps (not d.bound) _ _ (λ _. v)
        (λ _.
          if_cases Keeps (d.config.intb_asserted == 0 || d.config.intb_disabled) _ _ (λ _. v)
            (λ _. observed-TrustInv d w v))

  read_data_ready-TrustInv :
      (d : Driver) (w : W)
      → TrustInv (held w) d
      → let r = read_data_ready bus d w in TrustInv (held r.world) r.driver
  unfolding read_data_ready
  read_data_ready-TrustInv d w v =
      let Keeps : Reply (Bool × DeviceStatus) W → Type 0 = λ r. TrustInv (held r.world) r.driver in
      let c = d.config in
      let gpio = bus.intb_asserted c.intb_asserted c.intb_user w in
      let seen = observed-TrustInv d w v in
      if_cases Keeps (not d.bound) _ _ (λ _. v)
        (λ _.
          if_cases Keeps (not c.error_reporting.data_ready) _ _ (λ _. v)
            (λ _.
              if_cases Keeps d.progress.active _ _ (λ _. v)
                (λ _.
                  if_cases Keeps (not (is_active d.applied_state)) _ _ (λ _. v)
                    (λ _.
                      if_cases Keeps (c.intb_asserted != 0 && not c.intb_disabled) _ _
                        (λ _.
                          if_cases Keeps (not (is_ok gpio.0)) _ _ (λ _. seen)
                            (λ _.
                              if_cases Keeps (not gpio.1) _ _ (λ _. seen)
                                (λ _. read_device_status-TrustInv d gpio.2 seen)))
                        (λ _. read_device_status-TrustInv d w v)))))

  step-TrustInv :
      (c : Call) (d : Driver) (w : W)
      → Inv d
      → TrustInv (held w) d
      → let r = step bus c d w in TrustInv (held r.1) r.0
  unfolding step
  step-TrustInv (binds c) d w i v = bind-TrustInv (held w) c d v
  step-TrustInv (updates c) d w i v = update-TrustInv (held w) c d v
  step-TrustInv ends d w i v = end-TrustInv (held w) d
  step-TrustInv cancels d w i v = cancel_job-TrustInv (held w) d v
  step-TrustInv takes d w i v = take_result-TrustInv (held w) d v
  step-TrustInv sleeps d w i v = sleep-TrustInv bus held f d w i v
  step-TrustInv wakes d w i v = wake-TrustInv bus held f d w i v
  step-TrustInv reads_status d w i v = read_device_status-TrustInv d w v
  step-TrustInv reads_ready d w i v = read_data_ready-TrustInv d w v
  step-TrustInv reads_intb d w i v = read_intb-TrustInv d w v
  step-TrustInv (initializes id deadline) d w i v =
      (start_call-TrustInv (held w) 0 id deadline d v).0
  step-TrustInv (applies id deadline) d w i v = (start_call-TrustInv (held w) 0 id deadline d v).1
  step-TrustInv (resets id deadline) d w i v = (start_call-TrustInv (held w) 0 id deadline d v).2
  step-TrustInv (acquires channels id deadline) d w i v =
      (start_call-TrustInv (held w) channels id deadline d v).3
  step-TrustInv (polls now most) d w i v = poll-TrustInv bus held f now most d w i v
  step-TrustInv (invalidates reason) d w i v = invalidate-TrustInv (held w) reason d
  step-TrustInv (reads_init_drive ch) d w i v = read_init_drive_current-TrustInv ch d w v
  step-TrustInv (reads reg) d w i v = read_register16-TrustInv reg d w v
  step-TrustInv (writes reg value) d w i v = write_register16-TrustInv reg value d w v

  run_from-TrustInv :
      (cs : List Call) (d : Driver) (w : W)
      → AllTyped cs
      → Inv d
      → TrustInv (held w) d
      → let r = run bus cs d w in TrustInv (held r.1) r.0
  unfolding run
  run_from-TrustInv [] d w m i v = v
  run_from-TrustInv (c ∷ cs) d w m i v =
      run_from-TrustInv cs (step bus c d w).0 (step bus c d w).1 m.1 (step-Inv bus c d w m.0 i)
        (step-TrustInv c d w i v)

  -- Whatever a client calls, while the callbacks keep their contract: when the driver reports that
  -- the profile is applied, asleep or converting, the device has last accepted the profile's value
  -- in every register of the replay, and in CONFIG the value for that state. Of a transfer that
  -- fails with anything but an address NACK, and of a reset, the contract assumes nothing. The
  -- masks that the calls pass are below 256.
  pub run-Trusted :
      (cs : List Call) (w : W)
      → AllTyped cs
      → let r = run bus cs initial w in Trusted (held r.1) r.0.applied_state r.0.config
  run-Trusted cs w m =
      (run_from-TrustInv cs initial w m (ground arith)
        (record { trusted = tt; replayed = λ a. absurd (ground arith) })).trusted
