-- ===== src/Direct.antt =====
-- src/LDC1614.cpp: the calls that make at most one transfer outside a job.
use ldc.Base.{
  ℕ, zero, suc, ◌+◌, ◌/◌, ◌^◌, Bool, true, false, ◌&&◌, ◌||◌, not, ◌==◌, ◌!=◌, if◌then◌else◌,
  bit_and,
}
use ldc.Status.{Status, Err, is_ok, ok_status, error, error_detail}
use ldc.Cmd
use ldc.Cmd.Reg
use ldc.Cmd.Mask
use ldc.Cmd.Shift
use ldc.Config.{Config, Channel, DeviceVariant, channel_index, contains, valid_channel_mask}
use ldc.Types.{
  AppliedConfigState, JobPhase, EffectFlags, DeviceStatus, no_device_status, partial_write,
  indeterminate_write, is_unknown, is_sleeping, is_active,
}
use ldc.Registers.{
  channel_count_for, is_concrete_channel, is_valid_register_address, is_configuration_register,
  is_ldc1614_only_register, transfer_failure_may_have_reached_device,
  configuration_phase_for_register, configuration_channel_for_register,
}
use ldc.Profile.{
  config_write_at, configuration_transfer_count, configuration_comparison_mask,
  build_config_register,
}
use ldc.Decode.{decode_device_status}
use ldc.Validate.{validate_config}
use ldc.Driver.{Driver, record_config_fault}
use ldc.Bus.{Bus, read_register, write_register}

abbrev pub is_ldc1612 : DeviceVariant → Bool
is_ldc1612 DeviceVariant.ldc1612 = true
is_ldc1612 _ = false

-- A call's status, what it writes through its reference, the driver and the world.
pub record Reply (A : Type 0) (W : Type 0) : Type 0 where
  pub status : Status
  pub out : A
  pub driver : Driver
  pub world : W

abbrev pub reply : {A W : Type 0} → Status → A → Driver → W → Reply A W
reply s a d w = record { status = s; out = a; driver = d; world = w }

-- The trust after a failed CONFIG write of `sleep` or `wake`.
abbrev pub distrust_config_write : Status → Driver → Driver
distrust_config_write status d =
    if transfer_failure_may_have_reached_device status
    then record_config_fault status JobPhase.write_final_config Reg.config Channel.none
        indeterminate_write (record d { applied_state = AppliedConfigState.dirty })
    else d

module _ {W : Type 0} (bus : Bus W) where
  unfoldable pub read_device_status : Driver → W → Reply DeviceStatus W
  read_device_status d w =
      let t = read_register bus Reg.status d.config.i2c_timeout_ms d w in
      if not d.bound
      then reply (error Err.not_bound) no_device_status d w
      else if d.progress.active
      then reply (error Err.busy) no_device_status d w
      else reply t.status
          (if is_ok t.status then decode_device_status t.value else no_device_status) t.driver
          t.world

  unfoldable pub read_data_ready : Driver → W → Reply (Bool × DeviceStatus) W
  read_data_ready d w =
      let c = d.config in
      let gpio = bus.intb_asserted c.intb_asserted c.intb_user w in
      let direct = λ (w : W).
        let r = read_device_status d w in
        reply {A = Bool × DeviceStatus} r.status
          (if is_ok r.status then r.out.data_ready else false, r.out) r.driver r.world in
      if not d.bound
      then reply (error Err.not_bound) (false, no_device_status) d w
      else if not c.error_reporting.data_ready
      then reply (error Err.invalid_config) (false, no_device_status) d w
      else if d.progress.active
      then reply (error Err.busy) (false, no_device_status) d w
      else if not (is_active d.applied_state)
      then reply (error Err.config_dirty) (false, no_device_status) d w
      else if c.intb_asserted != 0 && not c.intb_disabled
      then (if not (is_ok gpio.0)
          then reply gpio.0 (false, no_device_status) d gpio.2
          else if not gpio.1
          then reply ok_status (false, no_device_status) d gpio.2
          else direct gpio.2)
      else direct w

  unfoldable pub sleep : Driver → W → Status × Driver × W
  sleep d w =
      let t =
        write_register bus Reg.config (build_config_register d.config true) d.config.i2c_timeout_ms
          d w in
      let asleep = record (t.driver) { applied_state = AppliedConfigState.applied_sleeping } in
      if not d.bound
      then (error Err.not_bound, d, w)
      else if d.progress.active
      then (error Err.busy, d, w)
      else if is_sleeping d.applied_state
      then (ok_status, d, w)
      else if not (is_active d.applied_state)
      then (error Err.config_dirty, d, w)
      else if is_ok t.status
      then (ok_status, asleep, t.world)
      else (t.status, distrust_config_write t.status t.driver, t.world)

  unfoldable pub wake : Driver → W → Status × Driver × W
  wake d w =
      let t =
        write_register bus Reg.config (build_config_register d.config false) d.config.i2c_timeout_ms
          d w in
      let awake = record (t.driver) { applied_state = AppliedConfigState.applied_active } in
      if not d.bound
      then (error Err.not_bound, d, w)
      else if d.progress.active
      then (error Err.busy, d, w)
      else if is_active d.applied_state
      then (ok_status, d, w)
      else if not (is_sleeping d.applied_state)
      then (error Err.config_dirty, d, w)
      else if is_ok t.status
      then (ok_status, awake, t.world)
      else (t.status, distrust_config_write t.status t.driver, t.world)

  unfoldable pub read_register16 : ℕ → Driver → W → Reply ℕ W
  read_register16 reg d w =
      let t = read_register bus reg d.config.i2c_timeout_ms d w in
      if not d.bound
      then reply (error Err.not_bound) 0 d w
      else if d.progress.active
      then reply (error Err.busy) 0 d w
      else if not (is_valid_register_address reg)
      then reply (error Err.invalid_param) 0 d w
      else if is_ldc1612 d.config.variant && is_ldc1614_only_register reg
      then reply (error Err.invalid_param) 0 d w
      else reply t.status t.value t.driver t.world

  unfoldable pub read_init_drive_current : Channel → Driver → W → Reply ℕ W
  read_init_drive_current channel d w =
      let r = read_register16 (Cmd.reg_drive_current (channel_index channel)) d w in
      let code = bit_and r.out Mask.init_idrive / 2 ^ Shift.init_idrive in
      if not d.bound
      then reply (error Err.not_bound) 0 d w
      else if not (is_concrete_channel channel)
          || not (contains (valid_channel_mask d.config.variant) channel)
      then reply (error Err.invalid_param) 0 d w
      else reply r.status (if is_ok r.status then code else 0) r.driver r.world

  unfoldable pub write_register16 : ℕ → ℕ → Driver → W → Status × Driver × W
  write_register16 reg value d w =
      let t = write_register bus reg value d.config.i2c_timeout_ms d w in
      let possible = is_ok t.status || transfer_failure_may_have_reached_device t.status in
      let state =
        if reg == Reg.reset_dev || is_unknown t.driver.applied_state
        then AppliedConfigState.unknown
        else AppliedConfigState.dirty in
      let effects : EffectFlags =
        if is_ok t.status then partial_write else if possible then indeterminate_write else 0 in
      let cause = if is_ok t.status then error Err.config_dirty else t.status in
      let faulted =
        record_config_fault cause (configuration_phase_for_register reg) reg
          (configuration_channel_for_register reg) effects
          (record (t.driver) { applied_state = state }) in
      if not d.bound
      then (error Err.not_bound, d, w)
      else if d.progress.active
      then (error Err.busy, d, w)
      else if not (is_configuration_register reg)
      then (error Err.invalid_param, d, w)
      else if is_ldc1612 d.config.variant && is_ldc1614_only_register reg
      then (error Err.invalid_param, d, w)
      else (t.status, if possible then faulted else t.driver, t.world)

  -- `const`: the driver does not change.
  unfoldable pub read_intb : Driver → W → Status × Bool × W
  read_intb d w =
      let c = d.config in
      if not d.bound
      then (error Err.not_bound, false, w)
      else if c.intb_asserted == 0 || c.intb_disabled
      then (error Err.invalid_config, false, w)
      else bus.intb_asserted c.intb_asserted c.intb_user w

-- The status, the expected value and the comparison mask.
abbrev pub Expectation : Type 0
Expectation = Status × ℕ × ℕ

-- The loop of `expectedConfigurationRegister`, with the rounds left.
unfoldable pub expected_from : Config → ℕ → ℕ → ℕ → Expectation
expected_from c reg zero step = (error_detail Err.invalid_param reg, 0, 0)
expected_from c reg (suc rounds) step =
    let write = config_write_at c (channel_count_for c.variant) step in
    let rest = expected_from c reg rounds (step + 1) in
    if write.valid && write.reg == reg
    then (ok_status, write.value, configuration_comparison_mask reg)
    else rest

unfoldable pub expected_configuration_register : Config → ℕ → Expectation
expected_configuration_register c reg =
    let count = configuration_transfer_count (channel_count_for c.variant) in
    if not (is_ok (validate_config c))
    then (validate_config c, 0, 0)
    else expected_from c reg count 0
