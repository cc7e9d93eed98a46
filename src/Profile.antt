-- ===== src/Profile.antt =====
-- src/LDC1614.cpp, the register image of a profile: the CONFIG, MUX_CONFIG and ERROR_CONFIG
-- encoders, the replay table `configWriteAt`, and the readback masks.
pub mod Encode
pub mod Expected
use ldc.Base.{
  ℕ, ◌+◌, ◌-◌, ◌*◌, ◌/◌, ◌%◌, ◌^◌, Bool, true, false, ◌&&◌, ◌||◌, not, ltb, leb, ◌==◌,
  if◌then◌else◌, bit_and, bit_or, bit_xor, u8, u16,
}
use ldc.Cmd
use ldc.Cmd.Reg
use ldc.Cmd.Mask
use ldc.Cmd.Shift
use ldc.Four
use ldc.Config.{
  Config, Channel, ChannelConfig, ErrorReporting, SensorActivation, RefClkSrc, OperatingMode,
  channel_index, to_channel, deglitch_code, rr_sequence_code,
}
use ldc.Types.{JobPhase}
use ldc.Registers.{is_concrete_channel}

-- `if (flag) value |= mask;`
abbrev pub or_when : Bool → ℕ → ℕ → ℕ
or_when flag mask value = if flag then bit_or value mask else value

abbrev pub is_low_power : SensorActivation → Bool
is_low_power SensorActivation.low_power = true
is_low_power SensorActivation.full_current = false

abbrev pub is_external : RefClkSrc → Bool
is_external RefClkSrc.external_clock = true
is_external _ = false

abbrev pub is_sequential : OperatingMode → Bool
is_sequential OperatingMode.multi_channel_sequential = true
is_sequential _ = false

unfoldable pub build_config_register : Config → Bool → ℕ
build_config_register c sleeping =
    let channel =
      or_when (is_concrete_channel c.active_channel)
        (bit_and (channel_index c.active_channel * 2 ^ Shift.cfg_active_chan) Mask.cfg_active_chan)
        Cmd.config_reserved_value in
    let sleep = or_when sleeping Mask.cfg_sleep_mode_en channel in
    let rp = or_when c.rp_override_enabled Mask.cfg_rp_override_en sleep in
    let activation = or_when (is_low_power c.sensor_activation) Mask.cfg_sensor_activate_sel rp in
    let amplitude =
      or_when (not c.auto_amplitude_correction_enabled) Mask.cfg_auto_amp_dis activation in
    let clock = or_when (is_external c.reference_clock.source) Mask.cfg_ref_clk_src amplitude in
    let intb = or_when c.intb_disabled Mask.cfg_intb_dis clock in
    or_when c.high_current_drive_enabled Mask.cfg_high_current_drv intb

unfoldable pub build_mux_config_register : Config → ℕ
build_mux_config_register c =
    let sequence =
      if is_sequential c.mode
      then bit_or (bit_or Cmd.mux_config_reserved_value Mask.mux_autoscan_en) (
          bit_and (u16 (rr_sequence_code c.rr_sequence * 2 ^ Shift.mux_rr_sequence))
            Mask.mux_rr_sequence)
      else Cmd.mux_config_reserved_value in
    bit_or sequence (bit_and (deglitch_code c.deglitch) Mask.mux_deglitch)

unfoldable pub encode_error_reporting : ErrorReporting → ℕ
encode_error_reporting r =
    let v1 = or_when r.data_under_range Mask.errcfg_ur_err2out 0 in
    let v2 = or_when r.data_over_range Mask.errcfg_or_err2out v1 in
    let v3 = or_when r.data_watchdog Mask.errcfg_wd_err2out v2 in
    let v4 = or_when r.data_amplitude_high Mask.errcfg_ah_err2out v3 in
    let v5 = or_when r.data_amplitude_low Mask.errcfg_al_err2out v4 in
    let v6 = or_when r.status_under_range Mask.errcfg_ur_err2int v5 in
    let v7 = or_when r.status_over_range Mask.errcfg_or_err2int v6 in
    let v8 = or_when r.status_watchdog Mask.errcfg_wd_err2int v7 in
    let v9 = or_when r.status_amplitude_high Mask.errcfg_ah_err2int v8 in
    let v10 = or_when r.status_amplitude_low Mask.errcfg_al_err2int v9 in
    let v11 = or_when r.status_zero_count Mask.errcfg_zc_err2int v10 in
    or_when r.data_ready Mask.errcfg_drdy_2int v11

unfoldable pub configuration_transfer_count : ℕ → ℕ
configuration_transfer_count channel_count = u8 (1 + channel_count * 5 + 2)

pub record ConfigWrite : Type 0 where
  pub valid : Bool
  pub reg : ℕ
  pub value : ℕ
  pub phase : JobPhase
  pub channel : Channel

abbrev pub no_config_write : ConfigWrite
no_config_write = record {
  valid = false;
  reg = 0;
  value = 0;
  phase = JobPhase.none;
  channel = Channel.none;
}

abbrev pub config_write : ℕ → ℕ → JobPhase → Channel → ConfigWrite
config_write reg value phase channel = record {
  valid = true;
  reg = reg;
  value = value;
  phase = phase;
  channel = channel;
}

-- The `switch (field)` of `configWriteAt`.
unfoldable pub channel_write : ChannelConfig → ℕ → ℕ → ConfigWrite
channel_write channel index field =
    if field == 0
    then config_write (Cmd.reg_rcount index) channel.rcount JobPhase.write_rcount (to_channel index)
    else if field == 1
    then config_write (Cmd.reg_settle_count index) channel.settle_count JobPhase.write_settlecount
        (to_channel index)
    else if field == 2
    then config_write (Cmd.reg_clock_dividers index)
        (u16 (
          bit_or (channel.fin_divider * 2 ^ Shift.fin_divider)
            (bit_and channel.fref_divider Mask.fref_divider)))
        JobPhase.write_clock_dividers (to_channel index)
    else if field == 3
    then config_write (Cmd.reg_offset index) channel.offset JobPhase.write_offset (to_channel index)
    else config_write (Cmd.reg_drive_current index)
        (u16 (channel.drive_current_code * 2 ^ Shift.idrive)) JobPhase.write_drive_current
        (to_channel index)

unfoldable pub config_write_at : Config → ℕ → ℕ → ConfigWrite
config_write_at c channel_count step =
    let per_channel_step = u8 (step - 1) in
    let per_channel_count = u8 (channel_count * 5) in
    let index = per_channel_step / 5 in
    if leb (configuration_transfer_count channel_count) step
    then no_config_write
    else if step == 0
    then config_write Reg.config (build_config_register c true) JobPhase.force_sleep Channel.none
    else if ltb per_channel_step per_channel_count
    then channel_write (Four.get c.channel index) index (per_channel_step % 5)
    else if per_channel_step - per_channel_count == 0
    then config_write Reg.error_config (encode_error_reporting c.error_reporting)
        JobPhase.write_error_config Channel.none
    else config_write Reg.mux_config (build_mux_config_register c) JobPhase.write_mux_config
        Channel.none

abbrev pub within : ℕ → ℕ → ℕ → Bool
within first last reg = leb first reg && leb reg last

unfoldable pub configuration_comparison_mask : ℕ → ℕ
configuration_comparison_mask reg =
    if within Reg.rcount0 Reg.rcount3 reg
      || within Reg.offset0 Reg.offset3 reg
      || within Reg.settlecount0 Reg.settlecount3 reg
    then 0xFFFF
    else if within Reg.clock_dividers0 Reg.clock_dividers3 reg
    then 0xFFFF
    else if reg == Reg.error_config
    then 0xFFFF
    else if reg == Reg.config
    then bit_xor 0xFFFF Mask.cfg_sleep_mode_en
    else if reg == Reg.mux_config
    then 0xFFFF
    else if within Reg.drive_current0 Reg.drive_current3 reg
    then bit_xor 0xFFFF Mask.init_idrive
    else 0
