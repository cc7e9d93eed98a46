-- ===== src/Registers.antt =====
-- src/LDC1614.cpp, the file-local predicates on register addresses and the helpers on channel masks.
use ldc.Base.{
  ℕ, zero, suc, ◌+◌, ◌-◌, ◌/◌, Bool, true, false, ◌&&◌, ◌||◌, not, ltb, leb, ◌==◌, ◌!=◌,
  if◌then◌else◌, bit_and, has_bits, u8,
}
use ldc.Status.{Err, Status}
use ldc.Cmd
use ldc.Cmd.Reg
use ldc.Config.{
  Channel, ChannelMask, DeviceVariant, RrSequence, channel_index, to_channel, index_bit,
}
use ldc.Types.{JobPhase, JobProgress}

abbrev pub is_concrete_channel : Channel → Bool
is_concrete_channel ch = ltb (channel_index ch) Cmd.max_channels

abbrev pub channel_count_for : DeviceVariant → ℕ
channel_count_for DeviceVariant.ldc1612 = 2
channel_count_for DeviceVariant.ldc1614 = 4
channel_count_for DeviceVariant.unspecified = 0

-- The loop of `popcount`; eight rounds shift out every bit of a uint8_t.
unfoldable pub popcount_loop : ℕ → ℕ → ℕ → ℕ
popcount_loop zero count bits = count
popcount_loop (suc fuel) count bits =
    let rest = popcount_loop fuel (u8 (count + bit_and bits 1)) (u8 (bits / 2)) in
    if bits != 0 then rest else count

unfoldable pub popcount : ChannelMask → ℕ
popcount mask = popcount_loop 8 0 mask

-- The loop of `nextChannel`, with the rounds that are left below `cmd::MAX_CHANNELS`.
unfoldable pub next_channel_from : ℕ → ChannelMask → ℕ → Channel
next_channel_from zero mask index = Channel.none
next_channel_from (suc rounds) mask index =
    let rest = next_channel_from rounds mask (u8 (index + 1)) in
    if has_bits mask (index_bit index) then to_channel index else rest

abbrev pub is_none_channel : Channel → Bool
is_none_channel Channel.none = true
is_none_channel _ = false

unfoldable pub next_channel : ChannelMask → Channel → Channel
next_channel mask after =
    let start = if is_none_channel after then 0 else u8 (channel_index after + 1) in
    next_channel_from (Cmd.max_channels - start) mask start

unfoldable pub advance_acquire_channel : JobProgress → Channel → JobProgress × Channel
advance_acquire_channel progress after =
    let next = next_channel progress.requested_channels after in
    (
      record progress {
        phase = if is_none_channel next then JobPhase.read_status_after else JobPhase.read_data_msb;
        register_address =
            if is_none_channel next then Reg.status else Cmd.reg_data_msb (channel_index next);
        channel = next;
      },
      next,
    )

abbrev pub sequence_mask : RrSequence → ChannelMask
sequence_mask RrSequence.ch0_ch1 = 0x03
sequence_mask RrSequence.ch0_ch1_ch2 = 0x07
sequence_mask RrSequence.ch0_ch1_ch2_ch3 = 0x0F
sequence_mask RrSequence.unspecified = 0

-- `reg >= first && reg <= last`.
abbrev pub between : ℕ → ℕ → ℕ → Bool
between first last reg = leb first reg && leb reg last

unfoldable pub is_valid_register_address : ℕ → Bool
is_valid_register_address reg =
    leb reg Reg.reset_dev
    || between Reg.drive_current0 Reg.drive_current3 reg
    || reg == Reg.manufacturer_id
    || reg == Reg.device_id

unfoldable pub is_configuration_register : ℕ → Bool
is_configuration_register reg =
    between Reg.rcount0 Reg.clock_dividers3 reg
    || reg == Reg.error_config
    || reg == Reg.config
    || reg == Reg.mux_config
    || reg == Reg.reset_dev
    || between Reg.drive_current0 Reg.drive_current3 reg

unfoldable pub is_ldc1614_only_register : ℕ → Bool
is_ldc1614_only_register reg =
    between Reg.data2_msb Reg.data3_lsb reg
    || between Reg.rcount2 Reg.rcount3 reg
    || between Reg.offset2 Reg.offset3 reg
    || between Reg.settlecount2 Reg.settlecount3 reg
    || between Reg.clock_dividers2 Reg.clock_dividers3 reg
    || between Reg.drive_current2 Reg.drive_current3 reg

abbrev pub is_address_nack : Err → Bool
is_address_nack Err.i2c_nack_addr = true
is_address_nack _ = false

unfoldable pub transfer_failure_may_have_reached_device : Status → Bool
transfer_failure_may_have_reached_device s = not (is_address_nack s.code)

unfoldable pub configuration_phase_for_register : ℕ → JobPhase
configuration_phase_for_register reg =
    if between Reg.rcount0 Reg.rcount3 reg
    then JobPhase.write_rcount
    else if between Reg.settlecount0 Reg.settlecount3 reg
    then JobPhase.write_settlecount
    else if between Reg.clock_dividers0 Reg.clock_dividers3 reg
    then JobPhase.write_clock_dividers
    else if between Reg.offset0 Reg.offset3 reg
    then JobPhase.write_offset
    else if between Reg.drive_current0 Reg.drive_current3 reg
    then JobPhase.write_drive_current
    else if reg == Reg.error_config
    then JobPhase.write_error_config
    else if reg == Reg.mux_config
    then JobPhase.write_mux_config
    else if reg == Reg.config
    then JobPhase.write_final_config
    else if reg == Reg.reset_dev
    then JobPhase.software_reset
    else JobPhase.none

unfoldable pub configuration_channel_for_register : ℕ → Channel
configuration_channel_for_register reg =
    if between Reg.rcount0 Reg.rcount3 reg
    then to_channel (reg - Reg.rcount0)
    else if between Reg.settlecount0 Reg.settlecount3 reg
    then to_channel (reg - Reg.settlecount0)
    else if between Reg.clock_dividers0 Reg.clock_dividers3 reg
    then to_channel (reg - Reg.clock_dividers0)
    else if between Reg.offset0 Reg.offset3 reg
    then to_channel (reg - Reg.offset0)
    else if between Reg.drive_current0 Reg.drive_current3 reg
    then to_channel (reg - Reg.drive_current0)
    else Channel.none
