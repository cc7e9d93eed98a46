-- ===== src/Config.antt =====
-- include/LDC1614/Config.h: the desired profile of a device, with the defaults of every member.
use ldc.Base.{ℕ, ◌^◌, Bool, true, false, ◌==◌, ◌&&◌, ltb, has_bits, u8, if◌then◌else◌}
use ldc.Four.{Four, four}

pub data I2cAddress : Type 0 where
  unspecified addr_gnd addr_vdd : I2cAddress

abbrev pub i2c_address_code : I2cAddress → ℕ
i2c_address_code I2cAddress.unspecified = 0
i2c_address_code I2cAddress.addr_gnd = 0x2A
i2c_address_code I2cAddress.addr_vdd = 0x2B

pub data DeviceVariant : Type 0 where
  unspecified ldc1612 ldc1614 : DeviceVariant

pub data Channel : Type 0 where
  ch0 ch1 ch2 ch3 none : Channel

-- The underlying uint8_t of a channel.
abbrev pub channel_index : Channel → ℕ
channel_index Channel.ch0 = 0
channel_index Channel.ch1 = 1
channel_index Channel.ch2 = 2
channel_index Channel.ch3 = 3
channel_index Channel.none = 0xFF

-- `static_cast<Channel>(index)`, which the source applies to an index below 4.
abbrev pub to_channel : ℕ → Channel
to_channel i =
    if i == 0
    then Channel.ch0
    else if i == 1
    then Channel.ch1
    else if i == 2
    then Channel.ch2
    else if i == 3
    then Channel.ch3
    else Channel.none

-- A channel mask is its one field, the uint8_t `bits`.
abbrev pub ChannelMask : Type 0
ChannelMask = ℕ

abbrev pub is_empty : ChannelMask → Bool
is_empty bits = bits == 0

-- `1U << index`, narrowed to uint8_t.
abbrev pub index_bit : ℕ → ℕ
index_bit i = u8 (2 ^ i)

abbrev pub contains : ChannelMask → Channel → Bool
contains bits ch = ltb (channel_index ch) 4 && has_bits bits (index_bit (channel_index ch))

abbrev pub channel_bit : Channel → ChannelMask
channel_bit ch = if ltb (channel_index ch) 4 then index_bit (channel_index ch) else 0

abbrev pub valid_channel_mask : DeviceVariant → ChannelMask
valid_channel_mask DeviceVariant.ldc1612 = 0x03
valid_channel_mask DeviceVariant.ldc1614 = 0x0F
valid_channel_mask DeviceVariant.unspecified = 0

pub data RefClkSrc : Type 0 where
  unspecified internal external_clock : RefClkSrc

pub record ReferenceClock : Type 0 where
  pub source : RefClkSrc
  pub frequency_hz : ℕ
  pub tolerance_ppm : ℕ

pub data SensorActivation : Type 0 where
  full_current low_power : SensorActivation

pub data Deglitch : Type 0 where
  unspecified bw_1mhz bw_3mhz bw_10mhz bw_33mhz : Deglitch

abbrev pub deglitch_code : Deglitch → ℕ
deglitch_code Deglitch.unspecified = 0
deglitch_code Deglitch.bw_1mhz = 1
deglitch_code Deglitch.bw_3mhz = 4
deglitch_code Deglitch.bw_10mhz = 5
deglitch_code Deglitch.bw_33mhz = 7

pub data OperatingMode : Type 0 where
  unspecified single_channel multi_channel_sequential : OperatingMode

pub data RrSequence : Type 0 where
  ch0_ch1 ch0_ch1_ch2 ch0_ch1_ch2_ch3 unspecified : RrSequence

abbrev pub rr_sequence_code : RrSequence → ℕ
rr_sequence_code RrSequence.ch0_ch1 = 0
rr_sequence_code RrSequence.ch0_ch1_ch2 = 1
rr_sequence_code RrSequence.ch0_ch1_ch2_ch3 = 2
rr_sequence_code RrSequence.unspecified = 0xFF

pub record ErrorReporting : Type 0 where
  pub data_under_range : Bool
  pub data_over_range : Bool
  pub data_watchdog : Bool
  pub data_amplitude_high : Bool
  pub data_amplitude_low : Bool
  pub status_under_range : Bool
  pub status_over_range : Bool
  pub status_watchdog : Bool
  pub status_amplitude_high : Bool
  pub status_amplitude_low : Bool
  pub status_zero_count : Bool
  pub data_ready : Bool

abbrev pub no_error_reporting : ErrorReporting
no_error_reporting = record {
  data_under_range = false;
  data_over_range = false;
  data_watchdog = false;
  data_amplitude_high = false;
  data_amplitude_low = false;
  status_under_range = false;
  status_over_range = false;
  status_watchdog = false;
  status_amplitude_high = false;
  status_amplitude_low = false;
  status_zero_count = false;
  data_ready = false;
}

-- `ErrorReporting::all()`.
abbrev pub all_error_reporting : ErrorReporting
all_error_reporting = record {
  data_under_range = true;
  data_over_range = true;
  data_watchdog = true;
  data_amplitude_high = true;
  data_amplitude_low = true;
  status_under_range = true;
  status_over_range = true;
  status_watchdog = true;
  status_amplitude_high = true;
  status_amplitude_low = true;
  status_zero_count = true;
  data_ready = true;
}

pub record ChannelConfig : Type 0 where
  pub rcount : ℕ
  pub settle_count : ℕ
  pub fin_divider : ℕ
  pub fref_divider : ℕ
  pub offset : ℕ
  pub drive_current_code : ℕ
  pub expected_sensor_min_hz : ℕ
  pub expected_sensor_max_hz : ℕ

abbrev pub default_channel_config : ChannelConfig
default_channel_config = record {
  rcount = 0;
  settle_count = 0;
  fin_divider = 0;
  fref_divider = 0;
  offset = 0;
  drive_current_code = 0xFF;
  expected_sensor_min_hz = 0;
  expected_sensor_max_hz = 0;
}

-- A callback or context pointer is its address, 0 for nullptr: the driver compares these, passes
-- the contexts on and calls the callbacks.
pub record Config : Type 0 where
  pub i2c_write : ℕ
  pub i2c_write_read : ℕ
  pub i2c_user : ℕ
  pub i2c_timeout_ms : ℕ
  pub i2c_address : I2cAddress
  pub intb_asserted : ℕ
  pub intb_user : ℕ
  pub variant : DeviceVariant
  pub channels : ChannelMask
  pub channel : Four ChannelConfig
  pub reference_clock : ReferenceClock
  pub mode : OperatingMode
  pub active_channel : Channel
  pub rr_sequence : RrSequence
  pub deglitch : Deglitch
  pub sensor_activation : SensorActivation
  pub rp_override_enabled : Bool
  pub auto_amplitude_correction_enabled : Bool
  pub high_current_drive_enabled : Bool
  pub intb_disabled : Bool
  pub error_reporting : ErrorReporting

abbrev pub default_config : Config
default_config = record {
  i2c_write = 0;
  i2c_write_read = 0;
  i2c_user = 0;
  i2c_timeout_ms = 0;
  i2c_address = I2cAddress.unspecified;
  intb_asserted = 0;
  intb_user = 0;
  variant = DeviceVariant.unspecified;
  channels = 0;
  channel = four default_channel_config;
  reference_clock = record { source = RefClkSrc.unspecified; frequency_hz = 0; tolerance_ppm = 0 };
  mode = OperatingMode.unspecified;
  active_channel = Channel.none;
  rr_sequence = RrSequence.unspecified;
  deglitch = Deglitch.unspecified;
  sensor_activation = SensorActivation.low_power;
  rp_override_enabled = true;
  auto_amplitude_correction_enabled = false;
  high_current_drive_enabled = false;
  intb_disabled = true;
  error_reporting = no_error_reporting;
}
