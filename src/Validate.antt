-- ===== src/Validate.antt =====
-- src/LDC1614.cpp, `validateConfig`: the checks in the order of the source, cut into the parts that
-- the clauses below compose.
pub mod Exact
pub mod Equal
use ldc.Base.{
  ℕ, zero, suc, ◌≡◌, arith, ◌+◌, ◌/◌, Bool, true, false, ◌&&◌, ◌||◌, not, ltb, leb, ◌==◌, ◌!=◌,
  if◌then◌else◌, bit_xor, has_bits,
}
use ldc.Status.{Status, Err, is_ok, ok_status, error, error_detail}
use ldc.Cmd
use ldc.Four
use ldc.Config.{
  Config, Channel, ChannelConfig, ChannelMask, I2cAddress, OperatingMode, RrSequence, index_bit,
  is_empty, contains, channel_bit, valid_channel_mask,
}
use ldc.Registers.{channel_count_for, is_concrete_channel, sequence_mask}
use ldc.Profile.{is_external, is_sequential}
use ldc.Clock.{
  mul64, add64, ceil_divide, reference_clock_bounds_hz, deglitch_bandwidth_hz, is_valid_deglitch,
  is_internal, internal_clock_min_hz, internal_clock_max_hz, external_clock_min_hz,
  external_clock_max_hz, max_tolerance_ppm, sensor_frequency_min_hz, sensor_frequency_max_hz,
}

-- `return` on the first status that is not ok.
abbrev pub and_then : Status → Status → Status
and_then first rest = if is_ok first then rest else first

abbrev pub is_known_address : I2cAddress → Bool
is_known_address I2cAddress.unspecified = false
is_known_address _ = true

-- `bits & ~allowed` as a uint8_t test.
abbrev pub exceeds : ChannelMask → ChannelMask → Bool
exceeds bits allowed = has_bits bits (bit_xor allowed 0xFF)

unfoldable pub check_transport : Config → Status
check_transport c =
    if c.i2c_write == 0 || c.i2c_write_read == 0
    then error Err.invalid_config
    else if c.i2c_timeout_ms == 0
    then error Err.invalid_config
    else if not (is_known_address c.i2c_address)
    then error Err.invalid_config
    else if channel_count_for c.variant == 0
    then error Err.invalid_config
    else if is_empty c.channels || exceeds c.channels (valid_channel_mask c.variant)
    then error Err.invalid_config
    else ok_status

unfoldable pub check_clock : Config → Status
check_clock c =
    let clock = c.reference_clock.frequency_hz in
    let source = c.reference_clock.source in
    let bounds = reference_clock_bounds_hz c in
    if not (is_internal source) && not (is_external source)
    then error Err.invalid_config
    else if is_internal source
        && (ltb clock internal_clock_min_hz || ltb internal_clock_max_hz clock)
    then error Err.invalid_config
    else if not (is_internal source)
        && (ltb clock external_clock_min_hz || ltb external_clock_max_hz clock)
    then error Err.invalid_config
    else if ltb max_tolerance_ppm c.reference_clock.tolerance_ppm
    then error Err.invalid_config
    else if not (is_internal source)
        && (ltb bounds.0 external_clock_min_hz || ltb external_clock_max_hz bounds.1)
    then error Err.invalid_config
    else ok_status

abbrev pub is_unspecified_sequence : RrSequence → Bool
is_unspecified_sequence RrSequence.unspecified = true
is_unspecified_sequence _ = false

abbrev pub is_channel_none : Channel → Bool
is_channel_none Channel.none = true
is_channel_none _ = false

abbrev pub is_channel0 : Channel → Bool
is_channel0 Channel.ch0 = true
is_channel0 _ = false

abbrev pub is_single : OperatingMode → Bool
is_single OperatingMode.single_channel = true
is_single _ = false

-- The sensor-activation test of the source rejects only values outside its enumeration.
unfoldable pub check_mode : Config → Status
check_mode c =
    let single =
      not (is_concrete_channel c.active_channel)
      || not (contains c.channels c.active_channel)
      || c.channels != channel_bit c.active_channel
      || not (is_unspecified_sequence c.rr_sequence) in
    let sequential =
      not (is_channel_none c.active_channel)
      || sequence_mask c.rr_sequence != c.channels
      || exceeds (sequence_mask c.rr_sequence) (valid_channel_mask c.variant) in
    if not (is_valid_deglitch c.deglitch)
    then error Err.invalid_config
    else if is_single c.mode && single
    then error Err.invalid_config
    else if is_sequential c.mode && sequential
    then error Err.invalid_config
    else if not (is_single c.mode) && not (is_sequential c.mode)
    then error Err.invalid_config
    else if c.high_current_drive_enabled
        && (not (is_single c.mode) || not (is_channel0 c.active_channel))
    then error Err.invalid_config
    else ok_status

-- What every physical channel of the variant needs.
unfoldable pub check_registers : ChannelConfig → ℕ → Status
check_registers ch index =
    if ltb ch.rcount Cmd.rcount_min
      || ltb ch.fin_divider Cmd.fin_divider_min
      || ltb Cmd.fin_divider_max ch.fin_divider
      || ltb ch.fref_divider Cmd.fref_divider_min
      || ltb Cmd.fref_divider_max ch.fref_divider
      || ltb Cmd.idrive_max ch.drive_current_code
    then error_detail Err.invalid_config index
    else ok_status

abbrev pub fref_limit : Config → ℕ
fref_limit c =
    if is_single c.mode
    then 35000000
    else if is_external c.reference_clock.source
    then 40000000
    else 55000000

-- What a channel selected for conversion needs, before the products of the timing rules.
unfoldable pub check_sensor : Config → ChannelConfig → ℕ → Status
check_sensor c ch index =
    let bad = error_detail Err.invalid_config index in
    if ltb ch.rcount Cmd.conversion_rcount_min || ltb ch.settle_count Cmd.conversion_settle_min
    then bad
    else if ltb ch.expected_sensor_min_hz sensor_frequency_min_hz
        || ltb sensor_frequency_max_hz ch.expected_sensor_max_hz
        || ltb ch.expected_sensor_max_hz ch.expected_sensor_min_hz
    then bad
    else if leb (deglitch_bandwidth_hz c.deglitch) ch.expected_sensor_max_hz
    then bad
    else if leb 8750000 ch.expected_sensor_max_hz && ltb ch.fin_divider 2
    then bad
    else ok_status

-- The timing rules of a selected channel, in uint64_t.
unfoldable pub check_timing : Config → ChannelConfig → ℕ → Status
check_timing c ch index =
    let bad = error_detail Err.invalid_config index in
    let clock_min = (reference_clock_bounds_hz c).0 in
    let clock_max = (reference_clock_bounds_hz c).1 in
    let fref_min = clock_min / ch.fref_divider in
    let fref_max = ceil_divide clock_max ch.fref_divider in
    let conversion_cycles = add64 (mul64 ch.rcount 16) 4 in
    if fref_min == 0 || ltb (fref_limit c) fref_max
    then bad
    else if ltb (mul64 (mul64 conversion_cycles ch.expected_sensor_min_hz) ch.fref_divider)
        (mul64 clock_max ch.fin_divider)
    then bad
    else if leb (mul64 (mul64 ch.expected_sensor_min_hz 65536) ch.fref_divider)
        (mul64 (mul64 ch.offset clock_max) ch.fin_divider)
    then bad
    else if leb (mul64 clock_min ch.fin_divider)
        (mul64 (mul64 ch.expected_sensor_max_hz 4) ch.fref_divider)
    then bad
    else ok_status

-- One round of the channel loop; an unselected channel is done after its registers.
unfoldable pub check_channel : Config → ℕ → Status
check_channel c index =
    let ch = Four.get c.channel index in
    and_then (check_registers ch index) (
      if has_bits c.channels (index_bit index)
      then and_then (check_sensor c ch index) (check_timing c ch index)
      else ok_status)

-- The channel loop, with the rounds left.
unfoldable pub check_channels : Config → ℕ → ℕ → Status
check_channels c zero index = ok_status
check_channels c (suc rounds) index =
    and_then (check_channel c index) (check_channels c rounds (index + 1))

unfoldable pub validate_config : Config → Status
validate_config c = and_then (check_transport c) (
    and_then (check_clock c)
      (and_then (check_mode c) (check_channels c (channel_count_for c.variant) 0)))

-- A validation succeeds if all its parts do.
pub and_then-is_ok :
    (a b : Status) → is_ok (and_then a b) ≡ true → (is_ok a ≡ true) × (is_ok b ≡ true)
and_then-is_ok a b h = ground arith
