-- ===== src/Decode.antt =====
-- src/LDC1614.cpp, the pure decoders: STATUS words, DATAx pairs and drive-current codes.
pub mod Fields
pub mod Sample
use ldc.Base.{
  ℕ, ◌*◌, ◌/◌, ◌^◌, true, ◌||◌, ltb, ◌==◌, if◌then◌else◌, bit_and, bit_or, has_bits, List, [], ◌∷◌,
  zero, suc,
}
use ldc.Status.{Status, Err, ok_status, error}
use ldc.Cmd
use ldc.Cmd.Mask
use ldc.Cmd.Shift
use ldc.Config.{Channel, to_channel, channel_bit}
use ldc.Types.{
  DeviceStatus, has_error, ChannelSample, under_range, over_range, watchdog, amplitude_suspect,
}
use ldc.Profile.{or_when}

unfoldable pub decode_device_status : ℕ → DeviceStatus
decode_device_status raw =
    let unread0 = or_when (has_bits raw Mask.status_unreadconv0) (channel_bit Channel.ch0) 0 in
    let unread1 =
      or_when (has_bits raw Mask.status_unreadconv1) (channel_bit Channel.ch1) unread0 in
    let unread2 =
      or_when (has_bits raw Mask.status_unreadconv2) (channel_bit Channel.ch2) unread1 in
    let unread3 =
      or_when (has_bits raw Mask.status_unreadconv3) (channel_bit Channel.ch3) unread2 in
    let status : DeviceStatus = record {
      observed = true;
      error_channel = Channel.none;
      error_under_range = has_bits raw Mask.status_err_ur;
      error_over_range = has_bits raw Mask.status_err_or;
      error_watchdog = has_bits raw Mask.status_err_wd;
      error_amplitude_high = has_bits raw Mask.status_err_ahe;
      error_amplitude_low = has_bits raw Mask.status_err_ale;
      error_zero_count = has_bits raw Mask.status_err_zc;
      data_ready = has_bits raw Mask.status_drdy;
      unread_channels = unread3;
      raw = raw;
    } in
    if has_error status
    then record status {
      error_channel = to_channel (bit_and raw Mask.status_err_chan / 2 ^ Shift.status_err_chan);
    }
    else status

abbrev pub raw_count_max : ℕ
raw_count_max = 0x0FFFFFFF

unfoldable pub decode_channel_sample : ℕ → ℕ → ChannelSample
decode_channel_sample msb lsb =
    let count = bit_or (bit_and msb Mask.data_msb_data * 2 ^ 16) lsb in
    let q1 = or_when (has_bits msb Mask.data_err_ur || count == 0) under_range 0 in
    let q2 = or_when (has_bits msb Mask.data_err_or || count == raw_count_max) over_range q1 in
    let q3 = or_when (has_bits msb Mask.data_err_wd) watchdog q2 in
    let q4 = or_when (has_bits msb Mask.data_err_ae) amplitude_suspect q3 in
    record { raw_count28 = count; raw_data_msb = msb; raw_data_lsb = lsb; quality = q4 }

-- NOMINAL_MICROAMPS.
abbrev pub nominal_microamps : List ℕ
nominal_microamps =
    16 ∷ 18 ∷ 20 ∷ 23 ∷ 28 ∷ 32 ∷ 40 ∷ 46 ∷ 52 ∷ 59 ∷ 72 ∷ 82 ∷ 95 ∷ 110 ∷ 127 ∷ 146 ∷ 169 ∷ 195
    ∷ 212 ∷ 244 ∷ 297 ∷ 342 ∷ 424 ∷ 489 ∷ 551 ∷ 635 ∷ 763 ∷ 880 ∷ 1017 ∷ 1173 ∷ 1355 ∷ 1563 ∷ []

-- Item `i` of a constant table; the default stands for an index that the caller has ruled out.
abbrev pub get_or : List ℕ → ℕ → ℕ → ℕ
get_or [] i d = d
get_or (x ∷ xs) zero d = x
get_or (x ∷ xs) (suc i) d = get_or xs i d

unfoldable pub nominal_drive_current_microamps : ℕ → Status × ℕ
nominal_drive_current_microamps code =
    if ltb Cmd.idrive_max code
    then (error Err.invalid_param, 0)
    else (ok_status, get_or nominal_microamps code 0)
