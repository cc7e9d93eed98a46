-- ===== src/Tests/Profiles.antt =====
-- The profile of README.md: its encoding, its validation and its expected registers.
use ldc.Base.{◌≡◌, ◌&&◌, refl, arith, bit, ltb, if◌then◌else◌}
use ldc.Config.{all_error_reporting}
use ldc.Types.{JobKind, no_device_status}
use ldc.Validate.{validate_config}
use ldc.Validate.Exact.{profile_rules, IsTypedConfig}
use ldc.Validate.Equal.{validate_config-exact}
use ldc.Profile.{encode_error_reporting, configuration_transfer_count}
use ldc.Profile.Encode.{decode_error_reporting, decode-encode_error_reporting}
use ldc.Profile.Expected.{from_row, expected-row}
use ldc.Direct.{expected_configuration_register}
use ldc.Batch.{
  build_acquisition, final_quality, fresh_quality, status_quality, publish_channel,
  publish_channels, batch_header,
}
use ldc.Batch.Masks.{is_valid_at, is_error_at, build_acquisition-bits}
use ldc.Batch.Quality.{build_acquisition-valid}
use ldc.Driver.{Driver, configured_channel_count}
use ldc.Trust.{register_at}
use ldc.Tests.Fixtures.{profile, started}
use ldc.Tests.Facts.{profile-is_ok}

decode-encode_error_reporting_example :
    decode_error_reporting (encode_error_reporting all_error_reporting) ≡ all_error_reporting
decode-encode_error_reporting_example = decode-encode_error_reporting all_error_reporting

profile-IsTypedConfig : IsTypedConfig profile
profile-IsTypedConfig = λ i. ground arith

validate_config-exact_example : validate_config profile ≡ profile_rules profile
validate_config-exact_example = validate_config-exact profile profile-IsTypedConfig

expected-row_example :
    expected_configuration_register profile (register_at profile 4) ≡ from_row profile 4
unfolding configuration_transfer_count
expected-row_example = expected-row profile profile-is_ok 4 (ground arith)

-- An acquisition of channel 0 whose two STATUS reads saw a fresh conversion.
abbrev acquired : Driver
acquired = record started {
  progress = record started.progress {
    kind = JobKind.acquire;
    requested_channels = 1;
    completed_channels = 1;
  };
  scratch_status_before = record no_device_status { unread_channels = 1 };
  scratch_completed = 1;
}

build_acquisition-bits_example :
    let b = build_acquisition acquired 50 in
    let physical = ltb 0 (configured_channel_count acquired) in
    (bit b.valid_channels 0 ≡ (if physical && is_valid_at acquired b 0 then 1 else 0))
    × (bit b.error_channels 0 ≡ (if physical && is_error_at acquired b 0 then 1 else 0))
build_acquisition-bits_example = build_acquisition-bits acquired 50 0

build_acquisition-valid_example :
    let b = build_acquisition acquired 50 in
    (bit b.selected_channels 0 ≡ 1) × (bit b.fresh_channels 0 ≡ 1) × (bit b.error_channels 0 ≡ 0)
unfolding build_acquisition batch_header publish_channels publish_channel final_quality
    fresh_quality status_quality
build_acquisition-valid_example = build_acquisition-valid acquired 50 0 refl
