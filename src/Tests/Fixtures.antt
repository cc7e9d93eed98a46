-- ===== src/Tests/Fixtures.antt =====
-- Concrete data for the tests: the profile of README.md, and buses that answer every transfer.
use ldc.Base.{ℕ, ◌+◌, true, false, ◌==◌, if◌then◌else◌, List, [], ◌∷◌, arith}
use ldc.Status.{ok_status}
use ldc.Cmd.Reg
use ldc.Config.{
  Config, ChannelConfig, I2cAddress, DeviceVariant, Channel, RefClkSrc, OperatingMode, RrSequence,
  Deglitch, SensorActivation, all_error_reporting,
}
use ldc.Types.{JobKind, JobPhase, no_job_progress}
use ldc.Driver.{Driver, initial}
use ldc.Bus.{Bus}
use ldc.Api.{Call, binds, initializes, polls, wakes, acquires}
use ldc.Round.Cost.{Charges}

abbrev pub channel_profile : ℕ → ℕ → ChannelConfig
channel_profile low high = record {
  rcount = 0x04D6;
  settle_count = 0x000A;
  fin_divider = 2;
  fref_divider = 2;
  offset = 0;
  drive_current_code = 10;
  expected_sensor_min_hz = low;
  expected_sensor_max_hz = high;
}

abbrev pub profile : Config
profile = record {
  i2c_write = 1;
  i2c_write_read = 2;
  i2c_user = 3;
  i2c_timeout_ms = 20;
  i2c_address = I2cAddress.addr_gnd;
  intb_asserted = 0;
  intb_user = 0;
  variant = DeviceVariant.ldc1614;
  channels = 1;
  channel = record {
    at0 = channel_profile 100000 5000000;
    at1 = channel_profile 0 0;
    at2 = channel_profile 0 0;
    at3 = channel_profile 0 0;
  };
  reference_clock = record {
    source = RefClkSrc.internal;
    frequency_hz = 43000000;
    tolerance_ppm = 200000;
  };
  mode = OperatingMode.single_channel;
  active_channel = Channel.ch0;
  rr_sequence = RrSequence.unspecified;
  deglitch = Deglitch.bw_10mhz;
  sensor_activation = SensorActivation.full_current;
  rp_override_enabled = true;
  auto_amplitude_correction_enabled = false;
  high_current_drive_enabled = false;
  intb_disabled = true;
  error_reporting = all_error_reporting;
}

-- The two bytes that a healthy device answers.
abbrev pub answer : List ℕ → ℕ × ℕ
answer [] = (0, 0)
answer (reg ∷ _) =
    if reg == Reg.manufacturer_id
    then (0x54, 0x49)
    else if reg == Reg.device_id
    then (0x30, 0x55)
    else if reg == Reg.status
    then (0x00, 0x48)
    else (0x01, 0x23)

-- The world counts the transfers.
abbrev pub counting_bus : Bus ℕ
counting_bus = record {
  i2c_write = λ f a tx t u w. (ok_status, w + 1);
  i2c_write_read = λ f a tx t u w. (ok_status, answer tx, w + 1);
  intb_asserted = λ f u w. (ok_status, true, w);
}

-- The world is the time, and every transfer takes its whole timeout.
abbrev pub slow_bus : Bus ℕ
slow_bus = record {
  i2c_write = λ f a tx t u w. (ok_status, w + t);
  i2c_write_read = λ f a tx t u w. (ok_status, answer tx, w + t);
  intb_asserted = λ f u w. (ok_status, true, w);
}

pub counting_bus-Charges : (timeout : ℕ) → Charges counting_bus (λ w. w) timeout 1
counting_bus-Charges t = record {
  writes = λ f a tx u w. omega arith;
  reads = λ f a tx u w. omega arith;
}

pub slow_bus-Charges : (timeout : ℕ) → Charges slow_bus (λ w. w) timeout timeout
slow_bus-Charges t = record {
  writes = λ f a tx u w. omega arith;
  reads = λ f a tx u w. omega arith;
}

-- A driver that has admitted an initialization with its deadline at 100.
abbrev pub started : Driver
started = record initial {
  bound = true;
  config = profile;
  config_revision = 1;
  progress = record no_job_progress {
    active = true;
    operation_id = 7;
    kind = JobKind.initialize;
    phase = JobPhase.verify_manufacturer;
    register_address = Reg.manufacturer_id;
    deadline_ms = 100;
    maximum_transfers = 25;
    config_revision = 1;
  };
}

-- The life of a driver up to its first acquisition.
abbrev pub first_acquisition : List Call
first_acquisition =
    binds profile ∷ initializes 7 100 ∷ polls 0 30 ∷ wakes ∷ acquires 1 8 200 ∷ polls 100 30 ∷ []
