-- ===== src/Esp32.antt =====
-- examples/esp32/I2cMasterTransport.h and .cpp: the context of the ESP32 transport, over the I2C
-- master of ESP-IDF, which is a parameter.
pub mod Manage
pub mod Transfer
pub mod Contract
pub mod Handles
pub mod Ownership
pub mod Calls
pub mod Clocks
pub mod Frequency
use ldc.Base.{ℕ, ◌+◌, Bool, true, false, ◌&&◌, ◌||◌, ◌==◌, ltb, leb, if◌then◌else◌, List}
use ldc.Status.{Status, Err, is_ok, ok_status, error, error_detail}
use ldc.Bus.{saturating_suc}

-- A handle or a pin is a number; the handle 0 is nullptr. A code is the 32-bit pattern of esp_err_t.
pub record BusConfig : Type 0 where
  pub port : ℕ
  pub sda : ℕ
  pub scl : ℕ
  pub frequency_hz : ℕ
  pub enable_internal_pullups : Bool

pub record TransferStats : Type 0 where
  pub writes : ℕ
  pub write_reads : ℕ
  pub discoveries : ℕ
  pub failures : ℕ
  pub last_status : Status

pub record Context : Type 0 where
  pub bus : ℕ
  pub device : ℕ
  pub discovery_device : ℕ
  pub bus_config : BusConfig
  pub address : ℕ
  pub discovery_address : ℕ
  pub intb : ℕ
  pub has_bus_config : Bool
  pub transfer_stats : TransferStats

-- `i2c_master_bus_config_t` and `i2c_device_config_t`, as far as they are set.
pub record NativeBusConfig : Type 0 where
  pub clk_source : ℕ
  pub i2c_port : ℕ
  pub sda_io_num : ℕ
  pub scl_io_num : ℕ
  pub glitch_ignore_cnt : ℕ
  pub enable_internal_pullup : Bool

pub record DeviceConfig : Type 0 where
  pub dev_addr_length : ℕ
  pub device_address : ℕ
  pub scl_speed_hz : ℕ

-- ESP-IDF: its constants, and its functions on a world that holds the controller and the wires.
-- A call that creates a handle returns it with the code.
pub record Idf (W : Type 0) : Type 0 where
  pub esp_ok : ℕ
  pub esp_err_timeout : ℕ
  pub esp_err_invalid_response : ℕ
  pub esp_err_invalid_arg : ℕ
  pub esp_err_invalid_state : ℕ
  pub esp_err_no_mem : ℕ
  pub esp_err_not_found : ℕ
  pub gpio_num_nc : ℕ
  pub i2c_num_0 : ℕ
  pub i2c_clk_src_default : ℕ
  pub i2c_addr_bit_len_7 : ℕ
  pub i2c_new_master_bus : NativeBusConfig → W → ℕ × ℕ × W
  pub i2c_master_bus_add_device : ℕ → DeviceConfig → W → ℕ × ℕ × W
  pub i2c_master_bus_rm_device : ℕ → W → ℕ × W
  pub i2c_del_master_bus : ℕ → W → ℕ × W
  -- device, data, timeout
  pub i2c_master_transmit : ℕ → List ℕ → ℕ → W → ℕ × W
  -- device, data to send, length to receive, timeout; the bytes received
  pub i2c_master_transmit_receive : ℕ → List ℕ → ℕ → ℕ → W → ℕ × List ℕ × W
  pub gpio_get_level : ℕ → W → ℕ

abbrev pub default_transfer_stats : TransferStats
default_transfer_stats = record {
  writes = 0;
  write_reads = 0;
  discoveries = 0;
  failures = 0;
  last_status = ok_status;
}

abbrev pub min_i2c_frequency_hz : ℕ
min_i2c_frequency_hz = 10000

abbrev pub max_i2c_frequency_hz : ℕ
max_i2c_frequency_hz = 400000

abbrev pub int_max : ℕ
int_max = 2147483647

unfoldable pub clamp_timeout_ms : ℕ → ℕ
clamp_timeout_ms timeout_ms = if ltb int_max timeout_ms then int_max else timeout_ms

unfoldable pub valid_frequency : ℕ → Bool
valid_frequency frequency_hz =
    leb min_i2c_frequency_hz frequency_hz && leb frequency_hz max_i2c_frequency_hz

pub data TransferKind : Type 0 where
  write write_read discovery : TransferKind

abbrev is_write : TransferKind → Bool
is_write TransferKind.write = true
is_write _ = false

abbrev is_write_read : TransferKind → Bool
is_write_read TransferKind.write_read = true
is_write_read _ = false

abbrev is_discovery : TransferKind → Bool
is_discovery TransferKind.discovery = true
is_discovery _ = false

unfoldable pub record_transfer : TransferKind → Status → Context → Context
record_transfer kind status c =
    let s = c.transfer_stats in
    record c {
      transfer_stats = record {
        writes = if is_write kind then saturating_suc s.writes else s.writes;
        write_reads = if is_write_read kind then saturating_suc s.write_reads else s.write_reads;
        discoveries = if is_discovery kind then saturating_suc s.discoveries else s.discoveries;
        failures = if is_ok status then s.failures else saturating_suc s.failures;
        last_status = status;
      };
    }

abbrev pub is_set : ℕ → Bool
is_set handle = if handle == 0 then false else true

module _ {W : Type 0} (idf : Idf W) where
  -- The members of a `Context` that nothing has set.
  abbrev pub default_context : Context
  default_context = record {
    bus = 0;
    device = 0;
    discovery_device = 0;
    bus_config = record {
      port = idf.i2c_num_0;
      sda = idf.gpio_num_nc;
      scl = idf.gpio_num_nc;
      frequency_hz = 400000;
      enable_internal_pullups = true;
    };
    address = 0x2A;
    discovery_address = 0;
    intb = idf.gpio_num_nc;
    has_bus_config = false;
    transfer_stats = default_transfer_stats;
  }

  unfoldable pub map_esp_err : ℕ → Status
  map_esp_err e =
      if e == idf.esp_ok
      then ok_status
      else if e == idf.esp_err_timeout
      then error_detail Err.i2c_timeout e
      else if e == idf.esp_err_invalid_response
      then error_detail Err.i2c_error e
      else if e == idf.esp_err_invalid_arg
      then error_detail Err.invalid_param e
      else if e == idf.esp_err_invalid_state
      then error_detail Err.i2c_bus e
      else if e == idf.esp_err_no_mem || e == idf.esp_err_not_found
      then error_detail Err.i2c_bus e
      else error_detail Err.i2c_error e

  unfoldable pub map_transaction_err : ℕ → Status
  map_transaction_err e =
      if e == idf.esp_err_invalid_state then error_detail Err.i2c_error e else map_esp_err e

  abbrev pub make_device_config : ℕ → ℕ → DeviceConfig
  make_device_config address frequency_hz = record {
    dev_addr_length = idf.i2c_addr_bit_len_7;
    device_address = address;
    scl_speed_hz = frequency_hz;
  }
