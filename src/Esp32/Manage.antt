-- ===== src/Esp32/Manage.antt =====
-- examples/esp32/I2cMasterTransport.cpp: the bus and its device handles.
use ldc.Base.{ℕ, true, ◌&&◌, ◌||◌, not, ◌==◌, ltb, if◌then◌else◌}
use ldc.Status.{Status, Err, is_ok, ok_status, error, error_detail}
use ldc.Esp32.{
  BusConfig, Context, NativeBusConfig, Idf, valid_frequency, is_set, map_esp_err,
  make_device_config,
}

-- What a call on a context leaves.
pub record Managed (W : Type 0) : Type 0 where
  pub status : Status
  pub context : Context
  pub world : W

unfoldable pub frequency_hz : Context → ℕ
frequency_hz c = if c.has_bus_config then c.bus_config.frequency_hz else 0

-- The next call, after one that has succeeded.
abbrev pub and_after : {W : Type 0} → Managed W → (Context → W → Managed W) → Managed W
and_after m next = if is_ok m.status then next m.context m.world else m

module _ {W : Type 0} (idf : Idf W) where
  abbrev pub native_bus_config : BusConfig → NativeBusConfig
  native_bus_config config = record {
    clk_source = idf.i2c_clk_src_default;
    i2c_port = config.port;
    sda_io_num = config.sda;
    scl_io_num = config.scl;
    glitch_ignore_cnt = 7;
    enable_internal_pullup = config.enable_internal_pullups;
  }

  -- The device on a bus that has just been created.
  unfoldable pub open_device : ℕ → BusConfig → Context → W → Managed W
  open_device bus config c w =
      let added =
        idf.i2c_master_bus_add_device bus (make_device_config idf c.address config.frequency_hz)
          w in
      let status = map_esp_err idf added.0 in
      let rollback = idf.i2c_del_master_bus bus added.2 in
      if is_ok status
      then record {
        status = ok_status;
        context = record c { bus = bus; device = added.1 };
        world = added.2;
      }
      else if rollback.0 == idf.esp_ok
      then record { status = status; context = c; world = rollback.1 }
      else record {
        status = map_esp_err idf rollback.0;
        context = record c { bus = bus };
        world = rollback.1;
      }

  unfoldable pub open_bus : BusConfig → Context → W → Managed W
  open_bus config c w =
      let created = idf.i2c_new_master_bus (native_bus_config config) w in
      let status = map_esp_err idf created.0 in
      if is_ok status
      then open_device created.1 config c created.2
      else record { status = status; context = c; world = created.2 }

  unfoldable pub open_context : BusConfig → Context → W → Managed W
  open_context config c w =
      if is_set c.bus || is_set c.device || is_set c.discovery_device
      then record { status = error Err.i2c_bus; context = c; world = w }
      else if config.sda == idf.gpio_num_nc
          || config.scl == idf.gpio_num_nc
          || not (valid_frequency config.frequency_hz)
          || ltb c.address 0x08
          || ltb 0x77 c.address
      then record { status = error Err.invalid_config; context = c; world = w }
      else open_bus config (record c { bus_config = config; has_bus_config = true }) w

  -- The first block of `close`, the same block of `setFrequency`, and the removal of a stale device
  -- in `readRegisterAt`.
  unfoldable pub remove_discovery : Context → W → Managed W
  remove_discovery c w =
      let removed = idf.i2c_master_bus_rm_device c.discovery_device w in
      let status = map_esp_err idf removed.0 in
      if not (is_set c.discovery_device)
      then record { status = ok_status; context = c; world = w }
      else if is_ok status
      then record {
        status = status;
        context = record c { discovery_device = 0; discovery_address = 0 };
        world = removed.1;
      }
      else record { status = status; context = c; world = removed.1 }

  unfoldable pub remove_device : Context → W → Managed W
  remove_device c w =
      let removed = idf.i2c_master_bus_rm_device c.device w in
      let status = map_esp_err idf removed.0 in
      if not (is_set c.device)
      then record { status = ok_status; context = c; world = w }
      else if is_ok status
      then record { status = status; context = record c { device = 0 }; world = removed.1 }
      else record { status = status; context = c; world = removed.1 }

  -- The first two blocks of `close`, and the same two of `setFrequency`.
  unfoldable pub remove_devices : Context → W → Managed W
  remove_devices c w = and_after (remove_discovery c w) remove_device

  unfoldable pub delete_bus : Context → W → Managed W
  delete_bus c w =
      let deleted = idf.i2c_del_master_bus c.bus w in
      let status = map_esp_err idf deleted.0 in
      if not (is_set c.bus)
      then record { status = ok_status; context = c; world = w }
      else if is_ok status
      then record { status = status; context = record c { bus = 0 }; world = deleted.1 }
      else record { status = status; context = c; world = deleted.1 }

  unfoldable pub close : Context → W → Managed W
  close c w = and_after (remove_devices c w) delete_bus

  unfoldable pub reopen : Context → W → Managed W
  reopen c w =
      if is_set c.bus || is_set c.device || is_set c.discovery_device
      then record { status = error Err.i2c_bus; context = c; world = w }
      else if not c.has_bus_config
      then record { status = error Err.invalid_config; context = c; world = w }
      else open_context c.bus_config c w

  unfoldable pub recover : Context → W → Managed W
  recover c w =
      if not c.has_bus_config
      then record { status = error Err.invalid_config; context = c; world = w }
      else if (is_set c.device || is_set c.discovery_device) && not (is_set c.bus)
      then record { status = error Err.i2c_bus; context = c; world = w }
      else and_after (close c w) reopen

  -- The device at the new frequency or, where that fails, at the previous one again.
  unfoldable pub replace_device : ℕ → Context → W → Managed W
  replace_device requested_hz c w =
      let previous_hz = c.bus_config.frequency_hz in
      let added =
        idf.i2c_master_bus_add_device c.bus (make_device_config idf c.address requested_hz) w in
      let status = map_esp_err idf added.0 in
      let again =
        idf.i2c_master_bus_add_device c.bus (make_device_config idf c.address previous_hz)
          added.2 in
      let rollback = map_esp_err idf again.0 in
      if is_ok status
      then record {
        status = status;
        context = record c {
          device = added.1;
          bus_config = record c.bus_config { frequency_hz = requested_hz };
        };
        world = added.2;
      }
      else if not (is_ok rollback)
      then record { status = rollback; context = c; world = again.2 }
      else record { status = status; context = record c { device = again.1 }; world = again.2 }

  unfoldable pub set_frequency : ℕ → Context → W → Managed W
  set_frequency requested_hz c w =
      if not (is_set c.bus) || not (is_set c.device) || not c.has_bus_config
      then record { status = error Err.i2c_bus; context = c; world = w }
      else if not (valid_frequency requested_hz)
      then record { status = error_detail Err.invalid_param requested_hz; context = c; world = w }
      else if requested_hz == c.bus_config.frequency_hz
      then record { status = ok_status; context = c; world = w }
      else and_after (remove_devices c w) (replace_device requested_hz)
