-- ===== src/Esp32/Clocks.antt =====
-- The frequency at which ESP-IDF drives the device that examples/esp32/I2cMasterTransport.cpp holds, over
-- the removal and the addition of device handles.
use ldc.Base.{
  ℕ, ◌≡◌, ◌==◌, ◌||◌, ◌&&◌, Bool, not, true, false, if◌then◌else◌, arith, Bool-cases, inl, inr,
  refl,
}
use ldc.Status.{is_ok}
use ldc.Esp32.{Context, DeviceConfig, Idf, is_set, map_esp_err, make_device_config}
use ldc.Esp32.Manage.{replace_device, remove_discovery, remove_device, remove_devices}

-- `speed h w` is the SCL frequency at which ESP-IDF addresses the device of handle `h`. A device that
-- is added gets the one of its configuration, with a handle that is not null. Removing a device changes
-- the frequency of no other, and of none where it fails.
pub record Clocks {W : Type 0} (idf : Idf W) (speed : ℕ → W → ℕ) : Type 0 where
  pub add_device :
      (bus : ℕ) (n : DeviceConfig) (w : W)
      → let r = idf.i2c_master_bus_add_device bus n w in
        r.0 ≡ idf.esp_ok → (speed r.1 r.2 ≡ n.scl_speed_hz) × (is_set r.1 ≡ true)
  pub rm_device :
      (h other : ℕ) (w : W)
      → let r = idf.i2c_master_bus_rm_device h w in
        (other == h && r.0 == idf.esp_ok) ≡ false → speed other r.1 ≡ speed other w

-- The device of the context, if there is one, runs at the frequency that the context holds.
abbrev pub RunsAt : {W : Type 0} → (ℕ → W → ℕ) → Context → W → Type 0
RunsAt speed c w =
    (if is_set c.device then speed c.device w else c.bus_config.frequency_hz)
    ≡ c.bus_config.frequency_hz

-- The device is not the one that a discovery has added.
abbrev pub is_distinct : Context → Bool
is_distinct c = not (is_set c.device) || not (c.device == c.discovery_device)

module _ {W : Type 0} (idf : Idf W) where
  map_code : (code : ℕ) → is_ok (map_esp_err idf code) ≡ (code == idf.esp_ok)
  unfolding map_esp_err is_ok
  map_code code = ground arith

  module _ (speed : ℕ → W → ℕ) (f : Clocks idf speed) where
    remove_discovery-RunsAt :
        (c : Context) (w : W)
        → is_distinct c ≡ true
        → RunsAt speed c w
        → let m = remove_discovery idf c w in
          RunsAt speed m.context m.world × (m.context.device ≡ c.device)
    unfolding remove_discovery
    remove_discovery-RunsAt c w d r = ground (
      arith,
      d,
      r,
      map_code (idf.i2c_master_bus_rm_device c.discovery_device w).0,
      f.rm_device c.discovery_device c.device w,
    )

    remove_device-RunsAt :
        (c : Context) (w : W)
        → RunsAt speed c w
        → let m = remove_device idf c w in
          RunsAt speed m.context m.world × ((is_ok m.status && is_set m.context.device) ≡ false)
    unfolding remove_device
    remove_device-RunsAt c w r = ground (
      arith,
      r,
      map_code (idf.i2c_master_bus_rm_device c.device w).0,
      f.rm_device c.device c.device w,
    )

    pub remove_devices-RunsAt :
        (c : Context) (w : W)
        → is_distinct c ≡ true
        → RunsAt speed c w
        → let m = remove_devices idf c w in
          RunsAt speed m.context m.world × ((is_ok m.status && is_set m.context.device) ≡ false)
    unfolding remove_devices
    remove_devices-RunsAt c w d r =
        let first = remove_discovery idf c w in
        let kept = remove_discovery-RunsAt c w d r in
        elim (Bool-cases (is_ok first.status)) [
          | inl e ↦ simp e (remove_device-RunsAt first.context first.world kept.0)
          | inr e ↦ simp e (kept.0, refl)
        ]

    pub replace_device-RunsAt :
        (hz : ℕ) (c : Context) (w : W)
        → is_set c.device ≡ false
        → let m = replace_device idf hz c w in
          RunsAt speed m.context m.world
          × ((if is_ok m.status then is_set m.context.device else true) ≡ true)
    unfolding replace_device
    replace_device-RunsAt hz c w d =
        let wanted = make_device_config idf c.address hz in
        let before = make_device_config idf c.address c.bus_config.frequency_hz in
        let added = idf.i2c_master_bus_add_device c.bus wanted w in
        let again = idf.i2c_master_bus_add_device c.bus before added.2 in
        ground (
          arith,
          d,
          map_code added.0,
          map_code again.0,
          f.add_device c.bus wanted w,
          f.add_device c.bus before added.2,
        )
