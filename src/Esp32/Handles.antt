-- ===== src/Esp32/Handles.antt =====
-- The handles that examples/esp32/I2cMasterTransport.cpp keeps, against those that ESP-IDF has given
-- out: the statement, and the calls that create or remove one.
use ldc.Base.{
  ℕ, ◌+◌, ◌≡◌, ◌==◌, ◌&&◌, ◌||◌, not, Bool, true, false, if◌then◌else◌, List, arith, Bool-cases,
  inl, inr,
}
use ldc.Status.{is_ok}
use ldc.Esp32.{
  Context, BusConfig, DeviceConfig, NativeBusConfig, Idf, is_set, map_esp_err, valid_frequency,
  make_device_config,
}
use ldc.Esp32.Manage.{
  Managed, open_device, open_bus, remove_discovery, remove_device, delete_bus, native_bus_config,
}

abbrev pub count : ℕ → ℕ
count h = if h == 0 then 0 else 1

abbrev pub made : ℕ → ℕ → ℕ
made ok e = if e == ok then 1 else 0

-- `buses w` and `devices w` are the numbers of buses and devices that ESP-IDF has allocated. A call
-- that creates one and returns ESP_OK gives a handle that is not null; one that removes and returns
-- ESP_OK frees one; a call that fails, and a transfer, changes no number.
pub record Accounts {W : Type 0} (idf : Idf W) (buses devices : W → ℕ) : Type 0 where
  pub new_bus :
      (n : NativeBusConfig) (w : W)
      → let r = idf.i2c_new_master_bus n w in
        (buses r.2 ≡ buses w + made idf.esp_ok r.0)
        × (devices r.2 ≡ devices w)
        × ((r.0 == idf.esp_ok && r.1 == 0) ≡ false)
  pub add_device :
      (bus : ℕ) (n : DeviceConfig) (w : W)
      → let r = idf.i2c_master_bus_add_device bus n w in
        (devices r.2 ≡ devices w + made idf.esp_ok r.0)
        × (buses r.2 ≡ buses w)
        × ((r.0 == idf.esp_ok && r.1 == 0) ≡ false)
  pub rm_device :
      (h : ℕ) (w : W)
      → let r = idf.i2c_master_bus_rm_device h w in
        (devices w ≡ devices r.1 + made idf.esp_ok r.0) × (buses r.1 ≡ buses w)
  pub del_bus :
      (h : ℕ) (w : W)
      → let r = idf.i2c_del_master_bus h w in
        (buses w ≡ buses r.1 + made idf.esp_ok r.0) × (devices r.1 ≡ devices w)
  pub transmit :
      (h : ℕ) (tx : List ℕ) (timeout : ℕ) (w : W)
      → let r = idf.i2c_master_transmit h tx timeout w in
        (buses r.1 ≡ buses w) × (devices r.1 ≡ devices w)
  pub receive :
      (h : ℕ) (tx : List ℕ) (length timeout : ℕ) (w : W)
      → let r = idf.i2c_master_transmit_receive h tx length timeout w in
        (buses r.2 ≡ buses w) × (devices r.2 ≡ devices w)

abbrev implies : Bool → Bool → Bool
implies a b = not a || b

-- The members of a context belong together: a discovery device only beside the device, a device only
-- on a bus, a bus only with a configuration, whose frequency is in range.
pub record ContextInv (c : Context) : Type 0 where
  pub discovery : implies (is_set c.discovery_device) (is_set c.device) ≡ true
  pub discovery_known :
      implies
        (is_set c.discovery_device)
        (is_set c.discovery_address && not (c.discovery_address == c.address))
      ≡ true
  pub device : implies (is_set c.device) (is_set c.bus) ≡ true
  pub bus : implies (is_set c.bus) c.has_bus_config ≡ true
  pub frequency : implies c.has_bus_config (valid_frequency c.bus_config.frequency_hz) ≡ true

module _ {W : Type 0} (idf : Idf W) (buses devices : W → ℕ) where
  -- The handles of the context are all that ESP-IDF has allocated.
  pub record Owned (c : Context) (w : W) : Type 0 where
    pub inv : ContextInv c
    pub buses_owned : buses w ≡ count c.bus
    pub devices_owned : devices w ≡ count c.device + count c.discovery_device

  abbrev pub LeavesOwned : Managed W → Type 0
  LeavesOwned m = Owned m.context m.world

  module _ (f : Accounts idf buses devices) where
    pub map_ok : (e : ℕ) → is_ok (map_esp_err idf e) ≡ (e == idf.esp_ok)
    unfolding is_ok map_esp_err
    map_ok e = ground arith

    pub remove_discovery-Owned :
        (c : Context) (w : W) → Owned c w → LeavesOwned (remove_discovery idf c w)
    unfolding remove_discovery
    remove_discovery-Owned c w o = ground (
      arith,
      o,
      f.rm_device c.discovery_device w,
      map_ok (idf.i2c_master_bus_rm_device c.discovery_device w).0,
    )

    pub remove_device-Owned :
        (c : Context) (w : W)
        → Owned c w
        → is_set c.discovery_device ≡ false
        → LeavesOwned (remove_device idf c w)
    unfolding remove_device
    remove_device-Owned c w o h =
        ground
          (arith, o, h, f.rm_device c.device w, map_ok (idf.i2c_master_bus_rm_device c.device w).0)

    pub delete_bus-Owned :
        (c : Context) (w : W)
        → Owned c w
        → is_set c.device ≡ false
        → LeavesOwned (delete_bus idf c w)
    unfolding delete_bus
    delete_bus-Owned c w o h =
        ground (arith, o, h, f.del_bus c.bus w, map_ok (idf.i2c_del_master_bus c.bus w).0)

    open_device-Owned :
        (bus : ℕ) (config : BusConfig) (c : Context) (w : W)
        → Owned (record c { bus = bus }) w
        → is_set bus ≡ true
        → is_set c.bus ≡ false
        → is_set c.device ≡ false
        → is_set c.discovery_device ≡ false
        → LeavesOwned (open_device idf bus config c w)
    unfolding open_device
    open_device-Owned bus config c w o b c1 c2 c3 =
        let n = make_device_config idf c.address config.frequency_hz in
        let added = idf.i2c_master_bus_add_device bus n w in
        ground (
          arith,
          o,
          b,
          c1,
          c2,
          c3,
          f.add_device bus n w,
          map_ok added.0,
          f.del_bus bus added.2,
          map_ok (idf.i2c_del_master_bus bus added.2).0,
        )

    pub open_bus-Owned :
        (config : BusConfig) (c : Context) (w : W)
        → Owned c w
        → c.has_bus_config ≡ true
        → is_set c.bus ≡ false
        → is_set c.device ≡ false
        → is_set c.discovery_device ≡ false
        → LeavesOwned (open_bus idf config c w)
    unfolding open_bus
    open_bus-Owned config c w o k c1 c2 c3 =
        let created = idf.i2c_new_master_bus (native_bus_config idf config) w in
        let made_ok = map_ok created.0 in
        let new = f.new_bus (native_bus_config idf config) w in
        elim (Bool-cases (is_ok (map_esp_err idf created.0))) [
          | inl e ↦ simp e (
              open_device-Owned created.1 config c created.2
                (ground (arith, o, k, c1, c2, c3, new, made_ok, e))
                (ground (arith, new, made_ok, e)) c1 c2 c3)
          | inr e ↦ simp e (ground (arith, o, c1, new, made_ok, e))
        ]
