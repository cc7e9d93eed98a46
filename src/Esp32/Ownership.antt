-- ===== src/Esp32/Ownership.antt =====
-- Every call of examples/esp32/I2cMasterTransport.cpp, and the handles that its context owns.
use ldc.Base.{ℕ, ◌≡◌, ◌==◌, ◌&&◌, ◌||◌, not, true, false, arith, Bool-cases, inl, inr, refl, ltb}
use ldc.Status.{is_ok}
use ldc.Esp32.{Context, BusConfig, Idf, is_set, valid_frequency, make_device_config}
use ldc.Esp32.Manage.{
  Managed, and_after, open_context, close, reopen, recover, set_frequency, replace_device,
  remove_discovery, remove_device, remove_devices, delete_bus,
}
use ldc.Esp32.Handles.{
  Accounts, Owned, LeavesOwned, map_ok, remove_discovery-Owned, remove_device-Owned,
  delete_bus-Owned, open_bus-Owned,
}

module _ {W : Type 0} (idf : Idf W) (buses devices : W → ℕ) (f : Accounts idf buses devices) where
  pub and_after-Owned :
      (m : Managed W) (next : Context → W → Managed W)
      → LeavesOwned idf buses devices m
      → (is_ok m.status ≡ true → LeavesOwned idf buses devices (next m.context m.world))
      → LeavesOwned idf buses devices (and_after m next)
  and_after-Owned m next o h = elim (Bool-cases (is_ok m.status)) [
    | inl e ↦ simp e (h e)
    | inr e ↦ simp e o
  ]

  pub open_context-Owned :
      (config : BusConfig) (c : Context) (w : W)
      → Owned idf buses devices c w
      → LeavesOwned idf buses devices (open_context idf config c w)
  unfolding open_context
  open_context-Owned config c w o =
      let closed = is_set c.bus || is_set c.device || is_set c.discovery_device in
      let bad =
        config.sda == idf.gpio_num_nc
        || config.scl == idf.gpio_num_nc
        || not (valid_frequency config.frequency_hz)
        || ltb c.address 0x08
        || ltb 0x77 c.address in
      elim (Bool-cases closed) [
        | inl e ↦ simp e o
        | inr e ↦ elim (Bool-cases bad) [
          | inl g ↦ simp (e, g) o
          | inr g ↦
              simp (e, g)
                (open_bus-Owned idf buses devices f config
                  (record c { bus_config = config; has_bus_config = true }) w
                  (ground (arith, o, e, g)) refl (ground (arith, e)) (ground (arith, e))
                  (ground (arith, e)))
        ]
      ]

  pub no_discovery :
      (c : Context) (w : W)
      → let m = remove_discovery idf c w in
        is_ok m.status ≡ true
        → (is_set m.context.discovery_device ≡ false)
          × (m.context.device ≡ c.device)
          × (m.context.bus ≡ c.bus)
          × (m.context.address ≡ c.address)
  unfolding remove_discovery
  no_discovery c w h = ground (arith, h)

  no_device :
      (c : Context) (w : W)
      → let m = remove_device idf c w in
        is_ok m.status ≡ true
        → (is_set m.context.device ≡ false)
          × (m.context.discovery_device ≡ c.discovery_device)
          × (m.context.bus ≡ c.bus)
  unfolding remove_device
  no_device c w h = ground (arith, h)

  pub remove_devices-Owned :
      (c : Context) (w : W)
      → Owned idf buses devices c w
      → LeavesOwned idf buses devices (remove_devices idf c w)
  unfolding remove_devices
  remove_devices-Owned c w o =
      let first = remove_discovery-Owned idf buses devices f c w o in
      and_after-Owned (remove_discovery idf c w) (remove_device idf) first
        (λ h. remove_device-Owned idf buses devices f _ _ first (no_discovery c w h).0)

  pub no_devices :
      (c : Context) (w : W)
      → let m = remove_devices idf c w in
        is_ok m.status ≡ true
        → (is_set m.context.discovery_device ≡ false)
          × (is_set m.context.device ≡ false)
          × (m.context.bus ≡ c.bus)
  unfolding remove_devices
  no_devices c w h =
      let m = remove_discovery idf c w in
      elim (Bool-cases (is_ok m.status)) [
        | inl e ↦ ground (arith, e, h, no_discovery c w e, no_device m.context m.world)
        | inr e ↦ absurd (ground (arith, e, h))
      ]

  pub close-Owned :
      (c : Context) (w : W)
      → Owned idf buses devices c w
      → LeavesOwned idf buses devices (close idf c w)
  unfolding close
  close-Owned c w o =
      let first = remove_devices-Owned c w o in
      and_after-Owned (remove_devices idf c w) (delete_bus idf) first
        (λ h. delete_bus-Owned idf buses devices f _ _ first (no_devices c w h).1)

  pub reopen-Owned :
      (c : Context) (w : W)
      → Owned idf buses devices c w
      → LeavesOwned idf buses devices (reopen idf c w)
  unfolding reopen
  reopen-Owned c w o =
      elim (Bool-cases (is_set c.bus || is_set c.device || is_set c.discovery_device)) [
        | inl e ↦ simp e o
        | inr e ↦ elim (Bool-cases c.has_bus_config) [
          | inl g ↦ simp (e, g) (open_context-Owned c.bus_config c w o)
          | inr g ↦ simp (e, g) o
        ]
      ]

  pub recover-Owned :
      (c : Context) (w : W)
      → Owned idf buses devices c w
      → LeavesOwned idf buses devices (recover idf c w)
  unfolding recover
  recover-Owned c w o = elim (Bool-cases c.has_bus_config) [
    | inl g ↦
        elim (Bool-cases ((is_set c.device || is_set c.discovery_device) && not (is_set c.bus))) [
          | inl e ↦ simp (e, g) o
          | inr e ↦
              simp (e, g)
                (and_after-Owned (close idf c w) (reopen idf) (close-Owned c w o)
                  (λ h. reopen-Owned _ _ (close-Owned c w o)))
        ]
    | inr g ↦ simp g o
  ]

  replace_device-Owned :
      (requested_hz : ℕ) (c : Context) (w : W)
      → Owned idf buses devices c w
      → is_set c.bus ≡ true
      → is_set c.device ≡ false
      → is_set c.discovery_device ≡ false
      → valid_frequency requested_hz ≡ true
      → LeavesOwned idf buses devices (replace_device idf requested_hz c w)
  unfolding replace_device
  replace_device-Owned requested_hz c w o b d k v =
      let wanted = make_device_config idf c.address requested_hz in
      let before = make_device_config idf c.address c.bus_config.frequency_hz in
      let added = idf.i2c_master_bus_add_device c.bus wanted w in
      let again = idf.i2c_master_bus_add_device c.bus before added.2 in
      ground (
        arith,
        o,
        b,
        d,
        k,
        v,
        f.add_device c.bus wanted w,
        f.add_device c.bus before added.2,
        map_ok idf buses devices f added.0,
        map_ok idf buses devices f again.0,
      )

  pub set_frequency-Owned :
      (requested_hz : ℕ) (c : Context) (w : W)
      → Owned idf buses devices c w
      → LeavesOwned idf buses devices (set_frequency idf requested_hz c w)
  unfolding set_frequency
  set_frequency-Owned hz c w o =
      let first = remove_devices-Owned c w o in
      let change = and_after-Owned (remove_devices idf c w) (replace_device idf hz) first in
      elim (Bool-cases (not (is_set c.bus) || not (is_set c.device) || not c.has_bus_config)) [
        | inl a ↦ simp a o
        | inr a ↦ elim (Bool-cases (valid_frequency hz)) [
          | inr v ↦ simp (a, v) o
          | inl v ↦ elim (Bool-cases (hz == c.bus_config.frequency_hz)) [
            | inl s ↦ simp (a, v, s) o
            | inr s ↦
                simp (a, v, s)
                  (change (λ h.
                    let gone = no_devices c w h in
                    replace_device-Owned hz _ _ first (ground (arith, gone, a)) gone.1 gone.0 v))
          ]
        ]
      ]
