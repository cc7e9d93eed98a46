-- ===== src/Esp32/Frequency.antt =====
-- examples/esp32/I2cMasterTransport.cpp: what `setFrequency` and `close` leave.
use ldc.Base.{
  ℕ, ◌≡◌, ◌==◌, ◌||◌, ◌&&◌, not, true, false, if◌then◌else◌, arith, Bool-cases, inl, inr, refl,
}
use ldc.Status.{is_ok}
use ldc.Esp32.{Context, Idf, is_set, valid_frequency}
use ldc.Esp32.Manage.{
  close, set_frequency, replace_device, remove_discovery, remove_device, remove_devices, delete_bus,
  frequency_hz,
}
use ldc.Esp32.Clocks.{Clocks, RunsAt, is_distinct, remove_devices-RunsAt, replace_device-RunsAt}
use ldc.Esp32.Handles.{Accounts, Owned}
use ldc.Esp32.Ownership.{no_devices, close-Owned}

module _ {W : Type 0} (idf : Idf W) where
  abbrev SameConfig : Context → Context → Type 0
  SameConfig c e = (e.bus_config ≡ c.bus_config) × (e.has_bus_config ≡ c.has_bus_config)

  remove_discovery-SameConfig :
      (c : Context) (w : W) → SameConfig c (remove_discovery idf c w).context
  unfolding remove_discovery
  remove_discovery-SameConfig c w = ground arith

  remove_device-SameConfig : (c : Context) (w : W) → SameConfig c (remove_device idf c w).context
  unfolding remove_device
  remove_device-SameConfig c w = ground arith

  remove_devices-SameConfig : (c : Context) (w : W) → SameConfig c (remove_devices idf c w).context
  unfolding remove_devices
  remove_devices-SameConfig c w =
      let m = remove_discovery idf c w in
      ground (arith, remove_discovery-SameConfig c w, remove_device-SameConfig m.context m.world)

  replace_device-exact :
      (hz : ℕ) (c : Context) (w : W)
      → let m = replace_device idf hz c w in
        (m.context.bus_config.frequency_hz
          ≡ (if is_ok m.status then hz else c.bus_config.frequency_hz))
        × (m.context.has_bus_config ≡ c.has_bus_config)
  unfolding replace_device
  replace_device-exact hz c w = ground arith

  cached_frequency :
      (requested_hz : ℕ) (c : Context) (w : W)
      → let m = set_frequency idf requested_hz c w in
        (frequency_hz m.context ≡ (if is_ok m.status then requested_hz else frequency_hz c))
        × ((if is_ok m.status then valid_frequency requested_hz else true) ≡ true)
  unfolding set_frequency frequency_hz is_ok
  cached_frequency hz c w =
      let first = remove_devices idf c w in
      elim (Bool-cases (not (is_set c.bus) || not (is_set c.device) || not c.has_bus_config)) [
        | inl a ↦ simp a (ground arith)
        | inr a ↦ elim (Bool-cases (valid_frequency hz)) [
          | inr v ↦ simp (a, v) (ground arith)
          | inl v ↦ elim (Bool-cases (hz == c.bus_config.frequency_hz)) [
            | inl s ↦ simp (a, v, s) (ground (arith, a, s))
            | inr s ↦
                simp (a, v, s)
                  (ground (
                    arith,
                    a,
                    v,
                    remove_devices-SameConfig c w,
                    replace_device-exact hz first.context first.world,
                  ))
          ]
        ]
      ]

  module _ (speed : ℕ → W → ℕ) (f : Clocks idf speed) where
    set_frequency-RunsAt :
        (hz : ℕ) (c : Context) (w : W)
        → is_distinct c ≡ true
        → RunsAt speed c w
        → let m = set_frequency idf hz c w in
          RunsAt speed m.context m.world
          × ((if is_ok m.status then is_set m.context.device else true) ≡ true)
    unfolding set_frequency is_ok
    set_frequency-RunsAt hz c w d r =
        let first = remove_devices idf c w in
        let kept = remove_devices-RunsAt idf speed f c w d r in
        elim (Bool-cases (not (is_set c.bus) || not (is_set c.device) || not c.has_bus_config)) [
          | inl a ↦ simp a (r, refl)
          | inr a ↦ elim (Bool-cases (valid_frequency hz)) [
            | inr v ↦ simp (a, v) (r, refl)
            | inl v ↦ elim (Bool-cases (hz == c.bus_config.frequency_hz)) [
              | inl s ↦ simp (a, v, s) (r, ground (arith, a))
              | inr s ↦
                  simp (a, v, s)
                    (elim (Bool-cases (is_ok first.status)) [
                      | inl e ↦ simp e (
                          replace_device-RunsAt idf speed f hz first.context first.world
                            (ground (arith, e, kept.1)))
                      | inr e ↦ simp e (kept.0, refl)
                    ])
            ]
          ]
        ]

    -- `setFrequency` returns OK only for a frequency in range, and with a device on the bus. The
    -- frequency that the context holds is then the one asked for, and else the one it was. In both
    -- cases the device, where the context still has one, runs at the frequency that the context holds,
    -- if it did so before and was not the one that a discovery had added.
    pub set_frequency-exact :
        (requested_hz : ℕ) (c : Context) (w : W)
        → is_distinct c ≡ true
        → RunsAt speed c w
        → let m = set_frequency idf requested_hz c w in
          (frequency_hz m.context ≡ (if is_ok m.status then requested_hz else frequency_hz c))
          × ((if is_ok m.status
                then valid_frequency requested_hz && is_set m.context.device
                else true)
              ≡ true)
          × RunsAt speed m.context m.world
    set_frequency-exact hz c w d r =
        let cached = cached_frequency hz c w in
        let runs = set_frequency-RunsAt hz c w d r in
        (cached.0, ground (arith, cached.1, runs.1), runs.0)

  module _ (buses devices : W → ℕ) (f : Accounts idf buses devices) where
    delete_bus-empty :
        (c : Context) (w : W)
        → let m = delete_bus idf c w in
          is_ok m.status ≡ true
          → (is_set m.context.bus ≡ false)
            × (m.context.device ≡ c.device)
            × (m.context.discovery_device ≡ c.discovery_device)
    unfolding delete_bus
    delete_bus-empty c w h = ground (arith, h)

    -- A `close` that returns OK leaves no bus and no device allocated. The handles of the context are
    -- those that ESP-IDF has allocated.
    pub close-empty :
        (c : Context) (w : W)
        → Owned idf buses devices c w
        → let m = close idf c w in
          is_ok m.status ≡ true → (buses m.world ≡ 0) × (devices m.world ≡ 0)
    unfolding close
    close-empty c w o h =
        let first = remove_devices idf c w in
        let owned = close-Owned idf buses devices f c w o in
        elim (Bool-cases (is_ok first.status)) [
          | inl e ↦ ground (
            arith,
            e,
            h,
            owned,
            no_devices idf buses devices f c w e,
            delete_bus-empty first.context first.world,
          )
          | inr e ↦ absurd (ground (arith, e, h))
        ]
