-- ===== src/Esp32/Calls.antt =====
-- An application over examples/esp32/I2cMasterTransport.cpp: every call that changes its context.
use ldc.Base.{
  ℕ, ◌≡◌, ◌==◌, ◌&&◌, ◌||◌, not, true, false, List, [], ◌∷◌, arith, Bool-cases, inl, inr, ltb,
}
use ldc.Status.{is_ok}
use ldc.Esp32.{
  Context, BusConfig, Idf, is_set, clamp_timeout_ms, record_transfer, make_device_config,
}
use ldc.Esp32.Manage.{open_context, close, remove_discovery, reopen, recover, set_frequency}
use ldc.Esp32.Transfer.{
  write, write_read, add_discovery, discovery_handle, read_with, read_value, read_register_at,
}
use ldc.Esp32.Handles.{Accounts, Owned, LeavesOwned, map_ok, remove_discovery-Owned}
use ldc.Esp32.Ownership.{
  open_context-Owned, close-Owned, reopen-Owned, recover-Owned, set_frequency-Owned,
  and_after-Owned, no_discovery,
}

pub data TransportCall : Type 0 where
  opens : BusConfig → TransportCall
  closes reopens recovers : TransportCall
  sets_frequency : ℕ → TransportCall
  -- address, data, timeout, user
  writes : ℕ → List ℕ → ℕ → ℕ → TransportCall
  -- address, data, length, timeout, user
  write_reads : ℕ → List ℕ → ℕ → ℕ → ℕ → TransportCall
  -- address, register, timeout
  probes : ℕ → ℕ → ℕ → TransportCall

module _ {W : Type 0} (idf : Idf W) where
  unfoldable pub transport_step : TransportCall → Context × W → Context × W
  transport_step (TransportCall.opens config) cw =
      let m = open_context idf config cw.0 cw.1 in (m.context, m.world)
  transport_step TransportCall.closes cw = let m = close idf cw.0 cw.1 in (m.context, m.world)
  transport_step TransportCall.reopens cw = let m = reopen idf cw.0 cw.1 in (m.context, m.world)
  transport_step TransportCall.recovers cw = let m = recover idf cw.0 cw.1 in (m.context, m.world)
  transport_step (TransportCall.sets_frequency hz) cw =
      let m = set_frequency idf hz cw.0 cw.1 in (m.context, m.world)
  transport_step (TransportCall.writes address tx timeout user) cw =
      let m = write idf address tx timeout user cw.0 cw.1 in (m.context, m.world)
  transport_step (TransportCall.write_reads address tx length timeout user) cw =
      let m = write_read idf address tx length timeout user cw.0 cw.1 in (m.context, m.world)
  transport_step (TransportCall.probes address reg timeout) cw =
      let r = read_register_at idf address reg timeout cw.0 cw.1 in (r.2, r.3)

  unfoldable pub transport_run : List TransportCall → Context × W → Context × W
  transport_run [] cw = cw
  transport_run (k ∷ ks) cw = transport_run ks (transport_step k cw)

module _ {W : Type 0} (idf : Idf W) (buses devices : W → ℕ) (f : Accounts idf buses devices) where
  write-Owned :
      (address : ℕ) (tx : List ℕ) (timeout user : ℕ) (c : Context) (w : W)
      → Owned idf buses devices c w
      → LeavesOwned idf buses devices (write idf address tx timeout user c w)
  unfolding write record_transfer
  write-Owned address tx timeout user c w o =
      ground (arith, o, f.transmit c.device tx (clamp_timeout_ms timeout) w)

  write_read-Owned :
      (address : ℕ) (tx : List ℕ) (length timeout user : ℕ) (c : Context) (w : W)
      → Owned idf buses devices c w
      → let m = write_read idf address tx length timeout user c w in
        Owned idf buses devices m.context m.world
  unfolding write_read record_transfer
  write_read-Owned address tx length timeout user c w o =
      ground (arith, o, f.receive c.device tx length (clamp_timeout_ms timeout) w)

  read_with-Owned :
      (handle reg timeout : ℕ) (c : Context) (w : W)
      → Owned idf buses devices c w
      → let m = read_with idf handle reg timeout c w in Owned idf buses devices m.context m.world
  unfolding read_with record_transfer
  read_with-Owned handle reg timeout c w o =
      ground (arith, o, f.receive handle (reg ∷ []) 2 (clamp_timeout_ms timeout) w)

  add_discovery-Owned :
      (address : ℕ) (c : Context) (w : W)
      → Owned idf buses devices c w
      → is_set c.device ≡ true
      → is_set address ≡ true
      → (address == c.address) ≡ false
      → LeavesOwned idf buses devices (add_discovery idf address c w)
  unfolding add_discovery
  add_discovery-Owned address c w o d a n =
      let wanted = make_device_config idf address c.bus_config.frequency_hz in
      let added = idf.i2c_master_bus_add_device c.bus wanted w in
      ground (arith, o, d, a, n, f.add_device c.bus wanted w, map_ok idf buses devices f added.0)

  discovery_handle-Owned :
      (address : ℕ) (c : Context) (w : W)
      → Owned idf buses devices c w
      → is_set c.device ≡ true
      → is_set address ≡ true
      → (address == c.address) ≡ false
      → LeavesOwned idf buses devices (discovery_handle idf address c w)
  unfolding discovery_handle is_ok add_discovery
  discovery_handle-Owned address c w o d a n =
      let stale = is_set c.discovery_device && not (c.discovery_address == address) in
      elim (Bool-cases stale) [
        | inl e ↦
            let first = remove_discovery-Owned idf buses devices f c w o in
            simp e (
              and_after-Owned idf buses devices f (remove_discovery idf c w)
                (add_discovery idf address) first
                (λ h.
                  let gone = no_discovery idf buses devices f c w h in
                  add_discovery-Owned address _ _ first (ground (arith, gone, d)) a
                    (ground (arith, gone, n))))
        | inr e ↦ simp e (add_discovery-Owned address c w o d a n)
      ]

  read_value-Owned :
      (handle reg timeout : ℕ) (c : Context) (w : W)
      → Owned idf buses devices c w
      → let r = read_value idf handle reg timeout c w in Owned idf buses devices r.2 r.3
  unfolding read_value
  read_value-Owned handle reg timeout c w o =
      let read = read_with-Owned handle reg timeout c w o in
      elim (Bool-cases (is_ok (read_with idf handle reg timeout c w).status)) [
        | inl h ↦ simp h read
        | inr h ↦ simp h read
      ]

  read_register_at-Owned :
      (address reg timeout : ℕ) (c : Context) (w : W)
      → Owned idf buses devices c w
      → let r = read_register_at idf address reg timeout c w in Owned idf buses devices r.2 r.3
  unfolding read_register_at
  read_register_at-Owned address reg timeout c w o =
      let found = discovery_handle idf address c w in
      let closed =
        not (is_set c.bus)
        || not (is_set c.device)
        || not c.has_bus_config
        || ltb address 0x08
        || ltb 0x77 address in
      elim (Bool-cases closed) [
        | inl a ↦ simp a o
        | inr a ↦ elim (Bool-cases (address == c.address)) [
          | inl s ↦ simp (a, s) (read_value-Owned c.device reg timeout c w o)
          | inr s ↦
              let kept =
                discovery_handle-Owned address c w o (ground (arith, a)) (ground (arith, a)) s in
              elim (Bool-cases (is_ok found.status)) [
                | inl h ↦
                    simp (a, s, h)
                      (read_value-Owned found.context.discovery_device reg timeout found.context
                        found.world kept)
                | inr h ↦ simp (a, s, h) kept
              ]
        ]
      ]

  transport_step-Owned :
      (k : TransportCall) (cw : Context × W)
      → Owned idf buses devices cw.0 cw.1
      → let r = transport_step idf k cw in Owned idf buses devices r.0 r.1
  unfolding transport_step
  transport_step-Owned (TransportCall.opens config) cw o =
      open_context-Owned idf buses devices f config cw.0 cw.1 o
  transport_step-Owned TransportCall.closes cw o = close-Owned idf buses devices f cw.0 cw.1 o
  transport_step-Owned TransportCall.reopens cw o = reopen-Owned idf buses devices f cw.0 cw.1 o
  transport_step-Owned TransportCall.recovers cw o = recover-Owned idf buses devices f cw.0 cw.1 o
  transport_step-Owned (TransportCall.sets_frequency hz) cw o =
      set_frequency-Owned idf buses devices f hz cw.0 cw.1 o
  transport_step-Owned (TransportCall.writes address tx timeout user) cw o =
      write-Owned address tx timeout user cw.0 cw.1 o
  transport_step-Owned (TransportCall.write_reads address tx length timeout user) cw o =
      write_read-Owned address tx length timeout user cw.0 cw.1 o
  transport_step-Owned (TransportCall.probes address reg timeout) cw o =
      read_register_at-Owned address reg timeout cw.0 cw.1 o

  -- From a context with as many handles as ESP-IDF has allocated, as a new one with none, whatever
  -- calls an application makes and whatever they return, the handles in the context stay as many
  -- buses and devices as ESP-IDF has allocated; a discovery device stands only beside the device,
  -- a device only on a bus, and a bus only with a configuration in range. Of ESP-IDF it is assumed
  -- that a call with ESP_OK, and no other, allocates or frees one handle of its kind.
  pub run-Owned :
      (ks : List TransportCall) (c : Context) (w : W)
      → Owned idf buses devices c w
      → let r = transport_run idf ks (c, w) in Owned idf buses devices r.0 r.1
  unfolding transport_run
  run-Owned [] c w o = o
  run-Owned (k ∷ ks) c w o =
      let r = transport_step idf k (c, w) in run-Owned ks r.0 r.1 (transport_step-Owned k (c, w) o)
