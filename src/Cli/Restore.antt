-- ===== src/Cli/Restore.antt =====
-- Where the bus stands when a session of examples/common/Ldc1614Cli.cpp initializes the device anew.
use ldc.Base.{ℕ, ◌≡◌, true, false, arith, Bool-cases, inl, inr, ◌⊎◌, subst, sym}
use ldc.Status.{Status, is_ok}
use ldc.Cli.State.{I2cBusInfo, Cli, Platform}
use ldc.Cli.Schedule.{is_owned}
use ldc.Cli.Sessions.{finish_session}
use ldc.Cli.BusStress.{requested_hz, reached, restore_frequency, fail_to_restore, switch_frequency}

-- The bus is open at the frequency.
abbrev pub IsAt : I2cBusInfo → ℕ → Type 0
IsAt info hz = (info.open_bus ≡ true) × (info.frequency_hz ≡ hz)

reached-IsAt :
    (status : Status) (hz : ℕ) (info : I2cBusInfo)
    → is_ok (reached status hz info) ≡ true
    → IsAt info hz
unfolding is_ok
reached-IsAt status hz info h = ground (arith, h)

module _ {W : Type 0} (platform : Platform W) where
  switch_world :
      (c : Cli) (w : W)
      → (switch_frequency platform c w).1
        ≡ (platform.i2c_set_frequency (requested_hz c.session) w).1
  unfolding switch_frequency
  switch_world c w = ground arith

  restore_world :
      (c : Cli) (w : W)
      → (restore_frequency platform c w).1
        ≡ (platform.i2c_set_frequency c.session.initial_frequency_hz w).1
  unfolding restore_frequency
  restore_world c w = ground arith

  switch-IsAt :
      (c : Cli) (w : W)
      → is_owned c.pending.owner ≡ false
      → let r = switch_frequency platform c w in
        is_owned r.0.pending.owner ≡ true
        → IsAt (platform.i2c_bus_info r.1) (requested_hz c.session)
  unfolding switch_frequency fail_to_restore
  switch-IsAt c w free h =
      let hz = requested_hz c.session in
      let set = platform.i2c_set_frequency hz w in
      let info = platform.i2c_bus_info set.1 in
      elim (Bool-cases (is_ok (reached set.0 hz info))) [
        | inl e ↦
            subst (λ (v : W). IsAt (platform.i2c_bus_info v) hz) (sym (switch_world c w))
              (reached-IsAt set.0 hz info e)
        | inr e ↦ absurd (ground (arith, e, h, free))
      ]

  restore-IsAt :
      (c : Cli) (w : W)
      → is_owned c.pending.owner ≡ false
      → let r = restore_frequency platform c w in
        is_owned r.0.pending.owner ≡ true
        → IsAt (platform.i2c_bus_info r.1) c.session.initial_frequency_hz
  unfolding restore_frequency finish_session
  restore-IsAt c w free h =
      let hz = c.session.initial_frequency_hz in
      let set = platform.i2c_set_frequency hz w in
      let info = platform.i2c_bus_info set.1 in
      elim (Bool-cases (is_ok (reached set.0 hz info))) [
        | inl e ↦
            subst (λ (v : W). IsAt (platform.i2c_bus_info v) hz) (sym (restore_world c w))
              (reached-IsAt set.0 hz info e)
        | inr e ↦ absurd (ground (arith, e, h, free))
      ]

  -- Where a step of the bus-frequency session leaves an operation pending, so that the device is
  -- initialized anew, the bus is open at the frequency that the step asked for: that of the
  -- iteration, or in the restoration the one that the session began with. No operation is pending
  -- before the step.
  pub bus_step-IsAt :
      (c : Cli) (w : W)
      → is_owned c.pending.owner ≡ false
      → let s = switch_frequency platform c w in
        let r = restore_frequency platform c w in
        (IsAt (platform.i2c_bus_info s.1) (requested_hz c.session)
          ⊎ (is_owned s.0.pending.owner ≡ false))
        × (IsAt (platform.i2c_bus_info r.1) c.session.initial_frequency_hz
            ⊎ (is_owned r.0.pending.owner ≡ false))
  bus_step-IsAt c w free = (
    elim (Bool-cases (is_owned (switch_frequency platform c w).0.pending.owner)) [
      | inl h ↦ inl (switch-IsAt c w free h)
      | inr h ↦ inr h
    ],
    elim (Bool-cases (is_owned (restore_frequency platform c w).0.pending.owner)) [
      | inl h ↦ inl (restore-IsAt c w free h)
      | inr h ↦ inr h
    ],
  )
