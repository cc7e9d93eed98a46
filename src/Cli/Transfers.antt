-- ===== src/Cli/Transfers.antt =====
-- What a step of a diagnostic session of examples/common/Ldc1614Cli.cpp costs in transfers.
use ldc.Base.{ℕ, zero, suc, ◌+◌, ◌≤◌, Bool, arith, List}
use ldc.Cmd.Reg
use ldc.Driver.{Driver}
use ldc.Bus.{read_register}
use ldc.Direct.{read_register16}
use ldc.Round.Cost.{Charges}
use ldc.Cli.State.{Cli, Platform}
use ldc.Cli.Identity.{
  probe_manufacturer, probe_device, advance_probe_session, identity_read,
  advance_identity_stress_session, advance_reset_stress_session,
}
use ldc.Cli.BusStress.{
  restore_frequency, switch_frequency, requested_hz, advance_bus_frequency_stress_session,
}
use ldc.Cli.Verify.{
  dump_register, dump_from, advance_dump_session, verify_register, verify_from,
  advance_verify_session, next_register, entry, config_registers,
}

-- Every callback of the driver raises `cost` by at most one, and setting the frequency does not.
pub record CountsCalls {W : Type 0} (platform : Platform W) (cost : W → ℕ) : Type 0 where
  pub transfers : (timeout : ℕ) → Charges platform.bus cost timeout 1
  pub frequency : (hz : ℕ) (w : W) → cost (platform.i2c_set_frequency hz w).1 ≤ cost w

module _ {W : Type 0} (platform : Platform W) (cost : W → ℕ) (f : CountsCalls platform cost) where
  read_register16_cost :
      (reg : ℕ) (d : Driver) (w : W)
      → cost (read_register16 platform.bus reg d w).world ≤ cost w + 1
  unfolding read_register16 read_register
  read_register16_cost reg d w = grind (arith, (f.transfers d.config.i2c_timeout_ms).reads)

  abbrev pub AtMostOne : W → Cli × W → Type 0
  AtMostOne w r = cost r.1 ≤ cost w + 1

  dump_from_cost :
      (n : ℕ) (registers : List ℕ) (c : Cli) (w : W)
      → AtMostOne w (dump_from platform n registers c w)
  unfolding dump_from dump_register
  dump_from_cost zero registers c w = omega arith
  dump_from_cost (suc n) registers c w =
      let reg = entry registers c.session.register_index in
      ground
        (arith, dump_from_cost n registers (next_register c) w, read_register16_cost reg c.device w)

  verify_from_cost :
      (self_test : Bool) (n : ℕ) (c : Cli) (w : W)
      → AtMostOne w (verify_from platform self_test n c w)
  unfolding verify_from verify_register
  verify_from_cost self_test zero c w = omega arith
  verify_from_cost self_test (suc n) c w =
      let reg = entry config_registers c.session.register_index in
      ground (
        arith,
        verify_from_cost self_test n (next_register c) w,
        read_register16_cost reg c.device w,
      )

  probe_cost : (c : Cli) (w : W) → AtMostOne w (advance_probe_session platform c w)
  unfolding advance_probe_session probe_manufacturer probe_device
  probe_cost c w = ground (
    arith,
    read_register16_cost Reg.manufacturer_id c.device w,
    read_register16_cost Reg.device_id c.device w,
  )

  identity_cost : (c : Cli) (w : W) → AtMostOne w (advance_identity_stress_session platform c w)
  unfolding advance_identity_stress_session identity_read
  identity_cost c w = ground (
    arith,
    read_register16_cost Reg.manufacturer_id c.device w,
    read_register16_cost Reg.device_id c.device w,
  )

  reset_cost : (c : Cli) (w : W) → AtMostOne w (advance_reset_stress_session platform c w)
  unfolding advance_reset_stress_session
  reset_cost c w = ground arith

  bus_stress_cost :
      (c : Cli) (w : W) → AtMostOne w (advance_bus_frequency_stress_session platform c w)
  unfolding advance_bus_frequency_stress_session restore_frequency switch_frequency
  bus_stress_cost c w =
      ground (
        arith,
        f.frequency c.session.initial_frequency_hz w,
        f.frequency (requested_hz c.session) w,
      )

  -- A step of a probe, dump, verify, identity, reset or bus-frequency session makes at most one
  -- transfer. Every callback of the driver raises the count of calls by at most one, and setting the
  -- frequency of the bus does not raise it.
  pub session_step_cost :
      (self_test : Bool) (c : Cli) (w : W)
      → AtMostOne w (advance_probe_session platform c w)
        × AtMostOne w (advance_dump_session platform c w)
        × AtMostOne w (advance_verify_session platform self_test c w)
        × AtMostOne w (advance_identity_stress_session platform c w)
        × AtMostOne w (advance_reset_stress_session platform c w)
        × AtMostOne w (advance_bus_frequency_stress_session platform c w)
  unfolding advance_dump_session advance_verify_session
  session_step_cost self_test c w = (
    probe_cost c w,
    dump_from_cost _ _ c w,
    verify_from_cost self_test _ c w,
    identity_cost c w,
    reset_cost c w,
    bus_stress_cost c w,
  )
