-- ===== src/Tests/Wires.antt =====
-- An ESP-IDF that counts what it has allocated, with a device behind it that stores what it is sent.
use ldc.Base.{ℕ, zero, suc, ◌+◌, ◌≡◌, ◌==◌, ◌&&◌, refl, true, if◌then◌else◌, List, [], ◌∷◌, arith}
use ldc.Status.{is_ok}
use ldc.Driver.{initial}
use ldc.Api.{run}
use ldc.Trust.{Trusted}
use ldc.Esp32.{Context, BusConfig, Idf, default_context, is_set, valid_frequency, map_esp_err}
use ldc.Esp32.Manage.{
  set_frequency, frequency_hz, close, remove_devices, remove_discovery, remove_device, delete_bus,
}
use ldc.Esp32.Transfer.{transport}
use ldc.Esp32.Contract.{Carries, transport-Trusted}
use ldc.Esp32.Handles.{Accounts, Owned}
use ldc.Esp32.Calls.{TransportCall, transport_run, run-Owned}
use ldc.Esp32.Clocks.{Clocks, RunsAt}
use ldc.Esp32.Frequency.{set_frequency-exact, close-empty}
use ldc.Tests.Fixtures.{answer, first_acquisition}

record Wires : Type 0 where
  buses : ℕ
  devices : ℕ
  held : ℕ → List ℕ
  speeds : ℕ → ℕ

abbrev stored : List ℕ → (ℕ → List ℕ) → ℕ → List ℕ
stored [] h r = h r
stored (reg ∷ bytes) h r = if r == reg then bytes else h r

-- The speed of one handle, set.
abbrev clocked : ℕ → ℕ → (ℕ → ℕ) → ℕ → ℕ
clocked h hz f k = if k == h then hz else f k

-- One fewer, where there is one.
abbrev freed : ℕ → ℕ × ℕ
freed zero = (0x103, 0)
freed (suc n) = (0, n)

abbrev counting_idf : Idf Wires
counting_idf = record {
  esp_ok = 0;
  esp_err_timeout = 0x107;
  esp_err_invalid_response = 0x108;
  esp_err_invalid_arg = 0x102;
  esp_err_invalid_state = 0x103;
  esp_err_no_mem = 0x101;
  esp_err_not_found = 0x105;
  gpio_num_nc = 0xFFFFFFFF;
  i2c_num_0 = 0;
  i2c_clk_src_default = 0;
  i2c_addr_bit_len_7 = 0;
  i2c_new_master_bus = λ n w. (0, w.buses + 1, record w { buses = w.buses + 1 });
  i2c_master_bus_add_device = λ b n w. (
    0,
    w.devices + 1,
    record w { devices = w.devices + 1; speeds = clocked (w.devices + 1) n.scl_speed_hz w.speeds },
  );
  i2c_master_bus_rm_device = λ h w. let f = freed w.devices in (f.0, record w { devices = f.1 });
  i2c_del_master_bus = λ h w. let f = freed w.buses in (f.0, record w { buses = f.1 });
  i2c_master_transmit = λ h tx t w. (0, record w { held = stored tx w.held });
  i2c_master_transmit_receive = λ h tx n t w. (0, (answer tx).0 ∷ (answer tx).1 ∷ [], w);
  gpio_get_level = λ p w. 0;
}

counting_idf-Carries : Carries counting_idf (λ h w. w.held)
counting_idf-Carries = record {
  transmits = λ h reg bytes t w ok n r. refl;
  receives = λ h tx n t w r. refl;
}

freed_one : (n : ℕ) → n ≡ (freed n).1 + (if (freed n).0 == 0 then 1 else 0)
freed_one n = ground arith

counting_idf-Accounts : Accounts counting_idf (λ w. w.buses) (λ w. w.devices)
counting_idf-Accounts = record {
  new_bus = λ n w. (refl, refl, ground arith);
  add_device = λ b n w. (refl, refl, ground arith);
  rm_device = λ h w. (freed_one w.devices, refl);
  del_bus = λ h w. (freed_one w.buses, refl);
  transmit = λ h tx t w. (refl, refl);
  receive = λ h tx n t w. (refl, refl);
}

abbrev wiring : BusConfig
wiring = record {
  port = 0;
  sda = 8;
  scl = 9;
  frequency_hz = 400000;
  enable_internal_pullups = true;
}

abbrev no_wires : Wires
no_wires = record { buses = 0; devices = 0; held = λ r. []; speeds = λ h. 400000 }

-- A context after `open`, and the world it is left in.
abbrev opened : Context
opened = record (default_context counting_idf) {
  bus = 1;
  device = 1;
  bus_config = wiring;
  has_bus_config = true;
}

abbrev wired : Wires
wired = record { buses = 1; devices = 1; held = λ r. []; speeds = λ h. 400000 }

no_wires-Owned :
    Owned counting_idf (λ w. w.buses) (λ w. w.devices) (default_context counting_idf) no_wires
no_wires-Owned = ground arith

opened-Owned : Owned counting_idf (λ w. w.buses) (λ w. w.devices) opened wired
unfolding valid_frequency
opened-Owned = ground arith

transport-Trusted_example :
    let r = run (transport counting_idf) first_acquisition initial (opened, wired) in
    Trusted r.1.1.held r.0.applied_state r.0.config
transport-Trusted_example =
    transport-Trusted counting_idf (λ h w. w.held) counting_idf-Carries first_acquisition opened
      wired (omega arith)

-- The life of a context, with a probe of the other address.
abbrev some_calls : List TransportCall
some_calls =
    TransportCall.opens wiring
    ∷ TransportCall.probes 0x2B 0x7F 50
    ∷ TransportCall.sets_frequency 100000
    ∷ TransportCall.recovers
    ∷ TransportCall.closes
    ∷ []

run-Owned_example :
    let r = transport_run counting_idf some_calls (default_context counting_idf, no_wires) in
    Owned counting_idf (λ w. w.buses) (λ w. w.devices) r.0 r.1
run-Owned_example =
    run-Owned counting_idf (λ w. w.buses) (λ w. w.devices) counting_idf-Accounts some_calls
      (default_context counting_idf) no_wires no_wires-Owned

clocked-same : (h hz : ℕ) (f : ℕ → ℕ) → clocked h hz f h ≡ hz
clocked-same h hz f = ground arith

counting_idf-Clocks : Clocks counting_idf (λ h w. w.speeds h)
counting_idf-Clocks = record {
  add_device = λ b n w ok. (clocked-same (w.devices + 1) n.scl_speed_hz w.speeds, ground arith);
  rm_device = λ h k w kept. refl;
}

set_frequency-exact_example :
    let m = set_frequency counting_idf 100000 opened wired in
    (frequency_hz m.context ≡ (if is_ok m.status then 100000 else frequency_hz opened))
    × ((if is_ok m.status then valid_frequency 100000 && is_set m.context.device else true) ≡ true)
    × RunsAt (λ h w. w.speeds h) m.context m.world
set_frequency-exact_example =
    set_frequency-exact counting_idf (λ h w. w.speeds h) counting_idf-Clocks 100000 opened wired
      refl refl

close-empty_example :
    let m = close counting_idf opened wired in (m.world.buses ≡ 0) × (m.world.devices ≡ 0)
unfolding close remove_devices remove_discovery remove_device delete_bus is_ok map_esp_err
close-empty_example =
    close-empty counting_idf (λ w. w.buses) (λ w. w.devices) counting_idf-Accounts opened wired
      opened-Owned refl
