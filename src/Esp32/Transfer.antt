-- ===== src/Esp32/Transfer.antt =====
-- examples/esp32/I2cMasterTransport.cpp: the three callbacks, and the register read of the probe.
-- A pointer with a length is a list, empty for nullptr or the length 0.
use ldc.Base.{
  ℕ, ◌*◌, Bool, true, false, ◌&&◌, ◌||◌, not, ◌==◌, ltb, if◌then◌else◌, bit_or, u8, u16, List, [],
  ◌∷◌, Option, none, some,
}
use ldc.Status.{Status, Err, is_ok, ok_status, error, error_detail}
use ldc.Bus.{Bus}
use ldc.Esp32.{
  Context, Idf, TransferKind, record_transfer, clamp_timeout_ms, is_set, map_esp_err,
  map_transaction_err, make_device_config,
}
use ldc.Esp32.Manage.{Managed, remove_discovery, and_after}

-- `*context` for the user pointer, the only object that it may point to.
abbrev pub deref : ℕ → Context → Option Context
deref user c = if user == 0 then none else some c

abbrev is_open : Option Context → Bool
is_open none = false
is_open (some c) = is_set c.device

abbrev has_address : ℕ → Option Context → Bool
has_address address none = false
has_address address (some c) = address == c.address

unfoldable pub validate_context : ℕ → Option Context → Status
validate_context address context =
    if not (is_open context)
    then error Err.i2c_bus
    else if not (has_address address context)
    then error_detail Err.invalid_param address
    else ok_status

abbrev pub is_empty : List ℕ → Bool
is_empty [] = true
is_empty _ = false

abbrev pub first_two : List ℕ → ℕ × ℕ
first_two (a ∷ b ∷ rest) = (a, b)
first_two (a ∷ []) = (a, 0)
first_two [] = (0, 0)

-- What a read of bytes leaves.
pub record Received (W : Type 0) : Type 0 where
  pub status : Status
  pub bytes : List ℕ
  pub context : Context
  pub world : W

module _ {W : Type 0} (idf : Idf W) where
  unfoldable pub write : ℕ → List ℕ → ℕ → ℕ → Context → W → Managed W
  write address bytes timeout_ms user c w =
      let checked = validate_context address (deref user c) in
      let sent = idf.i2c_master_transmit c.device bytes (clamp_timeout_ms timeout_ms) w in
      let status = map_transaction_err idf sent.0 in
      if not (is_ok checked)
      then record { status = checked; context = c; world = w }
      else if is_empty bytes
      then record { status = error Err.invalid_param; context = c; world = w }
      else record {
        status = status;
        context = record_transfer TransferKind.write status c;
        world = sent.1;
      }

  unfoldable pub write_read : ℕ → List ℕ → ℕ → ℕ → ℕ → Context → W → Received W
  write_read address tx_data rx_length timeout_ms user c w =
      let checked = validate_context address (deref user c) in
      let sent =
        idf.i2c_master_transmit_receive c.device tx_data rx_length (clamp_timeout_ms timeout_ms)
          w in
      let status = map_transaction_err idf sent.0 in
      if not (is_ok checked)
      then record { status = checked; bytes = []; context = c; world = w }
      else if is_empty tx_data || rx_length == 0
      then record { status = error Err.invalid_param; bytes = []; context = c; world = w }
      else record {
        status = status;
        bytes = sent.1;
        context = record_transfer TransferKind.write_read status c;
        world = sent.2;
      }

  unfoldable pub intb_asserted : ℕ → Context → W → Status × Bool
  intb_asserted user c w =
      if user == 0 || c.intb == idf.gpio_num_nc
      then (error Err.invalid_config, false)
      else (ok_status, idf.gpio_get_level c.intb w == 0)

  -- The three callbacks as the driver calls them, on the context that its user pointers name.
  abbrev pub transport : Bus (Context × W)
  transport = record {
    i2c_write = λ f address tx timeout user cw.
        let r = write address tx timeout user cw.0 cw.1 in (r.status, (r.context, r.world));
    i2c_write_read = λ f address tx timeout user cw.
        let r = write_read address tx 2 timeout user cw.0 cw.1 in
        (r.status, first_two r.bytes, (r.context, r.world));
    intb_asserted = λ f user cw. let r = intb_asserted user cw.0 cw.1 in (r.0, r.1, cw);
  }

  -- The handle for an address that is not the device's.
  unfoldable pub add_discovery : ℕ → Context → W → Managed W
  add_discovery address c w =
      let added =
        idf.i2c_master_bus_add_device c.bus
          (make_device_config idf address c.bus_config.frequency_hz) w in
      let status = map_esp_err idf added.0 in
      if is_set c.discovery_device
      then record { status = ok_status; context = c; world = w }
      else if is_ok status
      then record {
        status = status;
        context = record c { discovery_device = added.1; discovery_address = address };
        world = added.2;
      }
      else record { status = status; context = c; world = added.2 }

  unfoldable pub discovery_handle : ℕ → Context → W → Managed W
  discovery_handle address c w =
      let stale = is_set c.discovery_device && not (c.discovery_address == address) in
      and_after
        (if stale
          then remove_discovery idf c w
          else record { status = ok_status; context = c; world = w })
        (add_discovery address)

  unfoldable pub read_with : ℕ → ℕ → ℕ → Context → W → Received W
  read_with handle reg timeout_ms c w =
      let sent =
        idf.i2c_master_transmit_receive handle (reg ∷ []) 2 (clamp_timeout_ms timeout_ms) w in
      let status = map_transaction_err idf sent.0 in
      record {
        status = status;
        bytes = sent.1;
        context = record_transfer TransferKind.discovery status c;
        world = sent.2;
      }

  -- The value of a register read of the probe.
  unfoldable pub read_value : ℕ → ℕ → ℕ → Context → W → Status × ℕ × Context × W
  read_value handle reg timeout_ms c w =
      let read = read_with handle reg timeout_ms c w in
      let bytes = first_two read.bytes in
      if not (is_ok read.status)
      then (read.status, 0, read.context, read.world)
      else (ok_status, u16 (bit_or (u8 bytes.0 * 256) (u8 bytes.1)), read.context, read.world)

  unfoldable pub read_register_at : ℕ → ℕ → ℕ → Context → W → Status × ℕ × Context × W
  read_register_at address reg timeout_ms c w =
      let found = discovery_handle address c w in
      if not (is_set c.bus)
        || not (is_set c.device)
        || not c.has_bus_config
        || ltb address 0x08
        || ltb 0x77 address
      then (error Err.i2c_bus, 0, c, w)
      else if address == c.address
      then read_value c.device reg timeout_ms c w
      else if not (is_ok found.status)
      then (found.status, 0, found.context, found.world)
      else read_value found.context.discovery_device reg timeout_ms found.context found.world
