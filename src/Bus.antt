-- ===== src/Bus.antt =====
-- include/LDC1614/Config.h and src/LDC1614.cpp: the injected callbacks, and the two register
-- transfers that call them.
-- The callbacks belong to the application. `Bus W` is their behaviour on a world of type `W`, by
-- the address of the function: the arguments are those of the C signatures, without the lengths.
use ldc.Base.{ℕ, ◌+◌, ◌*◌, ◌/◌, Bool, ltb, if◌then◌else◌, bit_and, bit_or, u8, u16, List, [], ◌∷◌}
use ldc.Status.{Status, is_ok}
use ldc.Config.{i2c_address_code}
use ldc.Driver.{Driver}

pub record Bus (W : Type 0) : Type 0 where
  -- function, address, data, timeout, user
  pub i2c_write : ℕ → ℕ → List ℕ → ℕ → ℕ → W → Status × W
  -- function, address, tx data, timeout, user; the two received bytes
  pub i2c_write_read : ℕ → ℕ → List ℕ → ℕ → ℕ → W → Status × (ℕ × ℕ) × W
  -- function, user; the level observed
  pub intb_asserted : ℕ → ℕ → W → Status × Bool × W

abbrev pub u32_max : ℕ
u32_max = 4294967295

-- A counter that stops at UINT32_MAX.
abbrev pub saturating_suc : ℕ → ℕ
saturating_suc n = if ltb n u32_max then n + 1 else n

unfoldable pub tracked : Status → Driver → Driver
tracked status d =
    let stats = d.transport_stats in
    record d {
      transport_stats = record {
        total_attempts = saturating_suc stats.total_attempts;
        total_success =
            if is_ok status then saturating_suc stats.total_success else stats.total_success;
        total_failures =
            if is_ok status then stats.total_failures else saturating_suc stats.total_failures;
        last_status = status;
      };
    }

-- What a register read returns.
pub record ReadResult (W : Type 0) : Type 0 where
  pub status : Status
  pub value : ℕ
  pub driver : Driver
  pub world : W

pub record WriteResult (W : Type 0) : Type 0 where
  pub status : Status
  pub driver : Driver
  pub world : W

module _ {W : Type 0} (bus : Bus W) where
  unfoldable pub read_register : ℕ → ℕ → Driver → W → ReadResult W
  read_register reg timeout d w =
      let c = d.config in
      let r =
        bus.i2c_write_read c.i2c_write_read (i2c_address_code c.i2c_address) (reg ∷ []) timeout
          c.i2c_user w in
      record {
        status = r.0;
        value = if is_ok r.0 then u16 (bit_or (u8 r.1.0 * 256) (u8 r.1.1)) else 0;
        driver = tracked r.0 d;
        world = r.2;
      }

  unfoldable pub write_register : ℕ → ℕ → ℕ → Driver → W → WriteResult W
  write_register reg value timeout d w =
      let c = d.config in
      let r =
        bus.i2c_write c.i2c_write (i2c_address_code c.i2c_address)
          (reg ∷ bit_and (value / 256) 0xFF ∷ bit_and value 0xFF ∷ []) timeout c.i2c_user w in
      record { status = r.0; driver = tracked r.0 d; world = r.1 }
