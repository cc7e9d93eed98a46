-- ===== src/Trust.antt =====
-- What the applied-configuration state promises of the device: `appliedConfigState()` against the
-- register contents that the transport callbacks report as accepted.
pub mod Table
pub mod Writes
pub mod Rounds
pub mod Reads
pub mod Polls
pub mod Local
pub mod Switch
pub mod Calls
pub mod Verify
use ldc.Base.{
  ℕ, ◌-◌, ◌<◌, ◌≡◌, ◌≢◌, Bool, true, false, ◌==◌, ◌/◌, if◌then◌else◌, List, [], ◌∷◌, bit_and,
}
use ldc.Status.{Status, is_ok}
use ldc.Cmd.Reg
use ldc.Config.{Config}
use ldc.Types.{AppliedConfigState, is_acquire}
use ldc.Registers.{channel_count_for, transfer_failure_may_have_reached_device}
use ldc.Profile.{config_write_at, configuration_transfer_count, build_config_register}
use ldc.Driver.{Driver}
use ldc.Bus.{Bus}
use ldc.Round.Apply.{apply_offset}
use ldc.Poll.{is_reset}

-- The two data bytes of a register write.
abbrev pub word_bytes : ℕ → List ℕ
word_bytes v = bit_and (v / 256) 0xFF ∷ bit_and v 0xFF ∷ []

-- The contract of the callbacks in include/LDC1614/Config.h: `held w r` are the bytes that register
-- `r` of the device has accepted last. OK means that every byte was accepted, an address NACK that
-- nothing was, and a read or a look at INTB writes nothing. Of any other failure, and of a reset,
-- nothing is assumed.
pub record IsFaithful {W : Type 0} (bus : Bus W) (held : W → ℕ → List ℕ) : Type 0 where
  pub accepts :
      (f address reg : ℕ) (bytes : List ℕ) (timeout user : ℕ) (w : W)
      → is_ok (bus.i2c_write f address (reg ∷ bytes) timeout user w).0 ≡ true
      → reg ≢ Reg.reset_dev
      → (r : ℕ)
      → held (bus.i2c_write f address (reg ∷ bytes) timeout user w).1 r
        ≡ (if r == reg then bytes else held w r)
  pub refuses :
      (f address : ℕ) (tx : List ℕ) (timeout user : ℕ) (w : W)
      → transfer_failure_may_have_reached_device (bus.i2c_write f address tx timeout user w).0
        ≡ false
      → (r : ℕ) → held (bus.i2c_write f address tx timeout user w).1 r ≡ held w r
  pub reads :
      (f address : ℕ) (tx : List ℕ) (timeout user : ℕ) (w : W) (r : ℕ)
      → held (bus.i2c_write_read f address tx timeout user w).2 r ≡ held w r
  pub observes : (f user : ℕ) (w : W) (r : ℕ) → held (bus.intb_asserted f user w).2 r ≡ held w r

abbrev pub total_writes : Config → ℕ
total_writes c = configuration_transfer_count (channel_count_for c.variant)

abbrev pub register_at : Config → ℕ → ℕ
register_at c step = (config_write_at c (channel_count_for c.variant) step).reg

-- The value of a replay step, where CONFIG is the one to sleep or to convert.
abbrev pub value_at : Config → Bool → ℕ → ℕ
value_at c sleeping step =
    if step == 0
    then build_config_register c sleeping
    else (config_write_at c (channel_count_for c.variant) step).value

-- The device holds the first `k` registers of the profile.
abbrev pub Replayed : (ℕ → List ℕ) → Config → Bool → ℕ → Type 0
Replayed held c sleeping k =
    (step : ℕ) → step < k → held (register_at c step) ≡ word_bytes (value_at c sleeping step)

-- What each state promises.
abbrev pub Trusted : (ℕ → List ℕ) → AppliedConfigState → Config → Type 0
Trusted held AppliedConfigState.applied_sleeping c = Replayed held c true (total_writes c)
Trusted held AppliedConfigState.applied_active c = Replayed held c false (total_writes c)
Trusted held AppliedConfigState.unknown c = Unit {0}
Trusted held AppliedConfigState.applying c = Unit {0}
Trusted held AppliedConfigState.dirty c = Unit {0}

-- The promise of the state, and the part of the profile that an active replay has written.
pub record TrustInv (held : ℕ → List ℕ) (d : Driver) : Type 0 where
  pub trusted : Trusted held d.applied_state d.config
  pub replayed :
      d.progress.active ≡ true
      → is_acquire d.progress.kind ≡ false
      → Replayed held d.config true
          (d.job_step - apply_offset d.progress.kind (is_reset d.progress.kind))
