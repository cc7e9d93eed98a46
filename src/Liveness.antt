-- ===== src/Liveness.antt =====
-- What a job of src/LDC1614.cpp comes to: its end within its bound of transfers, and its success on
-- a device that answers.
pub mod Counts
pub mod Ends
pub mod Succeeds
pub mod Healthy
use ldc.Base.{ℕ, ◌-◌, ◌≡◌, Bool, true, false, if◌then◌else◌, List, [], ◌∷◌, u8, ◌+◌, ◌%◌}
use ldc.Status.{is_ok}
use ldc.Cmd.Reg
use ldc.Types.{OperationResult, JobKind, TerminalOutcome, AppliedConfigState, is_acquire}
use ldc.Driver.{Driver, get_slot}
use ldc.Bus.{Bus}
use ldc.Invariant.Queue.{newest}

-- The transfers that the job of a driver may still make.
abbrev pub transfers_left : Driver → ℕ
transfers_left d = d.progress.maximum_transfers - d.progress.completed_transfers

-- A device that answers every transfer, with the identity of an LDC1614 in its two registers.
pub record Answers {W : Type 0} (bus : Bus W) : Type 0 where
  pub writes :
      (f address : ℕ) (tx : List ℕ) (timeout user : ℕ) (w : W)
      → is_ok (bus.i2c_write f address tx timeout user w).0 ≡ true
  pub reads :
      (f address : ℕ) (tx : List ℕ) (timeout user : ℕ) (w : W)
      → is_ok (bus.i2c_write_read f address tx timeout user w).0 ≡ true
  pub manufacturer :
      (f address timeout user : ℕ) (w : W)
      → (bus.i2c_write_read f address (Reg.manufacturer_id ∷ []) timeout user w).1 ≡ (0x54, 0x49)
  pub device :
      (f address timeout user : ℕ) (w : W)
      → (bus.i2c_write_read f address (Reg.device_id ∷ []) timeout user w).1 ≡ (0x30, 0x55)

-- Where the job is over, it has succeeded, and a replay has left the device asleep.
abbrev pub Succeeded : JobKind → Driver → Type 0
Succeeded kind d =
    d.progress.active ≡ false
    → ((newest d).outcome ≡ TerminalOutcome.success)
      × ((if is_acquire kind then AppliedConfigState.applied_sleeping else d.applied_state)
          ≡ AppliedConfigState.applied_sleeping)
