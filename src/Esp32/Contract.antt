-- ===== src/Esp32/Contract.antt =====
-- The callbacks of examples/esp32/I2cMasterTransport.cpp against the contract that the driver has
-- with them.
use ldc.Base.{
  ℕ, ◌≡◌, ◌≢◌, ◌==◌, ◌||◌, Bool-cases, inl, inr, true, if◌then◌else◌, List, ◌∷◌, arith, refl,
}
use ldc.Status.{is_ok}
use ldc.Cmd.Reg
use ldc.Registers.{transfer_failure_may_have_reached_device}
use ldc.Driver.{initial}
use ldc.Api.{Call, run}
use ldc.Invariant.Calls.{AllTyped}
use ldc.Trust.{IsFaithful, Trusted}
use ldc.Trust.Calls.{run-Trusted}
use ldc.Esp32.{Context, Idf, map_esp_err, map_transaction_err, clamp_timeout_ms, record_transfer}
use ldc.Esp32.Transfer.{write, write_read, validate_context, transport, deref, is_empty}

-- `held h w r` are the bytes that register `r` of the device of handle `h` has accepted last. A
-- transmission that returns ESP_OK has been accepted in whole, and a read writes nothing.
pub record Carries {W : Type 0} (idf : Idf W) (held : ℕ → W → ℕ → List ℕ) : Type 0 where
  pub transmits :
      (h reg : ℕ) (bytes : List ℕ) (timeout : ℕ) (w : W)
      → (idf.i2c_master_transmit h (reg ∷ bytes) timeout w).0 ≡ idf.esp_ok
      → reg ≢ Reg.reset_dev
      → (r : ℕ)
      → held h (idf.i2c_master_transmit h (reg ∷ bytes) timeout w).1 r
        ≡ (if r == reg then bytes else held h w r)
  pub receives :
      (h : ℕ) (tx : List ℕ) (length timeout : ℕ) (w : W) (r : ℕ)
      → held h (idf.i2c_master_transmit_receive h tx length timeout w).2 r ≡ held h w r

module _ {W : Type 0} (idf : Idf W) where
  transaction_ok : (e : ℕ) → is_ok (map_transaction_err idf e) ≡ true → e ≡ idf.esp_ok
  unfolding map_transaction_err map_esp_err is_ok
  transaction_ok e h = ground (arith, h)

  transaction_reaches :
      (e : ℕ) → transfer_failure_may_have_reached_device (map_transaction_err idf e) ≡ true
  unfolding map_transaction_err map_esp_err transfer_failure_may_have_reached_device
  transaction_reaches e = ground arith

  -- No status of the transport is an address NACK.
  write-reaches :
      (address : ℕ) (tx : List ℕ) (timeout user : ℕ) (c : Context) (w : W)
      → transfer_failure_may_have_reached_device (write idf address tx timeout user c w).status
        ≡ true
  unfolding write validate_context transfer_failure_may_have_reached_device
  write-reaches address tx timeout user c w = ground (
    arith,
    transaction_reaches (idf.i2c_master_transmit c.device tx (clamp_timeout_ms timeout) w).0,
  )

  module _ (held : ℕ → W → ℕ → List ℕ) (f : Carries idf held) where
    write-accepts :
        (address reg : ℕ) (bytes : List ℕ) (timeout user : ℕ) (c : Context) (w : W)
        → let m = write idf address (reg ∷ bytes) timeout user c w in
          is_ok m.status ≡ true
          → reg ≢ Reg.reset_dev
          → (r : ℕ)
          → held m.context.device m.world r ≡ (if r == reg then bytes else held c.device w r)
    unfolding write record_transfer
    write-accepts address reg bytes timeout user c w ok n r =
        elim (Bool-cases (is_ok (validate_context address (deref user c)))) [
          | inl e ↦ simp e (
              f.transmits c.device reg bytes (clamp_timeout_ms timeout) w
                (transaction_ok _ (simp e at ok)) n r)
          | inr e ↦ absurd (ground (arith, e, ok))
        ]

    write_read-keeps :
        (address : ℕ) (tx : List ℕ) (length timeout user : ℕ) (c : Context) (w : W) (r : ℕ)
        → let m = write_read idf address tx length timeout user c w in
          held m.context.device m.world r ≡ held c.device w r
    unfolding write_read record_transfer
    write_read-keeps address tx length timeout user c w r =
        elim (Bool-cases (is_ok (validate_context address (deref user c)))) [
          | inl e ↦ elim (Bool-cases (is_empty tx || length == 0)) [
            | inl g ↦ simp (e, g) refl
            | inr g ↦ simp (e, g) (f.receives c.device tx length (clamp_timeout_ms timeout) w r)
          ]
          | inr e ↦ simp e refl
        ]

    transport-IsFaithful : IsFaithful (transport idf) (λ cw. held cw.0.device cw.1)
    transport-IsFaithful = record {
      accepts = λ f a reg bytes t u cw ok n r. write-accepts a reg bytes t u cw.0 cw.1 ok n r;
      refuses = λ f a tx t u cw h r. absurd (ground (arith, write-reaches a tx t u cw.0 cw.1, h));
      reads = λ f a tx t u cw r. write_read-keeps a tx 2 t u cw.0 cw.1 r;
      observes = λ f u cw r. refl;
    }

    -- Over the ESP32 transport, whatever a client calls: when the driver reports that the profile is
    -- applied, asleep or converting, the device of the context's handle has last accepted the
    -- profile's value in every register of the replay, and in CONFIG the value for that state. Of
    -- ESP-IDF it is assumed that a transmission with ESP_OK is accepted in whole and that a read
    -- writes nothing, and of the calls that their masks are below 256.
    pub transport-Trusted :
        (cs : List Call) (c : Context) (w : W)
        → AllTyped cs
        → let r = run (transport idf) cs initial (c, w) in
          Trusted (held r.1.0.device r.1.1) r.0.applied_state r.0.config
    transport-Trusted cs c w typed =
        run-Trusted (transport idf) (λ cw. held cw.0.device cw.1) transport-IsFaithful cs (c, w)
          typed
