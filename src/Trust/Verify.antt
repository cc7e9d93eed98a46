-- ===== src/Trust/Verify.antt =====
-- The registers that an applied profile leaves in the device, against the expectations with which a
-- client of src/LDC1614.cpp verifies them.
use ldc.Base.{
  subst, ℕ, zero, suc, ◌≡◌, ◌≢◌, ◌∙◌, refl, ap, sym, Bool, true, false, ◌||◌, not, arith, bit_and,
  bit_or, ◌*◌, ◌^◌, List,
}
use ldc.Status.{is_ok}
use ldc.Cmd
use ldc.Cmd.Mask
use ldc.Cmd.Shift
use ldc.Config.{Config, Channel, channel_index, DeviceVariant}
use ldc.Registers.{is_concrete_channel, channel_count_for}
use ldc.Profile.{or_when, build_config_register, configuration_comparison_mask, config_write_at}
use ldc.Profile.{is_low_power, is_external}
use ldc.Validate.{validate_config}
use ldc.Types.{AppliedConfigState, is_sleeping, is_active}
use ldc.Driver.{initial}
use ldc.Bus.{Bus}
use ldc.Direct.{Expectation, expected_configuration_register}
use ldc.Api.{Call, run}
use ldc.Invariant.Calls.{AllTyped, run-Inv}
use ldc.Profile.Expected.{from_row, expected_sound}
use ldc.Trust.{IsFaithful, Trusted, Replayed, word_bytes, total_writes, register_at, value_at}
use ldc.Trust.Writes.{first_row, row-value_at}
use ldc.Trust.Polls.{validate-variant}
use ldc.Trust.Switch.{config_row, later_value}
use ldc.Trust.Calls.{run-Trusted}

config_word :
    (ch : Channel) (a b c d e f : Bool)
    → let channel =
        or_when
          (is_concrete_channel ch)
          (bit_and (channel_index ch * 2 ^ Shift.cfg_active_chan) Mask.cfg_active_chan)
          Cmd.config_reserved_value in
      let rest = λ (sleep : ℕ). or_when f Mask.cfg_high_current_drv (
        or_when e Mask.cfg_intb_dis (
          or_when d Mask.cfg_ref_clk_src (
            or_when (not c) Mask.cfg_auto_amp_dis (
              or_when b Mask.cfg_sensor_activate_sel
                (or_when a Mask.cfg_rp_override_en sleep))))) in
      bit_and (rest channel) 0xDFFF ≡ bit_and (rest (bit_or channel Mask.cfg_sleep_mode_en)) 0xDFFF
config_word Channel.ch0 a b c d e f = ground arith
config_word Channel.ch1 a b c d e f = ground arith
config_word Channel.ch2 a b c d e f = ground arith
config_word Channel.ch3 a b c d e f = ground arith
config_word Channel.none a b c d e f = ground arith

-- But for the sleep bit, CONFIG is the same asleep and converting.
config_masked :
    (c : Config) (s : Bool)
    → bit_and (build_config_register c s) 0xDFFF ≡ bit_and (build_config_register c true) 0xDFFF
unfolding build_config_register
config_masked c true = refl
config_masked c false =
    config_word c.active_channel c.rp_override_enabled (is_low_power c.sensor_activation)
      c.auto_amplitude_correction_enabled (is_external c.reference_clock.source) c.intb_disabled
      c.high_current_drive_enabled

-- Under its mask, each register of the replay has the value of its row in either state.
value-masked :
    (c : Config) (s : Bool) (k : ℕ)
    → c.variant ≢ DeviceVariant.unspecified
    → let mask = configuration_comparison_mask (register_at c k) in
      bit_and (value_at c s k) mask
      ≡ bit_and (config_write_at c (channel_count_for c.variant) k).value mask
unfolding configuration_comparison_mask
value-masked c s zero u = simp (config_row c u, first_row c u) (config_masked c s)
value-masked c s (suc k) u =
    ap (λ (v : ℕ). bit_and v (configuration_comparison_mask (register_at c (suc k))))
      (later_value c s true k ∙ sym (row-value_at c (suc k) u))

-- What a reading of register `reg` gives, against an expectation.
abbrev pub Matches : (ℕ → List ℕ) → ℕ → Expectation → Type 0
Matches h reg x = (v : ℕ) × (h reg ≡ word_bytes v) × (bit_and v x.2 ≡ bit_and x.1 x.2)

Replayed-Matches :
    (h : ℕ → List ℕ) (c : Config) (s : Bool) (reg : ℕ)
    → is_ok (validate_config c) ≡ true
    → is_ok (expected_configuration_register c reg).0 ≡ true
    → Replayed h c s (total_writes c)
    → Matches h reg (expected_configuration_register c reg)
Replayed-Matches h c s reg valid e p =
    let row = expected_sound c valid reg e in
    subst (λ (x : Expectation). Matches h reg x) (sym row.3)
      (subst (λ (r : ℕ). Matches h r (from_row c row.0)) row.2
        (value_at c s row.0, p row.0 row.1, value-masked c s row.0 (validate-variant c valid)))

Trusted-Matches :
    (h : ℕ → List ℕ) (a : AppliedConfigState) (c : Config) (reg : ℕ)
    → is_ok (validate_config c) ≡ true
    → is_ok (expected_configuration_register c reg).0 ≡ true
    → (is_sleeping a || is_active a) ≡ true
    → Trusted h a c
    → Matches h reg (expected_configuration_register c reg)
Trusted-Matches h AppliedConfigState.unknown c reg valid e s p = absurd (ground arith)
Trusted-Matches h AppliedConfigState.applying c reg valid e s p = absurd (ground arith)
Trusted-Matches h AppliedConfigState.dirty c reg valid e s p = absurd (ground arith)
Trusted-Matches h AppliedConfigState.applied_sleeping c reg valid e s p =
    Replayed-Matches h c true reg valid e p
Trusted-Matches h AppliedConfigState.applied_active c reg valid e s p =
    Replayed-Matches h c false reg valid e p

module _ {W : Type 0} (bus : Bus W) (held : W → ℕ → List ℕ) (f : IsFaithful bus held) where
  -- Verification after apply succeeds: whatever a client has called, while the callbacks keep their
  -- contract, if the driver reports an applied state then for every register with an expectation the
  -- device has last accepted a value that agrees with it under the comparison mask. The driver is
  -- bound, and the masks that the calls pass are below 256.
  pub run-Matches :
      (cs : List Call) (w : W) (reg : ℕ)
      → AllTyped cs
      → let r = run bus cs initial w in
        r.0.bound ≡ true
        → (is_sleeping r.0.applied_state || is_active r.0.applied_state) ≡ true
        → is_ok (expected_configuration_register r.0.config reg).0 ≡ true
        → Matches (held r.1) reg (expected_configuration_register r.0.config reg)
  run-Matches cs w reg m b s e =
      let r = run bus cs initial w in
      Trusted-Matches (held r.1) r.0.applied_state r.0.config reg
        ((run-Inv bus cs w m).binding.valid b) e s (run-Trusted bus held f cs w m)
