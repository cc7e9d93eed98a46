-- ===== src/Trust/Switch.antt =====
-- The promise of the applied state, and `sleep` and `wake` of src/LDC1614.cpp.
use ldc.Base.{
  if_cases, ℕ, zero, suc, ◌==◌, ◌≡◌, ◌≢◌, ◌∙◌, sym, ap, Bool, true, false, not, if◌then◌else◌, List,
  arith,
}
use ldc.Status.{Status, is_ok}
use ldc.Cmd.Reg
use ldc.Config.{Config, DeviceVariant}
use ldc.Types.{is_sleeping, is_active}
use ldc.Profile.{build_config_register, config_write_at, configuration_transfer_count}
use ldc.Registers.{transfer_failure_may_have_reached_device}
use ldc.Driver.{Driver}
use ldc.Bus.{Bus, write_register, tracked}
use ldc.Direct.{sleep, wake, distrust_config_write}
use ldc.Invariant.{Inv}
use ldc.Trust.{
  IsFaithful, Trusted, TrustInv, Replayed, word_bytes, total_writes, register_at, value_at,
}
use ldc.Trust.Table.{rows-distinct}
use ldc.Trust.Writes.{Trusted-frame, write-accepted, write-refused, if_equal, if_other}
use ldc.Trust.Polls.{validate-variant}
use ldc.Trust.Local.{idle-TrustInv}

-- CONFIG is the first register of the replay; a write to it changes whether the device sleeps, and
-- nothing else of what the device holds.
pub config_row : (c : Config) → c.variant ≢ DeviceVariant.unspecified → register_at c 0 ≡ Reg.config
unfolding config_write_at configuration_transfer_count
config_row c u = ground arith

pub later_value : (c : Config) (b s : Bool) (j : ℕ) → value_at c b (suc j) ≡ value_at c s (suc j)
later_value c b s j = ground arith

active-Replayed :
    (h : ℕ → List ℕ) (d : Driver)
    → not (is_active d.applied_state) ≡ false
    → Trusted h d.applied_state d.config
    → Replayed h d.config false (total_writes d.config)
active-Replayed h d s p = ground (arith, p)

sleeping-Replayed :
    (h : ℕ → List ℕ) (d : Driver)
    → not (is_sleeping d.applied_state) ≡ false
    → Trusted h d.applied_state d.config
    → Replayed h d.config true (total_writes d.config)
sleeping-Replayed h d s p = ground (arith, p)

switched-Replayed :
    (h g : ℕ → List ℕ) (c : Config) (b s : Bool)
    → c.variant ≢ DeviceVariant.unspecified
    → Replayed h c b (total_writes c)
    → ((r : ℕ) → g r ≡ (if r == Reg.config then word_bytes (build_config_register c s) else h r))
    → Replayed g c s (total_writes c)
switched-Replayed h g c b s u p w zero q =
    w (register_at c 0) ∙ if_equal (register_at c 0) Reg.config _ _ (config_row c u)
switched-Replayed h g c b s u p w (suc j) q =
    w (register_at c (suc j))
    ∙ (if_other (register_at c (suc j)) Reg.config _ _
          (λ e. rows-distinct c.variant c 0 (suc j) (omega arith) q u (config_row c u ∙ sym e))
        ∙ (p (suc j) q ∙ ap word_bytes (later_value c b s j)))

module _ {W : Type 0} (bus : Bus W) (held : W → ℕ → List ℕ) (f : IsFaithful bus held) where
  abbrev KeepsTrust : Status × Driver × W → Type 0
  KeepsTrust p = TrustInv (held p.2) p.1

  -- A CONFIG write that fails keeps the trust only if nothing reached the device.
  failed_config-TrustInv :
      (value : ℕ) (d : Driver) (w : W)
      → d.progress.active ≡ false
      → Trusted (held w) d.applied_state d.config
      → let t = write_register bus Reg.config value d.config.i2c_timeout_ms d w in
        TrustInv (held t.world) (distrust_config_write t.status t.driver)
  unfolding write_register tracked
  failed_config-TrustInv value d w a p =
      let t = write_register bus Reg.config value d.config.i2c_timeout_ms d w in
      if_cases (λ (e : Driver). TrustInv (held t.world) e)
        (transfer_failure_may_have_reached_device t.status) _ _
        (λ _. idle-TrustInv (held t.world) _ a tt)
        (λ kept. idle-TrustInv (held t.world) _ a (
          Trusted-frame (held w) (held t.world) d.applied_state d.config
            (write-refused bus held f Reg.config value d.config.i2c_timeout_ms d w kept) p))

  -- A CONFIG write that is accepted switches between the two applied states.
  switched-TrustInv :
      (b s : Bool) (d : Driver) (w : W)
      → d.config.variant ≢ DeviceVariant.unspecified
      → let t =
          write_register bus Reg.config
            (build_config_register d.config s)
            d.config.i2c_timeout_ms
            d
            w in
        is_ok t.status ≡ true
        → Replayed (held w) d.config b (total_writes d.config)
        → Replayed (held t.world) d.config s (total_writes d.config)
  switched-TrustInv b s d w u ok p = switched-Replayed (held w) _ d.config b s u p (
      write-accepted bus held f Reg.config (build_config_register d.config s)
        d.config.i2c_timeout_ms d w ok (ground arith))

  pub sleep-TrustInv :
      (d : Driver) (w : W) → Inv d → TrustInv (held w) d → KeepsTrust (sleep bus d w)
  unfolding sleep write_register tracked
  sleep-TrustInv d w i v =
      let t =
        write_register bus Reg.config (build_config_register d.config true) d.config.i2c_timeout_ms
          d w in
      if_cases KeepsTrust (not d.bound) _ _ (λ _. v)
        (λ b.
          if_cases KeepsTrust d.progress.active _ _ (λ _. v)
            (λ a.
              if_cases KeepsTrust (is_sleeping d.applied_state) _ _ (λ _. v)
                (λ _.
                  if_cases KeepsTrust (not (is_active d.applied_state)) _ _ (λ _. v)
                    (λ s.
                      if_cases KeepsTrust (is_ok t.status) _ _
                        (λ ok. idle-TrustInv (held t.world) _ a (
                          switched-TrustInv false true d w
                            (validate-variant d.config (i.binding.valid (ground (arith, b)))) ok
                            (active-Replayed (held w) d s v.trusted)))
                        (λ _. failed_config-TrustInv _ d w a v.trusted)))))

  pub wake-TrustInv : (d : Driver) (w : W) → Inv d → TrustInv (held w) d → KeepsTrust (wake bus d w)
  unfolding wake write_register tracked
  wake-TrustInv d w i v =
      let t =
        write_register bus Reg.config (build_config_register d.config false) d.config.i2c_timeout_ms
          d w in
      if_cases KeepsTrust (not d.bound) _ _ (λ _. v)
        (λ b.
          if_cases KeepsTrust d.progress.active _ _ (λ _. v)
            (λ a.
              if_cases KeepsTrust (is_active d.applied_state) _ _ (λ _. v)
                (λ _.
                  if_cases KeepsTrust (not (is_sleeping d.applied_state)) _ _ (λ _. v)
                    (λ s.
                      if_cases KeepsTrust (is_ok t.status) _ _
                        (λ ok. idle-TrustInv (held t.world) _ a (
                          switched-TrustInv true false d w
                            (validate-variant d.config (i.binding.valid (ground (arith, b)))) ok
                            (sleeping-Replayed (held w) d s v.trusted)))
                        (λ _. failed_config-TrustInv _ d w a v.trusted)))))
