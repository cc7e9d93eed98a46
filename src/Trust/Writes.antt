-- ===== src/Trust/Writes.antt =====
-- What the register transfers of src/LDC1614.cpp do to the contents that the device has accepted.
use ldc.Base.{
  ℕ, zero, suc, ◌<◌, ◌≡◌, ◌≢◌, refl, sym, ◌∙◌, ap, Bool, true, false, ◌==◌, if◌then◌else◌, arith,
  Bool-cases, inl, inr, List, subst, ==_iff,
}
use ldc.Status.{Status, is_ok}
use ldc.Cmd.Reg
use ldc.Config.{Config, Channel, DeviceVariant}
use ldc.Types.{AppliedConfigState, JobPhase, TerminalOutcome, has_effect, partial_write}
use ldc.Registers.{channel_count_for, transfer_failure_may_have_reached_device}
use ldc.Profile.{config_write_at, configuration_transfer_count, build_config_register}
use ldc.Driver.{Driver, clear_active_job}
use ldc.Bus.{Bus, read_register, write_register}
use ldc.Jobs.{finish_job, push_result}
use ldc.Round.Apply.{failed_write}
use ldc.Trust.{
  IsFaithful, word_bytes, total_writes, register_at, value_at, Replayed, Trusted, TrustInv,
}
use ldc.Trust.Table.{row_lem, rows-distinct}

-- A finished job promises only what its state does.
pub finish_job-TrustInv :
    (held : ℕ → List ℕ) (o : TerminalOutcome) (s : Status) (t : ℕ) (d : Driver)
    → Trusted held d.applied_state d.config
    → TrustInv held (finish_job o s t d).1
unfolding finish_job push_result clear_active_job
finish_job-TrustInv held o s t d h = record { trusted = h; replayed = λ a _. cc }

-- A failed write ends the trust, unless nothing reached the device in the whole job.
pub failed_write-Trusted :
    (held : ℕ → List ℕ) (s : Status) (p : JobPhase) (reg : ℕ) (c : Channel) (a : AppliedConfigState)
    (d : Driver)
    → Trusted held a d.config
    → (transfer_failure_may_have_reached_device s ≡ false → Trusted held d.applied_state d.config)
    → Trusted held (failed_write s p reg c a d).applied_state (failed_write s p reg c a d).config
unfolding failed_write
failed_write-Trusted held s p reg c a d lost kept =
    elim (Bool-cases (transfer_failure_may_have_reached_device s)) [
      | inl e ↦ simp e lost
      | inr e ↦ simp e (elim (Bool-cases (has_effect d.progress.effects partial_write)) [
        | inl f ↦ simp f lost
        | inr f ↦ simp f (kept e)
      ])
    ]

-- Contents that agree keep every promise.
Replayed-frame :
    (h g : ℕ → List ℕ) (c : Config) (s : Bool) (k : ℕ)
    → ((r : ℕ) → g r ≡ h r)
    → Replayed h c s k
    → Replayed g c s k
Replayed-frame h g c s k e p = λ j q. e (register_at c j) ∙ p j q

pub Trusted-frame :
    (h g : ℕ → List ℕ) (a : AppliedConfigState) (c : Config)
    → ((r : ℕ) → g r ≡ h r)
    → Trusted h a c
    → Trusted g a c
Trusted-frame h g AppliedConfigState.unknown c e p = tt
Trusted-frame h g AppliedConfigState.applying c e p = tt
Trusted-frame h g AppliedConfigState.applied_sleeping c e p = Replayed-frame h g c true _ e p
Trusted-frame h g AppliedConfigState.applied_active c e p = Replayed-frame h g c false _ e p
Trusted-frame h g AppliedConfigState.dirty c e p = tt

-- The first row is CONFIG, with the device asleep.
pub first_row :
    (c : Config)
    → c.variant ≢ DeviceVariant.unspecified
    → (config_write_at c (channel_count_for c.variant) 0).value ≡ build_config_register c true
unfolding config_write_at configuration_transfer_count
first_row c u = ground arith

-- The table's value is the value of the sleeping profile.
pub row-value_at :
    (c : Config) (k : ℕ)
    → c.variant ≢ DeviceVariant.unspecified
    → (config_write_at c (channel_count_for c.variant) k).value ≡ value_at c true k
row-value_at c zero u = first_row c u
row-value_at c (suc k) u = ground arith

not_reset :
    (c : Config) (k : ℕ)
    → c.variant ≢ DeviceVariant.unspecified
    → k < total_writes c
    → register_at c k ≢ Reg.reset_dev
not_reset c k u b = ground (arith, row_lem c.variant c k b u)

pub if_equal : (a b : ℕ) (x y : List ℕ) → a ≡ b → (if a == b then x else y) ≡ x
if_equal a b x y e = ground arith

pub if_other : (a b : ℕ) (x y : List ℕ) → a ≢ b → (if a == b then x else y) ≡ y
if_other a b x y e = ground arith

module _ {W : Type 0} (bus : Bus W) (held : W → ℕ → List ℕ) (f : IsFaithful bus held) where
  pub write-accepted :
      (reg value timeout : ℕ) (d : Driver) (w : W)
      → is_ok (write_register bus reg value timeout d w).status ≡ true
      → reg ≢ Reg.reset_dev
      → (r : ℕ)
      → held (write_register bus reg value timeout d w).world r
        ≡ (if r == reg then word_bytes value else held w r)
  unfolding write_register
  write-accepted reg value timeout d w ok n r =
      f.accepts d.config.i2c_write _ reg _ timeout d.config.i2c_user w ok n r

  pub write-refused :
      (reg value timeout : ℕ) (d : Driver) (w : W)
      → transfer_failure_may_have_reached_device (write_register bus reg value timeout d w).status
        ≡ false
      → (r : ℕ) → held (write_register bus reg value timeout d w).world r ≡ held w r
  unfolding write_register
  write-refused reg value timeout d w kept r =
      f.refuses d.config.i2c_write _ _ timeout d.config.i2c_user w kept r

  pub read-held :
      (reg timeout : ℕ) (d : Driver) (w : W) (r : ℕ)
      → held (read_register bus reg timeout d w).world r ≡ held w r
  unfolding read_register
  read-held reg timeout d w r = f.reads d.config.i2c_write_read _ _ timeout d.config.i2c_user w r

  -- The accepted write of row `k` extends the replay by one register.
  pub replay_step :
      (c : Config) (k timeout : ℕ) (d : Driver) (w : W)
      → c.variant ≢ DeviceVariant.unspecified
      → k < total_writes c
      → Replayed (held w) c true k
      → let row = config_write_at c (channel_count_for c.variant) k in
        let t = write_register bus row.reg row.value timeout d w in
        is_ok t.status ≡ true → Replayed (held t.world) c true (suc k)
  replay_step c k timeout d w u b p ok = λ j q. elim (Bool-cases (j == k)) [
    | inl e ↦
        subst
          (λ i.
            held
              (write_register bus (register_at c k)
                (config_write_at c (channel_count_for c.variant) k).value timeout d w).world
              (register_at c i)
            ≡ word_bytes (value_at c true i))
          (sym ((==_iff j k).0 e))
          (write-accepted (register_at c k) _ timeout d w ok (not_reset c k u b) (register_at c k)
            ∙ (if_equal (register_at c k) (register_at c k) _ _ refl
                ∙ ap word_bytes (row-value_at c k u)))
    | inr e ↦
        write-accepted (register_at c k) _ timeout d w ok (not_reset c k u b) (register_at c j)
        ∙ (if_other (register_at c j) (register_at c k) _ _
              (rows-distinct c.variant c j k (ground arith) b u)
            ∙ p j (ground arith))
  ]
