-- ===== src/Trust/Rounds.antt =====
-- The promise of the applied state, and the rounds of `_pollInitializeOrApply`.
use ldc.Base.{
  if_cases, ℕ, ◌+◌, ◌-◌, ◌<◌, ◌≡◌, ◌≢◌, refl, ◌∙◌, ap, Bool, true, false, ◌!=◌, ◌&&◌, not, leb,
  if◌then◌else◌, arith, Bool-cases, inl, inr, u8, List, subst,
}
use ldc.Status.{is_ok}
use ldc.Cmd.Reg
use ldc.Cmd.Mask
use ldc.Config.{Config, Channel, DeviceVariant}
use ldc.Types.{AppliedConfigState, JobKind, JobPhase, is_acquire, is_unknown}
use ldc.Registers.{channel_count_for}
use ldc.Profile.{config_write_at, configuration_transfer_count}
use ldc.Driver.{Driver, configured_channel_count}
use ldc.Bus.{Bus, read_register, write_register, tracked}
use ldc.Round.{Round, at_register}
use ldc.Round.Apply.{
  reset_round, identity_round, replay_round, apply_round, failed_write, apply_offset,
  identity_step_at,
}
use ldc.Round.Ends.{apply_round_cases}
use ldc.Poll.{is_reset}
use ldc.Poll.Loop.{Holds}
use ldc.Invariant.{JobInv}
use ldc.Invariant.Rounds.{past_identity, transfer_count_bounds}
use ldc.Trust.{IsFaithful, total_writes, Replayed, Trusted, TrustInv}
use ldc.Trust.Table.{row_lem}
use ldc.Trust.Writes.{
  finish_job-TrustInv, failed_write-Trusted, Trusted-frame, replay_step, write-refused, read-held,
}

reset_kind :
    (kind : JobKind) (b : Bool) → (is_reset kind && b) ≡ true → kind ≡ JobKind.reset_and_reapply
reset_kind kind b h = ground arith

row-valid :
    (c : Config) (k : ℕ)
    → c.variant ≢ DeviceVariant.unspecified
    → k < total_writes c
    → (config_write_at c (channel_count_for c.variant) k).valid ≡ true
row-valid c k u b = ground (arith, row_lem c.variant c k b u)

module _ {W : Type 0} (bus : Bus W) (held : W → ℕ → List ℕ) (f : IsFaithful bus held) where
  abbrev KeepsTrust : Round W → Type 0
  KeepsTrust = Holds (λ d w. TrustInv (held w) d)

  -- A job that fails at a write.
  refused-Trusted :
      (phase : JobPhase) (reg value timeout : ℕ) (c : Channel) (a : AppliedConfigState)
      (d e g : Driver) (w : W)
      → Trusted (held w) d.applied_state d.config
      → (g.applied_state ≡ d.applied_state) × (g.config ≡ d.config)
      → ((h : ℕ → List ℕ) → Trusted h a g.config)
      → let t = write_register bus reg value timeout e w in
        let r = failed_write t.status phase reg c a g in
        Trusted (held t.world) r.applied_state r.config
  refused-Trusted phase reg value timeout c a d e g w p same lost =
      let t = write_register bus reg value timeout e w in
      failed_write-Trusted (held t.world) t.status phase reg c a g (lost (held t.world))
        (λ no_reach.
          rw (same.0, same.1)
            (Trusted-frame (held w) (held t.world) d.applied_state d.config
              (write-refused bus held f reg value timeout e w no_reach) p))

  reset_round-TrustInv :
      (now timeout : ℕ) (d : Driver) (w : W)
      → d.progress.kind ≡ JobKind.reset_and_reapply
      → d.job_step ≡ 0
      → TrustInv (held w) d
      → KeepsTrust (reset_round bus now timeout d w)
  unfolding reset_round write_register tracked
  reset_round-TrustInv now timeout d w k z v =
      let e = at_register JobPhase.software_reset Reg.reset_dev Channel.none d in
      let t = write_register bus Reg.reset_dev Mask.reset_dev timeout e w in
      elim (Bool-cases (is_ok t.status)) [
        | inl ok ↦ simp ok (record { trusted = tt; replayed = λ _ _ j p. absurd (grind arith) })
        | inr bad ↦ simp bad (
            finish_job-TrustInv (held t.world) _ _ now _ (
              refused-Trusted JobPhase.software_reset Reg.reset_dev Mask.reset_dev timeout
                Channel.none AppliedConfigState.unknown d e _ w v.trusted (refl, refl) (λ h. tt)))
      ]

  -- Verifying the identity turns no state into one that promises more.
  verified-Trusted :
      (h : ℕ → List ℕ) (b : Bool) (a : AppliedConfigState) (c : Config)
      → Trusted h a c
      → Trusted h (if b && is_unknown a then AppliedConfigState.dirty else a) c
  verified-Trusted h b a c p = ground arith

  identity_round-TrustInv :
      (now timeout index : ℕ) (d : Driver) (w : W)
      → d.job_step < apply_offset d.progress.kind (is_reset d.progress.kind)
      → TrustInv (held w) d
      → KeepsTrust (identity_round bus now timeout index d w)
  unfolding identity_round read_register tracked
  identity_round-TrustInv now timeout index d w s v =
      let step = identity_step_at index in
      let t =
        read_register bus step.reg timeout (at_register step.phase step.reg Channel.none d) w in
      if_cases KeepsTrust (not (is_ok t.status)) _ _
        (λ _. finish_job-TrustInv (held t.world) _ _ now _ tt)
        (λ _.
          if_cases KeepsTrust (t.value != step.expected) _ _
            (λ _. finish_job-TrustInv (held t.world) _ _ now _ tt)
            (λ _. record {
              trusted = verified-Trusted (held t.world) _ _ _ (
                  Trusted-frame (held w) (held t.world) d.applied_state d.config
                    (read-held bus held f step.reg timeout
                      (at_register step.phase step.reg Channel.none d) w)
                    v.trusted);
              replayed = λ _ _ j p. absurd (omega arith);
            }))

  replay_round-TrustInv :
      (now timeout k : ℕ) (d : Driver) (w : W)
      → d.config.variant ≢ DeviceVariant.unspecified
      → k < total_writes d.config
      → d.job_step ≡ apply_offset d.progress.kind (is_reset d.progress.kind) + k
      → d.job_step < 255
      → Replayed (held w) d.config true k
      → Trusted (held w) d.applied_state d.config
      → KeepsTrust (replay_round bus now timeout k d w)
  unfolding replay_round write_register tracked
  replay_round-TrustInv now timeout k d w u b e small p q =
      let row = config_write_at d.config (configured_channel_count d) k in
      let at = at_register row.phase row.reg row.channel d in
      let t = write_register bus row.reg row.value timeout at w in
      simp (row-valid d.config k u b) (elim (Bool-cases (is_ok t.status)) [
        | inl ok ↦
            let longer = replay_step bus held f d.config k timeout at w u b p ok in
            simp ok
              (elim (Bool-cases
                (leb (configuration_transfer_count (configured_channel_count d)) (u8 (k + 1)))) [
                  | inl last ↦ simp last (
                      finish_job-TrustInv (held t.world) _ _ now _
                        (λ j i. longer j (ground (arith, transfer_count_bounds d.config.variant))))
                  | inr more ↦
                      simp more
                        (record { trusted = tt; replayed = λ _ _ j i. longer j (ground arith) })
                ])
        | inr bad ↦ simp bad (
            finish_job-TrustInv (held t.world) _ _ now _ (
              refused-Trusted row.phase row.reg row.value timeout row.channel
                AppliedConfigState.dirty d at _ w q (refl, refl) (λ h. tt)))
      ])

  apply_any-TrustInv :
      (now timeout : ℕ) (d : Driver) (w : W)
      → d.progress.active ≡ true
      → is_acquire d.progress.kind ≡ false
      → d.config.variant ≢ DeviceVariant.unspecified
      → JobInv d
      → TrustInv (held w) d
      → KeepsTrust (apply_round bus d.progress.kind (is_reset d.progress.kind) now timeout d w)
  apply_any-TrustInv now timeout d w a n u j v =
      apply_round_cases bus KeepsTrust d.progress.kind (is_reset d.progress.kind) now timeout d w
        (λ r. reset_round-TrustInv now timeout d w (reset_kind _ _ r) (ground (arith, r)) v)
        (λ i. identity_round-TrustInv now timeout _ d w (ground (arith, i)) v)
        (λ r i.
          let past = past_identity d.progress.kind d.job_step r i in
          let range = transfer_count_bounds d.config.variant in
          let job = j.replays a n in
          let offset = apply_offset d.progress.kind (is_reset d.progress.kind) in
          let fits : u8 (d.job_step - offset) ≡ d.job_step - offset =
            ground (arith, past, range, job) in
          replay_round-TrustInv now timeout _ d w u (rw fits (ground (arith, past, range, job)))
            (rw fits (omega (arith, past))) (ground (arith, past, range, job))
            (rw fits (v.replayed a n)) v.trusted)

  pub apply_round-TrustInv :
      (kind : JobKind) (now timeout : ℕ) (d : Driver) (w : W)
      → d.progress.active ≡ true
      → d.progress.kind ≡ kind
      → is_acquire kind ≡ false
      → d.config.variant ≢ DeviceVariant.unspecified
      → JobInv d
      → TrustInv (held w) d
      → KeepsTrust (apply_round bus kind (is_reset kind) now timeout d w)
  apply_round-TrustInv kind now timeout d w a k n u j v =
      subst (λ q. KeepsTrust (apply_round bus q (is_reset q) now timeout d w)) k
        (apply_any-TrustInv now timeout d w a (ap is_acquire k ∙ n) u j v)
