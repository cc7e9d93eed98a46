-- ===== src/Trust/Reads.antt =====
-- The promise of the applied state, and the rounds of `_pollAcquire`.
use ldc.Base.{if_cases, ℕ, ◌≡◌, true, List, arith}
use ldc.Status.{is_ok}
use ldc.Cmd
use ldc.Cmd.Reg
use ldc.Config.{Channel, channel_index}
use ldc.Types.{is_acquire}
use ldc.Registers.{advance_acquire_channel, transfer_failure_may_have_reached_device}
use ldc.Driver.{Driver}
use ldc.Bus.{Bus, read_register, tracked}
use ldc.Round.{Round, at_register}
use ldc.Round.Acquire.{
  acquire_round, read_status_before_round, read_data_msb_round, read_data_lsb_round,
  read_status_after_round, invalid_round,
}
use ldc.Round.Ends.{acquire_round_cases}
use ldc.Poll.Loop.{Holds}
use ldc.Trust.{IsFaithful, Trusted, TrustInv}
use ldc.Trust.Writes.{finish_job-TrustInv, Trusted-frame, read-held}

-- An acquisition has nothing to replay.
acquire-TrustInv :
    (h : ℕ → List ℕ) (d : Driver)
    → is_acquire d.progress.kind ≡ true
    → Trusted h d.applied_state d.config
    → TrustInv h d
acquire-TrustInv h d k p = record { trusted = p; replayed = λ _ n. absurd (ground arith) }

module _ {W : Type 0} (bus : Bus W) (held : W → ℕ → List ℕ) (f : IsFaithful bus held) where
  abbrev KeepsTrust : Round W → Type 0
  KeepsTrust = Holds (λ d w. TrustInv (held w) d)

  -- A read leaves the promise as it is.
  read-Trusted :
      (reg timeout : ℕ) (d e : Driver) (w : W)
      → Trusted (held w) d.applied_state d.config
      → Trusted (held (read_register bus reg timeout e w).world) d.applied_state d.config
  read-Trusted reg timeout d e w p =
      Trusted-frame (held w) (held (read_register bus reg timeout e w).world) d.applied_state
        d.config (read-held bus held f reg timeout e w) p

  module _ (now timeout : ℕ) (d : Driver) (w : W) where
    read_status_before-TrustInv :
        is_acquire d.progress.kind ≡ true
        → Trusted (held w) d.applied_state d.config
        → KeepsTrust (read_status_before_round bus now timeout d w)
    unfolding read_status_before_round read_register tracked advance_acquire_channel
    read_status_before-TrustInv k p =
        let e = at_register d.progress.phase Reg.status Channel.none d in
        let t = read_register bus Reg.status timeout e w in
        let q = read-Trusted Reg.status timeout d e w p in
        if_cases KeepsTrust (is_ok t.status) _ _ (λ _. acquire-TrustInv (held t.world) _ k q)
          (λ _. finish_job-TrustInv (held t.world) _ _ now _ (
            if_cases (λ (g : Driver). Trusted (held t.world) g.applied_state g.config)
              (transfer_failure_may_have_reached_device t.status) _ _ (λ _. q) (λ _. q)))

    read_data_msb-TrustInv :
        is_acquire d.progress.kind ≡ true
        → Trusted (held w) d.applied_state d.config
        → KeepsTrust (read_data_msb_round bus now timeout d w)
    unfolding read_data_msb_round read_register tracked
    read_data_msb-TrustInv k p =
        let reg = Cmd.reg_data_msb (channel_index d.job_channel) in
        let e = at_register d.progress.phase reg d.job_channel d in
        let t = read_register bus reg timeout e w in
        let q = read-Trusted reg timeout d e w p in
        if_cases KeepsTrust (is_ok t.status) _ _ (λ _. acquire-TrustInv (held t.world) _ k q)
          (λ _. finish_job-TrustInv (held t.world) _ _ now _ q)

    read_data_lsb-TrustInv :
        is_acquire d.progress.kind ≡ true
        → Trusted (held w) d.applied_state d.config
        → KeepsTrust (read_data_lsb_round bus now timeout d w)
    unfolding read_data_lsb_round read_register tracked advance_acquire_channel
    read_data_lsb-TrustInv k p =
        let reg = Cmd.reg_data_lsb (channel_index d.job_channel) in
        let e = at_register d.progress.phase reg d.job_channel d in
        let t = read_register bus reg timeout e w in
        let q = read-Trusted reg timeout d e w p in
        if_cases KeepsTrust (is_ok t.status) _ _ (λ _. acquire-TrustInv (held t.world) _ k q)
          (λ _. finish_job-TrustInv (held t.world) _ _ now _ q)

    read_status_after-TrustInv :
        Trusted (held w) d.applied_state d.config
        → KeepsTrust (read_status_after_round bus now timeout d w)
    unfolding read_status_after_round read_register tracked
    read_status_after-TrustInv p =
        let e = at_register d.progress.phase Reg.status Channel.none d in
        let t = read_register bus Reg.status timeout e w in
        let q = read-Trusted Reg.status timeout d e w p in
        if_cases KeepsTrust (is_ok t.status) _ _
          (λ _. finish_job-TrustInv (held t.world) _ _ now _ q)
          (λ _. finish_job-TrustInv (held t.world) _ _ now _ q)

    invalid-TrustInv :
        Trusted (held w) d.applied_state d.config → KeepsTrust (invalid_round now d w)
    unfolding invalid_round
    invalid-TrustInv p = finish_job-TrustInv (held w) _ _ now d p

    pub acquire_round-TrustInv :
        is_acquire d.progress.kind ≡ true
        → TrustInv (held w) d
        → KeepsTrust (acquire_round bus now timeout d w)
    acquire_round-TrustInv k v =
        acquire_round_cases bus KeepsTrust now timeout d w
          (λ _. read_status_before-TrustInv k v.trusted) (λ _. read_data_msb-TrustInv k v.trusted)
          (λ _. read_data_lsb-TrustInv k v.trusted) (λ _. read_status_after-TrustInv v.trusted)
          (λ _. invalid-TrustInv v.trusted)
