-- ===== src/Trust/Polls.antt =====
-- The promise of the applied state, and `poll` of src/LDC1614.cpp.
use ldc.Base.{
  if_cases, ℕ, zero, suc, ◌==◌, ◌≡◌, ◌≢◌, sym, ap, true, false, not, List, arith, Bool-cases, inl,
  inr, subst,
}
use ldc.Status.{Status, Err, error, is_ok}
use ldc.Config.{Config, DeviceVariant}
use ldc.Types.{JobKind, is_acquire}
use ldc.Validate.{validate_config, check_transport, and_then-is_ok}
use ldc.Driver.{Driver}
use ldc.Bus.{Bus}
use ldc.Jobs.{abandon_writes}
use ldc.Round.Apply.{apply_round}
use ldc.Round.Acquire.{acquire_round}
use ldc.Poll.{
  run_rounds, machine, poll_acquire, poll_initialize_or_apply, poll_loop, poll, poll_budget,
  poll_timeout, due_or_past, is_reset,
}
use ldc.Poll.Loop.{both_hold, run_rounds_inv, poll_loop_once}
use ldc.Invariant.{Inv}
use ldc.Invariant.Polls.{
  LoopInv, apply_round-LoopInv, acquire_round-LoopInv, acquire_kind, loop_start,
}
use ldc.Trust.{IsFaithful, Trusted, TrustInv}
use ldc.Trust.Writes.{finish_job-TrustInv}
use ldc.Trust.Rounds.{apply_round-TrustInv}
use ldc.Trust.Reads.{acquire_round-TrustInv}

check_transport-variant :
    (c : Config) → is_ok (check_transport c) ≡ true → c.variant ≢ DeviceVariant.unspecified
unfolding check_transport is_ok
check_transport-variant c h = ground arith

pub validate-variant :
    (c : Config) → is_ok (validate_config c) ≡ true → c.variant ≢ DeviceVariant.unspecified
unfolding validate_config
validate-variant c h = check_transport-variant c (and_then-is_ok (check_transport c) _ h).0

-- Abandoning a job promises nothing more.
pub abandon_writes-Trusted :
    (h : ℕ → List ℕ) (s : Status) (d : Driver)
    → Trusted h d.applied_state d.config
    → Trusted h (abandon_writes s d).applied_state (abandon_writes s d).config
unfolding abandon_writes
abandon_writes-Trusted h s d p = ground arith

module _ {W : Type 0} (bus : Bus W) (held : W → ℕ → List ℕ) (f : IsFaithful bus held) where
  module _ (now timeout : ℕ) where
    -- A replay, and an acquisition, keep the promise with the invariants of their loops.
    apply_loop :
        (d : Driver) (n : ℕ) (w : W)
        → is_acquire d.progress.kind ≡ false
        → d.config.variant ≢ DeviceVariant.unspecified
        → LoopInv d.progress.kind d d
        → TrustInv (held w) d
        → let kind = d.progress.kind in
          let p = run_rounds (apply_round bus kind (is_reset kind) now timeout) n d w in
          TrustInv (held p.world) p.driver
    apply_loop d n w k u l v =
        let kind = d.progress.kind in
        (run_rounds_inv (apply_round bus kind (is_reset kind) now timeout)
          (λ e w. LoopInv kind d e × TrustInv (held w) e)
          (λ e w p a. both_hold _ _ _ (apply_round-LoopInv bus now timeout kind d e w k p.0 a) (
            apply_round-TrustInv bus held f kind now timeout e w a (p.0.same_job a).0 k
              (subst (λ c. c.variant ≢ DeviceVariant.unspecified) (sym p.0.binding.same_config) u)
              p.0.job p.1))
          n d w (l, v)).1

    acquire_loop :
        (d : Driver) (n : ℕ) (w : W)
        → d.progress.kind ≡ JobKind.acquire
        → LoopInv JobKind.acquire d d
        → TrustInv (held w) d
        → let p = run_rounds (acquire_round bus now timeout) n d w in
          TrustInv (held p.world) p.driver
    acquire_loop d n w k l v =
        (run_rounds_inv (acquire_round bus now timeout)
          (λ e w. LoopInv JobKind.acquire d e × TrustInv (held w) e)
          (λ e w p a. both_hold _ _ _ (acquire_round-LoopInv bus now timeout d e w p.0 a) (
            acquire_round-TrustInv bus held f now timeout e w (ap is_acquire (p.0.same_job a).0)
              p.1))
          n d w (l, v)).1

    machine-TrustInv :
        (n : ℕ) (d : Driver) (w : W)
        → d.progress.active ≡ true
        → Inv d
        → TrustInv (held w) d
        → let p = machine bus now n timeout d w in TrustInv (held p.world) p.driver
    unfolding machine poll_acquire poll_initialize_or_apply
    machine-TrustInv n d w a v t = elim (Bool-cases (is_acquire d.progress.kind)) [
      | inl e ↦
          let k = acquire_kind bus now timeout d.progress.kind e in
          rw e (acquire_loop d n w k (subst (λ k. LoopInv k d d) k (loop_start d v)) t)
      | inr e ↦ rw e (
          apply_loop d n w e (validate-variant d.config (v.binding.valid (v.binding.admitted a)))
            (loop_start d v) t)
    ]

  poll_loop-TrustInv :
      (now remaining timeout : ℕ) (d : Driver) (w : W)
      → d.progress.active ≡ true
      → Inv d
      → TrustInv (held w) d
      → let p = poll_loop bus (suc remaining) now remaining timeout d w in TrustInv (held p.2) p.1
  unfolding poll_loop
  poll_loop-TrustInv now zero timeout d w a v t = simp a t
  poll_loop-TrustInv now (suc n) timeout d w a v t =
      rw (poll_loop_once bus n now (suc n) timeout d w a (omega arith))
        (machine-TrustInv now timeout (suc n) d w a v t)

  pub poll-TrustInv :
      (now most : ℕ) (d : Driver) (w : W)
      → Inv d
      → TrustInv (held w) d
      → let p = poll bus now most d w in TrustInv (held p.2) p.1
  unfolding poll
  poll-TrustInv now most d w v t =
      let Keeps : Status × Driver × W → Type 0 = λ p. TrustInv (held p.2) p.1 in
      if_cases Keeps (not d.progress.active) _ _ (λ _. t)
        (λ a.
          if_cases Keeps (due_or_past now d.progress.deadline_ms) _ _
            (λ _.
              finish_job-TrustInv (held w) _ _ now _
                (abandon_writes-Trusted (held w) (error Err.timeout) d t.trusted))
            (λ _.
              if_cases Keeps (most == 0) _ _ (λ _. t)
                (λ _.
                  poll_loop-TrustInv now (poll_budget now most d)
                    (poll_timeout now (poll_budget now most d) d) d w (ground (arith, a)) v t)))
