-- ===== src/Invariant/Polls.antt =====
-- `poll` of src/LDC1614.cpp and the invariants of the driver.
use ldc.Base.{
  ℕ, zero, suc, ◌≡◌, refl, ◌∙◌, sym, subst, true, false, arith, Bool-cases, inl, inr, ◌==◌,
}
use ldc.Status.{Status}
use ldc.Types.{JobKind, TerminalOutcome, is_acquire}
use ldc.Driver.{Driver, clear_active_job}
use ldc.Bus.{Bus}
use ldc.Jobs.{finish_job, push_result, abandon_writes}
use ldc.Round.Apply.{apply_round}
use ldc.Round.Acquire.{acquire_round}
use ldc.Poll.{
  run_rounds, machine, poll_acquire, poll_initialize_or_apply, poll_loop, poll, poll_budget,
  due_or_past, is_reset,
}
use ldc.Poll.Loop.{Holds, run_rounds_inv, poll_loop_once}
use ldc.Round.{Round, again, done, closed}
use ldc.Invariant.{Inv, QueueInv, JobInv}
use ldc.Invariant.Rounds.{SameJob, apply_round-JobInv, acquire_round-JobInv}
use ldc.Invariant.Frame.{
  SameBinding, SameBinding-trans, apply_round-QueueInv, acquire_round-QueueInv,
  apply_round-SameBinding, acquire_round-SameBinding, finish_job-QueueInv,
}

-- What holds at each iteration of a loop that began at `d`.
pub record LoopInv (kind : JobKind) (d e : Driver) : Type 0 where
  pub queue : QueueInv e
  pub binding : SameBinding d e
  pub job : JobInv e
  pub same_job : SameJob kind d.progress.operation_id e

module _ {W : Type 0} where
  join :
      (kind : JobKind) (d e : Driver)
      → SameBinding d e
      → e.progress.operation_id ≡ d.progress.operation_id
      → (r : Round W) → Holds (λ f w. QueueInv f) r
      → Holds (λ f w. SameBinding e f) r
      → Holds (λ f w. JobInv f × SameJob kind e.progress.operation_id f) r
      → Holds (λ f w. LoopInv kind d f) r
  join kind d e b i (again f w) q s j = record {
    queue = q;
    binding = SameBinding-trans b s;
    job = j.0;
    same_job = λ a. ((j.1 a).0, (j.1 a).1 ∙ i);
  }
  join kind d e b i (done x f w) q s j = record {
    queue = q;
    binding = SameBinding-trans b s;
    job = j.0;
    same_job = λ a. ((j.1 a).0, (j.1 a).1 ∙ i);
  }
  join kind d e b i (closed x f w) q s j = record {
    queue = q;
    binding = SameBinding-trans b s;
    job = j.0;
    same_job = λ a. ((j.1 a).0, (j.1 a).1 ∙ i);
  }

module _ {W : Type 0} (bus : Bus W) (now timeout : ℕ) where
  pub apply_round-LoopInv :
      (kind : JobKind) (d e : Driver) (w : W)
      → is_acquire kind ≡ false
      → LoopInv kind d e
      → e.progress.active ≡ true
      → Holds (λ g w. LoopInv kind d g) (apply_round bus kind (is_reset kind) now timeout e w)
  apply_round-LoopInv kind d e w f l a =
      join kind d e l.binding (l.same_job a).1 _
        (apply_round-QueueInv bus now timeout e w kind (is_reset kind) a l.queue)
        (apply_round-SameBinding bus now timeout e w kind (is_reset kind))
        (apply_round-JobInv bus now timeout e w kind a f (l.same_job a).0 l.job)

  pub acquire_round-LoopInv :
      (d e : Driver) (w : W)
      → LoopInv JobKind.acquire d e
      → e.progress.active ≡ true
      → Holds (λ g w. LoopInv JobKind.acquire d g) (acquire_round bus now timeout e w)
  acquire_round-LoopInv d e w l a =
      join JobKind.acquire d e l.binding (l.same_job a).1 _
        (acquire_round-QueueInv bus now timeout e w a l.queue)
        (acquire_round-SameBinding bus now timeout e w)
        (acquire_round-JobInv bus now timeout e w a (l.same_job a).0 l.job)

  apply_loop :
      (kind : JobKind) (d : Driver)
      → is_acquire kind ≡ false
      → (n : ℕ) (w : W) → LoopInv kind d d
      → LoopInv kind d (run_rounds (apply_round bus kind (is_reset kind) now timeout) n d w).driver
  apply_loop kind d f n w =
      run_rounds_inv (apply_round bus kind (is_reset kind) now timeout) (λ e w. LoopInv kind d e)
        (λ e w l a. apply_round-LoopInv kind d e w f l a) n d w

  acquire_loop :
      (d : Driver) (n : ℕ) (w : W)
      → LoopInv JobKind.acquire d d
      → LoopInv JobKind.acquire d (run_rounds (acquire_round bus now timeout) n d w).driver
  acquire_loop d n w =
      run_rounds_inv (acquire_round bus now timeout) (λ e w. LoopInv JobKind.acquire d e)
        (λ e w l a. acquire_round-LoopInv d e w l a) n d w

  pub acquire_kind : (kind : JobKind) → is_acquire kind ≡ true → kind ≡ JobKind.acquire
  acquire_kind kind h = ground arith

  pub machine-LoopInv :
      (remaining : ℕ) (d : Driver) (w : W)
      → LoopInv d.progress.kind d d
      → LoopInv d.progress.kind d (machine bus now remaining timeout d w).driver
  unfolding machine poll_acquire poll_initialize_or_apply
  machine-LoopInv n d w l = elim (Bool-cases (is_acquire d.progress.kind)) [
    | inl e ↦ rw e (
        let k = acquire_kind d.progress.kind e in
        subst (λ k. LoopInv k d (run_rounds (acquire_round bus now timeout) n d w).driver) (sym k)
          (acquire_loop d n w (subst (λ k. LoopInv k d d) k l)))
    | inr e ↦ rw e (apply_loop d.progress.kind d e n w l)
  ]

-- Ending a job keeps the invariants.
pub finish_job-Inv :
    (o : TerminalOutcome) (s : Status) (t : ℕ) (d : Driver)
    → d.progress.active ≡ true
    → Inv d
    → Inv (finish_job o s t d).1
unfolding finish_job push_result clear_active_job
finish_job-Inv o s t d a v = record {
  queue = finish_job-QueueInv o s t d a v.queue;
  binding = ground (arith, v.binding);
  job = ground arith;
}

pub abandon_writes-Inv :
    (s : Status) (d : Driver)
    → Inv d
    → Inv (abandon_writes s d) × ((abandon_writes s d).progress.active ≡ d.progress.active)
unfolding abandon_writes
abandon_writes-Inv s d v = ground (arith, v.queue, v.binding, v.job)

-- What holds when a loop begins.
pub loop_start : (d : Driver) → Inv d → LoopInv d.progress.kind d d
loop_start d v = record {
  queue = v.queue;
  binding = record { same_bound = refl; same_config = refl; same_revision = refl };
  job = v.job;
  same_job = λ _. (refl, refl);
}

-- A loop that a job has run for keeps the invariants.
of_loop : (d e : Driver) → d.progress.active ≡ true → Inv d → LoopInv d.progress.kind d e → Inv e
of_loop d e a v l = record {
  queue = l.queue;
  binding = record {
    valid = λ b. rw (l.binding.same_config) (v.binding.valid (sym (l.binding.same_bound) ∙ b));
    masked = λ b. rw (l.binding.same_config) (v.binding.masked (sym (l.binding.same_bound) ∙ b));
    admitted = λ _. l.binding.same_bound ∙ v.binding.admitted a;
    named = λ b. rw ((l.same_job b).1) (v.binding.named a);
    revision = rw (l.binding.same_revision) v.binding.revision;
  };
  job = l.job;
}

module _ {W : Type 0} (bus : Bus W) where
  poll_loop-Inv :
      (now remaining timeout : ℕ) (d : Driver) (w : W)
      → d.progress.active ≡ true
      → Inv d
      → Inv (poll_loop bus (suc remaining) now remaining timeout d w).1
  unfolding poll_loop
  poll_loop-Inv now zero timeout d w a v = simp a v
  poll_loop-Inv now (suc n) timeout d w a v =
      rw (poll_loop_once bus n now (suc n) timeout d w a (omega arith)) (
        of_loop d (machine bus now (suc n) timeout d w).driver a v
          (machine-LoopInv bus now timeout (suc n) d w (loop_start d v)))

  pub poll-Inv : (now most : ℕ) (d : Driver) (w : W) → Inv d → Inv (poll bus now most d w).1
  unfolding poll
  poll-Inv now most d w v = elim (Bool-cases d.progress.active) [
    | inr e ↦ simp e v
    | inl e ↦ simp e (elim (Bool-cases (due_or_past now d.progress.deadline_ms)) [
      | inl late ↦
          simp late (
            finish_job-Inv _ _ now _ ((abandon_writes-Inv _ d v).1 ∙ e)
              (abandon_writes-Inv _ d v).0)
      | inr early ↦ simp early (elim (Bool-cases (most == 0)) [
        | inl z ↦ simp z v
        | inr p ↦ simp p (poll_loop-Inv now (poll_budget now most d) _ d w e v)
      ])
    ])
  ]
