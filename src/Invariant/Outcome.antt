-- ===== src/Invariant/Outcome.antt =====
-- `poll` of src/LDC1614.cpp: what it leaves in the queue of results, and the status it returns.
use ldc.Base.{
  if_cases, ℕ, zero, suc, ◌≡◌, ◌==◌, true, not, ◌||◌, if◌then◌else◌, arith, refl, ◌++◌, [], ◌∷◌,
  inl, inr, ◌⊎◌,
}
use ldc.Status.{Status, Err, error, is_ok, is_in_progress, ok_status}
use ldc.Types.{TerminalOutcome, is_acquire}
use ldc.Driver.{Driver}
use ldc.Bus.{Bus}
use ldc.Jobs.{finish_job, abandon_writes}
use ldc.Round.{Round, again, done, closed}
use ldc.Poll.{
  Polled, in_progress, after_round, run_rounds, machine, poll_acquire, poll_initialize_or_apply,
  poll_loop, poll, poll_budget, due_or_past, is_reset,
}
use ldc.Poll.Loop.{poll_loop_once, polled_status}
use ldc.Invariant.{Inv, QueueInv}
use ldc.Invariant.Queue.{queued, newest}
use ldc.Invariant.Reports.{
  GoesOn, Reports, RoundReports, GoesOn-QueueInv, GoesOn-trans, Reports-after, stays,
  finish_job-Reports, apply_round-Reports, acquire_round-Reports,
}

-- What a poll returns where a job has ended with the status `s`.
abbrev pub returned : Status → Status
returned s = if is_ok s || is_in_progress s then ok_status else s

-- The status `s` and the driver `e` that a loop leaves of the active job of `d`.
abbrev Outcome : Driver → Status → Driver → Type 0
Outcome d s e = (GoesOn d e × (s ≡ in_progress)) ⊎ Reports s d e

after : (s : Status) (d e f : Driver) → GoesOn d e → Outcome e s f → Outcome d s f
after s d e f g (inl (h, i)) = inl (GoesOn-trans g h, i)
after s d e f g (inr r) = inr (Reports-after g r)

module _ {W : Type 0} where
  after_round-Outcome :
      (rest : Driver → W → Polled W) (n : ℕ) (d : Driver)
      → QueueInv d
      → ((e : Driver) (w : W)
          → e.progress.active ≡ true
          → QueueInv e
          → Outcome e (rest e w).status (rest e w).driver)
      → (r : Round W) → RoundReports d r
      → Outcome d (after_round rest n r).status (after_round rest n r).driver
  after_round-Outcome rest n d v go (again e w) g =
      after _ d e _ g (go e w g.active (GoesOn-QueueInv g v))
  after_round-Outcome rest n d v go (done s e w) r = inr r
  after_round-Outcome rest n d v go (closed s e w) r = inr r

  run_rounds-Outcome :
      (round : Driver → W → Round W)
      → ((d : Driver) (w : W) → d.progress.active ≡ true → QueueInv d → RoundReports d (round d w))
      → (n : ℕ) (d : Driver) (w : W) → d.progress.active ≡ true
      → QueueInv d
      → Outcome d (run_rounds round n d w).status (run_rounds round n d w).driver
  unfolding run_rounds
  run_rounds-Outcome round h zero d w a v = inl (stays a refl refl refl refl (refl, refl), refl)
  run_rounds-Outcome round h (suc n) d w a v =
      simp (a, run_rounds)
        (after_round-Outcome (run_rounds round n) n d v (run_rounds-Outcome round h n) (round d w)
          (h d w a v))

module _ {W : Type 0} (bus : Bus W) where
  machine-Outcome :
      (now n timeout : ℕ) (d : Driver) (w : W)
      → d.progress.active ≡ true
      → QueueInv d
      → let p = machine bus now n timeout d w in Outcome d p.status p.driver
  unfolding machine poll_acquire poll_initialize_or_apply
  machine-Outcome now n timeout d w a v =
      let kind = d.progress.kind in
      if_cases (λ (p : Polled W). Outcome d p.status p.driver) (is_acquire kind) _ _
        (λ _. run_rounds-Outcome _ (acquire_round-Reports bus now timeout) n d w a v)
        (λ _.
          run_rounds-Outcome _ (λ e w. apply_round-Reports bus now timeout e w kind (is_reset kind))
            n d w a v)

-- What a poll leaves of the active job of `d`: it goes on, or it is over and has reported.
abbrev Polls : Driver → Status → Driver → Type 0
Polls d s e =
    (GoesOn d e × (s ≡ in_progress))
    ⊎ (Reports (newest e).status d e × (s ≡ returned (newest e).status))

module _ {W : Type 0} where
  of_machine :
      (d : Driver) (p : Polled W) → Outcome d p.status p.driver → Polls d (polled_status p) p.driver
  unfolding is_ok is_in_progress
  of_machine d p (inl (g, i)) = inl (g, ground (arith, i, g.active))
  of_machine d p (inr r) = inr (
    record {
      idle = r.idle;
      one_more = r.one_more;
      own_id = r.own_id;
      own_kind = r.own_kind;
      own_status = refl;
    },
    ground (arith, r.own_status, r.idle),
  )

abandon_writes-GoesOn :
    (s : Status) (d : Driver) → d.progress.active ≡ true → GoesOn d (abandon_writes s d)
unfolding abandon_writes
abandon_writes-GoesOn s d a = ground (arith, a)

late-Polls :
    (now : ℕ) (d : Driver)
    → d.progress.active ≡ true
    → QueueInv d
    → let late = error Err.timeout in
      let f = finish_job TerminalOutcome.timed_out late now (abandon_writes late d) in
      Polls d f.0 f.1
unfolding finish_job is_ok is_in_progress
late-Polls now d a v =
    let late = error Err.timeout in
    let g = abandon_writes-GoesOn late d a in
    let o = TerminalOutcome.timed_out in
    let r =
      Reports-after g
        (finish_job-Reports o late now (abandon_writes late d) g.active (GoesOn-QueueInv g v)) in
    inr (
      record {
        idle = r.idle;
        one_more = r.one_more;
        own_id = r.own_id;
        own_kind = r.own_kind;
        own_status = refl;
      },
      ground (arith, r.own_status),
    )

module _ {W : Type 0} (bus : Bus W) where
  loop-Polls :
      (now n timeout : ℕ) (d : Driver) (w : W)
      → d.progress.active ≡ true
      → QueueInv d
      → let p = poll_loop bus (suc n) now n timeout d w in Polls d p.0 p.1
  unfolding poll_loop
  loop-Polls now zero timeout d w a v =
      simp a (inl (stays a refl refl refl refl (refl, refl), refl))
  loop-Polls now (suc n) timeout d w a v =
      rw (poll_loop_once bus n now (suc n) timeout d w a (omega arith)) (
        of_machine d (machine bus now (suc n) timeout d w)
          (machine-Outcome bus now (suc n) timeout d w a v))

  poll-Polls :
      (now most : ℕ) (d : Driver) (w : W)
      → d.progress.active ≡ true
      → QueueInv d
      → let p = poll bus now most d w in Polls d p.0 p.1
  unfolding poll
  poll-Polls now most d w a v =
      let Good : Status × Driver × W → Type 0 = λ p. Polls d p.0 p.1 in
      if_cases Good (not d.progress.active) _ _ (λ i. absurd (ground (arith, a, i)))
        (λ _.
          if_cases Good (due_or_past now d.progress.deadline_ms) _ _ (λ _. late-Polls now d a v)
            (λ _.
              if_cases Good (most == 0) _ _
                (λ _. inl (stays a refl refl refl refl (refl, refl), refl))
                (λ _. loop-Polls now (poll_budget now most d) _ d w a v)))

  pub queue_of :
      (s : Status) (d e : Driver)
      → Polls d s e
      → let on = e.progress.active in
        let r = newest e in
        (queued e ≡ (if on then queued d else queued d ++ (r ∷ [])))
        × ((if on then e.progress.operation_id else r.operation_id) ≡ d.progress.operation_id)
        × ((if on then e.progress.kind else r.kind) ≡ d.progress.kind)
        × (s ≡ (if on then in_progress else returned r.status))
  queue_of s d e (inl (g, i)) = simp g.active (g.same_queue, g.same_id, g.same_kind, i)
  queue_of s d e (inr (r, i)) = simp r.idle (r.one_more, r.own_id, r.own_kind, i)

  -- While the job of a poll goes on, the queue of results stays as it is, and the job keeps its id and
  -- its kind. Where the poll ends the job, the queue has every result that it had, in their order, and
  -- behind them one more, with the id and the kind of the job. The driver satisfies the invariants of
  -- `Invariant`, and a job is active before the poll.
  pub poll-queued :
      (now most : ℕ) (d : Driver) (w : W)
      → Inv d
      → d.progress.active ≡ true
      → let e = (poll bus now most d w).1 in
        let on = e.progress.active in
        (queued e ≡ (if on then queued d else queued d ++ (newest e ∷ [])))
        × ((if on then e.progress.operation_id else (newest e).operation_id)
            ≡ d.progress.operation_id)
        × ((if on then e.progress.kind else (newest e).kind) ≡ d.progress.kind)
  poll-queued now most d w v a =
      let q = queue_of _ d _ (poll-Polls now most d w a v.queue) in (q.0, q.1, q.2)

  -- A poll of an active job returns Err::IN_PROGRESS while the job goes on. Where it ends the job, it
  -- returns the status in the result that it has queued, but OK in place of a failure with the code
  -- Err::IN_PROGRESS, which a callback can return. The driver satisfies the invariants of `Invariant`.
  pub poll-status :
      (now most : ℕ) (d : Driver) (w : W)
      → Inv d
      → d.progress.active ≡ true
      → let p = poll bus now most d w in
        p.0 ≡ (if p.1.progress.active then in_progress else returned (newest p.1).status)
  poll-status now most d w v a = (queue_of _ d _ (poll-Polls now most d w a v.queue)).3
