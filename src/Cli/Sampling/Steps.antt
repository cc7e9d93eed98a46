-- ===== src/Cli/Sampling/Steps.antt =====
-- examples/common/Ldc1614Cli.cpp: when a step of a sampling session acquires, waits or ends it.
use ldc.Base.{
  ℕ, ◌+◌, ◌≡◌, Bool, true, false, ◌&&◌, ◌||◌, not, ◌==◌, refl, ◌∙◌, ap, sym, subst, if◌then◌else◌,
  arith, Bool-cases, inl, inr, if_cases, u64,
}
use ldc.Status.{is_in_progress}
use ldc.Types.{JobKind}
use ldc.Cli.State.{OperationOwner, Cli, Platform}
use ldc.Cli.Schedule.{
  schedule_session_acquire, admitted, is_sample_rate, is_owned, is_session, job_deadline_ms,
  cannot_admit, now_ms,
}
use ldc.Cli.Sessions.{finish_session, finish_by_failures}
use ldc.Cli.Sampling.{
  is_wait_interval, is_sample_ready, deadline_reached, sampling_over, due_sample, fail_sample,
  acquire_sample, sample_step, advance_sampling_session,
}
use ldc.Cli.Sampling.Due.{
  is_due, has_work, InTime, goes_on, is_accepted, sampling_over-exact, due_sample-facts, no_sample,
  admitted-owned, admitted-accepts, no_work,
}

abbrev pub accepts : Cli → Bool
accepts c = is_accepted c.session.channels c.next_operation_id c.device

-- What a step at `now` makes of `c`: `e` has an operation pending where nothing asks for the end of the
-- session, one is due, and the driver takes it. The session goes on where nothing asks for its end and
-- the driver takes the operation, if one is due. A session that goes on without one has not changed.
abbrev pub Steps : ℕ → Cli → Cli → Type 0
Steps now c e =
    let s = c.session in
    (is_owned e.pending.owner ≡ (goes_on now s && is_due now s && accepts c))
    × (is_session e.session.kind ≡ (goes_on now s && (not (is_due now s) || accepts c)))
    × ((if goes_on now s && not (is_due now s) then e else c) ≡ c)

module _ {W : Type 0} (platform : Platform W) where
  acquire_ends :
      (c : Cli) (w : W)
      → is_owned c.pending.owner ≡ false
      → is_session c.session.kind ≡ true
      → let r = schedule_session_acquire platform c w in
        (is_owned r.1.pending.owner ≡ is_in_progress r.0)
        × (is_session r.1.session.kind ≡ true)
        × (is_in_progress r.0 ≡ accepts c)
  unfolding schedule_session_acquire is_in_progress
  acquire_ends c w free kind =
      let s = c.session in
      let started = now_ms platform w in
      let deadline =
        if is_sample_rate s.kind then s.ready_deadline_ms else u64 (started + job_deadline_ms) in
      let r =
        admitted OperationOwner.session s.command JobKind.acquire s.channels started deadline c in
      let owned = admitted-owned s.command s.channels started deadline c free in
      let taken = admitted-accepts s.command s.channels started deadline c in
      elim (Bool-cases (cannot_admit c)) [
        | inl e ↦ simp e (free, kind, ground (arith, free, kind, e))
        | inr e ↦ elim (Bool-cases (is_in_progress r.0)) [
          | inl h ↦ simp (e, h) (owned.0 ∙ h, kind, sym h ∙ taken)
          | inr h ↦
              simp (e, h) (owned.0 ∙ h, ap (λ t. is_session t.kind) owned.1 ∙ kind, sym h ∙ taken)
        ]
      ]

  acquire_sample-ends :
      (c : Cli) (w : W)
      → is_owned c.pending.owner ≡ false
      → is_session c.session.kind ≡ true
      → let e = acquire_sample platform c w in
        (is_owned e.pending.owner ≡ accepts c) × (is_session e.session.kind ≡ accepts c)
  unfolding acquire_sample fail_sample finish_session
  acquire_sample-ends c w free kind =
      let r = schedule_session_acquire platform c w in
      let a = acquire_ends c w free kind in
      elim (Bool-cases (is_in_progress r.0)) [
        | inl e ↦ simp e (a.0 ∙ a.2, a.1 ∙ sym e ∙ a.2)
        | inr e ↦ simp e (a.0 ∙ a.2, sym e ∙ a.2)
      ]

  -- Where the session ends, or its acquisition is asked for.
  ended :
      (now : ℕ) (c e : Cli)
      → goes_on now c.session ≡ false
      → is_owned e.pending.owner ≡ false
      → is_session e.session.kind ≡ false
      → Steps now c e
  ended now c e g o k = simp (g, o, k) (refl, refl, refl)

  acquired :
      (now : ℕ) (c e : Cli)
      → goes_on now c.session ≡ true
      → is_due now c.session ≡ true
      → (is_owned e.pending.owner ≡ accepts c) × (is_session e.session.kind ≡ accepts c)
      → Steps now c e
  acquired now c e g d k = simp (g, d) (k.0, k.1, refl)

  waited :
      (now : ℕ) (c : Cli)
      → goes_on now c.session ≡ true
      → is_due now c.session ≡ false
      → is_owned c.pending.owner ≡ false
      → is_session c.session.kind ≡ true
      → Steps now c c
  waited now c g d o k = simp (g, d, o) (refl, k, refl)

  sample_step-Steps :
      (now : ℕ) (c : Cli) (w : W)
      → InTime now c.session
      → is_owned c.pending.owner ≡ false
      → is_session c.session.kind ≡ true
      → c.session.stop_requested ≡ false
      → has_work now c.session ≡ true
      → Steps now c (sample_step platform now (record c { session = due_sample now c.session }) w)
  unfolding sample_step fail_sample finish_session
  sample_step-Steps now c w v free kind stop work =
      let s = c.session in
      let t = due_sample now s in
      let c1 = record c { session = t } in
      let facts = due_sample-facts now s v in
      let ends = acquire_sample-ends c1 w free (facts.0.0 ∙ kind) in
      let same : accepts c1 ≡ accepts c =
        ap (λ m. is_accepted m c.next_operation_id c.device) facts.0.1 in
      let e = acquire_sample platform c1 w in
      let taken : (is_owned e.pending.owner ≡ accepts c) × (is_session e.session.kind ≡ accepts c) =
        (ends.0 ∙ same, ends.1 ∙ same) in
      if_cases (Steps now c) (is_sample_rate t.kind && is_sample_ready t.phase) _ _
        (λ a.
          if_cases (Steps now c) (deadline_reached now t.ready_deadline_ms) _ _
            (λ b. ended now c _ (ground (arith, facts, a, b)) free refl)
            (λ b.
              acquired now c _ (ground (arith, facts, a, b, stop, work))
                (ground (arith, facts, a, b)) taken))
        (λ a.
          if_cases (Steps now c)
            (not (is_wait_interval t.phase) || not (deadline_reached now t.next_due_ms)) _ _
            (λ b.
              let quiet : is_due now s ≡ false = ground (arith, facts, a, b) in
              let on : goes_on now s ≡ true = ground (arith, facts, a, stop, work) in
              subst (λ t. Steps now c (record c { session = t })) (sym (no_sample now s quiet v))
                (waited now c on quiet free kind))
            (λ b.
              acquired now c _ (ground (arith, facts, a, stop, work)) (ground (arith, facts, a, b))
                taken))

  -- A step of a sampling session, against deadlines and amounts of work without wrap-around. An
  -- operation is pending after it exactly where the session was not stopped, had work left, had not
  -- waited too long for a sample, an acquisition was due, and the driver takes one. The session
  -- goes on exactly where it was not stopped, had work left, had not waited too long, and, if an
  -- acquisition was due, the driver takes it. One that goes on with none due leaves the command
  -- line as it is. The driver takes an acquisition when it is bound and awake and runs no job, its
  -- profile has the channels, the id is new and not 0, and a slot for the result is free. Before
  -- the step the session is active and has begun in the past, its times and the clock are below
  -- 2^63, and no operation is pending.
  pub advance_sampling_session-Steps :
      (now : ℕ) (c : Cli) (w : W)
      → InTime now c.session
      → is_owned c.pending.owner ≡ false
      → is_session c.session.kind ≡ true
      → Steps now c (advance_sampling_session platform now c w)
  unfolding advance_sampling_session finish_by_failures finish_session
  advance_sampling_session-Steps now c w v free kind =
      let s = c.session in
      let over = sampling_over-exact now s v.clock v.started in
      let rests = λ (b : sampling_over now s ≡ true). no_work now s (sym over ∙ b) in
      if_cases (Steps now c) s.stop_requested _ _ (λ a. ended now c _ (ground (arith, a)) free refl)
        (λ a.
          if_cases (Steps now c) (sampling_over now s) _ _
            (λ b.
              if_cases (Steps now c) (s.stats.failed == 0) _ _
                (λ _. ended now c _ (rests b) free refl) (λ _. ended now c _ (rests b) free refl))
            (λ b. sample_step-Steps now c w v free kind a (ground (arith, b, over))))
