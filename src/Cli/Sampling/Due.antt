-- ===== src/Cli/Sampling/Due.antt =====
-- examples/common/Ldc1614Cli.cpp: when an acquisition of a sampling session is due, and when the driver
-- takes it.
use ldc.Base.{
  ℕ, ◌+◌, ◌*◌, ◌^◌, ◌≤◌, ◌<◌, ◌≡◌, Bool, true, false, ◌&&◌, ◌||◌, not, ◌==◌, ltb, leb, refl, ◌∙◌,
  sym, if◌then◌else◌, arith, Bool-cases, inl, inr,
}
use ldc.Status.{is_in_progress}
use ldc.Types.{JobKind}
use ldc.Cli.{CommandId}
use ldc.Cli.State.{OperationOwner, DiagnosticSession, Cli}
use ldc.Cli.Schedule.{admitted, next_operation_id, is_sample_rate, is_owned, is_session}
use ldc.Cli.Sampling.{
  is_soak, is_wait_interval, is_sample_ready, deadline_reached, sampling_over, due_sample,
}
use ldc.Config.{is_empty}
use ldc.Validate.{exceeds}
use ldc.Types.{is_active}
use ldc.Driver.{Driver, operation_id_in_use, reserve_result_slot}
use ldc.Jobs.{start_acquire, start_job, first_phase}
use ldc.Cli.Schedule.{start_kind}

-- The session has seconds left to run, or acquisitions left to make.
abbrev pub has_work : ℕ → DiagnosticSession → Bool
has_work now s =
    if is_soak s.kind
    then ltb now (s.stats.started_ms + s.count * 1000)
    else ltb s.stats.completed s.stats.requested

-- The time of the next acquisition has come, or a rate measurement waits for its sample.
abbrev pub is_due : ℕ → DiagnosticSession → Bool
is_due now s =
    (is_wait_interval s.phase && leb s.next_due_ms now)
    || (is_sample_rate s.kind && is_sample_ready s.phase && ltb now s.ready_deadline_ms)

-- A rate measurement has waited for its sample until the deadline.
abbrev pub is_late : ℕ → DiagnosticSession → Bool
is_late now s = is_sample_rate s.kind && is_sample_ready s.phase && leb s.ready_deadline_ms now

-- The times are far from the wrap-around of uint64_t.
pub record InTime (now : ℕ) (s : DiagnosticSession) : Type 0 where
  pub clock : now < 2 ^ 63
  pub due : s.next_due_ms < 2 ^ 63
  pub ready : s.ready_deadline_ms < 2 ^ 63
  pub started : s.stats.started_ms ≤ now

deadline_reached-exact :
    (now deadline : ℕ)
    → now < 2 ^ 63
    → deadline < 2 ^ 63
    → deadline_reached now deadline ≡ leb deadline now
unfolding deadline_reached
deadline_reached-exact now deadline a b = ground (arith, a, b)

pub sampling_over-exact :
    (now : ℕ) (s : DiagnosticSession)
    → now < 2 ^ 63
    → s.stats.started_ms ≤ now
    → sampling_over now s ≡ not (has_work now s)
unfolding sampling_over
sampling_over-exact now s a b = ground (arith, a, b)

-- The session after `due_sample`: what the tests of the step come to.
pub due_sample-facts :
    (now : ℕ) (s : DiagnosticSession)
    → InTime now s
    → let t = due_sample now s in
      let rate = is_sample_rate t.kind && is_sample_ready t.phase in
      let reached = deadline_reached now t.ready_deadline_ms in
      ((is_session t.kind ≡ is_session s.kind) × (t.channels ≡ s.channels))
      × ((rate && reached) ≡ is_late now s)
      × (((rate && not reached)
            || (not rate && is_wait_interval t.phase && deadline_reached now t.next_due_ms))
          ≡ is_due now s)
unfolding due_sample deadline_reached
due_sample-facts now s v = ground (arith, v)

pub no_sample :
    (now : ℕ) (s : DiagnosticSession) → is_due now s ≡ false → InTime now s → due_sample now s ≡ s
unfolding due_sample
no_sample now s n v =
    let same = deadline_reached-exact now s.next_due_ms v.clock v.due in
    let quiet : (is_wait_interval s.phase
          && deadline_reached now s.next_due_ms
          && is_sample_rate s.kind)
        ≡ false =
      ground (arith, n, same) in
    simp quiet refl

pub admitted-owned :
    (command : CommandId) (channels started deadline : ℕ) (c : Cli)
    → is_owned c.pending.owner ≡ false
    → let r = admitted OperationOwner.session command JobKind.acquire channels started deadline c in
      (is_owned r.1.pending.owner ≡ is_in_progress r.0) × (r.1.session ≡ c.session)
unfolding admitted next_operation_id
admitted-owned command channels started deadline c free = ground (arith, free)

-- Nothing asks for the end of the session.
abbrev pub goes_on : ℕ → DiagnosticSession → Bool
goes_on now s = not s.stop_requested && has_work now s && not (is_late now s)

pub no_work :
    (now : ℕ) (s : DiagnosticSession) → not (has_work now s) ≡ true → goes_on now s ≡ false
no_work now s h = ground (arith, h)

-- The driver takes an acquisition of the channels, under the id: it is bound and awake, the profile has
-- the channels, the id is new and not 0, no job is active, and the queue has a slot for the result.
abbrev pub is_accepted : ℕ → ℕ → Driver → Bool
is_accepted channels id d =
    d.bound
    && is_active d.applied_state
    && not (is_empty channels || exceeds channels d.config.channels)
    && not (id == 0)
    && not (operation_id_in_use d id)
    && not d.progress.active
    && reserve_result_slot d

pub start_acquire-accepts :
    (channels id deadline : ℕ) (d : Driver)
    → is_in_progress (start_acquire channels id deadline d).0 ≡ is_accepted channels id d
unfolding start_acquire start_job first_phase is_in_progress
start_acquire-accepts channels id deadline d = ground arith

pub admitted-accepts :
    (command : CommandId) (channels started deadline : ℕ) (c : Cli)
    → let r = admitted OperationOwner.session command JobKind.acquire channels started deadline c in
      is_in_progress r.0 ≡ is_accepted channels c.next_operation_id c.device
unfolding admitted next_operation_id start_kind
admitted-accepts command channels started deadline c =
    let id = c.next_operation_id in
    let accepted = start_acquire-accepts channels id deadline c.device in
    elim (Bool-cases (is_in_progress (start_acquire channels id deadline c.device).0)) [
      | inl e ↦ simp e (sym e ∙ accepted)
      | inr e ↦ simp e (sym e ∙ accepted)
    ]
