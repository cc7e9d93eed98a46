-- ===== src/Cli/Admission.antt =====
-- The operation that examples/common/Ldc1614Cli.cpp has pending, against the job of the driver.
use ldc.Base.{
  u64, ℕ, ◌+◌, ◌≡◌, Bool, true, false, ◌&&◌, ◌||◌, not, ◌==◌, if◌then◌else◌, arith, refl,
  Bool-cases, inl, inr,
}
use ldc.Status.{Status, Err, error, is_in_progress, is_in_progress_code}
use ldc.Config.{is_empty}
use ldc.Types.{JobKind, is_active, is_unknown}
use ldc.Validate.{exceeds}
use ldc.Driver.{Driver, operation_id_in_use, reserve_result_slot}
use ldc.Jobs.{
  start_initialize, start_apply_config, start_reset_and_reapply, start_acquire, start_job,
  first_phase,
}
use ldc.Cli.{CommandId}
use ldc.Cli.State.{OperationOwner, DiagnosticSession, SessionPhase, Cli, Platform}
use ldc.Cli.Schedule.{
  is_owned, asynchronous_work_active, next_operation_id, start_kind, admitted, schedule_command_job,
  schedule_session_acquire, schedule_session_job, now_ms, is_session, job_deadline_ms, cannot_admit,
  is_sample_rate, is_reset_or_initialize,
}

-- The driver runs the operation that is pending, and the next id is not 0.
pub record Correlated (c : Cli) : Type 0 where
  pub active : (not (is_owned c.pending.owner) || c.device.progress.active) ≡ true
  pub same_id :
      (not (is_owned c.pending.owner) || c.device.progress.operation_id == c.pending.id) ≡ true
  pub same_kind : is_owned c.pending.owner ≡ true → c.device.progress.kind ≡ c.pending.kind
  pub next_id : (c.next_operation_id == 0) ≡ false

-- A job that the driver admits is active, with the id and the kind asked for.
abbrev pub Runs : JobKind → ℕ → Status × Driver → Type 0
Runs kind id r =
    is_in_progress r.0 ≡ true
    → (r.1.progress.active ≡ true) × (r.1.progress.operation_id ≡ id) × (r.1.progress.kind ≡ kind)

first_phase-Runs :
    (kind : JobKind) (d : Driver)
    → d.progress.active ≡ true
    → d.progress.kind ≡ kind
    → Runs kind d.progress.operation_id (first_phase kind d)
unfolding first_phase is_in_progress
first_phase-Runs JobKind.none d a k = λ h. absurd (ground (arith, h))
first_phase-Runs JobKind.initialize d a k = λ h. (a, refl, k)
first_phase-Runs JobKind.apply_config d a k = λ h. (a, refl, k)
first_phase-Runs JobKind.reset_and_reapply d a k = λ h. (a, refl, k)
first_phase-Runs JobKind.acquire d a k = λ h. (a, refl, k)

refused-Runs :
    (kind : JobKind) (id : ℕ) (b : Bool) (e : Err) (d : Driver) (rest : Status × Driver)
    → is_in_progress_code e ≡ false
    → Runs kind id rest
    → Runs kind id (if b then (error e, d) else rest)
unfolding is_in_progress
refused-Runs kind id true e d rest n r = λ h. absurd (ground (arith, n, h))
refused-Runs kind id false e d rest n r = r

start_job-Runs :
    (kind : JobKind) (channels id deadline maximum : ℕ) (d : Driver)
    → Runs kind id (start_job kind channels id deadline maximum d)
unfolding start_job
start_job-Runs kind channels id deadline maximum d =
    refused-Runs kind id (not d.bound) Err.not_bound d _ refl (
      refused-Runs kind id (id == 0) Err.invalid_param d _ refl (
        refused-Runs kind id (operation_id_in_use d id) Err.duplicate_operation_id d _ refl (
          refused-Runs kind id d.progress.active Err.busy d _ refl (
            refused-Runs kind id (not (reserve_result_slot d)) Err.result_queue_full d _ refl
              (first_phase-Runs kind _ refl refl)))))

start_kind-Runs :
    (kind : JobKind) (channels id deadline : ℕ) (d : Driver)
    → Runs kind id (start_kind kind channels id deadline d)
unfolding start_kind start_initialize start_apply_config start_reset_and_reapply start_acquire
    is_in_progress
start_kind-Runs JobKind.none channels id deadline d = λ h. absurd (ground (arith, h))
start_kind-Runs JobKind.initialize channels id deadline d =
    start_job-Runs JobKind.initialize _ id deadline _ d
start_kind-Runs JobKind.apply_config channels id deadline d =
    refused-Runs JobKind.apply_config id (d.bound && is_unknown d.applied_state) Err.config_dirty d
      _ refl (start_job-Runs JobKind.apply_config _ id deadline _ d)
start_kind-Runs JobKind.reset_and_reapply channels id deadline d =
    start_job-Runs JobKind.reset_and_reapply _ id deadline _ d
start_kind-Runs JobKind.acquire channels id deadline d =
    refused-Runs JobKind.acquire id (not d.bound) Err.not_bound d _ refl (
      refused-Runs JobKind.acquire id (not (is_active d.applied_state)) Err.config_dirty d _ refl (
        refused-Runs JobKind.acquire id (is_empty channels || exceeds channels d.config.channels)
          Err.invalid_param d _ refl (start_job-Runs JobKind.acquire channels id deadline _ d)))

admitted-Correlated :
    (owner : OperationOwner) (command : CommandId) (kind : JobKind) (channels started deadline : ℕ)
    (c : Cli)
    → Correlated c
    → is_owned c.pending.owner ≡ false
    → Correlated (admitted owner command kind channels started deadline c).1
unfolding admitted next_operation_id
admitted-Correlated owner command kind channels started deadline c o free =
    let runs = start_kind-Runs kind channels c.next_operation_id deadline c.device in
    elim (Bool-cases
      (is_in_progress (start_kind kind channels c.next_operation_id deadline c.device).0)) [
        | inl e ↦
            let r = runs e in
            simp e (record {
              active = ground (arith, r);
              same_id = ground (arith, r);
              same_kind = λ h. r.2;
              next_id = ground arith;
            })
        | inr e ↦ simp e (record {
          active = ground (arith, free);
          same_id = ground (arith, free);
          same_kind = λ h. absurd (ground (arith, h, free));
          next_id = ground arith;
        })
      ]

-- What a member beside them is, is of no importance.
with_prompt : (c : Cli) (b : Bool) → Correlated c → Correlated (record c { prompt_deferred = b })
with_prompt c b o = record {
  active = o.active;
  same_id = o.same_id;
  same_kind = o.same_kind;
  next_id = o.next_id;
}

pub with_session :
    (c : Cli) (s : DiagnosticSession) → Correlated c → Correlated (record c { session = s })
with_session c s o = record {
  active = o.active;
  same_id = o.same_id;
  same_kind = o.same_kind;
  next_id = o.next_id;
}

skipped_id : (c : Cli) → Correlated c → Correlated (next_operation_id c).1
unfolding next_operation_id
skipped_id c o = record {
  active = o.active;
  same_id = o.same_id;
  same_kind = o.same_kind;
  next_id = ground arith;
}

module _ {W : Type 0} (platform : Platform W) where
  schedule_command_job-Correlated :
      (command : CommandId) (kind : JobKind) (channels deadline_ms : ℕ) (c : Cli) (w : W)
      → Correlated c
      → Correlated (schedule_command_job platform command kind channels deadline_ms c w).1
  unfolding schedule_command_job asynchronous_work_active
  schedule_command_job-Correlated command kind channels deadline_ms c w o =
      let started = now_ms platform w in
      let deadline = u64 (started + deadline_ms) in
      let r = admitted OperationOwner.command command kind channels started deadline c in
      elim (Bool-cases
        (is_owned c.pending.owner || is_session c.session.kind || c.device.progress.active)) [
          | inl e ↦ simp e o
          | inr e ↦
              let kept =
                admitted-Correlated OperationOwner.command command kind channels started deadline c
                  o (ground (arith, e)) in
              elim (Bool-cases platform.has_now_ms) [
                | inr g ↦ simp (e, g) o
                | inl g ↦ elim (Bool-cases (is_in_progress r.0)) [
                  | inl h ↦ simp (e, g, h) (with_prompt r.1 true kept)
                  | inr h ↦ simp (e, g, h) kept
                ]
              ]
        ]

  pub schedule_session_acquire-Correlated :
      (c : Cli) (w : W) → Correlated c → Correlated (schedule_session_acquire platform c w).1
  unfolding schedule_session_acquire
  schedule_session_acquire-Correlated c w o =
      let s = c.session in
      let started = now_ms platform w in
      let deadline =
        if is_sample_rate s.kind then s.ready_deadline_ms else u64 (started + job_deadline_ms) in
      let r =
        admitted OperationOwner.session s.command JobKind.acquire s.channels started deadline c in
      elim (Bool-cases (cannot_admit c)) [
        | inl e ↦ simp e o
        | inr e ↦
            let kept =
              admitted-Correlated OperationOwner.session s.command JobKind.acquire s.channels
                started deadline c o (ground (arith, e)) in
            elim (Bool-cases (is_in_progress r.0)) [
              | inl h ↦
                  simp (e, h)
                    (with_session r.1 (record s { phase = SessionPhase.wait_acquire }) kept)
              | inr h ↦ simp (e, h) kept
            ]
      ]

  schedule_session_job-Correlated :
      (kind : JobKind) (c : Cli) (w : W)
      → Correlated c
      → Correlated (schedule_session_job platform kind c w).1
  unfolding schedule_session_job
  schedule_session_job-Correlated kind c w o =
      let deadline = u64 (now_ms platform w + job_deadline_ms) in
      elim (Bool-cases (cannot_admit c)) [
        | inl e ↦ simp e o
        | inr e ↦ elim (Bool-cases (is_reset_or_initialize kind)) [
          | inl g ↦
              simp (e, g)
                (admitted-Correlated OperationOwner.session c.session.command kind 0
                  (now_ms platform w) deadline c o (ground (arith, e)))
          | inr g ↦ simp (e, g) (skipped_id c o)
        ]
      ]

  -- Admitting a job, for a command or for a session, keeps the command line and the driver together:
  -- while an operation is pending, the driver runs a job with its id and of its kind. It also keeps
  -- the next operation id from being 0, over its wrap-around in uint64_t.
  pub schedule-Correlated :
      (command : CommandId) (kind : JobKind) (channels deadline_ms : ℕ) (c : Cli) (w : W)
      → Correlated c
      → Correlated (schedule_command_job platform command kind channels deadline_ms c w).1
        × Correlated (schedule_session_acquire platform c w).1
        × Correlated (schedule_session_job platform kind c w).1
  schedule-Correlated command kind channels deadline_ms c w o = (
    schedule_command_job-Correlated command kind channels deadline_ms c w o,
    schedule_session_acquire-Correlated c w o,
    schedule_session_job-Correlated kind c w o,
  )
