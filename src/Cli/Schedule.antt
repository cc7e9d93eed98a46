-- ===== src/Cli/Schedule.antt =====
-- examples/common/Ldc1614Cli.cpp: operation and session numbers, the admission of jobs for commands
-- and sessions, and the start of a session.
use ldc.Base.{ℕ, ◌+◌, Bool, true, false, ◌||◌, not, ◌==◌, if◌then◌else◌, u32, u64}
use ldc.Status.{Status, Err, is_in_progress, error}
use ldc.Config.{ChannelMask}
use ldc.Types.{JobKind}
use ldc.Driver.{Driver}
use ldc.Jobs.{start_initialize, start_apply_config, start_reset_and_reapply, start_acquire}
use ldc.Cli.{CommandId}
use ldc.Cli.State.{SessionKind, SessionPhase, OperationOwner, Cli, Platform}

abbrev pub job_deadline_ms : ℕ
job_deadline_ms = 2000

abbrev pub first_ldc_address : ℕ
first_ldc_address = 0x2A

abbrev pub min_i2c_frequency_hz : ℕ
min_i2c_frequency_hz = 10000

abbrev pub max_i2c_frequency_hz : ℕ
max_i2c_frequency_hz = 400000

abbrev pub is_owned : OperationOwner → Bool
is_owned OperationOwner.none = false
is_owned _ = true

abbrev pub is_session : SessionKind → Bool
is_session SessionKind.none = false
is_session _ = true

unfoldable pub asynchronous_work_active : Cli → Bool
asynchronous_work_active c =
    is_owned c.pending.owner || is_session c.session.kind || c.device.progress.active

-- The id, and the command line with the next one, which skips 0 in uint64_t.
unfoldable pub next_operation_id : Cli → ℕ × Cli
next_operation_id c =
    let next = u64 (c.next_operation_id + 1) in
    (c.next_operation_id, record c { next_operation_id = if next == 0 then 1 else next })

unfoldable pub next_session_id : Cli → ℕ × Cli
next_session_id c =
    let next = u32 (c.next_session_id + 1) in
    (c.next_session_id, record c { next_session_id = if next == 0 then 1 else next })

-- The driver's answer to a request for a job of a kind.
unfoldable pub start_kind : JobKind → ChannelMask → ℕ → ℕ → Driver → Status × Driver
start_kind JobKind.initialize channels id deadline d = start_initialize id deadline d
start_kind JobKind.apply_config channels id deadline d = start_apply_config id deadline d
start_kind JobKind.reset_and_reapply channels id deadline d = start_reset_and_reapply id deadline d
start_kind JobKind.acquire channels id deadline d = start_acquire channels id deadline d
start_kind JobKind.none channels id deadline d = (error Err.invalid_param, d)

-- The driver's answer, and the operation that it leaves pending where the job was admitted.
unfoldable pub admitted :
    OperationOwner → CommandId → JobKind → ChannelMask → ℕ → ℕ → Cli → Status × Cli
admitted owner command kind channels started deadline c =
    let next = next_operation_id c in
    let r = start_kind kind channels next.0 deadline c.device in
    let after = record next.1 { device = r.1 } in
    if is_in_progress r.0
    then (
      r.0,
      record after {
        pending = record {
          owner = owner;
          id = next.0;
          kind = kind;
          command = command;
          started_ms = started;
        };
      },
    )
    else (r.0, after)

abbrev pub is_reset_or_initialize : JobKind → Bool
is_reset_or_initialize JobKind.initialize = true
is_reset_or_initialize JobKind.reset_and_reapply = true
is_reset_or_initialize _ = false

abbrev pub cannot_admit : Cli → Bool
cannot_admit c =
    not (is_session c.session.kind) || is_owned c.pending.owner || c.device.progress.active

abbrev pub is_sample_rate : SessionKind → Bool
is_sample_rate SessionKind.sample_rate = true
is_sample_rate _ = false

module _ {W : Type 0} (platform : Platform W) where
  unfoldable pub now_ms : W → ℕ
  now_ms w = if platform.has_now_ms then platform.now_ms w else 0

  unfoldable pub schedule_command_job :
      CommandId → JobKind → ChannelMask → ℕ → Cli → W → Status × Cli
  schedule_command_job command kind channels deadline_ms c w =
      let started = now_ms w in
      let r =
        admitted OperationOwner.command command kind channels started (u64 (started + deadline_ms))
          c in
      if asynchronous_work_active c
      then (error Err.busy, c)
      else if not platform.has_now_ms
      then (error Err.invalid_config, c)
      else if is_in_progress r.0
      then (r.0, record r.1 { prompt_deferred = true })
      else r

  unfoldable pub schedule_session_acquire : Cli → W → Status × Cli
  schedule_session_acquire c w =
      let started = now_ms w in
      let s = c.session in
      let deadline =
        if is_sample_rate s.kind then s.ready_deadline_ms else u64 (started + job_deadline_ms) in
      let r =
        admitted OperationOwner.session s.command JobKind.acquire s.channels started deadline c in
      if cannot_admit c
      then (error Err.busy, c)
      else if is_in_progress r.0
      then (r.0, record r.1 { session = record s { phase = SessionPhase.wait_acquire } })
      else r

  unfoldable pub schedule_session_job : JobKind → Cli → W → Status × Cli
  schedule_session_job kind c w =
      let started = now_ms w in
      if cannot_admit c
      then (error Err.busy, c)
      else if not (is_reset_or_initialize kind)
      then (error Err.invalid_param, (next_operation_id c).1)
      else admitted OperationOwner.session c.session.command kind 0 started
          (u64 (started + job_deadline_ms)) c
