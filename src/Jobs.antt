-- ===== src/Jobs.antt =====
-- src/LDC1614.cpp: admission of jobs, their termination, and the queue of results. No transfer.
use ldc.Base.{ℕ, ◌+◌, ◌*◌, ◌-◌, ◌%◌, true, false, ◌&&◌, ◌||◌, not, ltb, ◌==◌, if◌then◌else◌, u8}
use ldc.Status.{Status, Err, is_ok, ok_status, error}
use ldc.Cmd.Reg
use ldc.Config.{ChannelMask, is_empty}
use ldc.Types.{
  AppliedConfigState, JobKind, JobPhase, TerminalOutcome, OperationResult, no_operation_result,
  JobProgress, no_sample_batch, no_config_fault, has_effect, partial_write, is_acquire, is_success,
  is_unknown, is_active,
}
use ldc.Registers.{popcount}
use ldc.Profile.{configuration_transfer_count}
use ldc.Validate.{exceeds}
use ldc.Driver.{
  Driver, result_capacity, get_slot, set_slot, clear_active_job, operation_id_in_use,
  configured_channel_count, reserve_result_slot, record_config_fault,
}
use ldc.Batch.{build_acquisition}

-- The result that `_finishJob` queues.
unfoldable pub terminal_result : TerminalOutcome → Status → ℕ → Driver → OperationResult
terminal_result outcome status time d =
    let publishes = is_acquire d.progress.kind && is_success outcome in
    record {
      operation_id = d.progress.operation_id;
      kind = d.progress.kind;
      outcome = outcome;
      status = status;
      effects = d.progress.effects;
      config_fault = d.config_fault;
      config_revision = d.progress.config_revision;
      completed_uptime_ms = time;
      final_progress = record (d.progress) { active = false };
      has_sample_batch = publishes;
      sample_batch = if publishes then build_acquisition d time else no_sample_batch;
    }

-- The state after `_finishJob` has queued `result`.
unfoldable pub push_result : OperationResult → Driver → Driver
push_result result d =
    let tail = u8 ((d.result_head + d.result_count) % result_capacity) in
    record d {
      results = set_slot d.results tail result;
      result_count =
          if ltb d.result_count result_capacity then d.result_count + 1 else d.result_count;
    }

unfoldable pub finish_job : TerminalOutcome → Status → ℕ → Driver → Status × Driver
finish_job outcome status time d = (
  if is_success outcome then ok_status else status,
  clear_active_job (push_result (terminal_result outcome status time d) d),
)

-- The `switch (kind)` of `_startJob`: the first phase and register.
unfoldable pub first_phase : JobKind → Driver → Status × Driver
first_phase kind d = elim kind [
  | JobKind.initialize ↦ admit JobPhase.verify_manufacturer Reg.manufacturer_id
  | JobKind.apply_config ↦ admit JobPhase.force_sleep Reg.config
  | JobKind.reset_and_reapply ↦ admit JobPhase.software_reset Reg.reset_dev
  | JobKind.acquire ↦ admit JobPhase.read_status_before Reg.status
  | JobKind.none ↦ (error Err.invalid_param, clear_active_job d)
]
  where
    admit : JobPhase → ℕ → Status × Driver
    admit phase reg = (
      error Err.in_progress,
      record d { progress = record (d.progress) { phase = phase; register_address = reg } },
    )

unfoldable pub start_job : JobKind → ChannelMask → ℕ → ℕ → ℕ → Driver → Status × Driver
start_job kind channels id deadline maximum d =
    let cleared = clear_active_job d in
    let progress : JobProgress = record (cleared.progress) {
      active = true;
      operation_id = id;
      kind = kind;
      deadline_ms = deadline;
      maximum_transfers = maximum;
      requested_channels = channels;
      config_revision = d.config_revision;
    } in
    if not d.bound
    then (error Err.not_bound, d)
    else if id == 0
    then (error Err.invalid_param, d)
    else if operation_id_in_use d id
    then (error Err.duplicate_operation_id, d)
    else if d.progress.active
    then (error Err.busy, d)
    else if not (reserve_result_slot d)
    then (error Err.result_queue_full, d)
    else first_phase kind (record cleared { progress = progress })

unfoldable pub start_initialize : ℕ → ℕ → Driver → Status × Driver
start_initialize id deadline d =
    start_job JobKind.initialize 0 id deadline
      (u8 (2 + configuration_transfer_count (configured_channel_count d))) d

unfoldable pub start_apply_config : ℕ → ℕ → Driver → Status × Driver
start_apply_config id deadline d =
    if d.bound && is_unknown d.applied_state
    then (error Err.config_dirty, d)
    else start_job JobKind.apply_config 0 id deadline
        (configuration_transfer_count (configured_channel_count d)) d

unfoldable pub start_reset_and_reapply : ℕ → ℕ → Driver → Status × Driver
start_reset_and_reapply id deadline d =
    start_job JobKind.reset_and_reapply 0 id deadline
      (u8 (3 + configuration_transfer_count (configured_channel_count d))) d

unfoldable pub start_acquire : ChannelMask → ℕ → ℕ → Driver → Status × Driver
start_acquire channels id deadline d =
    if not d.bound
    then (error Err.not_bound, d)
    else if not (is_active d.applied_state)
    then (error Err.config_dirty, d)
    else if is_empty channels || exceeds channels d.config.channels
    then (error Err.invalid_param, d)
    else start_job JobKind.acquire channels id deadline (u8 (2 + 2 * popcount channels)) d

-- What `poll` at the deadline and `cancelJob` do to the trust in the applied state.
unfoldable pub abandon_writes : Status → Driver → Driver
abandon_writes reason d =
    let distrusted =
      if is_unknown d.applied_state
      then d
      else record d { applied_state = AppliedConfigState.dirty } in
    if not (is_acquire d.progress.kind) && has_effect d.progress.effects partial_write
    then record_config_fault reason d.last_write_phase d.last_write_register d.last_write_channel
        d.progress.effects distrusted
    else d

unfoldable pub cancel_job : Driver → Status × Driver
cancel_job d =
    let cancelled = error Err.cancelled in
    if not d.progress.active then (ok_status, d) else (
      ok_status,
      (finish_job TerminalOutcome.cancelled cancelled 0 (abandon_writes cancelled d)).1,
    )

pub record Taken : Type 0 where
  pub status : Status
  pub out : OperationResult
  pub driver : Driver

unfoldable pub take_result : Driver → Taken
take_result d =
    let popped = record d {
      results = set_slot d.results d.result_head no_operation_result;
      result_head = u8 ((d.result_head + 1) % result_capacity);
      result_count = d.result_count - 1;
    } in
    if d.result_count == 0
    then record { status = error Err.result_not_ready; out = no_operation_result; driver = d }
    else record { status = ok_status; out = get_slot d.results d.result_head; driver = popped }

unfoldable pub invalidate_applied_state : Status → Driver → Driver
invalidate_applied_state reason d =
    let idle = if d.progress.active then (cancel_job d).1 else d in
    record idle {
      applied_state = AppliedConfigState.unknown;
      config_fault = record no_config_fault {
        valid = true;
        cause = if is_ok reason then error Err.config_dirty else reason;
      };
    }
