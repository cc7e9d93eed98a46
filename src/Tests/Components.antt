-- ===== src/Tests/Components.antt =====
-- The theorems on the queue, the counters, the guards, the replay table and the decoders at
-- concrete inputs.
use ldc.Base.{
  bit_and, ℕ, ◌+◌, ◌*◌, ◌≤◌, ◌<◌, ◌≡◌, ◌≢◌, ◌==◌, ◌++◌, ◌&&◌, refl, true, false, if◌then◌else◌, [],
  ◌∷◌, arith, bit,
}
use ldc.Status.{Err, is_ok, ok_status, error}
use ldc.Cmd.Reg
use ldc.Types.{TerminalOutcome}
use ldc.Registers.{channel_count_for, is_configuration_register, is_ldc1614_only_register}
use ldc.Profile.{config_write_at, configuration_transfer_count}
use ldc.Decode.{decode_device_status, decode_channel_sample, raw_count_max}
use ldc.Decode.Sample.{decode_channel_sample-count}
use ldc.Invariant.Outcome.{returned, poll-queued, poll-status}
use ldc.Decode.Fields.{decode_device_status-bits}
use ldc.Bus.{tracked}
use ldc.Jobs.{finish_job, take_result, terminal_result, abandon_writes}
use ldc.Poll.{poll, poll_budget, due_or_past, in_progress}
use ldc.Api.{step, sleeps}
use ldc.Api.Guards.{step-excluded, poll-due}
use ldc.Invariant.{StatsInv}
use ldc.Invariant.Frame.{tracked-StatsInv}
use ldc.Invariant.Queue.{queued, newest, finish_job-queued, take_result-queued}
use ldc.Invariant.Budget.{poll_budget-bounds}
use ldc.Trust.Table.{replay_table, has_two_channels}
use ldc.Tests.Fixtures.{profile, counting_bus, started}
use ldc.Tests.Facts.{started-Inv}

tracked-StatsInv_example : StatsInv (tracked ok_status started)
tracked-StatsInv_example = tracked-StatsInv ok_status started (ground arith)

finish_job-queued_example :
    queued (finish_job TerminalOutcome.success ok_status 9 started).1
    ≡ queued started ++ (terminal_result TerminalOutcome.success ok_status 9 started ∷ [])
finish_job-queued_example =
    finish_job-queued TerminalOutcome.success ok_status 9 started started-Inv.queue (omega arith)

take_result-queued_example :
    let t = take_result started in
    (queued started ≡ (if is_ok t.status then t.out ∷ queued t.driver else []))
    × ((if is_ok t.status then started else t.driver) ≡ started)
take_result-queued_example = take_result-queued started started-Inv.queue

poll_budget-bounds_example :
    (0 < poll_budget 0 3 started)
    × (started.progress.completed_transfers + poll_budget 0 3 started
        ≤ started.progress.maximum_transfers)
unfolding due_or_past
poll_budget-bounds_example =
    poll_budget-bounds 0 3 started started-Inv refl refl (omega arith) (omega arith) (omega arith)
      (omega arith)

step-excluded_example : step counting_bus sleeps started 0 ≡ (started, 0)
step-excluded_example = step-excluded counting_bus sleeps started 0 refl refl refl

poll-due_example :
    let p = poll counting_bus 100 3 started 0 in
    let r =
      terminal_result TerminalOutcome.timed_out
        (error Err.timeout)
        100
        (abandon_writes (error Err.timeout) started) in
    (p.0 ≡ error Err.timeout)
    × (p.2 ≡ 0)
    × (p.1.progress.active ≡ false)
    × (queued p.1 ≡ queued started ++ (r ∷ []))
    × (r.operation_id ≡ started.progress.operation_id)
unfolding due_or_past
poll-due_example = poll-due counting_bus 100 3 started 0 started-Inv refl refl

decode_device_status-bits_example :
    let s = decode_device_status 0x2048 in
    (s.raw ≡ 0x2048)
    × (s.error_under_range ≡ (bit 0x2048 13 == 1))
    × (s.error_over_range ≡ (bit 0x2048 12 == 1))
    × (s.error_watchdog ≡ (bit 0x2048 11 == 1))
    × (s.error_amplitude_high ≡ (bit 0x2048 10 == 1))
    × (s.error_amplitude_low ≡ (bit 0x2048 9 == 1))
    × (s.error_zero_count ≡ (bit 0x2048 8 == 1))
    × (s.data_ready ≡ (bit 0x2048 6 == 1))
    × (s.unread_channels ≡ bit 0x2048 3 + 2 * bit 0x2048 2 + 4 * bit 0x2048 1 + 8 * bit 0x2048 0)
decode_device_status-bits_example = decode_device_status-bits 0x2048

replay_table_example :
    let row = λ (i : ℕ). config_write_at profile (channel_count_for profile.variant) i in
    ((row 2).reg ≢ (row 5).reg)
    × ((row 5).valid ≡ true)
    × (is_configuration_register (row 5).reg ≡ true)
    × ((row 5).reg ≢ Reg.reset_dev)
    × ((has_two_channels profile.variant && is_ldc1614_only_register (row 5).reg) ≡ false)
unfolding configuration_transfer_count
replay_table_example = replay_table profile 2 5 (ground arith) (omega arith) (omega arith)

poll-queued_example :
    let e = (poll counting_bus 0 200 started 0).1 in
    let on = e.progress.active in
    (queued e ≡ (if on then queued started else queued started ++ (newest e ∷ [])))
    × ((if on then e.progress.operation_id else (newest e).operation_id)
        ≡ started.progress.operation_id)
    × ((if on then e.progress.kind else (newest e).kind) ≡ started.progress.kind)
poll-queued_example = poll-queued counting_bus 0 200 started 0 started-Inv refl

poll-status_example :
    let p = poll counting_bus 0 200 started 0 in
    p.0 ≡ (if p.1.progress.active then in_progress else returned (newest p.1).status)
poll-status_example = poll-status counting_bus 0 200 started 0 started-Inv refl

decode_channel_sample-count_example :
    ((decode_channel_sample 0x8123 0x4567).raw_count28 ≡ bit_and 0x8123 0xFFF * 65536 + 0x4567)
    × ((decode_channel_sample 0x8123 0x4567).raw_count28 ≤ raw_count_max)
decode_channel_sample-count_example = decode_channel_sample-count 0x8123 0x4567 (omega arith)
