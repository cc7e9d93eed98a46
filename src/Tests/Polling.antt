-- ===== src/Tests/Polling.antt =====
-- Runs of jobs, and the theorems on `poll` at them.
use ldc.Base.{◌+◌, ◌≤◌, arith}
use ldc.Clock.{sub64}
use ldc.Poll.{poll}
use ldc.Driver.{initial}
use ldc.Api.{run}
use ldc.Poll.Bounds.{poll_transfers, poll_time}
use ldc.Invariant.{Inv}
use ldc.Invariant.Calls.{run-Inv}
use ldc.Tests.Fixtures.{
  counting_bus, slow_bus, counting_bus-Charges, slow_bus-Charges, started, first_acquisition,
}

poll_transfers_example : (poll counting_bus 0 3 started 0).2 ≤ 0 + 3
poll_transfers_example = poll_transfers counting_bus (λ w. w) 0 3 started 0 counting_bus-Charges

poll_time_example : (poll slow_bus 40 30 started 0).2 ≤ 0 + sub64 started.progress.deadline_ms 40
poll_time_example = poll_time slow_bus (λ w. w) 40 30 started 0 slow_bus-Charges

run-Inv_example : Inv (run counting_bus first_acquisition initial 0).0
run-Inv_example = run-Inv counting_bus first_acquisition 0 (omega arith)
