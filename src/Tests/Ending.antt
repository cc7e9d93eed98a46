-- ===== src/Tests/Ending.antt =====
-- The end of an admitted job, on a bus that answers every transfer.
use ldc.Base.{◌+◌, ◌≡◌, refl, false, arith, if◌then◌else◌}
use ldc.Status.{is_ok}
use ldc.Types.{TerminalOutcome, AppliedConfigState, is_acquire}
use ldc.Poll.{poll, due_or_past}
use ldc.Invariant.Queue.{newest}
use ldc.Liveness.{Answers}
use ldc.Liveness.Ends.{poll-ends}
use ldc.Liveness.Healthy.{poll-succeeds}
use ldc.Tests.Fixtures.{counting_bus, slow_bus, started}
use ldc.Tests.Facts.{started-Inv}

counting_bus-Answers : Answers counting_bus
unfolding is_ok
counting_bus-Answers = record {
  writes = λ f a tx t u w. refl;
  reads = λ f a tx t u w. refl;
  manufacturer = λ f a t u w. refl;
  device = λ f a t u w. refl;
}

poll-ends_example : (poll slow_bus 50 30 started 0).1.progress.active ≡ false
unfolding due_or_past
poll-ends_example =
    poll-ends slow_bus 50 30 started 0 started-Inv refl refl (omega arith) (ground arith)

poll-succeeds_example :
    let e = (poll counting_bus 0 30 started 0).1 in
    (e.progress.active ≡ false)
    × (e.result_count ≡ started.result_count + 1)
    × ((newest e).outcome ≡ TerminalOutcome.success)
    × ((if is_acquire started.progress.kind
          then AppliedConfigState.applied_sleeping
          else e.applied_state)
        ≡ AppliedConfigState.applied_sleeping)
unfolding due_or_past
poll-succeeds_example =
    poll-succeeds counting_bus counting_bus-Answers 0 30 started 0 started-Inv refl refl
      (omega arith) (ground arith)
