-- ===== src/Invariant/Queue.antt =====
-- The queue of results of src/LDC1614.cpp as a list, for `_finishJob` and `takeResult`.
use ldc.Base.{ℕ, ◌+◌, ◌%◌, ◌<◌, ◌≡◌, ◌==◌, if◌then◌else◌, arith, List, [], ◌∷◌, ◌++◌, u8}
use ldc.Status.{Status, is_ok}
use ldc.Types.{OperationResult, TerminalOutcome}
use ldc.Driver.{Driver, get_slot, clear_active_job}
use ldc.Jobs.{terminal_result, push_result, finish_job, take_result}
use ldc.Invariant.{QueueInv}

-- The results in the order in which their jobs ended.
abbrev pub queued : Driver → List OperationResult
queued d =
    if d.result_count == 0
    then []
    else if d.result_count == 1
    then get_slot d.results d.result_head ∷ []
    else get_slot d.results d.result_head ∷ get_slot d.results (u8 ((d.result_head + 1) % 2)) ∷ []

-- The result that was queued last.
abbrev pub newest : Driver → OperationResult
newest d = get_slot d.results (u8 ((d.result_head + d.result_count + 1) % 2))

-- A job that ends puts one result behind those that wait, and loses none, where the queue is in
-- range and has a free slot.
pub finish_job-queued :
    (outcome : TerminalOutcome) (status : Status) (time : ℕ) (d : Driver)
    → QueueInv d
    → d.result_count < 2
    → queued (finish_job outcome status time d).1
      ≡ queued d ++ (terminal_result outcome status time d ∷ [])
unfolding finish_job push_result clear_active_job
finish_job-queued outcome status time d v free = ground (arith, v)

-- Where the queue is in range, `takeResult` succeeds exactly on a nonempty queue: it gives out the
-- oldest result and leaves the others in their order. On an empty one it leaves the driver as it is.
pub take_result-queued :
    (d : Driver)
    → QueueInv d
    → let t = take_result d in
      (queued d ≡ (if is_ok t.status then t.out ∷ queued t.driver else []))
      × ((if is_ok t.status then d else t.driver) ≡ d)
unfolding take_result is_ok
take_result-queued d v = ground (arith, v)
