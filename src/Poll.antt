-- ===== src/Poll.antt =====
-- src/LDC1614.cpp: `poll`, and the loops of the two state machines that it drives.
-- A round that goes on has used one transfer, so the loops recur on the transfers that remain.
pub mod Loop
pub mod Bounds
use ldc.Base.{
  ℕ, zero, suc, ◌+◌, ◌-◌, ◌/◌, ◌^◌, Bool, true, false, ◌&&◌, not, ltb, ◌==◌, if◌then◌else◌, u8, u32,
}
use ldc.Status.{Status, Err, is_ok, is_in_progress, ok_status, error}
use ldc.Types.{JobKind, TerminalOutcome, is_acquire}
use ldc.Clock.{sub64}
use ldc.Driver.{Driver}
use ldc.Bus.{Bus}
use ldc.Jobs.{finish_job, abandon_writes}
use ldc.Round.{Round, again, done, closed}
use ldc.Round.Apply.{apply_round}
use ldc.Round.Acquire.{acquire_round}

-- What a loop leaves: its status, `remainingTransfers`, the driver and the world.
pub record Polled (W : Type 0) : Type 0 where
  pub status : Status
  pub remaining : ℕ
  pub driver : Driver
  pub world : W

abbrev pub in_progress : Status
in_progress = error Err.in_progress

-- The loop goes on with `rest`, or returns with `n` transfers left after the round.
abbrev pub after_round : {W : Type 0} → (Driver → W → Polled W) → ℕ → Round W → Polled W
after_round rest n (again d w) = rest d w
after_round rest n (done s d w) = record { status = s; remaining = n; driver = d; world = w }
after_round rest n (closed s d w) = record { status = s; remaining = suc n; driver = d; world = w }

abbrev pub stopped : {W : Type 0} → ℕ → Driver → W → Polled W
stopped n d w = record { status = in_progress; remaining = n; driver = d; world = w }

-- `while (_progress.active && remainingTransfers > 0U)` over a round.
unfoldable pub run_rounds : {W : Type 0} → (Driver → W → Round W) → ℕ → Driver → W → Polled W
run_rounds round zero d w = stopped zero d w
run_rounds round (suc n) d w = elim (d.progress.active) [
  | false ↦ stopped (suc n) d w
  | true ↦ after_round (run_rounds round n) n (round d w)
]

-- Wrap-safe for deadline horizons shorter than half the uint64_t range.
unfoldable pub due_or_past : ℕ → ℕ → Bool
due_or_past now deadline = ltb (sub64 now deadline) (2 ^ 63)

abbrev pub is_reset : JobKind → Bool
is_reset JobKind.reset_and_reapply = true
is_reset _ = false

-- The transfers that this poll may make.
unfoldable pub poll_budget : ℕ → ℕ → Driver → ℕ
poll_budget now max_transfers d =
    let left = u8 (d.progress.maximum_transfers + 256 - d.progress.completed_transfers) in
    let most = if ltb max_transfers left then max_transfers else left in
    let budget_ms = sub64 d.progress.deadline_ms now in
    if ltb budget_ms most then u8 budget_ms else most

-- The timeout of each, `remaining` being the transfers that the poll may make.
unfoldable pub poll_timeout : ℕ → ℕ → Driver → ℕ
poll_timeout now remaining d =
    let fair = sub64 d.progress.deadline_ms now / remaining in
    u32 (if ltb fair d.config.i2c_timeout_ms then fair else d.config.i2c_timeout_ms)

module _ {W : Type 0} (bus : Bus W) where
  unfoldable pub poll_initialize_or_apply : ℕ → ℕ → ℕ → Bool → Driver → W → Polled W
  poll_initialize_or_apply now remaining timeout reset_first d w =
      run_rounds (apply_round bus d.progress.kind reset_first now timeout) remaining d w

  unfoldable pub poll_acquire : ℕ → ℕ → ℕ → Driver → W → Polled W
  poll_acquire now remaining timeout d w = run_rounds (acquire_round bus now timeout) remaining d w

  -- The state machine of the job's kind.
  unfoldable pub machine : ℕ → ℕ → ℕ → Driver → W → Polled W
  machine now remaining timeout d w =
      if is_acquire d.progress.kind
      then poll_acquire now remaining timeout d w
      else poll_initialize_or_apply now remaining timeout (is_reset d.progress.kind) d w

  -- The loop of `poll`, on fuel: its transfers and one round more.
  unfoldable pub poll_loop : ℕ → ℕ → ℕ → ℕ → Driver → W → Status × Driver × W
  poll_loop zero now remaining timeout d w = (in_progress, d, w)
  poll_loop (suc fuel) now remaining timeout d w =
      let p = machine now remaining timeout d w in
      let rest = poll_loop fuel now p.remaining timeout p.driver p.world in
      let body =
        if not (is_ok p.status) && not (is_in_progress p.status)
        then (p.status, p.driver, p.world)
        else rest in
      if d.progress.active && ltb 0 remaining
      then body
      else (if d.progress.active then in_progress else ok_status, d, w)

  unfoldable pub poll : ℕ → ℕ → Driver → W → Status × Driver × W
  poll now max_transfers d w =
      let expired = error Err.timeout in
      let timed_out = finish_job TerminalOutcome.timed_out expired now (abandon_writes expired d) in
      let remaining = poll_budget now max_transfers d in
      let polled = poll_loop (suc remaining) now remaining (poll_timeout now remaining d) d w in
      if not d.progress.active
      then (ok_status, d, w)
      else if due_or_past now d.progress.deadline_ms
      then (timed_out.0, timed_out.1, w)
      else if max_transfers == 0
      then (in_progress, d, w)
      else polled
