-- ===== src/Cli/BusStress.antt =====
-- examples/common/Ldc1614Cli.cpp: the session that alternates the frequency of the bus and restores it.
use ldc.Base.{ℕ, ◌%◌, Bool, true, false, ◌&&◌, ◌||◌, not, ◌==◌, leb, if◌then◌else◌}
use ldc.Status.{Status, Err, is_ok, is_in_progress, error, error_detail}
use ldc.Types.{JobKind}
use ldc.Jobs.{invalidate_applied_state}
use ldc.Cli.State.{SessionPhase, DiagnosticSession, Outcome, I2cBusInfo, Cli, Platform}
use ldc.Cli.Schedule.{schedule_session_job, max_i2c_frequency_hz}
use ldc.Cli.Sessions.{record_session_failure, finish_session}
use ldc.Cli.Identity.{failed_with, next32}

abbrev pub stress_low_i2c_frequency_hz : ℕ
stress_low_i2c_frequency_hz = 100000

abbrev pub is_restore : SessionPhase → Bool
is_restore SessionPhase.stress_bus_freq_restore = true
is_restore _ = false

abbrev other_frequency : ℕ → ℕ
other_frequency hz =
    if hz == stress_low_i2c_frequency_hz then max_i2c_frequency_hz else stress_low_i2c_frequency_hz

abbrev pub requested_hz : DiagnosticSession → ℕ
requested_hz s =
    let first_hz = other_frequency s.initial_frequency_hz in
    if s.index % 2 == 0 then first_hz else other_frequency first_hz

-- The status of a change, where the bus must then be open at the frequency.
abbrev pub reached : Status → ℕ → I2cBusInfo → Status
reached status hz info =
    if is_ok status && (not info.open_bus || not (info.frequency_hz == hz))
    then error_detail Err.i2c_bus info.frequency_hz
    else status

module _ {W : Type 0} (platform : Platform W) where
  unfoldable pub restore_frequency : Cli → W → Cli × W
  restore_frequency c w =
      let s = c.session in
      let set = platform.i2c_set_frequency s.initial_frequency_hz w in
      let info = platform.i2c_bus_info set.1 in
      let status = reached set.0 s.initial_frequency_hz info in
      let restored = record s {
        active_frequency_hz = info.frequency_hz;
        restore_status = status;
      } in
      let failing : Status → DiagnosticSession → DiagnosticSession =
        λ e t. record t { restore_status = e; stats = record_session_failure e t.stats } in
      let invalid = record c {
        device = invalidate_applied_state (error Err.config_dirty) c.device;
        session = restored;
      } in
      let r = schedule_session_job platform JobKind.initialize invalid set.1 in
      if not (is_ok status)
      then (
        finish_session platform status Outcome.failed
            (record c { session = failing status restored }) set.1,
        set.1,
      )
      else if not (is_in_progress r.0)
      then (
        finish_session platform r.0 Outcome.failed
            (record r.1 { session = failing r.0 (r.1.session) }) set.1,
        set.1,
      )
      else (r.1, set.1)

  -- An iteration that fails goes on to the restoration.
  unfoldable pub fail_to_restore : Status → Cli → Cli
  fail_to_restore status c =
      let s = c.session in
      let t = failed_with status s.stats in
      record c {
        session = record s {
          first_failure_iteration = s.index;
          phase = SessionPhase.stress_bus_freq_restore;
          stats = record t { completed = next32 t.completed };
        };
      }

  unfoldable pub switch_frequency : Cli → W → Cli × W
  switch_frequency c w =
      let s = c.session in
      let hz = requested_hz s in
      let set = platform.i2c_set_frequency hz w in
      let info = platform.i2c_bus_info set.1 in
      let status = reached set.0 hz info in
      let changed = record c { session = record s { active_frequency_hz = info.frequency_hz } } in
      let invalid = record changed {
        device = invalidate_applied_state (error Err.config_dirty) c.device;
      } in
      let r = schedule_session_job platform JobKind.initialize invalid set.1 in
      if not (is_ok status)
      then (fail_to_restore status changed, set.1)
      else if not (is_in_progress r.0)
      then (fail_to_restore r.0 r.1, set.1)
      else (r.1, set.1)

  unfoldable pub advance_bus_frequency_stress_session : Cli → W → Cli × W
  advance_bus_frequency_stress_session c w =
      let s = c.session in
      if is_restore s.phase
      then restore_frequency c w
      else if leb s.count s.index
      then (record c { session = record s { phase = SessionPhase.stress_bus_freq_restore } }, w)
      else switch_frequency c w
