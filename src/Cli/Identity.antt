-- ===== src/Cli/Identity.antt =====
-- examples/common/Ldc1614Cli.cpp: the sessions that read the identity of the device, and the one that
-- resets it.
use ldc.Base.{ℕ, ◌+◌, Bool, true, false, ◌&&◌, ◌||◌, not, ◌==◌, leb, if◌then◌else◌, u32}
use ldc.Status.{Status, Err, is_ok, is_in_progress, ok_status, error, error_detail}
use ldc.Cmd
use ldc.Cmd.Reg
use ldc.Types.{JobKind}
use ldc.Direct.{read_register16}
use ldc.Cli.State.{SessionPhase, SessionStats, Outcome, Cli, Platform}
use ldc.Cli.Schedule.{schedule_session_job}
use ldc.Cli.Sessions.{record_session_failure, finish_session, finish_by_failures}

abbrev is_probe_manufacturer : SessionPhase → Bool
is_probe_manufacturer SessionPhase.probe_manufacturer = true
is_probe_manufacturer _ = false

abbrev is_probe_device : SessionPhase → Bool
is_probe_device SessionPhase.probe_device = true
is_probe_device _ = false

abbrev is_stress_id_manufacturer : SessionPhase → Bool
is_stress_id_manufacturer SessionPhase.stress_id_manufacturer = true
is_stress_id_manufacturer _ = false

-- A counter of uint32_t.
abbrev pub next32 : ℕ → ℕ
next32 n = u32 (n + 1)

-- `recordSessionFailure(status)` and `++failed`.
abbrev pub failed_with : Status → SessionStats → SessionStats
failed_with status s =
    let t = record_session_failure status s in record t { failed = next32 t.failed }

module _ {W : Type 0} (platform : Platform W) where
  unfoldable pub probe_manufacturer : Cli → W → Cli × W
  probe_manufacturer c w =
      let r = read_register16 platform.bus Reg.manufacturer_id c.device w in
      let s = c.session in
      let read = record c { device = r.driver } in
      if not (is_ok r.status)
      then (
        finish_session platform r.status Outcome.failed
            (record read { session = record s { stats = failed_with r.status s.stats } }) r.world,
        r.world,
      )
      else (
        record read {
          session = record s { manufacturer_id = r.out; phase = SessionPhase.probe_device };
        },
        r.world,
      )

  unfoldable pub probe_device : Cli → W → Cli × W
  probe_device c w =
      let r = read_register16 platform.bus Reg.device_id c.device w in
      let s = c.session in
      let id = if is_ok r.status then r.out else s.device_id in
      let mismatch =
        not (s.manufacturer_id == Cmd.manufacturer_id_value) || not (id == Cmd.device_id_value) in
      let status = if is_ok r.status && mismatch then error Err.device_not_found else r.status in
      let stats =
        if is_ok status
        then record s.stats { passed = next32 s.stats.passed }
        else failed_with status s.stats in
      let done = record s { device_id = id; stats = record stats { completed = 2 } } in
      (
        finish_session platform status (if is_ok status then Outcome.success else Outcome.failed)
            (record c { device = r.driver; session = done }) r.world,
        r.world,
      )

  unfoldable pub advance_probe_session : Cli → W → Cli × W
  advance_probe_session c w =
      if is_probe_manufacturer c.session.phase
      then probe_manufacturer c w
      else if is_probe_device c.session.phase
      then probe_device c w
      else (c, w)

  -- The last part of an iteration that fails, and the end of the session.
  unfoldable pub fail_iteration : Status → Cli → W → Cli
  fail_iteration status c w =
      let s = c.session in
      let t = failed_with status s.stats in
      finish_session platform status Outcome.failed
        (record c {
          session = record s {
            first_failure_iteration = s.index;
            stats = record t { completed = next32 t.completed };
          };
        })
        w

  -- One identity read of the stress.
  unfoldable pub identity_read : Cli → W → Cli × W
  identity_read c w =
      let s = c.session in
      let manufacturer = is_stress_id_manufacturer s.phase in
      let reg = if manufacturer then Reg.manufacturer_id else Reg.device_id in
      let expected = if manufacturer then Cmd.manufacturer_id_value else Cmd.device_id_value in
      let r = read_register16 platform.bus reg c.device w in
      let status =
        if is_ok r.status && not (r.out == expected)
        then error_detail Err.device_not_found r.out
        else r.status in
      let read = record c { device = r.driver } in
      if not (is_ok status)
      then (fail_iteration status read r.world, r.world)
      else if manufacturer
      then (record read { session = record s { phase = SessionPhase.stress_id_device } }, r.world)
      else (
        record read {
          session = record s {
            index = next32 s.index;
            phase = SessionPhase.stress_id_manufacturer;
            stats = record (s.stats) {
              completed = next32 s.stats.completed;
              passed = next32 s.stats.passed;
            };
          };
        },
        r.world,
      )

  unfoldable pub advance_identity_stress_session : Cli → W → Cli × W
  advance_identity_stress_session c w =
      if leb c.session.count c.session.index
      then (finish_by_failures platform c w, w)
      else identity_read c w

  unfoldable pub advance_reset_stress_session : Cli → W → Cli × W
  advance_reset_stress_session c w =
      let r = schedule_session_job platform JobKind.reset_and_reapply c w in
      if leb c.session.count c.session.index
      then (finish_session platform ok_status Outcome.success c w, w)
      else if not (is_in_progress r.0)
      then (fail_iteration r.0 r.1 w, w)
      else (r.1, w)
