-- ===== src/Cli/Verify.antt =====
-- examples/common/Ldc1614Cli.cpp: the sessions that read back the registers, to print or to compare them.
use ldc.Base.{
  ℕ, zero, suc, ◌+◌, ◌-◌, Bool, true, false, ◌&&◌, ◌||◌, not, ◌==◌, leb, if◌then◌else◌, bit_and, u8,
  List, [], ◌∷◌,
}
use ldc.Status.{Err, is_ok, ok_status, error_detail}
use ldc.Cmd.Reg
use ldc.Config.{Config, DeviceVariant}
use ldc.Direct.{read_register16, expected_configuration_register}
use ldc.Cli.State.{SessionKind, SessionPhase, SessionStats, Outcome, Cli, Platform}
use ldc.Cli.Sessions.{record_session_failure, finish_session, finish_by_failures}
use ldc.Cli.Identity.{failed_with, next32}

abbrev pub config_registers : List ℕ
config_registers =
    Reg.rcount0 ∷ Reg.rcount1 ∷ Reg.rcount2 ∷ Reg.rcount3 ∷ Reg.settlecount0 ∷ Reg.settlecount1
    ∷ Reg.settlecount2 ∷ Reg.settlecount3 ∷ Reg.clock_dividers0 ∷ Reg.clock_dividers1
    ∷ Reg.clock_dividers2 ∷ Reg.clock_dividers3 ∷ Reg.offset0 ∷ Reg.offset1 ∷ Reg.offset2
    ∷ Reg.offset3 ∷ Reg.drive_current0 ∷ Reg.drive_current1 ∷ Reg.drive_current2
    ∷ Reg.drive_current3 ∷ Reg.error_config ∷ Reg.mux_config ∷ Reg.config ∷ []

abbrev pub all_registers : List ℕ
all_registers =
    Reg.data0_msb ∷ Reg.data0_lsb ∷ Reg.data1_msb ∷ Reg.data1_lsb ∷ Reg.data2_msb ∷ Reg.data2_lsb
    ∷ Reg.data3_msb ∷ Reg.data3_lsb ∷ Reg.rcount0 ∷ Reg.rcount1 ∷ Reg.rcount2 ∷ Reg.rcount3
    ∷ Reg.offset0 ∷ Reg.offset1 ∷ Reg.offset2 ∷ Reg.offset3 ∷ Reg.settlecount0 ∷ Reg.settlecount1
    ∷ Reg.settlecount2 ∷ Reg.settlecount3 ∷ Reg.clock_dividers0 ∷ Reg.clock_dividers1
    ∷ Reg.clock_dividers2 ∷ Reg.clock_dividers3 ∷ Reg.status ∷ Reg.error_config ∷ Reg.config
    ∷ Reg.mux_config ∷ Reg.reset_dev ∷ Reg.drive_current0 ∷ Reg.drive_current1 ∷ Reg.drive_current2
    ∷ Reg.drive_current3 ∷ Reg.manufacturer_id ∷ Reg.device_id ∷ []

abbrev pub size : List ℕ → ℕ
size [] = 0
size (r ∷ rs) = size rs + 1

-- An entry of a table; the sessions read no entry behind its end.
abbrev pub entry : List ℕ → ℕ → ℕ
entry [] i = 0
entry (r ∷ rs) zero = r
entry (r ∷ rs) (suc i) = entry rs i

abbrev between : ℕ → ℕ → ℕ → Bool
between low high reg = leb low reg && leb reg high

abbrev is_ldc1612 : DeviceVariant → Bool
is_ldc1612 DeviceVariant.ldc1612 = true
is_ldc1612 _ = false

unfoldable pub is_channel_register_for_unavailable_channel : Config → ℕ → Bool
is_channel_register_for_unavailable_channel config reg =
    is_ldc1612 config.variant
    && (between Reg.data2_msb Reg.data3_lsb reg
        || between Reg.rcount2 Reg.rcount3 reg
        || between Reg.offset2 Reg.offset3 reg
        || between Reg.settlecount2 Reg.settlecount3 reg
        || between Reg.clock_dividers2 Reg.clock_dividers3 reg
        || between Reg.drive_current2 Reg.drive_current3 reg)

abbrev is_dump_all : SessionKind → Bool
is_dump_all SessionKind.dump_all = true
is_dump_all _ = false

abbrev is_invalid_param : Err → Bool
is_invalid_param Err.invalid_param = true
is_invalid_param _ = false

-- The index of the session, one further.
abbrev pub next_register : Cli → Cli
next_register c =
    let s = c.session in
    record c { session = record s { register_index = u8 (s.register_index + 1) } }

abbrev pub with_stats : SessionStats → Cli → Cli
with_stats t c = let s = c.session in record c { session = record s { stats = t } }

-- What a reading that is compared does to the statistics.
unfoldable pub compared : Bool → ℕ → SessionStats → SessionStats
compared match reg s =
    if match
    then record s { passed = next32 s.passed }
    else failed_with (error_detail Err.config_dirty reg) s

module _ {W : Type 0} (platform : Platform W) where
  unfoldable pub dump_register : List ℕ → Cli → W → Cli × W
  dump_register registers c w =
      let s = c.session in
      let reg = entry registers s.register_index in
      let r = read_register16 platform.bus reg c.device w in
      let t = record (s.stats) { completed = next32 s.stats.completed } in
      let stats =
        if is_ok r.status then record t { passed = next32 t.passed } else failed_with r.status t in
      (with_stats stats (next_register (record c { device = r.driver })), r.world)

  -- The loop that passes over registers that the variant does not have, with the entries left.
  unfoldable pub dump_from : ℕ → List ℕ → Cli → W → Cli × W
  dump_from zero registers c w = (finish_by_failures platform c w, w)
  dump_from (suc rounds) registers c w =
      let rest = dump_from rounds registers (next_register c) w in
      let reg = entry registers c.session.register_index in
      if is_channel_register_for_unavailable_channel c.device.config reg
      then rest
      else dump_register registers c w

  unfoldable pub advance_dump_session : Cli → W → Cli × W
  advance_dump_session c w =
      let registers = if is_dump_all c.session.kind then all_registers else config_registers in
      dump_from (size registers - c.session.register_index) registers c w

  -- A reading against the expectation of its register.
  unfoldable pub verify_register : Bool → ℕ → ℕ → ℕ → Cli → W → Cli × W
  verify_register self_test reg expected mask c w =
      let r = read_register16 platform.bus reg c.device w in
      let read = next_register (record c { device = r.driver }) in
      let t = record (c.session.stats) { completed = next32 c.session.stats.completed } in
      let skipped = record_session_failure r.status (record t { skipped = next32 t.skipped }) in
      let unread = if self_test then failed_with r.status t else skipped in
      let match = bit_and r.out mask == bit_and expected mask in
      if is_ok r.status
      then (with_stats (compared match reg t) read, r.world)
      else (with_stats unread read, r.world)

  -- The end of the table.
  unfoldable pub verify_end : Bool → Cli → W → Cli
  verify_end self_test c w =
      let s = c.session in
      if self_test
      then record c { session = record s { phase = SessionPhase.self_acquire } }
      else if s.stats.failed == 0 && s.stats.skipped == 0
      then finish_session platform ok_status Outcome.success c w
      else finish_session platform s.stats.last_failure Outcome.failed c w

  -- The loop, with the entries left.
  unfoldable pub verify_from : Bool → ℕ → Cli → W → Cli × W
  verify_from self_test zero c w = (verify_end self_test c w, w)
  verify_from self_test (suc rounds) c w =
      let reg = entry config_registers c.session.register_index in
      let e = expected_configuration_register c.device.config reg in
      let rest = verify_from self_test rounds (next_register c) w in
      if is_invalid_param e.0.code
      then rest
      else if not (is_ok e.0)
      then (
        finish_session platform e.0 Outcome.failed (with_stats (failed_with e.0 c.session.stats) c)
            w,
        w,
      )
      else verify_register self_test reg e.1 e.2 c w

  unfoldable pub advance_verify_session : Bool → Cli → W → Cli × W
  advance_verify_session self_test c w =
      verify_from self_test (size config_registers - c.session.register_index) c w
