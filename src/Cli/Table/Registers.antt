-- ===== src/Cli/Table/Registers.antt =====
-- examples/common/Ldc1614Cli.cpp, the rows of COMMAND_SPECS in the section REGISTERS_AND_HELPERS.
use ldc.Base.{List, [], ◌∷◌}
use ldc.Cli.{CommandId, HelpSection, CommandSafety, ExecutionKind, FixtureRequirement}
use ldc.Cli.Table.{CommandSpec, spec}

abbrev pub registers_and_helpers_specs : List CommandSpec
registers_and_helpers_specs =
    spec CommandId.probe "probe" "id" "probe / id" "Cooperatively read and verify both IDs"
      HelpSection.registers_and_helpers CommandSafety.safe ExecutionKind.cli_job
      FixtureRequirement.no_sensor_ok "manufacturer_id device_id match code"
    ∷ spec CommandId.discover "discover" "scan" "discover / scan"
        "Protocol-qualify LDC identity at 0x2A and 0x2B" HelpSection.registers_and_helpers
        CommandSafety.safe ExecutionKind.cli_job FixtureRequirement.no_sensor_ok
        "address strap manufacturer_id device_id match tested responding matched mismatched failed code"
    ∷ spec CommandId.dump "dump" "" "dump config\ndump all confirm"
        "Cooperatively dump mapped registers" HelpSection.registers_and_helpers
        CommandSafety.confirm_destructive_read ExecutionKind.cli_job FixtureRequirement.no_sensor_ok
        "scope register value count code"
    ∷ spec CommandId.verify "verify" "" "verify" "Compare every persistent register to desired"
        HelpSection.registers_and_helpers CommandSafety.safe ExecutionKind.cli_job
        FixtureRequirement.no_sensor_ok "checked matched mismatched read_failures outcome code"
    ∷ spec CommandId.reg "reg" "rreg" "reg / rreg <addr> [confirm]"
        "Read one mapped register; DATA/STATUS require confirm" HelpSection.registers_and_helpers
        CommandSafety.confirm_destructive_read ExecutionKind.one_transfer
        FixtureRequirement.no_sensor_ok "register value code"
    ∷ spec CommandId.wreg "wreg" "" "wreg <addr> <value> confirm"
        "Write one mapped writable register and invalidate trust" HelpSection.registers_and_helpers
        CommandSafety.confirm_mutation ExecutionKind.one_transfer FixtureRequirement.no_sensor_ok
        "register value code"
    ∷ spec CommandId.decode "decode" "" "decode status <raw16>\ndecode data <msb> <lsb>"
        "Run pure STATUS or DATA decoding" HelpSection.registers_and_helpers CommandSafety.safe
        ExecutionKind.pure FixtureRequirement.any
        "kind raw drdy unread err_ch ur or wd ah al zc count quality"
    ∷ spec CommandId.freq "freq" ""
        "freq <channel> <raw28>\nfreq <desired|staged> <channel> <raw28>"
        "Calculate sensor frequency" HelpSection.registers_and_helpers CommandSafety.safe
        ExecutionKind.pure FixtureRequirement.any "profile channel raw frequency_hz code"
    ∷ spec CommandId.timing "timing" "" "timing [mask]\ntiming <desired|staged> [mask]"
        "Estimate conservative chip timing" HelpSection.registers_and_helpers CommandSafety.safe
        ExecutionKind.pure FixtureRequirement.any
        "profile mask wake_settle_us conversion_us sequential_frame_us acquisition_transfers code"
    ∷ spec CommandId.drive_ua "driveua" "" "driveua <code>" "Convert IDRIVE code to nominal uA"
        HelpSection.registers_and_helpers CommandSafety.safe ExecutionKind.pure
        FixtureRequirement.any "code microamps"
    ∷ []
