-- ===== src/Cli/Table/Measurements.antt =====
-- examples/common/Ldc1614Cli.cpp, the rows of COMMAND_SPECS in the section MEASUREMENTS.
use ldc.Base.{List, [], ◌∷◌}
use ldc.Cli.{CommandId, HelpSection, CommandSafety, ExecutionKind, FixtureRequirement}
use ldc.Cli.Table.{CommandSpec, spec}

abbrev pub measurements_specs : List CommandSpec
measurements_specs =
    spec CommandId.read "read" "acquire" "read / acquire [mask]"
      "Acquire one sequential readout batch" HelpSection.measurements CommandSafety.safe
      ExecutionKind.core_job FixtureRequirement.no_sensor_ok
      "command session mask outcome code selected valid fresh error overrun revision completed_ms status_before status_after"
    ∷ spec CommandId.last "last" "" "last [channel]" "Show the cached complete sample batch"
        HelpSection.measurements CommandSafety.safe ExecutionKind.cache_only
        FixtureRequirement.sensor_required "channel raw quality msb lsb"
    ∷ spec CommandId.watch "watch" "" "watch <mask> <count> [ms]"
        "Cooperatively print bounded periodic batches" HelpSection.measurements CommandSafety.safe
        ExecutionKind.cli_job FixtureRequirement.sensor_required
        "command session requested completed failed elapsed_ms outcome code"
    ∷ spec CommandId.sample_rate "samplerate" "" "samplerate <channel> <count>"
        "Measure cooperative acquisition throughput" HelpSection.measurements CommandSafety.safe
        ExecutionKind.cli_job FixtureRequirement.sensor_required
        "command session requested ok fail elapsed_ms hz outcome code"
    ∷ spec CommandId.ready "ready" "drdy" "ready / drdy" "Read readiness and retain STATUS evidence"
        HelpSection.measurements CommandSafety.safe ExecutionKind.one_transfer
        FixtureRequirement.no_sensor_ok "ready code"
    ∷ spec CommandId.status "status" "" "status" "Read and decode destructive STATUS evidence"
        HelpSection.measurements CommandSafety.safe ExecutionKind.one_transfer
        FixtureRequirement.no_sensor_ok "observed raw drdy unread err_ch ur or wd ah al zc code"
    ∷ spec CommandId.status_raw "status_raw" "" "status_raw" "Read destructive STATUS as a raw word"
        HelpSection.measurements CommandSafety.safe ExecutionKind.one_transfer
        FixtureRequirement.no_sensor_ok "raw code"
    ∷ spec CommandId.intb "intb" "" "intb" "Observe optional application-owned INTB"
        HelpSection.measurements CommandSafety.safe ExecutionKind.pure FixtureRequirement.intb_wired
        "asserted code"
    ∷ spec CommandId.init_drive "initdrive" "" "initdrive <channel>"
        "Read INIT_IDRIVE and nominal current" HelpSection.measurements CommandSafety.safe
        ExecutionKind.one_transfer FixtureRequirement.drive_tuning "channel init_drive_code code"
    ∷ []
