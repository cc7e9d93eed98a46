-- ===== src/Cli/Table/Diagnostics.antt =====
-- examples/common/Ldc1614Cli.cpp, the rows of COMMAND_SPECS in the section DIAGNOSTICS.
use ldc.Base.{List, [], ◌∷◌}
use ldc.Cli.{CommandId, HelpSection, CommandSafety, ExecutionKind, FixtureRequirement}
use ldc.Cli.Table.{CommandSpec, spec}

abbrev pub diagnostics_specs : List CommandSpec
diagnostics_specs =
    spec CommandId.driver "drv" "health" "drv / health"
      "Show driver, transport, and fault provenance" HelpSection.diagnostics CommandSafety.safe
      ExecutionKind.cache_only FixtureRequirement.any
      "bound applied revision active result_available attempts success failures last_code"
    ∷ spec CommandId.state "state" "" "state" "Show compact parseable driver state"
        HelpSection.diagnostics CommandSafety.safe ExecutionKind.cache_only FixtureRequirement.any
        "bound applied profile_dirty session_kind active pending_result"
    ∷ spec CommandId.diag "diag" "" "diag" "Show a bus-silent consolidated diagnostic snapshot"
        HelpSection.diagnostics CommandSafety.safe ExecutionKind.cache_only FixtureRequirement.any
        "platform target frequency_hz bound applied revision profile_dirty active pending_result attempts success failures last_code outcome code"
    ∷ spec CommandId.xfer "xfer" ""
        "xfer stats|reset\nxfer assert <write> <write_read> <discover> <total>"
        "Inspect or baseline owner transport attempts" HelpSection.diagnostics CommandSafety.safe
        ExecutionKind.cache_only FixtureRequirement.any
        "write write_read discover total failures last_code expected actual outcome code"
    ∷ spec CommandId.selftest "selftest" "" "selftest" "Run full cooperative safe self-test"
        HelpSection.diagnostics CommandSafety.safe ExecutionKind.cli_job
        FixtureRequirement.no_sensor_ok
        "command session identity config status helpers pass fail skip outcome code"
    ∷ spec CommandId.stress "stress" "" "stress <count> [mask]" "Stress cooperative acquisitions"
        HelpSection.diagnostics CommandSafety.safe ExecutionKind.cli_job
        FixtureRequirement.no_sensor_ok
        "command session requested ok fail elapsed_ms hz outcome code"
    ∷ spec CommandId.stress_mix "stress_mix" "" "stress_mix <n> [mask] confirm"
        "Stress mixed STATUS/INTB/IDRIVE/acquisition paths" HelpSection.diagnostics
        CommandSafety.confirm_destructive_read ExecutionKind.cli_job FixtureRequirement.no_sensor_ok
        "command session requested ok fail elapsed_ms outcome code"
    ∷ spec CommandId.stress_id "stress_id" "" "stress_id <count>"
        "Stress protocol-complete identity reads" HelpSection.diagnostics CommandSafety.safe
        ExecutionKind.cli_job FixtureRequirement.no_sensor_ok
        "command session requested completed ok fail first_failure_iteration elapsed_ms hz outcome code"
    ∷ spec CommandId.stress_reset "stress_reset" "" "stress_reset <count> confirm"
        "Stress full software-reset and replay jobs" HelpSection.diagnostics
        CommandSafety.confirm_mutation ExecutionKind.cli_job FixtureRequirement.no_sensor_ok
        "command session requested completed ok fail first_failure_iteration elapsed_ms outcome code"
    ∷ spec CommandId.stress_bus_freq "stress_busfreq" "" "stress_busfreq <count> confirm"
        "Alternate 100/400 kHz with full initialization" HelpSection.diagnostics
        CommandSafety.confirm_mutation ExecutionKind.cli_job FixtureRequirement.no_sensor_ok
        "command session requested completed ok fail initial_hz active_hz restored_hz restore_code first_failure_iteration elapsed_ms outcome code"
    ∷ spec CommandId.soak "soak" "" "soak <seconds> [mask]" "Run bounded periodic acquisition soak"
        HelpSection.diagnostics CommandSafety.safe ExecutionKind.cli_job
        FixtureRequirement.no_sensor_ok
        "command session seconds cycles ok fail elapsed_ms outcome code"
    ∷ spec CommandId.sd "sd" "" "sd status|assert|release confirm"
        "Use optional application-owned shutdown pin" HelpSection.diagnostics
        CommandSafety.confirm_mutation ExecutionKind.lifecycle FixtureRequirement.sd_wired
        "state outcome code"
    ∷ []
