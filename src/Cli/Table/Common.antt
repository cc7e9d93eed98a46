-- ===== src/Cli/Table/Common.antt =====
-- examples/common/Ldc1614Cli.cpp, the rows of COMMAND_SPECS in the section COMMON.
use ldc.Base.{List, [], ◌∷◌}
use ldc.Cli.{CommandId, HelpSection, CommandSafety, ExecutionKind, FixtureRequirement}
use ldc.Cli.Table.{CommandSpec, spec}

abbrev pub common_specs : List CommandSpec
common_specs =
    spec CommandId.help "help" "?" "help / ? [command]" "Show the complete command reference"
      HelpSection.common CommandSafety.safe ExecutionKind.cache_only FixtureRequirement.any
      "command_count"
    ∷ spec CommandId.version "version" "ver" "version / ver" "Show library and firmware identity"
        HelpSection.common CommandSafety.safe ExecutionKind.cache_only FixtureRequirement.any
        "version firmware_git firmware_status build_timestamp"
    ∷ spec CommandId.color "color" "" "color [on|off]" "Show or change ANSI colors"
        HelpSection.common CommandSafety.safe ExecutionKind.cache_only FixtureRequirement.any
        "enabled"
    ∷ spec CommandId.verbose "verbose" "" "verbose [0|1]" "Show or change per-step diagnostics"
        HelpSection.common CommandSafety.safe ExecutionKind.cache_only FixtureRequirement.any
        "enabled"
    ∷ spec CommandId.bus "bus" "i2c" "bus / i2c" "Show owner bus, pins, levels, address, and speed"
        HelpSection.common CommandSafety.safe ExecutionKind.cache_only FixtureRequirement.any
        "open backend port sda scl sda_level scl_level address frequency_hz timeout_ms"
    ∷ []
