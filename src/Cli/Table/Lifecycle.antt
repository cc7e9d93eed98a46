-- ===== src/Cli/Table/Lifecycle.antt =====
-- examples/common/Ldc1614Cli.cpp, the rows of COMMAND_SPECS in the section LIFECYCLE.
use ldc.Base.{List, [], ◌∷◌}
use ldc.Cli.{CommandId, HelpSection, CommandSafety, ExecutionKind, FixtureRequirement}
use ldc.Cli.Table.{CommandSpec, spec}

abbrev pub lifecycle_specs : List CommandSpec
lifecycle_specs =
    spec CommandId.bind "bind" "" "bind" "Bind the platform default profile (zero I2C)"
      HelpSection.lifecycle CommandSafety.safe ExecutionKind.cache_only FixtureRequirement.any
      "command outcome code detail msg"
    ∷ spec CommandId.end "end" "" "end" "Bus-silent cancel, discard results, and unbind"
        HelpSection.lifecycle CommandSafety.safe ExecutionKind.lifecycle FixtureRequirement.any
        "command outcome code"
    ∷ spec CommandId.init "init" "" "init [deadline_ms]"
        "Verify identity and replay the full profile" HelpSection.lifecycle CommandSafety.safe
        ExecutionKind.core_job FixtureRequirement.any "command session deadline_ms outcome code"
    ∷ spec CommandId.apply "apply" "" "apply [deadline_ms]" "Replay the committed desired profile"
        HelpSection.lifecycle CommandSafety.safe ExecutionKind.core_job FixtureRequirement.any
        "command session deadline_ms outcome code"
    ∷ spec CommandId.reset_reapply "resetreapply" "" "resetreapply [ms] confirm"
        "Software-reset, verify identity, and replay" HelpSection.lifecycle
        CommandSafety.confirm_mutation ExecutionKind.core_job FixtureRequirement.any
        "command session deadline_ms outcome code"
    ∷ spec CommandId.sleep "sleep" "" "sleep" "Enter sleep with one bounded write"
        HelpSection.lifecycle CommandSafety.safe ExecutionKind.one_transfer FixtureRequirement.any
        "command outcome code"
    ∷ spec CommandId.wake "wake" "" "wake" "Leave sleep with one bounded write"
        HelpSection.lifecycle CommandSafety.safe ExecutionKind.one_transfer FixtureRequirement.any
        "command outcome code"
    ∷ spec CommandId.cancel "cancel" "stop" "cancel / stop" "Bus-silently cancel active CLI work"
        HelpSection.lifecycle CommandSafety.safe ExecutionKind.cache_only FixtureRequirement.any
        "command outcome code session"
    ∷ spec CommandId.job "job" "progress" "job / progress" "Show core job and CLI session progress"
        HelpSection.lifecycle CommandSafety.safe ExecutionKind.cache_only FixtureRequirement.any
        "active session kind phase transfers maximum requested completed deadline_ms"
    ∷ spec CommandId.result "result" "" "result" "Show the cached terminal operation"
        HelpSection.lifecycle CommandSafety.safe ExecutionKind.cache_only FixtureRequirement.any
        "command session kind outcome effects revision phase reg channel transfers maximum code detail msg"
    ∷ spec CommandId.invalidate "invalidate" "" "invalidate confirm"
        "Bus-silently mark applied hardware state unknown" HelpSection.lifecycle
        CommandSafety.confirm_mutation ExecutionKind.cache_only FixtureRequirement.any
        "command outcome code"
    ∷ spec CommandId.bus_recover "busrecover" "" "busrecover confirm"
        "Rebuild owner bus/device, then require init" HelpSection.lifecycle
        CommandSafety.confirm_mutation ExecutionKind.owner_bus FixtureRequirement.any
        "command outcome code"
    ∷ spec CommandId.bus_freq "busfreq" "i2cfreq" "busfreq / i2cfreq [hz confirm]"
        "Show or replace the owner device-handle speed" HelpSection.lifecycle
        CommandSafety.confirm_mutation ExecutionKind.owner_bus FixtureRequirement.any
        "previous_hz requested_hz active_hz reinitialized outcome code"
    ∷ []
