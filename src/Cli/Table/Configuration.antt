-- ===== src/Cli/Table/Configuration.antt =====
-- examples/common/Ldc1614Cli.cpp, the rows of COMMAND_SPECS in the section CONFIGURATION.
use ldc.Base.{List, [], ◌∷◌}
use ldc.Cli.{CommandId, HelpSection, CommandSafety, ExecutionKind, FixtureRequirement}
use ldc.Cli.Table.{CommandSpec, spec}

abbrev pub configuration_specs : List CommandSpec
configuration_specs =
    spec CommandId.cfg "cfg" "settings" "cfg / settings" "Show desired and staged profiles"
      HelpSection.configuration CommandSafety.safe ExecutionKind.cache_only FixtureRequirement.any
      "address variant variant_channels selected mode ref_source ref_hz tolerance_ppm deglitch activation timeout_ms rp_override auto_amplitude high_current intb_config error_reporting revision applied"
    ∷ spec CommandId.profile "profile" ""
        "profile show|reset|discard\nprofile validate\nprofile commit confirm"
        "Manage the bus-silent staged profile" HelpSection.configuration
        CommandSafety.confirm_mutation ExecutionKind.cache_only FixtureRequirement.any
        "dirty valid field channel outcome code"
    ∷ spec CommandId.addr "addr" "" "addr" "Show display-only binding address"
        HelpSection.configuration CommandSafety.build_profile_only ExecutionKind.cache_only
        FixtureRequirement.any "address"
    ∷ spec CommandId.variant "variant" "" "variant" "Show display-only silicon variant"
        HelpSection.configuration CommandSafety.build_profile_only ExecutionKind.cache_only
        FixtureRequirement.any "variant variant_channels"
    ∷ spec CommandId.mode "mode" "" "mode <single ch|seq count>"
        "Stage mode, channel mask, active channel, and RR atomically" HelpSection.configuration
        CommandSafety.safe ExecutionKind.cache_only FixtureRequirement.any "mode channel count"
    ∷ spec CommandId.refclk "refclk" "" "refclk <src> <hz> <ppm>"
        "Stage the explicit reference-clock fact" HelpSection.configuration CommandSafety.safe
        ExecutionKind.cache_only FixtureRequirement.any "source hz ppm"
    ∷ spec CommandId.deglitch "deglitch" "" "deglitch <1|3|10|33>"
        "Stage input deglitch bandwidth in MHz" HelpSection.configuration CommandSafety.safe
        ExecutionKind.cache_only FixtureRequirement.any "mhz"
    ∷ spec CommandId.activation "activation" "" "activation <full|low>"
        "Stage sensor activation current policy" HelpSection.configuration CommandSafety.safe
        ExecutionKind.cache_only FixtureRequirement.any "mode"
    ∷ spec CommandId.timeout "timeout" "" "timeout <ms>" "Stage per-callback timeout"
        HelpSection.configuration CommandSafety.safe ExecutionKind.cache_only FixtureRequirement.any
        "timeout_ms"
    ∷ spec CommandId.rp "rp" "" "rp <0|1>" "Stage RP override" HelpSection.configuration
        CommandSafety.safe ExecutionKind.cache_only FixtureRequirement.any "enabled"
    ∷ spec CommandId.autoamp "autoamp" "" "autoamp <0|1>" "Stage automatic amplitude correction"
        HelpSection.configuration CommandSafety.safe ExecutionKind.cache_only FixtureRequirement.any
        "enabled"
    ∷ spec CommandId.high_current "highcurrent" "" "highcurrent <0|1>"
        "Stage CH0 high-current drive" HelpSection.configuration CommandSafety.safe
        ExecutionKind.cache_only FixtureRequirement.any "enabled"
    ∷ spec CommandId.intb_config "intbconfig" "" "intbconfig <0|1>" "Stage INTB output enable"
        HelpSection.configuration CommandSafety.safe ExecutionKind.cache_only FixtureRequirement.any
        "enabled"
    ∷ spec CommandId.errors "errors" "" "errors [show|all|none]" "Show or stage all error routes"
        HelpSection.configuration CommandSafety.safe ExecutionKind.cache_only FixtureRequirement.any
        "data_under data_over data_watchdog data_amplitude_high data_amplitude_low status_under status_over status_watchdog status_amplitude_high status_amplitude_low status_zero_count data_ready encoded"
    ∷ spec CommandId.error "error" "" "error <field> <0|1>" "Stage one named DATA/STATUS/DRDY route"
        HelpSection.configuration CommandSafety.safe ExecutionKind.cache_only FixtureRequirement.any
        "field enabled"
    ∷ spec CommandId.rcount "rcount" "" "rcount <ch> <value>" "Stage channel RCOUNT"
        HelpSection.configuration CommandSafety.safe ExecutionKind.cache_only FixtureRequirement.any
        "channel value"
    ∷ spec CommandId.settle "settle" "" "settle <ch> <value>" "Stage channel SETTLECOUNT"
        HelpSection.configuration CommandSafety.safe ExecutionKind.cache_only FixtureRequirement.any
        "channel value"
    ∷ spec CommandId.fin_div "findiv" "" "findiv <ch> <value>" "Stage channel FIN divider"
        HelpSection.configuration CommandSafety.safe ExecutionKind.cache_only FixtureRequirement.any
        "channel value"
    ∷ spec CommandId.fref_div "frefdiv" "" "frefdiv <ch> <value>" "Stage channel FREF divider"
        HelpSection.configuration CommandSafety.safe ExecutionKind.cache_only FixtureRequirement.any
        "channel value"
    ∷ spec CommandId.offset "offset" "" "offset <ch> <value>" "Stage channel OFFSET"
        HelpSection.configuration CommandSafety.safe ExecutionKind.cache_only FixtureRequirement.any
        "channel value"
    ∷ spec CommandId.drive "drive" "" "drive <ch> <code>" "Stage channel IDRIVE code"
        HelpSection.configuration CommandSafety.safe ExecutionKind.cache_only
        FixtureRequirement.drive_tuning "channel code"
    ∷ spec CommandId.sensor_bounds "sensorbounds" "" "sensorbounds <ch> <lo> <hi>"
        "Stage expected channel sensor-frequency bounds" HelpSection.configuration
        CommandSafety.safe ExecutionKind.cache_only FixtureRequirement.sensor_required
        "channel low_hz high_hz"
    ∷ []
