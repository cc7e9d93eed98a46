-- ===== src/Cli/Resolve.antt =====
-- examples/common/Ldc1614Cli.cpp: the command of a token, and the commands that may run beside a job.
use ldc.Base.{arith, ℕ, ◌≡◌, Bool, true, false, ◌||◌, if◌then◌else◌, List, [], ◌∷◌, ◌++◌}
use ldc.Cli.{CommandId, ExecutionKind}
use ldc.Cli.Text.{codes, same_text, alias_matches, alias_scan}
use ldc.Cli.Table.{CommandSpec}
use ldc.Cli.Table.Common.{common_specs}
use ldc.Cli.Table.Lifecycle.{lifecycle_specs}
use ldc.Cli.Table.Measurements.{measurements_specs}
use ldc.Cli.Table.Configuration.{configuration_specs}
use ldc.Cli.Table.Registers.{registers_and_helpers_specs}
use ldc.Cli.Table.Diagnostics.{diagnostics_specs}

abbrev pub command_specs : List CommandSpec
command_specs =
    common_specs ++ lifecycle_specs ++ measurements_specs ++ configuration_specs
    ++ registers_and_helpers_specs ++ diagnostics_specs

-- The loop over the rows that are left.
unfoldable pub resolve_from : List CommandSpec → List ℕ → CommandId
resolve_from [] token = CommandId.unknown
resolve_from (s ∷ specs) token =
    let rest = resolve_from specs token in
    if same_text (codes s.name) token || alias_matches (codes s.aliases) token then s.id else rest

unfoldable pub resolve_command : List ℕ → CommandId
resolve_command token = resolve_from command_specs token

unfoldable pub command_allowed_while_busy : CommandId → Bool
command_allowed_while_busy CommandId.help = true
command_allowed_while_busy CommandId.version = true
command_allowed_while_busy CommandId.color = true
command_allowed_while_busy CommandId.verbose = true
command_allowed_while_busy CommandId.bus = true
command_allowed_while_busy CommandId.diag = true
command_allowed_while_busy CommandId.job = true
command_allowed_while_busy CommandId.driver = true
command_allowed_while_busy CommandId.state = true
command_allowed_while_busy CommandId.result = true
command_allowed_while_busy CommandId.last = true
command_allowed_while_busy CommandId.cancel = true
command_allowed_while_busy _ = false

-- What holds of every row.
abbrev pub All : (CommandSpec → Type 0) → List CommandSpec → Type 0
All P [] = Unit {0}
All P (s ∷ specs) = P s × All P specs

abbrev pub alias_or_name : List ℕ → List ℕ → List ℕ
alias_or_name [] name = name
alias_or_name (c ∷ cs) name = c ∷ cs

-- The row is found by its name and, where it has one, by its alias.
abbrev pub Resolves : CommandSpec → Type 0
Resolves s =
    (resolve_command (codes s.name) ≡ s.id)
    × (resolve_command (alias_or_name (codes s.aliases) (codes s.name)) ≡ s.id)

abbrev pub KeepsCache : CommandSpec → Type 0
KeepsCache s =
    (if command_allowed_while_busy s.id then s.execution else ExecutionKind.cache_only)
    ≡ ExecutionKind.cache_only

-- Every command resolves by its name, and by its alias: no row before it takes either.
pub specs-resolve : All Resolves command_specs
unfolding resolve_command resolve_from same_text alias_matches alias_scan
specs-resolve = ground arith

-- A command that may run beside a job is one that the table marks as answered from the cache.
pub busy_commands : All KeepsCache command_specs
unfolding command_allowed_while_busy
busy_commands = ground arith
