-- ===== src/Cli/Table.antt =====
-- examples/common/Ldc1614Cli.cpp, COMMAND_SPECS: one row for each command.
pub mod Common
pub mod Lifecycle
pub mod Measurements
pub mod Configuration
pub mod Registers
pub mod Diagnostics
use Prim.Native.String.{String}
use ldc.Cli.{CommandId, HelpSection, CommandSafety, ExecutionKind, FixtureRequirement}

pub record CommandSpec : Type 0 where
  pub id : CommandId
  pub name : String
  pub aliases : String
  pub synopsis : String
  pub description : String
  pub section : HelpSection
  pub safety : CommandSafety
  pub execution : ExecutionKind
  pub fixture : FixtureRequirement
  pub evidence : String

-- A row, in the order of its columns.
abbrev pub spec :
    CommandId
    → String
    → String
    → String
    → String
    → HelpSection
    → CommandSafety
    → ExecutionKind
    → FixtureRequirement
    → String
    → CommandSpec
spec id name aliases synopsis description section safety execution fixture evidence = record {
  id = id;
  name = name;
  aliases = aliases;
  synopsis = synopsis;
  description = description;
  section = section;
  safety = safety;
  execution = execution;
  fixture = fixture;
  evidence = evidence;
}
