-- ===== src/Cli/Access.antt =====
-- examples/common/Ldc1614Cli.cpp: the names of registers and what may be done with them.
use ldc.Base.{ℕ, ◌-◌, ◌≡◌, Bool, true, false, ◌&&◌, ◌||◌, not, ◌==◌, leb, if◌then◌else◌, arith}
use ldc.Cmd.Reg
use ldc.Registers.{is_valid_register_address}

-- A register name: the family and its index, or the name of a single register.
pub data RegisterName : Type 0 where
  data_name rcount_name offset_name settle_name divider_name drive_name : ℕ → RegisterName
  status_name error_config_name config_name mux_config_name reset_dev_name : RegisterName
  manufacturer_id_name device_id_name unmapped_name : RegisterName

unfoldable pub is_destructive_register : ℕ → Bool
is_destructive_register reg = leb reg Reg.data3_lsb || reg == Reg.status

abbrev within : ℕ → ℕ → ℕ → Bool
within low high reg = leb low reg && leb reg high

-- The switch over the registers that belong to no family.
unfoldable pub single_name : ℕ → RegisterName
single_name reg =
    if reg == Reg.status
    then RegisterName.status_name
    else if reg == Reg.error_config
    then RegisterName.error_config_name
    else if reg == Reg.config
    then RegisterName.config_name
    else if reg == Reg.mux_config
    then RegisterName.mux_config_name
    else if reg == Reg.reset_dev
    then RegisterName.reset_dev_name
    else if reg == Reg.manufacturer_id
    then RegisterName.manufacturer_id_name
    else if reg == Reg.device_id
    then RegisterName.device_id_name
    else RegisterName.unmapped_name

unfoldable pub register_name : ℕ → RegisterName
register_name reg =
    if leb reg Reg.data3_lsb
    then RegisterName.data_name reg
    else if within Reg.rcount0 Reg.rcount3 reg
    then RegisterName.rcount_name (reg - Reg.rcount0)
    else if within Reg.offset0 Reg.offset3 reg
    then RegisterName.offset_name (reg - Reg.offset0)
    else if within Reg.settlecount0 Reg.settlecount3 reg
    then RegisterName.settle_name (reg - Reg.settlecount0)
    else if within Reg.clock_dividers0 Reg.clock_dividers3 reg
    then RegisterName.divider_name (reg - Reg.clock_dividers0)
    else if within Reg.drive_current0 Reg.drive_current3 reg
    then RegisterName.drive_name (reg - Reg.drive_current0)
    else single_name reg

abbrev pub is_unmapped : RegisterName → Bool
is_unmapped RegisterName.unmapped_name = true
is_unmapped _ = false

-- "R", "RW" and "-".
pub data Access : Type 0 where
  read_only read_write unavailable : Access

unfoldable pub register_access : ℕ → Access
register_access reg =
    if leb reg Reg.data3_lsb
      || reg == Reg.status
      || reg == Reg.manufacturer_id
      || reg == Reg.device_id
    then Access.read_only
    else if is_unmapped (register_name reg)
    then Access.unavailable
    else Access.read_write

abbrev pub is_unavailable : Access → Bool
is_unavailable Access.unavailable = true
is_unavailable _ = false

-- The command line knows exactly the registers that the driver accepts: the access of an address is
-- "-" if and only if it is not valid for the driver.
pub register_access-valid :
    (reg : ℕ) → is_unavailable (register_access reg) ≡ not (is_valid_register_address reg)
unfolding register_access register_name single_name is_valid_register_address
register_access-valid reg = ground arith
