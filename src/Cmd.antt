-- ===== src/Cmd.antt =====
-- include/LDC1614/CommandTable.h: identity values, limits, and the per-channel register addresses.
pub mod Reg
pub mod Mask
pub mod Shift
use ldc.Base.{ℕ, ◌+◌, ◌*◌, u8}

abbrev pub manufacturer_id_value : ℕ
manufacturer_id_value = 0x5449

abbrev pub device_id_value : ℕ
device_id_value = 0x3055

abbrev pub config_reserved_value : ℕ
config_reserved_value = 0x0001

abbrev pub mux_config_reserved_value : ℕ
mux_config_reserved_value = 0x0208

abbrev pub rcount_min : ℕ
rcount_min = 0x0005

abbrev pub conversion_rcount_min : ℕ
conversion_rcount_min = 0x0009

abbrev pub conversion_settle_min : ℕ
conversion_settle_min = 0x0004

abbrev pub fin_divider_min : ℕ
fin_divider_min = 1

abbrev pub fin_divider_max : ℕ
fin_divider_max = 15

abbrev pub fref_divider_min : ℕ
fref_divider_min = 1

abbrev pub fref_divider_max : ℕ
fref_divider_max = 0x03FF

abbrev pub idrive_max : ℕ
idrive_max = 31

abbrev pub max_channels : ℕ
max_channels = 4

-- The register of a channel, in the arithmetic of uint8_t.
abbrev pub reg_data_msb : ℕ → ℕ
reg_data_msb ch = u8 (Reg.data0_msb + ch * 2)

abbrev pub reg_data_lsb : ℕ → ℕ
reg_data_lsb ch = u8 (Reg.data0_lsb + ch * 2)

abbrev pub reg_rcount : ℕ → ℕ
reg_rcount ch = u8 (Reg.rcount0 + ch)

abbrev pub reg_offset : ℕ → ℕ
reg_offset ch = u8 (Reg.offset0 + ch)

abbrev pub reg_settle_count : ℕ → ℕ
reg_settle_count ch = u8 (Reg.settlecount0 + ch)

abbrev pub reg_clock_dividers : ℕ → ℕ
reg_clock_dividers ch = u8 (Reg.clock_dividers0 + ch)

abbrev pub reg_drive_current : ℕ → ℕ
reg_drive_current ch = u8 (Reg.drive_current0 + ch)
