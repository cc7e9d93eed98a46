-- ===== src/Cmd/Shift.antt =====
-- include/LDC1614/CommandTable.h: the positions of the register fields.
use ldc.Base.{ℕ}

abbrev pub fin_divider : ℕ
fin_divider = 12

abbrev pub status_err_chan : ℕ
status_err_chan = 14

abbrev pub cfg_active_chan : ℕ
cfg_active_chan = 14

abbrev pub mux_rr_sequence : ℕ
mux_rr_sequence = 13

abbrev pub idrive : ℕ
idrive = 11

abbrev pub init_idrive : ℕ
init_idrive = 6
