-- ===== src/Cmd/Mask.antt =====
-- include/LDC1614/CommandTable.h: the masks of the register fields.
use ldc.Base.{ℕ}

abbrev pub data_err_ur : ℕ
data_err_ur = 0x8000

abbrev pub data_err_or : ℕ
data_err_or = 0x4000

abbrev pub data_err_wd : ℕ
data_err_wd = 0x2000

abbrev pub data_err_ae : ℕ
data_err_ae = 0x1000

abbrev pub data_msb_data : ℕ
data_msb_data = 0x0FFF

abbrev pub fref_divider : ℕ
fref_divider = 0x03FF

abbrev pub status_err_chan : ℕ
status_err_chan = 0xC000

abbrev pub status_err_ur : ℕ
status_err_ur = 0x2000

abbrev pub status_err_or : ℕ
status_err_or = 0x1000

abbrev pub status_err_wd : ℕ
status_err_wd = 0x0800

abbrev pub status_err_ahe : ℕ
status_err_ahe = 0x0400

abbrev pub status_err_ale : ℕ
status_err_ale = 0x0200

abbrev pub status_err_zc : ℕ
status_err_zc = 0x0100

abbrev pub status_drdy : ℕ
status_drdy = 0x0040

abbrev pub status_unreadconv0 : ℕ
status_unreadconv0 = 0x0008

abbrev pub status_unreadconv1 : ℕ
status_unreadconv1 = 0x0004

abbrev pub status_unreadconv2 : ℕ
status_unreadconv2 = 0x0002

abbrev pub status_unreadconv3 : ℕ
status_unreadconv3 = 0x0001

abbrev pub errcfg_ur_err2out : ℕ
errcfg_ur_err2out = 0x8000

abbrev pub errcfg_or_err2out : ℕ
errcfg_or_err2out = 0x4000

abbrev pub errcfg_wd_err2out : ℕ
errcfg_wd_err2out = 0x2000

abbrev pub errcfg_ah_err2out : ℕ
errcfg_ah_err2out = 0x1000

abbrev pub errcfg_al_err2out : ℕ
errcfg_al_err2out = 0x0800

abbrev pub errcfg_ur_err2int : ℕ
errcfg_ur_err2int = 0x0080

abbrev pub errcfg_or_err2int : ℕ
errcfg_or_err2int = 0x0040

abbrev pub errcfg_wd_err2int : ℕ
errcfg_wd_err2int = 0x0020

abbrev pub errcfg_ah_err2int : ℕ
errcfg_ah_err2int = 0x0010

abbrev pub errcfg_al_err2int : ℕ
errcfg_al_err2int = 0x0008

abbrev pub errcfg_zc_err2int : ℕ
errcfg_zc_err2int = 0x0004

abbrev pub errcfg_drdy_2int : ℕ
errcfg_drdy_2int = 0x0001

abbrev pub cfg_active_chan : ℕ
cfg_active_chan = 0xC000

abbrev pub cfg_sleep_mode_en : ℕ
cfg_sleep_mode_en = 0x2000

abbrev pub cfg_rp_override_en : ℕ
cfg_rp_override_en = 0x1000

abbrev pub cfg_sensor_activate_sel : ℕ
cfg_sensor_activate_sel = 0x0800

abbrev pub cfg_auto_amp_dis : ℕ
cfg_auto_amp_dis = 0x0400

abbrev pub cfg_ref_clk_src : ℕ
cfg_ref_clk_src = 0x0200

abbrev pub cfg_intb_dis : ℕ
cfg_intb_dis = 0x0080

abbrev pub cfg_high_current_drv : ℕ
cfg_high_current_drv = 0x0040

abbrev pub mux_autoscan_en : ℕ
mux_autoscan_en = 0x8000

abbrev pub mux_rr_sequence : ℕ
mux_rr_sequence = 0x6000

abbrev pub mux_deglitch : ℕ
mux_deglitch = 0x0007

abbrev pub reset_dev : ℕ
reset_dev = 0x8000

abbrev pub init_idrive : ℕ
init_idrive = 0x07C0
