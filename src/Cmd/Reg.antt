-- ===== src/Cmd/Reg.antt =====
-- include/LDC1614/CommandTable.h: the addresses of the 16-bit registers.
use ldc.Base.{ℕ}

abbrev pub data0_msb : ℕ
data0_msb = 0x00

abbrev pub data0_lsb : ℕ
data0_lsb = 0x01

abbrev pub data1_msb : ℕ
data1_msb = 0x02

abbrev pub data1_lsb : ℕ
data1_lsb = 0x03

abbrev pub data2_msb : ℕ
data2_msb = 0x04

abbrev pub data2_lsb : ℕ
data2_lsb = 0x05

abbrev pub data3_msb : ℕ
data3_msb = 0x06

abbrev pub data3_lsb : ℕ
data3_lsb = 0x07

abbrev pub rcount0 : ℕ
rcount0 = 0x08

abbrev pub rcount1 : ℕ
rcount1 = 0x09

abbrev pub rcount2 : ℕ
rcount2 = 0x0A

abbrev pub rcount3 : ℕ
rcount3 = 0x0B

abbrev pub offset0 : ℕ
offset0 = 0x0C

abbrev pub offset1 : ℕ
offset1 = 0x0D

abbrev pub offset2 : ℕ
offset2 = 0x0E

abbrev pub offset3 : ℕ
offset3 = 0x0F

abbrev pub settlecount0 : ℕ
settlecount0 = 0x10

abbrev pub settlecount1 : ℕ
settlecount1 = 0x11

abbrev pub settlecount2 : ℕ
settlecount2 = 0x12

abbrev pub settlecount3 : ℕ
settlecount3 = 0x13

abbrev pub clock_dividers0 : ℕ
clock_dividers0 = 0x14

abbrev pub clock_dividers1 : ℕ
clock_dividers1 = 0x15

abbrev pub clock_dividers2 : ℕ
clock_dividers2 = 0x16

abbrev pub clock_dividers3 : ℕ
clock_dividers3 = 0x17

abbrev pub status : ℕ
status = 0x18

abbrev pub error_config : ℕ
error_config = 0x19

abbrev pub config : ℕ
config = 0x1A

abbrev pub mux_config : ℕ
mux_config = 0x1B

abbrev pub reset_dev : ℕ
reset_dev = 0x1C

abbrev pub drive_current0 : ℕ
drive_current0 = 0x1E

abbrev pub drive_current1 : ℕ
drive_current1 = 0x1F

abbrev pub drive_current2 : ℕ
drive_current2 = 0x20

abbrev pub drive_current3 : ℕ
drive_current3 = 0x21

abbrev pub manufacturer_id : ℕ
manufacturer_id = 0x7E

abbrev pub device_id : ℕ
device_id = 0x7F
