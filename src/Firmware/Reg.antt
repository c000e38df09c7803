-- ===== src/Firmware/Reg.antt =====
-- Addresses of registers and tables (ccl_offload_control.h).
use accl.Base.{ℕ}

abbrev pub rx_buffer_count : ℕ
rx_buffer_count = 0x1000

abbrev pub exchmem : ℕ
exchmem = 0x1000

abbrev pub time_to_access_exch_mem : ℕ
time_to_access_exch_mem = 0x1FF4

abbrev pub hwid : ℕ
hwid = 0x1FF8

abbrev pub retval : ℕ
retval = 0x1FFC

abbrev pub end_of_exchmem : ℕ
end_of_exchmem = 0x2000

abbrev pub arith : ℕ
arith = 0x20000

abbrev pub udp_rxpkt : ℕ
udp_rxpkt = 0x30000

abbrev pub udp_txpkt : ℕ
udp_txpkt = 0x40000

abbrev pub tcp_rxpkt : ℕ
tcp_rxpkt = 0x50000

abbrev pub tcp_txpkt : ℕ
tcp_txpkt = 0x60000

abbrev pub main_switch : ℕ
main_switch = 0x44A00000

abbrev pub irqctrl : ℕ
irqctrl = 0x44A10000

abbrev pub timer : ℕ
timer = 0x44A20000

abbrev pub arith_switch : ℕ
arith_switch = 0x44B00000
