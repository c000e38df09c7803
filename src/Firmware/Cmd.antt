-- ===== src/Firmware/Cmd.antt =====
-- Streams to the other blocks (ccl_offload_control.h, CMD_*).
use accl.Base.{ℕ}

abbrev pub dma0_tx : ℕ
dma0_tx = 0

abbrev pub dma0_rx : ℕ
dma0_rx = 1

abbrev pub dma1_tx : ℕ
dma1_tx = 2

abbrev pub dma1_rx : ℕ
dma1_rx = 3

abbrev pub dma2_tx : ℕ
dma2_tx = 4

abbrev pub dma2_rx : ℕ
dma2_rx = 5

abbrev pub udp_tx : ℕ
udp_tx = 6

abbrev pub tcp_port : ℕ
tcp_port = 7

abbrev pub tcp_con : ℕ
tcp_con = 8

abbrev pub tcp_tx : ℕ
tcp_tx = 9

abbrev pub host : ℕ
host = 10
