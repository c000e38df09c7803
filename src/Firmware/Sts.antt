-- ===== src/Firmware/Sts.antt =====
-- Streams from the other blocks (ccl_offload_control.h, STS_*).
use accl.Base.{ℕ}

abbrev pub dma0_rx : ℕ
dma0_rx = 0

abbrev pub dma0_tx : ℕ
dma0_tx = 1

abbrev pub dma1_rx : ℕ
dma1_rx = 2

abbrev pub dma1_tx : ℕ
dma1_tx = 3

abbrev pub dma2_rx : ℕ
dma2_rx = 4

abbrev pub dma2_tx : ℕ
dma2_tx = 5

abbrev pub udp_rx : ℕ
udp_rx = 6

abbrev pub tcp_port : ℕ
tcp_port = 7

abbrev pub tcp_con : ℕ
tcp_con = 8

abbrev pub tcp_rx : ℕ
tcp_rx = 9

abbrev pub host : ℕ
host = 10

abbrev pub tcp_pkt : ℕ
tcp_pkt = 11

abbrev pub udp_pkt : ℕ
udp_pkt = 12
