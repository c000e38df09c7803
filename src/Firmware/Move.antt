-- ===== src/Firmware/Move.antt =====
-- The moves that start here (ccl_offload_control.c): copies, reductions, and sends.
use accl.Base.{ℕ, if◌then◌else◌}
use accl.Firmware.Machine.{M, pure, gets_of, ◌>>=◌, ◌>>◌}
use accl.Firmware.Comm.{World, find_comm}
use accl.Firmware.Dma.{Addresses, dma_movement, dma_movement_single}
use accl.Firmware.Packetizer.{dma_movement_and_packetizer}
use accl.Firmware.Block.{start_arith, wait_arith}
use accl.Firmware.Switch.{
  arith_internal, arith_external, arith_none, dma_loopback, dma_reduction, offchip_tx_udp,
  offchip_tx_tcp, offchip_udp_reduction, offchip_tcp_reduction, dma_ext_loopback, cfg_switch,
}
use accl.Firmware.Receive.{
  use_dma1_rx, use_copy, use_operands, use_reduction, receive_offchip_world,
}

-- The addresses of a transfer, without that of DMA2.
abbrev pub addresses : ℕ → ℕ → ℕ → Addresses
addresses op0 op1 dst = record { dma0_rx = op0; dma1_rx = op1; dma1_tx = dst; dma2_rx = 0 }

unfoldable pub dma_loopback_move : ℕ → ℕ → ℕ → M ℕ
dma_loopback_move len src_addr dst_addr = do
  cfg_switch dma_loopback arith_none
  dma_movement len (addresses 0 src_addr dst_addr) use_copy

unfoldable pub copy : ℕ → ℕ → ℕ → M ℕ
copy len src_addr dst_addr = dma_loopback_move len src_addr dst_addr

unfoldable pub copy_single_dma_transaction : ℕ → ℕ → ℕ → M ℕ
copy_single_dma_transaction len src_addr dst_addr = do
  cfg_switch dma_loopback arith_none
  dma_movement_single len (addresses 0 src_addr dst_addr) use_copy

unfoldable pub reduce_loopback : ℕ → ℕ → ℕ → ℕ → ℕ → M ℕ
reduce_loopback len func op0_addr op1_addr dst_addr = do
  cfg_switch dma_reduction arith_internal
  start_arith len func 0
  ret ← dma_movement len (addresses op0_addr op1_addr dst_addr) use_reduction
  wait_arith
  pure ret

unfoldable pub accumulate : ℕ → ℕ → ℕ → ℕ → ℕ → M ℕ
accumulate len func op1_addr op2_addr dst_addr = reduce_loopback len func op1_addr op2_addr dst_addr

unfoldable pub transmit_offchip_world : World → ℕ → ℕ → ℕ → ℕ → M ℕ
transmit_offchip_world w dst_rank len src_addr dst_tag = do
  tcp ← gets_of (λ m. m.use_tcp)
  cfg_switch (if tcp then offchip_tx_tcp else offchip_tx_udp) arith_none
  dma_movement_and_packetizer w len (addresses 0 src_addr 0) use_dma1_rx dst_rank dst_tag

unfoldable pub transmit_offchip : ℕ → ℕ → ℕ → ℕ → ℕ → M ℕ
transmit_offchip comm dst_rank len src_addr dst_tag = do
  w ← find_comm comm
  transmit_offchip_world w dst_rank len src_addr dst_tag

unfoldable pub reduce_offchip_world : World → ℕ → ℕ → ℕ → ℕ → ℕ → ℕ → M ℕ
reduce_offchip_world w dst_rank len func op0_addr op1_addr dst_tag = do
  tcp ← gets_of (λ m. m.use_tcp)
  cfg_switch (if tcp then offchip_tcp_reduction else offchip_udp_reduction) arith_internal
  start_arith len func 0
  dma_movement_and_packetizer w len (addresses op0_addr op1_addr 0) use_operands dst_rank dst_tag

unfoldable pub reduce_offchip : ℕ → ℕ → ℕ → ℕ → ℕ → ℕ → ℕ → M ℕ
reduce_offchip comm dst_rank len func op0_addr op1_addr dst_tag = do
  w ← find_comm comm
  reduce_offchip_world w dst_rank len func op0_addr op1_addr dst_tag

unfoldable pub send : ℕ → ℕ → ℕ → ℕ → ℕ → M ℕ
send comm len tag dst_rank buf_addr = transmit_offchip comm dst_rank len buf_addr tag

unfoldable pub recv : ℕ → ℕ → ℕ → ℕ → ℕ → M ℕ
recv comm len tag src_rank buf_addr = do
  w ← find_comm comm
  receive_offchip_world w src_rank len buf_addr tag

unfoldable pub ext_kernel_stream : ℕ → ℕ → ℕ → M ℕ
ext_kernel_stream len src_addr dst_addr = do
  cfg_switch dma_ext_loopback arith_none
  dma_movement len (addresses 0 src_addr dst_addr) use_copy

unfoldable pub reduce_ext : ℕ → ℕ → ℕ → ℕ → M ℕ
reduce_ext len op1_addr op2_addr dst_addr = do
  cfg_switch dma_reduction arith_external
  dma_movement len (addresses op1_addr op2_addr dst_addr) use_reduction
