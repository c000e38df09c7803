-- ===== src/Firmware/Root.antt =====
-- The collectives whose root sends to each rank in turn (ccl_offload_control.c): broadcast and
-- scatter.
use accl.Base.{ℕ, zero, suc, ◌+◌, ◌-◌, ◌*◌, ◌%◌, ◌^◌, true, false, ◌==◌, ltb, if◌then◌else◌, u32}
use accl.Firmware.Machine.{M, pure, stop_with, out_of_fuel, gets_of, ◌>>=◌, ◌>>◌}
use accl.Firmware.Code
use accl.Firmware.Comm.{World, find_comm}
use accl.Firmware.Dma.{dma_movement_single}
use accl.Firmware.Packetizer.{start_packetizer_message, ack_packetizer}
use accl.Firmware.Pipeline.{curr_len}
use accl.Firmware.Switch.{offchip_tx_tcp, offchip_tx_udp, arith_none, cfg_switch}
use accl.Firmware.Buffers.{tag_any}
use accl.Firmware.Receive.{use_dma1_rx, receive_offchip_world}
use accl.Firmware.Move.{addresses, copy}

-- One segment to one rank.
unfoldable pub send_segment : World → ℕ → ℕ → ℕ → M (Unit {0})
send_segment w rank n addr = do
  start_packetizer_message w rank n tag_any 0
  dma_movement_single n (addresses 0 addr 0) use_dma1_rx
  pure tt

-- One segment to each rank but the local one, from `i` on for `k` ranks; the segments of two ranks
-- are `stride` bytes apart.
unfoldable pub send_each : World → ℕ → ℕ → ℕ → ℕ → ℕ → M (Unit {0})
send_each w n stride addr i zero = pure tt
send_each w n stride addr i (suc k) = do
  elim (i == w.local_rank) [ true ↦ pure tt | false ↦ send_segment w i n addr ]
  send_each w n stride ((addr + stride) % 2 ^ 64) (suc i) k

-- The acknowledgments of those ranks.
unfoldable pub ack_each : World → ℕ → ℕ → M (Unit {0})
ack_each w i zero = pure tt
ack_each w i (suc k) = do
  elim (i == w.local_rank) [ true ↦ pure tt | false ↦ ack_packetizer w i 1 ]
  ack_each w (suc i) k

-- The loop over the buffer, segment by segment.
unfoldable pub send_segments : ℕ → World → ℕ → ℕ → ℕ → ℕ → M (Unit {0})
send_segments zero w size stride len addr = stop_with out_of_fuel
send_segments (suc fuel) w size stride len addr = elim (ltb 0 len) [
  | false ↦ pure tt
  | true ↦ do
    send_each w (curr_len size len) stride addr 0 w.size
    ack_each w 0 w.size
    send_segments fuel w size stride (len - curr_len size len) ((addr + curr_len size len) % 2 ^ 64)
]

-- What the root does in both: the switch, then the segments.
unfoldable pub send_all : World → ℕ → ℕ → ℕ → M (Unit {0})
send_all w stride len addr = do
  tcp ← gets_of (λ m. m.use_tcp)
  cfg_switch (if tcp then offchip_tx_tcp else offchip_tx_udp) arith_none
  size ← gets_of (λ m. m.dma_transaction_size)
  rounds ← gets_of (λ m. m.rounds)
  send_segments rounds w size stride len addr

unfoldable pub broadcast_round_robin : ℕ → ℕ → ℕ → ℕ → M ℕ
broadcast_round_robin comm len src_rank buf_addr = do
  w ← find_comm comm
  elim (src_rank == w.local_rank) [
    | true ↦ do send_all w 0 len buf_addr; pure Code.success
    | false ↦ receive_offchip_world w src_rank len buf_addr tag_any
  ]

unfoldable pub scatter_rr : ℕ → ℕ → ℕ → ℕ → ℕ → M ℕ
scatter_rr comm len src_rank src_buf_addr dst_buf_addr = do
  w ← find_comm comm
  elim (src_rank == w.local_rank) [
    | true ↦ do
      send_all w len len src_buf_addr
      copy len ((src_buf_addr + u32 (w.local_rank * len)) % 2 ^ 64) dst_buf_addr
      pure Code.success
    | false ↦ receive_offchip_world w src_rank len dst_buf_addr tag_any
  ]
