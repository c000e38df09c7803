-- ===== src/Firmware/Frame/Collectives.antt =====
-- Each collective keeps what depends on none of the parts that it changes.
use accl.Base.{ℕ, zero, suc, ◌+◌, ◌-◌, ◌%◌, ◌^◌, ◌==◌, ltb}
use accl.Firmware.Machine.{Machine}
use accl.Firmware.Keeps.{Keeps, Keeps-bind, Keeps-then, Keeps-pure, Keeps-elim, monad}
use accl.Firmware.Code
use accl.Firmware.Frame.{IsFrame}
use accl.Firmware.Frame.Calls.{
  cfg_switch-Keeps, start_arith-Keeps, wait_arith-Keeps, div_by-Keeps, mod_by-Keeps,
}
use accl.Firmware.Frame.Moves.{find_comm-Keeps, dma_movement-Keeps, dma_movement_single-Keeps}
use accl.Firmware.Frame.Messages.{
  start_packetizer_message-Keeps, ack_packetizer-Keeps, dma_movement_and_packetizer-Keeps,
}
use accl.Firmware.Comm.{World}
use accl.Firmware.Pipeline.{curr_len}
use accl.Firmware.Root.{
  send_segment, send_each, ack_each, send_segments, send_all, broadcast_round_robin, scatter_rr,
}
use accl.Firmware.Ring.{
  next_in_ring, prev_in_ring, rank_before, chunk_addr, gather_root, relay_times, gather_ring,
  allgather_loop, allgather_ring, reduce_ring_streaming, reduce_chunks, scatter_reduce,
  share_chunks, all_reduce_share,
}
use accl.Firmware.Buffers.{tag_any}
use accl.Firmware.Frame.Moving.{
  receive_offchip_world-Keeps, receive_and_accumulate-Keeps, receive_and_reduce_offchip-Keeps,
  relay_to_other_rank-Keeps, copy-Keeps, transmit-Keeps,
}

module _ (P : Machine → Type 0) (f : IsFrame P) where
  ruleset moves = (
    monad, cfg_switch-Keeps, start_arith-Keeps, wait_arith-Keeps, dma_movement-Keeps,
    dma_movement_single-Keeps, dma_movement_and_packetizer-Keeps, find_comm-Keeps,
  )

  send_segment-Keeps : (w : World) (rank n addr : ℕ) → Keeps P (send_segment w rank n addr)
  unfolding send_segment
  send_segment-Keeps w rank n addr = search (moves, start_packetizer_message-Keeps)

  send_each-Keeps : (w : World) (n stride addr i k : ℕ) → Keeps P (send_each w n stride addr i k)
  unfolding send_each
  send_each-Keeps w n stride addr i zero = search monad
  send_each-Keeps w n stride addr i (suc k) =
      Keeps-then P _ _
        (Keeps-elim P (i == w.local_rank) _ _ (Keeps-pure P tt) (send_segment-Keeps w i n addr))
        (send_each-Keeps w n stride ((addr + stride) % 2 ^ 64) (suc i) k)

  ack_each-Keeps : (w : World) (i k : ℕ) → Keeps P (ack_each w i k)
  unfolding ack_each
  ack_each-Keeps w i zero = search monad
  ack_each-Keeps w i (suc k) =
      Keeps-then P _ _
        (Keeps-elim P (i == w.local_rank) _ _ (Keeps-pure P tt) (ack_packetizer-Keeps P f w i 1))
        (ack_each-Keeps w (suc i) k)

  send_segments-Keeps :
      (fuel : ℕ) (w : World) (size stride len addr : ℕ)
      → Keeps P (send_segments fuel w size stride len addr)
  unfolding send_segments
  send_segments-Keeps zero w size stride len addr = search monad
  send_segments-Keeps (suc fuel) w size stride len addr =
      Keeps-elim P (ltb 0 len) _ _
        (Keeps-then P _ _ (send_each-Keeps w (curr_len size len) stride addr 0 w.size) (
          Keeps-then P _ _ (ack_each-Keeps w 0 w.size) (
            send_segments-Keeps fuel w size stride (len - curr_len size len)
              ((addr + curr_len size len) % 2 ^ 64))))
        (Keeps-pure P tt)

  send_all-Keeps : (w : World) (stride len addr : ℕ) → Keeps P (send_all w stride len addr)
  unfolding send_all
  send_all-Keeps w stride len addr = search (moves, send_segments-Keeps) depth 8

  pub broadcast_round_robin-Keeps :
      (comm len src_rank buf_addr : ℕ) → Keeps P (broadcast_round_robin comm len src_rank buf_addr)
  unfolding broadcast_round_robin
  broadcast_round_robin-Keeps comm len src_rank buf_addr =
      Keeps-bind P _ _ (find_comm-Keeps P comm) (λ w.
        Keeps-elim P (src_rank == w.local_rank) _ _ (search (monad, send_all-Keeps))
          (receive_offchip_world-Keeps P f w src_rank len buf_addr tag_any))

  pub scatter_rr-Keeps :
      (comm len src_rank src_buf_addr dst_buf_addr : ℕ)
      → Keeps P (scatter_rr comm len src_rank src_buf_addr dst_buf_addr)
  unfolding scatter_rr
  scatter_rr-Keeps comm len src_rank src_buf_addr dst_buf_addr =
      Keeps-bind P _ _ (find_comm-Keeps P comm) (λ w.
        Keeps-elim P (src_rank == w.local_rank) _ _ (search (monad, send_all-Keeps, copy-Keeps))
          (receive_offchip_world-Keeps P f w src_rank len dst_buf_addr tag_any))

  next_in_ring-Keeps : (w : World) → Keeps P (next_in_ring w)
  unfolding next_in_ring
  next_in_ring-Keeps w = mod_by-Keeps P f _ _

  prev_in_ring-Keeps : (w : World) → Keeps P (prev_in_ring w)
  unfolding prev_in_ring
  prev_in_ring-Keeps w = mod_by-Keeps P f _ _

  ruleset ring = (
    monad, find_comm-Keeps, next_in_ring-Keeps, prev_in_ring-Keeps, div_by-Keeps, transmit-Keeps,
    receive_offchip_world-Keeps, receive_and_accumulate-Keeps, receive_and_reduce_offchip-Keeps,
  )

  gather_root-Keeps :
      (w : World) (prev len src dst curr_pos k ret : ℕ)
      → Keeps P (gather_root w prev len src dst curr_pos k ret)
  unfolding gather_root
  gather_root-Keeps w prev len src dst curr_pos zero ret = search monad
  gather_root-Keeps w prev len src dst curr_pos (suc k) ret =
      Keeps-elim P (ret == Code.success) _ _
        (Keeps-bind P _ _
          (Keeps-elim P (curr_pos == w.local_rank) _ _
            (copy-Keeps P f len src (chunk_addr dst len curr_pos))
            (receive_offchip_world-Keeps P f w prev len (chunk_addr dst len curr_pos) tag_any))
          (λ ret'. gather_root-Keeps w prev len src dst (rank_before w curr_pos) k ret'))
        (Keeps-pure P ret)

  relay_times-Keeps : (w : World) (prev next len k : ℕ) → Keeps P (relay_times w prev next len k)
  unfolding relay_times
  relay_times-Keeps w prev next len zero = search monad
  relay_times-Keeps w prev next len (suc k) =
      Keeps-then P _ _ (relay_to_other_rank-Keeps P f w prev next len tag_any)
        (relay_times-Keeps w prev next len k)

  pub gather_ring-Keeps :
      (comm len root_rank src dst : ℕ) → Keeps P (gather_ring comm len root_rank src dst)
  unfolding gather_ring
  gather_ring-Keeps comm len root_rank src dst = Keeps-bind P _ _ (find_comm-Keeps P comm) (λ w.
      Keeps-bind P _ _ (next_in_ring-Keeps w) (λ next.
        Keeps-bind P _ _ (prev_in_ring-Keeps w) (λ prev.
          Keeps-elim P (root_rank == w.local_rank) _ _
            (gather_root-Keeps w prev len src dst prev w.size Code.success)
            (search (ring, relay_times-Keeps)))))

  allgather_loop-Keeps :
      (w : World) (next prev len src dst curr_pos i k ret : ℕ)
      → Keeps P (allgather_loop w next prev len src dst curr_pos i k ret)
  unfolding allgather_loop
  allgather_loop-Keeps w next prev len src dst curr_pos i zero ret = search monad
  allgather_loop-Keeps w next prev len src dst curr_pos i (suc k) ret =
      Keeps-elim P (ret == Code.success) _ _
        (Keeps-bind P _ _
          (Keeps-elim P (curr_pos == w.local_rank) _ _
            (copy-Keeps P f len src (chunk_addr dst len curr_pos))
            (Keeps-bind P _ _
              (receive_offchip_world-Keeps P f w prev len (chunk_addr dst len curr_pos) tag_any)
              (λ r.
                Keeps-elim P (ltb (i + 1) w.size) _ _
                  (transmit-Keeps P f w next len (chunk_addr dst len curr_pos) tag_any)
                  (Keeps-pure P r))))
          (λ ret'.
            allgather_loop-Keeps w next prev len src dst (rank_before w curr_pos) (suc i) k ret'))
        (Keeps-pure P ret)

  pub allgather_ring-Keeps : (comm len src dst : ℕ) → Keeps P (allgather_ring comm len src dst)
  unfolding allgather_ring
  allgather_ring-Keeps comm len src dst = search (ring, allgather_loop-Keeps) depth 8

  pub reduce_ring_streaming-Keeps :
      (comm len function root_rank src dst : ℕ)
      → Keeps P (reduce_ring_streaming comm len function root_rank src dst)
  unfolding reduce_ring_streaming
  reduce_ring_streaming-Keeps comm len function root_rank src dst =
      Keeps-bind P _ _ (find_comm-Keeps P comm) (λ w.
        Keeps-bind P _ _ (next_in_ring-Keeps w) (λ next.
          Keeps-bind P _ _ (prev_in_ring-Keeps w) (λ prev.
            Keeps-elim P (prev == root_rank) _ _ (transmit-Keeps P f w next len src tag_any) (
              Keeps-elim P (w.local_rank == root_rank) _ _
                (receive_and_accumulate-Keeps P f w prev len function src dst tag_any)
                (receive_and_reduce_offchip-Keeps P f w prev next len function src tag_any)))))

  reduce_chunks-Keeps :
      (w : World) (next prev len function src dst chunk k : ℕ)
      → Keeps P (reduce_chunks w next prev len function src dst chunk k)
  unfolding reduce_chunks
  reduce_chunks-Keeps w next prev len function src dst chunk zero = search ring
  reduce_chunks-Keeps w next prev len function src dst chunk (suc k) =
      search (ring, reduce_chunks-Keeps w next prev len function src dst (rank_before w chunk) k)

  pub scatter_reduce-Keeps :
      (comm len function src dst : ℕ) → Keeps P (scatter_reduce comm len function src dst)
  unfolding scatter_reduce
  scatter_reduce-Keeps comm len function src dst = search (ring, reduce_chunks-Keeps) depth 10

  share_chunks-Keeps :
      (w : World) (next prev len dst chunk k : ℕ)
      → Keeps P (share_chunks w next prev len dst chunk k)
  unfolding share_chunks
  share_chunks-Keeps w next prev len dst chunk zero = search monad
  share_chunks-Keeps w next prev len dst chunk (suc k) =
      search (ring, share_chunks-Keeps w next prev len dst (rank_before w chunk) k) depth 8

  pub all_reduce_share-Keeps :
      (comm len function src dst : ℕ) → Keeps P (all_reduce_share comm len function src dst)
  unfolding all_reduce_share
  all_reduce_share-Keeps comm len function src dst =
      search (ring, scatter_reduce-Keeps, share_chunks-Keeps) depth 12
