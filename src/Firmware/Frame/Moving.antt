-- ===== src/Firmware/Frame/Moving.antt =====
-- Each receipt, copy, reduction and send keeps what depends on none of the parts that it changes.
use accl.Base.{ℕ, Bool, Option, none, some}
use accl.Firmware.Machine.{Machine, pure, ◌>>◌}
use accl.Firmware.Keeps.{Keeps, Keeps-bind, Keeps-then, Keeps-pure, Keeps-elim, Keeps-option, monad}
use accl.Firmware.Frame.{IsFrame}
use accl.Firmware.Frame.Calls.{cfg_switch-Keeps, start_arith-Keeps, wait_arith-Keeps}
use accl.Firmware.Frame.Moves.{
  find_comm-Keeps, pipeline-Keeps, start_dma-Keeps, ack_dma-Keeps, dma_movement-Keeps,
  dma_movement_single-Keeps,
}
use accl.Firmware.Frame.Messages.{
  start_packetizer_message-Keeps, ack_packetizer-Keeps, dma_movement_and_packetizer-Keeps,
}
use accl.Firmware.Frame.Spares.{buffer_at-Keeps, free_buffer-Keeps, wait_receive_world_i-Keeps}
use accl.Firmware.Comm.{World}
use accl.Firmware.Packetizer.{start_packetizer_message}
use accl.Firmware.Receive.{
  Spares, push_spare, first_spare, Receiving, Receive, start_received, ack_received, receive_loops,
  receive_offchip_world, receive_and_accumulate, receive_and_reduce_offchip, relay_to_other_rank,
}
use accl.Firmware.Move.{
  dma_loopback_move, copy, reduce_loopback, accumulate, transmit_offchip_world, transmit_offchip,
  send, recv, ext_kernel_stream, reduce_ext,
}

module _ (P : Machine → Type 0) where
  push_spare-Keeps : (max i : ℕ) (s : Spares) → Keeps P (push_spare max i s)
  unfolding push_spare
  push_spare-Keeps max i s = search monad

  first_spare-Keeps : (s : Spares) → Keeps P (first_spare s)
  unfolding first_spare
  first_spare-Keeps s = search monad

module _ (P : Machine → Type 0) (f : IsFrame P) where
  message-Keeps :
      (w : World) (o : Option ℕ) (len tag offset : ℕ)
      → Keeps P (elim o [
        | none ↦ pure tt
        | some dst_rank ↦ start_packetizer_message w dst_rank len tag offset >> pure tt
      ])
  message-Keeps w o len tag offset =
      Keeps-option P o _ _ (Keeps-pure P tt) (λ d. search (monad, start_packetizer_message-Keeps))

  ruleset moves = (
    monad, cfg_switch-Keeps, start_arith-Keeps, wait_arith-Keeps, dma_movement-Keeps,
    dma_movement_single-Keeps, dma_movement_and_packetizer-Keeps, find_comm-Keeps,
  )

  start_received-Keeps :
      (r : Receive) (restart : Bool) (max n : ℕ) (l : Receiving)
      → Keeps P (start_received r restart max n l)
  unfolding start_received
  start_received-Keeps r restart max n l =
      Keeps-bind P _ _ (wait_receive_world_i-Keeps P f _ _) (λ i.
        Keeps-bind P _ _ (buffer_at-Keeps P i) (λ b.
          Keeps-bind P _ _ (push_spare-Keeps P max i l.spares) (λ spares.
            Keeps-then P _ _
              (Keeps-option P r.dst_rank _ _ (Keeps-pure P tt) (λ d.
                Keeps-elim P restart _ _ (search (monad, start_packetizer_message-Keeps))
                  (Keeps-pure P tt)))
              (Keeps-bind P _ _ (start_dma-Keeps P f _ _ _ _) (λ tag. Keeps-pure P _)))))

  ack_received-Keeps : (r : Receive) (max n : ℕ) (l : Receiving) → Keeps P (ack_received r max n l)
  unfolding ack_received
  ack_received-Keeps r max n l = Keeps-then P _ _ (ack_dma-Keeps P f n r.what) (
      Keeps-then P _ _
        (Keeps-option P r.dst_rank _ _ (Keeps-pure P tt)
          (λ d. ack_packetizer-Keeps P f r.world d 1))
        (search (monad, first_spare-Keeps, free_buffer-Keeps)))

  receive_loops-Keeps :
      (r : Receive) (len op0_addr dst_addr : ℕ) → Keeps P (receive_loops r len op0_addr dst_addr)
  unfolding receive_loops
  receive_loops-Keeps r len op0_addr dst_addr =
      search
        (
          monad,
          message-Keeps r.world r.dst_rank len r.msg_tag 0,
          pipeline-Keeps,
          start_received-Keeps,
          ack_received-Keeps,
        )
        depth 10

  pub receive_offchip_world-Keeps :
      (w : World) (src_rank len dst_addr src_tag : ℕ)
      → Keeps P (receive_offchip_world w src_rank len dst_addr src_tag)
  unfolding receive_offchip_world
  receive_offchip_world-Keeps w src_rank len dst_addr src_tag = search (moves, receive_loops-Keeps)

  pub receive_and_accumulate-Keeps :
      (w : World) (src_rank len func op0_addr dst_addr src_tag : ℕ)
      → Keeps P (receive_and_accumulate w src_rank len func op0_addr dst_addr src_tag)
  unfolding receive_and_accumulate
  receive_and_accumulate-Keeps w src_rank len func op0_addr dst_addr src_tag =
      search (moves, receive_loops-Keeps) depth 8

  pub receive_and_reduce_offchip-Keeps :
      (w : World) (src_rank dst_rank len func op0_addr mpi_tag : ℕ)
      → Keeps P (receive_and_reduce_offchip w src_rank dst_rank len func op0_addr mpi_tag)
  unfolding receive_and_reduce_offchip
  receive_and_reduce_offchip-Keeps w src_rank dst_rank len func op0_addr mpi_tag =
      search (moves, receive_loops-Keeps) depth 8

  pub relay_to_other_rank-Keeps :
      (w : World) (src_rank dst_rank len mpi_tag : ℕ)
      → Keeps P (relay_to_other_rank w src_rank dst_rank len mpi_tag)
  unfolding relay_to_other_rank
  relay_to_other_rank-Keeps w src_rank dst_rank len mpi_tag =
      search (moves, receive_loops-Keeps) depth 8

  pub copy-Keeps : (len src_addr dst_addr : ℕ) → Keeps P (copy len src_addr dst_addr)
  unfolding copy dma_loopback_move
  copy-Keeps len src_addr dst_addr = search moves

  pub accumulate-Keeps : (len func op1 op2 dst : ℕ) → Keeps P (accumulate len func op1 op2 dst)
  unfolding accumulate reduce_loopback
  accumulate-Keeps len func op1 op2 dst = search moves depth 8

  pub ext_kernel_stream-Keeps :
      (len src_addr dst_addr : ℕ) → Keeps P (ext_kernel_stream len src_addr dst_addr)
  unfolding ext_kernel_stream
  ext_kernel_stream-Keeps len src_addr dst_addr = search moves

  pub reduce_ext-Keeps : (len op1 op2 dst : ℕ) → Keeps P (reduce_ext len op1 op2 dst)
  unfolding reduce_ext
  reduce_ext-Keeps len op1 op2 dst = search moves

  pub transmit-Keeps :
      (w : World) (dst_rank len src_addr dst_tag : ℕ)
      → Keeps P (transmit_offchip_world w dst_rank len src_addr dst_tag)
  unfolding transmit_offchip_world
  transmit-Keeps w dst_rank len src_addr dst_tag = search moves

  pub send-Keeps :
      (comm len tag dst_rank buf_addr : ℕ) → Keeps P (send comm len tag dst_rank buf_addr)
  unfolding send transmit_offchip
  send-Keeps comm len tag dst_rank buf_addr = search (moves, transmit-Keeps)

  pub recv-Keeps :
      (comm len tag src_rank buf_addr : ℕ) → Keeps P (recv comm len tag src_rank buf_addr)
  unfolding recv
  recv-Keeps comm len tag src_rank buf_addr = search (moves, receive_offchip_world-Keeps)
