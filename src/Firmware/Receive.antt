-- ===== src/Firmware/Receive.antt =====
-- The receiving moves (ccl_offload_control.c): a message is taken from the spare buffers in
-- transactions, into memory, into the reduction kernel, or on to another rank.
use accl.Base.{
  ℕ, zero, suc, ◌+◌, ◌-◌, ◌*◌, ◌%◌, ◌^◌, Bool, true, false, if◌then◌else◌, u32, Option, none, some,
  List, [], ◌∷◌, set, ltb, length,
}
use accl.Firmware.Machine.{
  RxBuffer, M, pure, stop_with, fault, gets_of, ◌>>=◌, ◌>>◌, entry, or_stop,
}
use accl.Firmware.Code
use accl.Firmware.Comm.{World}
use accl.Firmware.Dma.{Dmas, start_dma, ack_dma}
use accl.Firmware.Packetizer.{start_packetizer_message, ack_packetizer}
use accl.Firmware.Pipeline.{pipeline}
use accl.Firmware.Block.{start_arith, wait_arith}
use accl.Firmware.Switch.{
  arith_internal, arith_none, dma_loopback, dma_reduction, offchip_tx_udp, offchip_tx_tcp,
  offchip_udp_reduction, offchip_tcp_reduction, cfg_switch,
}
use accl.Firmware.Buffers.{wait_receive_world_i, buffer_at, free_buffer}

-- The circular array of the spare buffers in use, of `max_dma_in_flight` bytes; its entries are not
-- initialised.
pub record Spares : Type 0 where
  pub indexes : List (Option ℕ)
  pub start : ℕ
  pub end : ℕ

unfoldable pub undefined : ℕ → List (Option ℕ)
undefined zero = []
undefined (suc n) = none ∷ undefined n

unfoldable pub no_spares : ℕ → Spares
no_spares max = record { indexes = undefined max; start = 0; end = 0 }

-- An index at the end of the array.
unfoldable pub push_spare : ℕ → ℕ → Spares → M Spares
push_spare max i s =
    if ltb s.end (length s.indexes)
    then pure (record {
      indexes = set s.indexes s.end (some (i % 256));
      start = s.start;
      end = (s.end + 1) % max % 256;
    })
    else stop_with fault

-- The index at its start.
unfoldable pub first_spare : Spares → M ℕ
first_spare s = do slot ← or_stop (entry s.indexes s.start) fault; or_stop slot fault

unfoldable pub pop_spare : ℕ → Spares → Spares
pop_spare max s = record s { start = (s.start + 1) % max % 256 }

-- What the loops of a receive carry along.
pub record Receiving : Type 0 where
  pub op0_addr : ℕ
  pub dst_addr : ℕ
  pub tag : ℕ
  pub spares : Spares

-- What tells the four functions apart: the rank and tag to receive, the engines, and the messages
-- that go out with each transaction (`none` if the data stays here).
pub record Receive : Type 0 where
  pub world : World
  pub src_rank : ℕ
  pub msg_tag : ℕ
  pub what : Dmas
  pub dst_rank : Option ℕ

-- The address of a buffer.
abbrev pub buffer_addr : RxBuffer → ℕ
buffer_addr b = b.addrh * 2 ^ 32 + b.addrl

-- The body that waits for a segment and starts its transaction. `restart` says whether it is that of
-- the second loop, where a function that sends puts a message of its own for each transaction.
unfoldable pub start_received : Receive → Bool → ℕ → ℕ → Receiving → M Receiving
start_received r restart max n l = do
  i ← wait_receive_world_i r.world (record { src_rank = r.src_rank; len = n; tag = r.msg_tag })
  b ← buffer_at i
  spares ← push_spare max i l.spares
  elim r.dst_rank [
    | none ↦ pure tt
    | some dst_rank ↦ elim restart [
      | false ↦ pure tt
      | true ↦
          start_packetizer_message r.world dst_rank n r.msg_tag (u32 (max + 2 ^ 32 - 1)) >> pure tt
    ]
  ]
  tag ←
      start_dma n
        (record {
          dma0_rx = l.op0_addr;
          dma1_rx = buffer_addr b;
          dma1_tx = l.dst_addr;
          dma2_rx = 0;
        })
        r.what l.tag
  pure (record {
    op0_addr = (l.op0_addr + n) % 2 ^ 64;
    dst_addr = (l.dst_addr + n) % 2 ^ 64;
    tag = tag;
    spares = spares;
  })

-- The body that acknowledges a transaction and frees its buffer.
unfoldable pub ack_received : Receive → ℕ → ℕ → Receiving → M Receiving
ack_received r max n l = do
  ack_dma n r.what
  elim r.dst_rank [ none ↦ pure tt | some dst_rank ↦ ack_packetizer r.world dst_rank 1 ]
  i ← first_spare l.spares
  free_buffer i
  pure (record l { spares = pop_spare max l.spares })

-- The three loops.
unfoldable pub receive_loops : Receive → ℕ → ℕ → ℕ → M (Unit {0})
receive_loops r len op0_addr dst_addr = do
  size ← gets_of (λ m. m.dma_transaction_size)
  max ← gets_of (λ m. m.max_dma_in_flight)
  rounds ← gets_of (λ m. m.rounds)
  tag ← gets_of (λ m. m.dma_tag)
  elim r.dst_rank [
    | none ↦ pure tt
    | some dst_rank ↦ start_packetizer_message r.world dst_rank len r.msg_tag 0 >> pure tt
  ]
  pipeline size (start_received r false max) (start_received r true max) (ack_received r max) rounds
      max len
      (record { op0_addr = op0_addr; dst_addr = dst_addr; tag = tag; spares = no_spares max })
  pure tt

abbrev pub no_dmas : Dmas
no_dmas = record {
  dma0_rx = false;
  dma1_rx = false;
  dma1_tx = false;
  dma1_tx_without_tlast = false;
  dma2_rx = false;
}

abbrev pub use_dma1_rx : Dmas
use_dma1_rx = record no_dmas { dma1_rx = true }

abbrev pub use_copy : Dmas
use_copy = record no_dmas { dma1_rx = true; dma1_tx = true }

abbrev pub use_operands : Dmas
use_operands = record no_dmas { dma0_rx = true; dma1_rx = true }

abbrev pub use_reduction : Dmas
use_reduction = record no_dmas { dma0_rx = true; dma1_rx = true; dma1_tx = true }

unfoldable pub receive_offchip_world : World → ℕ → ℕ → ℕ → ℕ → M ℕ
receive_offchip_world w src_rank len dst_addr src_tag = do
  cfg_switch dma_loopback arith_none
  receive_loops
      (record {
        world = w;
        src_rank = src_rank;
        msg_tag = src_tag;
        what = use_copy;
        dst_rank = none;
      })
      len 0 dst_addr
  pure Code.success

unfoldable pub receive_and_accumulate : World → ℕ → ℕ → ℕ → ℕ → ℕ → ℕ → M ℕ
receive_and_accumulate w src_rank len func op0_addr dst_addr src_tag = do
  cfg_switch dma_reduction arith_internal
  start_arith len func 0
  receive_loops
      (record {
        world = w;
        src_rank = src_rank;
        msg_tag = src_tag;
        what = use_reduction;
        dst_rank = none;
      })
      len op0_addr dst_addr
  wait_arith
  pure Code.success

-- The engines of the two functions that send are not given `dst_addr`.
unfoldable pub receive_and_reduce_offchip : World → ℕ → ℕ → ℕ → ℕ → ℕ → ℕ → M ℕ
receive_and_reduce_offchip w src_rank dst_rank len func op0_addr mpi_tag = do
  tcp ← gets_of (λ m. m.use_tcp)
  cfg_switch (if tcp then offchip_tcp_reduction else offchip_udp_reduction) arith_internal
  start_arith len func 0
  receive_loops
      (record {
        world = w;
        src_rank = src_rank;
        msg_tag = mpi_tag;
        what = use_operands;
        dst_rank = some dst_rank;
      })
      len op0_addr 0
  wait_arith
  pure Code.success

unfoldable pub relay_to_other_rank : World → ℕ → ℕ → ℕ → ℕ → M ℕ
relay_to_other_rank w src_rank dst_rank len mpi_tag = do
  tcp ← gets_of (λ m. m.use_tcp)
  cfg_switch (if tcp then offchip_tx_tcp else offchip_tx_udp) arith_none
  receive_loops
      (record {
        world = w;
        src_rank = src_rank;
        msg_tag = mpi_tag;
        what = use_dma1_rx;
        dst_rank = some dst_rank;
      })
      len 0 0
  pure Code.success
