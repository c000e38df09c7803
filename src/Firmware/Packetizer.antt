-- ===== src/Firmware/Packetizer.antt =====
-- Messages for the packetizer and its acknowledgments, and a movement with both
-- (ccl_offload_control.c).
pub mod Messages
use accl.Base.{ℕ, zero, suc, ◌+◌, ◌-◌, ◌^◌, true, false, ◌==◌, ltb, if◌then◌else◌, u32}
use accl.Firmware.Machine.{
  M, pure, stop_with, raise, gets_of, ◌>>=◌, ◌>>◌, out_of_fuel, putd, cputd, getd, tngetd,
}
use accl.Firmware.Cmd
use accl.Firmware.Sts
use accl.Firmware.Code
use accl.Firmware.Comm.{World, rank_at, set_rank}
use accl.Firmware.Dma.{Dmas, Addresses, Moving, expired, ack_dma, start_transaction}
use accl.Firmware.Pipeline.{pipeline}

-- The five words of a message.
unfoldable pub put_message : ℕ → ℕ → ℕ → ℕ → ℕ → ℕ → M (Unit {0})
put_message net_tx dst len tag src_rank seq = do
  putd net_tx dst
  putd net_tx len
  putd net_tx tag
  putd net_tx src_rank
  cputd net_tx seq

-- The loop over the messages, for `k` more values of its counter; the result is the counter.
unfoldable pub put_messages : ℕ → (ℕ → ℕ → M (Unit {0})) → ℕ → ℕ → ℕ → ℕ → M ℕ
put_messages size message zero i len seq = pure i
put_messages size message (suc k) i len seq = elim (ltb 0 len) [
  | true ↦ do
    let curr_len = if ltb size len then size else len
    message curr_len (u32 (seq + 1))
    put_messages size message k (suc i) (len - curr_len) (u32 (seq + 1))
  | false ↦ pure i
]

unfoldable pub start_packetizer_message : World → ℕ → ℕ → ℕ → ℕ → M ℕ
start_packetizer_message w dst_rank len tag offset = do
  r ← rank_at w dst_rank
  tcp ← gets_of (λ m. m.use_tcp)
  size ← gets_of (λ m. m.dma_transaction_size)
  max ← gets_of (λ m. m.max_dma_in_flight)
  put_messages size
      (λ curr_len seq.
        put_message (if tcp then Cmd.tcp_tx else Cmd.udp_tx) (if tcp then r.session else r.port)
          curr_len tag w.local_rank seq)
      max 0 len (u32 (r.outbound_seq + offset))

-- The wait for an acknowledgment; the count is compared after a test that fails.
unfoldable pub await_sts : ℕ → ℕ → ℕ → M (Unit {0})
await_sts zero channel count = stop_with out_of_fuel
await_sts (suc fuel) channel count = do
  invalid ← tngetd channel
  timeout ← gets_of (λ m. m.timeout)
  elim (invalid == 0) [
    | true ↦ pure tt
    | false ↦ elim (expired timeout count) [
      | true ↦ raise Code.pack_timeout_sts
      | false ↦ await_sts fuel channel (u32 (count + 1))
    ]
  ]

-- One acknowledgment: it is the sequence number after the last.
unfoldable pub ack_message : World → ℕ → M (Unit {0})
ack_message w dst_rank = do
  tcp ← gets_of (λ m. m.use_tcp)
  rounds ← gets_of (λ m. m.rounds)
  let channel = if tcp then Sts.tcp_pkt else Sts.udp_pkt
  await_sts rounds channel 0
  ack_seq_num ← getd channel
  r ← rank_at w dst_rank
  elim (u32 (r.outbound_seq + 1) == ack_seq_num) [
    | true ↦ set_rank w dst_rank (record r { outbound_seq = u32 (r.outbound_seq + 1) })
    | false ↦ raise Code.pack_seq_number
  ]

unfoldable pub ack_packetizer : World → ℕ → ℕ → M (Unit {0})
ack_packetizer w dst_rank zero = pure tt
ack_packetizer w dst_rank (suc n) = do ack_message w dst_rank; ack_packetizer w dst_rank n

-- The three bodies of a movement whose data goes to the packetizer.
unfoldable pub restart_message : World → ℕ → ℕ → Dmas → ℕ → Moving → M Moving
restart_message w dst_rank tag what n s = do
  max ← gets_of (λ m. m.max_dma_in_flight)
  start_packetizer_message w dst_rank n tag (u32 (max + 2 ^ 32 - 1))
  start_transaction what n s

unfoldable pub ack_both : {L : Type 0} → World → ℕ → Dmas → ℕ → L → M L
ack_both w dst_rank what n l = do ack_dma n what; ack_packetizer w dst_rank 1; pure l

unfoldable pub dma_movement_and_packetizer : World → ℕ → Addresses → Dmas → ℕ → ℕ → M ℕ
dma_movement_and_packetizer w len a what dst_rank mpi_tag = do
  size ← gets_of (λ m. m.dma_transaction_size)
  max ← gets_of (λ m. m.max_dma_in_flight)
  rounds ← gets_of (λ m. m.rounds)
  tag ← gets_of (λ m. m.dma_tag)
  start_packetizer_message w dst_rank len mpi_tag 0
  pipeline size (start_transaction what) (restart_message w dst_rank mpi_tag what)
      (ack_both w dst_rank what) rounds max len (record { addresses = a; tag = tag })
  pure Code.success
