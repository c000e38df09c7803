-- ===== src/Tests/Firmware.antt =====
-- The theorems on the firmware, at small inputs.
use accl.Base.{
  ℕ, zero, suc, true, u32, take, length, ◌+◌, ◌*◌, ◌%◌, ◌^◌, ◌≤◌, ◌≡◌, ◌≢◌, ◌⊎◌, refl, false, some,
  [], ◌∷◌, arith,
}
use accl.HostCtrl.{Call}
use accl.Firmware.Machine.{
  ok, Machine, RxBuffer, Rank, M, stop, raised, pure, entry, ◌>>=◌, ◌>>◌, putd,
}
use accl.Firmware.Pipeline.{pipeline}
use accl.Firmware.Pipeline.Schedule.{Cut, cuts, schedule, pipeline-cuts}
use accl.Firmware.Dma.{Addresses, dma_movement}
use accl.Firmware.Dma.Ends.{dma_movement_ends}
use accl.Firmware.Switch.{dma_reduction, arith_internal, m_dma1_tx, cfg_switch}
use accl.Firmware.Switch.Routes.{source, register, register_of, cfg_switch_routes}
use accl.Firmware.Buffers.{no_tags, status_enqueued, stream_isr}
use accl.Firmware.Buffers.Inv.{Consistent}
use accl.Firmware.Buffers.Isr.{startup-IsConsistent, stream_isr-IsConsistent}
use accl.Firmware.Ring.{chunk_len}
use accl.Firmware.Ring.Chunks.{chunks_cover}
use accl.Firmware.Comm.{World, rank_at}
use accl.Firmware.Packetizer.{start_packetizer_message}
use accl.Firmware.Packetizer.Messages.{numbered, message_for, messages-cuts}
use accl.Firmware.Receive.{use_copy}
use accl.Firmware.Main.{carry_out, serve_call}
use accl.Firmware.Main.Answer.{answered, given, after, call_served}
use accl.HostCtrl.{call_words}

abbrev buffer : RxBuffer
buffer = record {
  addrl = 4096;
  addrh = 1;
  max_len = 1024;
  dma_tag = 0;
  status = 0;
  rx_tag = 0;
  rx_len = 0;
  rx_src = 0;
  sequence_number = 0;
}

abbrev rank : ℕ → Rank
rank port = record { ip = 7; port = port; inbound_seq = 0; outbound_seq = 0; session = port }

-- After startup, with one buffer and one communicator of two ranks; an interrupt is pending.
abbrev machine : Machine
machine = record {
  use_tcp = false;
  dma_tag = 0;
  num_rx_enqueued = 0;
  timeout = 50;
  dma_tag_lookup = no_tags 16;
  dma_transaction_size = 4;
  max_dma_in_flight = 2;
  rx_buffers = buffer ∷ [];
  comms = λ _. record { size = 2; local_rank = 0; ranks = rank 5500 ∷ rank 5501 ∷ [] };
  regs = λ _. 2;
  puts = [];
  gets = λ _. [];
  busy = 1 ∷ [];
  irqs = 2 ∷ [];
  rounds = 100;
}

-- A call that is told on a stream, for each transaction.
abbrev tell : ℕ → ℕ → ℕ → M ℕ
tell channel n l = putd channel n >> pure (l + n)

pipeline-cuts_example :
    (pipeline 4 (tell 1) (tell 2) (tell 3) 100 2 14 0 machine
      ≡ schedule (tell 1) (tell 2) (tell 3) 2 (cuts 4 14 14) 0 machine)
    × Cut 4 14 (cuts 4 14 14)
pipeline-cuts_example =
    pipeline-cuts 4 (tell 1) (tell 2) (tell 3) 100 2 14 0 machine (omega arith) (omega arith)

abbrev places : Addresses
places = record { dma0_rx = 0; dma1_rx = 4096; dma1_tx = 8192; dma2_rx = 0 }

dma_movement_ends_example :
    ((dma_movement 14 places use_copy machine).0 ≡ ok 0)
    ⊎ ((code : ℕ) × (1 ≤ code)
        × (code ≤ 8)
        × ((dma_movement 14 places use_copy machine).0 ≡ stop (raised code)))
dma_movement_ends_example =
    dma_movement_ends 14 places use_copy machine refl (omega arith) (omega arith) (omega arith)
      (omega arith) (omega arith)

cfg_switch_routes_example :
    (cfg_switch dma_reduction arith_internal machine).1.regs (register m_dma1_tx)
    ≡ register_of (source dma_reduction m_dma1_tx)
cfg_switch_routes_example = cfg_switch_routes dma_reduction arith_internal m_dma1_tx machine

none_enqueued : (i : ℕ) (b : RxBuffer) → entry (buffer ∷ []) i ≡ some b → b.status ≢ status_enqueued
none_enqueued zero b h s = ground arith
none_enqueued (suc i) b h s = cc

machine-Consistent : Consistent machine
machine-Consistent = startup-IsConsistent (buffer ∷ []) none_enqueued

stream_isr-IsConsistent_example : Consistent (stream_isr machine).1
stream_isr-IsConsistent_example = stream_isr-IsConsistent machine machine-Consistent

chunks_cover_example : (26 * 4 ≤ 3 * chunk_len (26 * 4) 3 4) × (chunk_len (26 * 4) 3 4 % 4 ≡ 0)
chunks_cover_example = chunks_cover (26 * 4) 3 4 26 (omega arith) (omega arith) refl (omega arith)

-- The host sets the timeout.
abbrev set_timeout : Call
set_timeout = record {
  scenario = 0;
  len = 77;
  comm = 0;
  root_src_dst = 0;
  function = 4;
  msg_tag = 0;
  buf0_type = 0;
  buf1_type = 0;
  buf2_type = 0;
  addra = 5 * 2 ^ 32 + 64;
  addrb = 0;
  addrc = 0;
}

abbrev called : Machine
called = given machine (after 3 (call_words set_timeout) [])

call_served_example :
    serve_call 4096 (given machine (after 3 (call_words set_timeout) []))
    ≡ answered (carry_out 4096 set_timeout (given machine []))
call_served_example =
    call_served 4096 3 set_timeout machine []
      (record { addra_fits = omega arith; addrb_fits = omega arith; addrc_fits = omega arith })
      (omega arith)

abbrev world : World
world = record { address = 4096; size = 2; local_rank = 0; found = true }

world_rank : rank_at world 1 machine ≡ (ok (rank 5501), machine)
unfolding rank_at
world_rank = refl

messages-cuts_example :
    start_packetizer_message world 1 14 9 0 machine
    ≡ (numbered (message_for machine world (rank 5501) 9) (take 2 (cuts 4 14 14)) (u32 (0 + 0))
          >>= λ _. pure (length (take 2 (cuts 4 14 14))))
        machine
messages-cuts_example = messages-cuts world 1 14 9 0 (rank 5501) machine world_rank (omega arith)
