-- ===== src/Tests/Served.antt =====
-- The theorems on whole calls of the firmware, at small inputs.
use accl.Base.{ℕ, ◌+◌, ◌*◌, ◌^◌, ◌≡◌, refl, false, [], ◌∷◌, arith}
use accl.HostCtrl.{Call, call_words}
use accl.Firmware.Machine.{ok, Machine, RxBuffer, Rank}
use accl.Firmware.Buffers.{no_tags}
use accl.Firmware.Main.{serve_call}
use accl.Firmware.Main.Answer.{with_answer, given, after}
use accl.Firmware.Main.Once.{told, TellsOnce, call-TellsOnce}
use accl.Firmware.Code
use accl.Firmware.Main.Unknown.{unknown_answered}
use accl.Firmware.Main.Layout.{layout, serve_call-layout}

abbrev buffer : RxBuffer
buffer = record {
  addrl = 4096;
  addrh = 1;
  max_len = 1024;
  dma_tag = 0;
  status = 0;
  rx_tag = 0;
  rx_len = 0;
  rx_src = 0;
  sequence_number = 0;
}

abbrev pub rank : ℕ → Rank
rank port = record { ip = 7; port = port; inbound_seq = 0; outbound_seq = 0; session = port }

-- Two ranks, one spare buffer and an interrupt to come; the host has been told of an earlier call.
abbrev pub machine : Machine
machine = record {
  use_tcp = false;
  dma_tag = 0;
  num_rx_enqueued = 0;
  timeout = 2;
  dma_tag_lookup = no_tags 16;
  dma_transaction_size = 4;
  max_dma_in_flight = 2;
  rx_buffers = buffer ∷ [];
  comms = λ _. record { size = 2; local_rank = 0; ranks = rank 5500 ∷ rank 5501 ∷ [] };
  regs = λ _. 2;
  puts = record { channel = 10; value = 0; control = false } ∷ [];
  gets = λ _. [];
  busy = 1 ∷ 1 ∷ [];
  irqs = 4 ∷ [];
  rounds = 60;
}

-- A send of eight bytes to rank 1.
abbrev pub call : Call
call = record {
  scenario = 1;
  len = 8;
  comm = 4200;
  root_src_dst = 1;
  function = 0;
  msg_tag = 3;
  buf0_type = 0;
  buf1_type = 0;
  buf2_type = 0;
  addra = 5 * 2 ^ 32 + 64;
  addrb = 0;
  addrc = 0;
}

abbrev sending : Machine
sending = given machine (after 3 (call_words call) [])

call-TellsOnce_example : TellsOnce (told sending.puts) (serve_call 4096 sending)
call-TellsOnce_example = call-TellsOnce 4096 sending

serve_call-layout_example :
    layout (serve_call 4096 (given machine (after 3 (call_words call) []))).1 ≡ layout machine
serve_call-layout_example =
    serve_call-layout 4096 3 call machine []
      (record { addra_fits = omega arith; addrb_fits = omega arith; addrc_fits = omega arith }) refl
      (omega arith)

-- A call of scenario 17, which the driver calls bcast_rr.
abbrev unserved : Call
unserved = record call { scenario = 17 }

unknown_answered_example :
    serve_call 4096 (given machine (after 3 (call_words unserved) []))
    ≡ (ok tt, with_answer Code.success (given machine []))
unknown_answered_example =
    unknown_answered 4096 3 unserved machine []
      (record { addra_fits = omega arith; addrb_fits = omega arith; addrc_fits = omega arith })
      (omega arith)
      (
        refl,
        (
          refl,
          (
            refl,
            (
              refl,
              (refl, (refl, (refl, (refl, (refl, (refl, (refl, (refl, (refl, (refl, tt)))))))))),
            ),
          ),
        ),
      )
