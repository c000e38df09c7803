-- ===== src/Firmware/Main.antt =====
-- The startup and the main loop of ccl_offload_control.c: a call of the host is read, carried out, and
-- answered with a code. The address of the general-purpose port is a definition of the board's
-- support package and an argument here.
pub mod Answer
pub mod Once
pub mod Layout
pub mod Unknown
use Prim.Native.Nat.{bit_or}
use accl.Base.{
  ℕ, zero, suc, ◌+◌, ◌-◌, ◌*◌, ◌/◌, ◌%◌, ◌^◌, Bool, true, false, ◌&&◌, not, ◌==◌, ltb, leb,
  if◌then◌else◌, Option, none, some, List, [], ◌∷◌,
}
use accl.HostCtrl.{Call, join_words}
use accl.Firmware.Machine.{
  Machine, Communicator, M, Result, ok, stop, raised, pure, stop_with, waits, fault, out_of_fuel,
  gets_of, modify, ◌>>=◌, ◌>>◌, putd, getd, tngetd, xil_out32, xil_in32,
}
use accl.Firmware.Cmd
use accl.Firmware.Sts
use accl.Firmware.Code
use accl.Firmware.Reg
use accl.Firmware.Dma.{dma_max_btt}
use accl.Firmware.Comm.{open_con, open_port, init_connection}
use accl.Firmware.Block.{
  setup_irq, clear_timer_interrupt, start_timer1, read_timer1, set_mask, clr_mask, start_packetizer,
  start_depacketizer,
}
use accl.Firmware.Buffers.{no_tags, let_in, sts_queue_non_empty, cmd_queue_empty}
use accl.Firmware.Move.{send, recv, copy, accumulate, ext_kernel_stream, reduce_ext}
use accl.Firmware.Root.{broadcast_round_robin, scatter_rr}
use accl.Firmware.Ring.{
  gather_ring, allgather_ring, reduce_ring_streaming, scatter_reduce, all_reduce_share,
}

abbrev pub max_packetsize : ℕ
max_packetsize = 1536

abbrev pub dma_max_transactions : ℕ
dma_max_transactions = 20

unfoldable pub check_hwid : ℕ → M (Unit {0})
check_hwid gpio = do hwid ← xil_in32 (gpio + 0x08); xil_out32 Reg.hwid hwid

-- The exchange memory set to zero: no buffers, no communicators, and its registers.
unfoldable pub clear_exchmem : Machine → Machine
clear_exchmem m = record m {
  rx_buffers = [];
  comms = λ adr.
      if leb Reg.exchmem adr && ltb adr Reg.end_of_exchmem
      then record { size = 0; local_rank = 0; ranks = [] }
      else m.comms adr;
  regs = λ adr. if leb Reg.exchmem adr && ltb adr Reg.end_of_exchmem then 0 else m.regs adr;
}

-- The tags, as both startup and reset leave them.
unfoldable pub clear_tags : Machine → Machine
clear_tags m = record m { dma_tag = 0; dma_tag_lookup = no_tags 16 }

unfoldable pub init : ℕ → M (Unit {0})
init gpio = do
  let_in
  modify clear_exchmem
  check_hwid gpio
  modify clear_tags
  set_mask gpio 0x02
  set_mask gpio 0x01

unfoldable pub encore_soft_reset : ℕ → M (Unit {0})
encore_soft_reset gpio = do
  setup_irq 0
  clr_mask gpio 0x02
  modify clear_exchmem
  modify (λ m. record m { num_rx_enqueued = 0 })
  modify clear_tags
  check_hwid gpio
  set_mask gpio 0x02

-- The loop that polls for a call.
unfoldable pub poll : ℕ → M (Unit {0})
poll zero = stop_with out_of_fuel
poll (suc fuel) = do
  invalid ← tngetd Cmd.host
  elim (invalid == 0) [ true ↦ pure tt | false ↦ poll fuel ]

unfoldable pub wait_for_call : M (Unit {0})
wait_for_call = do rounds ← gets_of (λ m. m.rounds); poll rounds

unfoldable pub finalize_call : ℕ → M (Unit {0})
finalize_call retval = do xil_out32 Reg.retval retval; putd Sts.host retval

-- The fifteen words of a call.
unfoldable pub read_parameters : M Call
read_parameters = do
  scenario ← getd Cmd.host
  len ← getd Cmd.host
  comm ← getd Cmd.host
  root_src_dst ← getd Cmd.host
  function ← getd Cmd.host
  msg_tag ← getd Cmd.host
  buf0_type ← getd Cmd.host
  buf1_type ← getd Cmd.host
  buf2_type ← getd Cmd.host
  buf0_addrl ← getd Cmd.host
  buf0_addrh ← getd Cmd.host
  buf1_addrl ← getd Cmd.host
  buf1_addrh ← getd Cmd.host
  buf2_addrl ← getd Cmd.host
  buf2_addrh ← getd Cmd.host
  pure (record {
    scenario = scenario;
    len = len;
    comm = comm;
    root_src_dst = root_src_dst;
    function = function;
    msg_tag = msg_tag;
    buf0_type = buf0_type;
    buf1_type = buf1_type;
    buf2_type = buf2_type;
    addra = join_words buf0_addrh buf0_addrl;
    addrb = join_words buf1_addrh buf1_addrl;
    addrc = join_words buf2_addrh buf2_addrl;
  })

-- A computation that returns no code of its own.
abbrev with_code : ℕ → M (Unit {0}) → M ℕ
with_code code c = c >> pure code

unfoldable pub set_dma_transaction_size : ℕ → M ℕ
set_dma_transaction_size len =
    if leb len dma_max_btt
    then (do
      modify (λ m. record m { dma_transaction_size = len })
      start_timer1
      time ← read_timer1
      xil_out32 Reg.time_to_access_exch_mem time
      pure Code.success)
    else pure Code.dma_not_expected_btt

unfoldable pub set_max_dma_transactions : ℕ → M ℕ
set_max_dma_transactions len =
    if leb len dma_max_transactions
    then with_code Code.success (modify (λ m. record m { max_dma_in_flight = len }))
    else pure Code.dma_not_okay

unfoldable pub enable_packetizers : M (Unit {0})
enable_packetizers = do
  start_depacketizer Reg.udp_rxpkt
  start_depacketizer Reg.tcp_rxpkt
  start_packetizer Reg.udp_txpkt max_packetsize
  start_packetizer Reg.tcp_txpkt max_packetsize

unfoldable pub enable_interrupts : M (Unit {0})
enable_interrupts = do
  tcp ← gets_of (λ m. m.use_tcp)
  setup_irq (bit_or (cmd_queue_empty tcp) (sts_queue_non_empty tcp))
  let_in

-- The `switch` on the function of XCCL_CONFIG.
unfoldable pub configure : ℕ → Call → M ℕ
configure gpio c =
    let f = c.function in
    if f == 0
    then with_code 0 enable_interrupts
    else if f == 1
    then with_code 0 (setup_irq 0 >> clear_timer_interrupt)
    else if f == 2
    then with_code 0 (encore_soft_reset gpio)
    else if f == 3
    then with_code 0 enable_packetizers
    else if f == 4
    then with_code 0 (modify (λ m. record m { timeout = c.len }))
    else if f == 5
    then init_connection c.comm
    else if f == 6
    then open_port c.comm
    else if f == 7
    then open_con c.comm
    else if f == 8
    then with_code 0 (modify (λ m. record m { use_tcp = true }))
    else if f == 9
    then with_code 0 (modify (λ m. record m { use_tcp = false }))
    else if f == 12
    then set_dma_transaction_size c.len
    else if f == 13
    then set_max_dma_transactions c.len
    else pure 0

-- The `switch` on the scenario.
unfoldable pub carry_out : ℕ → Call → M ℕ
carry_out gpio c =
    let s = c.scenario in
    if s == 0
    then configure gpio c
    else if s == 1
    then send c.comm c.len c.msg_tag c.root_src_dst c.addra
    else if s == 2
    then recv c.comm c.len c.msg_tag c.root_src_dst c.addra
    else if s == 3
    then broadcast_round_robin c.comm c.len c.root_src_dst c.addra
    else if s == 4
    then scatter_rr c.comm c.len c.root_src_dst c.addra c.addrb
    else if s == 5
    then gather_ring c.comm c.len c.root_src_dst c.addra c.addrb
    else if s == 6
    then reduce_ring_streaming c.comm c.len c.function c.root_src_dst c.addra c.addrb
    else if s == 7
    then allgather_ring c.comm c.len c.addra c.addrb
    else if s == 8
    then all_reduce_share c.comm c.len c.function c.addra c.addrb
    else if s == 9
    then accumulate c.len c.function c.addra c.addrb c.addrb
    else if s == 10
    then copy c.len c.addra c.addrb
    else if s == 15
    then ext_kernel_stream c.len c.addra c.addrb
    else if s == 16
    then reduce_ext c.len c.addra c.addrb c.addrc
    else if s == 20
    then scatter_reduce c.comm c.len c.function c.addra c.addrb
    else pure Code.success

-- One round of the main loop.
unfoldable pub serve : ℕ → M (Unit {0})
serve gpio = do wait_for_call; c ← read_parameters; retval ← carry_out gpio c; finalize_call retval

-- The return of `setjmp` after a `longjmp`: the code that was raised is the answer.
unfoldable pub recover : Result (Unit {0}) × Machine → Result (Unit {0}) × Machine
recover (ok u, m) = (ok u, m)
recover (stop (raised code), m) = finalize_call code m
recover (stop waits, m) = (stop waits, m)
recover (stop fault, m) = (stop fault, m)
recover (stop out_of_fuel, m) = (stop out_of_fuel, m)

-- A round, with the recovery after a `longjmp`.
unfoldable pub serve_call : ℕ → M (Unit {0})
serve_call gpio m = recover (serve gpio m)
