-- ===== src/Firmware/Buffers.antt =====
-- The spare buffers (ccl_offload_control.c): given to the DMA engine that the network writes to, taken
-- back when a message is in, matched by a receive, and freed. `rx_buffers` is the table, whose
-- length is the number at RX_BUFFER_COUNT_OFFSET.
pub mod Tables
pub mod Inv
pub mod Isr
use Prim.Native.Nat.{bit_and, bit_or}
use accl.Base.{
  ℕ, zero, suc, ◌+◌, ◌-◌, ◌*◌, ◌%◌, ◌^◌, Bool, true, false, ◌&&◌, ◌||◌, not, ◌==◌, ltb, leb,
  if◌then◌else◌, u32, Option, none, some, List, [], ◌∷◌, set, length, get_range,
}
use accl.Firmware.Machine.{
  Machine, RxBuffer, Rank, M, Result, ok, pure, stop_with, raise, fault, out_of_fuel, gets_of,
  modify, ◌>>=◌, ◌>>◌, entry, or_stop, bit, getd, tngetd, xil_out32, xil_in32,
}
use accl.Firmware.Cmd
use accl.Firmware.Sts
use accl.Firmware.Code
use accl.Firmware.Reg
use accl.Firmware.Comm.{World, rank_at, set_rank}
use accl.Firmware.Dma.{dma_max_btt, dma_cmd_addrh_addrl, check_dma_status, expired}
use accl.Firmware.Block.{
  get_irq, clear_timer_interrupt, start_timer1, read_timer1, setup_irq, start_timeout,
  cancel_timeout, ack_irq,
}

abbrev pub status_idle : ℕ
status_idle = 0

abbrev pub status_enqueued : ℕ
status_enqueued = 1

abbrev pub status_reserved : ℕ
status_reserved = 2

abbrev pub status_error : ℕ
status_error = 4

abbrev pub max_dma_tags : ℕ
max_dma_tags = 16

-- The table of tags when no buffer has one, as startup and reset leave it.
unfoldable pub no_tags : ℕ → List (Option ℕ)
no_tags zero = []
no_tags (suc n) = none ∷ no_tags n

-- The loop for a new tag: the first from `tag` on that no buffer has.
unfoldable pub free_tag : List (Option ℕ) → ℕ → ℕ
free_tag [] tag = tag
free_tag (none ∷ lookup) tag = tag
free_tag (some i ∷ lookup) tag = free_tag lookup (suc tag)

-- `rx_buf_list[i]`
unfoldable pub buffer_at : ℕ → M RxBuffer
buffer_at i m = or_stop (entry m.rx_buffers i) fault m

unfoldable pub set_buffer : ℕ → RxBuffer → M (Unit {0})
set_buffer i b = modify (λ m. record m { rx_buffers = set m.rx_buffers i b })

-- The assignments for a buffer that is given to the engine.
unfoldable pub record_buffer : ℕ → ℕ → Machine → Machine
record_buffer i tag m = record m {
  dma_tag_lookup = set m.dma_tag_lookup tag (some i);
  num_rx_enqueued = m.num_rx_enqueued + 1;
}

unfoldable pub enqueue_one : ℕ → RxBuffer → ℕ → M (Unit {0})
enqueue_one i b tag = do
  tcp ← gets_of (λ m. m.use_tcp)
  dma_cmd_addrh_addrl (if tcp then Cmd.dma2_tx else Cmd.dma0_tx) dma_max_btt b.addrh b.addrl tag
  set_buffer i (record b { status = status_enqueued; dma_tag = tag })
  modify (record_buffer i tag)

-- The loop over the table, for `k` more values of its counter.
unfoldable pub enqueue_from : ℕ → ℕ → ℕ → M ℕ
enqueue_from i zero ret = pure ret
enqueue_from i (suc k) ret = do
  num ← gets_of (λ m. m.num_rx_enqueued)
  lookup ← gets_of (λ m. m.dma_tag_lookup)
  b ← buffer_at i
  elim (leb 16 num) [
    | true ↦ pure ret
    | false ↦ elim (b.status == status_idle) [
      | false ↦ enqueue_from (suc i) k ret
      | true ↦ elim (leb max_dma_tags (free_tag lookup 0)) [
        | true ↦ pure ret
        | false ↦ do enqueue_one i b (free_tag lookup 0); enqueue_from (suc i) k (ret + 1)
      ]
    ]
  ]

unfoldable pub enqueue_rx_buffers : M ℕ
enqueue_rx_buffers = do nbufs ← gets_of (λ m. length m.rx_buffers); enqueue_from 0 nbufs 0

-- The header that comes with a message, written into its buffer. The status is an error until
-- the status of the engine is checked.
unfoldable pub read_header : ℕ → ℕ → RxBuffer → M RxBuffer
read_header net_rx_id i b = do
  len ← getd net_rx_id
  set_buffer i (record b { rx_len = len })
  tag ← getd net_rx_id
  set_buffer i (record b { rx_len = len; rx_tag = tag })
  src ← getd net_rx_id
  set_buffer i (record b { rx_len = len; rx_tag = tag; rx_src = src })
  seq ← getd net_rx_id
  let b' = record b {
    rx_len = len;
    rx_tag = tag;
    rx_src = src;
    sequence_number = seq;
    status = status_error;
  }
  set_buffer i b'
  pure b'

-- The assignments for a buffer that is taken back from the engine; the count is unsigned.
unfoldable pub release_tag : ℕ → Machine → Machine
release_tag tag m = record m {
  num_rx_enqueued = u32 (m.num_rx_enqueued + 2 ^ 32 - 1);
  dma_tag_lookup = set m.dma_tag_lookup tag none;
}

-- A status of the engine: the buffer of its tag is checked and gets the header. The tag of no buffer
-- reads outside of the table.
unfoldable pub dequeue_one : ℕ → ℕ → M (Unit {0})
dequeue_one net_rx_id status = do
  let tag = status % 16
  lookup ← gets_of (λ m. m.dma_tag_lookup)
  slot ← or_stop (entry lookup tag) fault
  i ← or_stop slot fault
  b ← buffer_at i
  elim (b.status == status_enqueued) [
    | false ↦ raise Code.dequeue_buffer_status
    | true ↦ elim (b.dma_tag == tag) [
      | false ↦ raise Code.dequeue_buffer_dmatag_mismatch
      | true ↦ do
        nbufs ← gets_of (λ m. length m.rx_buffers)
        elim (leb nbufs i) [
          | true ↦ raise Code.dequeue_buffer_index
          | false ↦ do
            b' ← read_header net_rx_id i b
            modify (release_tag tag)
            check_dma_status status b'.rx_len b'.dma_tag true
            set_buffer i (record b' { status = status_reserved })
        ]
    ]
  ]

-- The loop, until a test finds the stream of statuses empty; `count` is 0 whenever it is compared with
-- the timeout, which is then not 0.
unfoldable pub dequeue_loop : ℕ → ℕ → ℕ → M (Unit {0})
dequeue_loop zero dma_tx_id net_rx_id = stop_with out_of_fuel
dequeue_loop (suc fuel) dma_tx_id net_rx_id = do
  invalid ← tngetd dma_tx_id
  elim (invalid == 0) [
    | false ↦ pure tt
    | true ↦ do
      status ← getd dma_tx_id
      dequeue_one net_rx_id status
      dequeue_loop fuel dma_tx_id net_rx_id
  ]

unfoldable pub dequeue_rx_buffers : M (Unit {0})
dequeue_rx_buffers = do
  tcp ← gets_of (λ m. m.use_tcp)
  rounds ← gets_of (λ m. m.rounds)
  dequeue_loop rounds (if tcp then Sts.dma2_tx else Sts.dma0_tx)
      (if tcp then Sts.tcp_rx else Sts.udp_rx)

-- The interrupts of the engine that is in use, as bits of the pending register.
abbrev pub sts_queue_non_empty : Bool → ℕ
sts_queue_non_empty tcp = if tcp then 0x10 else 0x04

abbrev pub cmd_queue_empty : Bool → ℕ
cmd_queue_empty tcp = if tcp then 0x08 else 0x02

abbrev pub timer_enable : ℕ
timer_enable = 0x01

abbrev pub pending : ℕ → ℕ → Bool
pending irq mask = not (bit_and irq mask == 0)

unfoldable pub stream_isr : M (Unit {0})
stream_isr = do
  irq ← get_irq
  elim (pending irq timer_enable) [ true ↦ clear_timer_interrupt | false ↦ pure tt ]
  tcp ← gets_of (λ m. m.use_tcp)
  elim (pending irq (sts_queue_non_empty tcp)) [ true ↦ dequeue_rx_buffers | false ↦ pure tt ]
  start_timer1
  n_enqueued ← enqueue_rx_buffers
  time ← read_timer1
  xil_out32 Reg.time_to_access_exch_mem time
  elim ((n_enqueued == 0) && (pending irq (cmd_queue_empty tcp) || pending irq timer_enable)) [
    | true ↦ do setup_irq (bit_or (sts_queue_non_empty tcp) timer_enable); start_timeout 100000
    | false ↦ do setup_irq (bit_or (sts_queue_non_empty tcp) (cmd_queue_empty tcp)); cancel_timeout
  ]
  ack_irq irq

-- `microblaze_enable_interrupts`, of the processor's library: an interrupt that is pending runs the
-- handler.
unfoldable pub let_in : M (Unit {0})
let_in m = elim m.irqs [
  | [] ↦ (ok tt, m)
  | irq ∷ irqs ↦
      (if irq == 0 then pure tt else xil_out32 (Reg.irqctrl + 0x04) irq >> stream_isr)
        (record m { irqs = irqs })
]

abbrev pub tag_any : ℕ
tag_any = 2 ^ 32 - 1

-- The message that a receive waits for.
pub record Wanted : Type 0 where
  pub src_rank : ℕ
  pub len : ℕ
  pub tag : ℕ

-- Whether a buffer holds it, with the sequence number.
unfoldable pub matches_buffer : Wanted → ℕ → RxBuffer → Bool
matches_buffer x seq_num b =
    (b.status == status_reserved)
    && ((b.rx_src == x.src_rank)
        && ((b.rx_len == x.len)
            && (((b.rx_tag == x.tag) || (x.tag == tag_any)) && (b.sequence_number == seq_num))))

-- The loop over the table, for `k` more values of its counter; `none` is -1.
unfoldable pub scan : World → Wanted → ℕ → ℕ → ℕ → M (Option ℕ)
scan w x seq_num i zero = pure none
scan w x seq_num i (suc k) = do
  b ← buffer_at i
  elim (matches_buffer x seq_num b) [
    | true ↦ do
      r ← rank_at w x.src_rank
      set_rank w x.src_rank (record r { inbound_seq = u32 (r.inbound_seq + 1) })
      let_in
      pure (some i)
    | false ↦ do let_in; scan w x seq_num (suc i) k
  ]

unfoldable pub t_wait_receive_world_i : World → Wanted → M (Option ℕ)
t_wait_receive_world_i w x = do
  r ← rank_at w x.src_rank
  nbufs ← gets_of (λ m. length m.rx_buffers)
  scan w x (u32 (r.inbound_seq + 1)) 0 nbufs

unfoldable pub wait_loop : ℕ → World → Wanted → ℕ → M ℕ
wait_loop zero w x count = stop_with out_of_fuel
wait_loop (suc fuel) w x count = do
  timeout ← gets_of (λ m. m.timeout)
  elim (expired timeout count) [
    | true ↦ raise Code.receive_timeout
    | false ↦ do
      found ← t_wait_receive_world_i w x
      elim found [ some i ↦ pure i | none ↦ wait_loop fuel w x (u32 (count + 1)) ]
  ]

unfoldable pub wait_receive_world_i : World → Wanted → M ℕ
wait_receive_world_i w x = do rounds ← gets_of (λ m. m.rounds); wait_loop rounds w x 0

-- The assignment that frees a buffer.
unfoldable pub free_buffer : ℕ → M (Unit {0})
free_buffer i = do b ← buffer_at i; set_buffer i (record b { status = status_idle }); let_in
