-- ===== src/Firmware/Frame/Spares.antt =====
-- The table of spare buffers, the interrupt's handler and the waits on the table keep what depends on
-- none of the parts that they change.
use accl.Base.{
  ℕ, zero, suc, ◌+◌, ◌%◌, true, ◌&&◌, ◌||◌, ◌==◌, leb, if◌then◌else◌, u32, some, [], ◌∷◌, length,
}
use accl.Firmware.Machine.{
  Machine, RxBuffer, Result, ok, pure, ◌>>=◌, ◌>>◌, gets_of, modify, entry, xil_out32,
}
use accl.Firmware.Keeps.{
  Keeps, Keeps-bind, Keeps-then, Keeps-pure, Keeps-gets, Keeps-elim, Keeps-raise, Keeps-modify,
  Keeps-or_stop, Keeps-option, monad,
}
use accl.Firmware.Reg
use accl.Firmware.Code
use accl.Firmware.Frame.{IsFrame}
use accl.Firmware.Frame.Calls.{
  if_apart, words, getd-Keeps, tngetd-Keeps, xil_out32-Keeps, get_irq-Keeps,
  clear_timer_interrupt-Keeps, start_timer1-Keeps, read_timer1-Keeps, setup_irq-Keeps,
  start_timeout-Keeps, cancel_timeout-Keeps, ack_irq-Keeps,
}
use accl.Firmware.Frame.Moves.{check_dma_status-Keeps, dma_cmd_addrh_addrl-Keeps, rank_at-Keeps}
use accl.Firmware.Frame.Messages.{set_rank-Keeps}
use accl.Firmware.Dma.{expired, check_dma_status}
use accl.Firmware.Comm.{World, rank_at, set_rank}
use accl.Firmware.Buffers.{
  status_idle, status_enqueued, status_reserved, max_dma_tags, free_tag, buffer_at, set_buffer,
  record_buffer, enqueue_one, enqueue_from, enqueue_rx_buffers, read_header, release_tag,
  dequeue_one, dequeue_loop, dequeue_rx_buffers, sts_queue_non_empty, cmd_queue_empty, timer_enable,
  pending, stream_isr, let_in, Wanted, matches_buffer, scan, t_wait_receive_world_i, wait_loop,
  wait_receive_world_i, free_buffer,
}

module _ (P : Machine → Type 0) where
  pub buffer_at-Keeps : (i : ℕ) → Keeps P (buffer_at i)
  unfolding buffer_at Keeps
  buffer_at-Keeps i m p = Keeps-or_stop P _ _ m p

module _ (P : Machine → Type 0) (f : IsFrame P) where
  set_buffer-Keeps : (i : ℕ) (b : RxBuffer) → Keeps P (set_buffer i b)
  unfolding set_buffer
  set_buffer-Keeps i b = Keeps-modify P _ (λ m p. f.keep_buffers m i b p)

  record_buffer-Keeps : (i tag : ℕ) → Keeps P (modify (record_buffer i tag))
  unfolding record_buffer
  record_buffer-Keeps i tag = Keeps-modify P _ (λ m p. f.keep_tags m _ _ p)

  release_tag-Keeps : (tag : ℕ) → Keeps P (modify (release_tag tag))
  unfolding release_tag
  release_tag-Keeps tag = Keeps-modify P _ (λ m p. f.keep_tags m _ _ p)

  enqueue_one-Keeps : (i : ℕ) (b : RxBuffer) (tag : ℕ) → Keeps P (enqueue_one i b tag)
  unfolding enqueue_one
  enqueue_one-Keeps i b tag =
      search (monad, dma_cmd_addrh_addrl-Keeps, if_apart, set_buffer-Keeps, record_buffer-Keeps)
        depth 8

  enqueue_from-Keeps : (i k ret : ℕ) → Keeps P (enqueue_from i k ret)
  unfolding enqueue_from
  enqueue_from-Keeps i zero ret = search monad
  enqueue_from-Keeps i (suc k) ret =
      Keeps-bind P (gets_of (λ m. m.num_rx_enqueued)) _ (Keeps-gets P _) (λ num.
        Keeps-bind P (gets_of (λ m. m.dma_tag_lookup)) _ (Keeps-gets P _) (λ lookup.
          Keeps-bind P _ _ (buffer_at-Keeps P i) (λ b.
            Keeps-elim P (leb 16 num) _ _ (Keeps-pure P ret) (
              Keeps-elim P (b.status == status_idle) _ _
                (Keeps-elim P (leb max_dma_tags (free_tag lookup 0)) _ _ (Keeps-pure P ret) (
                  Keeps-then P _ _ (enqueue_one-Keeps i b (free_tag lookup 0))
                    (enqueue_from-Keeps (suc i) k (ret + 1))))
                (enqueue_from-Keeps (suc i) k ret)))))

  pub enqueue_rx_buffers-Keeps : Keeps P enqueue_rx_buffers
  unfolding enqueue_rx_buffers
  enqueue_rx_buffers-Keeps = search (monad, enqueue_from-Keeps)

  read_header-Keeps : (net_rx_id i : ℕ) (b : RxBuffer) → Keeps P (read_header net_rx_id i b)
  unfolding read_header
  read_header-Keeps net_rx_id i b = search (words, set_buffer-Keeps) depth 14

  read_in-Keeps :
      (net_rx_id status i : ℕ) (b : RxBuffer)
      → Keeps P (do
        b' ← read_header net_rx_id i b
        modify (release_tag (status % 16))
        check_dma_status status b'.rx_len b'.dma_tag true
        set_buffer i (record b' { status = status_reserved }))
  read_in-Keeps net_rx_id status i b =
      search (monad, read_header-Keeps, release_tag-Keeps, check_dma_status-Keeps, set_buffer-Keeps)
        depth 8

  dequeue_one-Keeps : (net_rx_id status : ℕ) → Keeps P (dequeue_one net_rx_id status)
  unfolding dequeue_one
  dequeue_one-Keeps net_rx_id status =
      Keeps-bind P (gets_of (λ m. m.dma_tag_lookup)) _ (Keeps-gets P _) (λ lookup.
        Keeps-bind P _ _ (Keeps-or_stop P (entry lookup (status % 16)) _) (λ slot.
          Keeps-bind P _ _ (Keeps-or_stop P slot _) (λ i.
            Keeps-bind P _ _ (buffer_at-Keeps P i) (λ b.
              Keeps-elim P (b.status == status_enqueued) _ _
                (Keeps-elim P (b.dma_tag == status % 16) _ _
                  (Keeps-bind P (gets_of (λ m. length m.rx_buffers)) _ (Keeps-gets P _) (λ nbufs.
                    Keeps-elim P (leb nbufs i) _ _ (Keeps-raise P _ Code.dequeue_buffer_index)
                      (read_in-Keeps net_rx_id status i b)))
                  (Keeps-raise P _ Code.dequeue_buffer_dmatag_mismatch))
                (Keeps-raise P _ Code.dequeue_buffer_status)))))

  dequeue_loop-Keeps :
      (fuel dma_tx_id net_rx_id : ℕ) → Keeps P (dequeue_loop fuel dma_tx_id net_rx_id)
  unfolding dequeue_loop
  dequeue_loop-Keeps zero dma_tx_id net_rx_id = search monad
  dequeue_loop-Keeps (suc fuel) dma_tx_id net_rx_id =
      Keeps-bind P _ _ (tngetd-Keeps P f dma_tx_id) (λ invalid.
        Keeps-elim P (invalid == 0) _ _
          (Keeps-bind P _ _ (getd-Keeps P f dma_tx_id) (λ status.
            Keeps-then P _ _ (dequeue_one-Keeps net_rx_id status)
              (dequeue_loop-Keeps fuel dma_tx_id net_rx_id)))
          (Keeps-pure P tt))

  dequeue_rx_buffers-Keeps : Keeps P dequeue_rx_buffers
  unfolding dequeue_rx_buffers
  dequeue_rx_buffers-Keeps = search (monad, dequeue_loop-Keeps)

  stream_isr-Keeps : Keeps P stream_isr
  unfolding stream_isr
  stream_isr-Keeps = Keeps-bind P _ _ (get_irq-Keeps P f) (λ irq.
      Keeps-then P _ _
        (Keeps-elim P (pending irq timer_enable) _ _ (clear_timer_interrupt-Keeps P f)
          (Keeps-pure P tt))
        (Keeps-bind P (gets_of (λ m. m.use_tcp)) _ (Keeps-gets P _) (λ tcp.
          Keeps-then P _ _
            (Keeps-elim P (pending irq (sts_queue_non_empty tcp)) _ _ dequeue_rx_buffers-Keeps
              (Keeps-pure P tt))
            (Keeps-then P _ _ (start_timer1-Keeps P f) (
              Keeps-bind P _ _ enqueue_rx_buffers-Keeps (λ n_enqueued.
                Keeps-bind P _ _ (read_timer1-Keeps P f) (λ time.
                  Keeps-then P _ _ (xil_out32-Keeps P f Reg.time_to_access_exch_mem time) (
                    Keeps-then P _ _
                      (Keeps-elim P
                        ((n_enqueued == 0)
                          && (pending irq (cmd_queue_empty tcp) || pending irq timer_enable))
                        _ _ (Keeps-then P _ _ (setup_irq-Keeps P f _) (start_timeout-Keeps P f _))
                        (Keeps-then P _ _ (setup_irq-Keeps P f _) (cancel_timeout-Keeps P f)))
                      (ack_irq-Keeps P f irq)))))))))

  taken :
      (irq : ℕ)
      → Keeps P (if irq == 0 then pure tt else xil_out32 (Reg.irqctrl + 0x04) irq >> stream_isr)
  taken irq = search (monad, xil_out32-Keeps, stream_isr-Keeps)

  pub let_in-Keeps : Keeps P let_in
  unfolding Keeps let_in
  let_in-Keeps m p =
      elim m.irqs
        as (λ l.
          P
            (elim l as (λ _. Result (Unit {0}) × Machine) [
              | [] ↦ (ok tt, m)
              | irq ∷ irqs ↦
                  (if irq == 0 then pure tt else xil_out32 (Reg.irqctrl + 0x04) irq >> stream_isr)
                    (record m { irqs = irqs })
            ]).1) [
              | [] ↦ p
              | irq ∷ irqs ↦ taken irq (record m { irqs = irqs }) (f.keep_irqs m irqs p)
            ]

  found-Keeps :
      (w : World) (x : Wanted) (i : ℕ)
      → Keeps P (do
        r ← rank_at w x.src_rank
        set_rank w x.src_rank (record r { inbound_seq = u32 (r.inbound_seq + 1) })
        let_in
        pure (some i))
  found-Keeps w x i = search (monad, rank_at-Keeps, set_rank-Keeps, let_in-Keeps)

  scan-Keeps : (w : World) (x : Wanted) (seq_num i k : ℕ) → Keeps P (scan w x seq_num i k)
  unfolding scan
  scan-Keeps w x seq_num i zero = search monad
  scan-Keeps w x seq_num i (suc k) = Keeps-bind P _ _ (buffer_at-Keeps P i) (λ b.
      Keeps-elim P (matches_buffer x seq_num b) _ _ (found-Keeps w x i)
        (Keeps-then P _ _ let_in-Keeps (scan-Keeps w x seq_num (suc i) k)))

  t_wait-Keeps : (w : World) (x : Wanted) → Keeps P (t_wait_receive_world_i w x)
  unfolding t_wait_receive_world_i
  t_wait-Keeps w x = search (monad, rank_at-Keeps, scan-Keeps)

  wait_loop-Keeps :
      (fuel : ℕ) (w : World) (x : Wanted) (count : ℕ) → Keeps P (wait_loop fuel w x count)
  unfolding wait_loop
  wait_loop-Keeps zero w x count = search monad
  wait_loop-Keeps (suc fuel) w x count =
      Keeps-bind P (gets_of (λ m. m.timeout)) _ (Keeps-gets P _) (λ timeout.
        Keeps-elim P (expired timeout count) _ _ (Keeps-raise P _ Code.receive_timeout) (
          Keeps-bind P _ _ (t_wait-Keeps w x) (λ found.
            Keeps-option P found _ _ (wait_loop-Keeps fuel w x (u32 (count + 1)))
              (λ i. Keeps-pure P i))))

  pub wait_receive_world_i-Keeps : (w : World) (x : Wanted) → Keeps P (wait_receive_world_i w x)
  unfolding wait_receive_world_i
  wait_receive_world_i-Keeps w x = search (monad, wait_loop-Keeps)

  pub free_buffer-Keeps : (i : ℕ) → Keeps P (free_buffer i)
  unfolding free_buffer
  free_buffer-Keeps i = search (monad, buffer_at-Keeps, set_buffer-Keeps, let_in-Keeps)
