-- ===== src/Firmware/Buffers/Isr.antt =====
-- The interrupt handler keeps the tables of tags and spare buffers consistent.
use accl.Base.{
  ℕ, zero, suc, ◌≡◌, ◌≢◌, refl, ap, length, ◌&&◌, ◌||◌, ◌==◌, if◌then◌else◌, some, List, [], ◌∷◌,
}
use accl.Firmware.Machine.{
  Machine, Arrival, RxBuffer, entry, out_of_fuel, getd, tngetd, read_from, test_from, test_word,
  xil_out32, xil_in32,
}
use accl.Firmware.Keeps.{
  Keeps, Keeps-bind, Keeps-then, Keeps-pure, Keeps-stop, Keeps-gets, Keeps-elim,
}
use accl.Firmware.Sts
use accl.Firmware.Block.{
  get_irq, clear_timer_interrupt, start_timer1, read_timer1, disable_irq, set_irq, enable_irq,
  setup_irq, start_timeout, cancel_timeout, ack_irq,
}
use accl.Firmware.Buffers.{
  no_tags, status_enqueued, dequeue_loop, dequeue_rx_buffers, stream_isr, pending, timer_enable,
  sts_queue_non_empty, cmd_queue_empty,
}
use accl.Firmware.Buffers.Tables.{IsConsistent}
use accl.Firmware.Buffers.Inv.{Consistent, enqueue-Keeps, dequeue_one-Keeps}

read_from-Keeps : (channel : ℕ) (g : List Arrival) → Keeps Consistent (read_from channel g)
unfolding Keeps
read_from-Keeps channel [] m c = c
read_from-Keeps channel (a ∷ rest) m c = c

getd-Keeps : (channel : ℕ) → Keeps Consistent (getd channel)
unfolding Keeps getd
getd-Keeps channel m c = read_from-Keeps channel (m.gets channel) m c

test_word-Keeps :
    (channel : ℕ) (a : Arrival) (rest : List Arrival) (n : ℕ)
    → Keeps Consistent (test_word channel a rest n)
unfolding Keeps
test_word-Keeps channel a rest zero m c = c
test_word-Keeps channel a rest (suc n) m c = c

test_from-Keeps : (channel : ℕ) (g : List Arrival) → Keeps Consistent (test_from channel g)
unfolding Keeps
test_from-Keeps channel [] m c = c
test_from-Keeps channel (a ∷ rest) m c = test_word-Keeps channel a rest a.failed_tests m c

tngetd-Keeps : (channel : ℕ) → Keeps Consistent (tngetd channel)
unfolding Keeps tngetd
tngetd-Keeps channel m c = test_from-Keeps channel (m.gets channel) m c

out-Keeps : (offset value : ℕ) → Keeps Consistent (xil_out32 offset value)
unfolding Keeps xil_out32
out-Keeps offset value m c = c

in-Keeps : (offset : ℕ) → Keeps Consistent (xil_in32 offset)
unfolding Keeps xil_in32
in-Keeps offset m c = c

dequeue_loop-Keeps :
    (fuel dma_tx_id net_rx_id : ℕ) → Keeps Consistent (dequeue_loop fuel dma_tx_id net_rx_id)
unfolding dequeue_loop
dequeue_loop-Keeps zero tx net = Keeps-stop Consistent _ out_of_fuel
dequeue_loop-Keeps (suc fuel) tx net = Keeps-bind Consistent _ _ (tngetd-Keeps tx) (λ invalid.
    Keeps-elim Consistent (invalid == 0) _ _
      (Keeps-bind Consistent _ _ (getd-Keeps tx) (λ status.
        Keeps-then Consistent _ _ (dequeue_one-Keeps net status) (dequeue_loop-Keeps fuel tx net)))
      (Keeps-pure Consistent tt))

dequeue-Keeps : Keeps Consistent dequeue_rx_buffers
unfolding dequeue_rx_buffers
dequeue-Keeps = Keeps-bind Consistent _ _ (Keeps-gets Consistent (λ m. m.use_tcp)) (λ tcp.
    Keeps-bind Consistent _ _ (Keeps-gets Consistent (λ m. m.rounds)) (λ rounds.
      dequeue_loop-Keeps rounds (if tcp then Sts.dma2_tx else Sts.dma0_tx)
        (if tcp then Sts.tcp_rx else Sts.udp_rx)))

setup-Keeps : (mask : ℕ) → Keeps Consistent (setup_irq mask)
unfolding Keeps setup_irq disable_irq set_irq enable_irq xil_out32
setup-Keeps mask m c = c

timer1-Keeps : Keeps Consistent start_timer1
unfolding Keeps start_timer1 xil_out32
timer1-Keeps m c = c

start_timeout-Keeps : (time : ℕ) → Keeps Consistent (start_timeout time)
unfolding Keeps start_timeout xil_out32
start_timeout-Keeps time m c = c

isr-Keeps : Keeps Consistent stream_isr
unfolding stream_isr get_irq clear_timer_interrupt cancel_timeout ack_irq read_timer1
isr-Keeps = Keeps-bind Consistent _ _ (in-Keeps _) (λ irq.
    Keeps-then Consistent _ _
      (Keeps-elim Consistent (pending irq timer_enable) _ _ (out-Keeps _ _)
        (Keeps-pure Consistent tt))
      (Keeps-bind Consistent _ _ (Keeps-gets Consistent (λ m. m.use_tcp)) (λ tcp.
        Keeps-then Consistent _ _
          (Keeps-elim Consistent (pending irq (sts_queue_non_empty tcp)) _ _ dequeue-Keeps
            (Keeps-pure Consistent tt))
          (Keeps-then Consistent _ _ timer1-Keeps (
            Keeps-bind Consistent _ _ enqueue-Keeps (λ n.
              Keeps-bind Consistent _ _ (in-Keeps _) (λ time.
                Keeps-then Consistent _ _ (out-Keeps _ _) (
                  Keeps-then Consistent _ _
                    (Keeps-elim Consistent
                      ((n == 0) && (pending irq (cmd_queue_empty tcp) || pending irq timer_enable))
                      _ _ (Keeps-then Consistent _ _ (setup-Keeps _) (start_timeout-Keeps _))
                      (Keeps-then Consistent _ _ (setup-Keeps _) (out-Keeps _ _)))
                    (out-Keeps _ _)))))))))

-- The handler, in whatever way it ends, leaves the tables consistent if they were: each tag in use
-- stands for a spare buffer of the table that is with the engine under that tag, each buffer that is
-- with the engine has its tag in the table, and there are sixteen tags.
pub stream_isr-IsConsistent : (m : Machine) → Consistent m → Consistent (stream_isr m).1
unfolding Keeps
stream_isr-IsConsistent m c = isr-Keeps m c

no_tag_used : (n t i : ℕ) → entry (no_tags n) t ≢ some (some i)
unfolding no_tags
no_tag_used zero t i h = cc
no_tag_used (suc n) zero i h = cc
no_tag_used (suc n) (suc t) i h = no_tag_used n t i h

length-no_tags : (n : ℕ) → length (no_tags n) ≡ n
unfolding no_tags
length-no_tags zero = refl
length-no_tags (suc n) = ap suc (length-no_tags n)

-- What startup and reset leave, with buffers that the host has set up since, is consistent.
pub startup-IsConsistent :
    (bufs : List RxBuffer)
    → ((i : ℕ) (b : RxBuffer) → entry bufs i ≡ some b → b.status ≢ status_enqueued)
    → IsConsistent (no_tags 16) bufs
startup-IsConsistent bufs h = record {
  within = λ t i e. absurd (no_tag_used 16 t i e);
  tagged = λ t i b e f. absurd (no_tag_used 16 t i e);
  found = λ i b e s. absurd (h i b e s);
  tags = length-no_tags 16;
}
