-- ===== src/Firmware/Frame/Served.antt =====
-- A call, from its words to the status, keeps what depends on none of the parts that it changes; a
-- call of scenario 0 changes the settings too.
use accl.Base.{ℕ, ◌≡◌, refl, Bool, true, false, ◌==◌, zero, suc}
use accl.HostCtrl.{Call}
use accl.Firmware.Machine.{Machine, modify}
use accl.Firmware.Keeps.{Keeps, Keeps-bind, Keeps-pure, Keeps-elim, Keeps-modify, otherwise, monad}
use accl.Firmware.Cmd
use accl.Firmware.Frame.{IsFrame}
use accl.Firmware.Frame.Calls.{
  words, tngetd-Keeps, xil_out32-Keeps, xil_in32-Keeps, set_mask-Keeps, clr_mask-Keeps,
  setup_irq-Keeps, clear_timer_interrupt-Keeps, start_timer1-Keeps, read_timer1-Keeps,
  start_packetizer-Keeps, start_depacketizer-Keeps,
}
use accl.Firmware.Frame.Messages.{init_connection-Keeps, open_port-Keeps, open_con-Keeps}
use accl.Firmware.Frame.Spares.{let_in-Keeps}
use accl.Firmware.Frame.Moving.{
  send-Keeps, recv-Keeps, accumulate-Keeps, copy-Keeps, ext_kernel_stream-Keeps, reduce_ext-Keeps,
}
use accl.Firmware.Frame.Collectives.{
  broadcast_round_robin-Keeps, scatter_rr-Keeps, gather_ring-Keeps, reduce_ring_streaming-Keeps,
  allgather_ring-Keeps, all_reduce_share-Keeps, scatter_reduce-Keeps,
}
use accl.Firmware.Main.{
  check_hwid, clear_exchmem, clear_tags, encore_soft_reset, poll, wait_for_call, read_parameters,
  set_dma_transaction_size, set_max_dma_transactions, enable_packetizers, enable_interrupts,
  configure, carry_out,
}

-- What a call of scenario 0 may change too: the settings, and the whole exchange memory.
pub record IsCallFrame (P : Machine → Type 0) : Type 0 where
  pub frame : IsFrame P
  pub keep_settings :
      (m : Machine) (tcp : Bool) (time size max : ℕ)
      → P m
      → P (record m {
        use_tcp = tcp;
        timeout = time;
        dma_transaction_size = size;
        max_dma_in_flight = max;
      })
  pub keep_reset : (m : Machine) → P m → P (clear_exchmem m)

module _ (P : Machine → Type 0) (f : IsFrame P) where
  clear_tags-Keeps : Keeps P (modify clear_tags)
  unfolding clear_tags
  clear_tags-Keeps = Keeps-modify P _ (λ m p. f.keep_tag _ 0 (f.keep_tags m m.num_rx_enqueued _ p))

  none_enqueued-Keeps : Keeps P (modify (λ m. record m { num_rx_enqueued = 0 }))
  none_enqueued-Keeps = Keeps-modify P _ (λ m p. f.keep_tags m 0 m.dma_tag_lookup p)

  check_hwid-Keeps : (gpio : ℕ) → Keeps P (check_hwid gpio)
  unfolding check_hwid
  check_hwid-Keeps gpio = search (monad, xil_in32-Keeps, xil_out32-Keeps)

  poll-Keeps : (fuel : ℕ) → Keeps P (poll fuel)
  unfolding poll
  poll-Keeps zero = search monad
  poll-Keeps (suc fuel) =
      Keeps-bind P _ _ (tngetd-Keeps P f Cmd.host)
        (λ invalid. Keeps-elim P (invalid == 0) _ _ (Keeps-pure P tt) (poll-Keeps fuel))

  pub wait_for_call-Keeps : Keeps P wait_for_call
  unfolding wait_for_call
  wait_for_call-Keeps = search (monad, poll-Keeps)

  pub read_parameters-Keeps : Keeps P read_parameters
  unfolding read_parameters
  read_parameters-Keeps = search words depth 20 fits 2000

  enable_packetizers-Keeps : Keeps P enable_packetizers
  unfolding enable_packetizers
  enable_packetizers-Keeps = search (monad, start_packetizer-Keeps, start_depacketizer-Keeps)

  enable_interrupts-Keeps : Keeps P enable_interrupts
  unfolding enable_interrupts
  enable_interrupts-Keeps = search (monad, setup_irq-Keeps, let_in-Keeps)

  -- Any scenario but the configuration.
  pub collective-Keeps :
      (gpio : ℕ) (call : Call) → (call.scenario == 0) ≡ false → Keeps P (carry_out gpio call)
  unfolding carry_out
  collective-Keeps gpio call h = otherwise P _ _ _ h (
      search
        (
          monad, send-Keeps, recv-Keeps, broadcast_round_robin-Keeps, scatter_rr-Keeps,
          gather_ring-Keeps, reduce_ring_streaming-Keeps, allgather_ring-Keeps,
          all_reduce_share-Keeps, accumulate-Keeps, copy-Keeps, ext_kernel_stream-Keeps,
          reduce_ext-Keeps, scatter_reduce-Keeps,
        )
        depth 20 fits 2000)

module _ (P : Machine → Type 0) (c : IsCallFrame P) where
  clear_exchmem-Keeps : Keeps P (modify clear_exchmem)
  clear_exchmem-Keeps = Keeps-modify P _ c.keep_reset

  soft_reset-Keeps : (gpio : ℕ) → Keeps P (encore_soft_reset gpio)
  unfolding encore_soft_reset
  soft_reset-Keeps gpio =
      search
        (
          monad, setup_irq-Keeps, clr_mask-Keeps, clear_exchmem-Keeps, none_enqueued-Keeps,
          clear_tags-Keeps, check_hwid-Keeps, set_mask-Keeps, c.frame,
        )
        depth 10

  timeout-Keeps : (n : ℕ) → Keeps P (modify (λ m. record m { timeout = n }))
  timeout-Keeps n =
      Keeps-modify P _
        (λ m p. c.keep_settings m m.use_tcp n m.dma_transaction_size m.max_dma_in_flight p)

  use_tcp-Keeps : (b : Bool) → Keeps P (modify (λ m. record m { use_tcp = b }))
  use_tcp-Keeps b =
      Keeps-modify P _
        (λ m p. c.keep_settings m b m.timeout m.dma_transaction_size m.max_dma_in_flight p)

  size-Keeps : (n : ℕ) → Keeps P (modify (λ m. record m { dma_transaction_size = n }))
  size-Keeps n =
      Keeps-modify P _ (λ m p. c.keep_settings m m.use_tcp m.timeout n m.max_dma_in_flight p)

  max-Keeps : (n : ℕ) → Keeps P (modify (λ m. record m { max_dma_in_flight = n }))
  max-Keeps n =
      Keeps-modify P _ (λ m p. c.keep_settings m m.use_tcp m.timeout m.dma_transaction_size n p)

  set_size-Keeps : (len : ℕ) → Keeps P (set_dma_transaction_size len)
  unfolding set_dma_transaction_size
  set_size-Keeps len =
      search (monad, size-Keeps, start_timer1-Keeps, read_timer1-Keeps, xil_out32-Keeps, c.frame)
        depth 8

  set_max-Keeps : (len : ℕ) → Keeps P (set_max_dma_transactions len)
  unfolding set_max_dma_transactions
  set_max-Keeps len = search (monad, max-Keeps)

  configure-Keeps : (gpio : ℕ) (call : Call) → Keeps P (configure gpio call)
  unfolding configure
  configure-Keeps gpio call =
      search
        (
          monad, c.frame, enable_interrupts-Keeps, setup_irq-Keeps, clear_timer_interrupt-Keeps,
          soft_reset-Keeps, enable_packetizers-Keeps, timeout-Keeps, init_connection-Keeps,
          open_port-Keeps, open_con-Keeps, use_tcp-Keeps, set_size-Keeps, set_max-Keeps,
        )
        depth 20 fits 2000

  pub carry_out-Keeps : (gpio : ℕ) (call : Call) → Keeps P (carry_out gpio call)
  unfolding carry_out
  carry_out-Keeps gpio call =
      elim (call.scenario == 0) as (λ b. (call.scenario == 0) ≡ b → Keeps P (carry_out gpio call)) [
        | true ↦ λ h. rw (h) (configure-Keeps gpio call)
        | false ↦ λ h. collective-Keeps P c.frame gpio call h
      ]
        refl
