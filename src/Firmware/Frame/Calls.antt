-- ===== src/Firmware/Frame/Calls.antt =====
-- Each step of the firmware on the streams and the registers, and each driver of a block and of a
-- switch, keeps what depends on neither.
use accl.Base.{ℕ, zero, suc, ◌+◌, ◌≡◌, Bool, true, false, ◌==◌, if◌then◌else◌, u32, List, [], ◌∷◌}
use accl.Firmware.Machine.{
  Machine, Arrival, getd, tngetd, read_from, test_from, test_word, putd, cputd, xil_out32, xil_in32,
}
use accl.Firmware.Keeps.{Keeps, Keeps-bind, Keeps-gets, Keeps-elim, Keeps-raise, monad}
use accl.Firmware.Sts
use accl.Firmware.Frame.{IsFrame}
use accl.Firmware.Dma.{expired}
use accl.Firmware.Block.{
  set_mask, clr_mask, enable_irq, disable_irq, set_irq, setup_irq, ack_irq, get_irq, start_timeout,
  cancel_timeout, clear_timer_interrupt, start_timer1, read_timer1, busy_from, next_busy,
  await_reads, await_block, div_by, mod_by, start_arith, wait_arith, start_packetizer,
  start_depacketizer,
}
use accl.Firmware.Switch.{
  Datapath, dma_loopback, dma_reduction, offchip_tx_udp, offchip_tx_tcp, offchip_udp_reduction,
  offchip_tcp_reduction, dma_ext_loopback, ArithUnit, arith_internal, arith_external, arith_none,
  set_switch_datapath, disable_switch_datapath, apply_switch_config, cfg_main, cfg_arith,
  cfg_switch,
}

pub if_apart :
    (b : Bool) (c d : ℕ)
    → (c == Sts.host) ≡ false
    → (d == Sts.host) ≡ false
    → ((if b then c else d) == Sts.host) ≡ false
if_apart true c d h k = h
if_apart false c d h k = k

module _ (P : Machine → Type 0) (f : IsFrame P) where
  pub putd-Keeps :
      (channel value : ℕ) → (channel == Sts.host) ≡ false → Keeps P (putd channel value)
  unfolding Keeps putd
  putd-Keeps channel value h m p = f.keep_puts m _ h p

  pub cputd-Keeps :
      (channel value : ℕ) → (channel == Sts.host) ≡ false → Keeps P (cputd channel value)
  unfolding Keeps cputd
  cputd-Keeps channel value h m p = f.keep_puts m _ h p

  read_from-Keeps : (channel : ℕ) (g : List Arrival) → Keeps P (read_from channel g)
  unfolding Keeps
  read_from-Keeps channel [] m p = p
  read_from-Keeps channel (a ∷ rest) m p = f.keep_gets m _ p

  pub getd-Keeps : (channel : ℕ) → Keeps P (getd channel)
  unfolding Keeps getd
  getd-Keeps channel m p = read_from-Keeps channel (m.gets channel) m p

  test_word-Keeps :
      (channel : ℕ) (a : Arrival) (rest : List Arrival) (n : ℕ)
      → Keeps P (test_word channel a rest n)
  unfolding Keeps
  test_word-Keeps channel a rest zero m p = p
  test_word-Keeps channel a rest (suc n) m p = f.keep_gets m _ p

  test_from-Keeps : (channel : ℕ) (g : List Arrival) → Keeps P (test_from channel g)
  unfolding Keeps
  test_from-Keeps channel [] m p = p
  test_from-Keeps channel (a ∷ rest) m p = test_word-Keeps channel a rest a.failed_tests m p

  pub tngetd-Keeps : (channel : ℕ) → Keeps P (tngetd channel)
  unfolding Keeps tngetd
  tngetd-Keeps channel m p = test_from-Keeps channel (m.gets channel) m p

  pub xil_out32-Keeps : (offset value : ℕ) → Keeps P (xil_out32 offset value)
  unfolding Keeps xil_out32
  xil_out32-Keeps offset value m p = f.keep_regs m _ p

  pub xil_in32-Keeps : (offset : ℕ) → Keeps P (xil_in32 offset)
  unfolding xil_in32
  xil_in32-Keeps offset = search (monad)

  pub set_mask-Keeps : (offset mask : ℕ) → Keeps P (set_mask offset mask)
  unfolding set_mask
  set_mask-Keeps offset mask = search (monad, xil_out32-Keeps, xil_in32-Keeps)

  pub clr_mask-Keeps : (offset mask : ℕ) → Keeps P (clr_mask offset mask)
  unfolding clr_mask
  clr_mask-Keeps offset mask = search (monad, xil_out32-Keeps, xil_in32-Keeps)

  pub setup_irq-Keeps : (mask : ℕ) → Keeps P (setup_irq mask)
  unfolding setup_irq disable_irq set_irq enable_irq
  setup_irq-Keeps mask = search (monad, xil_out32-Keeps)

  pub ack_irq-Keeps : (mask : ℕ) → Keeps P (ack_irq mask)
  unfolding ack_irq
  ack_irq-Keeps mask = xil_out32-Keeps _ _

  pub get_irq-Keeps : Keeps P get_irq
  unfolding get_irq
  get_irq-Keeps = xil_in32-Keeps _

  pub start_timeout-Keeps : (time : ℕ) → Keeps P (start_timeout time)
  unfolding start_timeout
  start_timeout-Keeps time = search (monad, xil_out32-Keeps)

  pub cancel_timeout-Keeps : Keeps P cancel_timeout
  unfolding cancel_timeout
  cancel_timeout-Keeps = xil_out32-Keeps _ _

  pub clear_timer_interrupt-Keeps : Keeps P clear_timer_interrupt
  unfolding clear_timer_interrupt
  clear_timer_interrupt-Keeps = xil_out32-Keeps _ _

  pub start_timer1-Keeps : Keeps P start_timer1
  unfolding start_timer1
  start_timer1-Keeps = search (monad, xil_out32-Keeps)

  pub read_timer1-Keeps : Keeps P read_timer1
  unfolding read_timer1
  read_timer1-Keeps = xil_in32-Keeps _

  busy_from-Keeps : (l : List ℕ) → Keeps P (busy_from l)
  unfolding Keeps
  busy_from-Keeps [] m p = p
  busy_from-Keeps (n ∷ ns) m p = f.keep_busy m ns p

  next_busy-Keeps : Keeps P next_busy
  unfolding Keeps next_busy
  next_busy-Keeps m p = busy_from-Keeps m.busy m p

  await_reads-Keeps : (code count n : ℕ) → Keeps P (await_reads code count n)
  unfolding await_reads
  await_reads-Keeps code count zero = search (monad)
  await_reads-Keeps code count (suc n) = Keeps-bind P _ _ (Keeps-gets P _) (λ timeout.
      Keeps-elim P (expired timeout count) _ _ (Keeps-raise P _ _)
        (await_reads-Keeps code (u32 (count + 1)) n))

  await_block-Keeps : (code : ℕ) → Keeps P (await_block code)
  unfolding await_block
  await_block-Keeps code = search (monad, next_busy-Keeps, await_reads-Keeps)

  pub div_by-Keeps : (a b : ℕ) → Keeps P (div_by a b)
  unfolding div_by
  div_by-Keeps a b = search (monad)

  pub mod_by-Keeps : (a b : ℕ) → Keeps P (mod_by a b)
  unfolding mod_by
  mod_by-Keeps a b = search (monad)

  pub start_arith-Keeps :
      (byte_count function use_repeat : ℕ) → Keeps P (start_arith byte_count function use_repeat)
  unfolding start_arith
  start_arith-Keeps byte_count function use_repeat =
      search (monad, div_by-Keeps, xil_out32-Keeps, set_mask-Keeps)

  pub wait_arith-Keeps : Keeps P wait_arith
  unfolding wait_arith
  wait_arith-Keeps = await_block-Keeps _

  pub start_packetizer-Keeps :
      (base_addr max_pktsize : ℕ) → Keeps P (start_packetizer base_addr max_pktsize)
  unfolding start_packetizer
  start_packetizer-Keeps base_addr max_pktsize = search (monad, xil_out32-Keeps, set_mask-Keeps)

  pub start_depacketizer-Keeps : (base_addr : ℕ) → Keeps P (start_depacketizer base_addr)
  unfolding start_depacketizer
  start_depacketizer-Keeps base_addr = set_mask-Keeps _ _

  set_switch_datapath-Keeps : (base src dst : ℕ) → Keeps P (set_switch_datapath base src dst)
  unfolding set_switch_datapath
  set_switch_datapath-Keeps base src dst = xil_out32-Keeps _ _

  disable_switch_datapath-Keeps : (base dst : ℕ) → Keeps P (disable_switch_datapath base dst)
  unfolding disable_switch_datapath
  disable_switch_datapath-Keeps base dst = xil_out32-Keeps _ _

  apply_switch_config-Keeps : (base : ℕ) → Keeps P (apply_switch_config base)
  unfolding apply_switch_config
  apply_switch_config-Keeps base = search (monad, xil_out32-Keeps, await_block-Keeps)

  ruleset switching =
      (set_switch_datapath-Keeps, disable_switch_datapath-Keeps, apply_switch_config-Keeps)

  cfg_main-Keeps : (scenario : Datapath) → Keeps P (cfg_main scenario)
  unfolding cfg_main
  cfg_main-Keeps dma_loopback = search (monad, switching) depth 12
  cfg_main-Keeps dma_reduction = search (monad, switching) depth 12
  cfg_main-Keeps offchip_tx_udp = search (monad, switching) depth 12
  cfg_main-Keeps offchip_tx_tcp = search (monad, switching) depth 12
  cfg_main-Keeps offchip_udp_reduction = search (monad, switching) depth 12
  cfg_main-Keeps offchip_tcp_reduction = search (monad, switching) depth 12
  cfg_main-Keeps dma_ext_loopback = search (monad, switching) depth 12

  cfg_arith-Keeps : (arith : ArithUnit) → Keeps P (cfg_arith arith)
  unfolding cfg_arith
  cfg_arith-Keeps arith_external = search (monad, switching) depth 12
  cfg_arith-Keeps arith_internal = search (monad, switching) depth 12
  cfg_arith-Keeps arith_none = search (monad)

  pub cfg_switch-Keeps :
      (scenario : Datapath) (arith : ArithUnit) → Keeps P (cfg_switch scenario arith)
  unfolding cfg_switch
  cfg_switch-Keeps scenario arith =
      search (monad, cfg_main-Keeps, apply_switch_config-Keeps, cfg_arith-Keeps)

-- The steps on the streams.
pub ruleset words = (monad, putd-Keeps, cputd-Keeps, getd-Keeps, tngetd-Keeps)
