-- ===== src/Firmware/Block.antt =====
-- The registers of the blocks beside the processor (ccl_offload_control.c): the interrupt controller,
-- the timers, the reduction kernel and the packetizers, and the wait for a block to finish.
use Prim.Native.Nat.{bit_and, bit_or}
use accl.Base.{
  ℕ, zero, suc, ◌+◌, ◌-◌, ◌*◌, ◌/◌, ◌%◌, ◌^◌, Bool, true, false, not, ◌==◌, if◌then◌else◌, u32,
  List, [], ◌∷◌,
}
use accl.Firmware.Machine.{
  ok, M, pure, stop_with, fault, raise, gets_of, ◌>>=◌, ◌>>◌, xil_out32, xil_in32,
}
use accl.Firmware.Reg
use accl.Firmware.Code
use accl.Firmware.Dma.{expired}

-- `SET` and `CLR`
unfoldable pub set_mask : ℕ → ℕ → M (Unit {0})
set_mask offset mask = do v ← xil_in32 offset; xil_out32 offset (bit_or v mask)

unfoldable pub clr_mask : ℕ → ℕ → M (Unit {0})
clr_mask offset mask = do v ← xil_in32 offset; xil_out32 offset (bit_and v (2 ^ 32 - 1 - mask))

unfoldable pub enable_irq : M (Unit {0})
enable_irq = xil_out32 (Reg.irqctrl + 0x1C) 3

unfoldable pub disable_irq : M (Unit {0})
disable_irq = xil_out32 (Reg.irqctrl + 0x1C) 0

unfoldable pub set_irq : ℕ → M (Unit {0})
set_irq mask = xil_out32 (Reg.irqctrl + 0x08) mask

unfoldable pub setup_irq : ℕ → M (Unit {0})
setup_irq mask = do disable_irq; set_irq mask; enable_irq

unfoldable pub ack_irq : ℕ → M (Unit {0})
ack_irq mask = xil_out32 (Reg.irqctrl + 0x0C) mask

unfoldable pub get_irq : M ℕ
get_irq = xil_in32 (Reg.irqctrl + 0x04)

unfoldable pub start_timeout : ℕ → M (Unit {0})
start_timeout time = do
  xil_out32 (Reg.timer + 0x04) time
  xil_out32 Reg.timer 0x20
  xil_out32 Reg.timer 0xC2

unfoldable pub cancel_timeout : M (Unit {0})
cancel_timeout = xil_out32 Reg.timer 0x100

unfoldable pub clear_timer_interrupt : M (Unit {0})
clear_timer_interrupt = xil_out32 Reg.timer 0x100

unfoldable pub start_timer1 : M (Unit {0})
start_timer1 = do
  xil_out32 (Reg.timer + 0x14) 0
  xil_out32 (Reg.timer + 0x10) 0x20
  xil_out32 (Reg.timer + 0x10) 0x80

unfoldable pub read_timer1 : M ℕ
read_timer1 = xil_in32 (Reg.timer + 0x18)

-- How many reads of a register find its block at work, for the next wait.
abbrev pub busy_from : List ℕ → M ℕ
busy_from [] m = (ok 0, m)
busy_from (n ∷ ns) m = (ok n, record m { busy = ns })

unfoldable pub next_busy : M ℕ
next_busy m = busy_from m.busy m

-- The loop of `apply_switch_config` and of `wait_arith`, where the block is at work for `n` more
-- reads; `code` is what is raised at the timeout.
unfoldable pub await_reads : ℕ → ℕ → ℕ → M (Unit {0})
await_reads code count zero = pure tt
await_reads code count (suc n) = do
  timeout ← gets_of (λ m. m.timeout)
  elim (expired timeout count) [ true ↦ raise code | false ↦ await_reads code (u32 (count + 1)) n ]

unfoldable pub await_block : ℕ → M (Unit {0})
await_block code = do n ← next_busy; await_reads code 0 n

-- A quotient; 0 as divisor is not defined by the language.
unfoldable pub div_by : ℕ → ℕ → M ℕ
div_by a b = if b == 0 then stop_with fault else pure (a / b)

unfoldable pub mod_by : ℕ → ℕ → M ℕ
mod_by a b = if b == 0 then stop_with fault else pure (a % b)

-- The number of words of 64 bytes that the reduction kernel is to read.
unfoldable pub quad_words : ℕ → ℕ → ℕ
quad_words size byte_count =
    u32 (byte_count / size * (u32 (size + 63) / 64) + u32 (byte_count % size + 63) / 64)

unfoldable pub start_arith : ℕ → ℕ → ℕ → M (Unit {0})
start_arith byte_count function use_repeat = do
  size ← gets_of (λ m. m.dma_transaction_size)
  div_by byte_count size
  xil_out32 (Reg.arith + 0x10) (quad_words size byte_count)
  xil_out32 (Reg.arith + 0x18) function
  set_mask Reg.arith (if use_repeat == 1 then 0x81 else 0x01)

unfoldable pub wait_arith : M (Unit {0})
wait_arith = await_block Code.arith

-- `arith_number_of_bytes_per`: -1, as an unsigned number, for what is no function.
unfoldable pub number_of_bytes_per : ℕ → ℕ
number_of_bytes_per function =
    if function == 0
    then 4
    else if function == 1
    then 8
    else if function == 2
    then 4
    else if function == 3
    then 8
    else 2 ^ 32 - 1

unfoldable pub start_packetizer : ℕ → ℕ → M (Unit {0})
start_packetizer base_addr max_pktsize = do
  xil_out32 (base_addr + 0x10) (u32 (max_pktsize + 63) / 64)
  set_mask base_addr 0x81

unfoldable pub start_depacketizer : ℕ → M (Unit {0})
start_depacketizer base_addr = set_mask base_addr 0x81

unfoldable pub stop_arith : M (Unit {0})
stop_arith = clr_mask Reg.arith 0x81

unfoldable pub arith_is_ready : M Bool
arith_is_ready = do v ← xil_in32 Reg.arith; pure (not (bit_and v 0x01 == 0))

unfoldable pub arith_disable_auto_repeat : M (Unit {0})
arith_disable_auto_repeat = clr_mask Reg.arith 0x80

-- `update_program`, from word `i` on for `k` words.
unfoldable pub copy_program : ℕ → ℕ → M (Unit {0})
copy_program i zero = pure tt
copy_program i (suc k) = do
  val ← xil_in32 (0x10 + 4 * i)
  xil_out32 (0x10000 + 4 * i) val
  copy_program (suc i) k

unfoldable pub update_program : M (Unit {0})
update_program = copy_program 0 16384
