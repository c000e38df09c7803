-- ===== src/Firmware/Dma.antt =====
-- The DMA engines (ccl_offload_control.c): commands, statuses and the movement of a buffer.
use Prim.Native.Nat.{bit_or}
pub mod Status
pub mod Wait
pub mod Ends
use accl.Base.{
  ℕ, zero, suc, ◌+◌, ◌-◌, ◌*◌, ◌/◌, ◌%◌, ◌^◌, Bool, true, false, ◌&&◌, ◌||◌, not, ◌==◌, leb, ltb,
  if◌then◌else◌, get_range, u32,
}
use accl.Firmware.Machine.{
  Machine, M, pure, stop_with, raise, gets_of, modify, ◌>>=◌, ◌>>◌, out_of_fuel, putd, cputd, getd,
  tngetd, bit,
}
use accl.Firmware.Cmd
use accl.Firmware.Sts
use accl.Firmware.Code
use accl.Firmware.Pipeline.{pipeline}

abbrev pub dma_max_btt : ℕ
dma_max_btt = 0x7FFFFF

abbrev pub dma_transaction_size_default : ℕ
dma_transaction_size_default = 4194304

unfoldable pub dma_cmd_addrh_addrl : ℕ → ℕ → ℕ → ℕ → ℕ → M (Unit {0})
dma_cmd_addrh_addrl channel btt addrh addrl tag = do
  putd channel (bit_or 0xC0800000 btt)
  putd channel addrl
  putd channel addrh
  cputd channel (bit_or 0x2000 tag)

unfoldable pub dma_cmd : ℕ → ℕ → ℕ → ℕ → M (Unit {0})
dma_cmd channel btt addr tag =
    dma_cmd_addrh_addrl channel btt (get_range 63 32 addr) (get_range 31 0 addr) tag

unfoldable pub dma_cmd_without_eof : ℕ → ℕ → ℕ → ℕ → M (Unit {0})
dma_cmd_without_eof channel btt addr tag = do
  putd channel (bit_or 0x80800000 btt)
  putd channel (get_range 31 0 addr)
  putd channel (get_range 63 32 addr)
  cputd channel (bit_or 0x2000 tag)

-- The first test that fails decides the code; the last two are for a write of unknown length.
unfoldable pub check_dma_status : ℕ → ℕ → ℕ → Bool → M (Unit {0})
check_dma_status status expected_btt tag indeterminate =
    if not (get_range 3 0 status == tag)
    then raise Code.dma_mismatch
    else if bit 4 status
    then raise Code.dma_internal
    else if bit 5 status
    then raise Code.dma_decode
    else if bit 6 status
    then raise Code.dma_slave
    else if not (bit 7 status)
    then raise Code.dma_not_okay
    else if indeterminate && not (bit 31 status)
    then raise Code.dma_not_end_of_packet
    else if indeterminate && not (get_range 30 8 status == expected_btt)
    then raise Code.dma_not_expected_btt
    else pure tt

-- `what_DMAS`, a field for each bit.
pub record Dmas : Type 0 where
  pub dma0_rx : Bool
  pub dma1_rx : Bool
  pub dma1_tx : Bool
  pub dma1_tx_without_tlast : Bool
  pub dma2_rx : Bool

-- The four addresses of a transfer, each 64 bits.
pub record Addresses : Type 0 where
  pub dma0_rx : ℕ
  pub dma1_rx : ℕ
  pub dma1_tx : ℕ
  pub dma2_rx : ℕ

-- One of the five commands, if its bit is set; the result is the tag last used.
unfoldable pub start_one : Bool → (ℕ → M (Unit {0})) → ℕ → M ℕ
start_one used command tag =
    if used then (do command ((tag + 1) % 16); pure ((tag + 1) % 16)) else pure tag

unfoldable pub start_dma : ℕ → Addresses → Dmas → ℕ → M ℕ
start_dma len a what tag = do
  t0 ← start_one what.dma0_rx (dma_cmd Cmd.dma0_rx len a.dma0_rx) tag
  t1 ← start_one what.dma1_rx (dma_cmd Cmd.dma1_rx len a.dma1_rx) t0
  t2 ← start_one what.dma1_tx (dma_cmd Cmd.dma1_tx len a.dma1_tx) t1
  t3 ← start_one what.dma1_tx_without_tlast (dma_cmd_without_eof Cmd.dma1_tx len a.dma1_tx) t2
  start_one what.dma2_rx (dma_cmd Cmd.dma2_rx len a.dma2_rx) t3

-- `tngetd` of a stream that is in use.
unfoldable pub test_one : Bool → ℕ → M ℕ
test_one used channel = if used then tngetd channel else pure 0

-- The sum of the tests of one round.
unfoldable pub tests_failed : Dmas → M ℕ
tests_failed what = do
  i0 ← test_one what.dma0_rx Sts.dma0_rx
  i1 ← test_one what.dma1_rx Sts.dma1_rx
  i2 ← test_one (what.dma1_tx || what.dma1_tx_without_tlast) Sts.dma1_tx
  i3 ← test_one what.dma2_rx Sts.dma2_rx
  pure (i0 + i1 + i2 + i3)

-- A count that has reached the timeout; 0 is none.
abbrev pub expired : ℕ → ℕ → Bool
expired timeout count = not (timeout == 0) && leb timeout count

-- The loop that waits for all engines in use.
unfoldable pub await_dmas : ℕ → Dmas → ℕ → M (Unit {0})
await_dmas zero what count = stop_with out_of_fuel
await_dmas (suc fuel) what count = do
  timeout ← gets_of (λ m. m.timeout)
  elim (expired timeout count) [
    | true ↦ raise Code.dma_timeout
    | false ↦ do
      invalid ← tests_failed what
      elim (invalid == 0) [ true ↦ pure tt | false ↦ await_dmas fuel what (u32 (count + 1)) ]
  ]

-- The status of one engine, if it is in use, against the next tag.
unfoldable pub check_one : Bool → ℕ → ℕ → Bool → M (Unit {0})
check_one used channel len indeterminate =
    if used
    then (do
      status ← getd channel
      modify (λ m. record m { dma_tag = (m.dma_tag + 1) % 16 })
      tag ← gets_of (λ m. m.dma_tag)
      check_dma_status status len tag indeterminate)
    else pure tt

unfoldable pub ack_dma : ℕ → Dmas → M (Unit {0})
ack_dma len what = do
  rounds ← gets_of (λ m. m.rounds)
  await_dmas rounds what 0
  check_one what.dma0_rx Sts.dma0_rx len false
  check_one what.dma1_rx Sts.dma1_rx len false
  check_one what.dma1_tx Sts.dma1_tx len true
  check_one what.dma1_tx_without_tlast Sts.dma1_tx len false
  check_one what.dma2_rx Sts.dma2_rx len false

-- A single transfer; one that is too long is refused, with the size of a transaction as its code.
unfoldable pub dma_movement_single : ℕ → Addresses → Dmas → M ℕ
dma_movement_single len a what =
    if ltb dma_max_btt len
    then pure dma_transaction_size_default
    else (do tag ← gets_of (λ m. m.dma_tag); start_dma len a what tag; ack_dma len what; pure 0)

-- What the loops of a movement carry along: the addresses and the tag last used.
pub record Moving : Type 0 where
  pub addresses : Addresses
  pub tag : ℕ

unfoldable pub advance_by : ℕ → Addresses → Addresses
advance_by n a = record {
  dma0_rx = (a.dma0_rx + n) % 2 ^ 64;
  dma1_rx = (a.dma1_rx + n) % 2 ^ 64;
  dma1_tx = (a.dma1_tx + n) % 2 ^ 64;
  dma2_rx = (a.dma2_rx + n) % 2 ^ 64;
}

-- The body that starts a transaction.
unfoldable pub start_transaction : Dmas → ℕ → Moving → M Moving
start_transaction what n s = do
  tag ← start_dma n s.addresses what s.tag
  pure (record { addresses = advance_by n s.addresses; tag = tag })

-- The body that acknowledges one.
unfoldable pub ack_transaction : {L : Type 0} → Dmas → ℕ → L → M L
ack_transaction what n l = do ack_dma n what; pure l

unfoldable pub dma_movement : ℕ → Addresses → Dmas → M ℕ
dma_movement len a what = do
  size ← gets_of (λ m. m.dma_transaction_size)
  max ← gets_of (λ m. m.max_dma_in_flight)
  rounds ← gets_of (λ m. m.rounds)
  tag ← gets_of (λ m. m.dma_tag)
  pipeline size (start_transaction what) (start_transaction what) (ack_transaction what) rounds max
      len (record { addresses = a; tag = tag })
  pure 0
