-- ===== src/Firmware/Pipeline.antt =====
-- The three loops with which ccl_offload_control.c moves a buffer in transactions: at most
-- `max_in_flight` are started, then each acknowledgment lets one more start, and the rest is
-- acknowledged. dma_movement, dma_movement_and_packetizer, receive_offchip_world,
-- receive_and_accumulate, receive_and_reduce_offchip and relay_to_other_rank repeat them with
-- different calls in their bodies, which are the parameters; `L` is what else they carry along
-- (addresses, the tag, the spare buffers in use).
--
-- `curr_len_move` and `curr_len_ack` are the size of a transaction until fewer bytes are left, which
-- ends their loop; so they are computed where they are used.
pub mod Schedule
pub mod Ends
use accl.Base.{ℕ, zero, suc, ◌-◌, Bool, true, false, ltb, if◌then◌else◌}
use accl.Firmware.Machine.{M, pure, stop_with, out_of_fuel, ◌>>=◌, ◌>>◌}

unfoldable pub curr_len : ℕ → ℕ → ℕ
curr_len size remaining = if ltb remaining size then remaining else size

module _ {L : Type 0} (size : ℕ) (start restart ack : ℕ → L → M L) where
  -- Loop 1, for `k` more values of its counter: what is left to move, and what is carried along.
  unfoldable pub issue : ℕ → ℕ → L → M (ℕ × L)
  issue zero to_move l = pure (to_move, l)
  issue (suc k) to_move l = elim (ltb 0 to_move) [
    | true ↦ do l' ← start (curr_len size to_move) l; issue k (to_move - curr_len size to_move) l'
    | false ↦ pure (to_move, l)
  ]

  -- Loop 2: what is left to acknowledge.
  unfoldable pub refill : ℕ → ℕ → ℕ → L → M (ℕ × L)
  refill zero to_move to_ack l = stop_with out_of_fuel
  refill (suc fuel) to_move to_ack l = elim (ltb 0 to_move) [
    | true ↦ do
      l' ← ack (curr_len size to_ack) l
      l'' ← restart (curr_len size to_move) l'
      refill fuel (to_move - curr_len size to_move) (to_ack - curr_len size to_ack) l''
    | false ↦ pure (to_ack, l)
  ]

  -- Loop 3.
  unfoldable pub drain : ℕ → ℕ → L → M L
  drain zero to_ack l = stop_with out_of_fuel
  drain (suc fuel) to_ack l = elim (ltb 0 to_ack) [
    | true ↦ do l' ← ack (curr_len size to_ack) l; drain fuel (to_ack - curr_len size to_ack) l'
    | false ↦ pure l
  ]

  -- The three, with `fuel` rounds for each of the two `while` loops.
  unfoldable pub pipeline : ℕ → ℕ → ℕ → L → M L
  pipeline fuel max_in_flight len l = do
    (to_move, l') ← issue max_in_flight len l
    (to_ack, l'') ← refill fuel to_move len l'
    drain fuel to_ack l''
