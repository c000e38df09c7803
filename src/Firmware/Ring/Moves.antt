-- ===== src/Firmware/Ring/Moves.antt =====
-- The moves of a reduce-scatter (scatter_reduce in ccl_offload_control.c), one rank at a time.
use native.Mathlib.Nat.{mod-eq_of_lt, add-mod_right, mod_self}
use accl.Base.{
  ℕ, zero, suc, ◌+◌, ◌-◌, ◌%◌, ◌^◌, ◌<◌, ◌≡◌, refl, ap, sym, ◌∙◌, true, false, ◌==◌, if◌then◌else◌,
  u32, List, [], ◌∷◌, arith, ne→not_==, ==→eq, lt→ltb,
}
use accl.Firmware.Machine.{Machine, M, ok, pure, and_then, ◌>>=◌}
use accl.Firmware.Code
use accl.Firmware.Comm.{World, find_comm}
use accl.Firmware.Block.{mod_by}
use accl.Firmware.Buffers.{tag_any}
use accl.Firmware.Receive.{receive_and_accumulate, receive_and_reduce_offchip}
use accl.Firmware.Move.{transmit_offchip_world}
use accl.Firmware.Ring.{
  next_in_ring, prev_in_ring, rank_before, chunk_addr, if_success, reduce_chunks, scatter_reduce,
}

-- A chunk that is sent, one that is added to what comes and sent on, one that is added and kept.
pub data RingMove : Type 0 where
  transmit add_and_send add_and_keep : ℕ → RingMove

-- The rank before `c` on a ring.
abbrev pub before : ℕ → ℕ → ℕ
before size c = if c == 0 then size - 1 else c - 1

abbrev pub after : ℕ → ℕ → ℕ
after size c = if c + 1 == size then 0 else c + 1

abbrev pub relays : ℕ → ℕ → ℕ → List RingMove
relays size c zero = add_and_keep c ∷ []
relays size c (suc k) = add_and_send c ∷ relays size (before size c) k

-- The moves of rank `r`: its first chunk is that of the rank before it, and so on round the ring.
abbrev pub moves : ℕ → ℕ → List RingMove
moves size r = transmit (before size r) ∷ relays size (before size (before size r)) (size - 2)

module _ (w : World) (next prev len function src dst : ℕ) where
  -- A move as the firmware makes it.
  abbrev pub make : RingMove → M ℕ
  make (transmit c) = transmit_offchip_world w next len (chunk_addr src len c) tag_any
  make (add_and_send c) =
      receive_and_reduce_offchip w prev next len function (chunk_addr src len c) tag_any
  make (add_and_keep c) =
      receive_and_accumulate w prev len function (chunk_addr src len c) (chunk_addr dst len c)
        tag_any

  -- The moves in their order, up to one that is no success; the last one's code.
  abbrev pub make_all : List RingMove → M ℕ
  make_all [] = pure Code.success
  make_all (x ∷ []) = make x
  make_all (x ∷ y ∷ xs) = make x >>= λ ret. if_success ret (make_all (y ∷ xs))

pub before-IsBelow : (size c : ℕ) → c < size → before size c < size
before-IsBelow size c h = ground arith

wrapped :
    (size c : ℕ) → c < size → size < 2 ^ 31 → u32 (c + size + 2 ^ 32 - 1) % size ≡ before size c
wrapped size zero h s =
    let e : u32 (0 + size + 2 ^ 32 - 1) ≡ size - 1 = omega arith in
    ap (λ n. n % size) e ∙ mod-eq_of_lt (omega arith)
wrapped size (suc d) h s =
    let e : u32 (suc d + size + 2 ^ 32 - 1) ≡ d + size = omega arith in
    ap (λ n. n % size) e
    ∙ add-mod_right d size
    ∙ mod-eq_of_lt (omega arith)
    ∙ rw (ne→not_== (suc d) 0 (λ z. omega arith)) (omega arith)

pub rank_before_lem :
    (w : World) (c : ℕ) → c < w.size → w.size < 2 ^ 31 → rank_before w c ≡ before w.size c
unfolding rank_before
rank_before_lem w c h s = wrapped w.size c h s

followed : (size c : ℕ) → c < size → size < 2 ^ 31 → u32 (c + 1) % size ≡ after size c
followed size c h s =
    let e : u32 (c + 1) ≡ c + 1 = omega arith in
    elim (c + 1 == size)
        as (λ b. (c + 1 == size) ≡ b → u32 (c + 1) % size ≡ (if b then 0 else c + 1)) [
          | true ↦ λ q. ap (λ n. n % size) (e ∙ ==→eq (c + 1) size q) ∙ mod_self size
          | false ↦ λ q. ap (λ n. n % size) e ∙ mod-eq_of_lt (ground arith)
        ]
      refl

make_all-cons :
    (w : World) (next prev len function src dst : ℕ) (x : RingMove) (size c k : ℕ)
    → make_all w next prev len function src dst (x ∷ relays size c k) ≡ (
        make w next prev len function src dst x >>= λ ret.
        if_success ret (make_all w next prev len function src dst (relays size c k)))
make_all-cons w next prev len function src dst x size c zero = refl
make_all-cons w next prev len function src dst x size c (suc k) = refl

-- The loop makes the moves from its chunk on.
reduce_chunks-make_all :
    (w : World) (next prev len function src dst k c : ℕ)
    → c < w.size
    → 1 < w.size
    → w.size < 2 ^ 31
    → reduce_chunks w next prev len function src dst c k
      ≡ make_all w next prev len function src dst (relays w.size c k)
unfolding reduce_chunks
reduce_chunks-make_all w next prev len function src dst zero c h two s =
    rw (lt→ltb 1 w.size two) refl
reduce_chunks-make_all w next prev len function src dst (suc k) c h two s =
    let rest =
      ap (λ d. reduce_chunks w next prev len function src dst d k) (rank_before_lem w c h s)
      ∙ reduce_chunks-make_all w next prev len function src dst k (before w.size c)
          (before-IsBelow w.size c h) two s in
    ap
      (λ r.
        receive_and_reduce_offchip w prev next len function (chunk_addr src len c) tag_any
        >>= λ ret. if_success ret r)
      rest
    ∙ sym
        (make_all-cons w next prev len function src dst (add_and_send c) w.size (before w.size c) k)

-- The communicator at an address, as find_comm gives it.
abbrev pub world_at : ℕ → Machine → World
world_at comm m = record {
  address = comm;
  size = (m.comms comm).size;
  local_rank = (m.comms comm).local_rank;
  found = true;
}

pub find_comm_lem :
    (comm : ℕ) (m : Machine)
    → (m.comms comm).local_rank < (m.comms comm).size
    → find_comm comm m ≡ (ok (world_at comm m), m)
unfolding find_comm
find_comm_lem comm m h =
    rw
      (
        ne→not_== (m.comms comm).size 0 (λ z. omega arith),
        lt→ltb (m.comms comm).local_rank (m.comms comm).size h,
      )
      refl

pub next_lem :
    (w : World)
    → w.local_rank < w.size
    → w.size < 2 ^ 31
    → next_in_ring w ≡ pure (after w.size w.local_rank)
unfolding next_in_ring mod_by
next_lem w h s =
    rw (ne→not_== w.size 0 (λ z. omega arith)) (ap pure (followed w.size w.local_rank h s))

pub prev_lem :
    (w : World)
    → w.local_rank < w.size
    → w.size < 2 ^ 31
    → prev_in_ring w ≡ pure (before w.size w.local_rank)
unfolding prev_in_ring mod_by
prev_lem w h s =
    rw (ne→not_== w.size 0 (λ z. omega arith)) (ap pure (wrapped w.size w.local_rank h s))

-- What scatter_reduce does with its communicator and its neighbours.
abbrev scatter_with : ℕ → ℕ → ℕ → ℕ → World → ℕ → ℕ → M ℕ
scatter_with len function src dst w next prev = do
  ret ← transmit_offchip_world w next len (chunk_addr src len prev) tag_any
  if_success ret (
      reduce_chunks w next prev len function src dst (rank_before w prev)
        (u32 (w.size + 2 ^ 32 - 2)))

-- On a communicator of at least two ranks and fewer than 2 ^ 31, whose local rank is one of them,
-- scatter_reduce makes the moves of the local rank on the ring, in their order, up to one that is no
-- success: it takes from the rank before and sends to the rank after.
pub scatter_reduce-moves :
    (comm len function src dst : ℕ) (m : Machine)
    → 1 < (m.comms comm).size
    → (m.comms comm).size < 2 ^ 31
    → (m.comms comm).local_rank < (m.comms comm).size
    → scatter_reduce comm len function src dst m
      ≡ make_all
          (world_at comm m)
          (after (m.comms comm).size (m.comms comm).local_rank)
          (before (m.comms comm).size (m.comms comm).local_rank)
          len
          function
          src
          dst
          (moves (m.comms comm).size (m.comms comm).local_rank)
          m
unfolding scatter_reduce
scatter_reduce-moves comm len function src dst m two s below =
    let w = world_at comm m in
    let p = before w.size w.local_rank in
    let q = after w.size w.local_rank in
    let sc = scatter_with len function src dst in
    let in_ring = before-IsBelow w.size w.local_rank below in
    let count : u32 (w.size + 2 ^ 32 - 2) ≡ w.size - 2 = omega arith in
    ap (and_then (λ v. next_in_ring v >>= λ n. prev_in_ring v >>= λ o. sc v n o))
      (find_comm_lem comm m below)
    ∙ ap (λ d. (d >>= λ n. prev_in_ring w >>= λ o. sc w n o) m) (next_lem w below s)
    ∙ ap (λ d. (d >>= λ o. sc w q o) m) (prev_lem w below s)
    ∙ ap
        (λ r.
          (transmit_offchip_world w q len (chunk_addr src len p) tag_any >>= λ ret.
          if_success ret r)
            m)
        (ap (λ k. reduce_chunks w q p len function src dst (rank_before w p) k) count
          ∙ ap (λ d. reduce_chunks w q p len function src dst d (w.size - 2))
              (rank_before_lem w p in_ring s)
          ∙ reduce_chunks-make_all w q p len function src dst (w.size - 2) (before w.size p)
              (before-IsBelow w.size p in_ring) two s)
    ∙ ap (λ d. d m)
        (sym (
          make_all-cons w q p len function src dst (transmit p) w.size (before w.size p)
            (w.size - 2)))
