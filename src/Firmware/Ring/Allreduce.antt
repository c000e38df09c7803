-- ===== src/Firmware/Ring/Allreduce.antt =====
-- The two stages of an allreduce (all_reduce_share in ccl_offload_control.c) together: its moves, and what the
-- ring computes.
use accl.Base.{
  ℕ, zero, suc, ◌+◌, ◌-◌, ◌/◌, ◌^◌, ◌<◌, ◌≡◌, refl, ap, ◌∙◌, ne→not_==, u32, List, [], ◌∷◌, arith,
}
use accl.Firmware.Machine.{Machine, M, pure, and_then, ◌>>=◌, ◌>>◌, update}
use accl.Firmware.Code
use accl.Firmware.Comm.{World}
use accl.Firmware.Block.{div_by, number_of_bytes_per}
use accl.Firmware.Buffers.{tag_any}
use accl.Firmware.Receive.{receive_offchip_world}
use accl.Firmware.Move.{transmit_offchip_world}
use accl.Firmware.Ring.{
  next_in_ring, prev_in_ring, chunk_addr, if_success, scatter_reduce, chunk_len, share_chunks,
  all_reduce_share,
}
use accl.Firmware.Ring.Moves.{
  before, before-IsBelow, after, moves, world_at, make_all, find_comm_lem, next_lem, prev_lem,
  rank_before_lem, scatter_reduce-moves,
}
use accl.Firmware.Ring.Reduced.{kept, sent, sum_to, ring_reduces}
use accl.Firmware.Ring.Shared.{
  ShareMove, pass, store, shares, passed, holds, update_self, ring_shares,
}

module _ (w : World) (next prev len dst : ℕ) where
  -- The moves of the second stage as the firmware makes them, up to one that is no success.
  abbrev pub share_all : List ShareMove → M ℕ
  share_all [] = pure Code.success
  share_all (pass c ∷ xs) = do
    ret ← transmit_offchip_world w next len (chunk_addr dst len c) tag_any
    if_success ret (share_all xs)
  share_all (store c ∷ xs) = do
    ret ← receive_offchip_world w prev len (chunk_addr dst len c) tag_any
    if_success ret (share_all xs)

  share_chunks-share_all :
      (k c : ℕ)
      → c < w.size
      → w.size < 2 ^ 31
      → share_chunks w next prev len dst c k ≡ share_all (shares w.size c k)
  unfolding share_chunks
  share_chunks-share_all zero c h s = refl
  share_chunks-share_all (suc k) c h s =
      let step : ℕ → M ℕ → M ℕ = λ d r.
        (transmit_offchip_world w next len (chunk_addr dst len c) tag_any >>= λ ret.
        if_success ret (
          receive_offchip_world w prev len (chunk_addr dst len d) tag_any >>= λ ret'.
          if_success ret' r)) in
      let e = rank_before_lem w c h s in
      ap (λ d. step d (share_chunks w next prev len dst d k)) e
      ∙ ap (step (before w.size c))
          (share_chunks-share_all k (before w.size c) (before-IsBelow w.size c h) s)

div_lem : (a b : ℕ) → 0 < b → div_by a b ≡ pure (a / b)
unfolding div_by
div_lem a b h = rw (ne→not_== b 0 (λ z. omega arith)) refl

-- The two stages as the firmware makes them, with chunks of `share` bytes; what the first returns is not
-- looked at.
abbrev pub stages : World → ℕ → ℕ → ℕ → ℕ → M ℕ
stages w share function src dst =
    let next = after w.size w.local_rank in
    let prev = before w.size w.local_rank in
    make_all w next prev share function src dst (moves w.size w.local_rank) >>= λ _.
    share_all w next prev share dst (shares w.size w.local_rank (w.size - 1))

-- What all_reduce_share does with its communicator and its neighbours.
abbrev share_with : ℕ → ℕ → ℕ → ℕ → ℕ → World → ℕ → ℕ → M ℕ
share_with comm share function src dst w next prev = do
  scatter_reduce comm share function src dst
  share_chunks w next prev share dst w.local_rank (u32 (w.size + 2 ^ 32 - 1))

abbrev pub share_of : ℕ → ℕ → ℕ → ℕ
share_of len size function = chunk_len len size (number_of_bytes_per function)

all_reduce_share-stages :
    (comm len function src dst : ℕ) (m : Machine)
    → 1 < (m.comms comm).size
    → (m.comms comm).size < 2 ^ 31
    → (m.comms comm).local_rank < (m.comms comm).size
    → all_reduce_share comm len function src dst m
      ≡ stages (world_at comm m) (share_of len (m.comms comm).size function) function src dst m
unfolding all_reduce_share
all_reduce_share-stages comm len function src dst m two s below =
    let w = world_at comm m in
    let p = before w.size w.local_rank in
    let q = after w.size w.local_rank in
    let share = share_of len w.size function in
    let sw = share_with comm share function src dst w in
    let count : u32 (w.size + 2 ^ 32 - 1) ≡ w.size - 1 = omega arith in
    ap
      (and_then (λ v. div_by len v.size >>= λ _. next_in_ring v >>= λ n. prev_in_ring v >>= λ o.
        share_with comm (share_of len v.size function) function src dst v n o))
      (find_comm_lem comm m below)
    ∙ ap (λ d. (d >>= λ _. next_in_ring w >>= λ n. prev_in_ring w >>= λ o. sw n o) m)
        (div_lem len w.size (omega arith))
    ∙ ap (λ d. (d >>= λ n. prev_in_ring w >>= λ o. sw n o) m) (next_lem w below s)
    ∙ ap (λ d. (d >>= λ o. sw q o) m) (prev_lem w below s)
    ∙ ap
        (λ k.
          (scatter_reduce comm share function src dst
              >> share_chunks w q p share dst w.local_rank k)
            m)
        count
    ∙ ap (λ d. (scatter_reduce comm share function src dst >> d) m)
        (share_chunks-share_all w q p share dst (w.size - 1) w.local_rank below s)
    ∙ ap (and_then (λ _. share_all w q p share dst (shares w.size w.local_rank (w.size - 1))))
        (scatter_reduce-moves comm share function src dst m two s below)

-- What the first stage leaves among the chunks that a rank holds.
abbrev pub store_all : {A : Type 0} → (ℕ → A) → List (ℕ × A) → ℕ → A
store_all mem [] = mem
store_all mem (x ∷ xs) = store_all (update mem x.0 x.1) xs

chunks_reduced :
    {A : Type 0} (add : A → A → A) (size : ℕ) (v mem : ℕ → ℕ → A) (out out' : ℕ → List A) (r t : ℕ)
    → 1 < size
    → ((r : ℕ) → r < size → out r ≡ sent add (v r) (moves size r) (out (before size r)))
    → ((r : ℕ)
        → r < size
        → out' r
          ≡ passed
              (store_all (mem r) (kept add (v r) (moves size r) (out (before size r))))
              (shares size r (size - 1))
              (out' (before size r)))
    → r < size
    → t < size
    → holds
        (store_all (mem r) (kept add (v r) (moves size r) (out (before size r))))
        (shares size r (size - 1))
        (out' (before size r))
        t
      ≡ sum_to add size v t (size - 1) t
chunks_reduced add size v mem out out' r t two ring ring' h l =
    ring_shares size (λ q. store_all (mem q) (kept add (v q) (moves size q) (out (before size q))))
      (λ q. sum_to add size v q (size - 1) q) out'
      (λ q below.
        ap (λ xs. store_all (mem q) xs q) (ring_reduces add size v out q two ring below)
        ∙ update_self (mem q) q (sum_to add size v q (size - 1) q))
      ring' r t h l

-- On a machine whose communicator has at least two ranks and fewer than 2 ^ 31, its own among them,
-- all_reduce_share makes, with chunks of the length that it computes, the moves of the first stage
-- `moves` in their order, up to one that is no success, and then, whatever they came to, those of the
-- second stage `shares` in theirs, up to one that is no success. And those two lists of moves reduce: on a
-- ring of as many ranks, where each makes the moves of the first stage with its own chunks, then those of
-- the second with what the first has left it, where a move does to the chunks what `sent`, `kept`,
-- `passed` and `holds` say, and each is sent in each stage what the rank before it sends, the machine's
-- rank holds in the end, for every rank `t`, the sum of chunk `t` over all the ranks, in the order of the
-- ring from the rank after `t` to `t`. Nothing is asked of the addition, nor of what the ranks held.
pub all_reduce_share-reduces :
    {A : Type 0} (add : A → A → A) (v mem : ℕ → ℕ → A) (out out' : ℕ → List A)
    (comm len function src dst : ℕ) (m : Machine) (t : ℕ)
    → 1 < (m.comms comm).size
    → (m.comms comm).size < 2 ^ 31
    → (m.comms comm).local_rank < (m.comms comm).size
    → ((r : ℕ)
        → r < (m.comms comm).size
        → out r ≡ sent add (v r) (moves (m.comms comm).size r) (out (before (m.comms comm).size r)))
    → ((r : ℕ)
        → r < (m.comms comm).size
        → out' r
          ≡ passed
              (store_all
                (mem r)
                (kept add (v r) (moves (m.comms comm).size r) (out (before (m.comms comm).size r))))
              (shares (m.comms comm).size r ((m.comms comm).size - 1))
              (out' (before (m.comms comm).size r)))
    → t < (m.comms comm).size
    → (all_reduce_share comm len function src dst m
        ≡ stages (world_at comm m) (share_of len (m.comms comm).size function) function src dst m)
      × (holds
            (store_all (mem (m.comms comm).local_rank) (
              kept add
                (v (m.comms comm).local_rank)
                (moves (m.comms comm).size (m.comms comm).local_rank)
                (out (before (m.comms comm).size (m.comms comm).local_rank))))
            (shares (m.comms comm).size (m.comms comm).local_rank ((m.comms comm).size - 1))
            (out' (before (m.comms comm).size (m.comms comm).local_rank))
            t
          ≡ sum_to add (m.comms comm).size v t ((m.comms comm).size - 1) t)
all_reduce_share-reduces add v mem out out' comm len function src dst m t two s below ring ring' l =
    (
      all_reduce_share-stages comm len function src dst m two s below,
      chunks_reduced add (m.comms comm).size v mem out out' (m.comms comm).local_rank t two ring
          ring' below l,
    )
