-- ===== src/Tests/Ring.antt =====
-- The theorems on the ring of ranks, at small inputs.
use accl.Base.{ℕ, zero, suc, ◌+◌, ◌-◌, ◌*◌, ◌<◌, ◌≡◌, refl, List, [], ◌∷◌, arith}
use accl.Firmware.Machine.{Machine}
use accl.Firmware.Ring.{scatter_reduce, all_reduce_share}
use accl.Firmware.Ring.Moves.{before, after, moves, world_at, make_all, scatter_reduce-moves}
use accl.Firmware.Ring.Reduced.{kept, sum_to}
use accl.Firmware.Ring.Shared.{shares, passed, holds}
use accl.Firmware.Ring.Allreduce.{store_all, stages, share_of, all_reduce_share-reduces}
use accl.Tests.Served.{machine, rank}

-- Three ranks; chunk `c` of rank `r` is 10 r + c, and each held sevens before.
abbrev plus : ℕ → ℕ → ℕ
plus a b = a + b

abbrev chunk : ℕ → ℕ → ℕ
chunk r c = 10 * r + c

abbrev sevens : ℕ → ℕ → ℕ
sevens r c = 7

abbrev out : ℕ → List ℕ
out r = let p = before 3 r in chunk r p ∷ plus (chunk p (before 3 p)) (chunk r (before 3 p)) ∷ []

abbrev total : ℕ → ℕ
total r = sum_to plus 3 chunk r 2 r

abbrev out_shared : ℕ → List ℕ
out_shared r = total r ∷ total (before 3 r) ∷ []

abbrev reduced : ℕ → ℕ → ℕ
reduced r = store_all (sevens r) (kept plus (chunk r) (moves 3 r) (out (before 3 r)))

shared_round :
    (r : ℕ)
    → r < 3
    → out_shared r ≡ passed (reduced r) (shares 3 r (3 - 1)) (out_shared (before 3 r))
shared_round zero h = refl
shared_round (suc zero) h = refl
shared_round (suc (suc zero)) h = refl
shared_round (suc (suc (suc r))) h = absurd (omega arith)

-- The served machine as rank 1 of a ring of three.
abbrev of_three : Machine
of_three = record machine {
  comms = λ _. record { size = 3; local_rank = 1; ranks = rank 5500 ∷ rank 5501 ∷ rank 5502 ∷ [] };
}

all_reduce_share-reduces_example :
    (all_reduce_share 4200 24 0 64 128 of_three
      ≡ stages (world_at 4200 of_three) (share_of 24 3 0) 0 64 128 of_three)
    × (holds (reduced 1) (shares 3 1 (3 - 1)) (out_shared (before 3 1)) 2
        ≡ sum_to plus 3 chunk 2 (3 - 1) 2)
all_reduce_share-reduces_example =
    all_reduce_share-reduces plus chunk sevens out out_shared 4200 24 0 64 128 of_three 2
      (omega arith) (omega arith) (omega arith) (λ r h. refl) shared_round (omega arith)

scatter_reduce-moves_example :
    scatter_reduce 4200 8 0 64 128 machine
    ≡ make_all
        (world_at 4200 machine)
        (after (machine.comms 4200).size (machine.comms 4200).local_rank)
        (before (machine.comms 4200).size (machine.comms 4200).local_rank)
        8
        0
        64
        128
        (moves (machine.comms 4200).size (machine.comms 4200).local_rank)
        machine
scatter_reduce-moves_example =
    scatter_reduce-moves 4200 8 0 64 128 machine (omega arith) (omega arith) (omega arith)
