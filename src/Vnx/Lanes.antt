-- ===== src/Vnx/Lanes.antt =====
-- The byte mask of a ragged word: vnx_packetizer.cpp shifts, and the mask names the bytes.
use native.Mathlib.Decide.{ℕ_discrete}
use accl.Base.{ℕ, zero, suc, ◌≤◌, ◌<◌, ◌≡◌, refl, Bool, true, ◌&&◌, ◌==◌, arith, ==→eq}
use accl.Packet.Header.{lanes}
use accl.Vnx.Packetizer.{tail_lanes}

-- Both ways to write a mask agree on the numbers of lanes from `k` down to 0.
masks_agree : ℕ → Bool
masks_agree zero = tail_lanes 0 == lanes 0
masks_agree (suc k) = (tail_lanes (suc k) == lanes (suc k)) && masks_agree k

masks_agree_lem : (k i : ℕ) → masks_agree k ≡ true → i ≤ k → (tail_lanes i == lanes i) ≡ true
unfolding masks_agree
masks_agree_lem zero zero h le = h
masks_agree_lem zero (suc i) h le = absurd (omega arith)
masks_agree_lem (suc k) i h le = elim (ℕ_discrete i (suc k)) [
  | yes e ↦ ground (arith, e)
  | no n ↦ masks_agree_lem k i (ground arith) (omega arith)
]

masks_agree_63 : masks_agree 63 ≡ true
unfolding masks_agree tail_lanes
masks_agree_63 = refl

-- The mask of a ragged word names its bytes and no other lane.
pub tail_lanes-eq-lanes : (k : ℕ) → k < 64 → tail_lanes k ≡ lanes k
tail_lanes-eq-lanes k h = ==→eq _ _ (masks_agree_lem 63 k masks_agree_63 (omega arith))
