-- ===== src/Mux/Select.antt =====
-- The comparison of a packet's session with the table (`session_dest_lookup`, pktMultiplexor.cpp).
use native.Mathlib.Decide.{ℕ_discrete}
use accl.Base.{
  ◌==◌, eq→==, ne→not_==, ℕ, zero, suc, ◌+◌, ◌^◌, ◌<◌, ◌≤◌, ◌≡◌, ◌≢◌, refl, ap, ◌∙◌, true, false,
  arith, if◌then◌else◌,
}
use accl.Mux.Lookup.{Lookup, matches, compare_mask, mask_dest, num_mult_stream}

-- The mask of a comparison that holds at `i` alone.
abbrev pub single : ℕ → ℕ → ℕ → ℕ
single i k zero = 0
single i k (suc n) = (if k == i then 2 ^ k else 0) + single i (suc k) n

single_dest : (i last : ℕ) → i < 8 → mask_dest (single i 0 8) last ≡ i
unfolding mask_dest
single_dest zero last h = refl
single_dest (suc zero) last h = refl
single_dest (suc (suc zero)) last h = refl
single_dest (suc (suc (suc zero))) last h = refl
single_dest (suc (suc (suc (suc zero)))) last h = refl
single_dest (suc (suc (suc (suc (suc zero))))) last h = refl
single_dest (suc (suc (suc (suc (suc (suc zero)))))) last h = refl
single_dest (suc (suc (suc (suc (suc (suc (suc zero))))))) last h = refl
single_dest (suc (suc (suc (suc (suc (suc (suc (suc i)))))))) last h = absurd (omega arith)

pub single-nonzero : (i : ℕ) → i < 8 → (single i 0 8 == 0) ≡ false
single-nonzero zero h = refl
single-nonzero (suc zero) h = refl
single-nonzero (suc (suc zero)) h = refl
single-nonzero (suc (suc (suc zero))) h = refl
single-nonzero (suc (suc (suc (suc zero)))) h = refl
single-nonzero (suc (suc (suc (suc (suc zero))))) h = refl
single-nonzero (suc (suc (suc (suc (suc (suc zero)))))) h = refl
single-nonzero (suc (suc (suc (suc (suc (suc (suc zero))))))) h = refl
single-nonzero (suc (suc (suc (suc (suc (suc (suc (suc i)))))))) h = absurd (omega arith)

module _ (s : Lookup) (session i : ℕ) where
  pub compare_single :
      (k n : ℕ)
      → k + n ≤ 8
      → matches s session i ≡ true
      → ((j : ℕ) → j < 8 → j ≢ i → matches s session j ≡ false)
      → compare_mask s session k n ≡ single i k n
  unfolding compare_mask
  compare_single k zero le m o = refl
  compare_single k (suc n) le m o =
      let rest = compare_single (suc k) n (omega arith) m o in
      elim (ℕ_discrete k i) [
        | yes e ↦ rw (rest, e, m, eq→== i i refl)
        | no ne ↦ rw (rest, o k (omega arith) ne, ne→not_== k i ne)
      ]

-- If the session stands in one entry of the table alone, the mask of the comparison selects that
-- entry's output, whatever output was selected before.
pub selects_owner :
    (s : Lookup) (session i last : ℕ)
    → i < num_mult_stream
    → matches s session i ≡ true
    → ((j : ℕ) → j < num_mult_stream → j ≢ i → matches s session j ≡ false)
    → mask_dest (compare_mask s session 0 num_mult_stream) last ≡ i
selects_owner s session i last lt m o =
    ap (λ mask. mask_dest mask last) (compare_single s session i 0 8 (omega arith) m o)
    ∙ single_dest i last lt
