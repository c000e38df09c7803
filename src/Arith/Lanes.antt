-- ===== src/Arith/Lanes.antt =====
-- The lanes of a sum of two words, reduce_arith.cpp.
use native.Mathlib.Nat
use accl.Base.{
  ℕ, zero, suc, ◌+◌, ◌-◌, ◌*◌, ◌/◌, ◌%◌, ◌^◌, ◌<◌, ◌≤◌, ◌≡◌, ◌⊎◌, inl, inr, refl, sym, ap, ◌∙◌,
  set_range, arith,
}
use accl.Arith.{lane, sum_lanes}

pow_add : (c a b : ℕ) → c ^ (a + b) ≡ c ^ a * c ^ b
pow_add c a zero =
    let e : a + zero ≡ a = omega arith in
    ap (λ k. c ^ k) e ∙ sym (Nat.mul-one (c ^ a)) ∙ ap (λ k. c ^ a * k) (sym (Nat.pow-zero c))
pow_add c a (suc b) =
    let e : a + suc b ≡ suc (a + b) = omega arith in
    ap (λ k. c ^ k) e
    ∙ Nat.pow-suc c (a + b)
    ∙ ap (λ k. k * c) (pow_add c a b)
    ∙ Nat.mul_assoc (c ^ a) (c ^ b) c
    ∙ ap (λ k. c ^ a * k) (sym (Nat.pow-suc c b))

pow_pos : (a : ℕ) → 0 < 2 ^ a
pow_pos a = Nat.one-le-pow a 2 (omega arith)

-- The field of `D` values at the place `P` of a number, once `v` is written to it.
field_set : (P D x v q : ℕ) → 0 < P → (x % P + v % D * P + q * (P * D)) / P % D ≡ v % D
field_set P D x v q p =
    let e : x % P + v % D * P + q * (P * D) ≡ x % P + (v % D + q * D) * P = grind arith in
    let z : x % P / P + (v % D + q * D) ≡ v % D + q * D =
      omega (arith, Nat.div-eq_of_lt (Nat.mod-lt x p)) in
    ap (λ k. k / P % D) e
    ∙ ap (λ k. k % D) (Nat.add-mul-div_right (x % P) (v % D + q * D) p)
    ∙ ap (λ k. k % D) z
    ∙ Nat.add-mul-mod_self_right (v % D) q D
    ∙ Nat.mod-mod v D

-- A field is the same in a number and in what is left of it below a multiple of the field's end.
field_below : (P D E x : ℕ) → 0 < P → x % (P * (D * E)) / P % D ≡ x / P % D
field_below P D E x p =
    let m = x % (P * (D * E)) in
    let q = x / (P * (D * E)) in
    let e : x ≡ m + P * (D * (E * q)) =
      sym (Nat.mod-add-div x (P * (D * E)))
      ∙ ap (λ k. m + k) (Nat.mul_assoc P (D * E) q ∙ ap (λ k. P * k) (Nat.mul_assoc D E q)) in
    sym (
      ap (λ k. k / P % D) e
      ∙ ap (λ k. k % D) (Nat.add-mul-div_left m (D * (E * q)) p)
      ∙ Nat.add-mul-mod_self_left (m / P) D (E * q))

-- Writing at the place `P` leaves what is below.
below_set : (P D x v q : ℕ) → 0 < P → (x % P + v % D * P + q * (P * D)) % P ≡ x % P
below_set P D x v q p =
    let e : x % P + v % D * P + q * (P * D) ≡ x % P + (v % D + q * D) * P = grind arith in
    ap (λ k. k % P) e ∙ Nat.add-mul-mod_self_right (x % P) (v % D + q * D) P ∙ Nat.mod-mod x P

-- Lane bounds.
lane_end : (dwb j : ℕ) → 0 < dwb → (j + 1) * dwb - 1 + 1 ≡ j * dwb + dwb
lane_end dwb j h = omega (arith, Nat.add-mul j 1 dwb)

lane_width : (dwb j : ℕ) → 0 < dwb → (j + 1) * dwb - 1 + 1 - j * dwb ≡ dwb
lane_width dwb j h = rw (lane_end dwb j h) (omega arith)

lane_lem : (dwb j x : ℕ) → 0 < dwb → lane dwb j x ≡ x / 2 ^ (j * dwb) % 2 ^ dwb
unfolding lane
lane_lem dwb j x h = ap (λ k. x / 2 ^ (j * dwb) % 2 ^ k) (lane_width dwb j h)

-- A word with `v` written to lane `j`.
abbrev with_lane : ℕ → ℕ → ℕ → ℕ → ℕ
with_lane dwb j x v = set_range ((j + 1) * dwb - 1) (j * dwb) x v

with_lane_lem :
    (dwb j x v : ℕ)
    → 0 < dwb
    → with_lane dwb j x v
      ≡ x % 2 ^ (j * dwb)
        + v % 2 ^ dwb * 2 ^ (j * dwb)
        + x / 2 ^ (j * dwb + dwb) * (2 ^ (j * dwb) * 2 ^ dwb)
with_lane_lem dwb j x v h =
    ap
      (λ k.
        x % 2 ^ (j * dwb)
        + v % 2 ^ k * 2 ^ (j * dwb)
        + x / 2 ^ ((j + 1) * dwb - 1 + 1) * 2 ^ ((j + 1) * dwb - 1 + 1))
      (lane_width dwb j h)
    ∙ ap (λ k. x % 2 ^ (j * dwb) + v % 2 ^ dwb * 2 ^ (j * dwb) + x / 2 ^ k * 2 ^ k)
        (lane_end dwb j h)
    ∙ ap (λ k. x % 2 ^ (j * dwb) + v % 2 ^ dwb * 2 ^ (j * dwb) + x / 2 ^ (j * dwb + dwb) * k)
        (pow_add 2 (j * dwb) dwb)

lane_written : (dwb j x v : ℕ) → 0 < dwb → lane dwb j (with_lane dwb j x v) ≡ v % 2 ^ dwb
lane_written dwb j x v h =
    lane_lem dwb j (with_lane dwb j x v) h
    ∙ ap (λ k. k / 2 ^ (j * dwb) % 2 ^ dwb) (with_lane_lem dwb j x v h)
    ∙ field_set (2 ^ (j * dwb)) (2 ^ dwb) x v (x / 2 ^ (j * dwb + dwb)) (pow_pos (j * dwb))

-- A lane below `j`, in the part of the word below lane `j`.
lane_below : (dwb i j x : ℕ) → 0 < dwb → i < j → lane dwb i (x % 2 ^ (j * dwb)) ≡ lane dwb i x
lane_below dwb i j x h lt =
    let e : j * dwb ≡ i * dwb + (dwb + (j - i - 1) * dwb) =
      let k : j ≡ i + (1 + (j - i - 1)) = omega arith in
      ap (λ t. t * dwb) k
      ∙ Nat.add-mul i (1 + (j - i - 1)) dwb
      ∙ ap (λ t. i * dwb + t) (Nat.add-mul 1 (j - i - 1) dwb)
      ∙ omega arith in
    lane_lem dwb i (x % 2 ^ (j * dwb)) h
    ∙ ap (λ k. x % k / 2 ^ (i * dwb) % 2 ^ dwb)
        (ap (λ k. 2 ^ k) e
          ∙ pow_add 2 (i * dwb) (dwb + (j - i - 1) * dwb)
          ∙ ap (λ k. 2 ^ (i * dwb) * k) (pow_add 2 dwb ((j - i - 1) * dwb)))
    ∙ field_below (2 ^ (i * dwb)) (2 ^ dwb) (2 ^ ((j - i - 1) * dwb)) x (pow_pos (i * dwb))
    ∙ sym (lane_lem dwb i x h)

lane_kept : (dwb i j x v : ℕ) → 0 < dwb → i < j → lane dwb i (with_lane dwb j x v) ≡ lane dwb i x
lane_kept dwb i j x v h lt =
    sym (lane_below dwb i j (with_lane dwb j x v) h lt)
    ∙ ap (λ k. lane dwb i (k % 2 ^ (j * dwb))) (with_lane_lem dwb j x v h)
    ∙ ap (lane dwb i)
        (below_set (2 ^ (j * dwb)) (2 ^ dwb) x v (x / 2 ^ (j * dwb + dwb)) (pow_pos (j * dwb)))
    ∙ lane_below dwb i j x h lt

here_or_later : (i j : ℕ) → j ≤ i → (i ≡ j) ⊎ (suc j ≤ i)
here_or_later i j h = omega arith

module _ (add : ℕ → ℕ → ℕ) (dwb op1 op2 : ℕ) where
  -- The loop from lane `j` on leaves the lanes before it.
  lanes_kept :
      (n i j res : ℕ)
      → 0 < dwb
      → i < j
      → lane dwb i (sum_lanes add dwb j n op1 op2 res) ≡ lane dwb i res
  unfolding sum_lanes
  lanes_kept zero i j res h lt = refl
  lanes_kept (suc n) i j res h lt =
      let r = with_lane dwb j res (add (lane dwb j op1) (lane dwb j op2)) in
      lanes_kept n i (suc j) r h (omega arith)
      ∙ lane_kept dwb i j res (add (lane dwb j op1) (lane dwb j op2)) h lt

  -- Each lane that the loop goes over holds the sum of the operands' lanes.
  pub sum_lanes_lem :
      (n i j res : ℕ)
      → 0 < dwb
      → j ≤ i
      → i < j + n
      → lane dwb i (sum_lanes add dwb j n op1 op2 res)
        ≡ add (lane dwb i op1) (lane dwb i op2) % 2 ^ dwb
  unfolding sum_lanes
  sum_lanes_lem zero i j res h le lt = absurd (omega arith)
  sum_lanes_lem (suc n) i j res h le lt =
      let r = with_lane dwb j res (add (lane dwb j op1) (lane dwb j op2)) in
      elim (here_or_later i j le) [
        | inl e ↦
            lanes_kept n i (suc j) r h (omega arith)
            ∙ ap (λ k. lane dwb i (with_lane dwb k res (add (lane dwb k op1) (lane dwb k op2))))
                (sym e)
            ∙ lane_written dwb i res (add (lane dwb i op1) (lane dwb i op2)) h
        | inr l ↦ sum_lanes_lem n i (suc j) r h l (omega arith)
      ]
