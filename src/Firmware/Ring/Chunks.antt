-- ===== src/Firmware/Ring/Chunks.antt =====
-- The chunks of an allreduce cover the buffer.
use native.Mathlib.Nat.{
  div-add-mod, mod-lt, mul-le-mul_left, mul_left_comm, div-le_self, mul-mod_right,
}
use accl.Base.{
  ℕ, suc, ◌+◌, ◌-◌, ◌*◌, ◌/◌, ◌%◌, ◌^◌, ◌<◌, ◌≤◌, ◌≡◌, inl, inr, ap, ◌∙◌, false, ◌==◌, ==→eq, ltb,
  ltb→lt, not_ltb→le, Bool-cases, arith,
}
use accl.Firmware.Ring.{chunk_len}

-- A share that is already a multiple, and one that is rounded up.
chunk_len-even :
    (len size width : ℕ)
    → len / size < 2 ^ 32
    → len / size % width ≡ 0
    → chunk_len len size width ≡ len / size
unfolding chunk_len
chunk_len-even len size width h e = ground arith

chunk_len-odd :
    (len size width : ℕ)
    → len / size + width < 2 ^ 32
    → (len / size % width == 0) ≡ false
    → len / size % width ≤ len / size
    → chunk_len len size width ≡ len / size - len / size % width + width
unfolding chunk_len
chunk_len-odd len size width h e le = ground arith

-- A remainder of a multiple by a multiple, smaller than the width, is none.
no_remainder : (size width k n r : ℕ) → size * (width * k) + r ≡ width * n → r < width → r ≡ 0
no_remainder size width k n r e lt =
    let swap : size * (width * k) ≡ width * (size * k) = mul_left_comm size width k in
    elim (Bool-cases (ltb (size * k) n)) [
      | inl more ↦
          let step : width * suc (size * k) ≤ width * n =
            mul-le-mul_left width (ltb→lt (size * k) n more) in
          let opened : width * suc (size * k) ≡ width * (size * k) + width = omega arith in
          absurd (omega arith)
      | inr less ↦
          let step : width * n ≤ width * (size * k) =
            mul-le-mul_left width (not_ltb→le (size * k) n less) in
          omega arith
    ]

even_cover :
    (len size width n : ℕ)
    → 0 < size
    → size ≤ width
    → len ≡ width * n
    → len / size % width ≡ 0
    → len ≡ size * (len / size)
even_cover len size width n pos le e even =
    let q : ℕ = len / size in
    let d : size * q + len % size ≡ len = div-add-mod len size in
    let w : width * (q / width) + q % width ≡ q = div-add-mod q width in
    let r : len % size < size = mod-lt len pos in
    let share : size * q ≡ size * (width * (q / width)) = ap (λ x. size * x) (omega arith) in
    let none_left =
      no_remainder size width (q / width) n (len % size) (omega arith) (omega arith) in
    omega arith

odd_cover : (len size c : ℕ) → 0 < size → suc (len / size) ≤ c → len ≤ size * c
odd_cover len size c pos h =
    let d : size * (len / size) + len % size ≡ len = div-add-mod len size in
    let r : len % size < size = mod-lt len pos in
    let up : size * suc (len / size) ≤ size * c = mul-le-mul_left size h in
    let opened : size * suc (len / size) ≡ size * (len / size) + size = omega arith in omega arith

-- A buffer of whole operands, shared by no more ranks than an operand has bytes, is covered by the
-- chunks that all_reduce_share gives the ranks, and each chunk is made of whole operands.
pub chunks_cover :
    (len size width n : ℕ)
    → 0 < size
    → size ≤ width
    → len ≡ width * n
    → len + width < 2 ^ 32
    → (len ≤ size * chunk_len len size width) × (chunk_len len size width % width ≡ 0)
chunks_cover len size width n pos le e small =
    let q : ℕ = len / size in
    let share : q ≤ len = div-le_self len size in
    elim (Bool-cases (q % width == 0)) [
      | inl even ↦
          let z = ==→eq (q % width) 0 even in
          let c = chunk_len-even len size width (omega arith) z in
          let cover = even_cover len size width n pos le e z in rw c (omega arith, z)
      | inr odd ↦
          let w : width * (q / width) + q % width ≡ q = div-add-mod q width in
          let t : q % width < width = mod-lt q (omega arith) in
          let c = chunk_len-odd len size width (omega arith) odd (omega arith) in
          let up : q - q % width + width ≡ width * suc (q / width) = omega arith in
          rw c (
            odd_cover len size (q - q % width + width) pos (omega arith),
            ap (λ x. x % width) up ∙ mul-mod_right width (suc (q / width)),
          )
    ]
