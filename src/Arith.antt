-- ===== src/Arith.antt =====
-- kernel/hls/arith/reduce_arith.cpp: the sum of two streams of 512-bit words, lane by lane. The
-- addition of an element type, on the bits of its values, is a parameter.
pub mod Lanes
pub mod Sums
use accl.Base.{
  ℕ, zero, suc, ◌+◌, ◌-◌, ◌*◌, ◌/◌, ◌%◌, ◌^◌, ◌&&◌, ◌==◌, get_range, set_range, Option, none, some,
  [], ◌∷◌, Stream, write, Flit, if◌then◌else◌,
}
use Prim.Native.Nat.{bit_and}

-- DATA_WIDTH.
abbrev pub data_width : ℕ
data_width = 512

-- Lane `j` of `dwb` bits.
unfoldable pub lane : ℕ → ℕ → ℕ → ℕ
lane dwb j word = get_range ((j + 1) * dwb - 1) (j * dwb) word

-- The loop over the lanes from `j` on: `n` are left.
unfoldable pub sum_lanes : (ℕ → ℕ → ℕ) → ℕ → ℕ → ℕ → ℕ → ℕ → ℕ → ℕ
unfolding lane
sum_lanes add dwb j zero op1 op2 res = res
sum_lanes add dwb j (suc n) op1 op2 res =
    sum_lanes add dwb (suc j) n op1 op2
      (set_range ((j + 1) * dwb - 1) (j * dwb) res (add (lane dwb j op1) (lane dwb j op2)))

-- The two streams of operands and the stream of sums.
pub record SumPorts : Type 0 where
  pub in1 : Stream Flit
  pub in2 : Stream Flit
  pub out : Stream Flit

-- The sum of two words; TLAST and the lanes are those that both have.
unfoldable pub add_words : (ℕ → ℕ → ℕ) → ℕ → ℕ → Flit → Flit → Flit
unfolding sum_lanes
add_words add dwb fresh w v = record {
  bits = sum_lanes add dwb 0 (data_width / dwb) w.bits v.bits fresh;
  keep = bit_and w.keep v.keep;
  last = w.last && v.last;
}

-- One round.
unfoldable pub sum_word : (ℕ → ℕ → ℕ) → ℕ → ℕ → SumPorts → Option SumPorts
unfolding add_words
sum_word add dwb fresh s = elim s.in1 [
  | [] ↦ none
  | w ∷ ws ↦ elim s.in2 [
    | [] ↦ none
    | v ∷ vs ↦ some (record { in1 = ws; in2 = vs; out = write s.out (add_words add dwb fresh w v) })
  ]
]

-- The loop: `count` rounds.
unfoldable pub elementwise_sum : (ℕ → ℕ → ℕ) → ℕ → ℕ → ℕ → SumPorts → Option SumPorts
elementwise_sum add dwb fresh zero s = some s
elementwise_sum add dwb fresh (suc count) s = elim (sum_word add dwb fresh s) [
  | none ↦ none
  | some t ↦ elementwise_sum add dwb fresh count t
]

-- The additions of the four element types.
pub record Additions : Type 0 where
  pub float : ℕ → ℕ → ℕ
  pub double : ℕ → ℕ → ℕ
  pub int : ℕ → ℕ → ℕ
  pub long : ℕ → ℕ → ℕ

-- The whole kernel.
unfoldable pub reduce_arith : Additions → ℕ → ℕ → ℕ → SumPorts → Option SumPorts
reduce_arith add fresh count function s =
    if function == 0
    then elementwise_sum add.float 32 fresh count s
    else if function == 1
    then elementwise_sum add.double 64 fresh count s
    else if function == 2
    then elementwise_sum add.int 32 fresh count s
    else elementwise_sum add.long 64 fresh count s
