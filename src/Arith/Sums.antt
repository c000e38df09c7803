-- ===== src/Arith/Sums.antt =====
-- The sums of two streams of operands.
use Prim.Native.Nat.{bit_and}
use accl.Base.{
  ℕ, zero, suc, ◌+◌, ◌-◌, ◌*◌, ◌/◌, ◌%◌, ◌^◌, ◌&&◌, get_range, ◌<◌, ◌≡◌, ◌⊎◌, inl, inr, refl, ◌∙◌,
  none, some, List, [], ◌∷◌, ◌++◌, append-nil, append_assoc, length, Stream, write, Flit, arith,
}
use accl.Arith.{lane, add_words, sum_word, elementwise_sum}
use accl.Arith.Lanes.{sum_lanes_lem}

-- `r` is the sum of the words `w` and `v`, of lanes of `dwb` bits: each whole lane of it holds what
-- `add` makes of the lanes of both, kept to the width of a lane; TKEEP and TLAST are those that
-- both have.
pub record SumOf (add : ℕ → ℕ → ℕ) (dwb : ℕ) (w v r : Flit) : Type 0 where
  pub lanes :
      (i : ℕ)
      → i < 512 / dwb
      → get_range ((i + 1) * dwb - 1) (i * dwb) r.bits
        ≡ add
            (get_range ((i + 1) * dwb - 1) (i * dwb) w.bits)
            (get_range ((i + 1) * dwb - 1) (i * dwb) v.bits)
          % 2 ^ dwb
  pub keep : r.keep ≡ bit_and w.keep v.keep
  pub last : r.last ≡ (w.last && v.last)

-- The words `rs` are the sums of the words of two lists, in order, one for each pair.
unfoldable pub AreSums : (ℕ → ℕ → ℕ) → ℕ → List Flit → List Flit → List Flit → Type 0
AreSums add dwb [] [] [] = Unit
AreSums add dwb (w ∷ ws) (v ∷ vs) (r ∷ rs) = SumOf add dwb w v r × AreSums add dwb ws vs rs
AreSums add dwb _ _ _ = ⊥

-- The words sent for two lists of operands.
unfoldable sums : (Flit → Flit → Flit) → List Flit → List Flit → List Flit
sums f [] vs = []
sums f (w ∷ ws) [] = []
sums f (w ∷ ws) (v ∷ vs) = f w v ∷ sums f ws vs

module _ (add : ℕ → ℕ → ℕ) (dwb fresh : ℕ) where
  add_words-SumOf : (w v : Flit) → 0 < dwb → SumOf add dwb w v (add_words add dwb fresh w v)
  unfolding add_words lane
  add_words-SumOf w v h = record {
    lanes = λ i lt.
        sum_lanes_lem add dwb w.bits v.bits (512 / dwb) i 0 fresh h (omega arith) (omega arith);
    keep = refl;
    last = refl;
  }

  sums-AreSums :
      (ws vs : List Flit)
      → length ws ≡ length vs
      → 0 < dwb
      → AreSums add dwb ws vs (sums (add_words add dwb fresh) ws vs)
  unfolding sums AreSums
  sums-AreSums [] [] h p = tt
  sums-AreSums [] (v ∷ vs) h p = absurd (omega arith)
  sums-AreSums (w ∷ ws) [] h p = absurd (omega arith)
  sums-AreSums (w ∷ ws) (v ∷ vs) h p = (add_words-SumOf w v p, sums-AreSums ws vs (omega arith) p)

  sums_sent :
      (ws vs more more' out : Stream Flit)
      → length ws ≡ length vs
      → elementwise_sum add dwb fresh
          (length ws)
          (record { in1 = ws ++ more; in2 = vs ++ more'; out = out })
        ≡ some
            (record { in1 = more; in2 = more'; out = out ++ sums (add_words add dwb fresh) ws vs })
  unfolding elementwise_sum sums sum_word
  sums_sent [] [] more more' out h = rw append-nil
  sums_sent [] (v ∷ vs) more more' out h = absurd (omega arith)
  sums_sent (w ∷ ws) [] more more' out h = absurd (omega arith)
  sums_sent (w ∷ ws) (v ∷ vs) more more' out h =
      sums_sent ws vs more more' (write out (add_words add dwb fresh w v)) (omega arith)
      ∙ rw append_assoc

  -- With as many words in both streams as the count, and others behind, the kernel ends; it sends
  -- one word for each pair of words, in order, and takes exactly the words summed. Each whole lane
  -- of a word sent holds the addition of the pair's lanes, kept to the width of a lane, and its
  -- TKEEP and TLAST are those that both words of the pair have. A lane has at least one bit.
  pub elementwise_sum_lem :
      (ws vs more more' out : Stream Flit)
      → length ws ≡ length vs
      → 0 < dwb
      → (rs : List Flit) × AreSums add dwb ws vs rs
        × (elementwise_sum add dwb fresh
              (length ws)
              (record { in1 = ws ++ more; in2 = vs ++ more'; out = out })
            ≡ some (record { in1 = more; in2 = more'; out = out ++ rs }))
  elementwise_sum_lem ws vs more more' out h p = (
    sums (add_words add dwb fresh) ws vs,
    sums-AreSums ws vs h p,
    sums_sent ws vs more more' out h,
  )

  -- If a stream holds fewer words than the count, the kernel waits.
  pub sum_waits :
      (count : ℕ) (ws vs out : Stream Flit)
      → (length ws < count) ⊎ (length vs < count)
      → elementwise_sum add dwb fresh count (record { in1 = ws; in2 = vs; out = out }) ≡ none
  unfolding elementwise_sum sum_word
  sum_waits zero ws vs out (inl h) = absurd (omega arith)
  sum_waits zero ws vs out (inr h) = absurd (omega arith)
  sum_waits (suc count) [] vs out h = refl
  sum_waits (suc count) (w ∷ ws) [] out h = refl
  sum_waits (suc count) (w ∷ ws) (v ∷ vs) out (inl h) =
      sum_waits count ws vs (write out (add_words add dwb fresh w v)) (inl (omega arith))
  sum_waits (suc count) (w ∷ ws) (v ∷ vs) out (inr h) =
      sum_waits count ws vs (write out (add_words add dwb fresh w v)) (inr (omega arith))
