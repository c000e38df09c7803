-- ===== src/Firmware/Pipeline/Schedule.antt =====
-- The order of the calls of the three loops, described by the list of the transactions.
use accl.Base.{
  ℕ, zero, suc, ◌-◌, ◌<◌, ◌≤◌, ◌≡◌, refl, sym, ap, ◌∙◌, true, false, ltb, List, [], ◌∷◌, length,
  length-drop, take, drop, arith, lt→ltb,
}
use accl.Firmware.Machine.{
  M, Machine, ok, pure, and_then, ◌>>=◌, bind_assoc, bind_assoc_two, bind_cong,
}
use accl.Firmware.Pipeline.{curr_len, issue, refill, drain, pipeline}

-- The list of the transactions of `len` bytes: each has `size` bytes but the last, which has what is
-- left.
abbrev pub Cut : ℕ → ℕ → List ℕ → Type 0
Cut size len [] = len ≡ 0
Cut size len (x ∷ xs) = (0 < len) × (x ≡ curr_len size len) × Cut size (len - x) xs

-- That list, by recursion on a bound of its length.
unfoldable pub cuts : ℕ → ℕ → ℕ → List ℕ
cuts size zero len = []
cuts size (suc k) len = elim (ltb 0 len) [
  | true ↦ curr_len size len ∷ cuts size k (len - curr_len size len)
  | false ↦ []
]

module _ {L : Type 0} where
  -- One call for each transaction of a list.
  unfoldable pub each : (ℕ → L → M L) → List ℕ → L → M L
  each f [] l = pure l
  each f (x ∷ xs) l = do l' ← f x l; each f xs l'

  -- Calls of `f` and `g` in turn, as many as the shorter list allows.
  unfoldable pub alternate : (ℕ → L → M L) → (ℕ → L → M L) → List ℕ → List ℕ → L → M L
  alternate f g [] ys l = pure l
  alternate f g (x ∷ xs) [] l = pure l
  alternate f g (x ∷ xs) (y ∷ ys) l = do l' ← f x l; l'' ← g y l'; alternate f g xs ys l''

-- The schedule of a list of transactions.
unfoldable pub schedule :
    {L : Type 0} → (ℕ → L → M L) → (ℕ → L → M L) → (ℕ → L → M L) → ℕ → List ℕ → L → M L
schedule start restart ack max_in_flight xs l = do
  l' ← each start (take max_in_flight xs) l
  l'' ← alternate ack restart xs (drop max_in_flight xs) l'
  each ack (drop (length (drop max_in_flight xs)) xs) l''

-- What is left after `k` transactions.
abbrev rem_after : ℕ → ℕ → ℕ → ℕ
rem_after size zero len = len
rem_after size (suc k) len = rem_after size k (len - curr_len size len)

rem_after_none : (size k : ℕ) → rem_after size k 0 ≡ 0
rem_after_none size zero = refl
rem_after_none size (suc k) =
    let e : 0 - curr_len size 0 ≡ 0 = omega arith in ap (rem_after size k) e ∙ rem_after_none size k

Cut-drop :
    (size k len : ℕ) (xs : List ℕ) → Cut size len xs → Cut size (rem_after size k len) (drop k xs)
Cut-drop size zero len xs c = c
Cut-drop size (suc k) len [] c = rw c (rem_after_none size (suc k))
Cut-drop size (suc k) len (x ∷ xs) c = Cut-drop size k (len - curr_len size len) xs (rw (← c.1) c.2)

module _ {L : Type 0} (size : ℕ) (start restart ack : ℕ → L → M L) where
  abbrev move_len : ℕ → ℕ
  move_len = curr_len size

  issue_next :
      (k len : ℕ) (l : L) (m : Machine)
      → 0 < len
      → issue size start restart ack (suc k) len l m
        ≡ (start (move_len len) l >>= λ l'. issue size start restart ack k (len - move_len len) l')
            m
  unfolding issue
  issue_next k len l m h = rw (lt→ltb 0 len h, issue)

  refill_next :
      (fuel len to_ack : ℕ) (l : L) (m : Machine)
      → 0 < len
      → refill size start restart ack (suc fuel) len to_ack l m
        ≡ (ack (move_len to_ack) l >>= λ l'. restart (move_len len) l' >>= λ l''.
              refill size start restart ack fuel
                (len - move_len len)
                (to_ack - move_len to_ack)
                l'')
            m
  unfolding refill
  refill_next fuel len to_ack l m h = rw (lt→ltb 0 len h, refill)

  drain_next :
      (fuel to_ack : ℕ) (l : L) (m : Machine)
      → 0 < to_ack
      → drain size start restart ack (suc fuel) to_ack l m
        ≡ (ack (move_len to_ack) l >>= λ l'.
              drain size start restart ack fuel (to_ack - move_len to_ack) l')
            m
  unfolding drain
  drain_next fuel to_ack l m h = rw (lt→ltb 0 to_ack h, drain)

  issue_none : (k : ℕ) (l : L) (m : Machine) → issue size start restart ack k 0 l m ≡ (ok (0, l), m)
  unfolding issue
  issue_none zero l m = refl
  issue_none (suc k) l m = refl

  issue_lem :
      (k len : ℕ) (xs : List ℕ) (l : L) (m : Machine)
      → Cut size len xs
      → issue size start restart ack k len l m
        ≡ (each start (take k xs) l >>= λ l'. pure (rem_after size k len, l')) m
  unfolding issue each
  issue_lem zero len xs l m c = refl
  issue_lem (suc k) len [] l m c = rw (c, issue_none (suc k) l m, rem_after_none size (suc k))
  issue_lem (suc k) len (x ∷ xs) l m c =
      let next : Cut size (len - move_len len) xs = rw (← c.1) c.2 in
      issue_next k len l m c.0
      ∙ bind_cong (start (move_len len) l)
          (λ l'. issue size start restart ack k (len - move_len len) l')
          (λ l'.
            each start (take k xs) l' >>= λ l''. pure (rem_after size k (len - move_len len), l''))
          m (λ l' m'. issue_lem k (len - move_len len) xs l' m' next)
      ∙ sym (bind_assoc (start (move_len len) l) (each start (take k xs)) _ m)
      ∙ ap
          (λ y.
            (start y l >>= each start (take k xs) >>= λ l'. pure (rem_after size (suc k) len, l'))
              m)
          (sym c.1)

  refill_lem :
      (fuel len to_ack : ℕ) (ys xs : List ℕ) (l : L) (m : Machine)
      → Cut size len ys
      → Cut size to_ack xs
      → length ys ≤ length xs
      → length ys < fuel
      → refill size start restart ack fuel len to_ack l m
        ≡ (alternate ack restart xs ys l >>= λ l'. pure (rem_after size (length ys) to_ack, l')) m
  unfolding refill alternate
  refill_lem zero len to_ack ys xs l m c d le h = absurd (omega arith)
  refill_lem (suc fuel) len to_ack [] [] l m c d le h = rw c
  refill_lem (suc fuel) len to_ack [] (x ∷ xs) l m c d le h = rw c
  refill_lem (suc fuel) len to_ack (y ∷ ys) [] l m c d le h = absurd (omega arith)
  refill_lem (suc fuel) len to_ack (y ∷ ys) (x ∷ xs) l m c d le h =
      let next : Cut size (len - move_len len) ys = rw (← c.1) c.2 in
      let next_ack : Cut size (to_ack - move_len to_ack) xs = rw (← d.1) d.2 in
      let len' = len - move_len len in
      let to_ack' = to_ack - move_len to_ack in
      let result : L → M (ℕ × L) = λ l'. pure (rem_after size (length ys) to_ack', l') in
      refill_next fuel len to_ack l m c.0
      ∙ bind_cong (ack (move_len to_ack) l)
          (λ l'. restart (move_len len) l' >>= refill size start restart ack fuel len' to_ack')
          (λ l'. restart (move_len len) l' >>= (λ l''. alternate ack restart xs ys l'' >>= result))
          m
          (λ l' m'.
            bind_cong (restart (move_len len) l') (refill size start restart ack fuel len' to_ack')
              (λ l''. alternate ack restart xs ys l'' >>= result) m'
              (λ l'' m''.
                refill_lem fuel len' to_ack' ys xs l'' m'' next next_ack (omega arith)
                  (omega arith)))
      ∙ sym (
          bind_assoc_two (ack (move_len to_ack) l) (restart (move_len len))
            (alternate ack restart xs ys) result m)
      ∙ ap
          (λ z.
            (ack z l
                >>= (λ l'. restart (move_len len) l' >>= alternate ack restart xs ys)
                >>= result)
              m)
          (sym d.1)
      ∙ ap (λ z. (ack x l >>= (λ l'. restart z l' >>= alternate ack restart xs ys) >>= result) m)
          (sym c.1)

  drain_lem :
      (fuel to_ack : ℕ) (xs : List ℕ) (l : L) (m : Machine)
      → Cut size to_ack xs
      → length xs < fuel
      → drain size start restart ack fuel to_ack l m ≡ each ack xs l m
  unfolding drain each
  drain_lem zero to_ack xs l m c h = absurd (omega arith)
  drain_lem (suc fuel) to_ack [] l m c h = rw c
  drain_lem (suc fuel) to_ack (x ∷ xs) l m c h =
      let next : Cut size (to_ack - move_len to_ack) xs = rw (← c.1) c.2 in
      drain_next fuel to_ack l m c.0
      ∙ bind_cong (ack (move_len to_ack) l)
          (λ l'. drain size start restart ack fuel (to_ack - move_len to_ack) l') (each ack xs) m
          (λ l' m'. drain_lem fuel (to_ack - move_len to_ack) xs l' m' next (omega arith))
      ∙ ap (λ y. (ack y l >>= each ack xs) m) (sym c.1)

  refill-drain :
      (fuel n len to_move : ℕ) (xs : List ℕ) (l : L) (m : Machine)
      → Cut size len xs
      → Cut size to_move (drop n xs)
      → length xs < fuel
      → (refill size start restart ack fuel to_move len l >>= λ s.
            drain size start restart ack fuel s.0 s.1)
          m
        ≡ (alternate ack restart xs (drop n xs) l >>= each ack (drop (length (drop n xs)) xs)) m
  refill-drain fuel n len to_move xs l m c d h =
      let later = length-drop n xs in
      let rest : ℕ = rem_after size (length (drop n xs)) len in
      let finish : ℕ × L → M L = λ s. drain size start restart ack fuel s.0 s.1 in
      let left : L → M (ℕ × L) = λ l'. pure (rest, l') in
      ap (and_then finish)
        (refill_lem fuel to_move len (drop n xs) xs l m d c (omega arith) (omega arith))
      ∙ bind_assoc (alternate ack restart xs (drop n xs) l) left finish m
      ∙ bind_cong (alternate ack restart xs (drop n xs) l) (λ l'. left l' >>= finish)
          (each ack (drop (length (drop n xs)) xs)) m
          (λ l' m'.
            drain_lem fuel rest (drop (length (drop n xs)) xs) l' m'
              (Cut-drop size (length (drop n xs)) len xs c)
              (omega (arith, length-drop (length (drop n xs)) xs)))

  -- With enough rounds, the three loops make the calls of the schedule, whatever the calls do: the
  -- first `max_in_flight` transactions are started, then each acknowledgment is followed by one more
  -- start, and then the rest is acknowledged; starts and acknowledgments go through the list of the
  -- transactions in order.
  pub pipeline_lem :
      (fuel max_in_flight len : ℕ) (xs : List ℕ) (l : L) (m : Machine)
      → Cut size len xs
      → length xs < fuel
      → pipeline size start restart ack fuel max_in_flight len l m
        ≡ schedule start restart ack max_in_flight xs l m
  unfolding pipeline schedule
  pipeline_lem fuel n len xs l m c h =
      let rest : ℕ = rem_after size n len in
      let finish : ℕ × L → M L = λ s.
        refill size start restart ack fuel s.0 len s.1
        >>= (λ t. drain size start restart ack fuel t.0 t.1) in
      let left : L → M (ℕ × L) = λ l'. pure (rest, l') in
      ap (and_then finish) (issue_lem n len xs l m c)
      ∙ bind_assoc (each start (take n xs) l) left finish m
      ∙ bind_cong (each start (take n xs) l) (λ l'. left l' >>= finish)
          (λ l'.
            alternate ack restart xs (drop n xs) l' >>= each ack (drop (length (drop n xs)) xs))
          m (λ l' m'. refill-drain fuel n len rest xs l' m' c (Cut-drop size n len xs c) h)

curr_len_pos : (size len : ℕ) → 0 < size → 0 < len → 0 < curr_len size len
unfolding curr_len
curr_len_pos size len p q = ground arith

cuts_next :
    (size k len : ℕ)
    → 0 < len
    → cuts size (suc k) len ≡ curr_len size len ∷ cuts size k (len - curr_len size len)
unfolding cuts
cuts_next size k len h = rw (lt→ltb 0 len h, cuts)

cuts_none : (size k : ℕ) → cuts size k 0 ≡ []
unfolding cuts
cuts_none size zero = refl
cuts_none size (suc k) = refl

pub cuts-Cut : (size k len : ℕ) → 0 < size → len ≤ k → Cut size len (cuts size k len)
cuts-Cut size k zero p q = rw (cuts_none size k) refl
cuts-Cut size zero (suc len) p q = absurd (omega arith)
cuts-Cut size (suc k) (suc len) p q =
    let r = curr_len_pos size (suc len) p (omega arith) in
    let pos : 0 < suc len = omega arith in
    let next = cuts-Cut size k (suc len - curr_len size (suc len)) p (omega arith) in
    rw (cuts_next size k (suc len) pos) (pos, refl, next)

length-cuts : (size k len : ℕ) → length (cuts size k len) ≤ k
unfolding cuts
length-cuts size k zero = let e = ap length (cuts_none size k) in omega arith
length-cuts size zero (suc len) = omega arith
length-cuts size (suc k) (suc len) =
    let pos : 0 < suc len = omega arith in
    let rest = length-cuts size k (suc len - curr_len size (suc len)) in
    let e = ap length (cuts_next size k (suc len) pos) in omega arith

-- The three loops that move `len` bytes end, with more rounds than bytes and a size that is not 0,
-- and make the calls of the schedule of the transactions of `len` bytes, whatever the calls do: the
-- first `max_in_flight` transactions are started, then each acknowledgment is followed by one more
-- start, and then the rest is acknowledged, where starts and acknowledgments go through the list
-- of the transactions in order; each has `size` bytes but the last, which has what is left.
pub pipeline-cuts :
    {L : Type 0} (size : ℕ) (start restart ack : ℕ → L → M L) (fuel max_in_flight len : ℕ) (l : L)
    (m : Machine)
    → 0 < size
    → len < fuel
    → (pipeline size start restart ack fuel max_in_flight len l m
        ≡ schedule start restart ack max_in_flight (cuts size len len) l m)
      × Cut size len (cuts size len len)
pipeline-cuts size start restart ack fuel n len l m p q =
    let c = cuts-Cut size len len p (omega arith) in
    let short = length-cuts size len len in
    (pipeline_lem size start restart ack fuel n len (cuts size len len) l m c (omega arith), c)
