-- ===== src/Firmware/Ring/Reduced.antt =====
-- What a ring of ranks computes when each makes the moves of a reduce-scatter.
use accl.Base.{
  ℕ, zero, suc, ◌+◌, ◌-◌, ◌<◌, ◌≤◌, ◌≡◌, refl, ap, ◌∙◌, ne→not_==, none, some, List, [], ◌∷◌, arith,
}
use accl.Firmware.Machine.{entry}
use accl.Firmware.Ring.Moves.{
  RingMove, transmit, add_and_send, add_and_keep, before, before-IsBelow, relays, moves,
}

module _ {A : Type 0} (add : A → A → A) where
  -- What a rank with the chunks `v` sends, of what it is sent: one chunk in for each that it adds to.
  abbrev pub sent : (ℕ → A) → List RingMove → List A → List A
  sent v [] ins = []
  sent v (transmit c ∷ xs) ins = v c ∷ sent v xs ins
  sent v (add_and_send c ∷ xs) [] = []
  sent v (add_and_send c ∷ xs) (x ∷ ins) = add x (v c) ∷ sent v xs ins
  sent v (add_and_keep c ∷ xs) [] = []
  sent v (add_and_keep c ∷ xs) (x ∷ ins) = sent v xs ins

  -- The chunks that it keeps, with their numbers.
  abbrev pub kept : (ℕ → A) → List RingMove → List A → List (ℕ × A)
  kept v [] ins = []
  kept v (transmit c ∷ xs) ins = kept v xs ins
  kept v (add_and_send c ∷ xs) [] = []
  kept v (add_and_send c ∷ xs) (x ∷ ins) = kept v xs ins
  kept v (add_and_keep c ∷ xs) [] = []
  kept v (add_and_keep c ∷ xs) (x ∷ ins) = (c, add x (v c)) ∷ kept v xs ins

  -- Chunk `c` of the `k` ranks before `r` and of `r`, added up in the order of the ring.
  abbrev pub sum_to : ℕ → (ℕ → ℕ → A) → ℕ → ℕ → ℕ → A
  sum_to size v r zero c = v r c
  sum_to size v r (suc k) c = add (sum_to size v (before size r) k c) (v r c)

-- `k` ranks back.
abbrev pub back : ℕ → ℕ → ℕ → ℕ
back size c zero = c
back size c (suc k) = back size (before size c) k

pub back_add : (size c j k : ℕ) → back size c (j + k) ≡ back size (back size c j) k
back_add size c zero k = let e : 0 + k ≡ k = omega arith in ap (λ n. back size c n) e
back_add size c (suc j) k =
    let e : suc j + k ≡ suc (j + k) = omega arith in
    ap (λ n. back size c n) e ∙ back_add size (before size c) j k

pub back_down : (size c k : ℕ) → k ≤ c → back size c k ≡ c - k
back_down size c zero h = omega arith
back_down size c (suc k) h =
    ap (λ d. back size d k) (rw (ne→not_== c 0 (λ z. omega arith)) refl)
    ∙ back_down size (c - 1) k (omega arith)
    ∙ omega arith

-- Once round the ring.
back_round : (size r : ℕ) → r < size → back size r size ≡ r
back_round size r h =
    let t = size - 1 - r in
    let e : size ≡ r + suc t = omega arith in
    let z : back size r r ≡ 0 = back_down size r r (omega arith) ∙ omega arith in
    ap (λ n. back size r n) e
    ∙ back_add size r r (suc t)
    ∙ ap (λ d. back size d (suc t)) z
    ∙ back_down size (size - 1) t (omega arith)
    ∙ omega arith

module _ {A : Type 0} (add : A → A → A) (size : ℕ) (v : ℕ → A) where
  entry-sent :
      (n c k : ℕ) (ins : List A) (x : A)
      → k < n
      → entry ins k ≡ some x
      → entry (sent add v (relays size c n) ins) k ≡ some (add x (v (back size c k)))
  entry-sent zero c k ins x h e = absurd (omega arith)
  entry-sent (suc n) c k [] x h e = absurd cc
  entry-sent (suc n) c zero (y ∷ ins) x h e =
      ap (λ o. elim o [ none ↦ none | some z ↦ some (add z (v c)) ]) e
  entry-sent (suc n) c (suc k) (y ∷ ins) x h e =
      entry-sent n (before size c) k ins x (omega arith) e

  kept_last :
      (n c : ℕ) (ins : List A) (x : A)
      → entry ins n ≡ some x
      → kept add v (relays size c n) ins ≡ (back size c n, add x (v (back size c n))) ∷ []
  kept_last zero c [] x e = absurd cc
  kept_last zero c (y ∷ ins) x e = ap (λ o. elim o [ none ↦ [] | some z ↦ (c, add z (v c)) ∷ [] ]) e
  kept_last (suc n) c [] x e = absurd cc
  kept_last (suc n) c (y ∷ ins) x e = kept_last n (before size c) ins x e

module _ {A : Type 0} (add : A → A → A) (size : ℕ) (v : ℕ → ℕ → A) (out : ℕ → List A)
    (ring : (r : ℕ) → r < size → out r ≡ sent add (v r) (moves size r) (out (before size r))) where
  -- The message that a rank sends as its number `k`.
  entry-out :
      (k r : ℕ)
      → k + 1 < size
      → r < size
      → entry (out r) k ≡ some (sum_to add size v r k (back size r (suc k)))
  entry-out zero r two h = ap (λ l. entry l 0) (ring r h)
  entry-out (suc k) r two h =
      let p = before size r in
      ap (λ l. entry l (suc k)) (ring r h)
      ∙ entry-sent add size (v r) (size - 2) (before size p) k (out p)
          (sum_to add size v p k (back size p (suc k))) (omega arith)
          (entry-out k p (omega arith) (before-IsBelow size r h))

-- On a ring of at least two ranks, where each makes the moves of a reduce-scatter with its own chunks and
-- is sent what the rank before it sends, each rank keeps one chunk, that of its own number: the sum of
-- this chunk over all the ranks, in the order of the ring from the rank after it to itself. Nothing is
-- asked of the addition.
pub ring_reduces :
    {A : Type 0} (add : A → A → A) (size : ℕ) (v : ℕ → ℕ → A) (out : ℕ → List A) (r : ℕ)
    → 1 < size
    → ((r : ℕ) → r < size → out r ≡ sent add (v r) (moves size r) (out (before size r)))
    → r < size
    → kept add (v r) (moves size r) (out (before size r))
      ≡ (r, sum_to add size v r (size - 1) r) ∷ []
ring_reduces add size v out r two ring h =
    let p = before size r in
    let n = size - 2 in
    let whole : suc (suc n) ≡ size = omega arith in
    let round : back size r (suc (suc n)) ≡ r =
      ap (λ k. back size r k) whole ∙ back_round size r h in
    let all : suc n ≡ size - 1 = omega arith in
    kept_last add size (v r) n (before size p) (out p) (sum_to add size v p n (back size p (suc n)))
      (entry-out add size v out ring n p (omega arith) (before-IsBelow size r h))
    ∙ ap (λ c. (c, sum_to add size v r (suc n) c) ∷ []) round
    ∙ ap (λ k. (r, sum_to add size v r k r) ∷ []) all
