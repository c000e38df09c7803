-- ===== src/Firmware/Ring/Shared.antt =====
-- What a ring of ranks holds after the second stage of an allreduce, where each sends on what it has just
-- received.
use accl.Base.{
  ℕ, zero, suc, ◌+◌, ◌-◌, ◌<◌, ◌≡◌, ◌⊎◌, inl, inr, refl, sym, ap, ◌∙◌, ◌==◌, eq→==, ==→eq, ltb,
  Bool-cases, ltb→lt, not_ltb→le, true, false, if◌then◌else◌, none, some, List, [], ◌∷◌, arith,
}
use accl.Firmware.Machine.{entry, update}
use accl.Firmware.Ring.Moves.{before, before-IsBelow}
use accl.Firmware.Ring.Reduced.{back, back_add, back_down}

-- A chunk that is sent, and a chunk that is received into its place.
pub data ShareMove : Type 0 where
  pass store : ℕ → ShareMove

abbrev pub shares : ℕ → ℕ → ℕ → List ShareMove
shares size c zero = []
shares size c (suc k) = pass c ∷ store (before size c) ∷ shares size (before size c) k

-- A chunk that comes to the rank whose chunk is `c` in `n` rounds.
pub record Comes (size n c t : ℕ) : Type 0 where
  pub round : ℕ
  pub in_time : round < n
  pub is_it : back size c (suc round) ≡ t

module _ {A : Type 0} where
  -- What a rank that holds the chunks `mem` sends, of what it is sent.
  abbrev pub passed : (ℕ → A) → List ShareMove → List A → List A
  passed mem [] ins = []
  passed mem (pass c ∷ xs) ins = mem c ∷ passed mem xs ins
  passed mem (store c ∷ xs) [] = []
  passed mem (store c ∷ xs) (x ∷ ins) = passed (update mem c x) xs ins

  -- The chunks that it holds in the end.
  abbrev pub holds : (ℕ → A) → List ShareMove → List A → ℕ → A
  holds mem [] ins = mem
  holds mem (pass c ∷ xs) ins = holds mem xs ins
  holds mem (store c ∷ xs) [] = mem
  holds mem (store c ∷ xs) (x ∷ ins) = holds (update mem c x) xs ins

  pub update_self : (mem : ℕ → A) (c : ℕ) (x : A) → update mem c x c ≡ x
  update_self mem c x = ap (λ b. if b then x else mem c) (eq→== c c refl)

  -- What is sent as number k + 1 is what came as number k.
  entry-passed :
      (size n c k : ℕ) (mem : ℕ → A) (ins : List A) (x : A)
      → suc k < n
      → entry ins k ≡ some x
      → entry (passed mem (shares size c n) ins) (suc k) ≡ some x
  entry-passed size zero c k mem ins x h e = absurd (omega arith)
  entry-passed size (suc zero) c k mem ins x h e = absurd (omega arith)
  entry-passed size (suc (suc n)) c k mem [] x h e = absurd cc
  entry-passed size (suc (suc n)) c zero mem (y ∷ ins) x h e =
      ap some (update_self mem (before size c) y) ∙ e
  entry-passed size (suc (suc n)) c (suc k) mem (y ∷ ins) x h e =
      entry-passed size (suc n) (before size c) k (update mem (before size c) y) ins x (omega arith)
        e

  stored :
      (mem total : ℕ → A) (b t : ℕ) (y : A)
      → y ≡ total b
      → (mem t ≡ total t) ⊎ (b ≡ t)
      → update mem b y t ≡ total t
  stored mem total b t y e there =
      elim (b == t) as (λ q. (b == t) ≡ q → (if q then y else mem t) ≡ total t) [
        | true ↦ λ q. e ∙ ap total (==→eq b t q)
        | false ↦ λ q. elim there [ inl here ↦ here | inr same ↦ absurd (ground arith) ]
      ]
        refl

  stays_at :
      (size n c t j : ℕ) (mem total : ℕ → A) (y : A)
      → y ≡ total (before size c)
      → j < suc n
      → back size c (suc j) ≡ t
      → (update mem (before size c) y t ≡ total t) ⊎ Comes size n (before size c) t
  stays_at size n c t zero mem total y e l is =
      inl (stored mem total (before size c) t y e (inr is))
  stays_at size n c t (suc j) mem total y e l is =
      inr (record { round = j; in_time = omega arith; is_it = is })

  stays :
      (size n c t : ℕ) (mem total : ℕ → A) (y : A)
      → y ≡ total (before size c)
      → (mem t ≡ total t) ⊎ Comes size (suc n) c t
      → (update mem (before size c) y t ≡ total t) ⊎ Comes size n (before size c) t
  stays size n c t mem total y e (inl here) =
      inl (stored mem total (before size c) t y e (inl here))
  stays size n c t mem total y e (inr r) =
      stays_at size n c t r.round mem total y e r.in_time r.is_it

  -- A place that holds its total, or that a total comes to, holds it in the end.
  holds_total :
      (size n c t : ℕ) (mem total : ℕ → A) (ins : List A)
      → ((k : ℕ) → k < n → entry ins k ≡ some (total (back size c (suc k))))
      → (mem t ≡ total t) ⊎ Comes size n c t
      → holds mem (shares size c n) ins t ≡ total t
  holds_total size zero c t mem total ins come (inl here) = here
  holds_total size zero c t mem total ins come (inr r) = absurd (omega (arith, r.in_time))
  holds_total size (suc n) c t mem total [] come there =
      let e : none ≡ some (total (before size c)) = come zero (omega arith) in absurd cc
  holds_total size (suc n) c t mem total (y ∷ ins) come there =
      let e : y ≡ total (before size c) =
        ap (λ o. elim o [ none ↦ y | some z ↦ z ]) (come zero (omega arith)) in
      holds_total size n (before size c) t (update mem (before size c) y) total ins
        (λ k l. come (suc k) (omega arith)) (stays size n c t mem total y e there)

behind : (size r t : ℕ) → r < size → t < r → Comes size (size - 1) r t
behind size r t h l = record {
  round = r - t - 1;
  in_time = omega arith;
  is_it =
      let e : suc (r - t - 1) ≡ r - t = omega arith in
      ap (λ n. back size r n) e ∙ back_down size r (r - t) (omega arith) ∙ omega arith;
}

ahead : (size r t : ℕ) → t < size → r < t → Comes size (size - 1) r t
ahead size r t h l = record {
  round = r + (size - 1 - t);
  in_time = omega arith;
  is_it =
      let u = size - 1 - t in
      let e : suc (r + u) ≡ r + suc u = omega arith in
      let z : back size r r ≡ 0 = back_down size r r (omega arith) ∙ omega arith in
      ap (λ n. back size r n) e
      ∙ back_add size r r (suc u)
      ∙ ap (λ d. back size d (suc u)) z
      ∙ back_down size (size - 1) u (omega arith)
      ∙ omega arith;
}

-- The rank itself, or another that is reached in fewer steps than there are ranks.
reached : (size r t : ℕ) → r < size → t < size → (r ≡ t) ⊎ Comes size (size - 1) r t
reached size r t h l = elim (Bool-cases (ltb t r)) [
  | inl less ↦ inr (behind size r t h (ltb→lt t r less))
  | inr p ↦ elim (Bool-cases (ltb r t)) [
    | inl more ↦ inr (ahead size r t l (ltb→lt r t more))
    | inr q ↦ inl (omega (arith, not_ltb→le t r p, not_ltb→le r t q))
  ]
]

module _ {A : Type 0} (size : ℕ) (mem : ℕ → ℕ → A) (total : ℕ → A) (out : ℕ → List A)
    (own : (r : ℕ) → r < size → mem r r ≡ total r)
    (ring : (r : ℕ)
      → r < size
      → out r ≡ passed (mem r) (shares size r (size - 1)) (out (before size r))) where
  passes_on : (n : ℕ) → size ≡ suc (suc n) → (r : ℕ) → r < size → entry (out r) 0 ≡ some (mem r r)
  passes_on n e r h =
      let k : size - 1 ≡ suc n = omega arith in
      ap (λ l. entry l 0)
        (ring r h ∙ ap (λ j. passed (mem r) (shares size r j) (out (before size r))) k)

  -- The message that a rank sends as its number `k`.
  entry-out : (k r : ℕ) → k + 1 < size → r < size → entry (out r) k ≡ some (total (back size r k))
  entry-out zero r l h = passes_on (size - 2) (omega arith) r h ∙ ap some (own r h)
  entry-out (suc k) r l h =
      let p = before size r in
      ap (λ l. entry l (suc k)) (ring r h)
      ∙ entry-passed size (size - 1) r k (mem r) (out p) (total (back size p k)) (omega arith)
          (entry-out k p (omega arith) (before-IsBelow size r h))

  -- Every rank holds every total.
  pub ring_shares :
      (r t : ℕ)
      → r < size
      → t < size
      → holds (mem r) (shares size r (size - 1)) (out (before size r)) t ≡ total t
  ring_shares r t h l =
      holds_total size (size - 1) r t (mem r) total (out (before size r))
        (λ k q. entry-out k (before size r) (omega arith) (before-IsBelow size r h))
        (elim (reached size r t h l) [
          | inl same ↦ inl (ap (mem r) (sym same) ∙ own r h ∙ ap total same)
          | inr c ↦ inr c
        ])
