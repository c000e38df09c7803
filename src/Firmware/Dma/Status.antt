-- ===== src/Firmware/Dma/Status.antt =====
-- The statuses on the streams of the DMA engines (ccl_offload_control.c): what a test shows to be
-- there, a check reads without a wait.
use mathlib.Core.Path.{subst}
use accl.Base.{
  ℕ, zero, suc, ◌+◌, ◌%◌, ◌≤◌, ◌≡◌, refl, sym, Bool, true, false, ◌==◌, not, ◌&&◌, ◌||◌, get_range,
  if◌then◌else◌, List, [], ◌∷◌, arith,
}
use accl.Firmware.Machine.{
  M, Machine, Arrival, pure, raise, ◌>>=◌, ◌>>◌, tngetd, getd, read_from, test_word, test_from,
  update, modify, gets_of, bit,
}
use accl.Firmware.Pipeline.Ends.{Settings, Has, Settled, Triple, Triple-bind, dma_error}
use accl.Firmware.Dma.{check_dma_status, test_one, check_one}

-- With `true`, a status is on the stream.
abbrev pub Held : Bool → List Arrival → Type 0
Held true [] = ⊥
Held true (a ∷ rest) = Unit
Held false g = Unit

abbrev pub AllHeld : List (ℕ × Bool) → (ℕ → List Arrival) → Type 0
AllHeld [] gets = Unit
AllHeld ((channel, b) ∷ obs) gets = Held b (gets channel) × AllHeld obs gets

-- No stream of `obs` is `channel`.
abbrev Apart : ℕ → List (ℕ × Bool) → Type 0
Apart channel [] = Unit
Apart channel ((c, b) ∷ obs) = ((channel == c) ≡ false) × Apart channel obs

abbrev pub Seen : Settings → List (ℕ × Bool) → Machine → Type 0
Seen s obs m = Has s m × AllHeld obs m.gets

Held-either :
    (t b : Bool) (a : Arrival) (g h : List Arrival) → Held b h → Held b (if t then a ∷ g else h)
Held-either true true a g h p = tt
Held-either true false a g h p = tt
Held-either false b a g h p = p

AllHeld-update :
    (channel : ℕ) (a : Arrival) (g : List Arrival) (obs : List (ℕ × Bool)) (gets : ℕ → List Arrival)
    → AllHeld obs gets
    → AllHeld obs (update gets channel (a ∷ g))
AllHeld-update channel a g [] gets h = tt
AllHeld-update channel a g ((c, b) ∷ obs) gets h =
    (Held-either (channel == c) b a g (gets c) h.0, AllHeld-update channel a g obs gets h.1)

AllHeld-Apart :
    (channel : ℕ) (g : List Arrival) (obs : List (ℕ × Bool)) (gets : ℕ → List Arrival)
    → Apart channel obs
    → AllHeld obs gets
    → AllHeld obs (update gets channel g)
AllHeld-Apart channel g [] gets p h = tt
AllHeld-Apart channel g ((c, b) ∷ obs) gets p h = (
  subst (λ t. Held b (if t then g else gets c)) (sym p.0) h.0,
  AllHeld-Apart channel g obs gets p.1 h.1,
)

pub Held-zero :
    (used : Bool) (i : ℕ) (g : List Arrival) → i ≡ 0 → Held (used && (i == 0)) g → Held used g
Held-zero true i g e h = subst (λ k. Held (true && (k == 0)) g) e h
Held-zero false i g e h = tt

module _ (s : Settings) where
  word-Seen :
      (channel : ℕ) (obs : List (ℕ × Bool)) (m : Machine) (a : Arrival) (rest : List Arrival)
      (n : ℕ)
      → m.gets channel ≡ a ∷ rest
      → Seen s obs m
      → Settled (λ i. Seen s ((channel, i == 0) ∷ obs)) (test_word channel a rest n m)
  word-Seen channel obs m a rest zero e p = (p.0, (subst (Held true) (sym e) tt, p.1))
  word-Seen channel obs m a rest (suc n) e p =
      (p.0, (tt, AllHeld-update channel (record a { failed_tests = n }) rest obs m.gets p.1))

  from-Seen :
      (channel : ℕ) (obs : List (ℕ × Bool)) (m : Machine) (g : List Arrival)
      → m.gets channel ≡ g
      → Seen s obs m
      → Settled (λ i. Seen s ((channel, i == 0) ∷ obs)) (test_from channel g m)
  from-Seen channel obs m [] e p = (p.0, (tt, p.1))
  from-Seen channel obs m (a ∷ rest) e p = word-Seen channel obs m a rest a.failed_tests e p

  pub test_one-Seen :
      (used : Bool) (channel : ℕ) (obs : List (ℕ × Bool))
      → Triple
          (Seen s obs)
          (test_one used channel)
          (λ i. Seen s ((channel, used && (i == 0)) ∷ obs))
  unfolding Triple test_one tngetd
  test_one-Seen true channel obs m p = from-Seen channel obs m (m.gets channel) refl p
  test_one-Seen false channel obs m p = (p.0, (tt, p.1))

  read-Seen :
      (channel : ℕ) (obs : List (ℕ × Bool)) (m : Machine) (g : List Arrival)
      → Held true g
      → Apart channel obs
      → Seen s obs m
      → Settled (λ _. Seen s obs) (read_from channel g m)
  read-Seen channel obs m [] h a p = absurd h
  read-Seen channel obs m (w ∷ rest) h a p = (p.0, AllHeld-Apart channel rest obs m.gets a p.1)

  getd-Seen :
      (channel : ℕ) (obs : List (ℕ × Bool))
      → Apart channel obs
      → Triple (Seen s ((channel, true) ∷ obs)) (getd channel) (λ _. Seen s obs)
  unfolding Triple getd
  getd-Seen channel obs a m p = read-Seen channel obs m (m.gets channel) p.1.0 a (p.0, p.1.1)

  module _ (P : Machine → Type 0) where
    either-Keeps :
        (b : Bool) (c d : M (Unit {0}))
        → Triple P c (λ _. P)
        → Triple P d (λ _. P)
        → Triple P (if b then c else d) (λ _. P)
    either-Keeps true c d h k = h
    either-Keeps false c d h k = k

    raise-Keeps : (code : ℕ) → 1 ≤ code → code ≤ 8 → Triple P (raise {A = Unit {0}} code) (λ _. P)
    unfolding Triple
    raise-Keeps code l h m p = dma_error code l h

    pure-Keeps : Triple P (pure tt) (λ _. P)
    unfolding Triple
    pure-Keeps m p = p

    status-Keeps :
        (status len tag : ℕ) (b : Bool) → Triple P (check_dma_status status len tag b) (λ _. P)
    unfolding check_dma_status
    status-Keeps status len tag b =
        either-Keeps (not (get_range 3 0 status == tag)) _ _
          (raise-Keeps 1 (omega arith) (omega arith))
          (either-Keeps (bit 4 status) _ _ (raise-Keeps 2 (omega arith) (omega arith)) (
            either-Keeps (bit 5 status) _ _ (raise-Keeps 3 (omega arith) (omega arith)) (
              either-Keeps (bit 6 status) _ _ (raise-Keeps 4 (omega arith) (omega arith)) (
                either-Keeps (not (bit 7 status)) _ _ (raise-Keeps 5 (omega arith) (omega arith)) (
                  either-Keeps (b && not (bit 31 status)) _ _
                    (raise-Keeps 6 (omega arith) (omega arith))
                    (either-Keeps (b && not (get_range 30 8 status == len)) _ _
                      (raise-Keeps 7 (omega arith) (omega arith)) pure-Keeps))))))

  checked-Seen :
      (obs : List (ℕ × Bool)) (len status : ℕ) (b : Bool)
      → Triple
          (Seen s obs)
          (modify (λ m. record m { dma_tag = (m.dma_tag + 1) % 16 })
            >> (gets_of (λ m. m.dma_tag) >>= λ tag. check_dma_status status len tag b))
          (λ _. Seen s obs)
  unfolding Triple
  checked-Seen obs len status b m p =
      status-Keeps (Seen s obs) status len ((m.dma_tag + 1) % 16) b
        (record m { dma_tag = (m.dma_tag + 1) % 16 }) p

  pub check_one-Seen :
      (used : Bool) (channel len : ℕ) (b : Bool) (obs : List (ℕ × Bool))
      → Apart channel obs
      → Triple (Seen s ((channel, used) ∷ obs)) (check_one used channel len b) (λ _. Seen s obs)
  unfolding check_one Triple
  check_one-Seen true channel len b obs a m p =
      Triple-bind (Seen s ((channel, true) ∷ obs)) (λ _. Seen s obs) (λ _. Seen s obs)
        (getd channel) _ (getd-Seen channel obs a) (λ status. checked-Seen obs len status b) m p
  check_one-Seen false channel len b obs a m p = (p.0, p.1.1)

  -- A check that is not in use leaves everything to what comes next.
  skip-Seen :
      (channel len : ℕ) (b : Bool) (obs : List (ℕ × Bool)) (next : M (Unit {0}))
      → Triple (Seen s obs) next (λ _. Seen s [])
      → Triple (Seen s obs) (check_one false channel len b >> next) (λ _. Seen s [])
  unfolding check_one
  skip-Seen channel len b obs next h = h

  -- The two checks of the same stream, of which one is in use at most.
  pub tx-Seen :
      (u v : Bool) (channel len : ℕ) (obs : List (ℕ × Bool)) (next : M (Unit {0}))
      → (u && v) ≡ false
      → Apart channel obs
      → Triple (Seen s obs) next (λ _. Seen s [])
      → Triple
          (Seen s ((channel, u || v) ∷ obs))
          (check_one u channel len true >> (check_one v channel len false >> next))
          (λ _. Seen s [])
  tx-Seen true true channel len obs next e a h = absurd cc
  tx-Seen true false channel len obs next e a h =
      Triple-bind _ (λ _. Seen s obs) _ (check_one true channel len true) _
        (check_one-Seen true channel len true obs a) (λ _. skip-Seen channel len false obs next h)
  tx-Seen false v channel len obs next e a h =
      skip-Seen channel len true ((channel, v) ∷ obs) (check_one v channel len false >> next) (
        Triple-bind _ (λ _. Seen s obs) _ (check_one v channel len false) _
          (check_one-Seen v channel len false obs a) (λ _. h))
