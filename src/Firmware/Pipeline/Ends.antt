-- ===== src/Firmware/Pipeline/Ends.antt =====
-- Computations that end: with a timeout and more rounds than it, no wait is given up, and one for
-- a status ends with the status there.
use accl.Base.{
  ℕ, ◌<◌, ◌≤◌, ◌≡◌, Bool, true, false, if◌then◌else◌, List, [], ◌∷◌, take, drop, length,
}
use accl.Firmware.Machine.{M, Machine, Result, ok, stop, Stop, raised, pure, and_then, ◌>>=◌, ◌>>◌}
use accl.Firmware.Pipeline.{pipeline}
use accl.Firmware.Pipeline.Schedule.{each, alternate, schedule, cuts, pipeline-cuts}

-- The settings that a computation leaves as they are.
pub record Settings : Type 0 where
  pub timeout : ℕ
  pub rounds : ℕ
  pub size : ℕ

abbrev pub Has : Settings → Machine → Type 0
Has s m = (m.timeout ≡ s.timeout) × (m.rounds ≡ s.rounds) × (m.dma_transaction_size ≡ s.size)

-- A stop by an error of a DMA engine, DMA_MISMATCH_ERROR to DMA_TIMEOUT_ERROR.
pub data IsDmaError : Stop → Type 0 where
  dma_error : (code : ℕ) → 1 ≤ code → code ≤ 8 → IsDmaError (raised code)

-- What a computation has left: a value and a machine that satisfy `Q`, or such an error.
abbrev pub Settled : {A : Type 0} → (A → Machine → Type 0) → Result A × Machine → Type 0
Settled Q (ok a, m) = Q a m
Settled Q (stop e, m) = IsDmaError e

-- From a machine that satisfies `P`, `c` settles.
unfoldable pub Triple : {A : Type 0} → (Machine → Type 0) → M A → (A → Machine → Type 0) → Type 0
Triple P c Q = (m : Machine) → P m → Settled Q (c m)

and_then-Settled :
    {A B : Type 0} (Q : A → Machine → Type 0) (R : B → Machine → Type 0) (f : A → M B)
    (r : Result A × Machine)
    → Settled Q r
    → ((a : A) → Triple (Q a) (f a) R)
    → Settled R (and_then f r)
unfolding Triple
and_then-Settled Q R f (ok a, m) h k = k a m h
and_then-Settled Q R f (stop e, m) h k = h

pub Triple-bind :
    {A B : Type 0} (P : Machine → Type 0) (Q : A → Machine → Type 0) (R : B → Machine → Type 0)
    (c : M A) (f : A → M B)
    → Triple P c Q
    → ((a : A) → Triple (Q a) (f a) R)
    → Triple P (c >>= f) R
unfolding Triple
Triple-bind P Q R c f h k m p = and_then-Settled Q R f (c m) (h m p) k

-- A computation that settles and keeps the settings.
unfoldable pub Ends : {A : Type 0} → Settings → M A → Type 0
unfolding Triple
Ends s c = Triple (Has s) c (λ _. Has s)

pub Ends-bind :
    {A B : Type 0} (s : Settings) (c : M A) (f : A → M B)
    → Ends s c
    → ((a : A) → Ends s (f a))
    → Ends s (c >>= f)
unfolding Ends
Ends-bind s c f h k = Triple-bind (Has s) (λ _. Has s) (λ _. Has s) c f h k

pub Ends-then :
    {A B : Type 0} (s : Settings) (c : M A) (d : M B) → Ends s c → Ends s d → Ends s (c >> d)
Ends-then s c d h k = Ends-bind s c (λ _. d) h (λ _. k)

pub Ends-pure : {A : Type 0} (s : Settings) (a : A) → Ends s (pure a)
unfolding Ends Triple
Ends-pure s a m p = p

pub Ends-if :
    {A : Type 0} (s : Settings) (b : Bool) (c d : M A)
    → Ends s c
    → Ends s d
    → Ends s (if b then c else d)
unfolding Ends
Ends-if s true c d h k = h
Ends-if s false c d h k = k

module _ {L : Type 0} (s : Settings) where
  each-Ends :
      (f : ℕ → L → M L) (xs : List ℕ) (l : L)
      → ((n : ℕ) (l : L) → Ends s (f n l))
      → Ends s (each f xs l)
  unfolding each
  each-Ends f [] l h = Ends-pure s l
  each-Ends f (x ∷ xs) l h = Ends-bind s (f x l) (each f xs) (h x l) (λ l'. each-Ends f xs l' h)

  alternate-Ends :
      (f g : ℕ → L → M L) (xs ys : List ℕ) (l : L)
      → ((n : ℕ) (l : L) → Ends s (f n l))
      → ((n : ℕ) (l : L) → Ends s (g n l))
      → Ends s (alternate f g xs ys l)
  unfolding alternate
  alternate-Ends f g [] ys l h k = Ends-pure s l
  alternate-Ends f g (x ∷ xs) [] l h k = Ends-pure s l
  alternate-Ends f g (x ∷ xs) (y ∷ ys) l h k =
      Ends-bind s (f x l) (λ l'. g y l' >>= alternate f g xs ys) (h x l)
        (λ l'.
          Ends-bind s (g y l') (alternate f g xs ys) (k y l')
            (λ l''. alternate-Ends f g xs ys l'' h k))

  pub pipeline-Ends :
      (start restart ack : ℕ → L → M L) (fuel max_in_flight len : ℕ) (l : L)
      → 0 < s.size
      → len < fuel
      → ((n : ℕ) (l : L) → Ends s (start n l))
      → ((n : ℕ) (l : L) → Ends s (restart n l))
      → ((n : ℕ) (l : L) → Ends s (ack n l))
      → Ends s (pipeline s.size start restart ack fuel max_in_flight len l)
  unfolding schedule Ends Triple
  pipeline-Ends start restart ack fuel n len l p q h k a m has =
      let xs = cuts s.size len len in
      let e = (pipeline-cuts s.size start restart ack fuel n len l m p q).0 in
      let ends : Ends s (schedule start restart ack n xs l) =
        Ends-bind s (each start (take n xs) l) _ (each-Ends start (take n xs) l h) (λ l'.
          Ends-bind s (alternate ack restart xs (drop n xs) l')
            (each ack (drop (length (drop n xs)) xs))
            (alternate-Ends ack restart xs (drop n xs) l' a k)
            (λ l''. each-Ends ack (drop (length (drop n xs)) xs) l'' a)) in
      rw e (ends m has)
