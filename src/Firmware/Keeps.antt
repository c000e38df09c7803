-- ===== src/Firmware/Keeps.antt =====
-- A condition on the state that a computation keeps, however it ends.
use accl.Base.{ℕ, ◌≡◌, refl, Bool, true, false, if◌then◌else◌, Option, none, some}
use accl.Firmware.Machine.{
  Machine, M, Result, ok, stop, Stop, pure, stop_with, raise, gets_of, modify, and_then, ◌>>=◌,
  ◌>>◌, or_stop,
}

module _ (P : Machine → Type 0) where
  unfoldable pub Keeps : {A : Type 0} → M A → Type 0
  Keeps c = (m : Machine) → P m → P (c m).1

  and_then_keeps :
      {A B : Type 0} (f : A → M B) (r : Result A × Machine)
      → P r.1
      → ((a : A) → Keeps (f a))
      → P (and_then f r).1
  unfolding Keeps
  and_then_keeps f (ok a, m) h k = k a m h
  and_then_keeps f (stop e, m) h k = h

  pub Keeps-bind :
      {A B : Type 0} (c : M A) (f : A → M B) → Keeps c → ((a : A) → Keeps (f a)) → Keeps (c >>= f)
  unfolding Keeps
  Keeps-bind c f h k m p = and_then_keeps f (c m) (h m p) k

  pub Keeps-then : {A B : Type 0} (c : M A) (d : M B) → Keeps c → Keeps d → Keeps (c >> d)
  Keeps-then c d h k = Keeps-bind c (λ _. d) h (λ _. k)

  -- At one state, where what comes next may use what is known of it.
  pub bind_at :
      {A B : Type 0} (c : M A) (f : A → M B) (m : Machine)
      → P (c m).1
      → ((a : A) → Keeps (f a))
      → P ((c >>= f) m).1
  bind_at c f m h k = and_then_keeps f (c m) h k

  pub Keeps-pure : {A : Type 0} (a : A) → Keeps (pure a)
  unfolding Keeps
  Keeps-pure a m p = p

  pub Keeps-stop : (A : Type 0) (e : Stop) → Keeps (stop_with {A = A} e)
  unfolding Keeps
  Keeps-stop A e m p = p

  pub Keeps-raise : (A : Type 0) (code : ℕ) → Keeps (raise {A = A} code)
  unfolding Keeps
  Keeps-raise A code m p = p

  pub Keeps-gets : {A : Type 0} (f : Machine → A) → Keeps (gets_of f)
  unfolding Keeps
  Keeps-gets f m p = p

  pub Keeps-modify : (f : Machine → Machine) → ((m : Machine) → P m → P (f m)) → Keeps (modify f)
  unfolding Keeps
  Keeps-modify f h m p = h m p

  pub Keeps-or_stop : {A : Type 0} (o : Option A) (e : Stop) → Keeps (or_stop o e)
  unfolding Keeps
  Keeps-or_stop none e m p = p
  Keeps-or_stop (some a) e m p = p

  pub Keeps-option :
      {A B : Type 0} (o : Option A) (c : M B) (d : A → M B)
      → Keeps c
      → ((a : A) → Keeps (d a))
      → Keeps (elim o [ none ↦ c | some a ↦ d a ])
  Keeps-option none c d h k = h
  Keeps-option (some a) c d h k = k a

  pub Keeps-elim :
      {A : Type 0} (b : Bool) (c d : M A)
      → Keeps c
      → Keeps d
      → Keeps (elim b [ true ↦ c | false ↦ d ])
  Keeps-elim true c d h k = h
  Keeps-elim false c d h k = k

  pub Keeps-if :
      {A : Type 0} (b : Bool) (c d : M A) → Keeps c → Keeps d → Keeps (if b then c else d)
  Keeps-if true c d h k = h
  Keeps-if false c d h k = k

  -- A test that is known to fail.
  pub otherwise :
      {A : Type 0} (b : Bool) (c d : M A) → b ≡ false → Keeps d → Keeps (if b then c else d)
  otherwise true c d h k = absurd cc
  otherwise false c d h k = k

  -- A branch, where each side may use the test's value.
  pub elim_at :
      {A : Type 0} (b : Bool) (c d : M A) (m : Machine)
      → (b ≡ true → P (c m).1)
      → (b ≡ false → P (d m).1)
      → P ((elim b as (λ _. M A) [ true ↦ c | false ↦ d ]) m).1
  elim_at true c d m h k = h refl
  elim_at false c d m h k = k refl

  -- What an option holds, or the end.
  pub or_stop_at :
      {A B : Type 0} (o : Option A) (e : Stop) (f : A → M B) (m : Machine)
      → P m
      → ((a : A) → o ≡ some a → P (f a m).1)
      → P (and_then f (or_stop o e m)).1
  or_stop_at none e f m p h = p
  or_stop_at (some a) e f m p h = h a refl

-- What a computation keeps, read off its steps.
pub ruleset monad = (
  Keeps-bind, Keeps-then, Keeps-pure, Keeps-stop, Keeps-raise, Keeps-gets, Keeps-or_stop, Keeps-if,
)
