-- ===== src/Base/Loop.antt =====
-- The `while` loops of the free-running kernels, with blocking reads: a round may wait for ever at
-- a read of an empty stream, and a run may use up the rounds that it is given.
use Prim.Native.Nat.{ℕ, zero, suc}
use mathlib.Core.Path.{◌≡◌}
use mathlib.Core.Bool.{Bool, true, false}
use mathlib.Core.Option.{Option, none, some}

pub data Outcome {ℓ} (A : Type ℓ) : Type ℓ where
  done : A → Outcome A
  blocked : Outcome A
  out_of_fuel : Outcome A

-- At most `fuel` tests of the condition; `none` from the body is a read that waits.
unfoldable pub while_read {ℓ} : {S : Type ℓ} → ℕ → (S → Bool) → (S → Option S) → S → Outcome S
while_read zero test body s = out_of_fuel
while_read (suc fuel) test body s = elim (test s) [
  | true ↦ elim (body s) [ none ↦ blocked | some s' ↦ while_read fuel test body s' ]
  | false ↦ done s
]

abbrev pub outcome_map {ℓ κ} : {A : Type ℓ} {B : Type κ} → (A → B) → Outcome A → Outcome B
outcome_map f (done a) = done (f a)
outcome_map f blocked = blocked
outcome_map f out_of_fuel = out_of_fuel

-- A loop stops at once where its test fails.
pub while_read_stop {ℓ} :
    {S : Type ℓ} (fuel : ℕ) (test : S → Bool) (body : S → Option S) (s : S)
    → test s ≡ false
    → while_read (suc fuel) test body s ≡ done s
unfolding while_read
while_read_stop fuel test body s h = rw (h, while_read)

-- A loop goes on with what a round leaves.
pub while_read_next {ℓ} :
    {S : Type ℓ} (fuel : ℕ) (test : S → Bool) (body : S → Option S) (s s' : S)
    → test s ≡ true
    → body s ≡ some s'
    → while_read (suc fuel) test body s ≡ while_read fuel test body s'
unfolding while_read
while_read_next fuel test body s s' h e = rw (h, e, while_read)
