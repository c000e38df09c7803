-- ===== src/Xrt/Memory.antt =====
-- What the words of the device are after the driver's calls, and words that a list of writes fills in the
-- order of its addresses.
use accl.Base.{ℕ, ◌+◌, ◌<◌, ◌≤◌, ◌≡◌, refl, ◌∙◌, ap, ne→not_==, if◌then◌else◌, List, [], ◌∷◌, arith}
use accl.Firmware.Machine.{update}
use accl.Xrt.{Arg, Event, write_register, run, sync_zeros}

-- A run of the kernel leaves the words from `lo` on and below `hi`.
abbrev pub Leaves : ℕ → ℕ → (List Arg → (ℕ → ℕ) → ℕ → ℕ) → Type 0
Leaves lo hi kernel =
    (args : List Arg) (w : ℕ → ℕ) (t : ℕ) → lo ≤ t → t < hi → kernel args w t ≡ w t

-- The words after the calls, from the words `w` before them; `kernel` is what a run makes of the words.
unfoldable pub memory : (List Arg → (ℕ → ℕ) → ℕ → ℕ) → (ℕ → ℕ) → List Event → ℕ → ℕ
memory kernel w [] = w
memory kernel w (write_register a v ∷ log) = memory kernel (update w a v) log
memory kernel w (run args ∷ log) = memory kernel (kernel args w) log
memory kernel w (sync_zeros a n ∷ log) = memory kernel w log

-- Each write is above the one before it, the first above `x`.
unfoldable pub Ascends : ℕ → List Event → Type 0
Ascends x [] = Unit
Ascends x (write_register a v ∷ log) = (x < a) × Ascends a log
Ascends x (run args ∷ log) = Ascends x log
Ascends x (sync_zeros a n ∷ log) = Ascends x log

-- Each write is there to read.
unfoldable pub Holds : (ℕ → ℕ) → List Event → Type 0
Holds w [] = Unit
Holds w (write_register a v ∷ log) = (w a ≡ v) × Holds w log
Holds w (run args ∷ log) = Holds w log
Holds w (sync_zeros a n ∷ log) = Holds w log

-- No write is at `hi` or above.
unfoldable pub Within : ℕ → List Event → Type 0
Within hi [] = Unit
Within hi (write_register a v ∷ log) = (a < hi) × Within hi log
Within hi (run args ∷ log) = Within hi log
Within hi (sync_zeros a n ∷ log) = Within hi log

update_self : (w : ℕ → ℕ) (a v : ℕ) → update w a v a ≡ v
update_self w a v = ground arith

module _ (kernel : List Arg → (ℕ → ℕ) → ℕ → ℕ) (lo hi : ℕ) (leaves : Leaves lo hi kernel) where
  pub memory_below :
      (w : ℕ → ℕ) (log : List Event) (x t : ℕ)
      → Ascends x log
      → lo ≤ t
      → t < hi
      → t ≤ x
      → memory kernel w log t ≡ w t
  unfolding memory Ascends
  memory_below w [] x t s l u h = refl
  memory_below w (write_register a v ∷ log) x t s l u h =
      memory_below (update w a v) log a t s.1 l u (omega (arith, s.0))
      ∙ ap (λ b. if b then v else w t) (ne→not_== a t (λ e. omega (arith, s.0)))
  memory_below w (run args ∷ log) x t s l u h =
      memory_below (kernel args w) log x t s l u h ∙ leaves args w t l u
  memory_below w (sync_zeros a n ∷ log) x t s l u h = memory_below w log x t s l u h

  pub memory-Holds :
      (w : ℕ → ℕ) (log : List Event) (x : ℕ)
      → lo ≤ x + 1
      → Ascends x log
      → Within hi log
      → Holds (memory kernel w log) log
  unfolding memory Ascends Holds Within
  memory-Holds w [] x l s u = tt
  memory-Holds w (write_register a v ∷ log) x l s u = (
    memory_below (update w a v) log a a s.1 (omega (arith, s.0)) u.0 (omega arith)
        ∙ update_self w a v,
    memory-Holds (update w a v) log a (omega (arith, s.0)) s.1 u.1,
  )
  memory-Holds w (run args ∷ log) x l s u = memory-Holds (kernel args w) log x l s u
  memory-Holds w (sync_zeros a n ∷ log) x l s u = memory-Holds w log x l s u
