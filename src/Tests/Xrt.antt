-- ===== src/Tests/Xrt.antt =====
-- The theorems on the driver, at small inputs.
use accl.Base.{ℕ, ◌+◌, ◌*◌, ◌^◌, ◌≡◌, true, false, ◌==◌, if◌then◌else◌, take, ◌∷◌}
use accl.Xrt.{Accl, construct, write_register}
use accl.Xrt.Comm.{finished, logic_error}
use accl.Xrt.Comm.Writes.{built, rows, communicator_lem}

-- Two buffers, at addresses of more than 32 bits, over a memory of sevens.
abbrev bo : ℕ → ℕ
bo i = 5 * 2 ^ 32 + 4096 * i

abbrev two_buffers : Accl
two_buffers = construct 2 1024 (λ _. 0)

-- Strings as numbers: the empty one is 0, and the encoding of `s` is `s + 9`.
communicator_lem_example :
    ((built 0 100 (λ a b. a + b) (λ i. i) (λ s. s + 9) 3 2124 true 1 0).ended ≡ finished)
    × ((built 0 100 (λ a b. a + b) (λ i. i) (λ s. s + 9) 3 2124 true 1 0).writes
        ≡ write_register 2124 3
          ∷ write_register (2124 + 4) 0
          ∷ rows 0 100 (λ a b. a + b) (λ i. i) (λ s. s + 9) 1 3 0 (2124 + 4))
    × ((built 0 100 (λ a b. a + b) (λ i. i) (λ s. s + 9) 3 2124 false 1 0).ended
        ≡ (if 3 == 0 then finished else logic_error))
    × ((built 0 100 (λ a b. a + b) (λ i. i) (λ s. s + 9) 3 2124 false 1 0).writes
        ≡ write_register 2124 3
          ∷ write_register (2124 + 4) 0
          ∷ take 1 (rows 0 100 (λ a b. a + b) (λ i. i) (λ s. s + 9) 1 3 0 (2124 + 4)))
communicator_lem_example = communicator_lem 0 100 (λ a b. a + b) (λ i. i) (λ s. s + 9) 3 2124 1 0
