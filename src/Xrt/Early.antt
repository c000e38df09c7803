-- ===== src/Xrt/Early.antt =====
-- When the driver asks for the interrupts first (driver/xrt/include/xlnx-device.hpp, prep_rx_buffers).
use accl.Base.{
  ℕ, suc, ◌+◌, ◌<◌, ◌≤◌, ◌≡◌, refl, ◌∙◌, ap, ne→not_==, if◌then◌else◌, List, [], ◌∷◌, arith,
}
use accl.Firmware.Machine.{update}
use accl.Xrt.{
  Arg, Event, write_register, run, sync_zeros, Accl, base_addr, place, prep_from, prep_rx_buffers,
  metadata, zero_words, configure,
}
use accl.Xrt.Memory.{memory}

-- The calls before the first run of the kernel.
unfoldable pub until_run : List Event → List Event
until_run [] = []
until_run (run args ∷ log) = []
until_run (write_register a v ∷ log) = write_register a v ∷ until_run log
until_run (sync_zeros a n ∷ log) = sync_zeros a n ∷ until_run log

-- No write is above `y`, and the kernel is not run.
unfoldable Below : ℕ → List Event → Type 0
Below y [] = Unit
Below y (write_register a v ∷ log) = (a ≤ y) × Below y log
Below y (run args ∷ log) = ⊥
Below y (sync_zeros a n ∷ log) = Below y log

memory_above :
    (kernel : List Arg → (ℕ → ℕ) → ℕ → ℕ) (w : ℕ → ℕ) (log : List Event) (y t : ℕ)
    → Below y log
    → y < t
    → memory kernel w log t ≡ w t
unfolding memory Below
memory_above kernel w [] y t s h = refl
memory_above kernel w (write_register a v ∷ log) y t s h =
    memory_above kernel (update w a v) log y t s.1 h
    ∙ ap (λ b. if b then v else w t) (ne→not_== a t (λ e. omega (arith, s.0)))
memory_above kernel w (run args ∷ log) y t s h = absurd s
memory_above kernel w (sync_zeros a n ∷ log) y t s h = memory_above kernel w log y t s h

abbrev pub of_size : Accl → ℕ → Accl
of_size a n = record a { nbufs = n }

-- With at least one buffer, when the kernel is first run, which enables the interrupts, the count says
-- that all the buffers are there, while no word past those of the first buffer has been written.
pub early_start :
    (kernel : List Arg → (ℕ → ℕ) → ℕ → ℕ) (bo : ℕ → ℕ) (a : Accl) (k t : ℕ) (w : ℕ → ℕ)
    → base_addr + 36 < t
    → (memory kernel w (until_run (prep_rx_buffers bo (of_size a (suc k))).1) base_addr ≡ suc k)
      × (memory kernel w (until_run (prep_rx_buffers bo (of_size a (suc k))).1) t ≡ w t)
unfolding prep_rx_buffers prep_from place metadata zero_words configure until_run Below memory
early_start kernel bo a k t w h =
    let log = until_run (prep_rx_buffers bo (of_size a (suc k))).1 in
    (
      refl,
      memory_above kernel w log (base_addr + 36) t
          (
            omega arith,
            (
              omega arith,
              (
                omega arith,
                (
                  omega arith,
                  (
                    omega arith,
                    (omega arith, (omega arith, (omega arith, (omega arith, (omega arith, tt))))),
                  ),
                ),
              ),
            ),
          )
          h,
    )
