-- ===== src/Firmware/Frame.antt =====
-- Conditions on the state that the calls of the firmware keep: those that do not depend on what the
-- calls change. What a call does to the parts of the state is gathered here once, for any
-- such condition.
pub mod Calls
pub mod Moves
pub mod Messages
pub mod Spares
pub mod Moving
pub mod Collectives
pub mod Served
use accl.Base.{ℕ, ◌≡◌, ◌==◌, false, Option, List, write, set}
use accl.Firmware.Machine.{Machine, RxBuffer, Rank, Arrival, Put}
use accl.Firmware.Comm.{set_comm_rank}
use accl.Firmware.Sts

-- The parts that every call may change: the streams, the registers, the tables.
pub record IsFrame (P : Machine → Type 0) : Type 0 where
  pub keep_puts :
      (m : Machine) (p : Put)
      → (p.channel == Sts.host) ≡ false
      → P m
      → P (record m { puts = write m.puts p })
  pub keep_gets : (m : Machine) (g : ℕ → List Arrival) → P m → P (record m { gets = g })
  pub keep_regs : (m : Machine) (r : ℕ → ℕ) → P m → P (record m { regs = r })
  pub keep_busy : (m : Machine) (b : List ℕ) → P m → P (record m { busy = b })
  pub keep_irqs : (m : Machine) (i : List ℕ) → P m → P (record m { irqs = i })
  pub keep_tag : (m : Machine) (t : ℕ) → P m → P (record m { dma_tag = t })
  pub keep_buffers :
      (m : Machine) (i : ℕ) (b : RxBuffer)
      → P m
      → P (record m { rx_buffers = set m.rx_buffers i b })
  pub keep_tags :
      (m : Machine) (n : ℕ) (l : List (Option ℕ))
      → P m
      → P (record m { num_rx_enqueued = n; dma_tag_lookup = l })
  pub keep_comms : (m : Machine) (adr i : ℕ) (r : Rank) → P m → P (set_comm_rank m adr i r)
