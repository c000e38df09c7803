-- ===== src/Firmware/Main/Layout.antt =====
-- What a call leaves as it is, unless it is a configuration: the settings, how many spare buffers there
-- are, and which ranks a communicator has.
use accl.Base.{
  ℕ, ◌<◌, ◌≡◌, refl, ◌∙◌, ap, Bool, true, false, ◌==◌, if◌then◌else◌, List, set, length, length-set,
  ==→eq,
}
use accl.HostCtrl.{Call, call_words}
use accl.HostCtrl.Calls.{IsCall}
use accl.Firmware.Machine.{
  Machine, Communicator, Rank, Arrival, Result, ok, stop, raised, waits, fault, out_of_fuel,
}
use accl.Firmware.Keeps.{Keeps}
use accl.Firmware.Comm.{set_comm_rank}
use accl.Firmware.Frame.{IsFrame}
use accl.Firmware.Frame.Served.{collective-Keeps}
use accl.Firmware.Main.{carry_out, serve_call}
use accl.Firmware.Main.Answer.{answered, given, after, call_served}

-- The settings, the number of spare buffers and, by its address, the size, the local rank and the number
-- of ranks of a communicator.
pub record Layout : Type 0 where
  pub use_tcp : Bool
  pub timeout : ℕ
  pub dma_transaction_size : ℕ
  pub max_dma_in_flight : ℕ
  pub buffers : ℕ
  pub sizes : ℕ → ℕ
  pub local_ranks : ℕ → ℕ
  pub ranks : ℕ → ℕ

abbrev pub layout : Machine → Layout
layout m = record {
  use_tcp = m.use_tcp;
  timeout = m.timeout;
  dma_transaction_size = m.dma_transaction_size;
  max_dma_in_flight = m.max_dma_in_flight;
  buffers = length m.rx_buffers;
  sizes = λ adr. (m.comms adr).size;
  local_ranks = λ adr. (m.comms adr).local_rank;
  ranks = λ adr. length (m.comms adr).ranks;
}

abbrev IsLaidOut : Layout → Machine → Type 0
IsLaidOut l m = layout m ≡ l

-- A part of a communicator that an update of a rank leaves.
part_kept :
    (part : Communicator → ℕ) (m : Machine) (adr i : ℕ) (r : Rank)
    → part (let c = m.comms adr in record c { ranks = set c.ranks i r }) ≡ part (m.comms adr)
    → (at : ℕ) → part ((set_comm_rank m adr i r).comms at) ≡ part (m.comms at)
part_kept part m adr i r h at =
    elim (adr == at)
        as (λ b.
          (adr == at) ≡ b
          → part (
              if b
              then (let c = m.comms adr in record c { ranks = set c.ranks i r })
              else m.comms at)
            ≡ part (m.comms at)) [
              | true ↦ λ e. h ∙ ap (λ q. part (m.comms q)) (==→eq adr at e)
              | false ↦ λ e. refl
            ]
      refl

set_rank-layout : (m : Machine) (adr i : ℕ) (r : Rank) → layout (set_comm_rank m adr i r) ≡ layout m
set_rank-layout m adr i r = λ j. record (layout m) {
  sizes = λ at. part_kept (λ c. c.size) m adr i r refl at j;
  local_ranks = λ at. part_kept (λ c. c.local_rank) m adr i r refl at j;
  ranks = λ at. part_kept (λ c. length c.ranks) m adr i r (length-set (m.comms adr).ranks i r) at j;
}

IsLaidOut-IsFrame : (l : Layout) → IsFrame (IsLaidOut l)
IsLaidOut-IsFrame l = record {
  keep_puts = λ m p h t. t;
  keep_gets = λ m g t. t;
  keep_regs = λ m g t. t;
  keep_busy = λ m g t. t;
  keep_irqs = λ m g t. t;
  keep_tag = λ m g t. t;
  keep_buffers =
      λ m i b t. ap (λ n. record (layout m) { buffers = n }) (length-set m.rx_buffers i b) ∙ t;
  keep_tags = λ m n g t. t;
  keep_comms = λ m adr i r t. set_rank-layout m adr i r ∙ t;
}

answered_leaves :
    (l : Layout) (r : Result ℕ × Machine) → IsLaidOut l r.1 → IsLaidOut l (answered r).1
answered_leaves l (ok code, m) t = t
answered_leaves l (stop (raised code), m) t = t
answered_leaves l (stop waits, m) t = t
answered_leaves l (stop fault, m) t = t
answered_leaves l (stop out_of_fuel, m) t = t

-- A call whose scenario is not 0, the configuration, given when the main loop polls and read within the
-- rounds of the model, leaves the settings (the protocol, the timeout, the transaction size and the
-- transactions in flight), the number of spare buffers, and the size, the local rank and the number of
-- ranks of every communicator as they were, whether it succeeds, raises an error or does not end.
pub serve_call-layout :
    (gpio k : ℕ) (c : Call) (m : Machine) (rest : List Arrival)
    → IsCall c
    → (c.scenario == 0) ≡ false
    → k < m.rounds
    → layout (serve_call gpio (given m (after k (call_words c) rest))).1 ≡ layout m
unfolding Keeps
serve_call-layout gpio k c m rest v h r =
    let l = layout m in
    rw (call_served gpio k c m rest v r) (
      answered_leaves l (carry_out gpio c (given m rest))
        (collective-Keeps (IsLaidOut l) (IsLaidOut-IsFrame l) gpio c h (given m rest) refl))
