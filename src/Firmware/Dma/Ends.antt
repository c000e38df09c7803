-- ===== src/Firmware/Dma/Ends.antt =====
-- A movement by the DMA engines ends (dma_movement, ccl_offload_control.c).
use accl.Base.{ℕ, ◌^◌, ◌<◌, ◌≤◌, ◌≡◌, ◌⊎◌, inl, inr, refl, ap, Bool, false, ◌&&◌}
use accl.Firmware.Machine.{M, Machine, Result, ok, stop, raised, pure, putd, cputd}
use accl.Firmware.Pipeline.{pipeline}
use accl.Firmware.Pipeline.Ends.{
  Settings, Has, Settled, Triple, Triple-bind, dma_error, Ends, Ends-bind, Ends-then, Ends-pure,
  Ends-if, pipeline-Ends,
}
use accl.Firmware.Dma.Wait.{ack_dma-Seen}
use accl.Firmware.Dma.{
  dma_cmd, dma_cmd_addrh_addrl, dma_cmd_without_eof, Dmas, Addresses, start_one, start_dma, ack_dma,
  Moving, start_transaction, ack_transaction, dma_movement,
}

module _ (s : Settings) where
  Ends-putd : (channel value : ℕ) → Ends s (putd channel value)
  unfolding putd Ends Triple
  Ends-putd channel value m p = p

  Ends-cputd : (channel value : ℕ) → Ends s (cputd channel value)
  unfolding cputd Ends Triple
  Ends-cputd channel value m p = p

  Ends-dma_cmd : (channel btt addr tag : ℕ) → Ends s (dma_cmd channel btt addr tag)
  unfolding dma_cmd dma_cmd_addrh_addrl
  Ends-dma_cmd channel btt addr tag =
      Ends-then s _ _ (Ends-putd _ _)
        (Ends-then s _ _ (Ends-putd _ _) (Ends-then s _ _ (Ends-putd _ _) (Ends-cputd _ _)))

  Ends-start_one :
      (used : Bool) (command : ℕ → M (Unit {0})) (tag : ℕ)
      → ((t : ℕ) → Ends s (command t))
      → Ends s (start_one used command tag)
  unfolding start_one
  Ends-start_one used command tag h =
      Ends-if s used _ _ (Ends-then s _ _ (h _) (Ends-pure s _)) (Ends-pure s _)

  Ends-start_dma :
      (len : ℕ) (a : Addresses) (what : Dmas) (tag : ℕ) → Ends s (start_dma len a what tag)
  unfolding start_dma dma_cmd_without_eof
  Ends-start_dma len a what tag =
      let cmd = Ends-dma_cmd in
      Ends-bind s _ _ (Ends-start_one _ _ _ (cmd _ len _)) (λ _.
        Ends-bind s _ _ (Ends-start_one _ _ _ (cmd _ len _)) (λ _.
          Ends-bind s _ _ (Ends-start_one _ _ _ (cmd _ len _)) (λ _.
            Ends-bind s _ _
              (Ends-start_one _ _ _ (λ t. Ends-then s _ _ (Ends-putd _ _) (
                Ends-then s _ _ (Ends-putd _ _)
                  (Ends-then s _ _ (Ends-putd _ _) (Ends-cputd _ _)))))
              (λ _. Ends-start_one _ _ _ (cmd _ len _)))))

  Ends-start_transaction : (what : Dmas) (n : ℕ) (l : Moving) → Ends s (start_transaction what n l)
  unfolding start_transaction
  Ends-start_transaction what n l =
      Ends-bind s _ _ (Ends-start_dma n l.addresses what l.tag) (λ _. Ends-pure s _)

  -- With a timeout and more rounds than it, an acknowledgment settles.
  module _ (timed : 0 < s.timeout) (word : s.timeout < 2 ^ 32) (enough : s.timeout < s.rounds) where
    Ends-ack_transaction :
        (what : Dmas)
        → (what.dma1_tx && what.dma1_tx_without_tlast) ≡ false
        → (n : ℕ) (l : Moving) → Ends s (ack_transaction what n l)
    unfolding ack_transaction Ends Triple
    Ends-ack_transaction what one n l m p =
        Triple-bind _ _ (λ _. Has s) (ack_dma n what) (λ _. pure l)
          (ack_dma-Seen s timed word enough n what one) (λ _ m' q. q.0) m (p, tt)

-- The result of a movement: 0, or an error of an engine.
Settled-result :
    (r : Result ℕ × Machine)
    → Settled (λ n _. n ≡ 0) r
    → (r.0 ≡ ok 0) ⊎ ((code : ℕ) × (1 ≤ code) × (code ≤ 8) × (r.0 ≡ stop (raised code)))
Settled-result (ok n, m) h = inl (ap ok h)
Settled-result (stop _, m) (dma_error code l h) = inr (code, l, h, refl)

-- A movement of `len` bytes ends: it returns 0, or it stops with an error of an engine,
-- DMA_MISMATCH_ERROR (1) to DMA_TIMEOUT_ERROR (8). No loop goes on for ever, and no read of a
-- status waits for one. A timeout is set, the size of a transaction is not 0, the bound on rounds
-- is above both the timeout and `len`, and DMA1 writes with the end mark or without it, not both.
pub dma_movement_ends :
    (len : ℕ) (a : Addresses) (what : Dmas) (m : Machine)
    → (what.dma1_tx && what.dma1_tx_without_tlast) ≡ false
    → 0 < m.timeout
    → m.timeout < 2 ^ 32
    → m.timeout < m.rounds
    → 0 < m.dma_transaction_size
    → len < m.rounds
    → ((dma_movement len a what m).0 ≡ ok 0)
      ⊎ ((code : ℕ) × (1 ≤ code)
          × (code ≤ 8)
          × ((dma_movement len a what m).0 ≡ stop (raised code)))
unfolding dma_movement Ends Triple
dma_movement_ends len a what m one timed word enough pos short =
    let s : Settings = record {
      timeout = m.timeout;
      rounds = m.rounds;
      size = m.dma_transaction_size;
    } in
    let start = Ends-start_transaction s what in
    let ack = Ends-ack_transaction s timed word enough what one in
    let l : Moving = record { addresses = a; tag = m.dma_tag } in
    let loops =
      pipeline-Ends s (start_transaction what) (start_transaction what) (ack_transaction what)
        m.rounds m.max_dma_in_flight len l pos short start start ack in
    Settled-result (dma_movement len a what m) (
      Triple-bind (Has s) (λ _. Has s) (λ n _. n ≡ 0)
        (pipeline m.dma_transaction_size (start_transaction what) (start_transaction what)
          (ack_transaction what) m.rounds m.max_dma_in_flight len l)
        (λ _. pure 0) loops (λ _ m' p. refl) m (refl, refl, refl))
