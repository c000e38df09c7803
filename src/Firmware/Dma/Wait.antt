-- ===== src/Firmware/Dma/Wait.antt =====
-- The wait for the engines (ack_dma, ccl_offload_control.c): it ends, and with it each status that
-- the checks read is there.
use accl.Base.{
  ℕ, zero, suc, ◌+◌, ◌^◌, ◌<◌, ◌≤◌, ◌≡◌, refl, Bool, true, false, ◌==◌, ◌&&◌, ◌||◌, u32, List, [],
  ◌∷◌, arith,
}
use accl.Firmware.Machine.{M, Machine, pure, raise, ◌>>=◌, ◌>>◌}
use accl.Firmware.Pipeline.Ends.{Settings, Has, Triple, Triple-bind, dma_error}
use accl.Firmware.Code
use accl.Firmware.Sts
use accl.Firmware.Dma.{Dmas, tests_failed, expired, await_dmas, check_one, ack_dma}
use accl.Firmware.Dma.Status.{AllHeld, Seen, Held-zero, test_one-Seen, check_one-Seen, tx-Seen}

module _ (s : Settings) where
  -- The streams that an acknowledgment reads.
  abbrev used : Dmas → List (ℕ × Bool)
  used what =
      (Sts.dma0_rx, what.dma0_rx)
      ∷ (Sts.dma1_rx, what.dma1_rx)
      ∷ (Sts.dma1_tx, what.dma1_tx || what.dma1_tx_without_tlast)
      ∷ (Sts.dma2_rx, what.dma2_rx)
      ∷ []

  -- Whether the tests of a round say that all is there.
  abbrev Tested : Dmas → Bool → Machine → Type 0
  Tested what none_failed m = Has s m × (none_failed ≡ true → AllHeld (used what) m.gets)

  -- What the tests of the streams have shown so far.
  abbrev after0 : Dmas → ℕ → List (ℕ × Bool)
  after0 what i0 = (Sts.dma0_rx, what.dma0_rx && (i0 == 0)) ∷ []

  abbrev after1 : Dmas → ℕ → ℕ → List (ℕ × Bool)
  after1 what i0 i1 = (Sts.dma1_rx, what.dma1_rx && (i1 == 0)) ∷ after0 what i0

  abbrev after2 : Dmas → ℕ → ℕ → ℕ → List (ℕ × Bool)
  after2 what i0 i1 i2 =
      (Sts.dma1_tx, (what.dma1_tx || what.dma1_tx_without_tlast) && (i2 == 0)) ∷ after1 what i0 i1

  summed :
      (what : Dmas) (i0 i1 i2 i3 : ℕ)
      → Triple
          (Seen s ((Sts.dma2_rx, what.dma2_rx && (i3 == 0)) ∷ after2 what i0 i1 i2))
          (pure (i0 + i1 + i2 + i3))
          (λ i. Tested what (i == 0))
  unfolding Triple
  summed what i0 i1 i2 i3 m p = (
    p.0,
    λ e. (
      Held-zero what.dma0_rx i0 (m.gets Sts.dma0_rx) (ground arith) p.1.1.1.1.0,
      (
        Held-zero what.dma1_rx i1 (m.gets Sts.dma1_rx) (ground arith) p.1.1.1.0,
        (
          Held-zero (what.dma1_tx || what.dma1_tx_without_tlast) i2 (m.gets Sts.dma1_tx)
              (ground arith) p.1.1.0,
          (Held-zero what.dma2_rx i3 (m.gets Sts.dma2_rx) (ground arith) p.1.0, tt),
        ),
      ),
    ),
  )

  tests_failed-Tested :
      (what : Dmas) → Triple (Seen s []) (tests_failed what) (λ i. Tested what (i == 0))
  unfolding tests_failed
  tests_failed-Tested what =
      Triple-bind _ _ _ _ _ (test_one-Seen s what.dma0_rx Sts.dma0_rx []) (λ i0.
        Triple-bind _ _ _ _ _ (test_one-Seen s what.dma1_rx Sts.dma1_rx (after0 what i0)) (λ i1.
          Triple-bind _ _ _ _ _
            (test_one-Seen s (what.dma1_tx || what.dma1_tx_without_tlast) Sts.dma1_tx
              (after1 what i0 i1))
            (λ i2.
              Triple-bind _ _ _ _ _
                (test_one-Seen s what.dma2_rx Sts.dma2_rx (after2 what i0 i1 i2))
                (λ i3. summed what i0 i1 i2 i3))))

  next_round :
      (what : Dmas) (none_failed : Bool) (next : M (Unit {0}))
      → Triple (Seen s []) next (λ _. Seen s (used what))
      → Triple
          (Tested what none_failed)
          (elim none_failed [ true ↦ pure tt | false ↦ next ])
          (λ _. Seen s (used what))
  unfolding Triple
  next_round what true next h m p = (p.0, p.1 refl)
  next_round what false next h m p = h m (p.0, tt)

  await_next :
      (what : Dmas) (late : Bool) (next : M (Unit {0}))
      → (late ≡ false → Triple (Seen s []) next (λ _. Seen s (used what)))
      → Triple
          (Seen s [])
          (elim late [
            | true ↦ raise Code.dma_timeout
            | false ↦ tests_failed what >>= λ invalid. elim (invalid == 0) [
              | true ↦ pure tt
              | false ↦ next
            ]
          ])
          (λ _. Seen s (used what))
  unfolding Triple
  await_next what true next h m p = dma_error 8 (omega arith) (omega arith)
  await_next what false next h m p =
      Triple-bind _ _ _ _ _ (tests_failed-Tested what) (λ i. next_round what (i == 0) next (h refl))
        m p

  -- The checks behind the first, and those behind the second.
  abbrev tx_checks : ℕ → Dmas → M (Unit {0})
  tx_checks len what =
      check_one what.dma1_tx Sts.dma1_tx len true
      >> (check_one what.dma1_tx_without_tlast Sts.dma1_tx len false
          >> check_one what.dma2_rx Sts.dma2_rx len false)

  abbrev rx_checks : ℕ → Dmas → M (Unit {0})
  rx_checks len what = check_one what.dma1_rx Sts.dma1_rx len false >> tx_checks len what

  -- What the acknowledgment does once the wait has ended.
  abbrev checks : ℕ → Dmas → M (Unit {0})
  checks len what = check_one what.dma0_rx Sts.dma0_rx len false >> rx_checks len what

  checks-Seen :
      (len : ℕ) (what : Dmas)
      → (what.dma1_tx && what.dma1_tx_without_tlast) ≡ false
      → Triple (Seen s (used what)) (checks len what) (λ _. Seen s [])
  checks-Seen len what one =
      let obs : List (ℕ × Bool) = (Sts.dma2_rx, what.dma2_rx) ∷ [] in
      let obs' : List (ℕ × Bool) =
        (Sts.dma1_tx, what.dma1_tx || what.dma1_tx_without_tlast) ∷ obs in
      let obs'' : List (ℕ × Bool) = (Sts.dma1_rx, what.dma1_rx) ∷ obs' in
      Triple-bind (Seen s (used what)) (λ _. Seen s obs'') (λ _. Seen s [])
        (check_one what.dma0_rx Sts.dma0_rx len false) (λ _. rx_checks len what)
        (check_one-Seen s what.dma0_rx Sts.dma0_rx len false obs'' (refl, (refl, (refl, tt))))
        (λ _.
          Triple-bind (Seen s obs'') (λ _. Seen s obs') (λ _. Seen s [])
            (check_one what.dma1_rx Sts.dma1_rx len false) (λ _. tx_checks len what)
            (check_one-Seen s what.dma1_rx Sts.dma1_rx len false obs' (refl, (refl, tt)))
            (λ _.
              tx-Seen s what.dma1_tx what.dma1_tx_without_tlast Sts.dma1_tx len obs
                (check_one what.dma2_rx Sts.dma2_rx len false) one (refl, tt)
                (check_one-Seen s what.dma2_rx Sts.dma2_rx len false [] tt)))

  -- With a timeout and more rounds than it, the wait for the engines is not given up, and ends
  -- with all statuses there.
  module _ (timed : 0 < s.timeout) (word : s.timeout < 2 ^ 32) (enough : s.timeout < s.rounds) where
    soon : (t count : ℕ) → t ≡ s.timeout → expired t count ≡ false → count < s.timeout
    soon t count e h = ground arith

    counted : (count : ℕ) → count < s.timeout → u32 (count + 1) ≡ count + 1
    counted count h = omega arith

    await_dmas-Seen :
        (fuel : ℕ) (what : Dmas) (count : ℕ)
        → count ≤ s.timeout
        → s.timeout < fuel + count
        → Triple (Seen s []) (await_dmas fuel what count) (λ _. Seen s (used what))
    unfolding await_dmas Triple
    await_dmas-Seen zero what count le lt m p = absurd (omega arith)
    await_dmas-Seen (suc fuel) what count le lt m p =
        await_next what (expired m.timeout count) (await_dmas fuel what (u32 (count + 1)))
          (λ h.
            let more = soon m.timeout count p.0.0 h in
            rw (counted count more)
              (await_dmas-Seen fuel what (count + 1) (omega arith) (omega arith)))
          m p

    -- The acknowledgment settles, if DMA1 writes with the end mark or without, not both.
    pub ack_dma-Seen :
        (len : ℕ) (what : Dmas)
        → (what.dma1_tx && what.dma1_tx_without_tlast) ≡ false
        → Triple (Seen s []) (ack_dma len what) (λ _. Seen s [])
    unfolding ack_dma Triple
    ack_dma-Seen len what one m p =
        let wait : Triple (Seen s []) (await_dmas m.rounds what 0) (λ _. Seen s (used what)) =
          rw p.0.1 (await_dmas-Seen s.rounds what 0 (omega arith) (omega arith)) in
        Triple-bind (Seen s []) (λ _. Seen s (used what)) (λ _. Seen s [])
          (await_dmas m.rounds what 0) (λ _. checks len what) wait (λ _. checks-Seen len what one) m
          p
