-- ===== src/Firmware/Frame/Moves.antt =====
-- A movement by the DMA engines keeps what
-- depends on none of the parts that it changes.
use accl.Base.{ℕ, zero, suc, ◌+◌, ◌-◌, ◌%◌, ◌≡◌, Bool, false, ◌==◌, ltb, u32}
use accl.Firmware.Machine.{Machine, M, modify}
use accl.Firmware.Keeps.{
  Keeps, Keeps-bind, Keeps-pure, Keeps-gets, Keeps-elim, Keeps-raise, Keeps-stop, Keeps-modify,
  Keeps-or_stop, monad,
}
use accl.Firmware.Sts
use accl.Firmware.Frame.{IsFrame}
use accl.Firmware.Frame.Calls.{words}
use accl.Firmware.Pipeline.{curr_len, issue, refill, drain, pipeline}
use accl.Firmware.Dma.{
  dma_cmd, dma_cmd_addrh_addrl, dma_cmd_without_eof, check_dma_status, Dmas, Addresses, Moving,
  start_one, start_dma, test_one, tests_failed, expired, await_dmas, check_one, ack_dma,
  dma_movement_single, start_transaction, ack_transaction, dma_movement,
}
use accl.Firmware.Comm.{World, find_comm, rank_at}

module _ (P : Machine → Type 0) where
  -- The three loops keep what their steps keep.
  module _ {L : Type 0} (size : ℕ) (start restart ack : ℕ → L → M L)
      (k_start : (n : ℕ) (l : L) → Keeps P (start n l))
      (k_restart : (n : ℕ) (l : L) → Keeps P (restart n l))
      (k_ack : (n : ℕ) (l : L) → Keeps P (ack n l)) where
    issue-Keeps : (k to_move : ℕ) (l : L) → Keeps P (issue size start restart ack k to_move l)
    unfolding issue
    issue-Keeps zero to_move l = Keeps-pure P _
    issue-Keeps (suc k) to_move l =
        Keeps-elim P (ltb 0 to_move) _ _
          (Keeps-bind P _ _ (k_start _ l)
            (λ l'. issue-Keeps k (to_move - curr_len size to_move) l'))
          (Keeps-pure P _)

    refill-Keeps :
        (fuel to_move to_ack : ℕ) (l : L)
        → Keeps P (refill size start restart ack fuel to_move to_ack l)
    unfolding refill
    refill-Keeps zero to_move to_ack l = Keeps-stop P _ _
    refill-Keeps (suc fuel) to_move to_ack l =
        Keeps-elim P (ltb 0 to_move) _ _
          (Keeps-bind P _ _ (k_ack _ l) (λ l'. Keeps-bind P _ _ (k_restart _ l') (λ l''.
            refill-Keeps fuel (to_move - curr_len size to_move) (to_ack - curr_len size to_ack)
              l'')))
          (Keeps-pure P _)

    drain-Keeps : (fuel to_ack : ℕ) (l : L) → Keeps P (drain size start restart ack fuel to_ack l)
    unfolding drain
    drain-Keeps zero to_ack l = Keeps-stop P _ _
    drain-Keeps (suc fuel) to_ack l =
        Keeps-elim P (ltb 0 to_ack) _ _
          (Keeps-bind P _ _ (k_ack _ l) (λ l'. drain-Keeps fuel (to_ack - curr_len size to_ack) l'))
          (Keeps-pure P _)

    pub pipeline-Keeps :
        (fuel max_in_flight len : ℕ) (l : L)
        → Keeps P (pipeline size start restart ack fuel max_in_flight len l)
    unfolding pipeline
    pipeline-Keeps fuel max_in_flight len l = search (monad, issue-Keeps, refill-Keeps, drain-Keeps)

  pub check_dma_status-Keeps :
      (status expected_btt tag : ℕ) (indeterminate : Bool)
      → Keeps P (check_dma_status status expected_btt tag indeterminate)
  unfolding check_dma_status
  check_dma_status-Keeps status expected_btt tag indeterminate = search (monad) depth 12

  pub find_comm-Keeps : (adr : ℕ) → Keeps P (find_comm adr)
  unfolding find_comm
  find_comm-Keeps adr = Keeps-gets P _

  pub rank_at-Keeps : (w : World) (i : ℕ) → Keeps P (rank_at w i)
  unfolding rank_at Keeps
  rank_at-Keeps w i m p = Keeps-or_stop P _ _ m p

module _ (P : Machine → Type 0) (f : IsFrame P) where
  pub dma_cmd_addrh_addrl-Keeps :
      (channel btt addrh addrl tag : ℕ)
      → (channel == Sts.host) ≡ false
      → Keeps P (dma_cmd_addrh_addrl channel btt addrh addrl tag)
  unfolding dma_cmd_addrh_addrl
  dma_cmd_addrh_addrl-Keeps channel btt addrh addrl tag h = search words depth 8

  dma_cmd-Keeps :
      (channel btt addr tag : ℕ)
      → (channel == Sts.host) ≡ false
      → Keeps P (dma_cmd channel btt addr tag)
  unfolding dma_cmd
  dma_cmd-Keeps channel btt addr tag h = dma_cmd_addrh_addrl-Keeps channel btt _ _ tag h

  dma_cmd_without_eof-Keeps :
      (channel btt addr tag : ℕ)
      → (channel == Sts.host) ≡ false
      → Keeps P (dma_cmd_without_eof channel btt addr tag)
  unfolding dma_cmd_without_eof
  dma_cmd_without_eof-Keeps channel btt addr tag h = search words depth 8

  start_one-Keeps :
      (used : Bool) (command : ℕ → M (Unit {0})) (tag : ℕ)
      → ((t : ℕ) → Keeps P (command t))
      → Keeps P (start_one used command tag)
  unfolding start_one
  start_one-Keeps used command tag h = search (monad, h)

  pub start_dma-Keeps :
      (len : ℕ) (a : Addresses) (what : Dmas) (tag : ℕ) → Keeps P (start_dma len a what tag)
  unfolding start_dma
  start_dma-Keeps len a what tag =
      search (monad, start_one-Keeps, dma_cmd-Keeps, dma_cmd_without_eof-Keeps) depth 12

  test_one-Keeps : (used : Bool) (channel : ℕ) → Keeps P (test_one used channel)
  unfolding test_one
  test_one-Keeps used channel = search words

  tests_failed-Keeps : (what : Dmas) → Keeps P (tests_failed what)
  unfolding tests_failed
  tests_failed-Keeps what = search (monad, test_one-Keeps) depth 8

  await_dmas-Keeps : (fuel : ℕ) (what : Dmas) (count : ℕ) → Keeps P (await_dmas fuel what count)
  unfolding await_dmas
  await_dmas-Keeps zero what count = search (monad)
  await_dmas-Keeps (suc fuel) what count = Keeps-bind P _ _ (Keeps-gets P _) (λ timeout.
      Keeps-elim P (expired timeout count) _ _ (Keeps-raise P _ _) (
        Keeps-bind P _ _ (tests_failed-Keeps what) (λ invalid.
          Keeps-elim P (invalid == 0) _ _ (Keeps-pure P _)
            (await_dmas-Keeps fuel what (u32 (count + 1))))))

  next_tag-Keeps : Keeps P (modify (λ m. record m { dma_tag = (m.dma_tag + 1) % 16 }))
  next_tag-Keeps = Keeps-modify P _ (λ m p. f.keep_tag m _ p)

  check_one-Keeps :
      (used : Bool) (channel len : ℕ) (indeterminate : Bool)
      → Keeps P (check_one used channel len indeterminate)
  unfolding check_one
  check_one-Keeps used channel len indeterminate =
      search (words, next_tag-Keeps, check_dma_status-Keeps) depth 8

  pub ack_dma-Keeps : (len : ℕ) (what : Dmas) → Keeps P (ack_dma len what)
  unfolding ack_dma
  ack_dma-Keeps len what = search (monad, await_dmas-Keeps, check_one-Keeps) depth 10

  pub dma_movement_single-Keeps :
      (len : ℕ) (a : Addresses) (what : Dmas) → Keeps P (dma_movement_single len a what)
  unfolding dma_movement_single
  dma_movement_single-Keeps len a what = search (monad, start_dma-Keeps, ack_dma-Keeps) depth 8

  pub start_transaction-Keeps :
      (what : Dmas) (n : ℕ) (s : Moving) → Keeps P (start_transaction what n s)
  unfolding start_transaction
  start_transaction-Keeps what n s = search (monad, start_dma-Keeps)

  pub ack_transaction-Keeps :
      {L : Type 0} (what : Dmas) (n : ℕ) (l : L) → Keeps P (ack_transaction what n l)
  unfolding ack_transaction
  ack_transaction-Keeps what n l = search (monad, ack_dma-Keeps)

  pub dma_movement-Keeps :
      (len : ℕ) (a : Addresses) (what : Dmas) → Keeps P (dma_movement len a what)
  unfolding dma_movement
  dma_movement-Keeps len a what =
      search (monad, pipeline-Keeps, start_transaction-Keeps, ack_transaction-Keeps) depth 10
