-- ===== src/Firmware/Frame/Messages.antt =====
-- The opening of connections and the packetizer's messages keep what depends on none of the parts that
-- they change.
use accl.Base.{ℕ, zero, suc, ◌+◌, ◌≡◌, refl, false, ◌&&◌, ◌==◌, ltb, if◌then◌else◌, u32}
use accl.Firmware.Machine.{Machine, M, gets_of, Rank}
use accl.Firmware.Keeps.{
  Keeps, Keeps-bind, Keeps-then, Keeps-pure, Keeps-gets, Keeps-elim, Keeps-raise, Keeps-modify,
  monad,
}
use accl.Firmware.Sts
use accl.Firmware.Code
use accl.Firmware.Frame.{IsFrame}
use accl.Firmware.Frame.Calls.{if_apart, putd-Keeps, getd-Keeps, tngetd-Keeps, words}
use accl.Firmware.Dma.{Dmas, Addresses, Moving, expired}
use accl.Firmware.Comm.{
  World, set_rank, put_con_requests, store_session, get_con_replies, open_con, open_port,
  init_connection,
}
use accl.Firmware.Packetizer.{
  put_message, put_messages, start_packetizer_message, await_sts, ack_message, ack_packetizer,
  restart_message, ack_both, dma_movement_and_packetizer,
}
use accl.Firmware.Frame.Moves.{
  pipeline-Keeps, find_comm-Keeps, rank_at-Keeps, ack_dma-Keeps, start_transaction-Keeps,
}

module _ (P : Machine → Type 0) (f : IsFrame P) where
  pub set_rank-Keeps : (w : World) (i : ℕ) (r : Rank) → Keeps P (set_rank w i r)
  unfolding set_rank
  set_rank-Keeps w i r = Keeps-modify P _ (λ m p. f.keep_comms m w.address i r p)

  put_con_requests-Keeps : (w : World) (i k : ℕ) → Keeps P (put_con_requests w i k)
  unfolding put_con_requests
  put_con_requests-Keeps w i zero = search monad
  put_con_requests-Keeps w i (suc k) =
      Keeps-elim P (i == w.local_rank) _ _ (put_con_requests-Keeps w (suc i) k) (
        Keeps-bind P _ _ (rank_at-Keeps P w i) (λ r.
          Keeps-then P _ _ (putd-Keeps P f _ _ refl)
            (Keeps-then P _ _ (putd-Keeps P f _ _ refl) (put_con_requests-Keeps w (suc i) k))))

  store_session-Keeps :
      (w : World) (ip port session j k : ℕ) → Keeps P (store_session w ip port session j k)
  unfolding store_session
  store_session-Keeps w ip port session j zero = search monad
  store_session-Keeps w ip port session j (suc k) = Keeps-bind P _ _ (rank_at-Keeps P w j) (λ r.
      Keeps-elim P ((ip == r.ip) && (port == r.port)) _ _ (set_rank-Keeps w j _)
        (store_session-Keeps w ip port session (suc j) k))

  get_con_replies-Keeps : (w : World) (k ret : ℕ) → Keeps P (get_con_replies w k ret)
  unfolding get_con_replies
  get_con_replies-Keeps w zero ret = search monad
  get_con_replies-Keeps w (suc k) ret = Keeps-bind P _ _ (getd-Keeps P f _) (λ session.
      Keeps-bind P _ _ (getd-Keeps P f _) (λ ip. Keeps-bind P _ _ (getd-Keeps P f _) (λ port.
        Keeps-bind P _ _ (getd-Keeps P f _) (λ success.
          Keeps-elim P (success == 0) _ _ (get_con_replies-Keeps w k _) (
            Keeps-then P _ _ (store_session-Keeps w ip port session 0 w.size)
              (get_con_replies-Keeps w k ret))))))

  pub open_con-Keeps : (comm : ℕ) → Keeps P (open_con comm)
  unfolding open_con
  open_con-Keeps comm =
      search (monad, find_comm-Keeps, put_con_requests-Keeps, get_con_replies-Keeps)

  pub open_port-Keeps : (comm : ℕ) → Keeps P (open_port comm)
  unfolding open_port
  open_port-Keeps comm = search (words, find_comm-Keeps, rank_at-Keeps) depth 8

  pub init_connection-Keeps : (comm : ℕ) → Keeps P (init_connection comm)
  unfolding init_connection
  init_connection-Keeps comm = search (monad, open_port-Keeps, open_con-Keeps)

  put_message-Keeps :
      (net_tx dst len tag src_rank seq : ℕ)
      → (net_tx == Sts.host) ≡ false
      → Keeps P (put_message net_tx dst len tag src_rank seq)
  unfolding put_message
  put_message-Keeps net_tx dst len tag src_rank seq h = search words depth 8

  put_messages-Keeps :
      (size : ℕ) (message : ℕ → ℕ → M (Unit {0})) (k i len seq : ℕ)
      → ((n s : ℕ) → Keeps P (message n s))
      → Keeps P (put_messages size message k i len seq)
  unfolding put_messages
  put_messages-Keeps size message zero i len seq h = search monad
  put_messages-Keeps size message (suc k) i len seq h =
      Keeps-elim P (ltb 0 len) _ _
        (Keeps-then P _ _ (h _ _) (put_messages-Keeps size message k (suc i) _ _ h))
        (Keeps-pure P _)

  pub start_packetizer_message-Keeps :
      (w : World) (dst_rank len tag offset : ℕ)
      → Keeps P (start_packetizer_message w dst_rank len tag offset)
  unfolding start_packetizer_message
  start_packetizer_message-Keeps w dst_rank len tag offset =
      search (monad, rank_at-Keeps, put_messages-Keeps, put_message-Keeps, if_apart) depth 10

  await_sts-Keeps : (fuel channel count : ℕ) → Keeps P (await_sts fuel channel count)
  unfolding await_sts
  await_sts-Keeps zero channel count = search (monad)
  await_sts-Keeps (suc fuel) channel count = Keeps-bind P _ _ (tngetd-Keeps P f channel) (λ invalid.
      Keeps-bind P _ _ (Keeps-gets P _) (λ timeout.
        Keeps-elim P (invalid == 0) _ _ (Keeps-pure P _) (
          Keeps-elim P (expired timeout count) _ _ (Keeps-raise P _ _)
            (await_sts-Keeps fuel channel (u32 (count + 1))))))

  ack_message-Keeps : (w : World) (dst_rank : ℕ) → Keeps P (ack_message w dst_rank)
  unfolding ack_message
  ack_message-Keeps w dst_rank = Keeps-bind P (gets_of (λ m. m.use_tcp)) _ (Keeps-gets P _) (λ tcp.
      let channel = if tcp then Sts.tcp_pkt else Sts.udp_pkt in
      Keeps-bind P (gets_of (λ m. m.rounds)) _ (Keeps-gets P _) (λ rounds.
        Keeps-then P _ _ (await_sts-Keeps rounds channel 0) (
          Keeps-bind P _ _ (getd-Keeps P f channel) (λ ack_seq_num.
            Keeps-bind P _ _ (rank_at-Keeps P w dst_rank) (λ r.
              Keeps-elim P (u32 (r.outbound_seq + 1) == ack_seq_num) _ _
                (set_rank-Keeps w dst_rank (record r { outbound_seq = u32 (r.outbound_seq + 1) }))
                (Keeps-raise P _ Code.pack_seq_number))))))

  pub ack_packetizer-Keeps : (w : World) (dst_rank n : ℕ) → Keeps P (ack_packetizer w dst_rank n)
  unfolding ack_packetizer
  ack_packetizer-Keeps w dst_rank zero = search monad
  ack_packetizer-Keeps w dst_rank (suc n) =
      Keeps-then P _ _ (ack_message-Keeps w dst_rank) (ack_packetizer-Keeps w dst_rank n)

  restart_message-Keeps :
      (w : World) (dst_rank tag : ℕ) (what : Dmas) (n : ℕ) (s : Moving)
      → Keeps P (restart_message w dst_rank tag what n s)
  unfolding restart_message
  restart_message-Keeps w dst_rank tag what n s =
      search (monad, start_packetizer_message-Keeps, start_transaction-Keeps)

  ack_both-Keeps :
      {L : Type 0} (w : World) (dst_rank : ℕ) (what : Dmas) (n : ℕ) (l : L)
      → Keeps P (ack_both w dst_rank what n l)
  unfolding ack_both
  ack_both-Keeps w dst_rank what n l = search (monad, ack_dma-Keeps, ack_packetizer-Keeps)

  pub dma_movement_and_packetizer-Keeps :
      (w : World) (len : ℕ) (a : Addresses) (what : Dmas) (dst_rank mpi_tag : ℕ)
      → Keeps P (dma_movement_and_packetizer w len a what dst_rank mpi_tag)
  unfolding dma_movement_and_packetizer
  dma_movement_and_packetizer-Keeps w len a what dst_rank mpi_tag =
      search
        (
          monad, start_packetizer_message-Keeps, pipeline-Keeps, start_transaction-Keeps,
          restart_message-Keeps, ack_both-Keeps,
        )
        depth 12
