-- ===== src/Tcp/RxHandler/Progress.antt =====
-- A notification is answered: calls of tcp_rxHandler lead from it to its read request.
use accl.Base.{ℕ, zero, suc, ◌+◌, ◌≤◌, ◌<◌, ◌≡◌, ◌≢◌, [], ◌∷◌, write, Stream, arith}
use accl.Tcp.RxHandler.{
  wait_noti, RxHandler, inflight_read_handler, request_fsm, consume_fsm, tcp_rx_handler,
  noti_length, read_request,
}

-- `n` calls.
unfoldable pub calls : ℕ → RxHandler → RxHandler
calls zero s = s
calls (suc n) s = calls n (tcp_rx_handler s)

-- Nothing is under way in the request path, no data comes in, and `noti` waits.
pub record IsReady (s : RxHandler) (noti : ℕ) (rest : Stream ℕ) : Type 0 where
  pub state : s.request_state ≡ wait_noti
  pub waiting : s.notification ≡ noti ∷ rest
  pub no_req : s.inflight_read_cnt_req ≡ []
  pub no_rsp : s.inflight_read_cnt_rsp ≡ []
  pub no_incr : s.incr_cnt_req ≡ []
  pub no_decr : s.decr_cnt_req ≡ []
  pub no_data : s.rx_data ≡ []

-- From a state that waits for a notification, with one that announces data first in the stream, no
-- data coming in, nothing on the four internal streams that ask for, answer and change the count, and
-- fewer than four packets in flight, three calls of the handler take the notification, send its read
-- request, and count one packet more.
pub request_sent :
    (s : RxHandler) (noti : ℕ) (rest : Stream ℕ)
    → IsReady s noti rest
    → s.inflight_cnt < 4
    → noti_length noti ≢ 0
    → let t = calls 3 s in
      (t.read_pkg ≡ write s.read_pkg (read_request noti))
      × (t.notification ≡ rest)
      × (t.inflight_cnt ≡ s.inflight_cnt + 1)
unfolding calls tcp_rx_handler request_fsm inflight_read_handler consume_fsm
request_sent s noti rest v h ne = ground arith

-- From a state that waits for a notification, with one first in the stream, no data coming in, nothing
-- on the four internal streams that ask for, answer and change the count, the back-off counter at 0 and
-- four packets in flight or more, eight calls of the handler send no request, keep the notification and
-- the count, and end in the state that waits, with the counter at 0: two calls find the limit reached,
-- and six pass before the next attempt.
pub backs_off :
    (s : RxHandler) (noti : ℕ) (rest : Stream ℕ)
    → IsReady s noti rest
    → 4 ≤ s.inflight_cnt
    → s.counter ≡ 0
    → let t = calls 8 s in
      (t.read_pkg ≡ s.read_pkg)
      × (t.notification ≡ noti ∷ rest)
      × (t.request_state ≡ wait_noti)
      × (t.counter ≡ 0)
      × (t.inflight_cnt ≡ s.inflight_cnt)
unfolding calls tcp_rx_handler request_fsm inflight_read_handler consume_fsm
backs_off s noti rest v h c = ground arith
