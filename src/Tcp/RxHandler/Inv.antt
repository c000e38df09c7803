-- ===== src/Tcp/RxHandler/Inv.antt =====
-- What every step of tcp_rxHandler's processes keeps.
use accl.Base.{
  ℕ, ◌+◌, ◌-◌, u32, ◌≤◌, ◌<◌, ◌≡◌, ◌⊎◌, List, [], ◌∷◌, length, length-append, write, Flit, arith,
  if◌then◌else◌,
}
use accl.Tcp.RxHandler.{
  RequestState, check_in_flight, request, RxHandler, inflight_read_handler, request_fsm,
  consume_fsm, Step, Reach, initial, request_step, inflight_step, consume_step, notify, bring_meta,
  bring_data, here, next,
}

-- The packets whose last word has gone out.
unfoldable pub finished : List Flit → ℕ
finished [] = 0
finished (w ∷ ws) = (if w.last then 1 else 0) + finished ws

pub finished-write :
    (ws : List Flit) (w : Flit) → finished (write ws w) ≡ finished ws + (if w.last then 1 else 0)
unfolding finished
finished-write [] w = omega arith
finished-write (v ∷ ws) w = omega (arith, finished-write ws w)

-- Every answer in the stream is at least `n`.
abbrev pub AllAtLeast : ℕ → List ℕ → Type 0
AllAtLeast n [] = Unit
AllAtLeast n (r ∷ rs) = (n ≤ r) × AllAtLeast n rs

AllAtLeast_mono : (m n : ℕ) (rs : List ℕ) → m ≤ n → AllAtLeast n rs → AllAtLeast m rs
AllAtLeast_mono m n [] h a = tt
AllAtLeast_mono m n (r ∷ rs) h a = (omega arith, AllAtLeast_mono m n rs h a.1)

AllAtLeast-write : (n : ℕ) (rs : List ℕ) → AllAtLeast n rs → AllAtLeast n (write rs n)
AllAtLeast-write n [] a = (omega arith, tt)
AllAtLeast-write n (r ∷ rs) a = (a.0, AllAtLeast-write n rs a.1)

AllAtLeast_of_empty : (n : ℕ) (rs : List ℕ) → length rs ≡ 0 → AllAtLeast n rs
AllAtLeast_of_empty n [] h = tt
AllAtLeast_of_empty n (r ∷ rs) h = absurd (omega arith)

abbrev pub awaiting : RequestState → ℕ
awaiting check_in_flight = 1
awaiting _ = 0

pub record Inv (s : RxHandler) : Type 0 where
  pub balance :
      length s.read_pkg + length s.decr_cnt_req
      ≡ s.inflight_cnt + length s.incr_cnt_req + finished s.data_out
  pub capped : s.inflight_cnt + length s.incr_cnt_req ≤ 4
  pub tokens :
      length s.inflight_read_cnt_req + length s.inflight_read_cnt_rsp ≡ awaiting s.request_state
  pub one_incr : length s.incr_cnt_req ≤ 1
  pub answered : 0 < length s.inflight_read_cnt_rsp → length s.incr_cnt_req ≡ 0
  pub answers : AllAtLeast s.inflight_cnt s.inflight_read_cnt_rsp
  pub granted : s.request_state ≡ request → (length s.incr_cnt_req ≡ 0) × (s.inflight_cnt ≤ 3)
  pub announced :
      (s.request_state ≡ request) ⊎ (s.request_state ≡ check_in_flight) → 0 < length s.notification
  pub waited : s.counter ≤ 5

initial-Inv : Inv initial
unfolding finished
initial-Inv = ground arith

request_fsm-Inv : (s : RxHandler) → Inv s → Inv (request_fsm s)
unfolding request_fsm
request_fsm-Inv s v = grind (arith, length-append)

inflight_read_handler-Inv : (s : RxHandler) → Inv s → Inv (inflight_read_handler s)
unfolding inflight_read_handler
inflight_read_handler-Inv s v = ground (
  arith,
  length-append s.inflight_read_cnt_rsp (s.inflight_cnt ∷ []),
  AllAtLeast_mono (s.inflight_cnt - 1) s.inflight_cnt s.inflight_read_cnt_rsp,
  AllAtLeast-write s.inflight_cnt s.inflight_read_cnt_rsp,
  AllAtLeast_of_empty (u32 (s.inflight_cnt + 1)) s.inflight_read_cnt_rsp,
)

consume_fsm-Inv : (s : RxHandler) → Inv s → Inv (consume_fsm s)
unfolding consume_fsm
consume_fsm-Inv s v = grind (arith, length-append, finished-write)

notify-Inv :
    (s : RxHandler) (noti : ℕ) → Inv s → Inv (record s { notification = write s.notification noti })
notify-Inv s noti v = grind (arith, length-append)

pub Step-Inv : {s t : RxHandler} → Step s t → Inv s → Inv t
Step-Inv (request_step s) v = request_fsm-Inv s v
Step-Inv (inflight_step s) v = inflight_read_handler-Inv s v
Step-Inv (consume_step s) v = consume_fsm-Inv s v
Step-Inv (notify s noti) v = notify-Inv s noti v
Step-Inv (bring_meta s meta) v = ground arith
Step-Inv (bring_data s word) v = ground arith

pub Reach-Inv : {s t : RxHandler} → Reach s t → Inv s → Inv t
Reach-Inv here v = v
Reach-Inv (next r st) v = Step-Inv st (Reach-Inv r v)

-- Whatever the order in which the processes and the network take turns, at
-- most four packets are asked for beyond those that have gone out whole.
pub outstanding_bounded :
    {s : RxHandler} → Reach initial s → length s.read_pkg ≤ finished s.data_out + 4
outstanding_bounded r = let v = Reach-Inv r initial-Inv in omega arith

-- In every state that a run from the start reaches, the three internal streams of the request path hold one item at most, so the
-- declared depth of two is enough.
pub streams_fit :
    {s : RxHandler}
    → Reach initial s
    → (length s.inflight_read_cnt_req ≤ 1)
      × (length s.inflight_read_cnt_rsp ≤ 1)
      × (length s.incr_cnt_req ≤ 1)
streams_fit {s} r = let v = Reach-Inv r initial-Inv in ground arith
