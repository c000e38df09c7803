-- ===== src/Tcp/RxHandler.antt =====
-- kernel/hls/tcp_intf/tcp_rxHandler.cpp: asks the TCP stack for the data that it announces, at most
-- four packets ahead, and passes the data on. The three processes (`requestFSM`,
-- `inflightReadHandler`, `consumeFSM`) share four internal streams; `tcp_rxHandler` runs each once.
-- The streams, the processes' static variables and the ports are one record; a process whose read
-- waits leaves it as it is.
pub mod Inv
pub mod Order
pub mod Progress
pub mod Unlimited
use accl.Base.{
  ℕ, ◌+◌, ◌-◌, ◌*◌, Bool, true, false, ◌&&◌, not, ltb, ◌==◌, if◌then◌else◌, get_range, set_range,
  u8, u32, [], ◌∷◌, Stream, write, empty, Flit,
}

pub data RequestState : Type 0 where
  wait_noti check_in_flight back_off request : RequestState

pub data ConsumeState : Type 0 where
  wait_pkg consume : ConsumeState

-- Data words of the streams that carry no byte lanes or TLAST that is read are numbers.
pub record RxHandler : Type 0 where
  pub notification : Stream ℕ
  pub read_pkg : Stream ℕ
  pub rx_meta : Stream ℕ
  pub rx_data : Stream Flit
  pub data_out : Stream Flit
  pub inflight_read_cnt_req : Stream Bool
  pub inflight_read_cnt_rsp : Stream ℕ
  pub incr_cnt_req : Stream Bool
  pub decr_cnt_req : Stream Bool
  pub request_state : RequestState
  pub counter : ℕ
  pub inflight_cnt : ℕ
  pub consume_state : ConsumeState

-- `if (!incrCntReq.empty()) … else if (!inflightReadCntReq.empty()) …`
unfoldable pub incr_or_answer : RxHandler → RxHandler
incr_or_answer s = elim s.incr_cnt_req [
  | _ ∷ rest ↦ record s { incr_cnt_req = rest; inflight_cnt = u32 (s.inflight_cnt + 1) }
  | [] ↦ elim s.inflight_read_cnt_req [
    | _ ∷ rest ↦ record s {
      inflight_read_cnt_req = rest;
      inflight_read_cnt_rsp = write s.inflight_read_cnt_rsp s.inflight_cnt;
    }
    | [] ↦ s
  ]
]

-- `inflightReadHandler`
unfoldable pub inflight_read_handler : RxHandler → RxHandler
unfolding incr_or_answer
inflight_read_handler s = elim s.decr_cnt_req [
  | _ ∷ rest ↦
      if ltb 0 s.inflight_cnt
      then record s { decr_cnt_req = rest; inflight_cnt = s.inflight_cnt - 1 }
      else incr_or_answer s
  | [] ↦ incr_or_answer s
]

unfoldable pub noti_session : ℕ → ℕ
noti_session noti = get_range 15 0 noti

unfoldable pub noti_length : ℕ → ℕ
noti_length noti = get_range 31 16 noti

-- The read request for a notification: its session and its length.
unfoldable pub read_request : ℕ → ℕ
unfolding noti_session noti_length
read_request noti = set_range 31 16 (set_range 15 0 0 (noti_session noti)) (noti_length noti)

-- The state REQUEST, once the notification is read.
unfoldable pub issue : RxHandler → ℕ → Stream ℕ → RxHandler
issue s noti rest =
    let t = record s { notification = rest; request_state = wait_noti } in
    if noti_length noti == 0 then t else record t {
      read_pkg = write s.read_pkg (read_request noti);
      incr_cnt_req = write s.incr_cnt_req true;
    }

-- The cases of the switch.
unfoldable pub request_case : RequestState → RxHandler → RxHandler
request_case wait_noti s = if empty s.notification then s else record s {
  inflight_read_cnt_req = write s.inflight_read_cnt_req true;
  request_state = check_in_flight;
}
request_case check_in_flight s = elim s.inflight_read_cnt_rsp [
  | [] ↦ s
  | inflight_cnt ∷ rest ↦ record s {
    inflight_read_cnt_rsp = rest;
    request_state = if ltb inflight_cnt 4 then request else back_off;
  }
]
request_case back_off s =
    if s.counter == 5
    then record s { counter = 0; request_state = wait_noti }
    else record s { counter = u8 (s.counter + 1) }
request_case request s = elim s.notification [ [] ↦ s | noti ∷ rest ↦ issue s noti rest ]

-- `requestFSM`
unfoldable pub request_fsm : RxHandler → RxHandler
unfolding request_case issue
request_fsm s = request_case s.request_state s

-- A word goes out as it came; after the last of a packet the count is to go down.
unfoldable pub forward : RxHandler → Flit → Stream Flit → RxHandler
forward s word rest =
    let t = record s { rx_data = rest; data_out = write s.data_out word } in
    if word.last
    then record t { consume_state = wait_pkg; decr_cnt_req = write s.decr_cnt_req true }
    else record t { consume_state = consume }

unfoldable pub consume_case : ConsumeState → RxHandler → RxHandler
unfolding forward
consume_case wait_pkg s = elim s.rx_meta [
  | [] ↦ s
  | _ ∷ metas ↦ elim s.rx_data [
    | [] ↦ s
    | word ∷ rest ↦ forward (record s { rx_meta = metas }) word rest
  ]
]
consume_case consume s = elim s.rx_data [ [] ↦ s | word ∷ rest ↦ forward s word rest ]

-- `consumeFSM`
unfoldable pub consume_fsm : RxHandler → RxHandler
unfolding consume_case
consume_fsm s = consume_case s.consume_state s

-- `tcp_rxHandler`: one call of each process.
unfoldable pub tcp_rx_handler : RxHandler → RxHandler
tcp_rx_handler s = consume_fsm (inflight_read_handler (request_fsm s))

-- The processes run side by side: any of them may take the next step, and the network may announce
-- data or bring some.
pub data Step : RxHandler → RxHandler → Type 0 where
  request_step : (s : RxHandler) → Step s (request_fsm s)
  inflight_step : (s : RxHandler) → Step s (inflight_read_handler s)
  consume_step : (s : RxHandler) → Step s (consume_fsm s)
  notify :
      (s : RxHandler) (noti : ℕ) → Step s (record s { notification = write s.notification noti })
  bring_meta : (s : RxHandler) (meta : ℕ) → Step s (record s { rx_meta = write s.rx_meta meta })
  bring_data : (s : RxHandler) (word : Flit) → Step s (record s { rx_data = write s.rx_data word })

pub data Reach (s : RxHandler) : RxHandler → Type 0 where
  here : Reach s s
  next : {t u : RxHandler} → Reach s t → Step t u → Reach s u

-- The statics as the program starts, all streams empty.
abbrev pub initial : RxHandler
initial = record {
  notification = [];
  read_pkg = [];
  rx_meta = [];
  rx_data = [];
  data_out = [];
  inflight_read_cnt_req = [];
  inflight_read_cnt_rsp = [];
  incr_cnt_req = [];
  decr_cnt_req = [];
  request_state = wait_noti;
  counter = 0;
  inflight_cnt = 0;
  consume_state = wait_pkg;
}
