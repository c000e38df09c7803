-- ===== src/Tests/Rx.antt =====
-- The theorems on tcp_rxHandler.cpp, at a notification, its packet of one word, and short runs.
use accl.Base.{
  ℕ, ◌+◌, ◌-◌, ◌*◌, ◌^◌, ◌≤◌, ◌≡◌, ◌≢◌, refl, true, [], ◌∷◌, ◌++◌, Flit, arith, length, write,
}
use accl.Tcp.RxHandler.{
  RxHandler, wait_noti, wait_pkg, Reach, initial, request_fsm, inflight_read_handler, consume_fsm,
  request_step, inflight_step, consume_step, notify, bring_meta, bring_data, here, next,
  noti_length, read_request,
}
use accl.Tcp.RxHandler.Inv.{finished, outstanding_bounded}
use accl.Tcp.RxHandler.Order.{brought, announced, wanted, data_in_order, requests_in_order}
use accl.Tcp.RxHandler.Progress.{calls, request_sent, backs_off}
use accl.Tcp.RxHandler.Unlimited.{Handler}

-- Session 7 announces 64 bytes.
abbrev noti : ℕ
noti = 7 + 64 * 2 ^ 16

abbrev word : Flit
word = record { bits = 1000; keep = 2 ^ 64 - 1; last = true }

abbrev notified : RxHandler
notified = record initial { notification = write [] noti }

abbrev asked : RxHandler
asked = request_fsm (inflight_read_handler (request_fsm notified))

abbrev requested : RxHandler
requested = request_fsm asked

abbrev filled : RxHandler
filled = record requested { rx_meta = write requested.rx_meta 0 }

abbrev served : RxHandler
served = record filled { rx_data = write filled.rx_data word }

abbrev ended : RxHandler
ended = consume_fsm served

-- The notification is read and asked for, and its word goes out.
abbrev run : Reach initial ended
run =
    next
      (next
        (next
          (next
            (next
              (next (next (next here (notify initial noti)) (request_step notified))
                (inflight_step (request_fsm notified)))
              (request_step (inflight_read_handler (request_fsm notified))))
            (request_step asked))
          (bring_meta requested 0))
        (bring_data filled word))
      (consume_step served)

outstanding_bounded_example : length ended.read_pkg ≤ finished ended.data_out + 4
outstanding_bounded_example = outstanding_bounded run

data_in_order_example : ended.data_out ++ ended.rx_data ≡ brought run
data_in_order_example = data_in_order run

requests_in_order_example : ended.read_pkg ++ wanted ended.notification ≡ wanted (announced run)
requests_in_order_example = requests_in_order run

noti_some : noti_length noti ≢ 0
unfolding noti_length
noti_some = omega arith

request_sent_example :
    let t = calls 3 notified in
    (t.read_pkg ≡ write [] (read_request noti)) × (t.notification ≡ []) × (t.inflight_cnt ≡ 0 + 1)
request_sent_example = request_sent notified noti [] (ground arith) (omega arith) noti_some

-- Four packets are in flight.
abbrev full : RxHandler
full = record notified { inflight_cnt = 4 }

backs_off_example :
    let t = calls 8 full in
    (t.read_pkg ≡ [])
    × (t.notification ≡ noti ∷ [])
    × (t.request_state ≡ wait_noti)
    × (t.counter ≡ 0)
    × (t.inflight_cnt ≡ 4)
backs_off_example = backs_off full noti [] (ground arith) (omega arith) refl

abbrev unlimited : Handler
unlimited = record {
  notification = noti ∷ 9 ∷ [];
  read_pkg = [];
  rx_meta = 0 ∷ [];
  rx_data = word ∷ [];
  data_out = [];
  state = wait_pkg;
}
