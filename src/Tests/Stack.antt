-- ===== src/Tests/Stack.antt =====
-- The theorems on the stand-in stack, dummy_tcp_stack.cpp, and on refused requests.
use accl.Base.{
  ℕ, ◌+◌, ◌-◌, ◌*◌, ◌^◌, ◌≡◌, inl, inr, refl, false, [], ◌∷◌, ◌++◌, write, Flit, arith, replicate,
  some,
}
use accl.Tcp.Stack.{TxHandler, RxHandler, wait_meta, tx_data, buffer_header, accepted}
use accl.Tcp.Stack.Tx.{transmits, room, request_served, never_returns}
use accl.Tcp.Stack.Rx.{receives, Arrived, Announces, message_handed_over}
use accl.Tcp.TxHandler.{check_req, tx_request}
use accl.Tcp.TxHandler
use accl.Tcp.TxHandler.Packet.{calls}
use accl.Tcp.TxHandler.Retry.{refused, retries}

abbrev word : ℕ → Flit
word b = record { bits = b; keep = 2 ^ 64 - 1; last = false }

-- The stand-in stack with a request for 100 bytes from session 7.
abbrev stack : TxHandler
stack = record {
  tx_meta = (7 + 100 * 2 ^ 16) ∷ 5 ∷ [];
  tx_words = word 1 ∷ word 2 ∷ word 3 ∷ [];
  tx_status = [];
  out = [];
  state = wait_meta;
  session = 0;
  length = 0;
  recv_byte = 0;
}

request_served_example :
    let t = transmits (room 4) stack in
    (t.state ≡ wait_meta)
    × (t.tx_meta ≡ 5 ∷ [])
    × (t.tx_status ≡ write [] (accepted 7 100))
    × (t.out ≡ [] ++ (word 1 ∷ word 2 ∷ []))
    × (t.tx_words ≡ word 3 ∷ [])
    × (t.recv_byte ≡ 0)
request_served_example =
    request_served stack (7 + 100 * 2 ^ 16) (5 ∷ []) (word 1) (word 2 ∷ []) (word 3 ∷ []) refl refl
      refl refl (omega arith) (omega arith) (omega arith)

never_returns_example :
    (transmits (room 3) (record stack { state = tx_data; length = 65473 })).state ≡ tx_data
never_returns_example =
    never_returns (room 3) (record stack { state = tx_data; length = 65473 }) refl (omega arith)
      refl

-- The receive side with a message of 100 bytes, and the header of another.
abbrev receiver : RxHandler
receiver = record {
  notification = [];
  read_pkg = 9 ∷ [];
  rx_meta = [];
  rx_words = [];
  input = word 100 ∷ word 1 ∷ word 2 ∷ word 50 ∷ [];
  rx_data_buffer = [];
  state = buffer_header;
  payload_length = 0;
  msg_length = 0;
  count = 0;
}

receiver-Arrived : Arrived receiver (word 100) (word 1 ∷ word 2 ∷ []) (word 50 ∷ []) 100 9 []
receiver-Arrived = record {
  waits = refl;
  words = refl;
  none_counted = refl;
  none_buffered = refl;
  asked = refl;
  length_named = omega arith;
  some_bytes = omega arith;
  all_words = omega arith;
  fits = omega arith;
}

message_handed_over_example :
    (noti : ℕ) × Announces 164 noti
    × (receives 3 8 receiver
        ≡ some (record receiver {
          input = word 50 ∷ [];
          notification = [] ++ (noti ∷ []);
          read_pkg = [];
          rx_meta = [] ++ (0 ∷ []);
          rx_words = [] ++ (word 100 ∷ word 1 ∷ word 2 ∷ []);
        }))
message_handed_over_example =
    message_handed_over receiver 3 100 9 (word 100) (word 1) (word 2 ∷ []) (word 50 ∷ []) []
      receiver-Arrived

-- The transmit handler with two refusals and an acceptance to read.
abbrev waiting : TxHandler.TxHandler
waiting = record {
  data_in = word 1 ∷ [];
  cmd = [];
  tx_meta = [];
  tx_data = [];
  tx_status = (refused 7 128 2 ∷ refused 7 128 3 ∷ []) ++ (accepted 7 128 ∷ []);
  state = check_req;
  session_id = 7;
  expected = 200;
  max_pkg_word = 2;
  length = 0;
  remaining_space = 0;
  error = 0;
  current_pkg_word = 0;
  word_cnt = 0;
  sent_byte_cnt = 0;
}

retries_example :
    let t = calls 2 waiting in
    (t.state ≡ check_req)
    × (t.tx_status ≡ accepted 7 128 ∷ [])
    × (t.tx_meta ≡ [] ++ replicate 2 (tx_request 7 128))
    × (t.tx_data ≡ [])
    × (t.data_in ≡ word 1 ∷ [])
    × (t.sent_byte_cnt ≡ 0)
retries_example =
    retries waiting 7 128 (2 ∷ 3 ∷ []) (accepted 7 128 ∷ []) (omega arith) (omega arith)
      (inl refl, (inr refl, tt)) refl refl
