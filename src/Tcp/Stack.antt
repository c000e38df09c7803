-- ===== src/Tcp/Stack.antt =====
-- demo/build/hls/dummy_tcp_stack/dummy_tcp_stack.cpp: the stand-in for the TCP stack, four
-- processes with their own statics and ports. `fresh` arguments are what the bits of a packet that
-- no assignment names held before.
pub mod Rx
pub mod Tx
use accl.Base.{
  ℕ, ◌+◌, Bool, get_range, set_range, u16, u32, slt32, ltb, leb, [], ◌∷◌, length, Stream, write,
  Flit, if◌then◌else◌, Option, none, some,
}

pub data TxState : Type 0 where
  wait_meta write_status tx_data : TxState

-- The ports and statics of `tx_handler`.
pub record TxHandler : Type 0 where
  pub tx_meta : Stream ℕ
  pub tx_words : Stream Flit
  pub tx_status : Stream ℕ
  pub out : Stream Flit
  pub state : TxState
  pub session : ℕ
  pub length : ℕ
  pub recv_byte : ℕ

-- The status of an accepted request: its session and length, 8000 bytes of room, and no error. It
-- names each of the 64 bits.
unfoldable pub accepted : ℕ → ℕ → ℕ
accepted session length =
    set_range 63 62 (set_range 61 32 (set_range 31 16 (set_range 15 0 0 session) length) 8000) 0

unfoldable pub tx_case : Bool → TxState → TxHandler → TxHandler
unfolding accepted
tx_case full wait_meta s = elim s.tx_meta [
  | [] ↦ s
  | pkt ∷ rest ↦ record s {
    tx_meta = rest;
    session = get_range 15 0 pkt;
    length = get_range 31 16 pkt;
    state = write_status;
  }
]
tx_case full write_status s =
    if full
    then s
    else record s { tx_status = write s.tx_status (accepted s.session s.length); state = tx_data }
tx_case full tx_data s = elim s.tx_words [
  | [] ↦ s
  | word ∷ rest ↦
      let recv = u16 (s.recv_byte + 64) in
      let t = record s { tx_words = rest; out = write s.out word } in
      if leb s.length recv
      then record t { recv_byte = 0; state = wait_meta }
      else record t { recv_byte = recv }
]

-- One call of `tx_handler`; `full` is what `m_axis_tcp_tx_status.full()` says.
unfoldable pub tx_handler : Bool → TxHandler → TxHandler
tx_handler full s = tx_case full s.state s

pub data RxState : Type 0 where
  buffer_header buffer_data send_noti wait_req send_msg : RxState

-- The ports and statics of `rx_handler`; the three counters are `int` patterns.
pub record RxHandler : Type 0 where
  pub notification : Stream ℕ
  pub read_pkg : Stream ℕ
  pub rx_meta : Stream ℕ
  pub rx_words : Stream Flit
  pub input : Stream Flit
  pub rx_data_buffer : Stream Flit
  pub state : RxState
  pub payload_length : ℕ
  pub msg_length : ℕ
  pub count : ℕ

-- The notification of a message; every field but its length is 0, up to bit 80.
unfoldable pub announcement : ℕ → ℕ → ℕ
announcement fresh msg_length =
    set_range 80 80
      (set_range 79 64 (set_range 63 32 (set_range 31 16 (set_range 15 0 fresh 0) msg_length) 0) 0)
      0

-- What `rx_data_buffer` holds at most.
abbrev pub depth : ℕ
depth = 512

-- `rx_data_buffer.write(word)`, where only the process itself reads the buffer: with the buffer
-- full, the write waits for ever (`none`).
unfoldable pub buffer_word : Flit → RxHandler → Option RxHandler
buffer_word word s =
    if ltb (length s.rx_data_buffer) depth
    then some (record s { rx_data_buffer = write s.rx_data_buffer word })
    else none

-- `none` is a call that does not return.
unfoldable pub rx_case : ℕ → Bool → RxState → RxHandler → Option RxHandler
unfolding announcement buffer_word
rx_case fresh full buffer_header s = elim s.input [
  | [] ↦ some s
  | word ∷ rest ↦
      let t = record s {
        input = rest;
        payload_length = get_range 31 0 word.bits;
        msg_length = u32 (get_range 31 0 word.bits + 64);
      } in
      elim (buffer_word word t) [ none ↦ none | some b ↦ some (record b { state = buffer_data }) ]
]
rx_case fresh full buffer_data s = elim s.input [
  | [] ↦ some s
  | word ∷ rest ↦ elim (buffer_word word (record s { input = rest })) [
    | none ↦ none
    | some b ↦
        let count = u32 (b.count + 64) in
        if slt32 count b.payload_length
        then some (record b { count = count })
        else some (record b { count = 0; state = send_noti })
  ]
]
rx_case fresh full send_noti s =
    if full
    then some s
    else some (record s {
      notification = write s.notification (announcement fresh s.msg_length);
      state = wait_req;
    })
rx_case fresh full wait_req s = elim s.read_pkg [
  | [] ↦ some s
  | pkt ∷ rest ↦ some (record s { read_pkg = rest; rx_meta = write s.rx_meta 0; state = send_msg })
]
rx_case fresh full send_msg s = elim s.rx_data_buffer [
  | [] ↦ some s
  | word ∷ rest ↦
      let count = u32 (s.count + 64) in
      let t = record s { rx_data_buffer = rest; rx_words = write s.rx_words word } in
      if slt32 count s.msg_length
      then some (record t { count = count })
      else some (record t { count = 0; msg_length = 0; payload_length = 0; state = buffer_header })
]

-- One call of `rx_handler`; `full` is what `m_axis_tcp_notification.full()` says.
unfoldable pub rx_handler : ℕ → Bool → RxHandler → Option RxHandler
rx_handler fresh full s = rx_case fresh full s.state s

-- The ports and the counter of `open_con_handler`.
pub record OpenCon : Type 0 where
  pub open_connection : Stream ℕ
  pub open_status : Stream ℕ
  pub session_cnt : ℕ

-- Bits [15:0] are the session, [23:16] success, [55:24] the address and [71:56] the port.
unfoldable pub connected : ℕ → ℕ → ℕ → ℕ → ℕ
connected fresh session ip port =
    set_range 71 56 (set_range 55 24 (set_range 23 16 (set_range 15 0 fresh session) 1) ip) port

-- One call of `open_con_handler`.
unfoldable pub open_con_handler : ℕ → OpenCon → OpenCon
unfolding connected
open_con_handler fresh s = elim s.open_connection [
  | [] ↦ s
  | pkt ∷ rest ↦ record {
    open_connection = rest;
    open_status =
        write s.open_status
          (connected fresh s.session_cnt (get_range 31 0 pkt) (get_range 47 32 pkt));
    session_cnt = u32 (s.session_cnt + 1);
  }
]

-- The ports of `listen_port_handler`.
pub record ListenPort : Type 0 where
  pub listen_port : Stream ℕ
  pub port_status : Stream ℕ

-- One call of `listen_port_handler`: every port is opened.
unfoldable pub listen_port_handler : ListenPort → ListenPort
listen_port_handler s = elim s.listen_port [
  | [] ↦ s
  | pkt ∷ rest ↦ record { listen_port = rest; port_status = write s.port_status 1 }
]

-- The processes of `network_krnl`, and one call of it. Its handlers share no stream; a call in
-- which one does not return does not return.
pub record Network : Type 0 where
  pub open_con : OpenCon
  pub listen : ListenPort
  pub rx : RxHandler
  pub tx : TxHandler

unfoldable pub network_krnl : ℕ → ℕ → Bool → Bool → Network → Option Network
network_krnl fresh_status fresh_noti rx_full tx_full n = elim (rx_handler fresh_noti rx_full n.rx) [
  | none ↦ none
  | some rx ↦ some (record {
    open_con = open_con_handler fresh_status n.open_con;
    listen = listen_port_handler n.listen;
    rx = rx;
    tx = tx_handler tx_full n.tx;
  })
]
