-- ===== src/Tcp/TxHandler.antt =====
-- kernel/hls/tcp_intf/tcp_txHandler.cpp: sends the words of a message to the TCP stack in packets,
-- each after the stack has accepted it. The ports and statics are one record, and a call is a step;
-- a call that waits at a read leaves the handler as it is. Products and sums that the source does
-- not store are `ap_uint` expressions, which do not wrap.
pub mod Lengths
pub mod Packet
pub mod Packets
pub mod Retry
pub mod Status
pub mod Whole
pub mod Message
use accl.Base.{
  ℕ, ◌+◌, ◌-◌, ◌*◌, ◌/◌, ◌%◌, ◌^◌, Bool, ◌==◌, ltb, leb, get_range, set_range, u16, u32, List, [],
  ◌∷◌, Stream, write, Flit, if◌then◌else◌,
}

pub data TxState : Type 0 where
  wait_cmd wait_first_data check_req write_pkg : TxState

pub record TxHandler : Type 0 where
  pub data_in : Stream Flit
  pub cmd : Stream ℕ
  pub tx_meta : Stream ℕ
  pub tx_data : Stream Flit
  pub tx_status : Stream ℕ
  pub state : TxState
  pub session_id : ℕ
  pub expected : ℕ
  pub max_pkg_word : ℕ
  pub length : ℕ
  pub remaining_space : ℕ
  pub error : ℕ
  pub current_pkg_word : ℕ
  pub word_cnt : ℕ
  pub sent_byte_cnt : ℕ

-- A request to send `length` bytes: the two range assignments name all 32 bits.
unfoldable pub tx_request : ℕ → ℕ → ℕ
tx_request session length = set_range 31 16 (set_range 15 0 0 session) length

-- The length of the first request.
unfoldable pub first_length : ℕ → ℕ → ℕ
first_length max_pkg_word expected =
    if ltb expected (max_pkg_word * 64) then expected else max_pkg_word * 64

-- The length of a later one.
unfoldable pub next_length : ℕ → ℕ → ℕ → ℕ
next_length max_pkg_word expected sent =
    if ltb (sent + max_pkg_word * 64) expected then max_pkg_word * 64 else expected - sent

-- The status is read: an accepted packet is counted, and the next one asked for if bytes are left.
unfoldable pub accept : TxHandler → TxHandler
unfolding tx_request next_length
accept s =
    let sent = u32 (s.sent_byte_cnt + s.length) in
    let t = record s { sent_byte_cnt = sent; state = write_pkg } in
    if ltb sent s.expected
    then record t {
      tx_meta =
          write s.tx_meta (tx_request s.session_id (next_length s.max_pkg_word s.expected sent));
    }
    else t

-- An error: the same request again, unless the connection was torn down (error 1).
unfoldable pub refuse : TxHandler → TxHandler
unfolding tx_request
refuse s =
    if s.error == 1
    then s
    else record s { tx_meta = write s.tx_meta (tx_request s.session_id s.length) }

-- The fields of a status word.
unfoldable pub read_status : TxHandler → ℕ → Stream ℕ → TxHandler
read_status s pkt rest = record s {
  tx_status = rest;
  session_id = get_range 15 0 pkt;
  length = get_range 31 16 pkt;
  remaining_space = u16 (get_range 61 32 pkt);
  error = get_range 63 62 pkt;
  current_pkg_word = (get_range 31 16 pkt + 64 - 1) / 2 ^ 6;
}

-- A word goes out; TLAST on the last of its packet.
unfoldable pub send_word : TxHandler → Flit → Stream Flit → TxHandler
send_word s word rest =
    let cnt = u32 (s.word_cnt + 1) in
    let t = record s {
      data_in = rest;
      tx_data =
          write s.tx_data
            (record { bits = word.bits; keep = word.keep; last = cnt == s.current_pkg_word });
    } in
    if cnt == s.current_pkg_word
    then if leb s.expected s.sent_byte_cnt
      then record t { word_cnt = 0; sent_byte_cnt = 0; current_pkg_word = 0; state = wait_cmd }
      else record t { word_cnt = 0; state = check_req }
    else record t { word_cnt = cnt }

-- The cases of the switch.
unfoldable pub tx_case : TxState → TxHandler → TxHandler
unfolding accept refuse read_status send_word first_length
tx_case wait_cmd s = elim s.cmd [
  | [] ↦ s
  | cmd ∷ rest ↦ record s {
    cmd = rest;
    session_id = get_range 31 0 cmd;
    expected = get_range 63 32 cmd;
    max_pkg_word = get_range 95 64 cmd;
    state = wait_first_data;
  }
]
tx_case wait_first_data s = elim s.data_in [
  | [] ↦ s
  | _ ∷ _ ↦ record s {
    tx_meta = write s.tx_meta (tx_request s.session_id (first_length s.max_pkg_word s.expected));
    state = check_req;
  }
]
tx_case check_req s = elim s.tx_status [
  | [] ↦ s
  | pkt ∷ rest ↦ let t = read_status s pkt rest in if t.error == 0 then accept t else refuse t
]
tx_case write_pkg s = elim s.data_in [ [] ↦ s | word ∷ rest ↦ send_word s word rest ]

-- One call.
unfoldable pub tcp_tx_handler : TxHandler → TxHandler
tcp_tx_handler s = tx_case s.state s
