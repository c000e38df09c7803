-- ===== src/Mux/Lookup.antt =====
-- kernel/hls/tcp_intf/pktMultiplexor.cpp, `session_dest_lookup`: which of the `num_mult_stream`
-- outputs the packets of a session go to. The four arrays of the table are lists of that length;
-- the FIFO of free outputs, the ports and the statics are one record, and a call is a step.
use accl.Base.{
  ℕ, zero, suc, ◌+◌, ◌^◌, Bool, true, false, ◌&&◌, ◌==◌, leb, get_range, u8, u16, u32, List, [],
  ◌∷◌, set, get_or, Stream, write, if◌then◌else◌,
}

-- NUM_MULT_STREAM.
abbrev pub num_mult_stream : ℕ
num_mult_stream = 8

pub record LookupResp : Type 0 where
  pub lookup_hit : Bool
  pub is_last_pkt : Bool
  pub dest : ℕ
  pub pkt_len : ℕ
  pub session : ℕ

pub record LookupUpd : Type 0 where
  pub dest : ℕ
  pub session : ℕ
  pub pkt_len : ℕ
  pub msg_size : ℕ

pub data LookupState : Type 0 where
  idle req hit_resp miss_resp update : LookupState

pub record Lookup : Type 0 where
  pub lookup_req : Stream ℕ
  pub lookup_resp : Stream LookupResp
  pub lookup_upd : Stream LookupUpd
  pub valid : List Bool
  pub table_session : List ℕ
  pub total_msg_size : List ℕ
  pub rcvd_msg_size : List ℕ
  pub free_dest : Stream ℕ
  pub state : LookupState
  pub mask : ℕ
  pub dest : ℕ
  pub counter : ℕ
  pub session : ℕ
  pub pkt_len : ℕ
  pub msg_size : ℕ

-- An entry that no message uses.
unfoldable pub clear : Lookup → ℕ → Lookup
clear s d = record s {
  valid = set s.valid d false;
  table_session = set s.table_session d 0;
  total_msg_size = set s.total_msg_size d 0;
  rcvd_msg_size = set s.rcvd_msg_size d 0;
}

-- Whether the entry `i` is in use for the session.
unfoldable pub matches : Lookup → ℕ → ℕ → Bool
matches s session i = get_or s.valid i false && (get_or s.table_session i 0 == session)

-- The bits of the comparison, from bit `i` on: `n` entries are compared.
unfoldable pub compare_mask : Lookup → ℕ → ℕ → ℕ → ℕ
compare_mask s session i zero = 0
compare_mask s session i (suc n) =
    (if matches s session i then 2 ^ i else 0) + compare_mask s session (suc i) n

-- The output that a mask with one bit stands for; any other mask leaves the last one.
unfoldable pub mask_dest : ℕ → ℕ → ℕ
mask_dest mask dest =
    if mask == 1
    then 0
    else if mask == 2
    then 1
    else if mask == 4
    then 2
    else if mask == 8
    then 3
    else if mask == 16
    then 4
    else if mask == 32
    then 5
    else if mask == 64
    then 6
    else if mask == 128
    then 7
    else dest

-- `lookupResp.write(resp)`.
unfoldable pub respond : Lookup → Bool → Bool → ℕ → Lookup
respond s hit last d = record s {
  lookup_resp = write s.lookup_resp (record {
    lookup_hit = hit;
    is_last_pkt = last;
    dest = d;
    pkt_len = u16 s.pkt_len;
    session = u16 s.session;
  });
}

-- A packet of a message in the table: the last one frees the entry.
unfoldable pub hit : Lookup → ℕ → Lookup
unfolding clear respond
hit s d =
    let rcvd = get_or s.rcvd_msg_size d 0 in
    if leb (get_or s.total_msg_size d 0) (rcvd + s.pkt_len)
    then respond (record (clear s d) { free_dest = write s.free_dest d }) true true d
    else respond (record s { rcvd_msg_size = set s.rcvd_msg_size d (u32 (rcvd + s.pkt_len)) }) true
        false d

-- What the packet's header says of its message: one of a single packet is not kept.
unfoldable pub learn : Lookup → LookupUpd → Lookup
unfolding clear
learn s upd =
    let t = record s {
      dest = upd.dest;
      pkt_len = upd.pkt_len;
      session = upd.session;
      msg_size = upd.msg_size;
    } in
    if leb upd.msg_size upd.pkt_len
    then record (clear t upd.dest) { free_dest = write t.free_dest upd.dest }
    else record t {
      valid = set t.valid upd.dest true;
      table_session = set t.table_session upd.dest upd.session;
      total_msg_size = set t.total_msg_size upd.dest upd.msg_size;
      rcvd_msg_size = set t.rcvd_msg_size upd.dest upd.pkt_len;
    }

-- The cases of the switch.
unfoldable pub lookup_case : LookupState → Lookup → Lookup
lookup_case idle s =
    let c = u8 (s.counter + 1) in
    let t = record (clear s s.counter) { free_dest = write s.free_dest s.counter } in
    if c == num_mult_stream then record t { counter = 0; state = req } else record t { counter = c }
lookup_case req s = elim s.lookup_req [
  | [] ↦ s
  | r ∷ rest ↦
      let session = get_range 31 0 r in
      let mask = compare_mask s session 0 num_mult_stream in
      record s {
        lookup_req = rest;
        session = session;
        pkt_len = get_range 63 32 r;
        mask = mask;
        state = if mask == 0 then miss_resp else hit_resp;
      }
]
lookup_case hit_resp s =
    let d = mask_dest s.mask s.dest in
    let t = hit (record s { dest = d }) d in record t { state = req }
lookup_case miss_resp s = elim s.free_dest [
  | [] ↦ s
  | d ∷ rest ↦
      let t = respond (record s { free_dest = rest; dest = d }) false false d in
      record t { state = update }
]
lookup_case update s = elim s.lookup_upd [
  | [] ↦ s
  | upd ∷ rest ↦ let t = learn (record s { lookup_upd = rest }) upd in record t { state = req }
]

-- One call.
unfoldable pub session_dest_lookup : Lookup → Lookup
session_dest_lookup s = lookup_case s.state s
