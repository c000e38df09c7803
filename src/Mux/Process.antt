-- ===== src/Mux/Process.antt =====
-- kernel/hls/tcp_intf/pktMultiplexor.cpp, `procStream` and `pktMultiplexor`: a packet's words go to
-- the output that the lookup answers, with TLAST at the end of the message alone.
use accl.Base.{◌+◌, ◌&&◌, get_range, u32, [], ◌∷◌, Stream, write, Flit, Routed, if◌then◌else◌}
use accl.Mux.Lookup.{LookupResp, LookupUpd, Lookup, session_dest_lookup}

pub data ProcState : Type 0 where
  wait_stream consume : ProcState

pub record Proc : Type 0 where
  pub pkt_stream_in : Stream Flit
  pub pkt_mult_stream_out : Stream Routed
  pub lookup_resp : Stream LookupResp
  pub lookup_upd : Stream LookupUpd
  pub state : ProcState
  pub resp : LookupResp

-- A word with the output of its packet.
unfoldable pub route : LookupResp → Flit → Routed
route resp w = record {
  bits = w.bits;
  keep = w.keep;
  last = w.last && resp.is_last_pkt;
  dest = resp.dest;
}

-- The header that stands in the first word of a message: its size counts the 64 bytes of the
-- header and the payload. The sum of two `ap_uint<32>` is stored in 32 bits.
unfoldable pub learnt : LookupResp → Flit → LookupUpd
learnt resp w = record {
  dest = resp.dest;
  session = resp.session;
  pkt_len = resp.pkt_len;
  msg_size = u32 (get_range 63 32 w.bits + get_range 191 160 w.bits);
}

-- The first word of a packet.
unfoldable pub first_word : Proc → LookupResp → Flit → Proc
unfolding route learnt
first_word p resp w = record p {
  resp = resp;
  lookup_upd = if resp.lookup_hit then p.lookup_upd else write p.lookup_upd (learnt resp w);
  pkt_mult_stream_out = write p.pkt_mult_stream_out (route resp w);
  state = if w.last then wait_stream else consume;
}

-- A later word.
unfoldable pub next_word : Proc → Flit → Proc
unfolding route
next_word p w = record p {
  pkt_mult_stream_out = write p.pkt_mult_stream_out (route p.resp w);
  state = if w.last then wait_stream else consume;
}

unfoldable pub proc_case : ProcState → Proc → Proc
unfolding first_word next_word
proc_case wait_stream p = elim p.lookup_resp [
  | [] ↦ p
  | resp ∷ resps ↦ elim p.pkt_stream_in [
    | [] ↦ p
    | w ∷ ws ↦ first_word (record p { lookup_resp = resps; pkt_stream_in = ws }) resp w
  ]
]
proc_case consume p = elim p.pkt_stream_in [
  | [] ↦ p
  | w ∷ ws ↦ next_word (record p { pkt_stream_in = ws }) w
]

-- One call.
unfoldable pub proc_stream : Proc → Proc
proc_stream p = proc_case p.state p

-- The two processes; the two streams between them stand in both records.
pub record Multiplexor : Type 0 where
  pub lookup : Lookup
  pub proc : Proc

-- One call of each, in the order of the source: what the one writes, the other may read.
unfoldable pub pkt_multiplexor : Multiplexor → Multiplexor
pkt_multiplexor m =
    let l = session_dest_lookup m.lookup in
    let p =
      proc_stream (record m.proc { lookup_resp = l.lookup_resp; lookup_upd = l.lookup_upd }) in
    record {
      lookup = record l { lookup_resp = p.lookup_resp; lookup_upd = p.lookup_upd };
      proc = p;
    }
