-- ===== src/Mux/Route.antt =====
-- Packets through `procStream` (pktMultiplexor.cpp), and the comparison of sessions.
use accl.Base.{
  ℕ, zero, suc, ◌+◌, ◌/◌, ◌%◌, ◌^◌, ◌≡◌, refl, ap, ◌∙◌, true, false, List, [], ◌∷◌, ◌++◌,
  append-nil, append_assoc, map, length, Stream, write, Flit, Routed, arith, if◌then◌else◌,
}
use accl.Mux.Lookup.{LookupResp, LookupUpd}
use accl.Mux.Process.{ProcState, wait_stream, consume, Proc, route, proc_case, proc_stream}

-- `n` calls.
unfoldable pub calls : ℕ → Proc → Proc
calls zero p = p
calls (suc n) p = calls n (proc_stream p)

-- TLAST stands on the last word of a packet and on no other.
abbrev pub IsPacket : List Flit → Type 0
IsPacket [] = ⊥
IsPacket (w ∷ []) = w.last ≡ true
IsPacket (w ∷ v ∷ ws) = (w.last ≡ false) × IsPacket (v ∷ ws)

-- The words of a packet as they are to leave: data and lanes as they came, on the output of the
-- answer, and the mark of the end on the last word alone, if the message ends with this packet.
abbrev pub leaving : LookupResp → List Flit → List Routed
leaving resp [] = []
leaving resp (w ∷ []) =
    record { bits = w.bits; keep = w.keep; last = resp.is_last_pkt; dest = resp.dest } ∷ []
leaving resp (w ∷ v ∷ ws) =
    record { bits = w.bits; keep = w.keep; last = false; dest = resp.dest } ∷ leaving resp (v ∷ ws)

-- What is told of a packet with the first word `w`: nothing if its message is known, or else its
-- output, session and length, and the sum on 32 bits of words 1 and 5 of the header.
abbrev pub told : LookupResp → Flit → List LookupUpd
told resp w =
    if resp.lookup_hit
    then []
    else record {
      dest = resp.dest;
      session = resp.session;
      pkt_len = resp.pkt_len;
      msg_size = (w.bits / 2 ^ 32 % 2 ^ 32 + w.bits / 2 ^ 160 % 2 ^ 32) % 2 ^ 32;
    }
      ∷ []

routed_lem :
    (resp : LookupResp) (ws : List Flit) → IsPacket ws → map (route resp) ws ≡ leaving resp ws
unfolding route
routed_lem resp [] h = refl
routed_lem resp (w ∷ []) h = rw h
routed_lem resp (w ∷ v ∷ ws) h = rw (h.0, routed_lem resp (v ∷ ws) h.1)

abbrev in_state : Proc → ProcState → LookupResp → Stream Flit → Stream Routed → Proc
in_state p st resp input out = record p {
  state = st;
  resp = resp;
  pkt_stream_in = input;
  pkt_mult_stream_out = out;
}

one_word :
    (p : Proc) (resp : LookupResp) (w : Flit) (ws : Stream Flit) (out : Stream Routed)
    → proc_stream (in_state p consume resp (w ∷ ws) out)
      ≡ in_state p (if w.last then wait_stream else consume) resp ws (write out (route resp w))
unfolding proc_stream proc_case
one_word p resp w ws out = ground arith

rest_routed :
    (p : Proc) (resp : LookupResp) (ws more : Stream Flit) (out : Stream Routed)
    → IsPacket ws
    → calls (length ws) (in_state p consume resp (ws ++ more) out)
      ≡ in_state p wait_stream resp more (out ++ map (route resp) ws)
unfolding calls
rest_routed p resp [] more out h = absurd h
rest_routed p resp (w ∷ []) more out h = one_word p resp w more out ∙ rw h
rest_routed p resp (w ∷ v ∷ ws) more out h =
    ap (calls (length (v ∷ ws))) (one_word p resp w (v ∷ ws ++ more) out ∙ rw h.0)
    ∙ rest_routed p resp (v ∷ ws) more (write out (route resp w)) h.1
    ∙ rw append_assoc

-- What a call makes of the first word of a packet.
abbrev begun : Proc → LookupResp → Stream LookupResp → Flit → Proc
begun p resp resps w = record p { lookup_resp = resps; lookup_upd = p.lookup_upd ++ told resp w }

first_routed :
    (p : Proc) (resp : LookupResp) (resps : Stream LookupResp) (w : Flit) (ws : Stream Flit)
    → p.state ≡ wait_stream
    → p.lookup_resp ≡ resp ∷ resps
    → p.pkt_stream_in ≡ w ∷ ws
    → proc_stream p
      ≡ in_state
          (begun p resp resps w)
          (if w.last then wait_stream else consume)
          resp
          ws
          (write p.pkt_mult_stream_out (route resp w))
unfolding proc_stream proc_case
first_routed p resp resps w ws st r i = ground (arith, append-nil p.lookup_upd)

words_routed :
    (p : Proc) (resp : LookupResp) (resps : Stream LookupResp) (w : Flit) (ws more : Stream Flit)
    → p.state ≡ wait_stream
    → p.lookup_resp ≡ resp ∷ resps
    → p.pkt_stream_in ≡ w ∷ ws ++ more
    → IsPacket (w ∷ ws)
    → let t = calls (length (w ∷ ws)) p in
      (t.state ≡ wait_stream)
      × (t.pkt_stream_in ≡ more)
      × (t.lookup_resp ≡ resps)
      × (t.pkt_mult_stream_out ≡ p.pkt_mult_stream_out ++ map (route resp) (w ∷ ws))
      × (t.lookup_upd ≡ p.lookup_upd ++ told resp w)
unfolding calls
words_routed p resp resps w [] more st r i h =
    rw (first_routed p resp resps w more st r i, h) (refl, refl, refl, refl, refl)
words_routed p resp resps w (v ∷ ws) more st r i h =
    let b = begun p resp resps w in
    let e =
      ap (calls (length (v ∷ ws))) (first_routed p resp resps w (v ∷ ws ++ more) st r i ∙ rw h.0)
      ∙ rest_routed b resp (v ∷ ws) more (write p.pkt_mult_stream_out (route resp w)) h.1 in
    rw e (
      refl,
      refl,
      refl,
      append_assoc p.pkt_mult_stream_out (route resp w ∷ []) (map (route resp) (v ∷ ws)),
      refl,
    )

-- Where the process waits for a packet, and the packet and the answer to its lookup are there, one call
-- for each word sends the words in order to the one output of the answer, with their data and lanes;
-- TLAST stands on the last word if the answer says that the message ends, and on no other. A packet of
-- a message that was not known is reported once, with the output, the session and the length of the
-- answer and, as the size of the message, the sum of bits [63:32] and [191:160] of the first word; one
-- of a known message is not reported.
pub packet_routed :
    (p : Proc) (resp : LookupResp) (resps : Stream LookupResp) (w : Flit) (ws more : Stream Flit)
    → p.state ≡ wait_stream
    → p.lookup_resp ≡ resp ∷ resps
    → p.pkt_stream_in ≡ w ∷ ws ++ more
    → IsPacket (w ∷ ws)
    → let t = calls (length (w ∷ ws)) p in
      (t.state ≡ wait_stream)
      × (t.pkt_stream_in ≡ more)
      × (t.lookup_resp ≡ resps)
      × (t.pkt_mult_stream_out ≡ p.pkt_mult_stream_out ++ leaving resp (w ∷ ws))
      × (t.lookup_upd ≡ p.lookup_upd ++ told resp w)
packet_routed p resp resps w ws more st r i h =
    rw (← routed_lem resp (w ∷ ws) h) (words_routed p resp resps w ws more st r i h)
