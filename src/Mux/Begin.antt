-- ===== src/Mux/Begin.antt =====
-- The first packet of a message through `session_dest_lookup` (pktMultiplexor.cpp).
use accl.Base.{
  ℕ, zero, suc, ◌+◌, ◌^◌, ◌<◌, ◌≤◌, ◌≡◌, ◌≢◌, refl, sym, true, false, u16, [], ◌∷◌, length, set,
  get_or, Stream, write, arith, le→leb, lt→not_leb, eq→==, get_or-set_self, get_or-set_ne,
}
use accl.Mux.Lookup.{
  LookupResp, LookupUpd, req, update, Lookup, matches, compare_mask, clear, respond, learn,
  lookup_case, session_dest_lookup,
}
use accl.Mux.Message.{lookups, request, Owns}

-- The answer to a packet of a message that the table does not know.
abbrev pub unknown : ℕ → ℕ → ℕ → LookupResp
unknown session d len = record {
  lookup_hit = false;
  is_last_pkt = false;
  dest = d;
  pkt_len = u16 len;
  session = u16 session;
}

-- No entry of the table is the session's; the output `d` is free, and a packet of `len` bytes waits.
pub record Fresh (s : Lookup) (session len d : ℕ) (rest free : Stream ℕ) : Type 0 where
  pub ready : s.state ≡ req
  pub waiting : s.lookup_req ≡ request session len ∷ rest
  pub session_fits : session < 2 ^ 16
  pub len_fits : len < 2 ^ 16
  pub absent : (j : ℕ) → j < 8 → matches s session j ≡ false
  pub next_free : s.free_dest ≡ d ∷ free
  pub inside : d < 8
  pub valid_whole : length s.valid ≡ 8
  pub session_whole : length s.table_session ≡ 8
  pub total_whole : length s.total_msg_size ≡ 8
  pub rcvd_whole : length s.rcvd_msg_size ≡ 8

compare_none :
    (s : Lookup) (session k n : ℕ)
    → k + n ≤ 8
    → ((j : ℕ) → j < 8 → matches s session j ≡ false)
    → compare_mask s session k n ≡ 0
unfolding compare_mask
compare_none s session k zero le a = refl
compare_none s session k (suc n) le a =
    rw (a k (omega arith), compare_none s session (suc k) n (omega arith) a)

-- The table behind the answer to a miss.
abbrev missed : Lookup → ℕ → ℕ → ℕ → Stream ℕ → Stream ℕ → Lookup
missed s session len d rest free = record s {
  lookup_req = rest;
  session = session;
  pkt_len = len;
  mask = compare_mask s session 0 8;
  free_dest = free;
  dest = d;
  lookup_resp = write s.lookup_resp (unknown session d len);
  state = update;
}

missed_lem :
    (s : Lookup) (session len d : ℕ) (rest free : Stream ℕ)
    → Fresh s session len d rest free
    → lookups 2 s ≡ missed s session len d rest free
unfolding lookups session_dest_lookup lookup_case respond
missed_lem s session len d rest free v =
    let m = compare_none s session 0 8 (omega arith) v.absent in
    let st = v.ready in let r = v.waiting in let f = v.next_free in ground (arith, m)

-- What `procStream` reports of a packet: its message has `total` bytes.
abbrev pub report : ℕ → ℕ → ℕ → ℕ → LookupUpd
report session d len total = record { dest = d; session = session; pkt_len = len; msg_size = total }

-- The lookup once the report is there.
abbrev pub reported : Lookup → LookupUpd → Lookup
reported s upd = record s { lookup_upd = upd ∷ [] }

-- The table behind a report of a message that goes on.
abbrev learned : Lookup → ℕ → ℕ → ℕ → ℕ → Lookup
learned s session d len total = record s {
  lookup_upd = [];
  dest = d;
  session = session;
  pkt_len = len;
  msg_size = total;
  valid = set s.valid d true;
  table_session = set s.table_session d session;
  total_msg_size = set s.total_msg_size d total;
  rcvd_msg_size = set s.rcvd_msg_size d len;
  state = req;
}

learned_lem :
    (s : Lookup) (session d len total : ℕ)
    → s.state ≡ update
    → len < total
    → session_dest_lookup (reported s (report session d len total)) ≡ learned s session d len total
unfolding session_dest_lookup lookup_case learn
learned_lem s session d len total st lt = ground (arith, lt→not_leb total len lt)

learned-Owns :
    (s : Lookup) (session d len total : ℕ)
    → ((j : ℕ) → j < 8 → matches s session j ≡ false)
    → d < 8
    → length s.valid ≡ 8
    → length s.table_session ≡ 8
    → Owns (learned s session d len total) session d
unfolding matches
learned-Owns s session d len total a h v t = record {
  inside = h;
  own = rw (
    get_or-set_self s.valid d true false (omega arith),
    get_or-set_self s.table_session d session 0 (omega arith),
    eq→== session session refl,
  );
  alone = λ j k ne.
      let apart : d ≢ j = λ e. ne (sym e) in
      rw
        (
          get_or-set_ne s.valid d j true false apart,
          get_or-set_ne s.table_session d j session 0 apart,
        )
        (a j k);
}

-- A packet of a session that the table does not know gets the first free output, which its
-- answer names as that of a new message; once the report of a longer message is there, one more
-- call enters it: the session owns that output alone, with its length and the bytes of the first
-- packet, and the output is free no more. The table has all its entries, and the session and the
-- packet's length fit in 16 bits.
pub message_begins :
    (s : Lookup) (session len d total : ℕ) (rest free : Stream ℕ)
    → Fresh s session len d rest free
    → len < total
    → let t = lookups 2 s in
      let u = session_dest_lookup (reported t (report session d len total)) in
      (t.lookup_resp ≡ write s.lookup_resp (unknown session d len))
      × (u.state ≡ req)
      × (u.lookup_req ≡ rest)
      × (u.free_dest ≡ free)
      × Owns u session d
      × (get_or u.total_msg_size d 0 ≡ total)
      × (get_or u.rcvd_msg_size d 0 ≡ len)
unfolding matches
message_begins s session len d total rest free v lt =
    let m = missed s session len d rest free in
    let e = missed_lem s session len d rest free v in
    let l = learned_lem m session d len total refl lt in
    rw (e, l)
      (
        refl,
        refl,
        refl,
        refl,
        learned-Owns m session d len total v.absent v.inside v.valid_whole v.session_whole,
        get_or-set_self s.total_msg_size d total 0 (omega (arith, v)),
        get_or-set_self s.rcvd_msg_size d len 0 (omega (arith, v)),
      )

-- The table behind a report of a message of one packet: the entry is cleared and its output free.
abbrev released : Lookup → ℕ → ℕ → ℕ → ℕ → Lookup
released s session d len total = record s {
  lookup_upd = [];
  dest = d;
  session = session;
  pkt_len = len;
  msg_size = total;
  valid = set s.valid d false;
  table_session = set s.table_session d 0;
  total_msg_size = set s.total_msg_size d 0;
  rcvd_msg_size = set s.rcvd_msg_size d 0;
  free_dest = write s.free_dest d;
  state = req;
}

released_lem :
    (s : Lookup) (session d len total : ℕ)
    → s.state ≡ update
    → total ≤ len
    → session_dest_lookup (reported s (report session d len total)) ≡ released s session d len total
unfolding session_dest_lookup lookup_case learn clear
released_lem s session d len total st le = ground (arith, le→leb total len le)

-- A message of one packet is answered as a new one, without the mark of the end of a message,
-- and once its report is there its output is free again, behind the others. The table has all
-- its entries, and the session and the packet's length fit in 16 bits.
pub single_packet :
    (s : Lookup) (session len d total : ℕ) (rest free : Stream ℕ)
    → Fresh s session len d rest free
    → total ≤ len
    → let t = lookups 2 s in
      let u = session_dest_lookup (reported t (report session d len total)) in
      (u.lookup_resp ≡ write s.lookup_resp (unknown session d len))
      × (u.state ≡ req)
      × (u.lookup_req ≡ rest)
      × (u.free_dest ≡ write free d)
      × (u.valid ≡ set s.valid d false)
single_packet s session len d total rest free v le =
    rw
      (
        missed_lem s session len d rest free v,
        released_lem (missed s session len d rest free) session d len total refl le,
      )
      (refl, refl, refl, refl, refl)
