-- ===== src/Mux/Message.antt =====
-- The packets of a message through `session_dest_lookup` (pktMultiplexor.cpp).
use accl.Base.{
  ℕ, zero, suc, ◌+◌, ◌*◌, ◌^◌, ◌<◌, ◌≤◌, ◌≡◌, ◌≢◌, refl, ap, ◌∙◌, Bool, true, false, ◌==◌,
  get_range, u16, u32, List, [], ◌∷◌, ◌++◌, append_assoc, map, length, set, get_or, Stream, write,
  arith, le→leb, lt→not_leb, get_or-set_self, length-set,
}
use accl.Mux.Lookup.{
  LookupResp, req, hit_resp, Lookup, matches, compare_mask, clear, respond, hit, lookup_case,
  session_dest_lookup,
}
use accl.Mux.Select.{single-nonzero, compare_single, selects_owner}

-- `n` calls.
unfoldable pub lookups : ℕ → Lookup → Lookup
lookups zero s = s
lookups (suc n) s = lookups n (session_dest_lookup s)

-- The request for a packet of `len` bytes.
abbrev pub request : ℕ → ℕ → ℕ
request session len = session + len * 2 ^ 32

-- The entry `i` of the table is that of the session, and no other is.
pub record Owns (s : Lookup) (session i : ℕ) : Type 0 where
  pub inside : i < 8
  pub own : matches s session i ≡ true
  pub alone : (j : ℕ) → j < 8 → j ≢ i → matches s session j ≡ false

-- The answer to a packet of a message that the table knows.
abbrev pub known : ℕ → ℕ → ℕ → Bool → LookupResp
known session i len last = record {
  lookup_hit = true;
  is_last_pkt = last;
  dest = i;
  pkt_len = u16 len;
  session = u16 session;
}

abbrev compared : Lookup → ℕ → ℕ → Stream ℕ → Lookup
compared s session len rest = record s {
  lookup_req = rest;
  session = session;
  pkt_len = len;
  mask = compare_mask s session 0 8;
  state = hit_resp;
}

compare_request :
    (s : Lookup) (session i len : ℕ) (rest : Stream ℕ)
    → s.state ≡ req
    → s.lookup_req ≡ request session len ∷ rest
    → session < 2 ^ 32
    → len < 2 ^ 32
    → Owns s session i
    → session_dest_lookup s ≡ compared s session len rest
unfolding session_dest_lookup lookup_case
compare_request s session i len rest st r h k o =
    let a : get_range 31 0 (request session len) ≡ session = omega arith in
    let b : get_range 63 32 (request session len) ≡ len = omega arith in
    let m : (compare_mask s session 0 8 == 0) ≡ false =
      ap (λ x. x == 0) (compare_single s session i 0 8 (omega arith) o.own o.alone)
      ∙ single-nonzero i o.inside in
    ground (arith, m)

respond_hit :
    (s : Lookup) (session i len : ℕ) (rest : Stream ℕ)
    → Owns s session i
    → session_dest_lookup (compared s session len rest) ≡ (
        let t = hit (record (compared s session len rest) { dest = i }) i in
        record t { state = req })
unfolding session_dest_lookup lookup_case
respond_hit s session i len rest o = rw (selects_owner s session i s.dest o.inside o.own o.alone)

-- The bytes of the message that have come.
abbrev received : Lookup → ℕ → ℕ
received s i = get_or s.rcvd_msg_size i 0

-- What two calls make of a packet after which bytes are missing.
abbrev go_on : Lookup → ℕ → ℕ → ℕ → Stream ℕ → Lookup
go_on s session i len rest = record (compared s session len rest) {
  dest = i;
  lookup_resp = write s.lookup_resp (known session i len false);
  rcvd_msg_size = set s.rcvd_msg_size i (u32 (received s i + len));
  state = req;
}

-- What they make of the packet that completes the message: the entry is free again.
abbrev ended : Lookup → ℕ → ℕ → ℕ → Stream ℕ → Lookup
ended s session i len rest = record (compared s session len rest) {
  dest = i;
  lookup_resp = write s.lookup_resp (known session i len true);
  valid = set s.valid i false;
  table_session = set s.table_session i 0;
  total_msg_size = set s.total_msg_size i 0;
  rcvd_msg_size = set s.rcvd_msg_size i 0;
  free_dest = write s.free_dest i;
  state = req;
}

module _ (s : Lookup) (session i len : ℕ) (rest : Stream ℕ) where
  go_on_lem :
      s.state ≡ req
      → s.lookup_req ≡ request session len ∷ rest
      → session < 2 ^ 32
      → len < 2 ^ 32
      → Owns s session i
      → received s i + len < get_or s.total_msg_size i 0
      → lookups 2 s ≡ go_on s session i len rest
  unfolding lookups hit respond
  go_on_lem st r h k o lt =
      ap session_dest_lookup (compare_request s session i len rest st r h k o)
      ∙ respond_hit s session i len rest o
      ∙ rw (lt→not_leb (get_or s.total_msg_size i 0) (received s i + len) lt)

  ended_lem :
      s.state ≡ req
      → s.lookup_req ≡ request session len ∷ rest
      → session < 2 ^ 32
      → len < 2 ^ 32
      → Owns s session i
      → get_or s.total_msg_size i 0 ≤ received s i + len
      → lookups 2 s ≡ ended s session i len rest
  unfolding lookups hit respond clear
  ended_lem st r h k o le =
      ap session_dest_lookup (compare_request s session i len rest st r h k o)
      ∙ respond_hit s session i len rest o
      ∙ rw (le→leb (get_or s.total_msg_size i 0) (received s i + len) le)

go_on-Owns :
    (s : Lookup) (session i len : ℕ) (rest : Stream ℕ)
    → Owns s session i
    → Owns (go_on s session i len rest) session i
unfolding matches
go_on-Owns s session i len rest o = record { inside = o.inside; own = o.own; alone = o.alone }

abbrev pub twice : ℕ → ℕ
twice zero = 0
twice (suc n) = suc (suc (twice n))

abbrev pub sum : List ℕ → ℕ
sum [] = 0
sum (x ∷ xs) = x + sum xs

-- A message whose entry is `i`, with packets to come of the lengths `ls` and `l`, the last of which
-- completes it.
pub record Incoming (s : Lookup) (session i : ℕ) (ls : List ℕ) (l : ℕ) : Type 0 where
  pub ready : s.state ≡ req
  pub session_fits : session < 2 ^ 16
  pub owns : Owns s session i
  pub whole_table : length s.rcvd_msg_size ≡ 8
  pub total_fits : get_or s.total_msg_size i 0 < 2 ^ 32
  pub last_fits : l < 2 ^ 32
  pub missing : get_or s.rcvd_msg_size i 0 + sum ls < get_or s.total_msg_size i 0
  pub complete : get_or s.total_msg_size i 0 ≤ get_or s.rcvd_msg_size i 0 + sum ls + l

go_on-Incoming :
    (s : Lookup) (session i len l : ℕ) (ls : List ℕ) (rest : Stream ℕ)
    → Incoming s session i (len ∷ ls) l
    → Incoming (go_on s session i len rest) session i ls l
go_on-Incoming s session i len l ls rest v =
    let inside = v.owns.inside in
    let fits : received s i + len < 2 ^ 32 = omega (arith, v) in
    let now : received (go_on s session i len rest) i ≡ received s i + len =
      get_or-set_self s.rcvd_msg_size i (u32 (received s i + len)) 0 (omega (arith, v))
      ∙ omega arith in
    record {
      ready = refl;
      session_fits = v.session_fits;
      owns = go_on-Owns s session i len rest v.owns;
      whole_table = length-set s.rcvd_msg_size i (u32 (received s i + len)) ∙ v.whole_table;
      total_fits = v.total_fits;
      last_fits = v.last_fits;
      missing = omega (arith, v, now);
      complete = omega (arith, v, now);
    }

-- Where the table knows the message of a session, and its next packets complete it with the last
-- of them, two calls for each packet answer each with the message's output, mark the last answer
-- alone as the end of the message, and free the output. The table has all its entries, one of
-- them and no other is the session's, the session fits in 16 bits and the sizes in 32.
pub message_completes :
    (s : Lookup) (session i l : ℕ) (ls : List ℕ) (rest : Stream ℕ)
    → Incoming s session i ls l
    → s.lookup_req ≡ map (request session) ls ++ (request session l ∷ rest)
    → let t = lookups (twice (suc (length ls))) s in
      (t.state ≡ req)
      × (t.lookup_req ≡ rest)
      × (t.lookup_resp
          ≡ s.lookup_resp
            ++ (map (λ len. known session i len false) ls ++ (known session i l true ∷ [])))
      × (t.free_dest ≡ write s.free_dest i)
      × (t.valid ≡ set s.valid i false)
unfolding lookups
message_completes s session i l [] rest v r =
    rw
      (ended_lem s session i l rest v.ready r (omega (arith, v)) v.last_fits v.owns
        (omega (arith, v)))
      (refl, refl, refl, refl, refl)
message_completes s session i l (len ∷ ls) rest v r =
    let later = map (request session) ls ++ (request session l ∷ rest) in
    let step =
      go_on_lem s session i len later v.ready r (omega (arith, v)) (omega (arith, v)) v.owns
        (omega (arith, v)) in
    let t = go_on s session i len later in
    let (st, q, resp, free, valid) =
      message_completes t session i l ls rest (go_on-Incoming s session i len l ls later v) refl in
    rw (ap (lookups (twice (suc (length ls)))) step)
      (st, q, resp ∙ append_assoc s.lookup_resp _ _, free, valid)
