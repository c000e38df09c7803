-- ===== src/Tests/Mux.antt =====
-- The theorems on pktMultiplexor.cpp, at small tables and packets.
use accl.Base.{
  ℕ, zero, suc, ◌-◌, ◌^◌, ◌<◌, ◌≡◌, ◌≢◌, refl, true, false, Bool, [], ◌∷◌, ◌++◌, set, get_or, write,
  Flit, arith,
}
use accl.Mux.Lookup.{LookupResp, Lookup, req, matches, compare_mask, mask_dest, session_dest_lookup}
use accl.Mux.Process.{Proc, wait_stream}
use accl.Mux.Route.{leaving, calls, told, packet_routed}
use accl.Mux.Select.{selects_owner}
use accl.Mux.Message.{lookups, request, Owns, known, Incoming, message_completes}
use accl.Mux.Begin.{unknown, Fresh, report, reported, message_begins, single_packet}

abbrev word : ℕ → Bool → Flit
word b l = record { bits = b; keep = 2 ^ 64 - 1; last = l }

-- The answer to the first packet of a message: output 3.
abbrev answer : LookupResp
answer = record { lookup_hit = false; is_last_pkt = false; dest = 3; pkt_len = 128; session = 7 }

abbrev process : Proc
process = record {
  pkt_stream_in = word 1000 false ∷ word 2000 true ∷ word 3000 true ∷ [];
  pkt_mult_stream_out = [];
  lookup_resp = answer ∷ [];
  lookup_upd = [];
  state = wait_stream;
  resp = answer;
}

packet_routed_example :
    let t = calls 2 process in
    (t.state ≡ wait_stream)
    × (t.pkt_stream_in ≡ word 3000 true ∷ [])
    × (t.lookup_resp ≡ [])
    × (t.pkt_mult_stream_out ≡ [] ++ leaving answer (word 1000 false ∷ word 2000 true ∷ []))
    × (t.lookup_upd ≡ [] ++ told answer (word 1000 false))
packet_routed_example =
    packet_routed process answer [] (word 1000 false) (word 2000 true ∷ []) (word 3000 true ∷ [])
      refl refl refl (refl, refl)

-- A table with session 7 in entry 2 and session 9 in entry 5.
abbrev table : Lookup
table = record {
  lookup_req = request 7 100 ∷ request 7 200 ∷ [];
  lookup_resp = [];
  lookup_upd = [];
  valid = false ∷ false ∷ true ∷ false ∷ false ∷ true ∷ false ∷ false ∷ [];
  table_session = 0 ∷ 0 ∷ 7 ∷ 0 ∷ 0 ∷ 9 ∷ 0 ∷ 0 ∷ [];
  total_msg_size = 0 ∷ 0 ∷ 400 ∷ 0 ∷ 0 ∷ 400 ∷ 0 ∷ 0 ∷ [];
  rcvd_msg_size = 0 ∷ 0 ∷ 100 ∷ 0 ∷ 0 ∷ 100 ∷ 0 ∷ 0 ∷ [];
  free_dest = 0 ∷ 1 ∷ 3 ∷ 4 ∷ 6 ∷ 7 ∷ [];
  state = req;
  mask = 0;
  dest = 0;
  counter = 0;
  session = 0;
  pkt_len = 0;
  msg_size = 0;
}

no_other : (j : ℕ) → j < 8 → j ≢ 2 → matches table 7 j ≡ false
unfolding matches
no_other zero h n = refl
no_other (suc zero) h n = refl
no_other (suc (suc zero)) h n = absurd (n refl)
no_other (suc (suc (suc zero))) h n = refl
no_other (suc (suc (suc (suc zero)))) h n = refl
no_other (suc (suc (suc (suc (suc zero))))) h n = refl
no_other (suc (suc (suc (suc (suc (suc zero)))))) h n = refl
no_other (suc (suc (suc (suc (suc (suc (suc j))))))) h n = let z : j ≡ 0 = omega arith in rw z

matches_two : matches table 7 2 ≡ true
unfolding matches
matches_two = refl

selects_owner_example : mask_dest (compare_mask table 7 0 8) 5 ≡ 2
selects_owner_example = selects_owner table 7 2 5 (omega arith) matches_two no_other

table-Incoming : Incoming table 7 2 (100 ∷ []) 200
table-Incoming = record {
  ready = refl;
  session_fits = omega arith;
  owns = record { inside = omega arith; own = matches_two; alone = no_other };
  whole_table = refl;
  total_fits = omega arith;
  last_fits = omega arith;
  missing = omega arith;
  complete = omega arith;
}

message_completes_example :
    let t = lookups 4 table in
    (t.state ≡ req)
    × (t.lookup_req ≡ [])
    × (t.lookup_resp ≡ [] ++ (known 7 2 100 false ∷ known 7 2 200 true ∷ []))
    × (t.free_dest ≡ (0 ∷ 1 ∷ 3 ∷ 4 ∷ 6 ∷ 7 ∷ 2 ∷ []))
    × (t.valid ≡ set table.valid 2 false)
message_completes_example = message_completes table 7 2 200 (100 ∷ []) [] table-Incoming refl

-- The same table, with a packet of session 8.
abbrev next_table : Lookup
next_table = record table { lookup_req = request 8 100 ∷ [] }

absent : (j : ℕ) → j < 8 → matches next_table 8 j ≡ false
unfolding matches
absent zero h = refl
absent (suc zero) h = refl
absent (suc (suc zero)) h = refl
absent (suc (suc (suc zero))) h = refl
absent (suc (suc (suc (suc zero)))) h = refl
absent (suc (suc (suc (suc (suc zero))))) h = refl
absent (suc (suc (suc (suc (suc (suc zero)))))) h = refl
absent (suc (suc (suc (suc (suc (suc (suc j))))))) h = let z : j ≡ 0 = omega arith in rw z

next-Fresh : Fresh next_table 8 100 0 [] (1 ∷ 3 ∷ 4 ∷ 6 ∷ 7 ∷ [])
next-Fresh = record {
  ready = refl;
  waiting = refl;
  session_fits = omega arith;
  len_fits = omega arith;
  absent = absent;
  next_free = refl;
  inside = omega arith;
  valid_whole = refl;
  session_whole = refl;
  total_whole = refl;
  rcvd_whole = refl;
}

message_begins_example :
    let t = lookups 2 next_table in
    let u = session_dest_lookup (reported t (report 8 0 100 500)) in
    (t.lookup_resp ≡ write [] (unknown 8 0 100))
    × (u.state ≡ req)
    × (u.lookup_req ≡ [])
    × (u.free_dest ≡ 1 ∷ 3 ∷ 4 ∷ 6 ∷ 7 ∷ [])
    × Owns u 8 0
    × (get_or u.total_msg_size 0 0 ≡ 500)
    × (get_or u.rcvd_msg_size 0 0 ≡ 100)
message_begins_example =
    message_begins next_table 8 100 0 500 [] (1 ∷ 3 ∷ 4 ∷ 6 ∷ 7 ∷ []) next-Fresh (omega arith)

single_packet_example :
    let t = lookups 2 next_table in
    let u = session_dest_lookup (reported t (report 8 0 100 100)) in
    (u.lookup_resp ≡ write [] (unknown 8 0 100))
    × (u.state ≡ req)
    × (u.lookup_req ≡ [])
    × (u.free_dest ≡ write (1 ∷ 3 ∷ 4 ∷ 6 ∷ 7 ∷ []) 0)
    × (u.valid ≡ set table.valid 0 false)
single_packet_example =
    single_packet next_table 8 100 0 100 [] (1 ∷ 3 ∷ 4 ∷ 6 ∷ 7 ∷ []) next-Fresh (omega arith)
