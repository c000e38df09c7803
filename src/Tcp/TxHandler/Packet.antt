-- ===== src/Tcp/TxHandler/Packet.antt =====
-- One packet through tcp_txHandler.
use accl.Base.{
  ℕ, zero, suc, ◌+◌, ◌^◌, ◌<◌, ◌≡◌, ap, ◌∙◌, true, false, u32, leb, List, [], ◌∷◌, ◌++◌,
  append_assoc, length, write, Stream, Flit, arith, if◌then◌else◌, eq→==,
}
use accl.Tcp.TxHandler.{
  wait_cmd, check_req, write_pkg, TxHandler, send_word, tx_case, tcp_tx_handler,
}

-- `n` calls.
unfoldable pub calls : ℕ → TxHandler → TxHandler
calls zero s = s
calls (suc n) s = calls n (tcp_tx_handler s)

pub calls-add : (m n : ℕ) (s : TxHandler) → calls (m + n) s ≡ calls n (calls m s)
unfolding calls
calls-add zero n s = let e : 0 + n ≡ n = omega arith in ap (λ k. calls k s) e
calls-add (suc m) n s =
    let e : suc m + n ≡ suc (m + n) = omega arith in
    ap (λ k. calls k s) e ∙ calls-add m n (tcp_tx_handler s)

-- The words of a packet as they go out: TLAST on the last one alone.
unfoldable pub packet : List Flit → List Flit
packet [] = []
packet (w ∷ []) = record { bits = w.bits; keep = w.keep; last = true } ∷ []
packet (w ∷ v ∷ ws) = record { bits = w.bits; keep = w.keep; last = false } ∷ packet (v ∷ ws)

-- A handler in the middle of a packet.
abbrev pub writing : TxHandler → Stream Flit → Stream Flit → ℕ → TxHandler
writing b input out cnt = record b {
  state = write_pkg;
  data_in = input;
  tx_data = out;
  word_cnt = cnt;
}

-- A handler at the end of one.
unfoldable pub written : TxHandler → Stream Flit → Stream Flit → TxHandler
written b input out =
    let t = record b { state = check_req; data_in = input; tx_data = out; word_cnt = 0 } in
    if leb b.expected b.sent_byte_cnt
    then record t { state = wait_cmd; sent_byte_cnt = 0; current_pkg_word = 0 }
    else t

last_word :
    (b : TxHandler) (w : Flit) (rest out : Stream Flit) (cnt : ℕ)
    → cnt + 1 ≡ b.current_pkg_word
    → b.current_pkg_word < 2 ^ 32
    → tcp_tx_handler (writing b (w ∷ rest) out cnt)
      ≡ written b rest (write out (record { bits = w.bits; keep = w.keep; last = true }))
unfolding tcp_tx_handler tx_case written
last_word b w rest out cnt e h =
    rw (eq→== (u32 (cnt + 1)) b.current_pkg_word (omega arith), tcp_tx_handler, tx_case, send_word)

inner_word :
    (b : TxHandler) (w : Flit) (rest out : Stream Flit) (cnt : ℕ)
    → cnt + 1 < b.current_pkg_word
    → b.current_pkg_word < 2 ^ 32
    → tcp_tx_handler (writing b (w ∷ rest) out cnt)
      ≡ writing b rest (write out (record { bits = w.bits; keep = w.keep; last = false })) (cnt + 1)
unfolding tcp_tx_handler tx_case
inner_word b w rest out cnt e h = ground arith

send_packet :
    (b : TxHandler) (w : Flit) (ws more out : List Flit) (cnt : ℕ)
    → cnt + length (w ∷ ws) ≡ b.current_pkg_word
    → b.current_pkg_word < 2 ^ 32
    → calls (length (w ∷ ws)) (writing b (w ∷ ws ++ more) out cnt)
      ≡ written b more (out ++ packet (w ∷ ws))
unfolding calls packet
send_packet b w [] more out cnt e h = last_word b w more out cnt e h
send_packet b w (v ∷ ws) more out cnt e h =
    ap (calls (length (v ∷ ws))) (inner_word b w (v ∷ ws ++ more) out cnt (omega arith) h)
    ∙ send_packet b v ws more (write out (record { bits = w.bits; keep = w.keep; last = false }))
        (cnt + 1) (omega arith) h
    ∙ rw append_assoc

pub send_packet_lem :
    (b : TxHandler) (ws more out : List Flit)
    → 0 < length ws
    → length ws ≡ b.current_pkg_word
    → b.current_pkg_word < 2 ^ 32
    → calls (length ws) (writing b (ws ++ more) out 0) ≡ written b more (out ++ packet ws)
send_packet_lem b [] more out p e h = absurd (omega arith)
send_packet_lem b (w ∷ ws) more out p e h = send_packet b w ws more out 0 (omega arith) h
