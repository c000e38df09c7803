-- ===== src/Tcp/TxHandler/Message.antt =====
-- A whole message through tcp_txHandler, over a stack that accepts each request.
use accl.Base.{
  ℕ, suc, ◌+◌, ◌-◌, ◌*◌, ◌/◌, ◌^◌, ◌<◌, ◌≤◌, ◌≡◌, refl, ap, ◌∙◌, get_range, [], ◌∷◌, ◌++◌,
  append_assoc, map, length, write, Stream, Flit, arith,
}
use accl.Tcp.Stack.{accepted}
use accl.Tcp.TxHandler.Packet.{calls, calls-add}
use accl.Tcp.TxHandler.{
  wait_cmd, check_req, TxHandler, tx_request, first_length, tx_case, tcp_tx_handler,
}
use accl.Tcp.TxHandler.Lengths.{lengths, in_packets, tail, first_request}
use accl.Tcp.TxHandler.Status.{ready, Finished, move_outputs}
use accl.Tcp.TxHandler.Packets.{Fits, packets_lem}

command_fields :
    (session total n : ℕ)
    → session < 2 ^ 32
    → total < 2 ^ 32
    → n < 2 ^ 32
    → (get_range 31 0 (session + total * 2 ^ 32 + n * 2 ^ 64) ≡ session)
      × (get_range 63 32 (session + total * 2 ^ 32 + n * 2 ^ 64) ≡ total)
      × (get_range 95 64 (session + total * 2 ^ 32 + n * 2 ^ 64) ≡ n)
command_fields session total n h k l = omega arith

-- The handler behind a command whose first request is out.
abbrev asked : TxHandler → ℕ → ℕ → ℕ → Stream ℕ → TxHandler
asked s session total n rest = record s {
  cmd = rest;
  session_id = session;
  expected = total;
  max_pkg_word = n;
  state = check_req;
  tx_meta = write s.tx_meta (tx_request session (first_length n total));
}

asked_lem :
    (s : TxHandler) (session total n : ℕ) (w : Flit) (ws : Stream Flit) (rest : Stream ℕ)
    → session < 2 ^ 32
    → total < 2 ^ 32
    → n < 2 ^ 32
    → s.state ≡ wait_cmd
    → s.cmd ≡ (session + total * 2 ^ 32 + n * 2 ^ 64) ∷ rest
    → s.data_in ≡ w ∷ ws
    → calls 2 s ≡ asked s session total n rest
unfolding calls tcp_tx_handler tx_case
asked_lem s session total n w ws rest h k l st c d =
    let f = command_fields session total n h k l in ground (arith, f)

asked_eq :
    (s : TxHandler) (session total n : ℕ) (ws : Stream Flit) (rest stats : Stream ℕ)
    → s.data_in ≡ ws
    → s.word_cnt ≡ 0
    → s.sent_byte_cnt ≡ 0
    → s.tx_status ≡ stats
    → asked s session total n rest
      ≡ ready
          (asked s session total n rest)
          0
          ws
          s.tx_data
          (write s.tx_meta (tx_request session (first_length n total)))
          stats
asked_eq s session total n ws rest stats d w c t = ground arith

-- A whole message: `total` bytes in packets of at most `n` words, every request accepted.
pub record Message (s : TxHandler) (session total n : ℕ) (rest : Stream ℕ) : Type 0 where
  pub session_fits : session < 2 ^ 16
  pub total_fits : total < 2 ^ 32
  pub some_words : 0 < n
  pub packet_fits : n * 64 < 2 ^ 16
  pub waits : s.state ≡ wait_cmd
  pub command : s.cmd ≡ (session + total * 2 ^ 32 + n * 2 ^ 64) ∷ rest
  pub no_words : s.word_cnt ≡ 0
  pub no_bytes : s.sent_byte_cnt ≡ 0

-- The handler waits for a command and has one for `total` bytes in packets of at most `n` words,
-- the message's words are there, and so are the statuses that accept each request. Then two
-- calls, one for each packet and one for each word bring it back to the start: it has asked for
-- the packets by their lengths in order, sent the words in order with TLAST at the end of each
-- packet, and taken only this command, these words and these statuses. The session and the bytes
-- of a full packet fit in 16 bits, the message in 32; it is not empty, it fits in the `suc k`
-- packets that are described, and the counters are at 0.
pub tx_message_lem :
    (s : TxHandler) (k session total n : ℕ) (w : Flit) (ws more : Stream Flit)
    (rest later : Stream ℕ)
    → Message s session total n rest
    → 0 < total
    → total ≤ suc k * (n * 64)
    → length (w ∷ ws) ≡ (total + 63) / 64
    → s.data_in ≡ w ∷ ws ++ more
    → s.tx_status ≡ map (accepted session) (lengths (suc k) (n * 64) total) ++ later
    → Finished more
        (s.tx_data ++ in_packets (suc k) n total (w ∷ ws))
        (s.tx_meta ++ map (tx_request session) (lengths (suc k) (n * 64) total))
        later
        rest
        (calls (2 + (length (lengths (suc k) (n * 64) total) + length (w ∷ ws))) s)
tx_message_lem s k session total n w ws more rest later m p h e d t =
    let b = asked s session total n rest in
    let c = length (lengths (suc k) (n * 64) total) + length (w ∷ ws) in
    let stats = map (accepted session) (lengths (suc k) (n * 64) total) ++ later in
    let v : Fits b (suc k) n 0 = omega (arith, m) in
    let started : calls 2 s ≡ b =
      asked_lem s session total n w (ws ++ more) rest (omega (arith, m)) m.total_fits
        (omega (arith, m)) m.waits m.command d in
    let none : total - 0 ≡ total = omega arith in
    let words : length (w ∷ ws) ≡ (total - 0 + 63) / 64 = omega arith in
    let count : c ≡ length (lengths (suc k) (n * 64) (total - 0)) + length (w ∷ ws) = rw none in
    let packets =
      packets_lem (suc k) n 0 c b (w ∷ ws) more s.tx_data
        (write s.tx_meta (tx_request session (first_length n total))) later v words count in
    move_outputs refl
      (append_assoc s.tx_meta (tx_request session (first_length n total) ∷ [])
          (map (tx_request session) (tail (lengths (suc k) (n * 64) total)))
        ∙ ap (λ l. s.tx_meta ++ l) (first_request k n session total))
      (calls-add 2 c s
        ∙ ap (calls c) (
            started
            ∙ asked_eq s session total n (w ∷ ws ++ more) rest stats d m.no_words m.no_bytes t))
      (rw none at packets)
