-- ===== src/Tcp/TxHandler/Packets.antt =====
-- The packets of a message through tcp_txHandler, over a stack that accepts each request.
use accl.Base.{
  ℕ, zero, suc, ◌+◌, ◌-◌, ◌*◌, ◌/◌, ◌^◌, ◌<◌, ◌≤◌, ◌≡◌, refl, sym, ap, ◌∙◌, false, ltb, ◌∷◌, ◌++◌,
  append-nil, append_assoc, map, length, Stream, Flit, arith, le→not_ltb,
}
use accl.Base.{
  take, drop, take-append-drop, length-take, length-drop, Bool-cases, ltb→lt, not_ltb→le, inl, inr,
}
use accl.Tcp.Stack.{accepted}
use accl.Tcp.TxHandler.Packet.{calls, calls-add, packet}
use accl.Tcp.TxHandler.{TxHandler, tx_request}
use accl.Tcp.TxHandler.Lengths.{
  further, lengths, in_packets, tail, requests_left, lengths_more, lengths_last, in_packets_more,
  in_packets_last, more_packets,
}
use accl.Tcp.TxHandler.Status.{
  ready, read, Finished, written_last, written_more, one_packet, move_outputs,
}

-- A message that is within the handler's counters, with `sent` bytes accepted and `k` packets to go.
pub record Fits (b : TxHandler) (k n sent : ℕ) : Type 0 where
  pub session_fits : b.session_id < 2 ^ 16
  pub expected_fits : b.expected < 2 ^ 32
  pub words : b.max_pkg_word ≡ n
  pub some_words : 0 < n
  pub packet_fits : n * 64 < 2 ^ 16
  pub left : sent < b.expected
  pub enough : b.expected - sent ≤ k * (n * 64)

pub last_packet :
    (k n sent : ℕ) (b : TxHandler) (ws more out : Stream Flit) (metas later : Stream ℕ)
    → Fits b (suc k) n sent
    → length ws ≡ (b.expected - sent + 63) / 64
    → ltb (n * 64) (b.expected - sent) ≡ false
    → Finished more (out ++ packet ws) metas later b.cmd (
        calls
          (suc (length ws))
          (ready b sent (ws ++ more) out metas (accepted b.session_id (b.expected - sent) ∷ later)))
last_packet k n sent b ws more out metas later v e p =
    let le = not_ltb→le (n * 64) (b.expected - sent) p in
    let l = b.expected - sent in
    let none_left : ltb (sent + l) b.expected ≡ false = le→not_ltb _ _ (omega arith) in
    rw
      (one_packet b l sent ws more out metas later v.session_fits (omega arith) (omega arith)
        (omega arith) e)
      (rw (none_left, append-nil)
        (written_last (read b l (sent + l) metas later) more (out ++ packet ws) (omega arith)))

pub inner_packet :
    (k n sent : ℕ) (b : TxHandler) (ws more out : Stream Flit) (metas later : Stream ℕ)
    → Fits b (suc k) n sent
    → length ws ≡ n
    → n * 64 < b.expected - sent
    → calls
        (suc (length ws))
        (ready b sent (ws ++ more) out metas (accepted b.session_id (n * 64) ∷ later))
      ≡ ready
          (read b
            (n * 64)
            (sent + n * 64)
            (metas ++ further b.session_id b.max_pkg_word b.expected (sent + n * 64))
            later)
          (sent + n * 64)
          more
          (out ++ packet ws)
          (metas ++ further b.session_id b.max_pkg_word b.expected (sent + n * 64))
          later
inner_packet k n sent b ws more out metas later v e p =
    one_packet b (n * 64) sent ws more out metas later v.session_fits (omega (arith, v))
      v.packet_fits (omega (arith, v)) (omega (arith, v))
    ∙ written_more
        (read b (n * 64) (sent + n * 64)
          (metas ++ further b.session_id b.max_pkg_word b.expected (sent + n * 64)) later)
        more (out ++ packet ws) (omega (arith, v))

-- The same where the words of the packet stand in front of others.
pub packet_of :
    (k n sent : ℕ) (b : TxHandler) (ws more out : Stream Flit) (metas later : Stream ℕ)
    → Fits b (suc k) n sent
    → n ≤ length ws
    → n * 64 < b.expected - sent
    → calls (suc n) (ready b sent (ws ++ more) out metas (accepted b.session_id (n * 64) ∷ later))
      ≡ ready
          (read b
            (n * 64)
            (sent + n * 64)
            (metas ++ further b.session_id b.max_pkg_word b.expected (sent + n * 64))
            later)
          (sent + n * 64)
          (drop n ws ++ more)
          (out ++ packet (take n ws))
          (metas ++ further b.session_id b.max_pkg_word b.expected (sent + n * 64))
          later
packet_of k n sent b ws more out metas later v e p =
    let whole : ws ++ more ≡ take n ws ++ (drop n ws ++ more) =
      ap (λ l. l ++ more) (sym (take-append-drop n ws))
      ∙ append_assoc (take n ws) (drop n ws) more in
    let l : suc n ≡ suc (length (take n ws)) = ap suc (sym (length-take n ws e)) in
    let stats = accepted b.session_id (n * 64) ∷ later in
    ap (λ j. calls j (ready b sent (ws ++ more) out metas stats)) l
    ∙ ap (λ input. calls (suc (length (take n ws))) (ready b sent input out metas stats)) whole
    ∙ inner_packet k n sent b (take n ws) (drop n ws ++ more) out metas later v (length-take n ws e)
        p

pub packets_lem :
    (k n sent calls_left : ℕ) (b : TxHandler) (ws more out : Stream Flit) (metas later : Stream ℕ)
    → Fits b k n sent
    → length ws ≡ (b.expected - sent + 63) / 64
    → calls_left ≡ length (lengths k (n * 64) (b.expected - sent)) + length ws
    → Finished more
        (out ++ in_packets k n (b.expected - sent) ws)
        (metas ++ map (tx_request b.session_id) (tail (lengths k (n * 64) (b.expected - sent))))
        later
        b.cmd
        (calls calls_left (
          ready b sent
            (ws ++ more)
            out
            metas
            (map (accepted b.session_id) (lengths k (n * 64) (b.expected - sent)) ++ later)))
packets_lem zero n sent c b ws more out metas later v e q = absurd (omega (arith, v))
packets_lem (suc k) n sent c b ws more out metas later v e q =
    elim (Bool-cases (ltb (n * 64) (b.expected - sent))) [
      | inr p ↦
          let ls = lengths_last k (n * 64) (b.expected - sent) p in
          let q' = rw ls at q in
          let count : c ≡ suc (length ws) = omega arith in
          rw (ls, in_packets_last k n (b.expected - sent) ws p, count, append-nil)
            (last_packet k n sent b ws more out metas later v e p)
      | inl p ↦
          let ls = lengths_more k (n * 64) (b.expected - sent) p in
          let q' = rw ls at q in
          let lt = ltb→lt _ _ p in
          let left : b.expected - sent - n * 64 ≡ b.expected - (sent + n * 64) = omega arith in
          let q'' = rw left at q' in
          let ld = length-drop n ws in
          let metas' = metas ++ further b.session_id b.max_pkg_word b.expected (sent + n * 64) in
          let later' =
            map (accepted b.session_id) (lengths k (n * 64) (b.expected - (sent + n * 64)))
            ++ later in
          let b' = read b (n * 64) (sent + n * 64) metas' later' in
          let v' : Fits b' k n (sent + n * 64) = omega (arith, v) in
          let c' =
            length (lengths k (n * 64) (b.expected - (sent + n * 64))) + length (drop n ws) in
          let count : c ≡ suc n + c' = omega arith in
          let stats = accepted b.session_id (n * 64) ∷ later' in
          let rest_len : length (drop n ws) ≡ (b.expected - (sent + n * 64) + 63) / 64 =
            omega arith in
          let some_left : sent + n * 64 < b.expected = omega arith in
          let asks =
            requests_left b.session_id k n b.expected (sent + n * 64)
              (more_packets k n (b.expected - sent) v.enough lt) some_left in
          let requests : metas'
                ++ map (tx_request b.session_id)
                    (tail (lengths k (n * 64) (b.expected - (sent + n * 64))))
              ≡ metas
                ++ map (tx_request b.session_id)
                    (lengths k (n * 64) (b.expected - (sent + n * 64))) =
            append_assoc metas (further b.session_id b.max_pkg_word b.expected (sent + n * 64)) (
              map (tx_request b.session_id)
                (tail (lengths k (n * 64) (b.expected - (sent + n * 64)))))
            ∙ ap (λ l. metas ++ l)
                (ap
                    (λ j.
                      further b.session_id j b.expected (sent + n * 64)
                      ++ map (tx_request b.session_id)
                          (tail (lengths k (n * 64) (b.expected - (sent + n * 64)))))
                    v.words
                  ∙ asks) in
          let words = packet_of k n sent b ws more out metas later' v (omega arith) lt in
          rw (ls, in_packets_more k n (b.expected - sent) ws p, left)
            (move_outputs
              (append_assoc out (packet (take n ws))
                (in_packets k n (b.expected - (sent + n * 64)) (drop n ws)))
              requests
              (ap (λ j. calls j (ready b sent (ws ++ more) out metas stats)) count
                ∙ calls-add (suc n) c' (ready b sent (ws ++ more) out metas stats)
                ∙ ap (calls c') words)
              (packets_lem k n (sent + n * 64) c' b' (drop n ws) more (out ++ packet (take n ws))
                metas' later v' rest_len refl))
    ]
