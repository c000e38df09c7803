-- ===== src/Tcp/TxHandler/Whole.antt =====
-- What a message through tcp_txHandler amounts to: its words and its bytes.
use accl.Base.{
  ℕ, zero, suc, ◌+◌, ◌-◌, ◌*◌, ◌/◌, ◌^◌, ◌<◌, ◌≤◌, ◌≡◌, inl, inr, refl, sym, ap, ◌∙◌, Bool-cases,
  ltb, get_range, List, [], ◌∷◌, ◌++◌, map, length, take, drop, take-append-drop, length-drop,
  Stream, Flit, arith, ltb→lt, not_ltb→le,
}
use accl.Tcp.Stack.{accepted}
use accl.Tcp.TxHandler.{TxHandler, tx_request}
use accl.Tcp.TxHandler.Packet.{calls, packet}
use accl.Tcp.TxHandler.Lengths.{
  lengths, in_packets, lengths_more, lengths_last, in_packets_more, in_packets_last,
}
use accl.Tcp.TxHandler.Message.{Message, tx_message_lem}

-- The data of words.
unfoldable pub data_of : List Flit → List ℕ
data_of [] = []
data_of (w ∷ ws) = w.bits ∷ data_of ws

-- The bytes that a list of requests asks for.
unfoldable pub asked_bytes : List ℕ → ℕ
asked_bytes [] = 0
asked_bytes (r ∷ rs) = get_range 31 16 r + asked_bytes rs

data_of-append : (ws vs : List Flit) → data_of (ws ++ vs) ≡ data_of ws ++ data_of vs
unfolding data_of
data_of-append [] vs = refl
data_of-append (w ∷ ws) vs = ap (λ l. w.bits ∷ l) (data_of-append ws vs)

asked_bytes-append : (rs qs : List ℕ) → asked_bytes (rs ++ qs) ≡ asked_bytes rs + asked_bytes qs
unfolding asked_bytes
asked_bytes-append [] qs = omega arith
asked_bytes-append (r ∷ rs) qs = omega (arith, asked_bytes-append rs qs)

data_of-packet : (ws : List Flit) → data_of (packet ws) ≡ data_of ws
unfolding data_of packet
data_of-packet [] = refl
data_of-packet (w ∷ []) = refl
data_of-packet (w ∷ v ∷ ws) = ap (λ l. w.bits ∷ l) (data_of-packet (v ∷ ws))

data_of-in_packets :
    (k n total : ℕ) (ws : List Flit)
    → total ≤ k * (n * 64)
    → length ws ≡ (total + 63) / 64
    → data_of (in_packets k n total ws) ≡ data_of ws
unfolding in_packets
data_of-in_packets zero n total [] h e = refl
data_of-in_packets zero n total (w ∷ ws) h e = absurd (omega arith)
data_of-in_packets (suc k) n total ws h e = elim (Bool-cases (ltb (n * 64) total)) [
  | inr p ↦ ap data_of (in_packets_last k n total ws p) ∙ data_of-packet ws
  | inl p ↦
      let lt = ltb→lt _ _ p in
      let d = length-drop n ws in
      let rest : length (drop n ws) ≡ (total - n * 64 + 63) / 64 = omega arith in
      ap data_of (in_packets_more k n total ws p)
      ∙ data_of-append (packet (take n ws)) (in_packets k n (total - n * 64) (drop n ws))
      ∙ rw
          (
            data_of-packet (take n ws),
            data_of-in_packets k n (total - n * 64) (drop n ws) (omega arith) rest,
          )
          (sym (data_of-append (take n ws) (drop n ws)) ∙ ap data_of (take-append-drop n ws))
]

request_bytes : (session l : ℕ) → l < 2 ^ 16 → get_range 31 16 (tx_request session l) ≡ l
unfolding tx_request
request_bytes session l h = omega arith

asked_bytes-lengths :
    (session k m total : ℕ)
    → m < 2 ^ 16
    → total ≤ k * m
    → asked_bytes (map (tx_request session) (lengths k m total)) ≡ total
unfolding asked_bytes lengths
asked_bytes-lengths session zero m total s h = omega arith
asked_bytes-lengths session (suc k) m total s h = elim (Bool-cases (ltb m total)) [
  | inr p ↦
      let le = not_ltb→le _ _ p in
      rw (lengths_last k m total p, request_bytes session total (omega arith)) (omega arith)
  | inl p ↦
      let lt = ltb→lt _ _ p in
      let rest = asked_bytes-lengths session k m (total - m) s (omega arith) in
      rw (lengths_more k m total p, request_bytes session m s, rest) (omega arith)
]

-- A command for a message of `total` bytes, its words at hand, and each request accepted: when
-- the handler is done, the data of the message has gone out whole and in order, however it was
-- cut into packets, and the lengths of the requests for it add up to its bytes. The conditions
-- are those of the theorem on a whole message: the session and the bytes of a full packet fit in
-- 16 bits, the message in 32, it is not empty, and it fits in the `suc k` packets that are
-- described.
pub message_whole :
    (s : TxHandler) (k session total n : ℕ) (w : Flit) (ws more : Stream Flit)
    (rest later : Stream ℕ)
    → Message s session total n rest
    → 0 < total
    → total ≤ suc k * (n * 64)
    → length (w ∷ ws) ≡ (total + 63) / 64
    → s.data_in ≡ w ∷ ws ++ more
    → s.tx_status ≡ map (accepted session) (lengths (suc k) (n * 64) total) ++ later
    → let t = calls (2 + (length (lengths (suc k) (n * 64) total) + length (w ∷ ws))) s in
      (data_of t.tx_data ≡ data_of s.tx_data ++ data_of (w ∷ ws))
      × (asked_bytes t.tx_meta ≡ asked_bytes s.tx_meta + total)
message_whole s k session total n w ws more rest later m p h e d st =
    let f = tx_message_lem s k session total n w ws more rest later m p h e d st in
    (
      ap data_of f.data_sent
          ∙ data_of-append s.tx_data (in_packets (suc k) n total (w ∷ ws))
          ∙ ap (λ l. data_of s.tx_data ++ l) (data_of-in_packets (suc k) n total (w ∷ ws) h e),
      ap asked_bytes f.requested
          ∙ asked_bytes-append s.tx_meta (map (tx_request session) (lengths (suc k) (n * 64) total))
          ∙ ap (λ b. asked_bytes s.tx_meta + b)
              (asked_bytes-lengths session (suc k) (n * 64) total m.packet_fits h),
    )
