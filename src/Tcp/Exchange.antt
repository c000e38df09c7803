-- ===== src/Tcp/Exchange.antt =====
-- A message through tcp_packetizer.cpp and tcp_depacketizer.cpp.
use accl.Base.{
  ℕ, zero, suc, ◌+◌, ◌-◌, ◌*◌, ◌%◌, ◌≤◌, ◌<◌, ◌≡◌, ◌⊎◌, inl, inr, refl, ◌∙◌, ap, sym, ltb, List, [],
  ◌∷◌, ◌++◌, append-nil, length, Stream, Flit, Outcome, done, arith, Bool-cases, ltb→lt, not_ltb→le,
  blocked, out_of_fuel,
}
use accl.Packet.Header.{
  Message, header, header_count, header_tag, header_src, header_seq, payload_words,
}
use accl.Packet.Bounds.{header_fields}
use accl.Packet.Delivered.{delivered}
use accl.Packet.Depacketizer.{Received}
use accl.Packet.Depacketizer.Laws.{copies, depacketize_lem}
use accl.Vnx.Frames.{command, IsCommand}
use accl.Tcp.Frames.{frame, frames, mask-eq-lanes, header_word, tcp_packetizer_lem}
use accl.Tcp.{tcp_depacketizer}
use accl.Tcp.Packetizer.{Sent, tcp_packetizer}

-- What the depacketizer makes of the packetizer's words.
unfoldable pub pass_on : ℕ → Outcome Sent → Outcome (Received Flit)
pass_on fuel (done s) = tcp_depacketizer fuel s.out
pass_on fuel blocked = blocked
pass_on fuel out_of_fuel = out_of_fuel

tail_or_full :
    (bytes j k : ℕ)
    → bytes % 64 < 31
    → suc k + j ≡ payload_words bytes
    → (bytes - 64 * j < 31) ⊎ (64 ≤ bytes - 64 * j)
tail_or_full bytes j zero h e = elim (Bool-cases (ltb (bytes - 64 * j) 31)) [
  | inl b ↦ inl (ltb→lt _ _ b)
  | inr b ↦ let big = not_ltb→le _ _ b in inr (omega arith)
]
tail_or_full bytes j (suc k) h e = inr (omega arith)

copies-frames :
    (undefined : ℕ → ℕ) (bytes n j : ℕ) (ws : List Flit)
    → bytes % 64 < 31
    → length ws + j ≡ payload_words bytes
    → copies
        (λ (w : Flit). w.bits)
        (λ (w : Flit). w.keep)
        (bytes - 64 * j)
        (frames undefined bytes n j ws)
      ≡ delivered bytes j ws
unfolding copies frames frame delivered
copies-frames undefined bytes n j [] h e = refl
copies-frames undefined bytes n j (w ∷ ws) h e =
    let left : bytes - 64 * j - 64 ≡ bytes - 64 * suc j = omega arith in
    rw (
      left,
      copies-frames undefined bytes n (suc j) ws h (omega arith),
      mask-eq-lanes undefined (bytes - 64 * j) (tail_or_full bytes j (length ws) h e),
    )

length-frames :
    (undefined : ℕ → ℕ) (bytes n j : ℕ) (ws : List Flit)
    → length (frames undefined bytes n j ws) ≡ length ws
unfolding frames
length-frames undefined bytes n j [] = refl
length-frames undefined bytes n j (w ∷ ws) = ap suc (length-frames undefined bytes n (suc j) ws)

header_word_fields :
    (m : Message) (fresh : ℕ)
    → IsCommand m
    → (header_count (header m fresh) ≡ m.bytes)
      × (header_tag (header m fresh) ≡ m.tag)
      × (header_src (header m fresh) ≡ m.src)
      × (header_seq (header m fresh) ≡ m.seq)
header_word_fields m fresh c = omega (arith, header_fields m fresh, c)

-- A message sent by the TCP packetizer and unpacked by the TCP depacketizer arrives whole: its
-- length, tag, source and sequence number, and its words in order with the lanes of exactly its
-- bytes and TLAST on the last one. Its words are at hand, the rounds suffice, it is not empty,
-- and its last word is full or has fewer than 31 bytes, where the packetizer's shift is defined.
-- The command's fields fit their widths (the destination 16 bits, the others 32), and message
-- and header are below 2 ^ 31 bytes.
pub tcp_exchange :
    (fuel : ℕ) (undefined : ℕ → ℕ) (fresh fresh_cmd n : ℕ) (m : Message) (ws more : Stream Flit)
    (rest : Stream ℕ)
    → IsCommand m
    → 0 < m.bytes
    → m.bytes % 64 < 31
    → length ws ≡ payload_words m.bytes
    → length ws < fuel
    → pass_on fuel
        (tcp_packetizer fuel undefined fresh fresh_cmd (ws ++ more) (command m ++ rest) n)
      ≡ done (record {
        input = [];
        out = delivered m.bytes 0 ws;
        sts = m.bytes ∷ m.tag ∷ m.src ∷ m.seq ∷ [];
      })
unfolding pass_on tcp_depacketizer
tcp_exchange fuel undefined fresh fresh_cmd n m ws more rest c p t e h =
    let (count, tag, src, seq) = header_word_fields m fresh c in
    let fs = frames undefined m.bytes n 0 ws in
    let l = length-frames undefined m.bytes n 0 ws in
    let z : m.bytes - 64 * 0 ≡ m.bytes = omega arith in
    let body = rw z at (copies-frames undefined m.bytes n 0 ws t (omega arith)) in
    let unpack =
      depacketize_lem (λ (w : Flit). w.bits) (λ (w : Flit). w.keep) fuel (header_word m fresh) fs []
        (rw count (omega (arith, c))) (l ∙ e ∙ ap payload_words (sym count)) (rw l h) in
    rw (tcp_packetizer_lem fuel undefined fresh fresh_cmd n m ws more rest c p e h) (
      ap (tcp_depacketizer fuel) (sym (append-nil (header_word m fresh ∷ fs)))
      ∙ unpack
      ∙ rw (count, tag, src, seq, body))
