-- ===== src/Vnx/RoundTrip.antt =====
-- A message through vnx_packetizer, a network that returns it (vnx_loopback) and vnx_depacketizer.
use accl.Base.{
  ℕ, suc, ◌+◌, ◌-◌, ◌*◌, ◌^◌, ◌<◌, ◌≡◌, refl, ◌∙◌, ap, sym, List, [], ◌∷◌, ◌++◌, append-nil, length,
  Stream, Flit, Routed, Outcome, done, blocked, out_of_fuel, arith,
}
use accl.Packet.Header.{
  Message, header, header_count, header_tag, header_src, header_seq, payload_words,
}
use accl.Packet.Delivered.{delivered}
use accl.Packet.Bounds.{header_fields}
use accl.Packet.Depacketizer.{Received}
use accl.Packet.Depacketizer.Laws.{copies, depacketize_lem}
use accl.Vnx.{vnx_depacketizer}
use accl.Vnx.Packetizer.{vnx_packetizer}
use accl.Vnx.Frames.{frame, frames, command, IsCommand, vnx_packetizer_lem}
use accl.Vnx.Loopback.{vnx_loopback, vnx_loopback_lem}

infixl 5 ◌>>=◌
abbrev ◌>>=◌ {ℓ κ} : {A : Type ℓ} {B : Type κ} → Outcome A → (A → Outcome B) → Outcome B
done a >>= f = f a
blocked >>= f = blocked
out_of_fuel >>= f = out_of_fuel

-- The three kernels in a row; each gets `fuel` rounds.
pub exchange : ℕ → ℕ → Stream Flit → Stream ℕ → ℕ → Outcome (Received Routed)
exchange fuel fresh input cmd n = do
  s ← vnx_packetizer fuel fresh input cmd n
  r ← vnx_loopback fuel s.out
  vnx_depacketizer fuel r.1

copies-frames :
    (m : Message) (n j : ℕ) (ws : List Flit)
    → copies
        (λ (w : Routed). w.bits)
        (λ (w : Routed). w.keep)
        (m.bytes - 64 * j)
        (frames m n (suc j) ws)
      ≡ delivered m.bytes j ws
unfolding copies frames frame delivered
copies-frames m n j [] = refl
copies-frames m n j (w ∷ ws) =
    let e : m.bytes - 64 * j - 64 ≡ m.bytes - 64 * suc j = omega arith in
    let e' : m.bytes + 64 - 64 * suc j ≡ m.bytes - 64 * j = omega arith in
    rw (e, e', copies-frames m n (suc j) ws)

length-frames : (m : Message) (n j : ℕ) (ws : List Flit) → length (frames m n j ws) ≡ length ws
unfolding frames
length-frames m n j [] = refl
length-frames m n j (w ∷ ws) = ap suc (length-frames m n (suc j) ws)

module _ (fuel fresh n : ℕ) (m : Message) (ws : List Flit) (c : IsCommand m)
    (e : length ws ≡ payload_words m.bytes) (h : length ws < fuel) where
  -- The packetizer's words.
  abbrev sent_words : List Routed
  sent_words = frame m n 0 (header m fresh) ∷ frames m n 1 ws

  sent_count : header_count (frame m n 0 (header m fresh)).bits ≡ m.bytes
  unfolding frame
  sent_count = omega (arith, header_fields m fresh, c)

  sent_fields :
      (header_tag (frame m n 0 (header m fresh)).bits ≡ m.tag)
      × (header_src (frame m n 0 (header m fresh)).bits ≡ m.src)
      × (header_seq (frame m n 0 (header m fresh)).bits ≡ m.seq)
  unfolding frame
  sent_fields = omega (arith, header_fields m fresh, c)

  sent_payload :
      copies (λ (w : Routed). w.bits) (λ (w : Routed). w.keep) m.bytes (frames m n 1 ws)
      ≡ delivered m.bytes 0 ws
  sent_payload =
      let z : m.bytes - 64 * 0 ≡ m.bytes = omega arith in
      let l = copies-frames m n 0 ws in rw z at l

  sent_small : header_count (frame m n 0 (header m fresh)).bits < 2 ^ 31
  sent_small = rw sent_count (omega (arith, c))

  sent_length :
      length (frames m n 1 ws) ≡ payload_words (header_count (frame m n 0 (header m fresh)).bits)
  sent_length = length-frames m n 1 ws ∙ e ∙ ap payload_words (sym sent_count)

  enough : length (frames m n 1 ws) < fuel
  enough = rw (length-frames m n 1 ws) h

  returned : vnx_loopback fuel sent_words ≡ done ([], sent_words)
  returned =
      ap (vnx_loopback fuel) (sym (append-nil sent_words))
      ∙ vnx_loopback_lem fuel (frame m n 0 (header m fresh)) (frames m n 1 ws) [] sent_small
          sent_length enough

  unpacked :
      vnx_depacketizer fuel sent_words
      ≡ done (record {
        input = [];
        out = delivered m.bytes 0 ws;
        sts = m.bytes ∷ m.tag ∷ m.src ∷ m.seq ∷ [];
      })
  unfolding vnx_depacketizer
  unpacked =
      ap (vnx_depacketizer fuel) (sym (append-nil sent_words))
      ∙ depacketize_lem (λ (w : Routed). w.bits) (λ (w : Routed). w.keep) fuel
          (frame m n 0 (header m fresh)) (frames m n 1 ws) [] sent_small sent_length enough
      ∙ rw (sent_count, sent_payload, sent_fields.0, sent_fields.1, sent_fields.2)

-- A message sent, returned by the network and unpacked is the message: the status words are its
-- length, tag, source and sequence number, and the payload's words come in order with their
-- data, with lanes for exactly its bytes, and with TLAST on the last word only, however many
-- words the packets had. It holds where the words of the payload are at hand and the rounds
-- suffice. The command's fields fit their widths (the destination 16 bits, the others 32), and
-- message and header are below 2 ^ 31 bytes.
pub exchange_lem :
    (fuel fresh n : ℕ) (m : Message) (ws more : Stream Flit) (rest : Stream ℕ)
    → IsCommand m
    → length ws ≡ payload_words m.bytes
    → length ws + 1 < fuel
    → exchange fuel fresh (ws ++ more) (command m ++ rest) n
      ≡ done (record {
        input = [];
        out = delivered m.bytes 0 ws;
        sts = m.bytes ∷ m.tag ∷ m.src ∷ m.seq ∷ [];
      })
unfolding exchange
exchange_lem fuel fresh n m ws more rest c e h =
    let room : length ws < fuel = omega arith in
    rw (vnx_packetizer_lem fuel fresh n m ws more rest c e h)
      (rw (returned fuel fresh n m ws c e room) (unpacked fuel fresh n m ws c e room))
