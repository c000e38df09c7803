-- ===== src/Tcp/Frames.antt =====
-- The words that tcp_packetizer.cpp sends, described by their position in the message.
use Prim.Native.Nat.{min}
use accl.Base.{
  ℕ, zero, suc, ◌+◌, ◌-◌, ◌*◌, ◌%◌, ◌^◌, ◌≤◌, ◌<◌, ◌≡◌, ◌⊎◌, inl, inr, ◌∙◌, Bool, false, ◌||◌, ◌==◌,
  leb, ltb, if◌then◌else◌, slt32, some, List, [], ◌∷◌, ◌++◌, append-nil, append_assoc, length,
  Stream, write, Flit, done, arith, while_read_stop, while_read_next, lt→ltb, le→not_ltb,
}
use accl.Packet.Header.{Message, header, all_lanes, lanes, payload_words}
use accl.Packet.Bounds.{
  sent, in_packet, bytes_left-sent, advance-sent, is_last-sent, next_pktsize-sent,
}
use accl.Vnx.Frames.{command, IsCommand, read_command_lem}
use accl.Tcp.Packetizer.{
  Framing, tail_keep, tx_command, send_word, send_words, send_message, tcp_packetizer,
}

-- The byte mask of a word with `left` bytes to go.
unfoldable pub mask : (ℕ → ℕ) → ℕ → ℕ
mask undefined left = if ltb left 64 then tail_keep undefined left else all_lanes

-- Word `i` of the payload: TLAST after every `n` words, and at the end of the message.
unfoldable pub frame : (ℕ → ℕ) → ℕ → ℕ → ℕ → ℕ → Flit
frame undefined bytes n i w = record {
  bits = w;
  keep = mask undefined (bytes - 64 * i);
  last = (suc i % n == 0) || leb bytes (64 * suc i);
}

unfoldable pub frames : (ℕ → ℕ) → ℕ → ℕ → ℕ → List Flit → List Flit
frames undefined bytes n i [] = []
frames undefined bytes n i (w ∷ ws) =
    frame undefined bytes n i w.bits ∷ frames undefined bytes n (suc i) ws

-- The mask names the bytes that are left, where the shift is defined.
pub mask-eq-lanes :
    (undefined : ℕ → ℕ) (left : ℕ)
    → (left < 31) ⊎ (64 ≤ left)
    → mask undefined left ≡ lanes (min 64 left)
unfolding mask tail_keep
mask-eq-lanes undefined left (inl h) =
    let e : min 64 left ≡ left = omega arith in
    rw (lt→ltb left 64 (omega arith), lt→ltb left 31 h, e)
mask-eq-lanes undefined left (inr h) =
    let e : min 64 left ≡ 64 = omega arith in rw (le→not_ltb left 64 h, e)

module _ (undefined : ℕ → ℕ) (m : Message) (n : ℕ) (small : m.bytes < 2 ^ 31) where
  -- The loop's variables when `i` words of payload are sent.
  abbrev at_word : ℕ → Stream Flit → Stream Flit → Framing
  at_word i input out = record {
    input = input;
    out = out;
    pktsize = in_packet m.bytes n i;
    bytes_processed = sent m.bytes i;
  }

  send_word_lem :
      (i : ℕ) (w : Flit) (rest out : Stream Flit)
      → 64 * i < m.bytes
      → send_word undefined m n (at_word i (w ∷ rest) out)
        ≡ some (at_word (suc i) rest (write out (frame undefined m.bytes n i w.bits)))
  unfolding send_word frame mask
  send_word_lem i w rest out h =
      let left = bytes_left-sent m.bytes i small h in
      let p : in_packet m.bytes n i ≡ i % n = ground arith in
      rw (
        left,
        p,
        is_last-sent m.bytes i n small h,
        next_pktsize-sent m.bytes i n small h,
        advance-sent m.bytes i small h,
      )

  abbrev more_to_send : Framing → Bool
  more_to_send f = slt32 f.bytes_processed m.bytes

  more_lem :
      (i : ℕ) (input out : Stream Flit) → more_to_send (at_word i input out) ≡ ltb (64 * i) m.bytes
  more_lem i input out = ground arith

  send_words_lem :
      (fuel i : ℕ) (ws more out : Stream Flit)
      → length ws + i ≡ payload_words m.bytes
      → length ws < fuel
      → send_words fuel undefined m n (at_word i (ws ++ more) out)
        ≡ done (at_word (payload_words m.bytes) more (out ++ frames undefined m.bytes n i ws))
  unfolding send_words frames
  send_words_lem zero i ws more out e h = elim h [ ]
  send_words_lem (suc fuel) i [] more out e h =
      let e' : i ≡ payload_words m.bytes = omega arith in
      while_read_stop fuel more_to_send (send_word undefined m n) (at_word i more out)
        (more_lem i more out ∙ le→not_ltb _ _ (omega arith))
      ∙ rw (append-nil, e')
  send_words_lem (suc fuel) i (w ∷ ws) more out e h =
      while_read_next fuel more_to_send (send_word undefined m n) (at_word i (w ∷ ws ++ more) out) _
        (more_lem i (w ∷ ws ++ more) out ∙ lt→ltb _ _ (omega arith))
        (send_word_lem i w (ws ++ more) out (omega arith))
      ∙ send_words_lem fuel (suc i) ws more (write out (frame undefined m.bytes n i w.bits))
          (omega arith) (omega arith)
      ∙ rw append_assoc

  send_message_lem :
      (fuel fresh : ℕ) (w : Flit) (ws more : Stream Flit)
      → suc (length ws) ≡ payload_words m.bytes
      → suc (length ws) < fuel
      → send_message fuel undefined m n fresh (w ∷ ws ++ more)
        ≡ done (
            at_word (payload_words m.bytes) more (
              record { bits = header m fresh; keep = all_lanes; last = false }
              ∷ frames undefined m.bytes n 0 (w ∷ ws)))
  unfolding send_message
  send_message_lem fuel fresh w ws more e h =
      let z : in_packet m.bytes n 0 ≡ 0 = ground arith in
      let z' : sent m.bytes 0 ≡ 0 = omega arith in
      let l =
        send_words_lem fuel 0 (w ∷ ws) more
          (record { bits = header m fresh; keep = all_lanes; last = false } ∷ []) (omega arith) h in
      rw (z, z') at l

-- The header word.
abbrev pub header_word : Message → ℕ → Flit
header_word m fresh = record { bits = header m fresh; keep = all_lanes; last = false }

-- With the words of a non-empty message at hand and enough rounds, the packetizer ends: it takes
-- one command and exactly those words, and sends the header without TLAST, the words in order,
-- one command for the transmit handler, and the sequence number. The command's fields fit their
-- widths (the destination 16 bits, the others 32), and message and header are below 2 ^ 31
-- bytes.
pub tcp_packetizer_lem :
    (fuel : ℕ) (undefined : ℕ → ℕ) (fresh fresh_cmd n : ℕ) (m : Message) (ws more : Stream Flit)
    (rest : Stream ℕ)
    → IsCommand m
    → 0 < m.bytes
    → length ws ≡ payload_words m.bytes
    → length ws < fuel
    → tcp_packetizer fuel undefined fresh fresh_cmd (ws ++ more) (command m ++ rest) n
      ≡ done (record {
        input = more;
        cmd = rest;
        out = header_word m fresh ∷ frames undefined m.bytes n 0 ws;
        cmd_tx_handler = tx_command m n fresh_cmd ∷ [];
        sts = m.seq ∷ [];
      })
unfolding tcp_packetizer
tcp_packetizer_lem fuel undefined fresh fresh_cmd n m [] more rest c p e h = absurd (omega arith)
tcp_packetizer_lem fuel undefined fresh fresh_cmd n m (w ∷ ws) more rest c p e h = rw (
  read_command_lem m rest c,
  send_message_lem undefined m n (omega arith) fuel fresh w ws more e h,
  tcp_packetizer,
)
