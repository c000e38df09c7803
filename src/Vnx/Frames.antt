-- ===== src/Vnx/Frames.antt =====
-- The words that vnx_packetizer.cpp sends, described by their position in the message.
use Prim.Native.Nat.{min}
use accl.Vnx.Lanes.{tail_lanes-eq-lanes}
use accl.Base.{
  ℕ, zero, suc, ◌+◌, ◌-◌, ◌*◌, ◌%◌, ◌^◌, ◌<◌, ◌≡◌, refl, ◌∙◌, ap, Bool, ◌||◌, ◌==◌, leb, ltb,
  if◌then◌else◌, slt32, some, List, [], ◌∷◌, ◌++◌, append-nil, append_assoc, length, Stream, write,
  Flit, Routed, done, arith, outcome_map, while_read_stop, while_read_next, ltb→lt, not_ltb→le, inl,
  inr, Bool-cases, lt→ltb, le→not_ltb,
}
use accl.Packet.Header.{Message, header, all_lanes, lanes, payload_words}
use accl.Packet.Bounds.{
  sent, in_packet, bytes_left-sent, advance-sent, is_last-sent, next_pktsize-sent,
}
use accl.Vnx.Packetizer.{
  Framing, tail_lanes, bytes_to_process, next_data, send_word, frame_word, frame_words,
  read_command, vnx_packetizer,
}

-- The word at position `i` of the stream of a message: as many lanes as bytes are left, TLAST at
-- the end of a packet of `n` words and at the end of the message.
unfoldable pub frame : Message → ℕ → ℕ → ℕ → Routed
frame m n i w =
    let total = m.bytes + 64 in
    record {
      bits = w;
      keep = lanes (min 64 (total - 64 * i));
      last = (suc i % n == 0) || leb total (64 * suc i);
      dest = m.dst;
    }

unfoldable pub frames : Message → ℕ → ℕ → List Flit → List Routed
frames m n i [] = []
frames m n i (w ∷ ws) = frame m n i w.bits ∷ frames m n (suc i) ws

keep-sent : (left : ℕ) → (if ltb left 64 then tail_lanes left else all_lanes) ≡ lanes (min 64 left)
keep-sent left = elim (Bool-cases (ltb left 64)) [
  | inl p ↦
      let small = ltb→lt left 64 p in
      let e : min 64 left ≡ left = omega arith in rw (p, e) (tail_lanes-eq-lanes left small)
  | inr p ↦ let big = not_ltb→le left 64 p in let e : min 64 left ≡ 64 = omega arith in rw (p, e)
]

bytes_to_process_lem : (m : Message) → m.bytes + 64 < 2 ^ 31 → bytes_to_process m ≡ m.bytes + 64
unfolding bytes_to_process
bytes_to_process_lem m h = omega arith

module _ (m : Message) (n fresh : ℕ) (small : m.bytes + 64 < 2 ^ 31) where
  -- The loop's variables when `i` words are sent.
  abbrev at_word : ℕ → Stream Flit → Stream Routed → Framing
  at_word i input out = record {
    input = input;
    out = out;
    pktsize = in_packet (m.bytes + 64) n i;
    bytes_processed = sent (m.bytes + 64) i;
  }

  send_word_lem :
      (i w : ℕ) (input rest : Stream Flit) (out : Stream Routed)
      → 64 * i < m.bytes + 64
      → send_word m n (at_word i input out) (w, rest)
        ≡ at_word (suc i) rest (write out (frame m n i w))
  unfolding send_word frame
  send_word_lem i w input rest out h =
      let b = bytes_to_process_lem m small in
      let left = bytes_left-sent (m.bytes + 64) i small h in
      let p : in_packet (m.bytes + 64) n i ≡ i % n = ground arith in
      rw
        (
          b,
          left,
          p,
          keep-sent,
          is_last-sent (m.bytes + 64) i n small h,
          next_pktsize-sent (m.bytes + 64) i n small h,
          advance-sent (m.bytes + 64) i small h,
        )
        refl

  frame_word_lem :
      (s : Framing) (d : ℕ × Stream Flit)
      → next_data m fresh s ≡ some d
      → frame_word m n fresh s ≡ some (send_word m n s d)
  unfolding frame_word
  frame_word_lem s d e = rw (e, frame_word)

  abbrev start : Stream Flit → Framing
  start input = record { input = input; out = []; pktsize = 0; bytes_processed = 0 }

  start_lem : (input : Stream Flit) → start input ≡ at_word 0 input []
  start_lem input = ground arith

  header_word_lem :
      (input : Stream Flit)
      → frame_word m n fresh (start input)
        ≡ some (at_word 1 input (frame m n 0 (header m fresh) ∷ []))
  unfolding next_data
  header_word_lem input =
      frame_word_lem (start input) (header m fresh, input) refl
      ∙ ap some (
          ap (λ s. send_word m n s (header m fresh, input)) (start_lem input)
          ∙ send_word_lem 0 (header m fresh) input input [] (omega arith))

  next_data_lem :
      (i : ℕ) (w : Flit) (rest : Stream Flit) (out : Stream Routed)
      → next_data m fresh (at_word (suc i) (w ∷ rest) out) ≡ some (w.bits, rest)
  unfolding next_data
  next_data_lem i w rest out = ground arith

  payload_word_lem :
      (i : ℕ) (w : Flit) (rest : Stream Flit) (out : Stream Routed)
      → 64 * suc i < m.bytes + 64
      → frame_word m n fresh (at_word (suc i) (w ∷ rest) out)
        ≡ some (at_word (suc (suc i)) rest (write out (frame m n (suc i) w.bits)))
  payload_word_lem i w rest out h =
      frame_word_lem (at_word (suc i) (w ∷ rest) out) (w.bits, rest) (next_data_lem i w rest out)
      ∙ ap some (send_word_lem (suc i) w.bits (w ∷ rest) rest out h)

  abbrev more_to_send : Framing → Bool
  more_to_send f = slt32 f.bytes_processed (bytes_to_process m)

  more_lem :
      (i : ℕ) (input : Stream Flit) (out : Stream Routed)
      → more_to_send (at_word i input out) ≡ ltb (64 * i) (m.bytes + 64)
  more_lem i input out = rw (bytes_to_process_lem m small) (ground arith)

  frame_words_lem :
      (fuel : ℕ) (i : ℕ) (ws more : Stream Flit) (out : Stream Routed)
      → length ws + suc i ≡ payload_words m.bytes + 1
      → length ws < fuel
      → frame_words fuel m n fresh (at_word (suc i) (ws ++ more) out)
        ≡ done (at_word (payload_words m.bytes + 1) more (out ++ frames m n (suc i) ws))
  unfolding frame_words frames
  frame_words_lem zero i ws more out e h = elim h [ ]
  frame_words_lem (suc fuel) i [] more out e h =
      let e' : suc i ≡ payload_words m.bytes + 1 = omega arith in
      while_read_stop fuel more_to_send (frame_word m n fresh) (at_word (suc i) more out)
        (more_lem (suc i) more out ∙ le→not_ltb _ _ (omega arith))
      ∙ rw (append-nil, e')
  frame_words_lem (suc fuel) i (w ∷ ws) more out e h =
      while_read_next fuel more_to_send (frame_word m n fresh)
        (at_word (suc i) (w ∷ ws ++ more) out) _
        (more_lem (suc i) (w ∷ ws ++ more) out ∙ lt→ltb _ _ (omega arith))
        (payload_word_lem i w (ws ++ more) out (omega arith))
      ∙ frame_words_lem fuel (suc i) ws more (write out (frame m n (suc i) w.bits)) (omega arith)
          (omega arith)
      ∙ rw append_assoc

  frame_message_lem :
      (fuel : ℕ) (ws more : Stream Flit)
      → length ws ≡ payload_words m.bytes
      → length ws < fuel
      → frame_words (suc fuel) m n fresh (start (ws ++ more))
        ≡ done (
            at_word
              (payload_words m.bytes + 1)
              more
              (frame m n 0 (header m fresh) ∷ frames m n 1 ws))
  unfolding frame_words
  frame_message_lem fuel ws more e h =
      while_read_next fuel more_to_send (frame_word m n fresh) (start (ws ++ more)) _
        (ap more_to_send (start_lem (ws ++ more))
          ∙ more_lem 0 (ws ++ more) []
          ∙ lt→ltb _ _ (omega arith))
        (header_word_lem (ws ++ more))
      ∙ frame_words_lem fuel 0 ws more (frame m n 0 (header m fresh) ∷ []) (omega arith) h

-- A command for the packetizer, as it stands in the command stream.
abbrev pub command : Message → Stream ℕ
command m = m.dst ∷ m.bytes ∷ m.tag ∷ m.src ∷ m.seq ∷ []

-- The fields of a command that the kernel keeps whole.
pub record IsCommand (m : Message) : Type 0 where
  pub dst_fits : m.dst < 2 ^ 16
  pub small : m.bytes + 64 < 2 ^ 31
  pub tag_fits : m.tag < 2 ^ 32
  pub src_fits : m.src < 2 ^ 32
  pub seq_fits : m.seq < 2 ^ 32

pub read_command_lem :
    (m : Message) (rest : Stream ℕ)
    → IsCommand m
    → read_command (command m ++ rest) ≡ some (m, rest)
unfolding read_command
read_command_lem m rest c = ground arith

-- With the words of one message at hand (`ws`, as many as its bytes need) and enough rounds, the
-- packetizer ends: it takes one command and exactly those words, and sends the header and the
-- words framed in order, and acknowledges the sequence number. The command's fields fit their
-- widths (the destination 16 bits, the others 32), and message and header are below 2 ^ 31
-- bytes.
pub vnx_packetizer_lem :
    (fuel fresh n : ℕ) (m : Message) (ws more : Stream Flit) (rest : Stream ℕ)
    → IsCommand m
    → length ws ≡ payload_words m.bytes
    → length ws + 1 < fuel
    → vnx_packetizer fuel fresh (ws ++ more) (command m ++ rest) n
      ≡ done (record {
        input = more;
        cmd = rest;
        out = frame m n 0 (header m fresh) ∷ frames m n 1 ws;
        sts = m.seq ∷ [];
      })
unfolding vnx_packetizer
vnx_packetizer_lem zero fresh n m ws more rest c e h = elim h [ ]
vnx_packetizer_lem (suc fuel) fresh n m ws more rest c e h =
    rw (read_command_lem m rest c, vnx_packetizer)
      (ap
        (outcome_map
          (λ (f : Framing). record { input = f.input; cmd = rest; out = f.out; sts = m.seq ∷ [] }))
        (frame_message_lem m n fresh c.small fuel ws more e (omega arith)))
