-- ===== src/Tcp/Packetizer.antt =====
-- kernel/hls/tcp_intf/tcp_packetizer.cpp: frames one message for the TCP stack, and tells the
-- transmit handler of it. The header word does not count towards a packet, unlike in the UDP
-- packetizer.
use accl.Base.{
  ℕ, false, set_range, slt32, ltb, if◌then◌else◌, Option, none, some, [], ◌∷◌, Stream, write, Flit,
  Outcome, blocked, while_read, outcome_map,
}
use accl.Packet.Header.{
  Message, header, bytes_per_word, bytes_left, advance, is_last, next_pktsize, all_lanes, lanes,
}
use accl.Vnx.Packetizer.{read_command, bytes_to_process}

-- The variables of the loop, with the streams that it reads and writes.
pub record Framing : Type 0 where
  pub input : Stream Flit
  pub out : Stream Flit
  pub pktsize : ℕ
  pub bytes_processed : ℕ

-- `(1 << bytes_left)-1`, a shift of an `int`: what it gives for 31 bits and more is not defined by
-- the language, and is the parameter `undefined`.
unfoldable pub tail_keep : (ℕ → ℕ) → ℕ → ℕ
tail_keep undefined left = if ltb left 31 then lanes left else undefined left

-- The three range assignments of the command for the transmit handler.
unfoldable pub tx_command : Message → ℕ → ℕ → ℕ
unfolding bytes_to_process
tx_command m max_pktsize fresh =
    set_range 95 64 (set_range 63 32 (set_range 31 0 fresh m.dst) (bytes_to_process m)) max_pktsize

-- One round of the loop; it waits for a word.
unfoldable pub send_word : (ℕ → ℕ) → Message → ℕ → Framing → Option Framing
send_word undefined m max_pktsize s = elim s.input [
  | [] ↦ none
  | word ∷ rest ↦
      let left = bytes_left m.bytes s.bytes_processed in
      some (record {
        input = rest;
        out = write s.out (record {
          bits = word.bits;
          keep = if ltb left bytes_per_word then tail_keep undefined left else all_lanes;
          last = is_last s.pktsize max_pktsize left;
        });
        pktsize = next_pktsize s.pktsize max_pktsize left;
        bytes_processed = advance s.bytes_processed left;
      })
]

-- The loop that sends the message.
unfoldable pub send_words : ℕ → (ℕ → ℕ) → Message → ℕ → Framing → Outcome Framing
send_words fuel undefined m max_pktsize s =
    while_read fuel (λ (f : Framing). slt32 f.bytes_processed m.bytes)
      (send_word undefined m max_pktsize) s

-- What a call of the kernel leaves.
pub record Sent : Type 0 where
  pub input : Stream Flit
  pub cmd : Stream ℕ
  pub out : Stream Flit
  pub cmd_tx_handler : Stream ℕ
  pub sts : Stream ℕ

-- The header is sent once a first word of payload is there, and takes none.
unfoldable pub send_message : ℕ → (ℕ → ℕ) → Message → ℕ → ℕ → Stream Flit → Outcome Framing
send_message fuel undefined m max_pktsize fresh input = elim input [
  | [] ↦ blocked
  | word ∷ rest ↦ send_words fuel undefined m max_pktsize (record {
    input = word ∷ rest;
    out = record { bits = header m fresh; keep = all_lanes; last = false } ∷ [];
    pktsize = 0;
    bytes_processed = 0;
  })
]

-- The whole kernel: one message. `fresh` and `fresh_cmd` are what its two words held before.
unfoldable pub tcp_packetizer : ℕ → (ℕ → ℕ) → ℕ → ℕ → Stream Flit → Stream ℕ → ℕ → Outcome Sent
tcp_packetizer fuel undefined fresh fresh_cmd input cmd max_pktsize = elim (read_command cmd) [
  | none ↦ blocked
  | some (m, rest) ↦
      outcome_map
        (λ (f : Framing). record {
          input = f.input;
          cmd = rest;
          out = f.out;
          cmd_tx_handler = tx_command m max_pktsize fresh_cmd ∷ [];
          sts = m.seq ∷ [];
        })
        (send_message fuel undefined m max_pktsize fresh input)
]
