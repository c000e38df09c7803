-- ===== src/Vnx/Packetizer.antt =====
-- kernel/hls/vnx_intf/vnx_packetizer.cpp: frames one message into words of 64 bytes.
use accl.Base.{
  ℕ, ◌+◌, ◌-◌, ◌%◌, ◌^◌, ◌==◌, if◌then◌else◌, get_range, u32, slt32, ltb, Option, none, some, [],
  ◌∷◌, Stream, write, Flit, Routed, Outcome, blocked, while_read, outcome_map,
}
use accl.Packet.Header.{
  Message, header, bytes_per_word, bytes_left, advance, is_last, next_pktsize, all_lanes,
}

-- `ap_uint<64> keep = 1; keep = keep << bytes_left; keep -= 1`
unfoldable pub tail_lanes : ℕ → ℕ
tail_lanes left = (2 ^ left % 2 ^ 64 + 2 ^ 64 - 1) % 2 ^ 64

-- The variables of the loop, with the streams that it reads and writes.
pub record Framing : Type 0 where
  pub input : Stream Flit
  pub out : Stream Routed
  pub pktsize : ℕ
  pub bytes_processed : ℕ

-- The five words of a command; `cmd.read()(15,0)` keeps 16 bits of the first.
unfoldable pub read_command : Stream ℕ → Option (Message × Stream ℕ)
read_command (dst ∷ bytes ∷ tag ∷ src ∷ seq ∷ rest) = some (
  record {
    dst = get_range 15 0 dst;
    bytes = u32 bytes;
    tag = u32 tag;
    src = u32 src;
    seq = u32 seq;
  },
  rest,
)
read_command _ = none

-- `int bytes_to_process = message_bytes + bytes_per_word`
unfoldable pub bytes_to_process : Message → ℕ
bytes_to_process m = u32 (m.bytes + bytes_per_word)

-- The data of the next word: the header first, then what `in` holds. `fresh` is what the new word
-- held before.
unfoldable pub next_data : Message → ℕ → Framing → Option (ℕ × Stream Flit)
next_data m fresh s =
    if s.bytes_processed == 0
    then some (header m fresh, s.input)
    else elim s.input [ [] ↦ none | word ∷ rest ↦ some (word.bits, rest) ]

-- The rest of a round, once the data of its word is there.
unfoldable pub send_word : Message → ℕ → Framing → ℕ × Stream Flit → Framing
unfolding bytes_to_process tail_lanes
send_word m max_pktsize s (bits, rest) =
    let left = bytes_left (bytes_to_process m) s.bytes_processed in
    record {
      input = rest;
      out = write s.out (record {
        bits = bits;
        keep = if ltb left bytes_per_word then tail_lanes left else all_lanes;
        last = is_last s.pktsize max_pktsize left;
        dest = m.dst;
      });
      pktsize = next_pktsize s.pktsize max_pktsize left;
      bytes_processed = advance s.bytes_processed left;
    }

-- One round of the loop.
unfoldable pub frame_word : Message → ℕ → ℕ → Framing → Option Framing
unfolding next_data send_word
frame_word m max_pktsize fresh s = elim (next_data m fresh s) [
  | none ↦ none
  | some d ↦ some (send_word m max_pktsize s d)
]

-- The loop.
unfoldable pub frame_words : ℕ → Message → ℕ → ℕ → Framing → Outcome Framing
unfolding while_read frame_word
frame_words fuel m max_pktsize fresh s =
    while_read fuel (λ (f : Framing). slt32 f.bytes_processed (bytes_to_process m))
      (frame_word m max_pktsize fresh) s

-- What a call of the kernel leaves: the input, the command stream, the words and the status sent.
pub record Sent : Type 0 where
  pub input : Stream Flit
  pub cmd : Stream ℕ
  pub out : Stream Routed
  pub sts : Stream ℕ

-- The whole kernel: one message.
unfoldable pub vnx_packetizer : ℕ → ℕ → Stream Flit → Stream ℕ → ℕ → Outcome Sent
vnx_packetizer fuel fresh input cmd max_pktsize = elim (read_command cmd) [
  | none ↦ blocked
  | some (m, rest) ↦
      outcome_map
        (λ (f : Framing). record { input = f.input; cmd = rest; out = f.out; sts = m.seq ∷ [] })
        (frame_words fuel m max_pktsize fresh
          (record { input = input; out = []; pktsize = 0; bytes_processed = 0 }))
]
