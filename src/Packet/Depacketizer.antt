-- ===== src/Packet/Depacketizer.antt =====
-- The depacketizer: takes the header off one message. kernel/hls/vnx_intf/vnx_depacketizer.cpp and
-- kernel/hls/tcp_intf/tcp_depacketizer.cpp are the same text over two types of input word, so the
-- model is over any type of word with data and byte lanes.
pub mod Laws
use accl.Base.{
  ℕ, ◌+◌, ◌-◌, ◌%◌, ◌^◌, u32, slt32, Option, none, some, [], ◌∷◌, not, Stream, write, Flit, Outcome,
  blocked, while_read, outcome_map,
}
use accl.Packet.Header.{header_count, header_tag, header_src, header_seq, bytes_per_word}

-- The variables of the loop, with the streams that it reads and writes.
pub record Unframing (W : Type 0) : Type 0 where
  pub input : Stream W
  pub out : Stream Flit
  pub count : ℕ

-- What a call leaves: the input, the words sent and the four words of status.
pub record Received (W : Type 0) : Type 0 where
  pub input : Stream W
  pub out : Stream Flit
  pub sts : Stream ℕ

module _ {W : Type 0} (bits keep : W → ℕ) where
  -- One round: `last` is raised on the word after which no byte is missing.
  unfoldable pub copy_word : Unframing W → Option (Unframing W)
  copy_word s = elim s.input [
    | [] ↦ none
    | word ∷ rest ↦
        let count = u32 (s.count + 2 ^ 32 - bytes_per_word) in
        some (record {
          input = rest;
          out =
              write s.out
                (record { bits = bits word; keep = keep word; last = not (slt32 0 count) });
          count = count;
        })
  ]

  -- `while (count > 0)`
  unfoldable pub copy_words : ℕ → Unframing W → Outcome (Unframing W)
  copy_words fuel s = while_read fuel (λ (u : Unframing W). slt32 0 u.count) copy_word s

  -- The whole kernel: one message.
  unfoldable pub depacketize : ℕ → Stream W → Outcome (Received W)
  depacketize fuel input = elim input [
    | [] ↦ blocked
    | word ∷ rest ↦
        let w = bits word in
        outcome_map
          (λ (u : Unframing W). record {
            input = u.input;
            out = u.out;
            sts = header_count w ∷ header_tag w ∷ header_src w ∷ header_seq w ∷ [];
          })
          (copy_words fuel (record { input = rest; out = []; count = header_count w }))
  ]
