-- ===== src/Packet/Header.antt =====
-- The 64-byte message header and the counters that the packetizers share
-- (kernel/hls/vnx_intf and kernel/hls/tcp_intf: vnx_packetizer.cpp, tcp_packetizer.cpp and their
-- depacketizers repeat the same lines).

use accl.Base.{
  ℕ, ◌+◌, ◌-◌, ◌/◌, ◌^◌, Bool, ◌||◌, ltb, leb, ◌==◌, if◌then◌else◌, get_range, set_range, u32,
}

-- DATA_WIDTH / 8
abbrev pub bytes_per_word : ℕ
bytes_per_word = 64

-- What a command stream says of a message: where it goes, its length and its header fields. Each
-- is a 32-bit pattern.
pub record Message : Type 0 where
  pub dst : ℕ
  pub bytes : ℕ
  pub tag : ℕ
  pub src : ℕ
  pub seq : ℕ

-- The four range assignments that fill the header; `fresh` is what the word held before.
unfoldable pub header : Message → ℕ → ℕ
header m fresh =
    set_range 127 96 (set_range 95 64 (set_range 63 32 (set_range 31 0 fresh m.bytes) m.tag) m.src)
      m.seq

unfoldable pub header_count : ℕ → ℕ
header_count w = get_range 31 0 w

unfoldable pub header_tag : ℕ → ℕ
header_tag w = get_range 63 32 w

unfoldable pub header_src : ℕ → ℕ
header_src w = get_range 95 64 w

unfoldable pub header_seq : ℕ → ℕ
header_seq w = get_range 127 96 w

-- `int bytes_left = total - bytes_processed`
unfoldable pub bytes_left : ℕ → ℕ → ℕ
bytes_left total processed = u32 (total + 2 ^ 32 - processed)

-- `bytes_processed` after a word: by the bytes left if they are fewer than a word holds
unfoldable pub advance : ℕ → ℕ → ℕ
advance processed left =
    if ltb left bytes_per_word then u32 (processed + left) else u32 (processed + bytes_per_word)

-- TLAST: after every `max_pktsize` words, or when the bytes run out
unfoldable pub is_last : ℕ → ℕ → ℕ → Bool
is_last pktsize max_pktsize left = (u32 (pktsize + 1) == max_pktsize) || leb left bytes_per_word

-- `pktsize` after a word
unfoldable pub next_pktsize : ℕ → ℕ → ℕ → ℕ
unfolding is_last
next_pktsize pktsize max_pktsize left =
    if is_last pktsize max_pktsize left then 0 else u32 (pktsize + 1)

-- All the byte lanes of a word (`keep = -1`).
abbrev pub all_lanes : ℕ
all_lanes = 2 ^ 64 - 1

-- The first `k` byte lanes of a word.
abbrev pub lanes : ℕ → ℕ
lanes k = 2 ^ k - 1

-- The number of words of a payload.
abbrev pub payload_words : ℕ → ℕ
payload_words bytes = (bytes + 63) / 64
