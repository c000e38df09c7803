-- ===== src/Packet/Bounds.antt =====
-- The header keeps its fields, and the counters do not wrap below 2 ^ 31 bytes.
use Prim.Native.Nat.{min}
use native.Mathlib.Nat.{mod-lt, mod-add-mod}
use accl.Base.{
  ℕ, zero, suc, ◌+◌, ◌-◌, ◌*◌, ◌%◌, ◌^◌, ◌≤◌, ◌<◌, ◌≡◌, arith, u32, leb, ◌==◌, ◌||◌, if◌then◌else◌,
  ap, sym, ◌∙◌,
}
use accl.Packet.Header.{
  Message, header, header_count, header_tag, header_src, header_seq, bytes_left, advance, is_last,
  next_pktsize,
}

-- The four fields of a header read back as they were written, whatever the word held before.
pub header_fields :
    (m : Message) (fresh : ℕ)
    → (header_count (header m fresh) ≡ u32 m.bytes)
      × (header_tag (header m fresh) ≡ u32 m.tag)
      × (header_src (header m fresh) ≡ u32 m.src)
      × (header_seq (header m fresh) ≡ u32 m.seq)
unfolding header header_count header_tag header_src header_seq
header_fields m fresh = omega arith

-- The bytes sent after `i` words of a message of `total` bytes.
abbrev pub sent : ℕ → ℕ → ℕ
sent total i = min (64 * i) total

pub bytes_left-sent :
    (total i : ℕ)
    → total < 2 ^ 31
    → 64 * i < total
    → bytes_left total (sent total i) ≡ total - 64 * i
unfolding bytes_left
bytes_left-sent total i h k = omega arith

pub advance-sent :
    (total i : ℕ)
    → total < 2 ^ 31
    → 64 * i < total
    → advance (sent total i) (total - 64 * i) ≡ sent total (suc i)
unfolding advance
advance-sent total i h k = ground arith

-- One more word, modulo the words of a packet.
mod_next : (r n : ℕ) → r < n → (r + 1) % n ≡ (if (r + 1) == n then 0 else r + 1)
mod_next r n p = grind arith

mod-suc : (i n : ℕ) → suc i % n ≡ (if (i % n + 1) == n then 0 else i % n + 1)
mod-suc i zero = ground arith
mod-suc i (suc k) =
    let e : suc i % suc k ≡ (i % suc k + 1) % suc k =
      ap (λ x. x % suc k) (omega arith) ∙ sym (mod-add-mod i (suc k) 1) in
    e ∙ mod_next (i % suc k) (suc k) (mod-lt i (omega arith))

mod-le : (i n : ℕ) → i % n ≤ i
mod-le i n = omega arith

-- TLAST falls on each word whose number is a multiple of the packet's size, and on the last one.
pub is_last-sent :
    (total i n : ℕ)
    → total < 2 ^ 31
    → 64 * i < total
    → is_last (i % n) n (total - 64 * i) ≡ ((suc i % n == 0) || leb total (64 * suc i))
unfolding is_last
is_last-sent total i n h k = ground (arith, mod-suc i n, mod-le i n)

-- The counter of the words of a packet.
abbrev pub in_packet : ℕ → ℕ → ℕ → ℕ
in_packet total n i = if leb total (64 * i) then 0 else i % n

pub next_pktsize-sent :
    (total i n : ℕ)
    → total < 2 ^ 31
    → 64 * i < total
    → next_pktsize (i % n) n (total - 64 * i) ≡ in_packet total n (suc i)
unfolding next_pktsize
next_pktsize-sent total i n h k = ground (arith, mod-suc i n, mod-le i n)
