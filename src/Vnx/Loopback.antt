-- ===== src/Vnx/Loopback.antt =====
-- demo/build/hls/loopback/vnx_loopback.cpp: returns a message to the network as it came.
use accl.Base.{
  ℕ, zero, suc, ◌+◌, ◌-◌, ◌*◌, ◌%◌, ◌^◌, ◌<◌, ◌≡◌, refl, ◌∙◌, ap, Bool, u32, slt32, Option, none,
  some, [], ◌∷◌, ◌++◌, append-nil, append_assoc, length, Stream, write, Routed, Outcome, done,
  blocked, while_read, outcome_map, arith, while_read_stop, while_read_next,
}
use accl.Packet.Header.{header_count, bytes_per_word, payload_words}

-- The two streams and the bytes that are still to come.
pub record Loop : Type 0 where
  pub input : Stream Routed
  pub out : Stream Routed
  pub count : ℕ

-- `out.write(in.read()); count -= bytes_per_word`
unfoldable pub return_word : Loop → Option Loop
return_word s = elim s.input [
  | [] ↦ none
  | word ∷ rest ↦ some (record {
    input = rest;
    out = write s.out word;
    count = u32 (s.count + 2 ^ 32 - bytes_per_word);
  })
]

unfoldable pub return_words : ℕ → Loop → Outcome Loop
return_words fuel s = while_read fuel (λ (l : Loop). slt32 0 l.count) return_word s

-- The whole kernel: one message. The result is what is left of the input, and the output.
unfoldable pub vnx_loopback : ℕ → Stream Routed → Outcome (Stream Routed × Stream Routed)
vnx_loopback fuel input = elim input [
  | [] ↦ blocked
  | tmp ∷ rest ↦
      outcome_map (λ (l : Loop). (l.input, l.out))
        (return_words fuel (record { input = rest; out = tmp ∷ []; count = header_count tmp.bits }))
]

abbrev after : Stream Routed → Stream Routed → ℕ → Loop
after input out count = record { input = input; out = out; count = count }

abbrev more_to_return : Loop → Bool
more_to_return l = slt32 0 l.count

abbrev final : ℕ → ℕ
final count = (count + 2 ^ 32 - 64 * payload_words count) % 2 ^ 32

first_return :
    (fuel : ℕ) (w : Routed) (rest out : Stream Routed) (count : ℕ)
    → 0 < count
    → count < 2 ^ 31
    → return_words (suc fuel) (after (w ∷ rest) out count)
      ≡ return_words fuel (after rest (write out w) ((count + 2 ^ 32 - 64) % 2 ^ 32))
unfolding return_words return_word
first_return fuel w rest out count p h =
    while_read_next fuel more_to_return return_word (after (w ∷ rest) out count) _ (ground arith)
      refl

return_words_lem :
    (fuel : ℕ) (ws more out : Stream Routed) (count : ℕ)
    → count < 2 ^ 31
    → length ws ≡ payload_words count
    → length ws < fuel
    → return_words fuel (after (ws ++ more) out count) ≡ done (after more (out ++ ws) (final count))
unfolding return_words
return_words_lem zero ws more out count s e h = elim h [ ]
return_words_lem (suc fuel) [] more out count s e h =
    let z : count ≡ 0 = omega arith in
    while_read_stop fuel more_to_return return_word (after more out count) (ground arith)
    ∙ rw (append-nil, z)
return_words_lem (suc zero) (w ∷ []) more out count s e h = absurd (omega arith)
return_words_lem (suc (suc fuel)) (w ∷ []) more out count s e h =
    let spent : (count + 2 ^ 32 - 64) % 2 ^ 32 ≡ final count = omega arith in
    first_return (suc fuel) w more out count (omega arith) s
    ∙ while_read_stop fuel more_to_return return_word (after more (write out w) _) (ground arith)
    ∙ rw spent
return_words_lem (suc fuel) (w ∷ v ∷ ws) more out count s e h =
    let next : (count + 2 ^ 32 - 64) % 2 ^ 32 ≡ count - 64 = omega arith in
    let ends : final (count - 64) ≡ final count = omega arith in
    first_return fuel w (v ∷ ws ++ more) out count (omega arith) s
    ∙ ap (λ k. return_words fuel (after (v ∷ ws ++ more) (write out w) k)) next
    ∙ return_words_lem fuel (v ∷ ws) more (write out w) (count - 64) (omega arith) (omega arith)
        (omega arith)
    ∙ rw (ends, append_assoc)

-- A message that is there whole comes back unchanged, destinations and TLAST included, and
-- nothing behind it is taken. The header names fewer than 2 ^ 31 bytes, the words are as many as
-- its bytes need, and the rounds suffice.
pub vnx_loopback_lem :
    (fuel : ℕ) (head : Routed) (ws more : Stream Routed)
    → header_count head.bits < 2 ^ 31
    → length ws ≡ payload_words (header_count head.bits)
    → length ws < fuel
    → vnx_loopback fuel (head ∷ ws ++ more) ≡ done (more, head ∷ ws)
unfolding vnx_loopback
vnx_loopback_lem fuel head ws more s e h =
    rw (return_words_lem fuel ws more (head ∷ []) (header_count head.bits) s e h, vnx_loopback)
