-- ===== src/Packet/Depacketizer/Laws.antt =====
-- A depacketizer with a whole message at hand copies it, and marks its end.
use accl.Base.{
  ℕ, zero, suc, ◌+◌, ◌-◌, ◌*◌, ◌%◌, ◌^◌, ◌<◌, ◌≡◌, ◌∙◌, ap, Bool, leb, slt32, some, List, [], ◌∷◌,
  ◌++◌, append-nil, append_assoc, length, Stream, write, Flit, done, arith, while_read_stop,
  while_read_next,
}
use accl.Packet.Header.{header_count, header_tag, header_src, header_seq, payload_words}
use accl.Packet.Depacketizer.{Unframing, copy_word, copy_words, depacketize}

module _ {W : Type 0} (bits keep : W → ℕ) where
  -- The words of a payload of `bytes` bytes as they are passed on: TLAST on the last one alone.
  unfoldable pub copies : ℕ → List W → List Flit
  copies left [] = []
  copies left (w ∷ ws) =
      record { bits = bits w; keep = keep w; last = leb left 64 } ∷ copies (left - 64) ws

  abbrev after : Stream W → Stream Flit → ℕ → Unframing W
  after input out count = record { input = input; out = out; count = count }

  abbrev more_to_copy : Unframing W → Bool
  more_to_copy u = slt32 0 u.count

  -- The count that is left when all words of `count` bytes are copied.
  abbrev final : ℕ → ℕ
  final count = (count + 2 ^ 32 - 64 * payload_words count) % 2 ^ 32

  copy_word_lem :
      (w : W) (rest : Stream W) (out : Stream Flit) (count : ℕ)
      → 0 < count
      → count < 2 ^ 31
      → copy_word bits keep (after (w ∷ rest) out count)
        ≡ some (
            after rest
              (write out (record { bits = bits w; keep = keep w; last = leb count 64 }))
              ((count + 2 ^ 32 - 64) % 2 ^ 32))
  unfolding copy_word
  copy_word_lem w rest out count p h = ground arith

  first_copy :
      (fuel : ℕ) (w : W) (rest : Stream W) (out : Stream Flit) (count : ℕ)
      → 0 < count
      → count < 2 ^ 31
      → copy_words bits keep (suc fuel) (after (w ∷ rest) out count)
        ≡ copy_words bits keep fuel (
            after rest
              (write out (record { bits = bits w; keep = keep w; last = leb count 64 }))
              ((count + 2 ^ 32 - 64) % 2 ^ 32))
  unfolding copy_words
  first_copy fuel w rest out count p h =
      while_read_next fuel more_to_copy (copy_word bits keep) (after (w ∷ rest) out count) _
        (ground arith) (copy_word_lem w rest out count p h)

  copy_words_lem :
      (fuel : ℕ) (ws more : Stream W) (out : Stream Flit) (count : ℕ)
      → count < 2 ^ 31
      → length ws ≡ payload_words count
      → length ws < fuel
      → copy_words bits keep fuel (after (ws ++ more) out count)
        ≡ done (after more (out ++ copies count ws) (final count))
  unfolding copy_words copies
  copy_words_lem zero ws more out count s e h = elim h [ ]
  copy_words_lem (suc fuel) [] more out count s e h =
      let z : count ≡ 0 = omega arith in
      while_read_stop fuel more_to_copy (copy_word bits keep) (after more out count) (ground arith)
      ∙ rw (append-nil, z)
  copy_words_lem (suc zero) (w ∷ []) more out count s e h = absurd (omega arith)
  copy_words_lem (suc (suc fuel)) (w ∷ []) more out count s e h =
      let spent : (count + 2 ^ 32 - 64) % 2 ^ 32 ≡ final count = omega arith in
      first_copy (suc fuel) w more out count (omega arith) s
      ∙ while_read_stop fuel more_to_copy (copy_word bits keep) (after more _ _) (ground arith)
      ∙ rw spent
  copy_words_lem (suc fuel) (w ∷ v ∷ ws) more out count s e h =
      let next : (count + 2 ^ 32 - 64) % 2 ^ 32 ≡ count - 64 = omega arith in
      let ends : final (count - 64) ≡ final count = omega arith in
      let out' : Stream Flit =
        write out (record { bits = bits w; keep = keep w; last = leb count 64 }) in
      first_copy fuel w (v ∷ ws ++ more) out count (omega arith) s
      ∙ ap (λ k. copy_words bits keep fuel (after (v ∷ ws ++ more) out' k)) next
      ∙ copy_words_lem fuel (v ∷ ws) more out' (count - 64) (omega arith) (omega arith)
          (omega arith)
      ∙ rw (ends, append_assoc)

  -- Where all words of a message stand in the input and the rounds suffice, the depacketizer
  -- ends: it takes exactly that message, reports the four header fields, and copies the
  -- payload's words in order. The header names fewer than 2 ^ 31 bytes, and the words are as
  -- many as its bytes need.
  pub depacketize_lem :
      (fuel : ℕ) (head : W) (ws more : Stream W)
      → header_count (bits head) < 2 ^ 31
      → length ws ≡ payload_words (header_count (bits head))
      → length ws < fuel
      → depacketize bits keep fuel (head ∷ ws ++ more)
        ≡ done (record {
          input = more;
          out = copies (header_count (bits head)) ws;
          sts =
              header_count (bits head)
              ∷ header_tag (bits head)
              ∷ header_src (bits head)
              ∷ header_seq (bits head)
              ∷ [];
        })
  unfolding depacketize
  depacketize_lem fuel head ws more s e h =
      rw (copy_words_lem fuel ws more [] (header_count (bits head)) s e h, depacketize)
