-- ===== src/Firmware/Packetizer/Messages.antt =====
-- The messages that are put for the packetizer are those of the transactions of a movement.
use accl.Base.{
  ℕ, zero, suc, ◌+◌, ◌-◌, ◌<◌, ◌≡◌, refl, sym, ap, ◌∙◌, ltb, lt→ltb, if◌then◌else◌, u32, List, [],
  ◌∷◌, take, length, arith,
}
use accl.Firmware.Machine.{
  Machine, Rank, M, ok, pure, and_then, gets_of, ◌>>=◌, ◌>>◌, bind_assoc, bind_cong,
}
use accl.Firmware.Pipeline.{curr_len}
use accl.Firmware.Pipeline.Schedule.{Cut, cuts, cuts-Cut}
use accl.Firmware.Cmd
use accl.Firmware.Comm.{World, rank_at}
use accl.Firmware.Packetizer.{put_message, put_messages, start_packetizer_message}

-- One message for each length of a list, with consecutive sequence numbers after `seq`.
unfoldable pub numbered : (ℕ → ℕ → M (Unit {0})) → List ℕ → ℕ → M (Unit {0})
numbered message [] seq = pure tt
numbered message (x ∷ xs) seq = do message x (u32 (seq + 1)); numbered message xs (u32 (seq + 1))

-- The two ways to write the length of the next one.
same_len : (size len : ℕ) → (if ltb size len then size else len) ≡ curr_len size len
unfolding curr_len
same_len size len = ground arith

put_next :
    (size : ℕ) (message : ℕ → ℕ → M (Unit {0})) (k i len seq : ℕ) (m : Machine)
    → 0 < len
    → put_messages size message (suc k) i len seq m
      ≡ (message (curr_len size len) (u32 (seq + 1)) >>= λ _.
            put_messages size message k (suc i) (len - curr_len size len) (u32 (seq + 1)))
          m
unfolding put_messages
put_next size message k i len seq m h = rw (lt→ltb 0 len h, put_messages, same_len size len)

put_none :
    (size : ℕ) (message : ℕ → ℕ → M (Unit {0})) (k i seq : ℕ) (m : Machine)
    → put_messages size message k i 0 seq m ≡ pure i m
unfolding put_messages
put_none size message zero i seq m = refl
put_none size message (suc k) i seq m = refl

pub put_messages_lem :
    (size : ℕ) (message : ℕ → ℕ → M (Unit {0})) (k i len seq : ℕ) (xs : List ℕ) (m : Machine)
    → Cut size len xs
    → put_messages size message k i len seq m
      ≡ (numbered message (take k xs) seq >>= λ _. pure (i + length (take k xs))) m
unfolding numbered put_messages
put_messages_lem size message zero i len seq xs m c = ap (λ j. pure j m) (omega arith)
put_messages_lem size message (suc k) i len seq [] m c =
    rw c (put_none size message (suc k) i seq m ∙ ap (λ j. pure j m) (omega arith))
put_messages_lem size message (suc k) i len seq (x ∷ xs) m c =
    let next : Cut size (len - curr_len size len) xs = rw (← c.1) c.2 in
    let seq' : ℕ = u32 (seq + 1) in
    let count : suc i + length (take k xs) ≡ i + suc (length (take k xs)) = omega arith in
    put_next size message k i len seq m c.0
    ∙ bind_cong (message (curr_len size len) seq')
        (λ _. put_messages size message k (suc i) (len - curr_len size len) seq')
        (λ _. numbered message (take k xs) seq' >>= λ _. pure (i + suc (length (take k xs)))) m
        (λ _ m'.
          put_messages_lem size message k (suc i) (len - curr_len size len) seq' xs m' next
          ∙ ap (λ j. (numbered message (take k xs) seq' >>= λ _. pure j) m') count)
    ∙ sym
        (bind_assoc (message (curr_len size len) seq') (λ _. numbered message (take k xs) seq') _ m)
    ∙ ap
        (λ y.
          (message y seq' >> numbered message (take k xs) seq' >>= λ _.
          pure (i + suc (length (take k xs))))
            m)
        (sym c.1)

-- Where the messages for a rank go, and the message for one transaction.
abbrev pub message_for : Machine → World → Rank → ℕ → ℕ → ℕ → M (Unit {0})
message_for m w r tag n seq =
    put_message (if m.use_tcp then Cmd.tcp_tx else Cmd.udp_tx)
      (if m.use_tcp then r.session else r.port) n tag w.local_rank seq

-- The messages that are put for a buffer of `len` bytes are those of its first `max_dma_in_flight`
-- transactions, cut as the loops that move it cut them, with consecutive sequence numbers after
-- the rank's own and the offset, and their number is the result; the rank is one of the
-- communicator's and the size of a transaction is not 0.
pub messages-cuts :
    (w : World) (dst_rank len tag offset : ℕ) (r : Rank) (m : Machine)
    → rank_at w dst_rank m ≡ (ok r, m)
    → 0 < m.dma_transaction_size
    → let xs = take m.max_dma_in_flight (cuts m.dma_transaction_size len len) in
      start_packetizer_message w dst_rank len tag offset m
      ≡ (numbered (message_for m w r tag) xs (u32 (r.outbound_seq + offset)) >>= λ _.
            pure (length xs))
          m
unfolding start_packetizer_message
messages-cuts w dst_rank len tag offset r m at pos =
    let max : ℕ = m.max_dma_in_flight in
    let size : ℕ = m.dma_transaction_size in
    let none_before : 0 + length (take max (cuts size len len))
        ≡ length (take max (cuts size len len)) =
      omega arith in
    ap
      (and_then (λ r'. gets_of (λ n. n.use_tcp) >>= λ tcp.
        gets_of (λ n. n.dma_transaction_size) >>= λ s. gets_of (λ n. n.max_dma_in_flight) >>= λ k.
        put_messages s
          (λ n seq.
            put_message (if tcp then Cmd.tcp_tx else Cmd.udp_tx)
              (if tcp then r'.session else r'.port) n tag w.local_rank seq)
          k 0 len (u32 (r'.outbound_seq + offset))))
      at
    ∙ put_messages_lem size (message_for m w r tag) max 0 len (u32 (r.outbound_seq + offset))
        (cuts size len len) m (cuts-Cut size len len pos (omega arith))
    ∙ ap
        (λ j.
          (numbered (message_for m w r tag) (take max (cuts size len len))
                (u32 (r.outbound_seq + offset))
              >>= λ _. pure j)
            m)
        none_before
