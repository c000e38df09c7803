-- ===== src/Tcp/TxHandler/Lengths.antt =====
-- The packets that tcp_txHandler cuts a message into, and the requests for them.
use accl.Base.{
  ℕ, zero, suc, ◌-◌, ◌*◌, ◌<◌, ◌≤◌, ◌≡◌, true, false, ltb, List, [], ◌∷◌, ◌++◌, map, Flit, arith,
  if◌then◌else◌,
}
use accl.Base.{take, drop}
use accl.Tcp.TxHandler.Packet.{packet}
use accl.Tcp.TxHandler.{tx_request, first_length, next_length}

-- The next request behind `sent` bytes, if bytes are left.
abbrev pub further : ℕ → ℕ → ℕ → ℕ → List ℕ
further session n total sent =
    if ltb sent total then tx_request session (next_length n total sent) ∷ [] else []

-- The lengths of the packets of a message of `total` bytes, at most `m` in each; `k` bounds their
-- number.
unfoldable pub lengths : ℕ → ℕ → ℕ → List ℕ
lengths zero m total = []
lengths (suc k) m total = if ltb m total then m ∷ lengths k m (total - m) else total ∷ []

-- The words of a message in packets of `n` words: TLAST on the last word of each.
unfoldable pub in_packets : ℕ → ℕ → ℕ → List Flit → List Flit
in_packets zero n total ws = []
in_packets (suc k) n total ws =
    if ltb (n * 64) total
    then packet (take n ws) ++ in_packets k n (total - n * 64) (drop n ws)
    else packet ws

abbrev pub tail : List ℕ → List ℕ
tail [] = []
tail (x ∷ xs) = xs

pub requests_next :
    (session k n total sent : ℕ)
    → sent < total
    → further session n total sent
        ++ map (tx_request session) (tail (lengths (suc k) (n * 64) (total - sent)))
      ≡ map (tx_request session) (lengths (suc k) (n * 64) (total - sent))
unfolding lengths next_length
requests_next session k n total sent h = ground arith

pub requests_left :
    (session k n total sent : ℕ)
    → 0 < k
    → sent < total
    → further session n total sent
        ++ map (tx_request session) (tail (lengths k (n * 64) (total - sent)))
      ≡ map (tx_request session) (lengths k (n * 64) (total - sent))
requests_left session zero n total sent p h = absurd (omega arith)
requests_left session (suc k) n total sent p h = requests_next session k n total sent h

module _ (k m total : ℕ) where
  pub lengths_more : ltb m total ≡ true → lengths (suc k) m total ≡ m ∷ lengths k m (total - m)
  unfolding lengths
  lengths_more p = rw p

  pub lengths_last : ltb m total ≡ false → lengths (suc k) m total ≡ total ∷ []
  unfolding lengths
  lengths_last p = rw p

module _ (k n total : ℕ) (ws : List Flit) where
  pub in_packets_more :
      ltb (n * 64) total ≡ true
      → in_packets (suc k) n total ws
        ≡ packet (take n ws) ++ in_packets k n (total - n * 64) (drop n ws)
  unfolding in_packets
  in_packets_more p = rw p

  pub in_packets_last : ltb (n * 64) total ≡ false → in_packets (suc k) n total ws ≡ packet ws
  unfolding in_packets
  in_packets_last p = rw p

pub more_packets : (k n left : ℕ) → left ≤ suc k * (n * 64) → n * 64 < left → 0 < k
more_packets zero n left h p = absurd (omega arith)
more_packets (suc k) n left h p = omega arith

pub first_request :
    (k n session total : ℕ)
    → tx_request session (first_length n total)
        ∷ map (tx_request session) (tail (lengths (suc k) (n * 64) total))
      ≡ map (tx_request session) (lengths (suc k) (n * 64) total)
unfolding lengths first_length
first_request k n session total = ground arith
