-- ===== src/Tcp/Stack/Tx.antt =====
-- The transmit side of the stand-in stack (`tx_handler`, dummy_tcp_stack.cpp).
use accl.Base.{
  ℕ, zero, suc, ◌+◌, ◌-◌, ◌/◌, ◌%◌, ◌^◌, ◌<◌, ◌≤◌, ◌≡◌, refl, ap, ◌∙◌, Bool, false, get_range, List,
  [], ◌∷◌, ◌++◌, append_assoc, length, Stream, write, Flit, arith,
}
use accl.Tcp.Stack.{wait_meta, tx_data, TxHandler, accepted, tx_case, tx_handler}

-- Calls with the given answers to `m_axis_tcp_tx_status.full()`.
unfoldable pub transmits : List Bool → TxHandler → TxHandler
transmits [] s = s
transmits (full ∷ fulls) s = transmits fulls (tx_handler full s)

abbrev sending : TxHandler → ℕ → ℕ → Stream Flit → Stream Flit → TxHandler
sending s l recv input out = record s {
  state = tx_data;
  length = l;
  recv_byte = recv;
  tx_words = input;
  out = out;
}

abbrev sent : TxHandler → ℕ → Stream Flit → Stream Flit → TxHandler
sent s l input out = record s {
  state = wait_meta;
  length = l;
  recv_byte = 0;
  tx_words = input;
  out = out;
}

-- `n` answers that there is room.
abbrev pub room : ℕ → List Bool
room zero = []
room (suc n) = false ∷ room n

inner_word :
    (s : TxHandler) (full : Bool) (l recv : ℕ) (w : Flit) (input out : Stream Flit)
    → recv + 64 < l
    → l < 2 ^ 16
    → tx_handler full (sending s l recv (w ∷ input) out)
      ≡ sending s l (recv + 64) input (write out w)
unfolding tx_handler tx_case
inner_word s full l recv w input out h k = ground arith

last_word :
    (s : TxHandler) (full : Bool) (l recv : ℕ) (w : Flit) (input out : Stream Flit)
    → l ≤ recv + 64
    → recv + 64 < 2 ^ 16
    → tx_handler full (sending s l recv (w ∷ input) out) ≡ sent s l input (write out w)
unfolding tx_handler tx_case
last_word s full l recv w input out h k = ground arith

words_sent :
    (s : TxHandler) (l recv : ℕ) (w : Flit) (ws more out : Stream Flit)
    → recv < l
    → l ≤ 65472
    → length (w ∷ ws) ≡ (l - recv + 63) / 64
    → transmits (room (length (w ∷ ws))) (sending s l recv (w ∷ ws ++ more) out)
      ≡ sent s l more (out ++ (w ∷ ws))
unfolding transmits
words_sent s l recv w [] more out p h e =
    let small : l ≤ recv + 64 = omega arith in
    last_word s false l recv w more out small (omega arith)
words_sent s l recv w (v ∷ ws) more out p h e =
    let big : recv + 64 < l = omega arith in
    ap (transmits (room (length (v ∷ ws))))
      (inner_word s false l recv w (v ∷ ws ++ more) out big (omega arith))
    ∙ words_sent s l (recv + 64) v ws more (write out w) big h (omega arith)
    ∙ ap (sent s l more) (append_assoc out (w ∷ []) (v ∷ ws))

request_taken :
    (s : TxHandler) (m : ℕ) (rest : Stream ℕ)
    → s.state ≡ wait_meta
    → s.tx_meta ≡ m ∷ rest
    → s.recv_byte ≡ 0
    → transmits (room 2) s
      ≡ sending
          (record s {
            tx_meta = rest;
            session = get_range 15 0 m;
            tx_status = write s.tx_status (accepted (get_range 15 0 m) (get_range 31 16 m));
          })
          (get_range 31 16 m)
          0
          s.tx_words
          s.out
unfolding transmits tx_handler tx_case
request_taken s m rest st q r = ground arith

-- A request for at most 65472 bytes at hand, with its words: two calls and one for each word accept
-- it, pass the words on as they came, take nothing more, and wait for the next request. There is
-- room for the status, and no bytes are counted before.
pub request_served :
    (s : TxHandler) (m : ℕ) (rest : Stream ℕ) (w : Flit) (ws more : Stream Flit)
    → s.state ≡ wait_meta
    → s.tx_meta ≡ m ∷ rest
    → s.recv_byte ≡ 0
    → s.tx_words ≡ w ∷ ws ++ more
    → 0 < get_range 31 16 m
    → get_range 31 16 m ≤ 65472
    → length (w ∷ ws) ≡ (get_range 31 16 m + 63) / 64
    → let t = transmits (room (2 + length (w ∷ ws))) s in
      (t.state ≡ wait_meta)
      × (t.tx_meta ≡ rest)
      × (t.tx_status ≡ write s.tx_status (accepted (get_range 15 0 m) (get_range 31 16 m)))
      × (t.out ≡ s.out ++ (w ∷ ws))
      × (t.tx_words ≡ more)
      × (t.recv_byte ≡ 0)
unfolding transmits
request_served s m rest w ws more st q r i p h e =
    let l = get_range 31 16 m in
    let b : TxHandler = record s {
      tx_meta = rest;
      session = get_range 15 0 m;
      tx_status = write s.tx_status (accepted (get_range 15 0 m) l);
    } in
    let n = room (length (w ∷ ws)) in
    let done =
      ap (transmits n) (request_taken s m rest st q r)
      ∙ ap (λ input. transmits n (sending b l 0 input s.out)) i
      ∙ words_sent b l 0 w ws more s.out p h (omega arith) in
    let count : 2 + length (w ∷ ws) ≡ suc (suc (length (w ∷ ws))) = omega arith in
    rw (ap (λ k. transmits (room k) s) count ∙ done) (refl, refl, refl, refl, refl, refl)

-- The state of a request that is too long.
pub record Stuck (s : TxHandler) : Type 0 where
  pub receives : s.state ≡ tx_data
  pub long : 65472 < s.length
  pub whole_words : s.recv_byte % 64 ≡ 0
  pub wraps : s.recv_byte < 2 ^ 16

tx_handler-Stuck : (full : Bool) (s : TxHandler) → Stuck s → Stuck (tx_handler full s)
unfolding tx_handler tx_case
tx_handler-Stuck full s v = ground arith

stays : (fulls : List Bool) (s : TxHandler) → Stuck s → Stuck (transmits fulls s)
unfolding transmits
stays [] s v = v
stays (full ∷ fulls) s v = stays fulls (tx_handler full s) (tx_handler-Stuck full s v)

-- Once a request for more than 65472 bytes is accepted, no number of calls, whatever words wait,
-- brings the process back to waiting for a request: the counter wraps before it reaches the length.
pub never_returns :
    (fulls : List Bool) (s : TxHandler)
    → s.state ≡ tx_data
    → 65472 < s.length
    → s.recv_byte ≡ 0
    → (transmits fulls s).state ≡ tx_data
never_returns fulls s st l r =
    let v : Stuck s = record {
      receives = st;
      long = l;
      whole_words = omega arith;
      wraps = omega arith;
    } in
    (stays fulls s v).receives
