-- ===== src/Tcp/TxHandler/Retry.antt =====
-- Requests that the stack refuses (tcp_txHandler.cpp).
use accl.Base.{
  ℕ, ◌+◌, ◌*◌, ◌^◌, ◌<◌, ◌≡◌, ◌⊎◌, refl, sym, ap, ◌∙◌, List, [], ◌∷◌, ◌++◌, append-nil,
  append_assoc, map, length, replicate, write, Stream, arith,
}
use accl.Tcp.TxHandler.{check_req, TxHandler, tx_request, tx_case, tcp_tx_handler}
use accl.Tcp.TxHandler.Packet.{calls}

-- The status of a request of `l` bytes that is refused with an error.
abbrev pub refused : ℕ → ℕ → ℕ → ℕ
refused session l error = session + l * 2 ^ 16 + error * 2 ^ 62

-- Errors that leave the connection open.
abbrev pub AllOpen : List ℕ → Type 0
AllOpen [] = Unit
AllOpen (e ∷ es) = ((e ≡ 2) ⊎ (e ≡ 3)) × AllOpen es

retry :
    (s : TxHandler) (session l e : ℕ) (rest : Stream ℕ)
    → session < 2 ^ 16
    → l < 2 ^ 16
    → (e ≡ 2) ⊎ (e ≡ 3)
    → s.state ≡ check_req
    → s.tx_status ≡ refused session l e ∷ rest
    → let t = tcp_tx_handler s in
      (t.state ≡ check_req)
      × (t.tx_status ≡ rest)
      × (t.tx_meta ≡ write s.tx_meta (tx_request session l))
      × (t.tx_data ≡ s.tx_data)
      × (t.data_in ≡ s.data_in)
      × (t.sent_byte_cnt ≡ s.sent_byte_cnt)
unfolding tcp_tx_handler tx_case
retry s session l e rest h k o st q = ground arith

-- However often the stack refuses a request for a reason other than a closed connection, the
-- handler asks again with the same session and length, once for each refusal; it sends no data,
-- takes none, and does not count the bytes. The session and the length fit in 16 bits.
pub retries :
    (s : TxHandler) (session l : ℕ) (es : List ℕ) (later : Stream ℕ)
    → session < 2 ^ 16
    → l < 2 ^ 16
    → AllOpen es
    → s.state ≡ check_req
    → s.tx_status ≡ map (refused session l) es ++ later
    → let t = calls (length es) s in
      (t.state ≡ check_req)
      × (t.tx_status ≡ later)
      × (t.tx_meta ≡ s.tx_meta ++ replicate (length es) (tx_request session l))
      × (t.tx_data ≡ s.tx_data)
      × (t.data_in ≡ s.data_in)
      × (t.sent_byte_cnt ≡ s.sent_byte_cnt)
unfolding calls
retries s session l [] later h k o st q = (st, q, sym (append-nil s.tx_meta), refl, refl, refl)
retries s session l (e ∷ es) later h k o st q =
    let (st', q', m', d', i', c') =
      retry s session l e (map (refused session l) es ++ later) h k o.0 st q in
    let (st2, q2, m2, d2, i2, c2) = retries (tcp_tx_handler s) session l es later h k o.1 st' q' in
    (
      st2,
      q2,
      m2
          ∙ ap (λ ms. ms ++ replicate (length es) (tx_request session l)) m'
          ∙ append_assoc s.tx_meta (tx_request session l ∷ [])
              (replicate (length es) (tx_request session l)),
      d2 ∙ d',
      i2 ∙ i',
      c2 ∙ c',
    )
