-- ===== src/Tcp/RxHandler/Unlimited.antt =====
-- The variant of tcp_rxHandler.cpp that is built without RATE_CONTROL: one process, which asks for
-- announced data at once.
use accl.Base.{
  ℕ, zero, suc, ◌≡◌, refl, ◌∙◌, ap, sym, List, [], ◌∷◌, ◌++◌, append-nil, append_assoc, length,
  write, Stream, Flit, arith, if◌then◌else◌, ◌==◌,
}
use accl.Tcp.RxHandler.{noti_length, read_request, ConsumeState, wait_pkg, consume}
use accl.Tcp.RxHandler.Order.{wanted, wanted-append}

-- The ports and the one static variable.
pub record Handler : Type 0 where
  pub notification : Stream ℕ
  pub read_pkg : Stream ℕ
  pub rx_meta : Stream ℕ
  pub rx_data : Stream Flit
  pub data_out : Stream Flit
  pub state : ConsumeState

-- The block that turns a notification into a read request.
unfoldable pub answer : Handler → Handler
answer s = elim s.notification [
  | [] ↦ s
  | noti ∷ rest ↦
      if noti_length noti == 0
      then record s { notification = rest }
      else record s { notification = rest; read_pkg = write s.read_pkg (read_request noti) }
]

unfoldable pub forward : Handler → Flit → Stream Flit → Handler
forward s word rest = record s {
  rx_data = rest;
  data_out = write s.data_out word;
  state = if word.last then wait_pkg else consume;
}

-- The cases of the switch.
unfoldable pub consume_case : ConsumeState → Handler → Handler
unfolding forward
consume_case wait_pkg s = elim s.rx_meta [
  | [] ↦ s
  | _ ∷ metas ↦ elim s.rx_data [
    | [] ↦ s
    | word ∷ rest ↦ forward (record s { rx_meta = metas }) word rest
  ]
]
consume_case consume s = elim s.rx_data [ [] ↦ s | word ∷ rest ↦ forward s word rest ]

unfoldable pub tcp_rx_handler_unlimited : Handler → Handler
unfolding answer consume_case
tcp_rx_handler_unlimited s = let t = answer s in consume_case t.state t

-- `n` calls.
unfoldable pub calls : ℕ → Handler → Handler
calls zero s = s
calls (suc n) s = calls n (tcp_rx_handler_unlimited s)

answers_one :
    (s : Handler) (noti : ℕ) (rest : Stream ℕ)
    → s.notification ≡ noti ∷ rest
    → let t = tcp_rx_handler_unlimited s in
      (t.notification ≡ rest) × (t.read_pkg ≡ s.read_pkg ++ wanted (noti ∷ []))
unfolding tcp_rx_handler_unlimited wanted
answers_one s noti rest h = ground (arith, append-nil s.read_pkg)

wanted-nil : wanted [] ≡ []
unfolding wanted
wanted-nil = refl

-- As many calls as notifications wait send their read requests, in order, and leave none waiting.
pub answers_all :
    (notis : List ℕ) (s : Handler)
    → s.notification ≡ notis
    → let t = calls (length notis) s in
      (t.notification ≡ []) × (t.read_pkg ≡ s.read_pkg ++ wanted notis)
unfolding calls
answers_all [] s h = (h, sym (append-nil s.read_pkg) ∙ ap (λ l. s.read_pkg ++ l) (sym wanted-nil))
answers_all (noti ∷ rest) s h =
    let one = answers_one s noti rest h in
    let all = answers_all rest (tcp_rx_handler_unlimited s) one.0 in
    (
      all.0,
      all.1
          ∙ rw (one.1, append_assoc)
              (ap (λ l. s.read_pkg ++ l) (sym (wanted-append (noti ∷ []) rest))),
    )

-- Whatever the packets, a call keeps the words in order: those out, then those waiting.
pub words_kept :
    (s : Handler)
    → let t = tcp_rx_handler_unlimited s in t.data_out ++ t.rx_data ≡ s.data_out ++ s.rx_data
unfolding tcp_rx_handler_unlimited
words_kept s = grind (arith, append_assoc)
