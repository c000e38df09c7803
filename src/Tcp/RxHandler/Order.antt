-- ===== src/Tcp/RxHandler/Order.antt =====
-- Data and requests keep their order through tcp_rxHandler.
use accl.Base.{
  ℕ, ◌≡◌, refl, ◌∙◌, ap, List, [], ◌∷◌, ◌++◌, append_assoc, Stream, Flit, arith, if◌then◌else◌,
  ◌==◌,
}
use accl.Tcp.RxHandler.{
  RxHandler, inflight_read_handler, request_fsm, forward, consume_fsm, Reach, initial, request_step,
  inflight_step, consume_step, notify, bring_meta, bring_data, here, next, noti_length,
  read_request,
}

-- The words that the network brings in a run, in order.
unfoldable pub brought : {s t : RxHandler} → Reach s t → List Flit
brought here = []
brought (next r (bring_data s word)) = brought r ++ (word ∷ [])
brought (next r (request_step s)) = brought r
brought (next r (inflight_step s)) = brought r
brought (next r (consume_step s)) = brought r
brought (next r (notify s noti)) = brought r
brought (next r (bring_meta s meta)) = brought r

-- The notifications of a run, in order.
unfoldable pub announced : {s t : RxHandler} → Reach s t → List ℕ
announced here = []
announced (next r (notify s noti)) = announced r ++ (noti ∷ [])
announced (next r (bring_data s word)) = announced r
announced (next r (request_step s)) = announced r
announced (next r (inflight_step s)) = announced r
announced (next r (consume_step s)) = announced r
announced (next r (bring_meta s meta)) = announced r

-- The read requests that a list of notifications calls for: one for each that announces data.
unfoldable pub wanted : List ℕ → List ℕ
wanted [] = []
wanted (n ∷ ns) = if noti_length n == 0 then wanted ns else read_request n ∷ wanted ns

pub wanted-append : (ns ms : List ℕ) → wanted (ns ++ ms) ≡ wanted ns ++ wanted ms
unfolding wanted
wanted-append [] ms = refl
wanted-append (n ∷ ns) ms = ground (arith, wanted-append ns ms)

abbrev words : RxHandler → List Flit
words s = s.data_out ++ s.rx_data

words-forward :
    (s : RxHandler) (w : Flit) (rest : Stream Flit)
    → words (forward s w rest) ≡ s.data_out ++ (w ∷ rest)
unfolding forward
words-forward s w rest = ground (arith, append_assoc s.data_out (w ∷ []) rest)

words-consume_fsm : (s : RxHandler) → words (consume_fsm s) ≡ words s
unfolding consume_fsm
words-consume_fsm s = grind (arith, append_assoc)

words-request_fsm : (s : RxHandler) → words (request_fsm s) ≡ words s
unfolding request_fsm
words-request_fsm s = ground arith

words-inflight_read_handler : (s : RxHandler) → words (inflight_read_handler s) ≡ words s
unfolding inflight_read_handler
words-inflight_read_handler s = ground arith

abbrev requests : RxHandler → List ℕ
requests s = s.read_pkg ++ wanted s.notification

requests-consume_fsm : (s : RxHandler) → requests (consume_fsm s) ≡ requests s
unfolding consume_fsm
requests-consume_fsm s = ground arith

requests-request_fsm : (s : RxHandler) → requests (request_fsm s) ≡ requests s
unfolding request_fsm wanted
requests-request_fsm s = grind (arith, append_assoc)

requests-inflight_read_handler : (s : RxHandler) → requests (inflight_read_handler s) ≡ requests s
unfolding inflight_read_handler
requests-inflight_read_handler s = ground arith

-- In every run the words that have gone out, followed by those that wait, are the words that the
-- network brought, in their order and unchanged.
pub data_in_order : {t : RxHandler} (r : Reach initial t) → t.data_out ++ t.rx_data ≡ brought r
unfolding brought
data_in_order here = refl
data_in_order (next r (bring_data s word)) =
    rw (← append_assoc) (ap (λ l. l ++ (word ∷ [])) (data_in_order r))
data_in_order (next r (request_step s)) = words-request_fsm s ∙ data_in_order r
data_in_order (next r (inflight_step s)) = words-inflight_read_handler s ∙ data_in_order r
data_in_order (next r (consume_step s)) = words-consume_fsm s ∙ data_in_order r
data_in_order (next r (notify s noti)) = data_in_order r
data_in_order (next r (bring_meta s meta)) = data_in_order r

-- In every run the read requests sent, followed by those that the waiting notifications call for,
-- are one for each notification of the run that announces data, in their order.
pub requests_in_order :
    {t : RxHandler} (r : Reach initial t)
    → t.read_pkg ++ wanted t.notification ≡ wanted (announced r)
unfolding announced
requests_in_order here = refl
requests_in_order (next r (notify s noti)) =
    rw (wanted-append, wanted-append, ← append_assoc)
      (ap (λ l. l ++ wanted (noti ∷ [])) (requests_in_order r))
requests_in_order (next r (request_step s)) = requests-request_fsm s ∙ requests_in_order r
requests_in_order (next r (inflight_step s)) =
    requests-inflight_read_handler s ∙ requests_in_order r
requests_in_order (next r (consume_step s)) = requests-consume_fsm s ∙ requests_in_order r
requests_in_order (next r (bring_data s word)) = requests_in_order r
requests_in_order (next r (bring_meta s meta)) = requests_in_order r
