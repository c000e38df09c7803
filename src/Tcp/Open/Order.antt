-- ===== src/Tcp/Open/Order.antt =====
-- The answers of the TCP stack reach the firmware whole and in order, whenever its stream is full.
use accl.Base.{
  ℕ, zero, suc, ◌≡◌, refl, sym, ◌∙◌, Bool, false, get_range, u16, List, [], ◌∷◌, ◌++◌, append-nil,
  append_assoc, map, length, arith,
}
use accl.Tcp.Open.{
  ListenState, wr_sts, OpenPort, tcp_open_port, RespState, wait_status, wr_session, wr_ip, wr_port,
  wr_success, OpenConResp, tcp_open_con_resp,
}

-- The four words that the firmware gets for an answer.
abbrev pub status_words : ℕ → List ℕ
status_words pkt =
    get_range 15 0 pkt ∷ get_range 55 24 pkt ∷ get_range 71 56 pkt ∷ get_range 23 16 pkt ∷ []

abbrev pub all_status_words : List ℕ → List ℕ
all_status_words [] = []
all_status_words (pkt ∷ pkts) = status_words pkt ++ all_status_words pkts

-- The words of the answer at hand that are not written yet.
abbrev pub pending : RespState → OpenConResp → List ℕ
pending wait_status s = []
pending wr_session s = s.session ∷ s.ip ∷ s.port ∷ s.success ∷ []
pending wr_ip s = s.ip ∷ s.port ∷ s.success ∷ []
pending wr_port s = s.port ∷ s.success ∷ []
pending wr_success s = s.success ∷ []

-- What is written, what is at hand and what waits.
abbrev pub answers : OpenConResp → List ℕ
answers s = s.sts ++ (pending s.state s ++ all_status_words s.open_status)

answers_step : (full : Bool) (s : OpenConResp) → answers (tcp_open_con_resp full s) ≡ answers s
unfolding tcp_open_con_resp
answers_step full s = grind (arith, append_assoc)

-- Calls with the given answers to `sts.full()`.
unfoldable pub responses : List Bool → OpenConResp → OpenConResp
responses [] s = s
responses (full ∷ fulls) s = responses fulls (tcp_open_con_resp full s)

-- However often the stream to the firmware is full, no word of an answer is lost, doubled or out
-- of order: the words written, those at hand and those that wait stay the same list.
pub answers_kept : (fulls : List Bool) (s : OpenConResp) → answers (responses fulls s) ≡ answers s
unfolding responses
answers_kept [] s = refl
answers_kept (full ∷ fulls) s = answers_kept fulls (tcp_open_con_resp full s) ∙ answers_step full s

-- The calls that a list of answers needs.
abbrev pub calls_needed : ℕ → List Bool
calls_needed zero = []
calls_needed (suc n) = false ∷ false ∷ false ∷ false ∷ false ∷ calls_needed n

five_calls :
    (pkt : ℕ) (rest : List ℕ) (s : OpenConResp)
    → s.state ≡ wait_status
    → s.open_status ≡ pkt ∷ rest
    → let t = responses (false ∷ false ∷ false ∷ false ∷ false ∷ []) s in
      (t.state ≡ wait_status) × (t.open_status ≡ rest) × (t.sts ≡ s.sts ++ status_words pkt)
unfolding responses tcp_open_con_resp
five_calls pkt rest s h e = grind (arith, append_assoc)

-- Five calls that find room for a word deliver one answer: after them all answers that waited are
-- written, each as session, address, port and success.
pub all_answered :
    (pkts : List ℕ) (s : OpenConResp)
    → s.state ≡ wait_status
    → s.open_status ≡ pkts
    → let t = responses (calls_needed (length pkts)) s in
      (t.state ≡ wait_status) × (t.open_status ≡ []) × (t.sts ≡ s.sts ++ all_status_words pkts)
unfolding responses
all_answered [] s h e = (h, e, sym (append-nil s.sts))
all_answered (pkt ∷ pkts) s h e =
    let t = responses (false ∷ false ∷ false ∷ false ∷ false ∷ []) s in
    let one = five_calls pkt pkts s h e in
    let rest = all_answered pkts t one.0 one.1 in
    (rest.0, rest.1, rest.2 ∙ rw (one.2, append_assoc))

-- The status of a port, as it goes through.
abbrev pub pending_port : ListenState → OpenPort → List ℕ
pending_port wr_sts s = s.success ∷ []
pending_port _ s = []

-- Calls of the port opener with the given answers to `sts.full()`.
unfoldable pub listens : List Bool → OpenPort → OpenPort
listens [] s = s
listens (full ∷ fulls) s = listens fulls (tcp_open_port full s)

listen_step :
    (full : Bool) (s : OpenPort)
    → let t = tcp_open_port full s in
      (t.listen_port ++ map u16 t.cmd ≡ s.listen_port ++ map u16 s.cmd)
      × (t.sts ++ (pending_port t.listen_state t ++ t.port_status)
          ≡ s.sts ++ (pending_port s.listen_state s ++ s.port_status))
unfolding tcp_open_port
listen_step full s = (grind (arith, append_assoc), grind (arith, append_assoc))

-- However often the stream to the firmware is full, each port of the commands is asked for once, in
-- order and cut to 16 bits, and each answer of the stack is passed on once, in order.
pub ports_in_order :
    (fulls : List Bool) (s : OpenPort)
    → let t = listens fulls s in
      (t.listen_port ++ map u16 t.cmd ≡ s.listen_port ++ map u16 s.cmd)
      × (t.sts ++ (pending_port t.listen_state t ++ t.port_status)
          ≡ s.sts ++ (pending_port s.listen_state s ++ s.port_status))
unfolding listens
ports_in_order [] s = (refl, refl)
ports_in_order (full ∷ fulls) s =
    let one = listen_step full s in
    let rest = ports_in_order fulls (tcp_open_port full s) in (rest.0 ∙ one.0, rest.1 ∙ one.1)
