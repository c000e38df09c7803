-- ===== src/Tcp/Connect.antt =====
-- Opening connections and ports from end to end: the firmware's requests through tcp_openConReq or
-- tcp_openPort, the stand-in stack, and the answers back.
use accl.Base.{
  ℕ, suc, ◌+◌, ◌%◌, ◌^◌, ◌<◌, ◌≡◌, refl, ap, ◌∙◌, false, get_range, u16, u32, Option, none, some,
  List, [], ◌∷◌, ◌++◌, append-nil, append_assoc, length, write, Stream, arith,
}
use accl.Tcp.Open.{
  OpenPort, open_port, tcp_open_port, open_connection, tcp_open_con_req, wait_status,
}
use accl.Tcp.Open.Order.{status_words, all_status_words, responses, calls_needed, all_answered}
use accl.Tcp.Stack.{OpenCon, connected, open_con_handler, listen_port_handler}

-- Where a peer listens.
pub record Peer : Type 0 where
  pub ip : ℕ
  pub port : ℕ

pub record IsPeer (p : Peer) : Type 0 where
  pub ip_fits : p.ip < 2 ^ 32
  pub port_fits : p.port < 2 ^ 16

abbrev pub AllPeers : List Peer → Type 0
AllPeers [] = Unit
AllPeers (p ∷ ps) = IsPeer p × AllPeers ps

-- The words that the firmware puts for a list of peers.
abbrev pub request_words : List Peer → List ℕ
request_words [] = []
request_words (p ∷ ps) = p.ip ∷ p.port ∷ request_words ps

-- `tcp_openConReq` called once for each peer; `none` where it waits for a word.
unfoldable pub open_all : ℕ → List Peer → Stream ℕ → Option (List ℕ)
open_all fresh [] cmd = some []
open_all fresh (p ∷ ps) cmd = elim (tcp_open_con_req fresh cmd) [
  | none ↦ none
  | some (rest, pkt) ↦ elim (open_all fresh ps rest) [ none ↦ none | some pkts ↦ some (pkt ∷ pkts) ]
]

-- `open_con_handler` called once for each packet.
unfoldable pub serve : ℕ → List ℕ → OpenCon → OpenCon
serve fresh [] s = s
serve fresh (_ ∷ pkts) s = serve fresh pkts (open_con_handler fresh s)

-- The packets of the requests.
abbrev packets : ℕ → List Peer → List ℕ
packets fresh [] = []
packets fresh (p ∷ ps) = open_connection fresh p.ip p.port ∷ packets fresh ps

open_all_lem :
    (fresh : ℕ) (ps : List Peer) → open_all fresh ps (request_words ps) ≡ some (packets fresh ps)
unfolding open_all tcp_open_con_req
open_all_lem fresh [] = refl
open_all_lem fresh (p ∷ ps) = rw (open_all_lem fresh ps)

-- What the firmware is to read for a list of peers: their sessions are counted up.
abbrev pub sessions : ℕ → List Peer → List ℕ
sessions n [] = []
sessions n (p ∷ ps) = (n % 2 ^ 16) ∷ p.ip ∷ p.port ∷ 1 ∷ sessions (n + 1) ps

statuses : ℕ → ℕ → List Peer → List ℕ
statuses fresh n [] = []
statuses fresh n (p ∷ ps) = connected fresh n p.ip p.port ∷ statuses fresh (n + 1) ps

request_fields :
    (fresh : ℕ) (p : Peer)
    → IsPeer p
    → (get_range 31 0 (open_connection fresh p.ip p.port) ≡ p.ip)
      × (get_range 47 32 (open_connection fresh p.ip p.port) ≡ p.port)
unfolding open_connection
request_fields fresh p v = omega (arith, v)

status_fields :
    (fresh n : ℕ) (p : Peer)
    → IsPeer p
    → status_words (connected fresh n p.ip p.port) ≡ (n % 2 ^ 16) ∷ p.ip ∷ p.port ∷ 1 ∷ []
unfolding connected
status_fields fresh n p v = ground (arith, v)

open_con_step :
    (fresh fresh' n : ℕ) (p : Peer) (rest out : Stream ℕ)
    → IsPeer p
    → n + 1 < 2 ^ 32
    → open_con_handler fresh' (record {
      open_connection = open_connection fresh p.ip p.port ∷ rest;
      open_status = out;
      session_cnt = n;
    })
      ≡ record {
        open_connection = rest;
        open_status = write out (connected fresh' n p.ip p.port);
        session_cnt = n + 1;
      }
unfolding open_con_handler
open_con_step fresh fresh' n p rest out v h =
    let fields = request_fields fresh p v in
    let step : u32 (n + 1) ≡ n + 1 = omega arith in rw (fields.0, fields.1, step, open_con_handler)

serve_lem :
    (fresh fresh' n : ℕ) (ps : List Peer) (out : Stream ℕ)
    → AllPeers ps
    → n + length ps < 2 ^ 32
    → serve fresh'
        (packets fresh ps)
        (record { open_connection = packets fresh ps; open_status = out; session_cnt = n })
      ≡ record {
        open_connection = [];
        open_status = out ++ statuses fresh' n ps;
        session_cnt = n + length ps;
      }
unfolding serve statuses
serve_lem fresh fresh' n [] out v h = ground (arith, append-nil out)
serve_lem fresh fresh' n (p ∷ ps) out v h =
    let total : n + 1 + length ps ≡ n + suc (length ps) = omega arith in
    ap (serve fresh' (packets fresh ps))
      (open_con_step fresh fresh' n p (packets fresh ps) out v.0 (omega arith))
    ∙ serve_lem fresh fresh' (n + 1) ps (write out (connected fresh' n p.ip p.port)) v.1
        (omega arith)
    ∙ rw (append_assoc, total)

statuses_words :
    (fresh n : ℕ) (ps : List Peer)
    → AllPeers ps
    → all_status_words (statuses fresh n ps) ≡ sessions n ps
unfolding statuses
statuses_words fresh n [] v = refl
statuses_words fresh n (p ∷ ps) v =
    ap (λ l. l ++ all_status_words (statuses fresh (n + 1) ps)) (status_fields fresh n p v.0)
    ∙ rw (statuses_words fresh (n + 1) ps v.1)

length-statuses : (fresh n : ℕ) (ps : List Peer) → length (statuses fresh n ps) ≡ length ps
unfolding statuses
length-statuses fresh n [] = refl
length-statuses fresh n (p ∷ ps) = ap suc (length-statuses fresh (n + 1) ps)

-- The whole way: the requests are packed, the stand-in stack serves them, and `tcp_openConResp`,
-- at work `5` calls for each, passes the answers on. `none` if a request waits for a word.
unfoldable pub connect_all : ℕ → ℕ → ℕ → List Peer → Option (Stream ℕ)
connect_all fresh fresh' session_cnt ps = elim (open_all fresh ps (request_words ps)) [
  | none ↦ none
  | some pkts ↦
      let served =
        serve fresh' pkts
          (record { open_connection = pkts; open_status = []; session_cnt = session_cnt }) in
      some
        (responses (calls_needed (length ps)) (record {
          sts = [];
          open_status = served.open_status;
          state = wait_status;
          session = 0;
          success = 0;
          ip = 0;
          port = 0;
        })).sts
]

-- For a list of peers the firmware reads back, for each of them and in order, a session number
-- counted up from the stack's counter, its address, its port, and success. The addresses have 32
-- bits and the ports 16, and the stack's counter does not pass 2 ^ 32.
pub connect_all_lem :
    (fresh fresh' n : ℕ) (ps : List Peer)
    → AllPeers ps
    → n + length ps < 2 ^ 32
    → connect_all fresh fresh' n ps ≡ some (sessions n ps)
unfolding connect_all
connect_all_lem fresh fresh' n ps v h =
    let answered =
      all_answered (statuses fresh' n ps)
        (record {
          sts = [];
          open_status = statuses fresh' n ps;
          state = wait_status;
          session = 0;
          success = 0;
          ip = 0;
          port = 0;
        })
        refl refl in
    rw (open_all_lem fresh ps, connect_all)
      (rw (serve_lem fresh fresh' n ps [] v h, ← length-statuses fresh' n ps)
        (ap some (answered.2 ∙ statuses_words fresh' n ps v)))

-- A port asked for by the firmware is asked of the stack, and its success is the firmware's answer:
-- three calls of `tcp_openPort` with room for the answer, the stack's one call between them.
pub port_opened :
    (port : ℕ) (rest : Stream ℕ) (s : OpenPort)
    → s.listen_state ≡ open_port
    → s.cmd ≡ port ∷ rest
    → s.listen_port ≡ []
    → s.port_status ≡ []
    → let asked = tcp_open_port false s in
      let stack =
        listen_port_handler
          (record { listen_port = asked.listen_port; port_status = asked.port_status }) in
      let t = tcp_open_port false (
        tcp_open_port false
          (record asked { listen_port = stack.listen_port; port_status = stack.port_status })) in
      (asked.listen_port ≡ u16 port ∷ [])
      × (t.sts ≡ write s.sts 1)
      × (t.cmd ≡ rest)
      × (t.listen_state ≡ open_port)
unfolding tcp_open_port listen_port_handler
port_opened port rest s st c l p = ground arith
