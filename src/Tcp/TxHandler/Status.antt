-- ===== src/Tcp/TxHandler/Status.antt =====
-- tcp_txHandler from a packet's status to the end of the packet.
use accl.Base.{
  ℕ, suc, ◌+◌, ◌/◌, ◌^◌, ◌<◌, ◌≤◌, ◌≡◌, ap, ◌∙◌, get_range, u16, ◌∷◌, ◌++◌, append-nil, length,
  Stream, Flit, arith, lt→not_leb,
}
use accl.Tcp.Stack.{accepted}
use accl.Tcp.TxHandler.Packet.{calls, packet, writing, written, send_packet_lem}
use accl.Tcp.TxHandler.{wait_cmd, check_req, TxHandler, tx_case, tcp_tx_handler}
use accl.Tcp.TxHandler.Lengths.{further}

-- A handler that waits for the status of a packet, `sent` bytes accepted before it.
abbrev pub ready : TxHandler → ℕ → Stream Flit → Stream Flit → Stream ℕ → Stream ℕ → TxHandler
ready b sent input out metas stats = record b {
  state = check_req;
  data_in = input;
  tx_data = out;
  tx_meta = metas;
  tx_status = stats;
  word_cnt = 0;
  sent_byte_cnt = sent;
}

-- The handler once the status of a packet of `l` bytes is read.
abbrev pub read : TxHandler → ℕ → ℕ → Stream ℕ → Stream ℕ → TxHandler
read b l sent metas stats = record b {
  tx_meta = metas;
  tx_status = stats;
  length = l;
  remaining_space = 8000;
  error = 0;
  current_pkg_word = (l + 63) / 64;
  sent_byte_cnt = sent;
}

pub status_fields :
    (session l : ℕ)
    → session < 2 ^ 16
    → l < 2 ^ 16
    → (get_range 15 0 (accepted session l) ≡ session)
      × (get_range 31 16 (accepted session l) ≡ l)
      × (u16 (get_range 61 32 (accepted session l)) ≡ 8000)
      × (get_range 63 62 (accepted session l) ≡ 0)
unfolding accepted
status_fields session l h k = omega arith

pub status_read :
    (b : TxHandler) (l sent : ℕ) (input out : Stream Flit) (metas stats : Stream ℕ)
    → b.session_id < 2 ^ 16
    → l < 2 ^ 16
    → sent + l < 2 ^ 32
    → tcp_tx_handler (ready b sent input out metas (accepted b.session_id l ∷ stats))
      ≡ writing
          (read b l
            (sent + l)
            (metas ++ further b.session_id b.max_pkg_word b.expected (sent + l))
            stats)
          input
          out
          0
unfolding tcp_tx_handler tx_case
status_read b l sent input out metas stats h k w =
    let f = status_fields b.session_id l h k in ground (arith, f, append-nil metas)

-- What a handler is after a message: back at the start, `more` still to come, and these outputs.
pub record Finished (more out : Stream Flit) (metas stats cmd : Stream ℕ) (t : TxHandler)
    : Type 0 where
  pub state : t.state ≡ wait_cmd
  pub input : t.data_in ≡ more
  pub data_sent : t.tx_data ≡ out
  pub requested : t.tx_meta ≡ metas
  pub statuses : t.tx_status ≡ stats
  pub commands : t.cmd ≡ cmd
  pub word_cnt : t.word_cnt ≡ 0
  pub sent_byte_cnt : t.sent_byte_cnt ≡ 0

pub written_last :
    (b : TxHandler) (input out : Stream Flit)
    → b.expected ≤ b.sent_byte_cnt
    → Finished input out b.tx_meta b.tx_status b.cmd (written b input out)
unfolding written
written_last b input out h = ground arith

pub written_more :
    (b : TxHandler) (input out : Stream Flit)
    → b.sent_byte_cnt < b.expected
    → written b input out ≡ ready b b.sent_byte_cnt input out b.tx_meta b.tx_status
unfolding written
written_more b input out h = rw (lt→not_leb b.expected b.sent_byte_cnt h)

-- A packet of `l` bytes: its status is read and its words go out.
pub one_packet :
    (b : TxHandler) (l sent : ℕ) (ws more out : Stream Flit) (metas stats : Stream ℕ)
    → b.session_id < 2 ^ 16
    → 0 < l
    → l < 2 ^ 16
    → sent + l < 2 ^ 32
    → length ws ≡ (l + 63) / 64
    → calls
        (suc (length ws))
        (ready b sent (ws ++ more) out metas (accepted b.session_id l ∷ stats))
      ≡ written
          (read b l
            (sent + l)
            (metas ++ further b.session_id b.max_pkg_word b.expected (sent + l))
            stats)
          more
          (out ++ packet ws)
unfolding calls
one_packet b l sent ws more out metas stats h p k w e =
    ap (calls (length ws)) (status_read b l sent (ws ++ more) out metas stats h k w)
    ∙ send_packet_lem
        (read b l (sent + l) (metas ++ further b.session_id b.max_pkg_word b.expected (sent + l))
          stats)
        ws more out (omega arith) e (omega arith)

pub move_outputs :
    {more out out' : Stream Flit} {metas metas' stats cmd : Stream ℕ} {t t' : TxHandler}
    → out ≡ out'
    → metas ≡ metas'
    → t' ≡ t
    → Finished more out metas stats cmd t
    → Finished more out' metas' stats cmd t'
move_outputs o m e f = rw (← o, ← m, e) f
