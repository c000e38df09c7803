-- ===== src/Tcp/Open.antt =====
-- kernel/hls/tcp_intf: tcp_openPort.cpp, tcp_openConReq.cpp and tcp_openConResp.cpp, which carry
-- the firmware's requests for ports and connections to the TCP stack and its answers back. Whether
-- the stream to the firmware is full is the environment's choice at each call.
pub mod Order
use accl.Base.{
  ℕ, Bool, get_range, set_range, u16, Option, none, some, List, [], ◌∷◌, Stream, write,
  if◌then◌else◌,
}

pub data ListenState : Type 0 where
  open_port wait_port_status wr_sts : ListenState

-- The ports and statics of `tcp_openPort`.
pub record OpenPort : Type 0 where
  pub cmd : Stream ℕ
  pub sts : Stream ℕ
  pub listen_port : Stream ℕ
  pub port_status : Stream ℕ
  pub listen_state : ListenState
  pub success : ℕ

unfoldable pub listen_case : Bool → ListenState → OpenPort → OpenPort
listen_case full open_port s = elim s.cmd [
  | [] ↦ s
  | port ∷ rest ↦ record s {
    cmd = rest;
    listen_port = write s.listen_port (u16 port);
    listen_state = wait_port_status;
  }
]
listen_case full wait_port_status s = elim s.port_status [
  | [] ↦ s
  | status ∷ rest ↦ record s { port_status = rest; success = status; listen_state = wr_sts }
]
listen_case full wr_sts s =
    if full then s else record s { sts = write s.sts s.success; listen_state = open_port }

-- One call.
unfoldable pub tcp_open_port : Bool → OpenPort → OpenPort
unfolding listen_case
tcp_open_port full s = listen_case full s.listen_state s

-- A request for a connection; `fresh` is what the 64 bits of the packet held before.
unfoldable pub open_connection : ℕ → ℕ → ℕ → ℕ
open_connection fresh ip port = set_range 47 32 (set_range 31 0 fresh ip) port

-- `tcp_openConReq`: it waits for two words; the result is the rest of the commands, and the packet.
unfoldable pub tcp_open_con_req : ℕ → Stream ℕ → Option (Stream ℕ × ℕ)
unfolding open_connection
tcp_open_con_req fresh (ip ∷ port ∷ rest) = some (rest, open_connection fresh ip port)
tcp_open_con_req fresh _ = none

pub data RespState : Type 0 where
  wait_status wr_session wr_ip wr_port wr_success : RespState

-- The ports and statics of `tcp_openConResp`.
pub record OpenConResp : Type 0 where
  pub sts : Stream ℕ
  pub open_status : Stream ℕ
  pub state : RespState
  pub session : ℕ
  pub success : ℕ
  pub ip : ℕ
  pub port : ℕ

unfoldable pub resp_case : Bool → RespState → OpenConResp → OpenConResp
resp_case full wait_status s = elim s.open_status [
  | [] ↦ s
  | pkt ∷ rest ↦ record s {
    open_status = rest;
    session = get_range 15 0 pkt;
    success = get_range 23 16 pkt;
    ip = get_range 55 24 pkt;
    port = get_range 71 56 pkt;
    state = wr_session;
  }
]
resp_case full wr_session s =
    if full then s else record s { sts = write s.sts s.session; state = wr_ip }
resp_case full wr_ip s = if full then s else record s { sts = write s.sts s.ip; state = wr_port }
resp_case full wr_port s =
    if full then s else record s { sts = write s.sts s.port; state = wr_success }
resp_case full wr_success s =
    if full then s else record s { sts = write s.sts s.success; state = wait_status }

-- One call.
unfoldable pub tcp_open_con_resp : Bool → OpenConResp → OpenConResp
unfolding resp_case
tcp_open_con_resp full s = resp_case full s.state s
