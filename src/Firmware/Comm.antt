-- ===== src/Firmware/Comm.antt =====
-- Communicators, and the connections of their ranks (ccl_offload_control.c). A communicator is
-- named by its address in the exchange memory, where its ranks stay.
use Prim.Native.Nat.{bit_or}
use accl.Base.{
  ℕ, zero, suc, ◌+◌, ◌-◌, ◌^◌, Bool, true, false, ◌&&◌, not, ◌==◌, ltb, if◌then◌else◌, u32, none,
  set,
}
use accl.Firmware.Machine.{
  Machine, Rank, M, pure, gets_of, modify, ◌>>=◌, ◌>>◌, fault, putd, getd, update, entry, or_stop,
}
use accl.Firmware.Cmd
use accl.Firmware.Sts
use accl.Firmware.Code

-- `communicator`: what `find_comm` returns; without ranks if `found` is false.
pub record World : Type 0 where
  pub address : ℕ
  pub size : ℕ
  pub local_rank : ℕ
  pub found : Bool

unfoldable pub find_comm : ℕ → M World
find_comm adr = gets_of (λ m.
    let c = m.comms adr in
    if not (c.size == 0) && ltb c.local_rank c.size
    then record { address = adr; size = c.size; local_rank = c.local_rank; found = true }
    else record { address = adr; size = 0; local_rank = 0; found = false })

-- `world->ranks[i]`
unfoldable pub rank_at : World → ℕ → M Rank
rank_at w i m = or_stop (if w.found then entry (m.comms w.address).ranks i else none) fault m

abbrev pub set_comm_rank : Machine → ℕ → ℕ → Rank → Machine
set_comm_rank m adr i r = record m {
  comms = update m.comms adr (let c = m.comms adr in record c { ranks = set c.ranks i r });
}

-- An assignment to `world->ranks[i]`.
unfoldable pub set_rank : World → ℕ → Rank → M (Unit {0})
set_rank w i r = modify (λ m. set_comm_rank m w.address i r)

-- The requests for connections: ranks `i` to `i + k - 1`, but for the local one.
unfoldable pub put_con_requests : World → ℕ → ℕ → M (Unit {0})
put_con_requests w i zero = pure tt
put_con_requests w i (suc k) = elim (i == w.local_rank) [
  | true ↦ put_con_requests w (suc i) k
  | false ↦ do
    r ← rank_at w i
    putd Cmd.tcp_con r.ip
    putd Cmd.tcp_con r.port
    put_con_requests w (suc i) k
]

-- The first rank from `j` on with the address and port gets the session.
unfoldable pub store_session : World → ℕ → ℕ → ℕ → ℕ → ℕ → M (Unit {0})
store_session w ip port session j zero = pure tt
store_session w ip port session j (suc k) = do
  r ← rank_at w j
  elim ((ip == r.ip) && (port == r.port)) [
    | true ↦ set_rank w j (record r { session = session })
    | false ↦ store_session w ip port session (suc j) k
  ]

-- `k` answers to the requests.
unfoldable pub get_con_replies : World → ℕ → ℕ → M ℕ
get_con_replies w zero ret = pure ret
get_con_replies w (suc k) ret = do
  session ← getd Sts.tcp_con
  dst_ip ← getd Sts.tcp_con
  dst_port ← getd Sts.tcp_con
  success ← getd Sts.tcp_con
  elim (success == 0) [
    | true ↦ get_con_replies w k Code.open_com_not_succeeded
    | false ↦ do store_session w dst_ip dst_port session 0 w.size; get_con_replies w k ret
  ]

-- `openCon`; `size - 1` is unsigned.
unfoldable pub open_con : ℕ → M ℕ
open_con comm = do
  w ← find_comm comm
  put_con_requests w 0 w.size
  get_con_replies w (u32 (w.size + 2 ^ 32 - 1)) Code.success

-- `openPort`
unfoldable pub open_port : ℕ → M ℕ
open_port comm = do
  w ← find_comm comm
  r ← rank_at w w.local_rank
  putd Cmd.tcp_port r.port
  success ← getd Sts.tcp_port
  pure (if success == 0 then Code.open_port_not_succeeded else Code.success)

unfoldable pub init_connection : ℕ → M ℕ
init_connection comm = do
  ret_open_port ← open_port comm
  ret_open_con ← open_con comm
  pure (bit_or ret_open_port ret_open_con)
