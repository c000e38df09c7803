-- ===== src/Xrt/Comm.antt =====
-- driver/xrt/include/xlnx-comm.hpp: the constructor of a communicator, as the writes that it makes and the
-- exception that it throws. Strings with their concatenation, `to_string` and `inet_addr`, and what MPI and
-- the environment say of the process, are arguments.
pub mod Writes
use accl.Base.{
  ℕ, zero, suc, ◌+◌, Bool, true, false, ◌==◌, if◌then◌else◌, Option, none, some, List, [], ◌∷◌,
  ◌++◌,
}
use accl.Xrt.{Event, write_register}

pub data Ended : Type 0 where
  finished logic_error : Ended

-- What the constructor leaves: how it has ended, `rank_to_ip`, and the writes.
pub record Built (S : Type 0) : Type 0 where
  pub ended : Ended
  pub rank_to_ip : ℕ → Option S
  pub writes : List Event

-- What an option holds, or `v`.
abbrev pub value_or : {S : Type 0} → S → Option S → S
value_or v none = v
value_or v (some u) = u

-- `map::insert`: a key that is there keeps its value.
unfoldable pub insert : {S : Type 0} → (ℕ → Option S) → ℕ → S → ℕ → Option S
insert f k v q = if k == q then some (value_or v (f q)) else f q

-- `map::operator[]`: the value; a key that is not there gets the empty string.
unfoldable pub ip_from_rank : {S : Type 0} → S → (ℕ → Option S) → ℕ → S
ip_from_rank empty f rank = value_or empty (f rank)

module _ {S : Type 0} (empty base_ipaddr : S) (append : S → S → S) (to_string : ℕ → S)
    (inet_addr : S → ℕ) where
  -- The address of rank `i`; the first is 1.
  unfoldable pub ip : ℕ → S
  ip i = append base_ipaddr (to_string (i + 1))

  unfoldable pub ip_encode : S → ℕ
  ip_encode s = inet_addr s

  -- The loop from rank `i` on, `k` of them; port_from_rank throws.
  unfoldable pub write_ranks : Bool → ℕ → ℕ → ℕ → ℕ → (ℕ → Option S) → Built S
  write_ranks vnx rank zero i addr f = record { ended = finished; rank_to_ip = f; writes = [] }
  write_ranks vnx rank (suc k) i addr f =
      let f' = insert f rank (ip i) in
      let word = ip_encode (ip_from_rank empty f' i) in
      let f'' = insert f' i empty in
      let rest = write_ranks vnx rank k (suc i) (addr + 4 + 4) f'' in
      elim vnx [
        | true ↦ record rest {
          writes = write_register (addr + 4) word ∷ write_register (addr + 4 + 4) i ∷ rest.writes;
        }
        | false ↦ record {
          ended = logic_error;
          rank_to_ip = f'';
          writes = write_register (addr + 4) word ∷ [];
        }
      ]

  unfoldable pub communicator : ℕ → ℕ → Bool → ℕ → ℕ → Built S
  communicator world_size comm_addr vnx rank local_rank =
      let built = write_ranks vnx rank world_size 0 (comm_addr + 4) (λ _. none) in
      record built {
        writes =
            write_register comm_addr world_size
            ∷ write_register (comm_addr + 4) local_rank
            ∷ built.writes;
      }
