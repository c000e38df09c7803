-- ===== src/Xrt/Comm/Writes.antt =====
-- What the constructor of a communicator writes.
use accl.Base.{
  ℕ, zero, suc, ◌+◌, ◌≡◌, ◌≢◌, refl, sym, ap, ◌∙◌, Bool, true, false, ◌==◌, ==→eq, eq→==, ne→not_==,
  not_==→ne, if◌then◌else◌, Option, none, some, List, take, arith, [], ◌∷◌,
}
use accl.Xrt.{Event, write_register}
use accl.Xrt.Comm.{
  value_or, Built, finished, logic_error, insert, ip_from_rank, ip, ip_encode, write_ranks,
  communicator,
}

-- The addresses that are known: one, of the process's own rank.
record IsKnown (S : Type 0) (empty first : S) (rank : ℕ) (f : ℕ → Option S) : Type 0 where
  own : f rank ≡ some first
  others : (q : ℕ) → q ≢ rank → ip_from_rank empty f q ≡ empty

module _ {S : Type 0} (empty first : S) (rank : ℕ) where
  -- A value for the own rank, or the empty string for another, changes nothing that is known.
  insert-IsKnown :
      (f : ℕ → Option S) (k : ℕ) (v : S)
      → (k ≢ rank → v ≡ empty)
      → IsKnown S empty first rank f
      → IsKnown S empty first rank (insert f k v)
  unfolding insert ip_from_rank
  insert-IsKnown f k v h s = record {
    own =
        elim (k == rank) as (λ b. (if b then some (value_or v (f rank)) else f rank) ≡ some first) [
          | true ↦ ap (λ o. some (value_or v o)) s.own
          | false ↦ s.own
        ];
    others = λ q apart.
        elim (k == q)
            as (λ b.
              (k == q) ≡ b → value_or empty (if b then some (value_or v (f q)) else f q) ≡ empty) [
                | true ↦ λ e.
                    let known = s.others q apart in
                    ap (λ x. value_or x (f q)) (h (λ own. apart (sym (==→eq k q e) ∙ own))) ∙ known
                | false ↦ λ e. s.others q apart
              ]
          refl;
  }

  first-IsKnown : IsKnown S empty first rank (insert (λ _. none) rank first)
  unfolding insert ip_from_rank
  first-IsKnown = record {
    own = rw (eq→== rank rank refl) refl;
    others = λ q apart. rw (ne→not_== rank q (λ e. apart (sym e))) refl;
  }

  -- What is read at a rank.
  known_ip :
      (f : ℕ → Option S) (i : ℕ)
      → IsKnown S empty first rank f
      → ip_from_rank empty f i ≡ (if i == rank then first else empty)
  unfolding ip_from_rank
  known_ip f i s =
      elim (i == rank)
          as (λ b. (i == rank) ≡ b → ip_from_rank empty f i ≡ (if b then first else empty)) [
            | true ↦ λ e.
                ap (λ q. ip_from_rank empty f q) (==→eq i rank e) ∙ ap (λ o. value_or empty o) s.own
            | false ↦ λ e. s.others i (not_==→ne i rank e)
          ]
        refl

module _ {S : Type 0} (empty base_ipaddr : S) (append : S → S → S) (to_string : ℕ → S)
    (inet_addr : S → ℕ) where
  abbrev encoded : ℕ → ℕ → ℕ
  encoded rank i = inet_addr (if i == rank then append base_ipaddr (to_string 1) else empty)

  -- Two words a rank, after `addr`: the address that is known, and the rank's number.
  abbrev pub rows : ℕ → ℕ → ℕ → ℕ → List Event
  rows rank zero i addr = []
  rows rank (suc k) i addr =
      write_register (addr + 4) (encoded rank i)
      ∷ write_register (addr + 4 + 4) i
      ∷ rows rank k (suc i) (addr + 4 + 4)

  abbrev ip_of : ℕ → S
  ip_of i = ip empty base_ipaddr append to_string inet_addr i

  abbrev ranks_of : Bool → ℕ → ℕ → ℕ → ℕ → (ℕ → Option S) → Built S
  ranks_of vnx rank k i addr f =
      write_ranks empty base_ipaddr append to_string inet_addr vnx rank k i addr f

  rows_written :
      (rank k i addr : ℕ) (f : ℕ → Option S)
      → IsKnown S empty (ip_of 0) rank (insert f rank (ip_of i))
      → (ranks_of true rank k i addr f).writes ≡ rows rank k i addr
  unfolding write_ranks ip_encode ip
  rows_written rank zero i addr f s = refl
  rows_written rank (suc k) i addr f s =
      let f' = insert f rank (ip_of i) in
      let next =
        insert-IsKnown empty (ip_of 0) rank (insert f' i empty) rank (ip_of (suc i))
          (λ apart. absurd (apart refl))
          (insert-IsKnown empty (ip_of 0) rank f' i empty (λ _. refl) s) in
      ap
        (λ x.
          write_register (addr + 4) (inet_addr x)
          ∷ write_register (addr + 4 + 4) i
          ∷ (ranks_of true rank k (suc i) (addr + 4 + 4) (insert f' i empty)).writes)
        (known_ip empty (ip_of 0) rank f' i s)
      ∙ ap (λ l. write_register (addr + 4) (encoded rank i) ∷ write_register (addr + 4 + 4) i ∷ l)
          (rows_written rank k (suc i) (addr + 4 + 4) (insert f' i empty) next)

  ranks_finished :
      (rank k i addr : ℕ) (f : ℕ → Option S) → (ranks_of true rank k i addr f).ended ≡ finished
  unfolding write_ranks
  ranks_finished rank zero i addr f = refl
  ranks_finished rank (suc k) i addr f = ranks_finished rank k (suc i) (addr + 4 + 4) _

  abbrev pub built : ℕ → ℕ → Bool → ℕ → ℕ → Built S
  built world_size comm_addr vnx rank local_rank =
      communicator empty base_ipaddr append to_string inet_addr world_size comm_addr vnx rank
        local_rank

  throws :
      (rank n addr : ℕ) (f : ℕ → Option S)
      → IsKnown S empty (ip_of 0) rank (insert f rank (ip_of 0))
      → ((ranks_of false rank n 0 addr f).ended ≡ (if n == 0 then finished else logic_error))
        × ((ranks_of false rank n 0 addr f).writes ≡ take 1 (rows rank n 0 addr))
  unfolding write_ranks ip_encode ip
  throws rank zero addr f s = (refl, refl)
  throws rank (suc n) addr f s = (
    rw (ne→not_== (suc n) 0 (λ e. omega arith)) refl,
    ap (λ x. write_register (addr + 4) (inet_addr x) ∷ [])
        (known_ip empty (ip_of 0) rank (insert f rank (ip_of 0)) 0 s),
  )

  -- With `vnx` the constructor ends, and writes the number of ranks, the local rank, and two words for
  -- each rank: the encoded first address of the range for the process's own rank and the encoded empty
  -- string for any other, then the rank's number. Without it the constructor throws at the first rank,
  -- when its address is written and its port is not, and ends only if there is no rank.
  pub communicator_lem :
      (world_size comm_addr rank local_rank : ℕ)
      → ((built world_size comm_addr true rank local_rank).ended ≡ finished)
        × ((built world_size comm_addr true rank local_rank).writes
            ≡ write_register comm_addr world_size
              ∷ write_register (comm_addr + 4) local_rank
              ∷ rows rank world_size 0 (comm_addr + 4))
        × ((built world_size comm_addr false rank local_rank).ended
            ≡ (if world_size == 0 then finished else logic_error))
        × ((built world_size comm_addr false rank local_rank).writes
            ≡ write_register comm_addr world_size
              ∷ write_register (comm_addr + 4) local_rank
              ∷ take 1 (rows rank world_size 0 (comm_addr + 4)))
  unfolding communicator
  communicator_lem world_size comm_addr rank local_rank =
      let known = first-IsKnown empty (ip_of 0) rank in
      let head : List Event → List Event =
        λ l. write_register comm_addr world_size ∷ write_register (comm_addr + 4) local_rank ∷ l in
      let t = throws rank world_size (comm_addr + 4) (λ _. none) known in
      (
        ranks_finished rank world_size 0 (comm_addr + 4) (λ _. none),
        ap head (rows_written rank world_size 0 (comm_addr + 4) (λ _. none) known),
        t.0,
        ap head t.1,
      )
