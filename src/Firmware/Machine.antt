-- ===== src/Firmware/Machine.antt =====
-- The control processor of ccl_offload_control.c and .h: its static variables, the tables of the
-- exchange memory, the registers, and the streams to and from the other blocks. A function of the
-- firmware is a computation on this state that may end early, by a `longjmp`, by a read of a stream
-- on which nothing comes, or by a read outside of a table; what was written stays written.
use accl.Base.{
  ℕ, zero, suc, ◌/◌, ◌%◌, ◌^◌, ◌≡◌, refl, ◌∙◌, Bool, true, false, ◌==◌, if◌then◌else◌, Option, none,
  some, List, [], ◌∷◌, write,
}

-- A spare buffer (`rx_buffer`).
pub record RxBuffer : Type 0 where
  pub addrl : ℕ
  pub addrh : ℕ
  pub max_len : ℕ
  pub dma_tag : ℕ
  pub status : ℕ
  pub rx_tag : ℕ
  pub rx_len : ℕ
  pub rx_src : ℕ
  pub sequence_number : ℕ

-- A rank of a communicator (`comm_rank`).
pub record Rank : Type 0 where
  pub ip : ℕ
  pub port : ℕ
  pub inbound_seq : ℕ
  pub outbound_seq : ℕ
  pub session : ℕ

-- A communicator as it stands in the exchange memory (`communicator`).
pub record Communicator : Type 0 where
  pub size : ℕ
  pub local_rank : ℕ
  pub ranks : List Rank

-- A word that a stream delivers, after so many tests that find the stream empty.
pub record Arrival : Type 0 where
  pub failed_tests : ℕ
  pub word : ℕ

-- A word put on a stream, with the control bit that `cputd` sets.
pub record Put : Type 0 where
  pub channel : ℕ
  pub value : ℕ
  pub control : Bool

-- The state. `-1` in the table of tags is `none`; `comms` is by address; `regs` holds the words last
-- written to memory-mapped registers, `puts` the words put on streams, in order; `gets` is by stream;
-- `busy` says for each wait on a register how many reads find its block at work. `irqs` says for each point at which interrupts are let in
-- which are pending. A
-- loop that waits may use up `rounds`, which is no part of the firmware.
pub record Machine : Type 0 where
  pub use_tcp : Bool
  pub dma_tag : ℕ
  pub num_rx_enqueued : ℕ
  pub timeout : ℕ
  pub dma_tag_lookup : List (Option ℕ)
  pub dma_transaction_size : ℕ
  pub max_dma_in_flight : ℕ
  pub rx_buffers : List RxBuffer
  pub comms : ℕ → Communicator
  pub regs : ℕ → ℕ
  pub puts : List Put
  pub gets : ℕ → List Arrival
  pub busy : List ℕ
  pub irqs : List ℕ
  pub rounds : ℕ

pub data Stop : Type 0 where
  raised : ℕ → Stop
  waits fault out_of_fuel : Stop

pub data Result (A : Type 0) : Type 0 where
  ok : A → Result A
  stop : Stop → Result A

abbrev pub M : Type 0 → Type 0
M A = Machine → Result A × Machine

abbrev pub pure : {A : Type 0} → A → M A
pure a m = (ok a, m)

abbrev pub stop_with : {A : Type 0} → Stop → M A
stop_with e m = (stop e, m)

-- `longjmp(excp_handler, code)`
abbrev pub raise : {A : Type 0} → ℕ → M A
raise code m = (stop (raised code), m)

abbrev pub and_then : {A B : Type 0} → (A → M B) → Result A × Machine → Result B × Machine
and_then f (ok a, m) = f a m
and_then f (stop e, m) = (stop e, m)

infixl 5 ◌>>=◌ ◌>>◌
abbrev pub ◌>>=◌ : {A B : Type 0} → M A → (A → M B) → M B
◌>>=◌ c f m = and_then f (c m)

abbrev pub ◌>>◌ : {A B : Type 0} → M A → M B → M B
c >> d = c >>= λ _. d

abbrev pub gets_of : {A : Type 0} → (Machine → A) → M A
gets_of f m = (ok (f m), m)

abbrev pub modify : (Machine → Machine) → M (Unit {0})
modify f m = (ok tt, f m)

and_then_assoc :
    {A B C : Type 0} (f : A → M B) (g : B → M C) (r : Result A × Machine)
    → and_then g (and_then f r) ≡ and_then (λ a m. and_then g (f a m)) r
and_then_assoc f g (ok a, m) = refl
and_then_assoc f g (stop e, m) = refl

and_then-pure : {A : Type 0} (r : Result A × Machine) → and_then pure r ≡ r
and_then-pure (ok a, m) = refl
and_then-pure (stop e, m) = refl

pub bind_assoc :
    {A B C : Type 0} (c : M A) (f : A → M B) (g : B → M C) (m : Machine)
    → (c >>= f >>= g) m ≡ (c >>= (λ a. f a >>= g)) m
bind_assoc c f g m = and_then_assoc f g (c m)

pub bind_pure : {A : Type 0} (c : M A) (m : Machine) → (c >>= pure) m ≡ c m
bind_pure c m = and_then-pure (c m)

and_then_cong :
    {A B : Type 0} (f g : A → M B) (r : Result A × Machine)
    → ((a : A) (m : Machine) → f a m ≡ g a m)
    → and_then f r ≡ and_then g r
and_then_cong f g (ok a, m) h = h a m
and_then_cong f g (stop e, m) h = refl

pub bind_cong :
    {A B : Type 0} (c : M A) (f g : A → M B) (m : Machine)
    → ((a : A) (m : Machine) → f a m ≡ g a m)
    → (c >>= f) m ≡ (c >>= g) m
bind_cong c f g m h = and_then_cong f g (c m) h

pub bind_assoc_two :
    {A B C D : Type 0} (c : M A) (d : A → M B) (e : B → M C) (p : C → M D) (m : Machine)
    → (c >>= (λ a. d a >>= e) >>= p) m ≡ (c >>= (λ a. d a >>= (λ b. e b >>= p))) m
bind_assoc_two c d e p m =
    bind_assoc c (λ a. d a >>= e) p m
    ∙ bind_cong c (λ a. d a >>= e >>= p) (λ a. d a >>= (λ b. e b >>= p)) m
        (λ a m'. bind_assoc (d a) e p m')

-- A word put on a stream, without and with the control bit.
unfoldable pub putd : ℕ → ℕ → M (Unit {0})
putd channel value = modify (λ m. record m {
  puts = write m.puts (record { channel = channel; value = value; control = false });
})

unfoldable pub cputd : ℕ → ℕ → M (Unit {0})
cputd channel value = modify (λ m. record m {
  puts = write m.puts (record { channel = channel; value = value; control = true });
})

abbrev pub update {ℓ} : {A : Type ℓ} → (ℕ → A) → ℕ → A → ℕ → A
update f p v q = if p == q then v else f q

-- A word read from a stream, which waits for it; `read_from` is given what is on the stream.
abbrev pub read_from : ℕ → List Arrival → M ℕ
read_from channel [] m = (stop waits, m)
read_from channel (a ∷ rest) m = (ok a.word, record m { gets = update m.gets channel rest })

unfoldable pub getd : ℕ → M ℕ
getd channel m = read_from channel (m.gets channel) m

-- A test of a stream: 0 if a word is there; `test_from` is given what is on the stream.
abbrev pub test_word : ℕ → Arrival → List Arrival → ℕ → M ℕ
test_word channel a rest zero m = (ok 0, m)
test_word channel a rest (suc n) m =
    (ok 1, record m { gets = update m.gets channel (record a { failed_tests = n } ∷ rest) })

abbrev pub test_from : ℕ → List Arrival → M ℕ
test_from channel [] m = (ok 1, m)
test_from channel (a ∷ rest) m = test_word channel a rest a.failed_tests m

unfoldable pub tngetd : ℕ → M ℕ
tngetd channel m = test_from channel (m.gets channel) m

-- A write to a register.
unfoldable pub xil_out32 : ℕ → ℕ → M (Unit {0})
xil_out32 offset value = modify (λ m. record m { regs = update m.regs offset value })

-- A read of one.
unfoldable pub xil_in32 : ℕ → M ℕ
xil_in32 offset = gets_of (λ m. m.regs offset)

-- An entry of a table of the exchange memory.
abbrev pub entry {ℓ} : {A : Type ℓ} → List A → ℕ → Option A
entry [] i = none
entry (x ∷ xs) zero = some x
entry (x ∷ xs) (suc i) = entry xs i

abbrev pub or_stop : {A : Type 0} → Option A → Stop → M A
or_stop none e = stop_with e
or_stop (some a) e = pure a

-- One bit of a word.
abbrev pub bit : ℕ → ℕ → Bool
bit i x = x / 2 ^ i % 2 == 1
