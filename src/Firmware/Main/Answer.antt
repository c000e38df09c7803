-- ===== src/Firmware/Main/Answer.antt =====
-- Calls of the host reach the firmware, and each is answered.
use accl.Base.{
  ℕ, zero, suc, ◌<◌, ◌≡◌, ◌≢◌, refl, ap, ◌∙◌, true, false, ◌==◌, if◌then◌else◌, get_range, Option,
  none, some, List, [], ◌∷◌, write, arith,
}
use accl.HostCtrl.{Call, call_words, join_words}
use accl.HostCtrl.Calls.{IsCall, join_halves}
use accl.Firmware.Machine.{
  Machine, Arrival, Put, M, Result, ok, stop, Stop, raised, waits, fault, out_of_fuel, and_then,
  ◌>>=◌, update, getd, tngetd, putd, xil_out32,
}
use accl.Firmware.Cmd
use accl.Firmware.Sts
use accl.Firmware.Reg
use accl.Firmware.Main.{
  poll, wait_for_call, read_parameters, carry_out, finalize_call, serve, recover, serve_call,
}

-- A machine with given arrivals on the host's stream.
abbrev pub given : Machine → List Arrival → Machine
given m g = record m { gets = update m.gets Cmd.host g }

-- Words that are there, and a first one that comes after `k` tests.
abbrev pub at_once : List ℕ → List Arrival → List Arrival
at_once [] rest = rest
at_once (x ∷ xs) rest = record { failed_tests = 0; word = x } ∷ at_once xs rest

abbrev pub after : ℕ → List ℕ → List Arrival → List Arrival
after k [] rest = rest
after k (x ∷ xs) rest = record { failed_tests = k; word = x } ∷ at_once xs rest

update_at :
    (A : Type 0) (f : ℕ → A) (p : ℕ) (v w : A) (q : ℕ)
    → update (update f p v) p w q ≡ update f p w q
update_at A f p v w q =
    elim (p == q) as (λ b. (if b then w else (if b then v else f q)) ≡ (if b then w else f q)) [
      | true ↦ refl
      | false ↦ refl
    ]

given_again : (m : Machine) (g h : List Arrival) → given (given m g) h ≡ given m h
given_again m g h = λ i. record m { gets = λ q. update_at (List Arrival) m.gets Cmd.host g h q i }

-- What the stream holds before each read, and the machine after those.
abbrev tails : List ℕ → List Arrival → List (List Arrival)
tails [] rest = []
tails (x ∷ xs) rest = at_once (x ∷ xs) rest ∷ tails xs rest

abbrev nest : List (List Arrival) → Machine → Machine
nest [] m = m
nest (g ∷ gs) m = nest gs (given m g)

given-nest :
    (gs : List (List Arrival)) (m : Machine) (h : List Arrival) → given (nest gs m) h ≡ given m h
given-nest [] m h = refl
given-nest (g ∷ gs) m h = given-nest gs (given m g) h ∙ given_again m g h

-- The call with its addresses put together again.
abbrev joined : Call → Call
joined c = record c {
  addra = join_words (get_range 63 32 c.addra) (get_range 31 0 c.addra);
  addrb = join_words (get_range 63 32 c.addrb) (get_range 31 0 c.addrb);
  addrc = join_words (get_range 63 32 c.addrc) (get_range 31 0 c.addrc);
}

joined_lem : (c : Call) → IsCall c → joined c ≡ c
joined_lem c v = rw (
  join_halves c.addra v.addra_fits,
  join_halves c.addrb v.addrb_fits,
  join_halves c.addrc v.addrc_fits,
)

read_words :
    (c : Call) (m : Machine) (rest : List Arrival)
    → IsCall c
    → read_parameters (given m (at_once (call_words c) rest)) ≡ (ok c, given m rest)
unfolding read_parameters getd call_words
read_words c m rest v =
    ap (λ n. (ok (joined c), n)) (given-nest (tails (call_words c) rest) m rest)
    ∙ ap (λ d. (ok d, given m rest)) (joined_lem c v)

-- The tests of the stream are used up.
poll_lem :
    (fuel k : ℕ) (c : Call) (m : Machine) (rest : List Arrival)
    → k < fuel
    → poll fuel (given m (after k (call_words c) rest))
      ≡ (ok tt, given m (at_once (call_words c) rest))
unfolding poll tngetd call_words
poll_lem zero k c m rest h = absurd (omega arith)
poll_lem (suc fuel) zero c m rest h = refl
poll_lem (suc fuel) (suc k) c m rest h =
    ap (poll fuel) (given_again m (after (suc k) (call_words c) rest) (after k (call_words c) rest))
    ∙ poll_lem fuel k c m rest (omega arith)

served_by :
    (gpio k : ℕ) (c : Call) (m : Machine) (rest : List Arrival)
    → IsCall c
    → k < m.rounds
    → serve_call gpio (given m (after k (call_words c) rest))
      ≡ recover ((carry_out gpio c >>= finalize_call) (given m rest))
unfolding serve_call serve wait_for_call
served_by gpio k c m rest v h =
    ap
      (λ r. recover (and_then (λ _. read_parameters >>= λ d. carry_out gpio d >>= finalize_call) r))
      (poll_lem m.rounds k c m rest h)
    ∙ ap (λ r. recover (and_then (λ d. carry_out gpio d >>= finalize_call) r))
        (read_words c m rest v)

-- The machine once the host has its answer: the code is in the register of return values, and is the
-- last word on the stream of statuses.
abbrev pub with_answer : ℕ → Machine → Machine
with_answer code m = record m {
  regs = update m.regs Reg.retval code;
  puts = write m.puts (record { channel = Sts.host; value = code; control = false });
}

-- What a call comes to: its code is the answer, whether it is the value returned or the code of an error;
-- a call that stops for another reason has none.
abbrev pub answered : Result ℕ × Machine → Result (Unit {0}) × Machine
answered (ok code, m) = (ok tt, with_answer code m)
answered (stop (raised code), m) = (ok tt, with_answer code m)
answered (stop waits, m) = (stop waits, m)
answered (stop fault, m) = (stop fault, m)
answered (stop out_of_fuel, m) = (stop out_of_fuel, m)

answered_lem : (r : Result ℕ × Machine) → recover (and_then finalize_call r) ≡ answered r
unfolding recover finalize_call putd xil_out32
answered_lem (ok code, m) = refl
answered_lem (stop (raised code), m) = refl
answered_lem (stop waits, m) = refl
answered_lem (stop fault, m) = refl
answered_lem (stop out_of_fuel, m) = refl

-- A call with addresses of 64 bits that the host gives, with fewer empty polls of the main loop before it
-- than the model's bound on rounds, is taken from the stream whole, word by word,
-- and carried out; then the host is told, in the register and on the stream of statuses, the code that
-- carrying it out returned or, where it raised an error, the code of the error. A call that waits for
-- ever, faults or runs out of rounds is not answered.
pub call_served :
    (gpio k : ℕ) (c : Call) (m : Machine) (rest : List Arrival)
    → IsCall c
    → k < m.rounds
    → serve_call gpio (given m (after k (call_words c) rest))
      ≡ answered (carry_out gpio c (given m rest))
call_served gpio k c m rest v h =
    served_by gpio k c m rest v h ∙ answered_lem (carry_out gpio c (given m rest))

abbrev pub last_put : List Put → Option Put
last_put [] = none
last_put (x ∷ []) = some x
last_put (x ∷ y ∷ xs) = last_put (y ∷ xs)

last_put-write : (xs : List Put) (x : Put) → last_put (write xs x) ≡ some x
last_put-write [] x = refl
last_put-write (y ∷ []) x = refl
last_put-write (y ∷ z ∷ xs) x = last_put-write (z ∷ xs) x

-- The last word that was put is the answer, as it stands in the exchange memory; or the processor
-- waits for a word, reads outside of a table, or the rounds are used up, but no error is left.
unfoldable pub IsAnswered : Result (Unit {0}) × Machine → Type 0
IsAnswered (ok u, m) =
    last_put m.puts
    ≡ some (record { channel = Sts.host; value = m.regs Reg.retval; control = false })
IsAnswered (stop e, m) = (code : ℕ) → e ≢ raised code

finalize_answers : (code : ℕ) (m : Machine) → IsAnswered (finalize_call code m)
unfolding IsAnswered finalize_call putd xil_out32
finalize_answers code m =
    last_put-write m.puts (record { channel = Sts.host; value = code; control = false })

-- A stop is answered by the recovery.
stop_answers : (e : Stop) (m : Machine) → IsAnswered (recover (stop e, m))
unfolding IsAnswered recover
stop_answers (raised code) m = finalize_answers code m
stop_answers waits m = λ code h. cc
stop_answers fault m = λ code h. cc
stop_answers out_of_fuel m = λ code h. cc

then_answers :
    {A : Type 0} (f : A → M (Unit {0})) (r : Result A × Machine)
    → ((a : A) (m : Machine) → IsAnswered (recover (f a m)))
    → IsAnswered (recover (and_then f r))
then_answers f (ok a, m) h = h a m
then_answers f (stop e, m) h = stop_answers e m

ended_answers : (code : ℕ) (m : Machine) → IsAnswered (recover (finalize_call code m))
unfolding IsAnswered recover finalize_call putd xil_out32
ended_answers code m = finalize_answers code m

-- A round of the main loop that ends has put a word on the host's status stream last, and
-- that word stands in the exchange memory; a round that does not end waits for a word, has read
-- outside of a table or has used up the rounds: every error that is raised is answered.
pub call-IsAnswered : (gpio : ℕ) (m : Machine) → IsAnswered (serve_call gpio m)
unfolding serve_call serve
call-IsAnswered gpio m =
    then_answers (λ _. read_parameters >>= λ c. carry_out gpio c >>= finalize_call)
      (wait_for_call m)
      (λ _ m1.
        then_answers (λ c. carry_out gpio c >>= finalize_call) (read_parameters m1)
          (λ c m2.
            then_answers finalize_call (carry_out gpio c m2) (λ code m3. ended_answers code m3)))
