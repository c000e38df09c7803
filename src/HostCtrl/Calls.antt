-- ===== src/HostCtrl/Calls.antt =====
-- Calls of the host reach the firmware.
use accl.Base.{
  ℕ, zero, suc, ◌^◌, ◌<◌, ◌≡◌, refl, ◌∙◌, ap, get_range, Option, none, some, List, [], ◌∷◌, ◌++◌,
  append-nil, append_assoc, length, Stream, arith,
}
use accl.HostCtrl.{Call, call_words, hostctrl, join_words, read_call}

-- The addresses are 64-bit values.
pub record IsCall (c : Call) : Type 0 where
  pub addra_fits : c.addra < 2 ^ 64
  pub addrb_fits : c.addrb < 2 ^ 64
  pub addrc_fits : c.addrc < 2 ^ 64

abbrev pub AllCalls : List Call → Type 0
AllCalls [] = Unit
AllCalls (c ∷ cs) = IsCall c × AllCalls cs

-- The host's calls one after the other, each when the one before has its status: the words of the
-- command stream and the statuses left, or `none` while a call waits.
unfoldable pub send_calls : List Call → Stream ℕ → Stream ℕ → Option (Stream ℕ × Stream ℕ)
send_calls [] cmd sts = some (cmd, sts)
send_calls (c ∷ cs) cmd sts =
    let words = (hostctrl c cmd sts).0 in
    elim (hostctrl c cmd sts).1 [ none ↦ none | some rest ↦ send_calls cs words rest ]

-- The firmware's reads of `n` calls.
unfoldable pub read_calls : ℕ → Stream ℕ → Option (List Call × Stream ℕ)
read_calls zero cmd = some ([], cmd)
read_calls (suc n) cmd = elim (read_call cmd) [
  | none ↦ none
  | some (c, rest) ↦ elim (read_calls n rest) [
    | none ↦ none
    | some (cs, left) ↦ some (c ∷ cs, left)
  ]
]

-- What the firmware reads of calls that the host has made.
unfoldable pub pass_calls : List Call → Stream ℕ → Option (List Call × Stream ℕ)
pass_calls cs sts = elim (send_calls cs [] sts) [
  | none ↦ none
  | some (cmd, left) ↦ read_calls (length cs) cmd
]

pub join_halves : (a : ℕ) → a < 2 ^ 64 → join_words (get_range 63 32 a) (get_range 31 0 a) ≡ a
unfolding join_words
join_halves a h = omega arith

read_call_lem :
    (c : Call) (rest : Stream ℕ) → IsCall c → read_call (call_words c ++ rest) ≡ some (c, rest)
unfolding read_call call_words
read_call_lem c rest v = rw (
  join_halves c.addra v.addra_fits,
  join_halves c.addrb v.addrb_fits,
  join_halves c.addrc v.addrc_fits,
)

all_words : List Call → List ℕ
all_words [] = []
all_words (c ∷ cs) = call_words c ++ all_words cs

send_calls_lem :
    (cs : List Call) (cmd ss later : Stream ℕ)
    → length ss ≡ length cs
    → send_calls cs cmd (ss ++ later) ≡ some (cmd ++ all_words cs, later)
unfolding send_calls all_words hostctrl
send_calls_lem [] cmd [] later h = rw append-nil
send_calls_lem [] cmd (x ∷ ss) later h = absurd (omega arith)
send_calls_lem (c ∷ cs) cmd [] later h = absurd (omega arith)
send_calls_lem (c ∷ cs) cmd (x ∷ ss) later h =
    send_calls_lem cs (cmd ++ call_words c) ss later (omega arith)
    ∙ ap (λ l. some (l, later)) (append_assoc cmd (call_words c) (all_words cs))

read_calls_lem :
    (cs : List Call) → AllCalls cs → read_calls (length cs) (all_words cs) ≡ some (cs, [])
unfolding read_calls all_words
read_calls_lem [] v = refl
read_calls_lem (c ∷ cs) v =
    rw (read_call_lem c (all_words cs) v.0, read_calls) (rw (read_calls_lem cs v.1, read_calls))

-- Calls that the host makes, each with a status to wait for, are read by the firmware as they
-- were made and in their order, with their 64-bit addresses put together again, and no word is
-- left over. The addresses have 64 bits.
pub calls_arrive :
    (cs : List Call) (ss later : Stream ℕ)
    → AllCalls cs
    → length ss ≡ length cs
    → pass_calls cs (ss ++ later) ≡ some (cs, [])
unfolding pass_calls
calls_arrive cs ss later v h =
    rw (send_calls_lem cs [] ss later h, pass_calls) (read_calls_lem cs v)
