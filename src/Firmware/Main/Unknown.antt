-- ===== src/Firmware/Main/Unknown.antt =====
-- A call of a scenario that the main loop does not know.
use accl.Base.{ℕ, ◌<◌, ◌≡◌, refl, ap, ◌∙◌, false, ◌==◌, List, [], ◌∷◌}
use accl.HostCtrl.{Call, call_words}
use accl.HostCtrl.Calls.{IsCall}
use accl.Firmware.Machine.{Machine, Arrival, ok}
use accl.Firmware.Code
use accl.Firmware.Main.{carry_out, serve_call}
use accl.Firmware.Main.Answer.{given, after, answered, with_answer, call_served}

abbrev pub IsNoneOf : ℕ → List ℕ → Type 0
IsNoneOf n [] = Unit
IsNoneOf n (x ∷ xs) = ((n == x) ≡ false) × IsNoneOf n xs

-- The scenarios of the firmware's header: configuration, the ten operations, the two on an external
-- kernel, and the reduce-scatter.
abbrev pub scenarios : List ℕ
scenarios = 0 ∷ 1 ∷ 2 ∷ 3 ∷ 4 ∷ 5 ∷ 6 ∷ 7 ∷ 8 ∷ 9 ∷ 10 ∷ 15 ∷ 16 ∷ 20 ∷ []

unknown_skipped :
    (gpio : ℕ) (c : Call) (m : Machine)
    → IsNoneOf c.scenario scenarios
    → carry_out gpio c m ≡ (ok Code.success, m)
unfolding carry_out
unknown_skipped gpio c m h =
    let t = h.1.1.1.1.1.1.1 in
    rw
      (
        h.0, h.1.0, h.1.1.0, h.1.1.1.0, h.1.1.1.1.0, h.1.1.1.1.1.0, h.1.1.1.1.1.1.0, t.0, t.1.0,
        t.1.1.0, t.1.1.1.0, t.1.1.1.1.0, t.1.1.1.1.1.0, t.1.1.1.1.1.1.0,
      )
      refl

-- A call with addresses of 64 bits and any scenario but the fourteen that the main loop knows, given with
-- fewer empty polls before it than the model's bound on rounds, is taken from the stream whole, and the
-- host is told that it has succeeded; nothing else of the machine changes, so nothing of it is carried out.
pub unknown_answered :
    (gpio k : ℕ) (c : Call) (m : Machine) (rest : List Arrival)
    → IsCall c
    → k < m.rounds
    → IsNoneOf c.scenario scenarios
    → serve_call gpio (given m (after k (call_words c) rest))
      ≡ (ok tt, with_answer Code.success (given m rest))
unknown_answered gpio k c m rest v h apart =
    call_served gpio k c m rest v h ∙ ap answered (unknown_skipped gpio c (given m rest) apart)
