-- ===== src/Firmware/Main/Once.antt =====
-- A call tells the host one thing, its status, whatever it does; and no call but a configuration changes
-- the settings.
use accl.Base.{
  ℕ, ◌≡◌, ◌≢◌, refl, ◌∙◌, ap, Bool, true, false, ◌==◌, if◌then◌else◌, List, [], ◌∷◌, write,
}
use accl.Firmware.Machine.{
  Machine, Put, M, Result, ok, stop, Stop, raised, waits, fault, out_of_fuel, and_then, putd,
  xil_out32,
}
use accl.Firmware.Keeps.{Keeps}
use accl.Firmware.Reg
use accl.Firmware.Sts
use accl.Firmware.Frame.{IsFrame}
use accl.Firmware.Frame.Served.{
  IsCallFrame, wait_for_call-Keeps, read_parameters-Keeps, carry_out-Keeps,
}
use accl.Firmware.Main.{
  clear_exchmem, wait_for_call, read_parameters, carry_out, finalize_call, serve, recover,
  serve_call,
}

-- What the host has been told, in order.
unfoldable pub told : List Put → List ℕ
told [] = []
told (x ∷ xs) = if x.channel == Sts.host then x.value ∷ told xs else told xs

told-write :
    (xs : List Put) (x : Put)
    → told (write xs x) ≡ (if x.channel == Sts.host then write (told xs) x.value else told xs)
unfolding told
told-write [] x =
    elim (x.channel == Sts.host)
      as (λ b. (if b then x.value ∷ [] else []) ≡ (if b then x.value ∷ [] else [])) [
        | true ↦ refl
        | false ↦ refl
      ]
told-write (y ∷ ys) x =
    elim (y.channel == Sts.host)
      as (λ b. (if b then y.value ∷ told (write ys x) else told (write ys x)) ≡ (
        if x.channel == Sts.host
        then write (if b then y.value ∷ told ys else told ys) x.value
        else (if b then y.value ∷ told ys else told ys))) [
          | true ↦
              ap (λ l. y.value ∷ l) (told-write ys x)
              ∙ out (x.channel == Sts.host) y.value (told ys) x.value
          | false ↦ told-write ys x
        ]
  where
    out :
        (b : Bool) (y : ℕ) (l : List ℕ) (v : ℕ)
        → y ∷ (if b then write l v else l) ≡ (if b then write (y ∷ l) v else y ∷ l)
    out true y l v = refl
    out false y l v = refl

-- The host has been told `hs` and no more.
abbrev pub HasTold : List ℕ → Machine → Type 0
HasTold hs m = told m.puts ≡ hs

pub told-IsFrame : (hs : List ℕ) → IsFrame (HasTold hs)
told-IsFrame hs = record {
  keep_puts = λ m p h t.
      told-write m.puts p ∙ ap (λ b. if b then write (told m.puts) p.value else told m.puts) h ∙ t;
  keep_gets = λ m g t. t;
  keep_regs = λ m g t. t;
  keep_busy = λ m g t. t;
  keep_irqs = λ m g t. t;
  keep_tag = λ m g t. t;
  keep_buffers = λ m i b t. t;
  keep_tags = λ m n g t. t;
  keep_comms = λ m adr i r t. t;
}

pub told-IsCallFrame : (hs : List ℕ) → IsCallFrame (HasTold hs)
unfolding clear_exchmem
told-IsCallFrame hs = record {
  frame = told-IsFrame hs;
  keep_settings = λ m tcp time size max t. t;
  keep_reset = λ m t. t;
}

-- A round of the main loop has told the host one thing more, the status that it has left in the
-- register, or it has not come to an end and has told nothing; then it has not raised an error.
unfoldable pub TellsOnce : List ℕ → Result (Unit {0}) × Machine → Type 0
TellsOnce hs (ok u, m) = HasTold (write hs (m.regs Reg.retval)) m
TellsOnce hs (stop e, m) = HasTold hs m × ((code : ℕ) → e ≢ raised code)

finalize_tells :
    (hs : List ℕ) (code : ℕ) (m : Machine) → HasTold hs m → TellsOnce hs (finalize_call code m)
unfolding TellsOnce finalize_call putd xil_out32
finalize_tells hs code m t = told-write m.puts _ ∙ ap (λ l. write l code) t

recover_tells :
    (hs : List ℕ) (e : Stop) (m : Machine) → HasTold hs m → TellsOnce hs (recover (stop e, m))
unfolding TellsOnce recover
recover_tells hs (raised code) m t = finalize_tells hs code m t
recover_tells hs waits m t = (t, λ code h. cc)
recover_tells hs fault m t = (t, λ code h. cc)
recover_tells hs out_of_fuel m t = (t, λ code h. cc)

then_tells :
    {A : Type 0} (hs : List ℕ) (f : A → M (Unit {0})) (r : Result A × Machine)
    → HasTold hs r.1
    → ((a : A) (m : Machine) → HasTold hs m → TellsOnce hs (recover (f a m)))
    → TellsOnce hs (recover (and_then f r))
then_tells hs f (ok a, m) t h = h a m t
then_tells hs f (stop e, m) t h = recover_tells hs e m t

ended_tells :
    (hs : List ℕ) (code : ℕ) (m : Machine)
    → HasTold hs m
    → TellsOnce hs (recover (finalize_call code m))
unfolding recover finalize_call putd xil_out32
ended_tells hs code m t = finalize_tells hs code m t

-- From any state, a round of the main loop that ends has told the host one word more than before, in
-- any call, with or without an error: the status that it has left in the register. A round that does
-- not end has told the host nothing, and has not raised an error.
pub call-TellsOnce : (gpio : ℕ) (m : Machine) → TellsOnce (told m.puts) (serve_call gpio m)
unfolding serve_call serve Keeps
call-TellsOnce gpio m =
    let hs = told m.puts in
    then_tells hs _ (wait_for_call m) (wait_for_call-Keeps (HasTold hs) (told-IsFrame hs) m refl)
      (λ _ m1 t1.
        then_tells hs _ (read_parameters m1)
          (read_parameters-Keeps (HasTold hs) (told-IsFrame hs) m1 t1)
          (λ c m2 t2.
            then_tells hs finalize_call (carry_out gpio c m2)
              (carry_out-Keeps (HasTold hs) (told-IsCallFrame hs) gpio c m2 t2)
              (λ code m3 t3. ended_tells hs code m3 t3)))
