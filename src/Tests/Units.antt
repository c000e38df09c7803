-- ===== src/Tests/Units.antt =====
-- The theorems on the host control and arithmetic kernels, at small inputs.
use accl.Base.{
  ℕ, ◌+◌, ◌-◌, ◌*◌, ◌%◌, ◌^◌, ◌≡◌, refl, true, false, Bool, some, List, [], ◌∷◌, ◌++◌, Flit, arith,
}
use accl.HostCtrl.{Call}
use accl.HostCtrl.Calls.{pass_calls, calls_arrive}
use accl.Arith.{elementwise_sum}
use accl.Arith.Sums.{AreSums, elementwise_sum_lem}

abbrev call : Call
call = record {
  scenario = 3;
  len = 1024;
  comm = 16;
  root_src_dst = 1;
  function = 0;
  msg_tag = 42;
  buf0_type = 0;
  buf1_type = 0;
  buf2_type = 0;
  addra = 5 * 2 ^ 32 + 64;
  addrb = 128;
  addrc = 7 * 2 ^ 40;
}

calls_arrive_example :
    pass_calls (call ∷ call ∷ []) ((0 ∷ 0 ∷ []) ++ (0 ∷ [])) ≡ some (call ∷ call ∷ [], [])
calls_arrive_example =
    calls_arrive (call ∷ call ∷ []) (0 ∷ 0 ∷ []) (0 ∷ []) (omega arith, (omega arith, tt)) refl

abbrev add : ℕ → ℕ → ℕ
add a b = (a + b) % 2 ^ 32

abbrev word : ℕ → Bool → Flit
word b l = record { bits = b; keep = 2 ^ 64 - 1; last = l }

elementwise_sum_lem_example :
    (rs : List Flit) × AreSums add 32
      (word 1 false ∷ word 2 true ∷ [])
      (word 10 false ∷ word 20 true ∷ [])
      rs
    × (elementwise_sum add 32 0 2 (record {
      in1 = (word 1 false ∷ word 2 true ∷ []) ++ [];
      in2 = (word 10 false ∷ word 20 true ∷ []) ++ (word 30 true ∷ []);
      out = [];
    })
        ≡ some (record { in1 = []; in2 = word 30 true ∷ []; out = [] ++ rs }))
elementwise_sum_lem_example =
    elementwise_sum_lem add 32 0 (word 1 false ∷ word 2 true ∷ [])
      (word 10 false ∷ word 20 true ∷ []) [] (word 30 true ∷ []) [] refl (omega arith)
