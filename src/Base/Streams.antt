-- ===== src/Base/Streams.antt =====
-- `hls::stream<T>` as the list of the items that it holds, oldest first: `write` appends, `read`
-- takes the head, `empty` tests for no items. A blocking `read` of an empty stream is `none`.
use mathlib.Core.Bool.{Bool, true, false}
use mathlib.Core.List.{List, [], ◌∷◌, ◌++◌}
use Prim.Native.Nat.{ℕ}

abbrev pub Stream {ℓ} : Type ℓ → Type ℓ
Stream A = List A

module _ {ℓ} {A : Type ℓ} where
  abbrev pub write : Stream A → A → Stream A
  write xs x = xs ++ (x ∷ [])

  abbrev pub empty : Stream A → Bool
  empty [] = true
  empty (x ∷ xs) = false

-- A word of an AXI stream of 512 bits (`ap_axiu<512, 0, 0, 0>`): the data, the byte mask and TLAST.
pub record Flit : Type 0 where
  pub bits : ℕ
  pub keep : ℕ
  pub last : Bool

-- The same with a destination (`ap_axiu<512, 0, 0, 16>` and `pkt512r`).
pub record Routed : Type 0 where
  pub bits : ℕ
  pub keep : ℕ
  pub last : Bool
  pub dest : ℕ
