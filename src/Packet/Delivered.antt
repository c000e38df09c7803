-- ===== src/Packet/Delivered.antt =====
-- A payload as it should arrive behind a depacketizer.
use Prim.Native.Nat.{min}
use accl.Base.{ℕ, suc, ◌-◌, ◌*◌, leb, List, [], ◌∷◌, Flit}
use accl.Packet.Header.{lanes}

-- A payload of `bytes` bytes from its word `j` on: each word has the data that was sent, the lanes
-- of the bytes that are left, and TLAST on the word of the last byte alone.
unfoldable pub delivered : ℕ → ℕ → List Flit → List Flit
delivered bytes j [] = []
delivered bytes j (w ∷ ws) =
    record { bits = w.bits; keep = lanes (min 64 (bytes - 64 * j)); last = leb (bytes - 64 * j) 64 }
    ∷ delivered bytes (suc j) ws
