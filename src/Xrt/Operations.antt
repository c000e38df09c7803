-- ===== src/Xrt/Operations.antt =====
-- The driver's operations and what the firmware's main loop does for them.
use accl.Base.{ℕ, ◌≡◌, refl, Bool, true, false}
use accl.HostCtrl.{Call}
use accl.Firmware.Machine.{Machine, ok}
use accl.Firmware.Code
use accl.Firmware.Main.{carry_out}
use accl.Xrt.Consts.{
  Operation, reduce_ring, allreduce_fused_ring, gather_ring, allgather_ring, bcast_rr, scatter_rr,
  allreduce_share_ring, nop, operation,
}

-- The operations whose number is none of the scenarios of the main loop.
abbrev pub has_no_scenario : Operation → Bool
has_no_scenario reduce_ring = true
has_no_scenario allreduce_fused_ring = true
has_no_scenario gather_ring = true
has_no_scenario allgather_ring = true
has_no_scenario bcast_rr = true
has_no_scenario scatter_rr = true
has_no_scenario allreduce_share_ring = true
has_no_scenario nop = true
has_no_scenario _ = false

-- A call of one of the driver's eight operations that the main loop has no scenario for (the four ring
-- operations, the two round-robin ones, the shared allreduce and nop) changes nothing, and is answered
-- with success.
pub carry_out-unserved :
    (o : Operation) (gpio : ℕ) (c : Call) (m : Machine)
    → has_no_scenario o ≡ true
    → carry_out gpio (record c { scenario = operation o }) m ≡ (ok Code.success, m)
unfolding carry_out operation
carry_out-unserved reduce_ring gpio c m h = refl
carry_out-unserved allreduce_fused_ring gpio c m h = refl
carry_out-unserved gather_ring gpio c m h = refl
carry_out-unserved allgather_ring gpio c m h = refl
carry_out-unserved bcast_rr gpio c m h = refl
carry_out-unserved scatter_rr gpio c m h = refl
carry_out-unserved allreduce_share_ring gpio c m h = refl
carry_out-unserved nop gpio c m h = refl
carry_out-unserved _ gpio c m h = absurd cc
