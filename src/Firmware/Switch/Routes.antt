-- ===== src/Firmware/Switch/Routes.antt =====
-- Which slave each master of the main switch reads from after `cfg_switch`.
use accl.Base.{
  ℕ, zero, suc, ◌+◌, ◌*◌, ◌≡◌, refl, ap, ◌∙◌, Bool, true, false, ◌==◌, if◌then◌else◌, u32, Option,
  none, some, List, [], ◌∷◌,
}
use accl.Firmware.Machine.{Machine, Result, ok, stop, M, raise, and_then, ◌>>◌, xil_out32, update}
use accl.Firmware.Reg
use accl.Firmware.Code
use accl.Firmware.Block.{await_block, await_reads, busy_from, next_busy}
use accl.Firmware.Dma.{expired}
use accl.Firmware.Switch.{
  Datapath, dma_loopback, dma_reduction, offchip_tx_udp, offchip_tx_tcp, offchip_udp_reduction,
  offchip_tcp_reduction, dma_ext_loopback, Master, m_udp_tx, m_tcp_tx, m_dma1_tx, m_arith_op0,
  m_arith_op1, m_ext_krnl, master, Slave, s_dma0_rx, s_dma1_rx, s_arith_res, s_ext_krnl, slave,
  ArithUnit, arith_internal, arith_external, arith_none, set_switch_datapath,
  disable_switch_datapath, apply_switch_config, cfg_main, cfg_arith, cfg_switch,
}

-- The connections of each scenario, as the comment above `cfg_switch` lists them; the last is the
-- code's, where the comment has DMA0.
unfoldable pub source : Datapath → Master → Option Slave
source dma_loopback m_dma1_tx = some s_dma1_rx
source dma_reduction m_arith_op0 = some s_dma0_rx
source dma_reduction m_arith_op1 = some s_dma1_rx
source dma_reduction m_dma1_tx = some s_arith_res
source offchip_tx_udp m_udp_tx = some s_dma1_rx
source offchip_tx_tcp m_tcp_tx = some s_dma1_rx
source offchip_udp_reduction m_arith_op0 = some s_dma0_rx
source offchip_udp_reduction m_arith_op1 = some s_dma1_rx
source offchip_udp_reduction m_udp_tx = some s_arith_res
source offchip_tcp_reduction m_arith_op0 = some s_dma0_rx
source offchip_tcp_reduction m_arith_op1 = some s_dma1_rx
source offchip_tcp_reduction m_tcp_tx = some s_arith_res
source dma_ext_loopback m_ext_krnl = some s_dma1_rx
source dma_ext_loopback m_dma1_tx = some s_ext_krnl
source _ _ = none

-- What the register of a master holds: the number of its slave, or the bit that turns it off.
abbrev pub register_of : Option Slave → ℕ
register_of none = 0x80000000
register_of (some s) = slave s

unfoldable pub register : Master → ℕ
register k = Reg.main_switch + 0x40 + 4 * master k

either_keeps :
    (b : Bool) (c d : M (Unit {0})) (m : Machine)
    → (c m).1 ≡ m
    → (d m).1 ≡ m
    → ((elim b as (λ _. M (Unit {0})) [ true ↦ c | false ↦ d ]) m).1 ≡ m
either_keeps true c d m p q = p
either_keeps false c d m p q = q

await_reads_keep : (code count n : ℕ) (m : Machine) → (await_reads code count n m).1 ≡ m
unfolding await_reads
await_reads_keep code count zero m = refl
await_reads_keep code count (suc n) m =
    either_keeps (expired m.timeout count) (raise code) (await_reads code (u32 (count + 1)) n) m
      refl (await_reads_keep code (u32 (count + 1)) n m)

await_from_keep :
    (code k : ℕ) (ns : List ℕ) (m : Machine)
    → (and_then (await_reads code 0) (busy_from ns m)).1.regs k ≡ m.regs k
await_from_keep code k [] m = ap (λ x. x.regs k) (await_reads_keep code 0 0 m)
await_from_keep code k (n ∷ ns) m =
    ap (λ x. x.regs k) (await_reads_keep code 0 n (record m { busy = ns }))

await_block_keep : (code k : ℕ) (m : Machine) → (await_block code m).1.regs k ≡ m.regs k
unfolding await_block next_busy
await_block_keep code k m = await_from_keep code k m.busy m

by_master :
    (P : Master → Type 0)
    → P m_udp_tx
    → P m_tcp_tx
    → P m_dma1_tx
    → P m_arith_op0
    → P m_arith_op1
    → P m_ext_krnl
    → (k : Master) → P k
by_master P a b c d e f m_udp_tx = a
by_master P a b c d e f m_tcp_tx = b
by_master P a b c d e f m_dma1_tx = c
by_master P a b c d e f m_arith_op0 = d
by_master P a b c d e f m_arith_op1 = e
by_master P a b c d e f m_ext_krnl = f

apply_keep :
    (k : Master) (base : ℕ) (m : Machine)
    → (base == register k) ≡ false
    → (apply_switch_config base m).1.regs (register k) ≡ m.regs (register k)
unfolding apply_switch_config xil_out32
apply_keep k base m h =
    await_block_keep Code.config_switch (register k) (record m { regs = update m.regs base 2 })
    ∙ ap (λ b. if b then 2 else m.regs (register k)) h

main_apart : (k : Master) → (Reg.main_switch == register k) ≡ false
unfolding register master
main_apart k =
    by_master (λ k. (Reg.main_switch == register k) ≡ false) refl refl refl refl refl refl k

cfg_arith_keep :
    (arith : ArithUnit) (k : Master) (m : Machine)
    → (cfg_arith arith m).1.regs (register k) ≡ m.regs (register k)
unfolding cfg_arith set_switch_datapath disable_switch_datapath xil_out32 register master
cfg_arith_keep arith_external k m =
    by_master (λ k. (cfg_arith arith_external m).1.regs (register k) ≡ m.regs (register k))
      (apply_keep m_udp_tx Reg.arith_switch _ refl) (apply_keep m_tcp_tx Reg.arith_switch _ refl)
      (apply_keep m_dma1_tx Reg.arith_switch _ refl)
      (apply_keep m_arith_op0 Reg.arith_switch _ refl)
      (apply_keep m_arith_op1 Reg.arith_switch _ refl)
      (apply_keep m_ext_krnl Reg.arith_switch _ refl) k
cfg_arith_keep arith_internal k m =
    by_master (λ k. (cfg_arith arith_internal m).1.regs (register k) ≡ m.regs (register k))
      (apply_keep m_udp_tx Reg.arith_switch _ refl) (apply_keep m_tcp_tx Reg.arith_switch _ refl)
      (apply_keep m_dma1_tx Reg.arith_switch _ refl)
      (apply_keep m_arith_op0 Reg.arith_switch _ refl)
      (apply_keep m_arith_op1 Reg.arith_switch _ refl)
      (apply_keep m_ext_krnl Reg.arith_switch _ refl) k
cfg_arith_keep arith_none k m = refl

arith_after :
    (arith : ArithUnit) (k : Master) (r : Result (Unit {0}) × Machine)
    → (and_then (λ _. cfg_arith arith) r).1.regs (register k) ≡ r.1.regs (register k)
arith_after arith k (ok u, m) = cfg_arith_keep arith k m
arith_after arith k (stop e, m) = refl

main_done : (scenario : Datapath) (m : Machine) → (cfg_main scenario m).0 ≡ ok tt
unfolding cfg_main set_switch_datapath disable_switch_datapath xil_out32
main_done dma_loopback m = refl
main_done dma_reduction m = refl
main_done offchip_tx_udp m = refl
main_done offchip_tx_tcp m = refl
main_done offchip_udp_reduction m = refl
main_done offchip_tcp_reduction m = refl
main_done dma_ext_loopback m = refl

abbrev Routed : Datapath → Machine → Master → Type 0
Routed scenario m k = (cfg_main scenario m).1.regs (register k) ≡ register_of (source scenario k)

routed : (scenario : Datapath) (k : Master) (m : Machine) → Routed scenario m k
unfolding cfg_main set_switch_datapath disable_switch_datapath xil_out32 register master slave
    source
routed dma_loopback k m = by_master (Routed dma_loopback m) refl refl refl refl refl refl k
routed dma_reduction k m = by_master (Routed dma_reduction m) refl refl refl refl refl refl k
routed offchip_tx_udp k m = by_master (Routed offchip_tx_udp m) refl refl refl refl refl refl k
routed offchip_tx_tcp k m = by_master (Routed offchip_tx_tcp m) refl refl refl refl refl refl k
routed offchip_udp_reduction k m =
    by_master (Routed offchip_udp_reduction m) refl refl refl refl refl refl k
routed offchip_tcp_reduction k m =
    by_master (Routed offchip_tcp_reduction m) refl refl refl refl refl refl k
routed dma_ext_loopback k m = by_master (Routed dma_ext_loopback m) refl refl refl refl refl refl k

-- After `cfg_switch`, whatever was there before and whether or not a switch came back in time, the
-- register of each master of the main switch holds the slave that the scenario gives it, and
-- turns the master off where it gives none.
pub cfg_switch_routes :
    (scenario : Datapath) (arith : ArithUnit) (k : Master) (m : Machine)
    → (cfg_switch scenario arith m).1.regs (register k) ≡ register_of (source scenario k)
unfolding cfg_switch
cfg_switch_routes scenario arith k m =
    let m' = (cfg_main scenario m).1 in
    let r = apply_switch_config Reg.main_switch m' in
    ap
      (λ x.
        (and_then (λ _. apply_switch_config Reg.main_switch >> cfg_arith arith) (x, m')).1.regs
          (register k))
      (main_done scenario m)
    ∙ arith_after arith k r
    ∙ apply_keep k Reg.main_switch m' (main_apart k)
    ∙ routed scenario k m
