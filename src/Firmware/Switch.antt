-- ===== src/Firmware/Switch.antt =====
-- The stream switches (ccl_offload_control.c): which slave each master reads from.
pub mod Routes
use accl.Base.{ℕ, ◌+◌, ◌*◌, Bool, true, false, ◌==◌, if◌then◌else◌, List, [], ◌∷◌}
use accl.Firmware.Machine.{Machine, M, pure, ◌>>=◌, ◌>>◌, xil_out32}
use accl.Firmware.Reg
use accl.Firmware.Code
use accl.Firmware.Block.{await_block}

-- `DATAPATH_*`
pub data Datapath : Type 0 where
  dma_loopback dma_reduction offchip_tx_udp offchip_tx_tcp : Datapath
  offchip_udp_reduction offchip_tcp_reduction dma_ext_loopback : Datapath

-- `MAIN_SWITCH_M_*`
pub data Master : Type 0 where
  m_udp_tx m_tcp_tx m_dma1_tx m_arith_op0 m_arith_op1 m_ext_krnl : Master

unfoldable pub master : Master → ℕ
master m_udp_tx = 0
master m_tcp_tx = 1
master m_dma1_tx = 2
master m_arith_op0 = 3
master m_arith_op1 = 4
master m_ext_krnl = 5

-- `MAIN_SWITCH_S_*`
pub data Slave : Type 0 where
  s_dma0_rx s_dma1_rx s_dma2_rx s_arith_res s_ext_krnl : Slave

unfoldable pub slave : Slave → ℕ
slave s_dma0_rx = 0
slave s_dma1_rx = 1
slave s_dma2_rx = 2
slave s_arith_res = 3
slave s_ext_krnl = 4

-- `ARITH_*`
pub data ArithUnit : Type 0 where
  arith_internal arith_external arith_none : ArithUnit

unfoldable pub set_switch_datapath : ℕ → ℕ → ℕ → M (Unit {0})
set_switch_datapath base src dst = xil_out32 (base + 0x40 + 4 * dst) src

unfoldable pub disable_switch_datapath : ℕ → ℕ → M (Unit {0})
disable_switch_datapath base dst = xil_out32 (base + 0x40 + 4 * dst) 0x80000000

unfoldable pub apply_switch_config : ℕ → M (Unit {0})
apply_switch_config base = do xil_out32 base 2; await_block Code.config_switch

abbrev connect : Slave → Master → M (Unit {0})
connect s m = set_switch_datapath Reg.main_switch (slave s) (master m)

abbrev disable : Master → M (Unit {0})
disable m = disable_switch_datapath Reg.main_switch (master m)

-- The first `switch` of `cfg_switch`.
unfoldable pub cfg_main : Datapath → M (Unit {0})
cfg_main dma_loopback = do
  connect s_dma1_rx m_dma1_tx
  disable m_arith_op0
  disable m_arith_op1
  disable m_udp_tx
  disable m_tcp_tx
  disable m_ext_krnl
cfg_main dma_reduction = do
  connect s_dma0_rx m_arith_op0
  connect s_dma1_rx m_arith_op1
  connect s_arith_res m_dma1_tx
  disable m_udp_tx
  disable m_tcp_tx
  disable m_ext_krnl
cfg_main offchip_tx_udp = do
  connect s_dma1_rx m_udp_tx
  disable m_arith_op0
  disable m_arith_op1
  disable m_dma1_tx
  disable m_tcp_tx
  disable m_ext_krnl
cfg_main offchip_tx_tcp = do
  connect s_dma1_rx m_tcp_tx
  disable m_arith_op0
  disable m_arith_op1
  disable m_dma1_tx
  disable m_udp_tx
  disable m_ext_krnl
cfg_main offchip_udp_reduction = do
  connect s_dma0_rx m_arith_op0
  connect s_dma1_rx m_arith_op1
  connect s_arith_res m_udp_tx
  disable m_dma1_tx
  disable m_tcp_tx
  disable m_ext_krnl
cfg_main offchip_tcp_reduction = do
  connect s_dma0_rx m_arith_op0
  connect s_dma1_rx m_arith_op1
  connect s_arith_res m_tcp_tx
  disable m_dma1_tx
  disable m_udp_tx
  disable m_ext_krnl
cfg_main dma_ext_loopback = do
  connect s_dma1_rx m_ext_krnl
  connect s_ext_krnl m_dma1_tx
  disable m_arith_op0
  disable m_arith_op1
  disable m_tcp_tx
  disable m_udp_tx

abbrev switch_arith : ℕ → ℕ → M (Unit {0})
switch_arith src dst = set_switch_datapath Reg.arith_switch src dst

-- The second `switch`, with what it is followed by: the masters of the arithmetic switch are the
-- operands of the internal unit (0, 1), those of the external one (2, 3) and the result (4), its
-- slaves the operands (0, 1) and the two results (2, 3).
unfoldable pub cfg_arith : ArithUnit → M (Unit {0})
cfg_arith arith_external = do
  switch_arith 0 2
  switch_arith 1 3
  switch_arith 3 4
  disable_switch_datapath Reg.arith_switch 0
  disable_switch_datapath Reg.arith_switch 1
  apply_switch_config Reg.arith_switch
cfg_arith arith_internal = do
  switch_arith 0 0
  switch_arith 1 1
  switch_arith 2 4
  disable_switch_datapath Reg.arith_switch 2
  disable_switch_datapath Reg.arith_switch 3
  apply_switch_config Reg.arith_switch
cfg_arith arith_none = pure tt

unfoldable pub cfg_switch : Datapath → ArithUnit → M (Unit {0})
cfg_switch scenario arith = do
  cfg_main scenario
  apply_switch_config Reg.main_switch
  cfg_arith arith
