-- ===== src/Xrt/Consts.antt =====
-- driver/xrt/include/xlnx-consts.hpp: what the driver calls the operations, the functions of a
-- configuration and the types of operands.
use accl.Base.{ℕ}

abbrev pub exchange_mem_offset_address : ℕ
exchange_mem_offset_address = 0x1000

pub data FgFunc : Type 0 where
  enable_irq disable_irq reset_periph enable_pkt set_timeout init_connection open_port : FgFunc
  open_con use_tcp_stack use_udp_stack start_profiling end_profiling : FgFunc
  set_dma_transaction_size : FgFunc

unfoldable pub function : FgFunc → ℕ
function enable_irq = 0
function disable_irq = 1
function reset_periph = 2
function enable_pkt = 3
function set_timeout = 4
function init_connection = 5
function open_port = 6
function open_con = 7
function use_tcp_stack = 8
function use_udp_stack = 9
function start_profiling = 10
function end_profiling = 11
function set_dma_transaction_size = 12

pub data Operation : Type 0 where
  config sendop recvop bcast scatter gather reduce allgather allreduce accumulate copy : Operation
  reduce_ring allreduce_fused_ring gather_ring allgather_ring ext_stream_krnl : Operation
  ext_reduce bcast_rr scatter_rr allreduce_share_ring nop : Operation

unfoldable pub operation : Operation → ℕ
operation config = 0
operation sendop = 1
operation recvop = 2
operation bcast = 3
operation scatter = 4
operation gather = 5
operation reduce = 6
operation allgather = 7
operation allreduce = 8
operation accumulate = 9
operation copy = 10
operation reduce_ring = 11
operation allreduce_fused_ring = 12
operation gather_ring = 13
operation allgather_ring = 14
operation ext_stream_krnl = 15
operation ext_reduce = 16
operation bcast_rr = 17
operation scatter_rr = 18
operation allreduce_share_ring = 19
operation nop = 255

pub data ReduceFunc : Type 0 where
  fp dp i32 i64 : ReduceFunc
