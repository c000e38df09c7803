-- ===== src/Firmware/Code.antt =====
-- What a call of the host returns (ccl_offload_control.h, EXCEPTIONS).
use accl.Base.{ℕ}

abbrev pub success : ℕ
success = 0

abbrev pub dma_mismatch : ℕ
dma_mismatch = 1

abbrev pub dma_internal : ℕ
dma_internal = 2

abbrev pub dma_decode : ℕ
dma_decode = 3

abbrev pub dma_slave : ℕ
dma_slave = 4

abbrev pub dma_not_okay : ℕ
dma_not_okay = 5

abbrev pub dma_not_end_of_packet : ℕ
dma_not_end_of_packet = 6

abbrev pub dma_not_expected_btt : ℕ
dma_not_expected_btt = 7

abbrev pub dma_timeout : ℕ
dma_timeout = 8

abbrev pub config_switch : ℕ
config_switch = 9

abbrev pub dequeue_buffer_timeout : ℕ
dequeue_buffer_timeout = 10

abbrev pub dequeue_buffer_status : ℕ
dequeue_buffer_status = 11

abbrev pub receive_timeout : ℕ
receive_timeout = 12

abbrev pub dequeue_buffer_dmatag_mismatch : ℕ
dequeue_buffer_dmatag_mismatch = 13

abbrev pub dequeue_buffer_index : ℕ
dequeue_buffer_index = 14

abbrev pub not_implemented : ℕ
not_implemented = 15

abbrev pub spare_buff_id_not_valid : ℕ
spare_buff_id_not_valid = 16

abbrev pub open_port_not_succeeded : ℕ
open_port_not_succeeded = 17

abbrev pub open_com_not_succeeded : ℕ
open_com_not_succeeded = 18

abbrev pub dma_size : ℕ
dma_size = 19

abbrev pub arith : ℕ
arith = 20

abbrev pub pack_timeout_sts : ℕ
pack_timeout_sts = 21

abbrev pub pack_seq_number : ℕ
pack_seq_number = 22
