-- ===== src/Xrt/Buffers.antt =====
-- The table of spare buffers that the driver writes, as the firmware reads it
-- (kernel/fw/sw_apps/ccl_offload_control/src/ccl_offload_control.h: a count, then nine words a buffer).
use accl.Base.{ℕ, zero, suc, ◌+◌, ◌/◌, ◌%◌, ◌^◌, List, [], ◌∷◌}
use accl.Firmware.Machine.{RxBuffer}
use accl.Firmware.Buffers.{status_idle}

-- `rx_buffer *`: nine words from `at` on.
unfoldable pub buffer_in : (ℕ → ℕ) → ℕ → RxBuffer
buffer_in w at = record {
  addrl = w at;
  addrh = w (at + 4);
  max_len = w (at + 8);
  dma_tag = w (at + 12);
  status = w (at + 16);
  rx_tag = w (at + 20);
  rx_len = w (at + 24);
  rx_src = w (at + 28);
  sequence_number = w (at + 32);
}

-- `rx_buffer` after `rx_buffer`.
unfoldable pub table_in : (ℕ → ℕ) → ℕ → ℕ → List RxBuffer
table_in w at zero = []
table_in w at (suc k) = buffer_in w at ∷ table_in w (at + 36) k

-- A buffer that is free, at an address of 64 bits.
abbrev pub idle : ℕ → ℕ → RxBuffer
idle address size = record {
  addrl = address % 2 ^ 32;
  addrh = address / 2 ^ 32 % 2 ^ 32;
  max_len = size;
  dma_tag = 0;
  status = status_idle;
  rx_tag = 0;
  rx_len = 0;
  rx_src = 0;
  sequence_number = 0;
}

abbrev pub idle_from : (ℕ → ℕ) → ℕ → ℕ → ℕ → List RxBuffer
idle_from bo size i zero = []
idle_from bo size i (suc k) = idle (bo i) size ∷ idle_from bo size (suc i) k
