-- ===== src/Xrt.antt =====
-- driver/xrt/include/xlnx-device.hpp and xlnx-consts.hpp: the driver of the device, as the calls that it
-- makes of the XRT library, in their order. What XRT answers is an argument: the address of a buffer that
-- it allocates, and the word that a register holds.
pub mod Consts
pub mod Comm
pub mod Memory
pub mod Buffers
pub mod Early
pub mod Operations
use accl.Base.{
  ℕ, zero, suc, ◌+◌, ◌-◌, ◌*◌, ◌/◌, ◌%◌, ◌^◌, Bool, true, false, ◌==◌, leb, if◌then◌else◌, Option,
  none, some, List, [], ◌∷◌, ◌++◌,
}
use accl.Firmware.Machine.{entry}
use accl.Xrt.Consts.{
  ReduceFunc, fp, dp, i32, i64, FgFunc, enable_irq, enable_pkt, reset_periph, function, config, nop,
  operation, exchange_mem_offset_address,
}

-- An argument of the kernel: a number, or a buffer by its address, `none` for one that is not allocated.
pub data Arg : Type 0 where
  number : ℕ → Arg
  buffer : Option ℕ → Arg

-- A call of XRT: a write of a register, a run of the kernel with its arguments, and the zeros that a new
-- buffer is filled with and that go to the device.
pub data Event : Type 0 where
  write_register : ℕ → ℕ → Event
  run : List Arg → Event
  sync_zeros : ℕ → ℕ → Event

-- The fields of the driver's object that its operations read and write.
pub record Accl : Type 0 where
  pub nbufs : ℕ
  pub rx_buffer_size : ℕ
  pub rx_buffer_spares : List (Option ℕ)
  pub exchange_mem : ℕ
  pub comm_addr : ℕ

-- By the type of the operands; the function has no value for a number that is none of the four types,
-- which `ReduceFunc` excludes.
unfoldable pub compatible_size : ℕ → ReduceFunc → Bool
compatible_size nbytes fp = nbytes % 4 == 0
compatible_size nbytes i32 = nbytes % 4 == 0
compatible_size nbytes dp = nbytes % 8 == 0
compatible_size nbytes i64 = nbytes % 8 == 0

abbrev pub base_addr : ℕ
base_addr = 0x800

-- Buffers that are not allocated.
unfoldable pub unallocated : ℕ → List (Option ℕ)
unallocated zero = []
unallocated (suc n) = none ∷ unallocated n

-- A number of `w` bits, as an `int` of 32 bits or a `uint64_t` of 64.
unfoldable pub sign_extend : ℕ → ℕ → ℕ → ℕ
sign_extend w bits x =
    if leb (2 ^ (w - 1)) (x % 2 ^ w) then 2 ^ bits - 2 ^ w + x % 2 ^ w else x % 2 ^ w

-- The register is an `int` on its way to a `uint64_t`.
unfoldable pub read_reg : (ℕ → ℕ) → ℕ → ℕ
read_reg regs addr = sign_extend 32 64 (regs addr)

-- The constructor, with what the kernel's registers hold.
unfoldable pub construct : ℕ → ℕ → (ℕ → ℕ) → Accl
construct nbufs buffersize regs = record {
  nbufs = nbufs;
  rx_buffer_size = buffersize;
  rx_buffer_spares = unallocated nbufs;
  exchange_mem = read_reg regs (base_addr + exchange_mem_offset_address);
  comm_addr = 0;
}

-- `vector::insert` before the element `i`.
unfoldable pub insert_at : {A : Type 0} → ℕ → A → List A → List A
insert_at zero x xs = x ∷ xs
insert_at (suc i) x [] = x ∷ []
insert_at (suc i) x (y ∷ ys) = y ∷ insert_at i x ys

-- The first of the spare buffers.
unfoldable pub first_spare : Accl → Option ℕ
first_spare a = elim (entry a.rx_buffer_spares 0) [ none ↦ none | some b ↦ b ]

-- A run of the kernel that asks for a configuration.
unfoldable pub configure : FgFunc → Accl → Event
configure f a = run (
    number (operation config)
    ∷ number 0
    ∷ number 0
    ∷ number 0
    ∷ number (function f)
    ∷ number 0
    ∷ number 0
    ∷ number 0
    ∷ buffer (first_spare a)
    ∷ buffer (first_spare a)
    ∷ [])

-- The inner loop: `k` words of zeros after `addr`.
unfoldable pub zero_words : ℕ → ℕ → List Event
zero_words addr zero = []
zero_words addr (suc k) = write_register (addr + 4) 0 ∷ zero_words (addr + 4) k

-- The metadata of the buffer at `address`, after `addr`.
unfoldable pub metadata : ℕ → ℕ → ℕ → List Event
metadata addr address size =
    write_register (addr + 4) (address % 2 ^ 32)
    ∷ write_register (addr + 8) (address / 2 ^ 32 % 2 ^ 32)
    ∷ write_register (addr + 12) size
    ∷ zero_words (addr + 12) 6

-- The object once buffer `i` is allocated, with its metadata after `addr`.
unfoldable pub place : (ℕ → ℕ) → ℕ → ℕ → Accl → Accl
place bo i addr a = record a {
  rx_buffer_spares = insert_at i (some (bo i)) a.rx_buffer_spares;
  comm_addr = addr + 40;
}

-- The buffers from `i` on, `k` of them: buffer `i` is allocated at `bo i`.
unfoldable pub prep_from : (ℕ → ℕ) → ℕ → ℕ → ℕ → Accl → Accl × List Event
prep_from bo zero i addr a = (a, [])
prep_from bo (suc k) i addr a =
    let a' = place bo i addr a in
    let rest = prep_from bo k (suc i) (addr + 36) a' in
    (
      rest.0,
      sync_zeros (bo i) a.rx_buffer_size ∷ metadata addr (bo i) a.rx_buffer_size
          ++ configure enable_irq a' ∷ configure enable_pkt a' ∷ rest.1,
    )

unfoldable pub prep_rx_buffers : (ℕ → ℕ) → Accl → Accl × List Event
prep_rx_buffers bo a =
    let rest = prep_from bo a.nbufs 0 base_addr a in
    (rest.0, write_register base_addr a.nbufs ∷ rest.1)

unfoldable pub get_retcode : (ℕ → ℕ) → ℕ
get_retcode regs = read_reg regs 0xFFC

unfoldable pub get_hwid : (ℕ → ℕ) → ℕ
get_hwid regs = read_reg regs 0xFF8

-- Nine registers after `addr`, each cut to an `int8_t` and shown as an `int32_t`.
unfoldable pub dump_words : (ℕ → ℕ) → ℕ → ℕ → List ℕ
dump_words regs addr zero = []
dump_words regs addr (suc k) = sign_extend 8 32 (regs (addr + 4)) ∷ dump_words regs (addr + 4) k

-- What is shown of each buffer.
unfoldable pub dump_from : (ℕ → ℕ) → ℕ → ℕ → List (List ℕ)
dump_from regs addr zero = []
dump_from regs addr (suc k) = dump_words regs addr 9 ∷ dump_from regs (addr + 36) k

unfoldable pub dump_rx_buffers : (ℕ → ℕ) → Accl → List (List ℕ)
dump_rx_buffers regs a = dump_from regs base_addr a.nbufs

-- The destructor's run.
unfoldable pub reset : Accl → Event
reset a = configure reset_periph a

unfoldable pub nop_op : Accl → Event
nop_op a = run (
    number (operation nop)
    ∷ number 0
    ∷ number 0
    ∷ number 0
    ∷ number 0
    ∷ number 0
    ∷ number 0
    ∷ number 0
    ∷ buffer (first_spare a)
    ∷ buffer (first_spare a)
    ∷ [])
