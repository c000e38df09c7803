-- ===== src/Firmware/Ring.antt =====
-- The collectives that go round the ring of ranks (ccl_offload_control.c): gather, allgather, reduce,
-- reduce-scatter and allreduce. All arithmetic on ranks and lengths is on 32 bits.
pub mod Chunks
pub mod Moves
pub mod Reduced
pub mod Shared
pub mod Allreduce
use accl.Base.{
  ℕ, zero, suc, ◌+◌, ◌-◌, ◌*◌, ◌/◌, ◌%◌, ◌^◌, Bool, true, false, ◌&&◌, not, ◌==◌, ltb,
  if◌then◌else◌, u32,
}
use accl.Firmware.Machine.{Machine, M, pure, gets_of, ◌>>=◌, ◌>>◌}
use accl.Firmware.Code
use accl.Firmware.Comm.{World, find_comm}
use accl.Firmware.Block.{div_by, mod_by, number_of_bytes_per}
use accl.Firmware.Buffers.{tag_any}
use accl.Firmware.Receive.{
  receive_offchip_world, receive_and_accumulate, receive_and_reduce_offchip, relay_to_other_rank,
}
use accl.Firmware.Move.{copy, transmit_offchip_world}

unfoldable pub next_in_ring : World → M ℕ
next_in_ring w = mod_by (u32 (w.local_rank + 1)) w.size

-- The rank before `rank`.
unfoldable pub rank_before : World → ℕ → ℕ
rank_before w rank = u32 (rank + w.size + 2 ^ 32 - 1) % w.size

unfoldable pub prev_in_ring : World → M ℕ
prev_in_ring w = mod_by (u32 (w.local_rank + w.size + 2 ^ 32 - 1)) w.size

-- Where the chunk of a rank is.
unfoldable pub chunk_addr : ℕ → ℕ → ℕ → ℕ
chunk_addr base len rank = (base + u32 (len * rank)) % 2 ^ 64

-- The next call, if the last one was a success.
abbrev pub if_success : ℕ → M ℕ → M ℕ
if_success ret next = if ret == Code.success then next else pure ret

-- The root's loop, for `k` more values of its counter.
unfoldable pub gather_root : World → ℕ → ℕ → ℕ → ℕ → ℕ → ℕ → ℕ → M ℕ
gather_root w prev len src dst curr_pos zero ret = pure ret
gather_root w prev len src dst curr_pos (suc k) ret = elim (ret == Code.success) [
  | false ↦ pure ret
  | true ↦ do
    ret' ← elim (curr_pos == w.local_rank) as (λ _. M ℕ) [
      | true ↦ copy len src (chunk_addr dst len curr_pos)
      | false ↦ receive_offchip_world w prev len (chunk_addr dst len curr_pos) tag_any
    ]
    gather_root w prev len src dst (rank_before w curr_pos) k ret'
]

unfoldable pub relay_times : World → ℕ → ℕ → ℕ → ℕ → M (Unit {0})
relay_times w prev next len zero = pure tt
relay_times w prev next len (suc k) = do
  relay_to_other_rank w prev next len tag_any
  relay_times w prev next len k

-- How many messages a rank that is not the root passes on.
unfoldable pub number_of_shift : World → ℕ → ℕ
number_of_shift w root_rank =
    u32 (u32 (w.size + w.local_rank + 2 ^ 32 - root_rank) % w.size + 2 ^ 32 - 1)

unfoldable pub gather_ring : ℕ → ℕ → ℕ → ℕ → ℕ → M ℕ
gather_ring comm len root_rank src_buf_addr dst_buf_addr = do
  w ← find_comm comm
  next ← next_in_ring w
  prev ← prev_in_ring w
  elim (root_rank == w.local_rank) [
    | true ↦ gather_root w prev len src_buf_addr dst_buf_addr prev w.size Code.success
    | false ↦ do
      ret ← transmit_offchip_world w next len src_buf_addr tag_any
      relay_times w prev next len (number_of_shift w root_rank)
      pure ret
  ]

-- The loop of allgather_ring: `i` counts up while `k` counts down.
unfoldable pub allgather_loop : World → ℕ → ℕ → ℕ → ℕ → ℕ → ℕ → ℕ → ℕ → ℕ → M ℕ
allgather_loop w next prev len src dst curr_pos i zero ret = pure ret
allgather_loop w next prev len src dst curr_pos i (suc k) ret = elim (ret == Code.success) [
  | false ↦ pure ret
  | true ↦ do
    ret' ← elim (curr_pos == w.local_rank) as (λ _. M ℕ) [
      | true ↦ copy len src (chunk_addr dst len curr_pos)
      | false ↦ do
        r ← receive_offchip_world w prev len (chunk_addr dst len curr_pos) tag_any
        elim (ltb (i + 1) w.size) [
          | true ↦ transmit_offchip_world w next len (chunk_addr dst len curr_pos) tag_any
          | false ↦ pure r
        ]
    ]
    allgather_loop w next prev len src dst (rank_before w curr_pos) (suc i) k ret'
]

unfoldable pub allgather_ring : ℕ → ℕ → ℕ → ℕ → M ℕ
allgather_ring comm len src_buf_addr dst_buf_addr = do
  w ← find_comm comm
  next ← next_in_ring w
  prev ← prev_in_ring w
  ret ← transmit_offchip_world w next len src_buf_addr tag_any
  allgather_loop w next prev len src_buf_addr dst_buf_addr w.local_rank 0 w.size ret

unfoldable pub reduce_ring_streaming : ℕ → ℕ → ℕ → ℕ → ℕ → ℕ → M ℕ
reduce_ring_streaming comm len function root_rank src_addr dst_addr = do
  w ← find_comm comm
  next ← next_in_ring w
  prev ← prev_in_ring w
  elim (prev == root_rank) [
    | true ↦ transmit_offchip_world w next len src_addr tag_any
    | false ↦ elim (w.local_rank == root_rank) [
      | false ↦ receive_and_reduce_offchip w prev next len function src_addr tag_any
      | true ↦ receive_and_accumulate w prev len function src_addr dst_addr tag_any
    ]
  ]

-- The loop of scatter_reduce, and what follows it with the chunk that it has come to.
unfoldable pub reduce_chunks : World → ℕ → ℕ → ℕ → ℕ → ℕ → ℕ → ℕ → ℕ → M ℕ
reduce_chunks w next prev len function src dst chunk zero =
    if ltb 1 w.size
    then receive_and_accumulate w prev len function (chunk_addr src len chunk)
        (chunk_addr dst len chunk) tag_any
    else pure Code.success
reduce_chunks w next prev len function src dst chunk (suc k) = do
  ret ← receive_and_reduce_offchip w prev next len function (chunk_addr src len chunk) tag_any
  if_success ret (reduce_chunks w next prev len function src dst (rank_before w chunk) k)

unfoldable pub scatter_reduce : ℕ → ℕ → ℕ → ℕ → ℕ → M ℕ
scatter_reduce comm len function src_addr dst_addr = do
  w ← find_comm comm
  next ← next_in_ring w
  prev ← prev_in_ring w
  ret ← transmit_offchip_world w next len (chunk_addr src_addr len prev) tag_any
  if_success ret (
      reduce_chunks w next prev len function src_addr dst_addr (rank_before w prev)
        (u32 (w.size + 2 ^ 32 - 2)))

-- The length of a chunk: a share of the buffer, made a multiple of the operand's width.
unfoldable pub chunk_len : ℕ → ℕ → ℕ → ℕ
chunk_len len size width =
    let share = len / size in
    u32 (share + 2 ^ 32 - share % width + (if share % width == 0 then 0 else width))

-- The second stage of all_reduce_share.
unfoldable pub share_chunks : World → ℕ → ℕ → ℕ → ℕ → ℕ → ℕ → M ℕ
share_chunks w next prev len dst chunk zero = pure Code.success
share_chunks w next prev len dst chunk (suc k) = do
  ret ← transmit_offchip_world w next len (chunk_addr dst len chunk) tag_any
  if_success ret (do
    ret' ← receive_offchip_world w prev len (chunk_addr dst len (rank_before w chunk)) tag_any
    if_success ret' (share_chunks w next prev len dst (rank_before w chunk) k))

-- What scatter_reduce returns is not looked at.
unfoldable pub all_reduce_share : ℕ → ℕ → ℕ → ℕ → ℕ → M ℕ
all_reduce_share comm len function src_addr dst_addr = do
  w ← find_comm comm
  div_by len w.size
  let share = chunk_len len w.size (number_of_bytes_per function)
  next ← next_in_ring w
  prev ← prev_in_ring w
  scatter_reduce comm share function src_addr dst_addr
  share_chunks w next prev share dst_addr w.local_rank (u32 (w.size + 2 ^ 32 - 1))
