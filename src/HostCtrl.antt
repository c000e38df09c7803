-- ===== src/HostCtrl.antt =====
-- kernel/hls/hostctrl/hostctrl.cpp: the host's call becomes fifteen words of the command stream,
-- and the kernel ends when a status is there. The words are read back by the loop of the firmware's
-- `main` (kernel/fw/sw_apps/ccl_offload_control/src/ccl_offload_control.c).
pub mod Calls
use accl.Base.{
  ℕ, ◌+◌, ◌*◌, ◌%◌, ◌^◌, get_range, Option, none, some, List, [], ◌∷◌, ◌++◌, Stream, write,
}

-- The arguments of a call: three buffers with their types and addresses, and what is to be done.
pub record Call : Type 0 where
  pub scenario : ℕ
  pub len : ℕ
  pub comm : ℕ
  pub root_src_dst : ℕ
  pub function : ℕ
  pub msg_tag : ℕ
  pub buf0_type : ℕ
  pub buf1_type : ℕ
  pub buf2_type : ℕ
  pub addra : ℕ
  pub addrb : ℕ
  pub addrc : ℕ

-- The fifteen writes, in order; an address goes as its low half and its high half.
unfoldable pub call_words : Call → List ℕ
call_words c =
    c.scenario
    ∷ c.len
    ∷ c.comm
    ∷ c.root_src_dst
    ∷ c.function
    ∷ c.msg_tag
    ∷ c.buf0_type
    ∷ c.buf1_type
    ∷ c.buf2_type
    ∷ get_range 31 0 c.addra
    ∷ get_range 63 32 c.addra
    ∷ get_range 31 0 c.addrb
    ∷ get_range 63 32 c.addrb
    ∷ get_range 31 0 c.addrc
    ∷ get_range 63 32 c.addrc
    ∷ []

-- The kernel: the command stream behind it, and the rest of the statuses, or `none` while it waits
-- for one.
unfoldable pub hostctrl : Call → Stream ℕ → Stream ℕ → Stream ℕ × Option (Stream ℕ)
unfolding call_words
hostctrl c cmd sts = (cmd ++ call_words c, elim sts [ [] ↦ none | _ ∷ rest ↦ some rest ])

-- `((uint64_t) high << 32) | low`, of two 32-bit words: their bits do not overlap.
unfoldable pub join_words : ℕ → ℕ → ℕ
join_words high low = high * 2 ^ 32 % 2 ^ 64 + low

-- What the firmware reads; `none` where it waits for a word.
unfoldable pub read_call : Stream ℕ → Option (Call × Stream ℕ)
unfolding join_words
read_call
      (scenario ∷ len ∷ comm ∷ root_src_dst ∷ function ∷ msg_tag ∷ buf0_type ∷ buf1_type ∷ buf2_type
        ∷ buf0_addrl ∷ buf0_addrh ∷ buf1_addrl ∷ buf1_addrh ∷ buf2_addrl ∷ buf2_addrh ∷ rest) =
    some (
      record {
        scenario = scenario;
        len = len;
        comm = comm;
        root_src_dst = root_src_dst;
        function = function;
        msg_tag = msg_tag;
        buf0_type = buf0_type;
        buf1_type = buf1_type;
        buf2_type = buf2_type;
        addra = join_words buf0_addrh buf0_addrl;
        addrb = join_words buf1_addrh buf1_addrl;
        addrc = join_words buf2_addrh buf2_addrl;
      },
      rest,
    )
read_call _ = none
