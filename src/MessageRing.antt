-- ===== src/MessageRing.antt =====
-- s_band_antenna_mgmt/src/rng.c and include/rng.h: the ring of messages of one length, and the two
-- buffers that change places. A pointer into the storage is its offset; what its user writes there is
-- `copy_in`.
pub mod Slots
pub mod Refine
pub mod Exchange
mod Tests
use dpb_s_mgmt.Base.{
  ℕ, ◌+◌, ◌*◌, ◌%◌, ◌^◌, Bool, List, leb, ◌==◌, if◌then◌else◌, add32, sub32, copy_in, take, drop,
  replicate,
}

-- `RNG`, which is also `PINGP`.
pub record Rng : Type 0 where
  pub buf : List ℕ
  pub msg_len : ℕ
  pub max_msgs : ℕ
  pub in_index : ℕ
  pub out_index : ℕ

-- The index that follows.
unfoldable pub added : ℕ → ℕ → ℕ
added max_msgs index =
    let next_index = add32 index 1 in if leb max_msgs next_index then 0 else next_index

-- `rngGetWriteBuf` and `pingpGetWriteBuf`
abbrev pub get_write_buf : Rng → ℕ
get_write_buf r = (r.in_index * r.msg_len) % 2 ^ 32

-- `rngWriteDone`
unfoldable pub write_done : Rng → Rng
write_done r =
    let next_index = added r.max_msgs r.in_index in
    if next_index == r.out_index then r else record r { in_index = next_index }

-- `rngGetReadBuf` and `pingpGetReadBuf`
abbrev pub get_read_buf : Rng → ℕ
get_read_buf r = (r.out_index * r.msg_len) % 2 ^ 32

-- `rngReadDone`
abbrev pub read_done : Rng → Rng
read_done r = record r { out_index = added r.max_msgs r.out_index }

-- `rngGetNMsgs`: the difference is an `int`.
unfoldable pub get_n_msgs : Rng → ℕ
get_n_msgs r =
    let n = sub32 r.in_index r.out_index in if leb (2 ^ 31) n then add32 n r.max_msgs else n

-- `rngClear`, and `rngInit`, which only calls it.
abbrev pub clear : Rng → Rng
clear r = record r { in_index = 0; out_index = 0 }

-- `rngIsFul`
unfoldable pub is_ful : Rng → Bool
is_ful r = added r.max_msgs r.in_index == r.out_index

-- `pingpSwap`
unfoldable pub pingp_swap : Rng → Rng
pingp_swap r =
    if r.in_index == 0
    then record r { in_index = 1; out_index = 0 }
    else record r { in_index = 0; out_index = 1 }

-- `pingpInit`
unfoldable pub pingp_init : Rng → Rng
pingp_init r = record r {
  in_index = 0;
  out_index = 1;
  max_msgs = 2;
  buf = copy_in r.buf 0 (replicate ((r.msg_len * 2) % 2 ^ 32) 0);
}

-- A message is written at the write pointer.
abbrev pub fill : List ℕ → Rng → Rng
fill msg r = record r { buf = copy_in r.buf (get_write_buf r) msg }

-- The message at the read pointer.
abbrev pub message_at_read : Rng → List ℕ
message_at_read r = take r.msg_len (drop (get_read_buf r) r.buf)
