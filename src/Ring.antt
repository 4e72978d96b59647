-- ===== src/Ring.antt =====
-- s_band_antenna_mgmt/src/rBuf.c and include/rBuf.h: the byte ring between the serial port and the
-- packet finder. A C pointer that the caller must supply is a value here; a function that updates
-- *pRbuf returns the new ring. The callers' buffers are lists that are as long as they say.
pub mod Contents
pub mod Put
pub mod Read
pub mod Refine
mod Tests
use dpb_s_mgmt.Base.{
  ℕ, ◌+◌, ◌-◌, ◌%◌, ◌^◌, ◌≤◌, min, Bool, ◌||◌, List, [], ◌∷◌, ◌++◌, length, take, drop, copy_in,
  ltb, leb, ◌==◌, if◌then◌else◌, add32, sub32,
}

-- `RBUF`
pub record RBuf : Type 0 where
  pub buf : List ℕ
  pub len : ℕ
  pub in_index : ℕ
  pub out_index : ℕ

-- The branch of `rBufPut` that may copy in two parts: first up to the end of the storage, then from
-- its start.
unfoldable pub put_unwrapped : RBuf → List ℕ → RBuf × ℕ
put_unwrapped r src =
    let n = min (length src) (sub32 r.len r.in_index) in
    let filled = copy_in r.buf r.in_index (take n src) in
    if ltb n (length src)
    then (let rests = min (sub32 (length src) n) (sub32 r.out_index 1) in
        (
          record r { buf = copy_in filled 0 (take rests (drop n src)); in_index = rests },
          add32 n rests,
        ))
    else (
      record r {
        buf = filled;
        in_index = (if add32 r.in_index n == r.len then 0 else add32 r.in_index n);
      },
      n,
    )

-- The branches that copy in one part, with the room that they compute.
unfoldable pub put_once : RBuf → List ℕ → ℕ → RBuf × ℕ
put_once r src room =
    let n = min (length src) room in
    (record r { buf = copy_in r.buf r.in_index (take n src); in_index = add32 r.in_index n }, n)

unfoldable pub put : RBuf → List ℕ → RBuf × ℕ
put r src =
    if ltb r.in_index r.out_index
    then put_once r src (sub32 (sub32 r.out_index r.in_index) 1)
    else if r.out_index == 0
    then put_once r src (sub32 (sub32 r.len r.in_index) 1)
    else put_unwrapped r src

-- `rBufGet` reads and removes nothing. The list is what it writes to `buf`, and is as long as the
-- number that it returns.
unfoldable pub get : RBuf → ℕ → List ℕ
get r n =
    if leb r.out_index r.in_index
    then take (min n (sub32 r.in_index r.out_index)) (drop r.out_index r.buf)
    else (let m = min n (sub32 r.len r.out_index) in
        take m (drop r.out_index r.buf)
        ++ (if ltb m n then take (min (sub32 n m) r.in_index) r.buf else []))

-- `int n = (int)inIndex - (int)outIndex; if (n < 0) n += len;` with `n` as its bit pattern, whose
-- top bit is the sign.
unfoldable pub n_bytes : RBuf → ℕ
n_bytes r = let n = sub32 r.in_index r.out_index in if leb (2 ^ 31) n then add32 n r.len else n

-- The comparison in `min(len, n)` is unsigned.
unfoldable pub remove : RBuf → ℕ → RBuf × ℕ
remove r n =
    let m = min n (n_bytes r) in
    let added = add32 r.out_index m in
    (record r { out_index = (if leb r.len added then sub32 added r.len else added) }, m)

pub is_full : RBuf → Bool
is_full r = let n = add32 (sub32 r.in_index r.out_index) 1 in n == 0 || n == r.len

-- `rBufClear` and `rBufInit` have the same body.
unfoldable pub clear : RBuf → RBuf
clear r = record r { in_index = 0; out_index = 0 }
