-- ===== src/Uart.antt =====
-- s_band_antenna_mgmt/src/uart_rs422_client.c: frames over the serial port, with the ring of Ring and
-- the finder of Finder. What the operating system answers is a parameter: an event for each round of
-- the receive loop, and the result of each `write`. The locks, the log and the waits are left out.
pub mod Frames
pub mod Receive
pub mod Send
mod Tests
use dpb_s_mgmt.Base.{
  ℕ, zero, suc, ◌+◌, ◌-◌, ◌*◌, Bool, true, false, Option, none, some, List, [], ◌∷◌, length, take,
  drop, replicate, ltb, ◌==◌, if◌then◌else◌, not, u16_be, get_u16_be, Error, general, timeout,
  invalid_param, Result, ok, err, ◌>>=◌, ◌>>◌, fail_if,
}
use dpb_s_mgmt.Ring.{RBuf, put, clear}
use dpb_s_mgmt.Finder.{PkFinder, parse}
use dpb_s_mgmt.Rs422.{checksum, Decoded, decode_frame}

-- `received_frame` up to `received_frame_len`, and `frame_ready`.
pub record Held : Type 0 where
  pub frame : List ℕ
  pub ready : Bool

-- `g_recv_ctx`, whose packet finder is the constant `ack_finder`.
pub record Context : Type 0 where
  pub rbuf : RBuf
  pub held : Held

-- The packet finder that `uart_recv_context_init` sets up.
abbrev pub ack_finder : PkFinder
ack_finder = record {
  head_buf = 0x1A ∷ 0xCF ∷ [];
  head_len = 2;
  head_masks = 0xFF ∷ 0xFF ∷ [];
  is_pk_fix_len = false;
  pk_fix_len = 0;
  pk_len_pos = 6;
  pk_len_len = 2;
  pk_len_first_msk = 0xFF;
  little_end = false;
  pk_len_add = 11;
}

-- `uart_recv_context_init`; `storage` is the array `rbuf_storage` behind the `memset`.
pub context_init : Context
context_init = record {
  rbuf = clear (record { buf = replicate 5120 0; len = 5120; in_index = 0; out_index = 0 });
  held = record { frame = []; ready = false };
}

-- The checks of `rs422_frame_check_and_process` on the packet that the finder passes on.
pub frame_good : List ℕ → Bool
frame_good pk =
    if ltb (length pk) 10
    then false
    else if ltb 2048 (length pk)
    then false
    else (get_u16_be pk (length pk - 2) == checksum (take (length pk - 2 - 2) (drop 2 pk)))

-- `rs422_frame_check_and_process`: the context's frame behind it, and whether it returns TRUE.
pub check_and_process : Held → List ℕ → Held × Bool
check_and_process h pk =
    if frame_good pk then (record { frame = pk; ready = true }, true) else (h, false)

-- What happens in a round of the loop of `uart_rs422_recv_frame`: the time is over, `select` fails or
-- reports nothing, `read` fails, or `read` returns at most 1024 bytes.
pub data Event : Type 0 where
  time_over select_failed quiet read_failed : Event
  chunk : List ℕ → Event

-- How a round, or the whole call, ends: it returns, it is still waiting, or the finder's loop did not
-- end within its fuel.
pub data Received : Type 0 where
  returned : Result (List ℕ) → Context → Received
  waiting : Context → Received
  stuck : Received

-- The bytes go into the ring, which is emptied for them if it takes none.
pub store : RBuf → List ℕ → RBuf
store r bytes = let (r', n) = put r bytes in if n == 0 then (put (clear r) bytes).0 else r'

-- What follows `pkfinderParse`, with the size of the caller's buffer.
pub deliver : ℕ → Option (RBuf × Held × Bool) → Received
deliver size none = stuck
deliver size (some (r, h, false)) = returned (err general) (record { rbuf = r; held = h })
deliver size (some (r, h, true)) =
    if h.ready
    then (returned (if ltb size (length h.frame) then err general else ok h.frame)
        (record { rbuf = r; held = record h { ready = false } }))
    else waiting (record { rbuf = r; held = h })

-- A round in which `read` has returned `bytes`. The finder's loop gets fuel for a full parse buffer.
pub take_chunk : ℕ → Context → List ℕ → Received
take_chunk size c [] = waiting c
take_chunk size c (b ∷ bytes) =
    deliver size (parse ack_finder check_and_process 5121 (store c.rbuf (b ∷ bytes)) 5120 c.held)

pub recv_round : ℕ → Context → Event → Received
recv_round size c time_over = returned (err timeout) c
recv_round size c select_failed = returned (err general) c
recv_round size c quiet = waiting c
recv_round size c read_failed = returned (err general) c
recv_round size c (chunk bytes) = take_chunk size c bytes

pub continue : (Context → Received) → Received → Received
continue rest (returned res c) = returned res c
continue rest (waiting c) = rest c
continue rest stuck = stuck

-- The loop, over the events that happen.
pub recv_loop : ℕ → List Event → Context → Received
recv_loop size [] c = waiting c
recv_loop size (e ∷ events) c = continue (recv_loop size events) (recv_round size c e)

-- `uart_rs422_recv_frame` on an open device.
pub recv_frame : ℕ → List Event → Context → Received
recv_frame size events c =
    recv_loop size events (record c { held = record { frame = c.held.frame; ready = false } })

-- `uart_rs422_discard_pending` on an open device.
pub discard_pending : Context → Context
discard_pending c = record { rbuf = clear c.rbuf; held = record { frame = []; ready = false } }

-- The loop of `uart_rs422_send_frame`: `max_retries` more tries behind the first; each number in the
-- list is what a `write` has written, with `none` for an error. It returns whether a try wrote the
-- whole frame, and how many tries there were.
pub send_loop : ℕ → ℕ → List (Option ℕ) → Bool × ℕ
send_loop frame_len zero writes = (false, 0)
send_loop frame_len (suc tries) [] = (false, 0)
send_loop frame_len (suc tries) (w ∷ writes) =
    let (sent, n) = send_loop frame_len tries writes in
    if written w then (true, 1) else (sent, n + 1)
  where
    written : Option ℕ → Bool
    written none = false
    written (some n) = n == frame_len

pub send_frame : List ℕ → ℕ → List (Option ℕ) → Result (Unit {0})
send_frame frame max_retries writes = do
  fail_if (length frame == 0) invalid_param
  if (send_loop (length frame) (max_retries + 1) writes).0 then ok tt else err general

-- The check of `expected_cmd` in `uart_rs422_send_and_wait`; 0 asks for none.
pub check_cmd : ℕ → List ℕ → Result (Unit {0})
check_cmd expected_cmd frame =
    if expected_cmd == 0
    then ok tt
    else (decode_frame frame >>= λ d. fail_if (not (d.cmd_code == expected_cmd)) general)

pub answer : ℕ → Received → Received
answer expected_cmd (returned (ok frame) c) = returned (check_cmd expected_cmd frame >> ok frame) c
answer expected_cmd (returned (err e) c) = returned (err e) c
answer expected_cmd (waiting c) = waiting c
answer expected_cmd stuck = stuck

-- `uart_rs422_send_and_wait`: pending input is discarded, the frame is sent, the answer received.
pub send_and_wait : List ℕ → ℕ → List (Option ℕ) → ℕ → ℕ → List Event → Context → Received
send_and_wait frame max_retries writes size expected_cmd events c =
    let c' = discard_pending c in
    let received = answer expected_cmd (recv_frame size events c') in
    elim (send_frame frame max_retries writes) [ ok u ↦ received | err e ↦ returned (err e) c' ]
