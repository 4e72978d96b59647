-- ===== src/Uart/Tests.antt =====
-- Runs of the client of uart_rs422_client.c on an acknowledgement with result 0.
use dpb_s_mgmt.Base.{
  ℕ, ◌≡◌, refl, true, false, none, some, List, [], ◌∷◌, ◌++◌, arith, replicate, length-replicate,
  ok, err, general, copy_in,
}
use dpb_s_mgmt.Ring.{clear, put, put_once, get, remove, n_bytes}
use dpb_s_mgmt.Ring.Contents.{contents}
use dpb_s_mgmt.Finder.{
  incomplete, find, search_head, head_at, head_from, measure, measure_found, field_len, big_len,
  len_byte, parse, parse_loop, round, act, proceed, finish, finished,
}
use dpb_s_mgmt.Rs422.{Decoded, decode_frame, decode_data, checksum, sum_bytes}
use dpb_s_mgmt.Uart.{
  Context, ack_finder, context_init, quiet, chunk, returned, recv_frame, send_loop, send_and_wait,
  send_frame, discard_pending, recv_loop, recv_round, take_chunk, store, deliver, continue, answer,
  check_cmd, check_and_process, frame_good,
}
use dpb_s_mgmt.Uart.Receive.{IsStream, Good, recv_frame-Good}
use dpb_s_mgmt.Uart.Send.{recv_frame-chunk_ne_complete, Written, send_and_wait-ok}

abbrev ack : List ℕ
ack = 0x1A ∷ 0xCF ∷ 1 ∷ 0x80 ∷ 0xC0 ∷ 0 ∷ 0 ∷ 2 ∷ 1 ∷ 0x8A ∷ 0 ∷ 0xFE ∷ 0x31 ∷ []

init-IsStream : IsStream context_init.rbuf
unfolding context_init clear
init-IsStream = record {
  valid = omega (arith, length-replicate {A = ℕ} 5120 0);
  size = refl;
  bytes = tt;
}

empty-init : contents context_init.rbuf ≡ []
unfolding context_init clear
empty-init = refl

recv_frame-Good_example :
    Good 2048 (quiet ∷ chunk ack ∷ []) (recv_frame 2048 (quiet ∷ chunk ack ∷ []) context_init)
recv_frame-Good_example =
    recv_frame-Good 2048 (quiet ∷ chunk ack ∷ []) context_init (omega arith) init-IsStream

abbrev half : List ℕ
half = 0x1A ∷ 0xCF ∷ 1 ∷ 0x80 ∷ []

find-half : (find ack_finder half 0 0).verdict ≡ incomplete
unfolding find search_head head_at head_from measure
find-half = refl

-- The rest would have come with the next `read`.
recv_frame-chunk_ne_complete_example :
    (c' : Context) × (recv_frame 2048 (chunk half ∷ chunk (0xC0 ∷ 0 ∷ []) ∷ []) context_init
      ≡ returned (err general) c')
recv_frame-chunk_ne_complete_example =
    recv_frame-chunk_ne_complete 2048 half (chunk (0xC0 ∷ 0 ∷ []) ∷ []) context_init init-IsStream
      empty-init (omega arith) (omega arith) (λ h. cc (h, find-half))

abbrev small : Context
small = record {
  rbuf = record { buf = replicate 20 0; len = 20; in_index = 5; out_index = 2 };
  held = record { frame = []; ready = true };
}

abbrev after : Context
after = record {
  rbuf = record { buf = ack ++ replicate 7 0; len = 20; in_index = 13; out_index = 13 };
  held = record { frame = ack; ready = false };
}

-- The second write sends the frame, and the acknowledgement is the one of the command 0x018A.
run-small :
    send_and_wait (1 ∷ 2 ∷ []) 3 (none ∷ some 2 ∷ []) 2048 0x018A (quiet ∷ chunk ack ∷ []) small
    ≡ returned (ok ack) after
unfolding send_and_wait send_frame send_loop discard_pending recv_frame recv_loop recv_round
    take_chunk store deliver continue answer check_cmd check_and_process frame_good put put_once
    copy_in clear get remove n_bytes parse parse_loop round act proceed finish finished find
    measure_found search_head head_at head_from measure field_len big_len len_byte decode_frame
    decode_data checksum sum_bytes
run-small = refl

send_and_wait-ok_example :
    Written 2 4 (none ∷ some 2 ∷ [])
    × ((d : Decoded) × (decode_frame ack ≡ ok d) × (d.cmd_code ≡ 0x018A))
send_and_wait-ok_example =
    send_and_wait-ok (1 ∷ 2 ∷ []) 3 (none ∷ some 2 ∷ []) 2048 0x018A (quiet ∷ chunk ack ∷ []) small
      (omega arith) run-small
