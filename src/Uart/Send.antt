-- ===== src/Uart/Send.antt =====
-- A frame that comes in parts, retries, and the answers of `uart_rs422_send_and_wait`.
use dpb_s_mgmt.Base.{
  ℕ, zero, suc, ◌+◌, ◌≤◌, ◌<◌, ◌≡◌, ◌≢◌, ◌↔◌, ◌⊎◌, refl, ◌∙◌, true, false, not, Option, some, none,
  List, [], ◌∷◌, arith, length, ==_ne, ◌==◌, general, invalid_param, Result, ok, err, ◌>>=◌, ◌>>◌,
  fail_if, fail_if-eq_ok, take_all,
}
use dpb_s_mgmt.Ring.{RBuf, put}
use dpb_s_mgmt.Ring.Contents.{IsValid, contents}
use dpb_s_mgmt.Ring.Put.{put-Appended}
use dpb_s_mgmt.Finder.{complete, find}
use dpb_s_mgmt.Finder.Stream.{parse-ne_complete}
use dpb_s_mgmt.Rs422.{Decoded, decode_frame}
use dpb_s_mgmt.Uart.{
  Held, Context, ack_finder, check_and_process, Event, chunk, Received, returned, waiting, stuck,
  store, deliver, take_chunk, recv_round, continue, recv_loop, recv_frame, discard_pending,
  send_loop, send_frame, check_cmd, answer, send_and_wait,
}
use dpb_s_mgmt.Uart.Receive.{IsStream}

-- An empty ring stores a whole chunk.
store-empty :
    {r : RBuf} (src : List ℕ)
    → IsStream r
    → contents r ≡ []
    → 0 < length src
    → length src ≤ 1024
    → (contents (store r src) ≡ src) × IsValid (store r src)
unfolding store
store-empty {r} src s e pos small =
    let a = put-Appended {r = r} src s.valid (omega arith) in
    let n : (put r src).1 ≡ length src = a.count ∙ rw (e, s.size) (omega arith) in
    let took : ((put r src).1 == 0) ≡ false = ==_ne _ _ (omega arith) in
    rw took (a.bytes ∙ rw (e, n) (take_all (length src) src (omega arith)), a.valid)

-- `uart_rs422_recv_frame` on an empty ring fails with ERROR_GENERAL as soon as `read` returns some
-- bytes of a frame, but not all of them, whatever would come afterwards: a chunk of 1 to 1024 bytes
-- in which the finder sees no complete packet ends the call.
pub recv_frame-chunk_ne_complete :
    (size : ℕ) (bytes : List ℕ) (events : List Event) (c : Context)
    → IsStream c.rbuf
    → contents c.rbuf ≡ []
    → 0 < length bytes
    → length bytes ≤ 1024
    → (find ack_finder bytes 0 0).verdict ≢ complete
    → (c' : Context) × (recv_frame size (chunk bytes ∷ events) c ≡ returned (err general) c')
unfolding recv_frame recv_loop recv_round take_chunk continue deliver
recv_frame-chunk_ne_complete size [] events c s e pos small ne = absurd (omega arith)
recv_frame-chunk_ne_complete size (b ∷ bytes) events c s e pos small ne =
    let r : RBuf = store c.rbuf (b ∷ bytes) in
    let st = store-empty (b ∷ bytes) s e pos small in
    let h : Held = record { frame = c.held.frame; ready = false } in
    let p =
      parse-ne_complete ack_finder check_and_process {r = r} 5120 5120 h st.1 (omega arith)
        (rw st.0 (omega arith)) (rw st.0 ne) in
    (record { rbuf = p.0; held = h }, rw p.1 refl)

-- One of the first `n` results is a write of `len` bytes.
abbrev pub Written : ℕ → ℕ → List (Option ℕ) → Type 0
Written len zero writes = ⊥
Written len (suc n) [] = ⊥
Written len (suc n) (none ∷ writes) = Written len n writes
Written len (suc n) (some w ∷ writes) = (w ≡ len) ⊎ Written len n writes

send_loop-Written :
    (len n : ℕ) (writes : List (Option ℕ))
    → ((send_loop len n writes).0 ≡ true) ↔ Written len n writes
unfolding send_loop
send_loop-Written len zero writes = ground arith
send_loop-Written len (suc n) [] = ground arith
send_loop-Written len (suc n) (none ∷ writes) = send_loop-Written len n writes
send_loop-Written len (suc n) (some w ∷ writes) = ground (arith, send_loop-Written len n writes)

send_loop-le : (len n : ℕ) (writes : List (Option ℕ)) → (send_loop len n writes).1 ≤ n
unfolding send_loop
send_loop-le len zero writes = omega arith
send_loop-le len (suc n) [] = omega arith
send_loop-le len (suc n) (none ∷ writes) = omega (arith, send_loop-le len n writes)
send_loop-le len (suc n) (some w ∷ writes) = ground (arith, send_loop-le len n writes)

-- The loop of `uart_rs422_send_frame` succeeds if and only if one of the first `n` calls of `write`
-- writes the whole frame, and calls `write` at most `n` times.
pub send_loop_iff :
    (len n : ℕ) (writes : List (Option ℕ))
    → (((send_loop len n writes).0 ≡ true) ↔ Written len n writes)
      × ((send_loop len n writes).1 ≤ n)
send_loop_iff len n writes = (send_loop-Written len n writes, send_loop-le len n writes)

send_frame-Written :
    (frame : List ℕ) (max_retries : ℕ) (writes : List (Option ℕ)) {u : Unit {0}}
    → send_frame frame max_retries writes ≡ ok u
    → Written (length frame) (max_retries + 1) writes
unfolding send_frame
send_frame-Written frame max_retries writes h =
    let k = fail_if-eq_ok (length frame == 0) invalid_param _ h in
    (send_loop-Written (length frame) (max_retries + 1) writes).0 (ground (arith, k.1))

check_cmd-ok :
    (expected_cmd : ℕ) (frame : List ℕ)
    → expected_cmd ≢ 0
    → check_cmd expected_cmd frame ≡ ok tt
    → (d : Decoded) × (decode_frame frame ≡ ok d) × (d.cmd_code ≡ expected_cmd)
unfolding check_cmd
check_cmd-ok expected_cmd frame ne h =
    let some_cmd : (expected_cmd == 0) ≡ false = ==_ne expected_cmd 0 ne in
    decoded (decode_frame frame) refl (rw some_cmd at h)
  where
    decoded :
        (r : Result Decoded)
        → decode_frame frame ≡ r
        → (r >>= λ d. fail_if (not (d.cmd_code == expected_cmd)) general) ≡ ok tt
        → (d : Decoded) × (decode_frame frame ≡ ok d) × (d.cmd_code ≡ expected_cmd)
    decoded (ok d) e k = (d, e, ground arith)
    decoded (err x) e k = cc

answer-ok :
    (expected_cmd : ℕ) (o : Received) {frame : List ℕ} {c : Context}
    → answer expected_cmd o ≡ returned (ok frame) c
    → check_cmd expected_cmd frame ≡ ok tt
unfolding answer
answer-ok expected_cmd (returned (ok f) c') {frame} h = checked (check_cmd expected_cmd f) refl h
  where
    checked :
        {c : Context} (r : Result (Unit {0}))
        → check_cmd expected_cmd f ≡ r
        → returned (r >> ok f) c' ≡ returned (ok frame) c
        → check_cmd expected_cmd frame ≡ ok tt
    checked (ok u) e k = cc
    checked (err x) e k = cc
answer-ok expected_cmd (returned (err e) c') h = cc
answer-ok expected_cmd (waiting c') h = cc
answer-ok expected_cmd stuck h = cc

-- Where `uart_rs422_send_and_wait` returns a frame and the caller has named the command that it
-- expects, the frame has been sent whole by one of the first `max_retries + 1` writes, and the
-- answer decodes to that command.
pub send_and_wait-ok :
    (frame : List ℕ) (max_retries : ℕ) (writes : List (Option ℕ)) (size expected_cmd : ℕ)
    (events : List Event) (c : Context) {received : List ℕ} {c' : Context}
    → expected_cmd ≢ 0
    → send_and_wait frame max_retries writes size expected_cmd events c ≡ returned (ok received) c'
    → Written (length frame) (max_retries + 1) writes
      × ((d : Decoded) × (decode_frame received ≡ ok d) × (d.cmd_code ≡ expected_cmd))
unfolding send_and_wait
send_and_wait-ok frame max_retries writes size expected_cmd events c {received} {c'} ne h =
    sent (send_frame frame max_retries writes) refl h
  where
    o : Received
    o = answer expected_cmd (recv_frame size events (discard_pending c))

    sent :
        (r : Result (Unit {0}))
        → send_frame frame max_retries writes ≡ r
        → elim r [ ok u ↦ o | err e ↦ returned (err e) (discard_pending c) ]
          ≡ returned (ok received) c'
        → Written (length frame) (max_retries + 1) writes
          × ((d : Decoded) × (decode_frame received ≡ ok d) × (d.cmd_code ≡ expected_cmd))
    sent (ok u) e k = (
      send_frame-Written frame max_retries writes e,
      check_cmd-ok expected_cmd received ne
          (answer-ok expected_cmd (recv_frame size events (discard_pending c)) k),
    )
    sent (err x) e k = cc
