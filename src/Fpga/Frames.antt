-- ===== src/Fpga/Frames.antt =====
-- The frames of fpga_protocol.c: its decoder does not read what its encoder writes, and trusts the
-- length field alone.
use dpb_s_mgmt.Base.{
  ℕ, ◌+◌, ◌-◌, ◌%◌, ◌≤◌, ◌≡◌, refl, ◌∙◌, some, List, ◌∷◌, ◌++◌, arith, length, get_or, take, drop,
  leb, ◌==◌, not, add32, u16_be, get_u16_be, ltb-eq_false, ==_ne, take_all, true, false, ok,
  length-append, get_or-append_right, take-append_left,
}
use dpb_s_mgmt.Pool.{Pool, alloc, store}
use dpb_s_mgmt.Fpga.{
  frame_header, frame_tail, max_payload_size, encode_message, fill, decode_message,
}

-- `fpga_decode_message` accepts every buffer of at least 6 bytes with the right header and tail and a
-- length field of 3 or more, if the pool has a buffer to give, and reports a payload of two bytes
-- less than the field says, whatever the length of the buffer is.
pub decode_message-ok :
    (b : List ℕ) (p : Pool) {i : ℕ} {p' : Pool}
    → 6 ≤ length b
    → get_u16_be b 0 ≡ frame_header
    → get_u16_be b (length b - 2) ≡ frame_tail
    → 3 ≤ get_or b 3 0
    → alloc max_payload_size (get_or b 3 0 - 2) p ≡ some (i, p')
    → decode_message b p ≡ (
      ok (record { msg_id = get_or b 2 0; payload = some i; payload_len = get_or b 3 0 - 2 }),
      store p' i (take (get_or b 3 0 - 2) (drop 4 b)),
    )
unfolding decode_message fill
decode_message-ok b p {i} {p'} long head tail field found =
    let two : leb 2 (get_or b 3 0) ≡ true = ground arith in
    let some_data : (get_or b 3 0 - 2 == 0) ≡ false = ==_ne _ _ (omega arith) in
    let head' : not (get_u16_be b 0 == frame_header) ≡ false = ground arith in
    let tail' : not (get_u16_be b (length b - 2) == frame_tail) ≡ false = ground arith in
    rw (ltb-eq_false (length b) 6 long, head', tail', two, some_data, found) refl

-- A frame that `fpga_encode_message` writes for a payload of 3 to 255 bytes is accepted by
-- `fpga_decode_message`, if the pool has a buffer to give, but without the last two bytes of the
-- payload.
pub decode_message-encode_message_short :
    (id : ℕ) (bytes : List ℕ) (size : ℕ) (p : Pool) {i : ℕ} {p' : Pool}
    → 3 ≤ length bytes
    → length bytes ≤ 255
    → length bytes + 6 ≤ size
    → alloc max_payload_size (length bytes - 2) p ≡ some (i, p')
    → (f : List ℕ) × (encode_message
          (record { msg_id = id; payload = some bytes; payload_len = length bytes })
          size
        ≡ ok f)
      × (decode_message f p ≡ (
        ok (record { msg_id = id; payload = some i; payload_len = length bytes - 2 }),
        store p' i (take (length bytes - 2) bytes),
      ))
unfolding encode_message
decode_message-encode_message_short id bytes size p {i} {p'} three small room found =
    let n : ℕ = length bytes in
    let f : List ℕ = u16_be frame_header ++ (id ∷ (n % 256) ∷ (bytes ++ u16_be frame_tail)) in
    let e : add32 (add32 4 n) 2 ≡ n + 6 = omega arith in
    let whole : take n bytes ≡ bytes = take_all n bytes (omega arith) in
    let field : n % 256 ≡ n = omega arith in
    let l : length f ≡ n + 6 = omega (arith, length-append bytes (u16_be frame_tail)) in
    let start : List ℕ = u16_be frame_header ++ (id ∷ (n % 256) ∷ bytes) in
    let high : get_or f (n + 4) 0 ≡ 0x55 =
      get_or-append_right (n + 4) 0 start (u16_be frame_tail) 0 (omega arith) in
    let low : get_or f (n + 4 + 1) 0 ≡ 0x55 =
      get_or-append_right (n + 4 + 1) 1 start (u16_be frame_tail) 0 (omega arith) in
    let at : length f - 2 ≡ n + 4 = omega arith in
    let cut : take (n - 2) (bytes ++ u16_be frame_tail) ≡ take (n - 2) bytes =
      take-append_left (n - 2) bytes (u16_be frame_tail) (omega arith) in
    let d =
      decode_message-ok f p {i = i} {p' = p'} (omega arith) (omega arith)
        (rw at (omega (arith, high, low))) (omega arith) (rw field found) in
    (f, rw (e, ltb-eq_false size (n + 6) room, whole) refl, d ∙ rw (field, cut) refl)
