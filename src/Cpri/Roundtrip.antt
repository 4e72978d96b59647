-- ===== src/Cpri/Roundtrip.antt =====
-- A message that `cpri_encode_message` writes is what `cpri_decode_message` reads, and a message that
-- has been decoded and freed leaves the pool's flags as they were.
use dpb_s_mgmt.Base.{
  ℕ, ◌+◌, ◌-◌, ◌*◌, ◌/◌, ◌%◌, ◌^◌, ◌≤◌, ◌<◌, ◌≡◌, refl, some, List, [], ◌++◌, arith, length, get_or,
  take, ltb, ◌==◌, add32, ltb-eq_false, ==_ne, take_all, false, ok,
}
use dpb_s_mgmt.Pool.{
  Pool, alloc, store, release, Allocated, alloc-Allocated, store_lem, set-set_back,
}
use dpb_s_mgmt.Cpri.{
  Header, Message, header_len, max_payload_size, header_bytes, read_header, encode_message, fill,
  decode_message, free_at, free_message,
}

four_bytes :
    (x : ℕ)
    → x < 2 ^ 32
    → x % 256 + x / 256 % 256 * 256 + x / 65536 % 256 * 65536 + x / 16777216 % 256 * 16777216 ≡ x
four_bytes x h = omega arith

-- The header of a message of `n` bytes of payload.
read_header-header_bytes :
    (h : Header) (n : ℕ) (rest : List ℕ)
    → h.msg_id < 2 ^ 32
    → h.serial_num < 2 ^ 32
    → n < 2 ^ 32
    → read_header (header_bytes h n ++ rest) ≡ record h { msg_length = n }
read_header-header_bytes h n rest hm hs hn =
    rw (four_bytes h.msg_id hm, four_bytes n hn, four_bytes h.serial_num hs) refl

-- For a message with a payload of 1 to 8192 bytes, a buffer with room for it, and a pool that has a
-- buffer `i` to give: `cpri_encode_message` writes the payload behind 15 bytes of header, and
-- `cpri_decode_message` reads from that the same header, with the message's whole length in it, and
-- the payload's length; the payload is then in buffer `i`; and `cpri_free_message` gives all flags of
-- the pool back.
pub decode_message-encode_message :
    (h : Header) (bytes : List ℕ) (size : ℕ) (p : Pool) {i : ℕ} {p' : Pool}
    → h.msg_id < 2 ^ 32
    → h.serial_num < 2 ^ 32
    → 0 < length bytes
    → length bytes + 15 ≤ size
    → size < 2 ^ 32
    → length p.arrays ≡ length p.in_use
    → alloc max_payload_size (length bytes) p ≡ some (i, p')
    → (f : List ℕ) × (msg : Message ℕ) × (q : Pool) × (encode_message
          (record { header = h; payload = some bytes; payload_len = length bytes })
          size
        ≡ ok f)
      × (length f ≡ length bytes + 15)
      × (decode_message f p ≡ (ok msg, q))
      × (msg ≡ record {
        header = record h { msg_length = length bytes + 15 };
        payload = some i;
        payload_len = length bytes;
      })
      × (take (length bytes) (get_or q.arrays i []) ≡ bytes)
      × ((free_message msg q).1.in_use ≡ p.in_use)
unfolding encode_message decode_message fill free_message free_at store release
decode_message-encode_message h bytes size p {i} {p'} hm hs pos room fits same found =
    let n : ℕ = length bytes in
    let f : List ℕ = header_bytes h (n + 15) ++ bytes in
    let a : Allocated max_payload_size n p (some (i, p')) = allocated found in
    let e : add32 header_len n ≡ n + 15 = omega arith in
    let whole : take n bytes ≡ bytes = take_all n bytes (omega arith) in
    let l : length f ≡ n + 15 = omega arith in
    let long : ltb (n + 15) header_len ≡ false = ground arith in
    let n' : n + 15 - header_len ≡ n = omega arith in
    let some_data : (n == 0) ≡ false = ==_ne n 0 (omega arith) in
    (
      f,
      record { header = record h { msg_length = n + 15 }; payload = some i; payload_len = n },
      store p' i bytes,
      rw (e, ltb-eq_false size (n + 15) room, whole) refl,
      l,
      rw
          (
            l,
            long,
            n',
            some_data,
            found,
            read_header-header_bytes h (n + 15) bytes hm hs (omega arith),
            l,
            n',
          )
          refl,
      refl,
      store_lem p' i bytes (rw (a.4, same) a.1),
      rw a.3 (set-set_back p.in_use i a.2),
    )
  where
    allocated :
        alloc max_payload_size (length bytes) p ≡ some (i, p')
        → Allocated max_payload_size (length bytes) p (some (i, p'))
    allocated e = rw e at (alloc-Allocated max_payload_size (length bytes) p)
