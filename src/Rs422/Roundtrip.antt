-- ===== src/Rs422/Roundtrip.antt =====
-- A frame that `rs422_encode_frame` writes is what `rs422_decode_frame` reads, but for the sync word.
use dpb_s_mgmt.Base.{
  ℕ, ◌+◌, ◌-◌, ◌*◌, ◌/◌, ◌%◌, ◌^◌, ◌≤◌, ◌<◌, ◌≡◌, sym, ◌∙◌, false, not, Option, List, ◌∷◌, ◌++◌,
  arith, length, get_or, take, drop, ltb, ◌==◌, ◌≢◌, ltb-eq_false, ==_ne, add32, u16_be, get_u16_be,
  general, ok, err, length-append, take-append_exact, get_or-append_right,
}
use dpb_s_mgmt.Rs422.{
  sync_word_ack, header_size, crc_size, max_payload_size, checksum, body, sealed, copied,
  encode_frame, decode_data, decode_frame,
}
use dpb_s_mgmt.Rs422.Checksum.{checksum-lt}

-- The frame with the sync word of an acknowledgement in place of its own.
abbrev pub as_ack : List ℕ → List ℕ
as_ack frame = u16_be sync_word_ack ++ drop 2 frame

not-eq_self : (a b : ℕ) → a ≡ b → not (a == b) ≡ false
not-eq_self a b h = ground arith

-- The checks of `rs422_decode_frame` behind the length field all pass.
pub decode_data-ok :
    (frame : List ℕ) (m : ℕ)
    → 2 ≤ m
    → m < 2 ^ 17
    → m + 10 ≤ length frame
    → get_u16_be frame (m + 8) ≡ checksum (take (m + 6) (drop 2 frame))
    → decode_data frame m
      ≡ ok (record {
        apid = get_u16_be frame 2;
        cmd_code = get_u16_be frame 8;
        payload = take (m - 2) (drop 10 frame);
        payload_len = m - 2;
      })
unfolding decode_data
decode_data-ok frame m two small fits same =
    let long : ltb m 2 ≡ false = ground arith in
    let e : add32 header_size m ≡ m + 8 = omega arith in
    let e' : add32 (m + 8) crc_size ≡ m + 10 = omega arith in
    let e'' : m + 8 - 2 ≡ m + 6 = omega arith in
    let room : ltb (length frame) (m + 10) ≡ false = ground arith in
    rw (long, e, e', e'', room, not-eq_self _ _ same)

-- Extraction from a frame whose parts are known.
decode_data-parts :
    (id seq len word : ℕ) (bytes : List ℕ) (n : ℕ)
    → id < 2 ^ 16
    → word < 2 ^ 16
    → length bytes ≡ n
    → n < 2 ^ 16
    → decode_data (as_ack (sealed (body id seq len word bytes))) (n + 2)
      ≡ ok (record { apid = id; cmd_code = word; payload = bytes; payload_len = n })
decode_data-parts id seq len word bytes n hid hw e hn =
    let covered : List ℕ = body id seq len word bytes in
    let c : ℕ = checksum covered in
    let frame : List ℕ = as_ack (sealed covered) in
    let all : take (n + 2 + 6) (covered ++ u16_be c) ≡ covered =
      take-append_exact (n + 2 + 6) covered (u16_be c) (omega arith) in
    let high : get_or frame (n + 2 + 8) 0 ≡ c / 256 % 256 =
      get_or-append_right (n + 2 + 8) 0 (u16_be sync_word_ack ++ covered) (u16_be c) 0
        (omega arith) in
    let low : get_or frame (n + 2 + 8 + 1) 0 ≡ c % 256 =
      get_or-append_right (n + 2 + 8 + 1) 1 (u16_be sync_word_ack ++ covered) (u16_be c) 0
        (omega arith) in
    let same : get_u16_be frame (n + 2 + 8) ≡ checksum (take (n + 2 + 6) (drop 2 frame)) =
      rw all (omega (arith, high, low, checksum-lt covered)) in
    let fits : n + 2 + 10 ≤ length frame = omega (arith, length-append bytes (u16_be c)) in
    let e_id : id / 256 % 256 * 256 + id % 256 ≡ id = omega arith in
    let e_word : word / 256 % 256 * 256 + word % 256 ≡ word = omega arith in
    let e_n : n + 2 - 2 ≡ n = omega arith in
    let e_bytes : take n (bytes ++ u16_be c) ≡ bytes =
      take-append_exact n bytes (u16_be c) (sym e) in
    decode_data-ok frame (n + 2) (omega arith) (omega arith) fits same
    ∙ rw (e_id, e_word, e_n, e_bytes)

-- `decode_frame` on a frame that is long enough for its parts.
pub decode_frame-parts :
    (id seq word : ℕ) (bytes : List ℕ) (n : ℕ)
    → id < 2 ^ 16
    → word < 2 ^ 16
    → length bytes ≡ n
    → n + 1 < 2 ^ 16
    → decode_frame (as_ack (sealed (body id seq ((2 + n - 1) % 2 ^ 16) word bytes)))
      ≡ ok (record { apid = id; cmd_code = word; payload = bytes; payload_len = n })
unfolding decode_frame
decode_frame-parts id seq word bytes n hid hw e hn =
    let len : ℕ = (2 + n - 1) % 2 ^ 16 in
    let frame : List ℕ = as_ack (sealed (body id seq len word bytes)) in
    let long : ltb (length frame) (header_size + 2 + crc_size) ≡ false =
      ltb-eq_false (length frame) 12
        (omega (arith, length-append bytes (u16_be (checksum (body id seq len word bytes))))) in
    let e_len : len / 256 % 256 * 256 + len % 256 + 1 ≡ n + 2 = omega arith in
    rw (long, e_len) (decode_data-parts id seq len word bytes n hid hw e (omega arith))

decode_frame-no_ack :
    (a b : ℕ) (rest : List ℕ)
    → 10 ≤ length rest
    → a * 256 + b ≢ sync_word_ack
    → decode_frame (a ∷ b ∷ rest) ≡ err general
unfolding decode_frame
decode_frame-no_ack a b rest h ne =
    rw (ltb-eq_false (length (a ∷ b ∷ rest)) 12 (omega arith), ==_ne _ _ ne)

-- `rs422_encode_frame` accepts a payload of at most 1000 bytes for which the buffer has room, counts
-- its sequence number up, and writes the payload's bytes and 12 more. With the sync word of an
-- acknowledgement in place of its own, that frame decodes to the command code, the low 11 bits of the
-- APID and the payload, also an empty one that is passed as NULL. As it stands, with the sync word
-- of a command, `rs422_decode_frame` refuses it.
pub encode_frame-roundtrip :
    (apid cmd_code : ℕ) (payload : Option (List ℕ)) (n size seq : ℕ)
    → cmd_code < 2 ^ 16
    → n ≤ 1000
    → n + 12 ≤ size
    → size < 2 ^ 32
    → length (copied payload n) ≡ n
    → (f : List ℕ) × (encode_frame apid cmd_code payload n size seq ≡ (ok f, (seq + 1) % 2 ^ 16))
      × (length f ≡ n + 12)
      × (decode_frame (as_ack f)
          ≡ ok (record {
            apid = apid % 2 ^ 11;
            cmd_code = cmd_code;
            payload = copied payload n;
            payload_len = n;
          }))
      × (decode_frame f ≡ err general)
unfolding encode_frame
encode_frame-roundtrip apid cmd_code payload n size seq hw small room fits e =
    let bytes : List ℕ = copied payload n in
    let covered : List ℕ =
      body (apid % 2 ^ 11) (3 * 2 ^ 14 + seq % 2 ^ 14) ((2 + n - 1) % 2 ^ 16) cmd_code bytes in
    let first : ltb size (add32 (add32 (add32 header_size n) crc_size) 2) ≡ false = ground arith in
    let second : ltb (max_payload_size - 2) n ≡ false = ground arith in
    (
      sealed covered,
      rw (first, second),
      omega (arith, length-append bytes (u16_be (checksum covered))),
      decode_frame-parts (apid % 2 ^ 11) (3 * 2 ^ 14 + seq % 2 ^ 14) cmd_code bytes n (omega arith)
          hw e (omega arith),
      decode_frame-no_ack 0xEB 0x90 (covered ++ u16_be (checksum covered))
          (omega (arith, length-append bytes (u16_be (checksum covered)))) (omega arith),
    )
