-- ===== src/Fpga.antt =====
-- s_band_antenna_mgmt/src/fpga_protocol.c and include/fpga_protocol.h: the frames of the FPGA's
-- serial link and the packed frequencies. Buffers and pool are treated as in Cpri.
pub mod Frequency
pub mod Frames
mod Tests
use dpb_s_mgmt.Base.{
  ℕ, ◌+◌, ◌-◌, ◌*◌, ◌/◌, ◌%◌, ◌^◌, Bool, true, false, not, Option, none, some, List, [], ◌∷◌, ◌++◌,
  length, get_or, take, drop, ltb, leb, ◌==◌, if◌then◌else◌, add32, u16_be, get_u16_be, Error,
  invalid_param, memory, general, Result, ok, err,
}
use dpb_s_mgmt.Pool.{Pool, alloc, store, release}

abbrev pub frame_header : ℕ
frame_header = 0xEB90

abbrev pub frame_tail : ℕ
frame_tail = 0x5555

abbrev pub max_payload_size : ℕ
max_payload_size = 2048

-- `fpga_encode_frequency`: the quotient is kept in a uint8_t.
pub encode_frequency : ℕ → ℕ
encode_frequency freq_khz = (freq_khz / 50000 % 256) * 2 ^ 24 + (freq_khz % 50000 * 2) % 2 ^ 24

-- `fpga_decode_frequency`
pub decode_frequency : ℕ → ℕ
decode_frequency encoded_freq = (encoded_freq / 2 ^ 24 % 256) * 50000 + encoded_freq % 2 ^ 24 / 2

-- `fpga_message_t`, as `Message` of Cpri.
pub record Message (P : Type 0) : Type 0 where
  pub msg_id : ℕ
  pub payload : Option P
  pub payload_len : ℕ

abbrev pub payload_bytes : Option (List ℕ) → ℕ → List ℕ
payload_bytes none n = []
payload_bytes (some bytes) n = take n bytes

-- `fpga_encode_message`: the bytes that it writes. The length field is a uint8_t.
unfoldable pub encode_message : Message (List ℕ) → ℕ → Result (List ℕ)
encode_message msg buffer_size =
    if ltb buffer_size (add32 (add32 4 msg.payload_len) 2)
    then err invalid_param
    else ok (
        u16_be frame_header
        ++ (msg.msg_id
            ∷ (msg.payload_len % 256)
            ∷ (payload_bytes msg.payload msg.payload_len ++ u16_be frame_tail)))

-- The payload of `n` bytes goes into the buffer that the pool has given. On failure the message keeps
-- what was written to it before.
pub fill : ℕ → List ℕ → Option (ℕ × Pool) → Pool → Result (Message ℕ) × Pool
fill n b none p = (err memory, p)
fill n b (some (i, p')) p = (
  ok (record { msg_id = get_or b 2 0; payload = some i; payload_len = n }),
  store p' i (take n (drop 4 b)),
)

-- `fpga_decode_message`; a length field that does not fit the buffer's length is only logged.
pub decode_message : List ℕ → Pool → Result (Message ℕ) × Pool
decode_message b p =
    let length_field = get_or b 3 0 in
    let n = if leb 2 length_field then length_field - 2 else 0 in
    if ltb (length b) 6
    then (err invalid_param, p)
    else if not (get_u16_be b 0 == frame_header)
    then (err general, p)
    else if not (get_u16_be b (length b - 2) == frame_tail)
    then (err general, p)
    else if n == 0
    then (ok (record { msg_id = get_or b 2 0; payload = none; payload_len = 0 }), p)
    else fill n b (alloc max_payload_size n p) p

-- `fpga_telemetry_payload_len`
pub telemetry_payload_len : ℕ → ℕ
telemetry_payload_len src =
    if src == 0xA1 then 127 else if src == 0xB1 then 146 else if src == 0xB2 then 146 else 0
