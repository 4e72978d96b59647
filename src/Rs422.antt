-- ===== src/Rs422.antt =====
-- s_band_antenna_mgmt/src/rs422_protocol.c and include/rs422_protocol.h: the frames of the RS-422
-- line on which FPGA firmware is loaded. A function that writes a frame returns the bytes that it
-- writes to `frame_buf`, whose number is the C function's result. The sequence counter
-- g_seq_counter is passed in and out. Fields are written as arithmetic: `x & (2^k - 1)` is
-- `x % 2^k`, and an `|` of fields that do not overlap is a sum.
pub mod Checksum
pub mod Roundtrip
pub mod Corruption
pub mod Data
pub mod Commands
mod Tests
use dpb_s_mgmt.Base.{
  ℕ, zero, suc, ◌+◌, ◌-◌, ◌*◌, ◌/◌, ◌%◌, ◌^◌, bit_and, bit_xor, Bool, ◌||◌, Option, none, some,
  List, [], ◌∷◌, ◌++◌, length, take, drop, ltb, ◌==◌, if◌then◌else◌, not, add32, sub32, u16_be,
  get_u16_be, Error, invalid_param, general, Result, ok, err, ◌>>=◌, ◌>>◌, fail_if,
}

abbrev pub sync_word_cmd : ℕ
sync_word_cmd = 0xEB90

abbrev pub sync_word_ack : ℕ
sync_word_ack = 0x1ACF

abbrev pub header_size : ℕ
header_size = 8

abbrev pub crc_size : ℕ
crc_size = 2

abbrev pub max_payload_size : ℕ
max_payload_size = 1002

-- `rs422_protocol_init` and `rs422_seq_counter_reset` set the counter to 0.
pub seq_counter_reset : ℕ
seq_counter_reset = 0

unfoldable pub seq_counter_rollback : ℕ → ℕ
seq_counter_rollback seq = if ltb 0 seq then seq - 1 else seq

-- `sum += data[i]` in a uint32_t
unfoldable pub sum_bytes : ℕ → List ℕ → ℕ
sum_bytes acc [] = acc
sum_bytes acc (x ∷ xs) = sum_bytes (add32 acc x) xs

-- `(uint16_t)(~sum & 0xFFFF)`: the complement of the low 16 bits.
unfoldable pub checksum : List ℕ → ℕ
checksum bytes = 65535 - sum_bytes 0 bytes % 2 ^ 16

-- The body of the loop over `j`, in a uint16_t.
pub crc_bit : ℕ → ℕ
crc_bit crc =
    if bit_and crc 0x8000 == 0 then crc * 2 % 2 ^ 16 else bit_xor (crc * 2 % 2 ^ 16) 0x1021

pub crc_bits : ℕ → ℕ → ℕ
unfolding crc_bit
crc_bits zero crc = crc
crc_bits (suc rounds) crc = crc_bits rounds (crc_bit crc)

pub crc_from : ℕ → List ℕ → ℕ
unfolding crc_bits
crc_from crc [] = crc
crc_from crc (x ∷ xs) = crc_from (crc_bits 8 (bit_xor crc (x * 256))) xs

pub crc16_ccitt_false : List ℕ → ℕ
unfolding crc_from
crc16_ccitt_false bytes = crc_from 0xFFFF bytes

-- The part of a frame that the checksum covers, and the whole frame.
abbrev pub body : ℕ → ℕ → ℕ → ℕ → List ℕ → List ℕ
body packet_id seq_ctrl data_len word bytes =
    u16_be packet_id ++ (u16_be seq_ctrl ++ (u16_be data_len ++ (u16_be word ++ bytes)))

abbrev pub sealed : List ℕ → List ℕ
sealed covered = u16_be sync_word_cmd ++ (covered ++ u16_be (checksum covered))

-- The bytes of `memcpy(frame_buf + offset, payload, payload_len)`; none for a NULL payload.
abbrev pub copied : Option (List ℕ) → ℕ → List ℕ
copied none n = []
copied (some bytes) n = take n bytes

unfoldable pub encode_frame : ℕ → ℕ → Option (List ℕ) → ℕ → ℕ → ℕ → Result (List ℕ) × ℕ
encode_frame apid cmd_code payload payload_len frame_buf_size seq =
    if ltb frame_buf_size (add32 (add32 (add32 header_size payload_len) crc_size) 2)
    then (err invalid_param, seq)
    else if ltb (max_payload_size - 2) payload_len
    then (err invalid_param, seq)
    else (
      ok (
          sealed (
            body (apid % 2 ^ 11) (3 * 2 ^ 14 + seq % 2 ^ 14) ((2 + payload_len - 1) % 2 ^ 16)
              cmd_code (copied payload payload_len))),
      (seq + 1) % 2 ^ 16,
    )

-- What `rs422_decode_frame` writes through its pointers when it returns SUCCESS.
pub record Decoded : Type 0 where
  pub apid : ℕ
  pub cmd_code : ℕ
  pub payload : List ℕ
  pub payload_len : ℕ

-- The checks behind the extraction of the length field.
unfoldable pub decode_data : List ℕ → ℕ → Result Decoded
decode_data frame_buf actual_data_len = do
  fail_if (ltb actual_data_len 2) general
  fail_if (ltb (length frame_buf) (add32 (add32 header_size actual_data_len) crc_size)) general
  let checksum_offset = add32 header_size actual_data_len
  fail_if
      (not (
        get_u16_be frame_buf checksum_offset
        == checksum (take (checksum_offset - 2) (drop 2 frame_buf))))
      general
  ok (record {
    apid = get_u16_be frame_buf 2;
    cmd_code = get_u16_be frame_buf 8;
    payload = take (actual_data_len - 2) (drop 10 frame_buf);
    payload_len = actual_data_len - 2;
  })

unfoldable pub decode_frame : List ℕ → Result Decoded
decode_frame frame_buf = do
  fail_if (ltb (length frame_buf) (header_size + 2 + crc_size)) invalid_param
  fail_if (not (get_u16_be frame_buf 0 == sync_word_ack)) general
  decode_data frame_buf (get_u16_be frame_buf 6 + 1)

-- `group_flag` of `rs422_build_file_data`
pub group_flag : ℕ → ℕ → ℕ
group_flag packet_index total_packets =
    if total_packets == 1
    then 3
    else if packet_index == 0
    then 1
    else if packet_index == sub32 total_packets 1
    then 2
    else 0

unfoldable pub build_file_data : ℕ → List ℕ → ℕ → ℕ → ℕ → Result (List ℕ)
unfolding group_flag
build_file_data segment_num bytes frame_buf_size packet_index total_packets = do
  fail_if (length bytes == 0) invalid_param
  fail_if (ltb frame_buf_size (add32 (add32 (header_size + 2) (length bytes)) crc_size))
      invalid_param
  ok (
      sealed (
        body (0x018F % 2 ^ 11)
          (group_flag packet_index total_packets * 2 ^ 14 + packet_index % 2 ^ 14)
          ((2 + length bytes - 1) % 2 ^ 16) segment_num bytes))
