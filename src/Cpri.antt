-- ===== src/Cpri.antt =====
-- s_band_antenna_mgmt/src/cpri_protocol.c and include/cpri_protocol.h: the messages of the TCP link to
-- the BBU. A message to send carries its payload's bytes; a received one owns a buffer of the pool,
-- which is passed in and out. Fields are in the little-endian order of the host.
pub mod Roundtrip
mod Tests
use dpb_s_mgmt.Base.{
  ℕ, ◌+◌, ◌-◌, Bool, true, false, Option, none, some, List, [], ◌∷◌, ◌++◌, length, get_or, take,
  drop, ltb, ◌==◌, if◌then◌else◌, add32, sub32, u32_le, get_u32_le, Error, invalid_param, memory,
  Result, ok, err,
}
use dpb_s_mgmt.Pool.{Pool, alloc, store, release}

abbrev pub header_len : ℕ
header_len = 15

abbrev pub max_payload_size : ℕ
max_payload_size = 8192

-- `cpri_msg_header_t`
pub record Header : Type 0 where
  pub msg_id : ℕ
  pub msg_length : ℕ
  pub paau_id : ℕ
  pub bbu_id : ℕ
  pub port_num : ℕ
  pub serial_num : ℕ

-- `cpri_message_t`: with the payload's bytes, or with the payload's buffer in the pool; `none` is NULL.
pub record Message (P : Type 0) : Type 0 where
  pub header : Header
  pub payload : Option P
  pub payload_len : ℕ

-- The bytes of the header, with the length that goes into it.
abbrev pub header_bytes : Header → ℕ → List ℕ
header_bytes h msg_length =
    u32_le h.msg_id
    ++ (u32_le msg_length ++ (h.paau_id ∷ h.bbu_id ∷ h.port_num ∷ u32_le h.serial_num))

abbrev pub payload_bytes : Option (List ℕ) → ℕ → List ℕ
payload_bytes none n = []
payload_bytes (some bytes) n = take n bytes

-- `cpri_encode_message`: the bytes that it writes.
unfoldable pub encode_message : Message (List ℕ) → ℕ → Result (List ℕ)
encode_message msg buffer_size =
    let total_len = add32 header_len msg.payload_len in
    if ltb buffer_size total_len
    then err invalid_param
    else ok (header_bytes msg.header total_len ++ payload_bytes msg.payload msg.payload_len)

-- The header that `cpri_decode_message` reads.
abbrev pub read_header : List ℕ → Header
read_header b = record {
  msg_id = get_u32_le b 0;
  msg_length = get_u32_le b 4;
  paau_id = get_or b 8 0;
  bbu_id = get_or b 9 0;
  port_num = get_or b 10 0;
  serial_num = get_u32_le b 11;
}

-- The payload goes into the buffer that the pool has given.
pub fill : List ℕ → Option (ℕ × Pool) → Pool → Result (Message ℕ) × Pool
fill b none p = (err memory, p)
fill b (some (i, p')) p = (
  ok (record { header = read_header b; payload = some i; payload_len = length b - header_len }),
  store p' i (drop header_len b),
)

-- `cpri_decode_message`; a length field that is not the buffer's length is only logged.
pub decode_message : List ℕ → Pool → Result (Message ℕ) × Pool
decode_message b p =
    if ltb (length b) header_len
    then (err invalid_param, p)
    else if length b - header_len == 0
    then (ok (record { header = read_header b; payload = none; payload_len = 0 }), p)
    else fill b (alloc max_payload_size (length b - header_len) p) p

free_at : Message ℕ → Pool → Option ℕ → Message ℕ × Pool
free_at msg p none = (msg, p)
free_at msg p (some i) = (record msg { payload = none; payload_len = 0 }, release p i)

-- `cpri_free_message`
pub free_message : Message ℕ → Pool → Message ℕ × Pool
unfolding free_at
free_message msg p = free_at msg p msg.payload
