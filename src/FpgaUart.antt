-- ===== src/FpgaUart.antt =====
-- s_band_antenna_mgmt/src/uart_client.c: the frames in the byte stream from the FPGA. The receive
-- thread's frame buffer up to `frame_offset` is a list of bytes; what the callbacks get is a result.
-- Opening the port, its options, the threads and the log are left out.
pub mod Steps
pub mod Split
pub mod Reads
mod Tests
use dpb_s_mgmt.Base.{
  ℕ, zero, suc, ◌+◌, ◌-◌, ◌*◌, Bool, true, false, Option, none, some, List, [], ◌∷◌, ◌++◌, length,
  get_or, take, drop, ltb, ◌==◌, if◌then◌else◌, not, ◌&&◌, ◌||◌, get_u16_be,
}

abbrev pub frame_header : ℕ
frame_header = 0xEB90

abbrev pub telemetry_log_header : ℕ
telemetry_log_header = 0xEB93

abbrev pub frame_tail : ℕ
frame_tail = 0x5555

abbrev pub buffer_size : ℕ
buffer_size = 2048

-- `fpga_telemetry_payload_len` of fpga_protocol.c
unfoldable pub telemetry_payload_len : ℕ → ℕ
telemetry_payload_len src =
    if src == 0xA1 then 127 else if src == 0xB1 then 146 else if src == 0xB2 then 146 else 0

-- What a callback gets.
pub data Delivery : Type 0 where
  telemetry_log status other : List ℕ → Delivery

-- The search for a header: the bytes that it passes over, and the header.
unfoldable pub find_header : List ℕ → Option (ℕ × ℕ)
find_header [] = none
find_header (a ∷ []) = none
find_header (a ∷ b ∷ rest) =
    let later = find_header (b ∷ rest) in
    let hdr = a * 256 + b in
    if hdr == frame_header || hdr == telemetry_log_header
    then some (0, hdr)
    else elim later [ none ↦ none | some found ↦ some (suc found.0, found.1) ]

-- How a round of the loop ends: the loop is left, or goes on with the bytes behind a bad header, or
-- behind a frame.
pub data Step : Type 0 where
  done skip : List ℕ → Step
  frame : Delivery → List ℕ → Step

abbrev pub delivery : ℕ → List ℕ → ℕ → Delivery
delivery hdr bytes length_field =
    if hdr == telemetry_log_header
    then telemetry_log bytes
    else if length bytes == 133 && length_field == 127
    then status bytes
    else other bytes

-- The checks on a frame of `expected` bytes at the front of the buffer.
unfoldable pub check_frame : ℕ → ℕ → ℕ → List ℕ → Step
check_frame hdr length_field expected b =
    if ltb expected 6 || ltb buffer_size expected
    then skip (drop 1 b)
    else if ltb (length b) expected
    then done b
    else if not (get_u16_be b (expected - 2) == frame_tail)
    then skip (drop 1 b)
    else frame (delivery hdr (take expected b) length_field) (drop expected b)

-- The part of a round behind the search, with the header at the front.
unfoldable pub at_header : ℕ → List ℕ → Step
at_header hdr b =
    let expect_len = telemetry_payload_len (get_or b 2 0) in
    let data_len = get_or b 3 0 in
    let length_field = get_u16_be b 2 in
    if ltb (length b) 4
    then done b
    else if hdr == telemetry_log_header
    then (if expect_len == 0 || not (data_len == expect_len)
        then skip (drop 1 b)
        else check_frame hdr 0 (6 + data_len) b)
    else check_frame hdr length_field (2 + 2 + length_field + 2) b

-- Without a header, only a last byte that may begin one is kept.
unfoldable pub half_header : List ℕ → List ℕ
half_header [] = []
half_header (a ∷ []) = if a == 0xEB then a ∷ [] else []
half_header (a ∷ b ∷ rest) = half_header (b ∷ rest)

-- A round of `while (processed_bytes < frame_offset)` on the bytes that are not processed.
unfoldable pub step : List ℕ → Step
unfolding find_header half_header
step b = elim (find_header b) [
  | none ↦ done (half_header b)
  | some found ↦ at_header found.1 (drop found.0 b)
]

abbrev pub add_frame : Delivery → Option (List Delivery × List ℕ) → Option (List Delivery × List ℕ)
add_frame d none = none
add_frame d (some (ds, rest)) = some (d ∷ ds, rest)

-- The loop, on fuel: the frames and the bytes that stay in the buffer.
unfoldable pub process : ℕ → List ℕ → Option (List Delivery × List ℕ)
process zero b = none
process (suc n) b = elim (step b) [
  | done rest ↦ some ([], rest)
  | skip rest ↦ process n rest
  | frame d rest ↦ add_frame d (process n rest)
]

-- A `read` of at most 1024 bytes in `uart_recv_thread`; an append that would overflow drops what the
-- buffer held. The loop has fuel for every byte of the buffer.
unfoldable pub receive : List ℕ → List ℕ → Option (List Delivery × List ℕ)
unfolding process
receive buffer bytes =
    let held = if ltb buffer_size (length buffer + length bytes) then [] else buffer in
    if ltb buffer_size (length bytes)
    then some ([], held)
    else process (buffer_size + 1) (held ++ bytes)

-- The loop of `uart_recv_thread` over what `read` gives.
unfoldable pub receive_all : List ℕ → List (List ℕ) → Option (List Delivery × List ℕ)
receive_all buffer [] = some ([], buffer)
receive_all buffer (bytes ∷ reads) = elim (receive buffer bytes) [
  | none ↦ none
  | some (found, left) ↦ elim (receive_all left reads) [
    | none ↦ none
    | some (later, rest) ↦ some (found ++ later, rest)
  ]
]
