-- ===== src/Rs422/Data.antt =====
-- The file data frames of `rs422_build_file_data`.
use dpb_s_mgmt.Base.{
  ℕ, ◌+◌, ◌-◌, ◌*◌, ◌%◌, ◌^◌, ◌≤◌, ◌<◌, ◌≡◌, refl, List, arith, length, ◌==◌, add32, get_u16_be, ok,
  length-append, u16_be, ltb-eq_false, ==_ne, ◌↔◌, if◌then◌else◌, false,
}
use dpb_s_mgmt.Rs422.{
  header_size, crc_size, checksum, body, sealed, decode_frame, group_flag, build_file_data,
}
use dpb_s_mgmt.Rs422.Roundtrip.{as_ack, decode_frame-parts}

-- The place of packet `i` in a segment of `n` packets.
pub data Place : Type 0 where
  single first last middle : Place

pub place_of : ℕ → Place
place_of flag =
    if flag == 3 then single else if flag == 1 then first else if flag == 2 then last else middle

-- A receiver that reads the group flag of packet `i` of a segment of `n` packets learns exactly where
-- the packet stands: the flag says single only for a segment of one packet, first only for packet 0
-- of a longer one, last only for its packet n - 1, and middle for all others.
pub group_flag-place :
    (i n : ℕ)
    → i < n
    → n < 2 ^ 32
    → ((place_of (group_flag i n) ≡ single) ↔ (n ≡ 1))
      × ((place_of (group_flag i n) ≡ first) ↔ ((i ≡ 0) × (1 < n)))
      × ((place_of (group_flag i n) ≡ last) ↔ ((i + 1 ≡ n) × (1 < n)))
      × ((place_of (group_flag i n) ≡ middle) ↔ ((0 < i) × (i + 1 < n)))
unfolding group_flag place_of
group_flag-place i n h s = ground arith

group_flag-le : (i n : ℕ) → group_flag i n ≤ 3
unfolding group_flag
group_flag-le i n = ground arith

-- For file data of 1 to 1000 bytes and a buffer with room for 12 more, `rs422_build_file_data` builds
-- a frame whose control field holds the group flag and the packet's index modulo 2^14, and which
-- decodes, under the sync word of an acknowledgement, to the segment number and the data.
pub build_file_data-decodes :
    (segment : ℕ) (bytes : List ℕ) (size i n : ℕ)
    → segment < 2 ^ 16
    → 0 < length bytes
    → length bytes ≤ 1000
    → length bytes + 12 ≤ size
    → size < 2 ^ 32
    → (f : List ℕ) × (build_file_data segment bytes size i n ≡ ok f)
      × (length f ≡ length bytes + 12)
      × (get_u16_be f 4 ≡ group_flag i n * 2 ^ 14 + i % 2 ^ 14)
      × (decode_frame (as_ack f)
          ≡ ok (record {
            apid = 0x018F;
            cmd_code = segment;
            payload = bytes;
            payload_len = length bytes;
          }))
unfolding build_file_data
build_file_data-decodes segment bytes size i n hs pos most room fits =
    let ctrl : ℕ = group_flag i n * 2 ^ 14 + i % 2 ^ 14 in
    let covered : List ℕ =
      body (0x018F % 2 ^ 11) ctrl ((2 + length bytes - 1) % 2 ^ 16) segment bytes in
    let small : group_flag i n ≤ 3 = group_flag-le i n in
    let some_data : (length bytes == 0) ≡ false = ==_ne _ _ (omega arith) in
    let e : add32 (add32 (header_size + 2) (length bytes)) crc_size ≡ length bytes + 12 =
      omega arith in
    (
      sealed covered,
      rw (some_data, e, ltb-eq_false size (length bytes + 12) room),
      omega (arith, length-append bytes (u16_be (checksum covered))),
      omega arith,
      decode_frame-parts 0x018F ctrl segment bytes (length bytes) (omega arith) hs refl
          (omega arith),
    )
