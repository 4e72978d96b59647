-- ===== src/Uart/Frames.antt =====
-- The packets that `rs422_frame_check_and_process` lets through are acknowledgements.
use dpb_s_mgmt.Base.{
  ℕ, ◌+◌, ◌-◌, ◌*◌, ◌^◌, ◌≤◌, ◌<◌, ◌≡◌, refl, sym, ap, ◌∙◌, Bool, true, false, not, List, arith,
  length, get_or, take, drop, ltb, ◌==◌, if◌then◌else◌, get_u16_be, AreBytes, bit_and_byte,
  bit_or_bytes, zero-bit_or, get_or-lt, get_or-drop, get_or-take, length-take, length-drop, ok,
  Bool-cases, inl, inr,
}
use dpb_s_mgmt.Finder.{head_at, head_from, field_len, len_byte, big_len}
use dpb_s_mgmt.Finder.Packet.{packet_len}
use dpb_s_mgmt.Finder.Parse.{Keeps}
use dpb_s_mgmt.Rs422.{checksum, Decoded, decode_frame}
use dpb_s_mgmt.Rs422.Roundtrip.{decode_data-ok}
use dpb_s_mgmt.Uart.{Held, ack_finder, frame_good, check_and_process}

-- The sync word where the finder sees the header.
header_lem :
    (dat : List ℕ) (at : ℕ)
    → AreBytes dat
    → head_at ack_finder dat at ≡ true
    → (get_or dat (at + 0) 0 ≡ 0x1A) × (get_or dat (at + 1) 0 ≡ 0xCF)
unfolding head_at head_from
header_lem dat at bytes h = ground (
  arith,
  bit_and_byte (get_or dat (at + 0) 0) (get_or-lt dat (at + 0) bytes),
  bit_and_byte (get_or dat (at + 1) 0) (get_or-lt dat (at + 1) bytes),
)

-- The finder's length field.
field_lem :
    (dat : List ℕ) (at : ℕ)
    → AreBytes dat
    → field_len ack_finder dat at ≡ get_or dat (at + 6 + 0) 0 * 256 + get_or dat (at + 6 + 1) 0
unfolding field_len big_len len_byte
field_lem dat at bytes =
    let low : ℕ = get_or dat (at + 6 + 1) 0 in
    let high : ℕ = get_or dat (at + 6 + 0) 0 in
    let l : low * 2 ^ 0 ≡ low = omega arith in
    rw (bit_and_byte high (get_or-lt dat (at + 6 + 0) bytes), l, zero-bit_or low)
      (bit_or_bytes low high (get_or-lt dat (at + 6 + 1) bytes) ∙ omega arith)

-- What the frame of a context with a ready frame satisfies: it has 11 to 2048 bytes, and
-- `rs422_decode_frame` accepts it if it has more than 11.
pub record IsAnswer (frame : List ℕ) : Type 0 where
  pub long : 11 ≤ length frame
  pub short : length frame ≤ 2048
  pub decodes : 12 ≤ length frame → (d : Decoded) × (decode_frame frame ≡ ok d)

-- The checks of the callback and those of the finder are those of `rs422_decode_frame`.
decodes_lem :
    (pk : List ℕ) (m : ℕ)
    → get_u16_be pk 0 ≡ 0x1ACF
    → get_u16_be pk 6 + 1 ≡ m
    → length pk ≡ m + 10
    → 2 ≤ m
    → m < 2 ^ 17
    → get_u16_be pk (length pk - 2) ≡ checksum (take (length pk - 2 - 2) (drop 2 pk))
    → (d : Decoded) × (decode_frame pk ≡ ok d)
unfolding decode_frame
decodes_lem pk m sync field len two small sum =
    let e : m + 10 - 2 ≡ m + 8 = omega arith in
    let e' : m + 8 - 2 ≡ m + 6 = omega arith in
    let ok_len : ltb (m + 10) (8 + 2 + 2) ≡ false = ground arith in
    let ok_sync : not (get_u16_be pk 0 == 0x1ACF) ≡ false = ground arith in
    let same : get_u16_be pk (m + 8) ≡ checksum (take (m + 6) (drop 2 pk)) =
      rw (sym e', sym e, sym len) sum in
    (
      record {
        apid = get_u16_be pk 2;
        cmd_code = get_u16_be pk 8;
        payload = take (m - 2) (drop 10 pk);
        payload_len = m - 2;
      },
      rw (len, ok_len, ok_sync, field) (decode_data-ok pk m two small (omega arith) same),
    )

frame_good-IsAnswer :
    (dat : List ℕ) (at len : ℕ)
    → AreBytes dat
    → at + len ≤ length dat
    → head_at ack_finder dat at ≡ true
    → len ≡ packet_len ack_finder dat at
    → frame_good (take len (drop at dat)) ≡ true
    → IsAnswer (take len (drop at dat))
unfolding frame_good
frame_good-IsAnswer dat at len bytes fits here size good =
    let pk : List ℕ = take len (drop at dat) in
    let field : ℕ = get_or dat (at + 6 + 0) 0 * 256 + get_or dat (at + 6 + 1) 0 in
    let e_len : len ≡ field + 11 = size ∙ ap (λ k. k + 11) (field_lem dat at bytes) in
    let e_pk : length pk ≡ len = omega (arith, length-take len (drop at dat), length-drop at dat) in
    let at_pk : (i j : ℕ) → i < len → j ≡ at + i → get_or pk i 0 ≡ get_or dat j 0 = λ i j h e.
      get_or-take len i (drop at dat) 0 h
      ∙ (get_or-drop dat at i 0 ∙ ap (λ k. get_or dat k 0) (sym e)) in
    let head = header_lem dat at bytes here in
    let tests : (length pk ≤ 2048)
        × (get_u16_be pk (length pk - 2) ≡ checksum (take (length pk - 2 - 2) (drop 2 pk))) =
      ground arith in
    record {
      long = omega arith;
      short = tests.0;
      decodes = λ more.
          decodes_lem pk (field + 1)
            (omega (
              arith,
              head,
              at_pk 0 (at + 0) (omega arith) (omega arith),
              at_pk 1 (at + 1) (omega arith) (omega arith),
            ))
            (omega (
              arith,
              at_pk 6 (at + 6 + 0) (omega arith) (omega arith),
              at_pk 7 (at + 6 + 1) (omega arith) (omega arith),
            ))
            (omega arith) (omega arith) (omega arith) tests.1;
    }

-- What the callback keeps: a frame is ready if and only if a packet was let through, and it is an
-- acknowledgement.
abbrev pub Kept : ℕ → Bool → Held → Type 0
Kept at good h = (h.ready ≡ good) × (good ≡ true → IsAnswer h.frame)

check_and_process-Kept :
    (pk : List ℕ) (before : Bool) (h : Held)
    → (frame_good pk ≡ true → IsAnswer pk)
    → Kept 0 before h
    → let (h', good) = check_and_process h pk in Kept 0 (if good then true else before) h'
unfolding check_and_process
check_and_process-Kept pk before h answers k = elim (Bool-cases (frame_good pk)) [
  | inl good ↦ rw good (refl, λ e. answers good)
  | inr bad ↦ rw bad k
]

pub check_and_process-Keeps :
    (dat : List ℕ) → AreBytes dat → Keeps ack_finder check_and_process dat Kept
check_and_process-Keeps dat bytes = record {
  later = λ at at' good h le k. k;
  packet = λ lo at len before h l1 l2 l3 here size k.
      check_and_process-Kept (take len (drop at dat)) before h
        (frame_good-IsAnswer dat at len bytes l2 here size) k;
}
