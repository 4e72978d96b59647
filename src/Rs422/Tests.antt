-- ===== src/Rs422/Tests.antt =====
-- Runs of rs422_protocol.c on small inputs.
use dpb_s_mgmt.Base.{ℕ, ◌≡◌, refl, some, List, [], ◌∷◌, arith, length, set, general, ok, err}
use dpb_s_mgmt.Rs422.{
  sum_bytes, checksum, crc16_ccitt_false, encode_frame, Decoded, decode_data, decode_frame,
}
use dpb_s_mgmt.Rs422.Roundtrip.{as_ack, encode_frame-roundtrip}
use dpb_s_mgmt.Rs422.Corruption.{decode_frame-set_ne}
use dpb_s_mgmt.Rs422.Commands.{TransferStart, build_upload_notify}

-- The usual test vector of the CRC, "123456789".
crc_digits :
    crc16_ccitt_false (0x31 ∷ 0x32 ∷ 0x33 ∷ 0x34 ∷ 0x35 ∷ 0x36 ∷ 0x37 ∷ 0x38 ∷ 0x39 ∷ []) ≡ 0x29B1
unfolding crc16_ccitt_false
crc_digits = refl

-- The frame that include/rs422_protocol.h gives for the notice before loading.
notify_pre : build_upload_notify 1 256 0 ≡ (
  ok (0xEB ∷ 0x90 ∷ 0x01 ∷ 0x80 ∷ 0xC0 ∷ 0 ∷ 0 ∷ 3 ∷ 0xA2 ∷ 7 ∷ 1 ∷ 0xAA ∷ 0xFD ∷ 0x67 ∷ []),
  1,
)
unfolding build_upload_notify encode_frame checksum sum_bytes
notify_pre = refl

encode_frame-roundtrip_example :
    (f : List ℕ) × (encode_frame 0x0180 0xA207 (some (1 ∷ 0xAA ∷ [])) 2 256 7 ≡ (ok f, 8))
    × (length f ≡ 14)
    × (decode_frame (as_ack f)
        ≡ ok
            (record { apid = 0x0180; cmd_code = 0xA207; payload = 1 ∷ 0xAA ∷ []; payload_len = 2 }))
    × (decode_frame f ≡ err general)
encode_frame-roundtrip_example =
    encode_frame-roundtrip 0x0180 0xA207 (some (1 ∷ 0xAA ∷ [])) 2 256 7 (omega arith) (omega arith)
      (omega arith) (omega arith) refl

-- A data acknowledgement with result 0.
abbrev ack : List ℕ
ack = 0x1A ∷ 0xCF ∷ 1 ∷ 0x80 ∷ 0xC0 ∷ 0 ∷ 0 ∷ 2 ∷ 1 ∷ 0x8A ∷ 0 ∷ 0xFE ∷ 0x31 ∷ []

abbrev ack_decoded : Decoded
ack_decoded = record { apid = 0x0180; cmd_code = 0x018A; payload = 0 ∷ []; payload_len = 1 }

decode-ack : decode_frame ack ≡ ok ack_decoded
unfolding decode_frame decode_data checksum sum_bytes
decode-ack = refl

decode_frame-set_ne_example : decode_frame (set ack 10 0xFF) ≡ err general
decode_frame-set_ne_example =
    decode_frame-set_ne ack 10 0xFF {d = ack_decoded} (omega arith) decode-ack (omega arith)
      (omega arith) (omega arith)

abbrev params : TransferStart
params = record {
  device_id = 0x18;
  file_type = 0xFF;
  file_sub_type = 1;
  segment_info = 0xC003;
  file_length = 0x100000;
  last_segment_len = 0x1234;
  file_checksum = 0xABCD;
}
