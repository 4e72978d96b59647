-- ===== src/Rs422/Commands.antt =====
-- The commands of the RS-422 protocol that are built on `rs422_encode_frame`, and the readers of the
-- acknowledgements' payloads. The functions that only name codes for the log are left out.
use dpb_s_mgmt.Base.{
  ℕ, ◌+◌, ◌%◌, ◌^◌, ◌≤◌, ◌<◌, ◌≡◌, refl, none, some, List, [], ◌∷◌, ◌++◌, arith, length, get_or,
  take, ltb, u16_be, u32_be, invalid_param, Result, ok, ◌>>◌, fail_if,
}
use dpb_s_mgmt.Rs422.{encode_frame, decode_frame}
use dpb_s_mgmt.Rs422.Roundtrip.{as_ack, encode_frame-roundtrip}

abbrev pub apid_control : ℕ
apid_control = 0x0180

-- `rs422_cmd_transfer_start_t`, in the host's numbers.
pub record TransferStart : Type 0 where
  pub device_id : ℕ
  pub file_type : ℕ
  pub file_sub_type : ℕ
  pub segment_info : ℕ
  pub file_length : ℕ
  pub last_segment_len : ℕ
  pub file_checksum : ℕ

-- The packed structure after the conversion to network byte order.
unfoldable pub transfer_start_bytes : TransferStart → List ℕ
transfer_start_bytes p =
    p.device_id
    ∷ p.file_type
    ∷ p.file_sub_type
    ∷ (u16_be p.segment_info
        ++ (u32_be p.file_length ++ (u32_be p.last_segment_len ++ u16_be p.file_checksum)))

unfoldable pub build_reconfig_start : ℕ → ℕ → ℕ → ℕ → Result (List ℕ) × ℕ
build_reconfig_start file_type file_sub_type =
    encode_frame apid_control 0x01AF (some (file_type ∷ file_sub_type ∷ [])) 2

unfoldable pub build_reconfig_query : ℕ → ℕ → Result (List ℕ) × ℕ
build_reconfig_query = encode_frame apid_control 0x01C5 none 0

unfoldable pub build_version_query : ℕ → ℕ → Result (List ℕ) × ℕ
build_version_query = encode_frame apid_control 0x0101 none 0

unfoldable pub build_transfer_start : TransferStart → ℕ → ℕ → Result (List ℕ) × ℕ
build_transfer_start params =
    encode_frame apid_control 0x0155 (some (transfer_start_bytes params)) 15

unfoldable pub build_transfer_end : ℕ → ℕ → Result (List ℕ) × ℕ
build_transfer_end = encode_frame apid_control 0x01AA none 0

unfoldable pub build_transfer_abort : ℕ → ℕ → Result (List ℕ) × ℕ
build_transfer_abort = encode_frame apid_control 0x018F none 0

unfoldable pub build_upload_notify : ℕ → ℕ → ℕ → Result (List ℕ) × ℕ
build_upload_notify notify_code =
    encode_frame apid_control 0xA207 (some (notify_code ∷ 0xAA ∷ [])) 2

-- `rs422_parse_reconfig_ack`, `rs422_parse_transfer_start_ack`, `rs422_parse_data_ack` and
-- `rs422_parse_transfer_end_ack` have this body: the structures hold one byte.
unfoldable pub parse_result : List ℕ → Result ℕ
parse_result payload = do fail_if (ltb (length payload) 1) invalid_param; ok (get_or payload 0 0)

pub parse_version_ack : List ℕ → Result (List ℕ)
parse_version_ack payload = do
  fail_if (ltb (length payload) 32) invalid_param
  ok (take 31 payload ++ (0 ∷ []))

-- `rs422_build_transfer_start`, into a buffer of at least 27 bytes, always builds a frame of 27
-- bytes, counts the sequence number up, and under the sync word of an acknowledgement that frame
-- decodes to the command 3-3 with the fields in network byte order.
pub build_transfer_start-decodes :
    (p : TransferStart) (size seq : ℕ)
    → 27 ≤ size
    → size < 2 ^ 32
    → (f : List ℕ) × (build_transfer_start p size seq ≡ (ok f, (seq + 1) % 2 ^ 16))
      × (length f ≡ 27)
      × (decode_frame (as_ack f)
          ≡ ok (record {
            apid = 0x0180;
            cmd_code = 0x0155;
            payload = transfer_start_bytes p;
            payload_len = 15;
          }))
unfolding build_transfer_start transfer_start_bytes
build_transfer_start-decodes p size seq room fits =
    let r =
      encode_frame-roundtrip apid_control 0x0155 (some (transfer_start_bytes p)) 15 size seq
        (omega arith) (omega arith) (omega arith) fits refl in
    (r.0, r.1, r.2, r.3)
