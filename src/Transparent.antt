-- ===== src/Transparent.antt =====
-- s_band_antenna_mgmt/src/transparent_msg.c: messages whose content goes to the FPGA as it is. The
-- serial port and the TCP connection are parameters; the timestamp, the source address and the audit
-- log are left out.
pub mod Elements
pub mod Forward
mod Tests
use dpb_s_mgmt.Base.{
  ℕ, zero, suc, ◌+◌, ◌-◌, ◌%◌, ◌^◌, Bool, true, false, Option, none, some, List, [], ◌∷◌, ◌++◌,
  length, get_or, take, drop, ltb, leb, ◌==◌, if◌then◌else◌, not, ◌&&◌, ◌||◌, min, u16_le,
  get_u16_le, Error, general, invalid_param, not_initialized, Result, ok, err, ◌>>=◌, ◌>>◌, fail_if,
}
use dpb_s_mgmt.Cpri.{Message, encode_message}

unfoldable pub is_bbu_to_paau_transparent : ℕ → Bool
is_bbu_to_paau_transparent msg_id = leb 231 msg_id && leb msg_id 240

unfoldable pub is_transparent_message : ℕ → Bool
is_transparent_message msg_id =
    (leb 221 msg_id && leb msg_id 230) || (leb 231 msg_id && leb msg_id 240)

abbrev pub ie_target : ℕ
ie_target = 0x0641

abbrev pub ie_content : ℕ
ie_content = 0x0642

abbrev pub content_max_len : ℕ
content_max_len = 1024

-- `calc_effective_len`: zeros at the end do not count.
unfoldable pub calc_effective_len : List ℕ → ℕ → ℕ
calc_effective_len content zero = 0
calc_effective_len content (suc n) =
    let shorter = calc_effective_len content n in if get_or content n 0 == 0 then shorter else suc n

-- `transparent_message_t`: the content up to `content_len`.
pub record Content : Type 0 where
  pub target_id : ℕ
  pub bytes : List ℕ
  pub effective_len : ℕ

-- What the loop over the elements has found.
pub record Found : Type 0 where
  pub target_id : ℕ
  pub content : Option (List ℕ)

-- The `switch` on the type of an element.
unfoldable pub take_ie : Found → ℕ → List ℕ → Found
take_ie f ie_type ie_data =
    if ie_type == ie_target
    then (if leb 1 (length ie_data) then record f { target_id = get_or ie_data 0 0 } else f)
    else if ie_type == ie_content
    then record f { content = some (take content_max_len ie_data) }
    else f

-- The loop over the elements, on fuel: `p` is what is left of the payload.
unfoldable pub parse_ies : ℕ → Found → List ℕ → Result Found
parse_ies zero f p = err general
parse_ies (suc n) f p =
    let ie_type = get_u16_le p 0 in
    let ie_length = get_u16_le p 2 in
    let ie_data = take (ie_length - 4) (drop 4 p) in
    let rest = parse_ies n (take_ie f ie_type ie_data) (drop ie_length p) in
    if ltb (length p) 4
    then ok f
    else if ltb ie_length 4
    then err invalid_param
    else if ltb (length p) ie_length
    then err invalid_param
    else rest

abbrev pub finish_parse : Found → Result Content
finish_parse f = elim f.content [
  | none ↦ err invalid_param
  | some bytes ↦ ok (record {
    target_id = f.target_id;
    bytes = bytes;
    effective_len = calc_effective_len bytes (length bytes);
  })
]

-- `transparent_msg_parse`, with fuel for every byte of the payload.
unfoldable pub msg_parse : List ℕ → Result Content
msg_parse payload = do
  fail_if (ltb (length payload) 4) invalid_param
  f ← parse_ies (length payload + 1) (record { target_id = 0; content = none }) payload
  finish_parse f

-- The payload that `send_transparent_paau_to_bbu` puts together.
unfoldable pub ie_payload : ℕ → List ℕ → List ℕ
ie_payload target_id content =
    u16_le ie_target
    ++ (u16_le 5
        ++ (target_id ∷ (u16_le ie_content ++ (u16_le ((4 + length content) % 2 ^ 16) ++ content))))

-- The bytes of the message that goes to the BBU.
unfoldable pub send_paau_to_bbu : Bool → ℕ → ℕ → List ℕ → Result (List ℕ)
send_paau_to_bbu initialized msg_id target_id content =
    let payload = ie_payload target_id content in
    let message : Message (List ℕ) = record {
      header = record {
        msg_id = msg_id;
        msg_length = 0;
        paau_id = 0;
        bbu_id = 0;
        port_num = 0;
        serial_num = 0;
      };
      payload = some payload;
      payload_len = length payload;
    } in
    if not initialized
    then err not_initialized
    else if ltb msg_id 221 || ltb 230 msg_id
    then err invalid_param
    else if ltb content_max_len (length content)
    then err invalid_param
    else elim (encode_message message 1088) [ ok bytes ↦ ok bytes | err e ↦ err general ]

-- What a message has caused: the bytes that went to the FPGA and to the BBU.
pub record Effects : Type 0 where
  pub to_fpga : Option (List ℕ)
  pub to_bbu : Option (List ℕ)

abbrev pub nothing : Effects
nothing = record { to_fpga = none; to_bbu = none }

-- The reply of `handle_transparent_bbu_to_paau`.
unfoldable pub reply : Bool → Bool → ℕ → Content → Effects → Result (Unit {0}) × Effects
reply initialized auto_reply msg_id c done =
    let reply_id = (221 + (msg_id - 231)) % 2 ^ 16 in
    if not auto_reply
    then (ok tt, done)
    else elim (send_paau_to_bbu initialized reply_id c.target_id (take c.effective_len c.bytes)) [
      | ok bytes ↦ (ok tt, record done { to_bbu = some bytes })
      | err e ↦ (err e, done)
    ]

-- `fpga_send_raw` is the parameter `send_raw`.
unfoldable pub handle_bbu_to_paau :
    (List ℕ → Result (Unit {0})) → Bool → Bool → ℕ → Content → Result (Unit {0}) × Effects
handle_bbu_to_paau send_raw initialized auto_reply msg_id c =
    let effective = take c.effective_len c.bytes in
    let sent = record nothing { to_fpga = some effective } in
    if not initialized
    then (err not_initialized, nothing)
    else if ltb 0 c.effective_len
    then elim (send_raw effective) [
      | err e ↦ (err e, nothing)
      | ok u ↦ reply initialized auto_reply msg_id c sent
    ]
    else reply initialized auto_reply msg_id c nothing

-- `transparent_msg_handle`
unfoldable pub msg_handle :
    (List ℕ → Result (Unit {0}))
    → Bool
    → Bool
    → Bool
    → ℕ
    → Option (List ℕ)
    → Result (Unit {0}) × Effects
msg_handle send_raw initialized enable auto_reply msg_id none = (err invalid_param, nothing)
msg_handle send_raw initialized enable auto_reply msg_id (some payload) =
    if not enable then (err invalid_param, nothing) else elim (msg_parse payload) [
      | err e ↦ (err e, nothing)
      | ok c ↦
          if leb 231 msg_id && leb msg_id 240
          then handle_bbu_to_paau send_raw initialized auto_reply msg_id c
          else (ok tt, nothing)
    ]
