-- ===== src/Cell/Request.antt =====
-- The elements of a configuration message, and the elements that answer them.
use dpb_s_mgmt.Base.{
  ℕ, zero, suc, ◌+◌, ◌-◌, ◌%◌, ◌^◌, Option, none, some, List, [], ◌∷◌, ◌++◌, length, get_or, take,
  drop, ltb, ◌==◌, if◌then◌else◌, ◌||◌, u16_le, u32_le, get_u16_le, get_u32_le, memory,
  invalid_param, Result, ok, err,
}
use dpb_s_mgmt.Cpri.{Header, Message}
use dpb_s_mgmt.Cell.{result_failure, Antenna, State}
use dpb_s_mgmt.Cell.Apply.{CellConfig, FreqConfig, apply_cell}
use dpb_s_mgmt.Cell.Frequency.{apply_freq}

abbrev pub ie_type_cell_config : ℕ
ie_type_cell_config = 0x5E2

abbrev pub ie_type_freq_config : ℕ
ie_type_freq_config = 0x5E3

abbrev pub ie_type_cell_config_resp : ℕ
ie_type_cell_config_resp = 0x5EC

abbrev pub ie_type_freq_config_resp : ℕ
ie_type_freq_config_resp = 0x5ED

abbrev pub max_payload_size : ℕ
max_payload_size = 4096

-- `cell_config_parse_cell_ie`
unfoldable pub parse_cell_ie : List ℕ → Result CellConfig
parse_cell_ie d =
    if ltb (length d) 10
    then err invalid_param
    else ok (record {
      cell_cfg_flag = get_or d 0 0;
      local_cell_id = get_u32_le d 1;
      cell_power = get_u16_le d 5;
      freq_count = get_or d 8 0;
      cell_type = get_or d 9 0;
    })

-- `cell_config_parse_freq_ie`
unfoldable pub parse_freq_ie : List ℕ → Result FreqConfig
parse_freq_ie d =
    if ltb (length d) 32
    then err invalid_param
    else ok (record {
      freq_cfg_flag = get_or d 0 0;
      local_cell_id = get_u32_le d 1;
      beam_id = get_or d 5 0;
      dl_center_freq = get_u32_le d 6;
      special_subframe = get_or d 14 0;
      sys_subframe_num = get_u32_le d 15;
      beam_bandwidth = get_u32_le d 19;
      ul_dl_config = get_u32_le d 23;
      ul_center_freq = get_u32_le d 28;
    })

abbrev pub bytes_of : Option (List ℕ) → List ℕ
bytes_of none = []
bytes_of (some bytes) = bytes

-- `add_ie`: the payload, NULL at first, and its bytes up to `offset`.
unfoldable pub add_ie : Option (List ℕ) → ℕ → List ℕ → Result (Unit {0}) × Option (List ℕ)
add_ie payload ie_type ie_data =
    let bytes = bytes_of payload in
    let ie_len = (4 + length ie_data) % 2 ^ 16 in
    if ltb max_payload_size (length bytes + ie_len)
    then (err memory, some bytes)
    else (ok tt, some (bytes ++ (u16_le ie_type ++ (u16_le ie_len ++ ie_data))))

-- The head of the loops over the elements: the type and the data of the first one, and what is behind it.
unfoldable pub first_ie : List ℕ → Option (ℕ × List ℕ × List ℕ)
first_ie p =
    let ie_len = get_u16_le p 2 in
    if ltb (length p) 4
    then none
    else if ltb ie_len 4 || ltb (length p) ie_len
    then none
    else some (get_u16_le p 0, take (ie_len - 4) (drop 4 p), drop ie_len p)

abbrev pub cell_resp : ℕ → ℕ → List ℕ
cell_resp id result = u32_le id ++ u32_le result

abbrev pub freq_resp : ℕ → ℕ → ℕ → List ℕ
freq_resp id beam result = u32_le id ++ (beam ∷ u32_le result)

-- What answers an element of a request that is not carried out.
unfoldable pub busy_ie : ℕ → Option (List ℕ) → Option (List ℕ)
busy_ie ie_type payload =
    if ie_type == ie_type_cell_config
    then (add_ie payload ie_type_cell_config_resp (cell_resp 0 result_failure)).1
    else if ie_type == ie_type_freq_config
    then (add_ie payload ie_type_freq_config_resp (freq_resp 0 0 result_failure)).1
    else payload

-- The loop of `cell_config_send_busy_response`, on fuel.
unfoldable pub busy_ies : ℕ → List ℕ → Option (List ℕ) → Option (List ℕ)
busy_ies zero p payload = payload
busy_ies (suc n) p payload = elim (first_ie p) [
  | none ↦ payload
  | some (ie_type, data_, rest) ↦ busy_ies n rest (busy_ie ie_type payload)
]

-- `MSG_NR_CELL_CONFIG_RSP` with the identifiers of the request.
abbrev pub response_header : Header → Header
response_header h = record {
  msg_id = 196;
  msg_length = 0;
  paau_id = h.paau_id;
  bbu_id = h.bbu_id;
  port_num = h.port_num;
  serial_num = h.serial_num;
}

abbrev pub response_of : Header → Option (List ℕ) → Message (List ℕ)
response_of h payload = record {
  header = response_header h;
  payload = payload;
  payload_len = length (bytes_of payload);
}

module _ {W : Type 0} (antenna : Antenna W) (other meanwhile : State W → State W) where
  -- One element of a request is carried out and answered.
  unfoldable pub answer_ie : ℕ → List ℕ → State W → Option (List ℕ) → State W × Option (List ℕ)
  answer_ie ie_type data_ s payload =
      if ie_type == ie_type_cell_config
      then elim (parse_cell_ie data_) [
        | err e ↦ (s, payload)
        | ok cfg ↦
            let (result, s') = apply_cell antenna meanwhile cfg s in
            (s', (add_ie payload ie_type_cell_config_resp (cell_resp cfg.local_cell_id result)).1)
      ]
      else if ie_type == ie_type_freq_config
      then elim (parse_freq_ie data_) [
        | err e ↦ (s, payload)
        | ok cfg ↦
            let a = apply_freq antenna other meanwhile cfg s in
            (
              a.state,
              (add_ie payload ie_type_freq_config_resp
                  (freq_resp cfg.local_cell_id cfg.beam_id a.result)).1,
            )
      ]
      else (s, payload)

  -- The loop of `cell_config_create_response`, on fuel.
  unfoldable pub answer_ies : ℕ → List ℕ → State W → Option (List ℕ) → State W × Option (List ℕ)
  answer_ies zero p s payload = (s, payload)
  answer_ies (suc n) p s payload = elim (first_ie p) [
    | none ↦ (s, payload)
    | some (ie_type, data_, rest) ↦
        let (s', payload') = answer_ie ie_type data_ s payload in answer_ies n rest s' payload'
  ]

  -- `cell_config_create_response`
  unfoldable pub create_response : Header → List ℕ → State W → State W × Message (List ℕ)
  create_response h request s =
      let (s', payload) = answer_ies (length request) request s none in (s', response_of h payload)
