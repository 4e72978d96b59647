-- ===== src/Cell/Apply.antt =====
-- How a configuration of a cell or of a frequency is applied.
use dpb_s_mgmt.Base.{
  ℕ, zero, suc, ◌+◌, ◌%◌, Bool, true, false, Option, none, some, get_or, set, ◌==◌, if◌then◌else◌,
  not, ◌&&◌, map, general, timeout, Result, ok, err,
}
use dpb_s_mgmt.Cell.{
  result_success, result_failure, CellInfo, FreqInfo, Manager, Antenna, State, no_freq, row_of,
  cell_of, update_tx_control, find_first, is_cell, is_free_cell, is_beam, is_free_freq,
}

-- `cell_config_ie_t`
pub record CellConfig : Type 0 where
  pub cell_cfg_flag : ℕ
  pub local_cell_id : ℕ
  pub cell_power : ℕ
  pub freq_count : ℕ
  pub cell_type : ℕ

-- `freq_config_ie_t`, without its reserved fields.
pub record FreqConfig : Type 0 where
  pub freq_cfg_flag : ℕ
  pub local_cell_id : ℕ
  pub beam_id : ℕ
  pub dl_center_freq : ℕ
  pub special_subframe : ℕ
  pub sys_subframe_num : ℕ
  pub beam_bandwidth : ℕ
  pub ul_dl_config : ℕ
  pub ul_center_freq : ℕ

abbrev pub set_cell : ℕ → CellInfo → Manager → Manager
set_cell i c m = record m { cells = set m.cells i c }

abbrev pub set_freq : ℕ → ℕ → FreqInfo → Manager → Manager
set_freq i j f m = record m { freqs = set m.freqs i (set (row_of m i) j f) }

-- The cell that `CELL_CFG_ESTABLISH` enters.
abbrev pub new_cell : CellConfig → CellInfo
new_cell cfg = record {
  active = true;
  local_cell_id = cfg.local_cell_id;
  cell_power = cfg.cell_power;
  cell_type = cfg.cell_type;
  freq_count = 0;
}

-- The loop of `CELL_CFG_DELETE` over a cell's frequencies.
abbrev pub forget : FreqInfo → FreqInfo
forget f = record f { active = false; sent_to_antenna = false }

-- The tables without the cell in a slot.
abbrev pub delete_cell : ℕ → Manager → Manager
delete_cell i m = record {
  cells = set m.cells i (record (cell_of m i) { freq_count = 0; active = false });
  freqs = set m.freqs i (map forget (row_of m i));
}

unfoldable pub establish_cell : CellConfig → Option ℕ → Manager → ℕ × Manager
establish_cell cfg (some i) m =
    let c = cell_of m i in
    if c.cell_power == cfg.cell_power && c.cell_type == cfg.cell_type
    then (result_success, m)
    else (result_failure, m)
establish_cell cfg none m = elim (find_first is_free_cell m.cells) [
  | some i ↦ (result_success, set_cell i (new_cell cfg) m)
  | none ↦ (result_failure, m)
]

unfoldable pub reconfig_cell : CellConfig → Option ℕ → Manager → ℕ × Manager
reconfig_cell cfg none m = (result_failure, m)
reconfig_cell cfg (some i) m =
    (result_success, set_cell i (record (cell_of m i) { cell_power = cfg.cell_power }) m)

abbrev pub with_manager : {W : Type 0} → State W → ℕ × Manager → ℕ × State W
with_manager s (result, m) = (result, record s { manager = m })

-- `MAX_WAIT_MS / POLL_INTERVAL_MS`
abbrev pub wait_rounds : ℕ
wait_rounds = 50

module _ {W : Type 0} (antenna : Antenna W) where
  unfoldable pub delete_found : (State W → State W) → Option ℕ → State W → ℕ × State W
  delete_found meanwhile none s = (result_success, s)
  delete_found meanwhile (some i) s = (
    result_success,
    update_tx_control antenna meanwhile (record s { manager = delete_cell i s.manager }),
  )

  -- `cell_config_apply_cell`: the result and the state.
  unfoldable pub apply_cell : (State W → State W) → CellConfig → State W → ℕ × State W
  apply_cell meanwhile cfg s =
      let found = find_first (is_cell cfg.local_cell_id) s.manager.cells in
      if cfg.cell_cfg_flag == 0
      then with_manager s (establish_cell cfg found s.manager)
      else if cfg.cell_cfg_flag == 1
      then with_manager s (reconfig_cell cfg found s.manager)
      else if cfg.cell_cfg_flag == 2
      then delete_found meanwhile found s
      else (result_failure, s)

  -- The first phase of `wait_for_antenna_mode_cycle`: the rounds that are left of the 50 when the mode
  -- has changed.
  unfoldable pub wait_change : ℕ → ℕ → W → Option ℕ × W
  wait_change initial zero w = (none, w)
  wait_change initial (suc n) w =
      let (mode, w') = antenna.get_mode w in
      let rest = wait_change initial n w' in
      elim mode [
        | none ↦ rest
        | some current ↦ if not (current == initial) then (some (suc n), w') else rest
      ]

  -- The second phase: whether the mode has come back.
  unfoldable pub wait_back : ℕ → ℕ → W → Bool × W
  wait_back initial zero w = (false, w)
  wait_back initial (suc n) w =
      let (mode, w') = antenna.get_mode w in
      let rest = wait_back initial n w' in
      elim mode [ none ↦ rest | some current ↦ if current == initial then (true, w') else rest ]

  unfoldable pub after_change : ℕ → Option ℕ × W → Result (Unit {0}) × W
  after_change initial (none, w) = (ok tt, w)
  after_change initial (some left, w) =
      let (back, w') = wait_back initial left w in if back then (ok tt, w') else (err timeout, w')

  -- `wait_for_antenna_mode_cycle`
  unfoldable pub wait_cycle : W → Result (Unit {0}) × W
  unfolding after_change
  wait_cycle w =
      let (mode, w') = antenna.get_mode w in
      elim mode [
        | none ↦ (err general, w')
        | some initial ↦
            if not (initial == 0) && not (initial == 1)
            then (ok tt, w')
            else after_change initial (wait_change initial wait_rounds w')
      ]

-- `store_freq_info`
abbrev pub store_freq_info : FreqConfig → Bool → FreqInfo
store_freq_info cfg sent = record {
  active = true;
  sent_to_antenna = sent;
  local_cell_id = cfg.local_cell_id;
  beam_id = cfg.beam_id;
  dl_center_freq = cfg.dl_center_freq;
  ul_center_freq = cfg.ul_center_freq;
  beam_bandwidth = cfg.beam_bandwidth;
  ul_dl_config = cfg.ul_dl_config;
  special_subframe = cfg.special_subframe;
}

-- The frequencies and the bandwidth of an entry are those of a configuration.
abbrev pub has_params : FreqConfig → FreqInfo → Bool
has_params cfg f =
    f.dl_center_freq == cfg.dl_center_freq
    && (f.ul_center_freq == cfg.ul_center_freq && f.beam_bandwidth == cfg.beam_bandwidth)

abbrev pub is_sent_with : FreqConfig → FreqInfo → Bool
is_sent_with cfg f = f.active && (f.sent_to_antenna && has_params cfg f)

abbrev pub is_beam_with : FreqConfig → FreqInfo → Bool
is_beam_with cfg f = f.active && (f.beam_id == cfg.beam_id && has_params cfg f)

-- `freq_count++` and `freq_count--` on a uint8_t.
abbrev pub count_up : ℕ → Manager → Manager
count_up i m =
    let c = cell_of m i in set_cell i (record c { freq_count = (c.freq_count + 1) % 256 }) m

abbrev pub count_down : ℕ → Manager → Manager
count_down i m =
    let c = cell_of m i in set_cell i (record c { freq_count = (c.freq_count + 255) % 256 }) m

-- The slot of the beam in a row, or a free one, which is counted.
unfoldable pub find_slot : ℕ → ℕ → Manager → Option (ℕ × Manager)
find_slot i beam m = elim (find_first (is_beam beam) (row_of m i)) [
  | some j ↦ some (j, m)
  | none ↦ elim (find_first is_free_freq (row_of m i)) [
    | some j ↦ some (j, count_up i m)
    | none ↦ none
  ]
]

-- The frequency is in the table, not sent.
unfoldable pub save_freq : ℕ → FreqConfig → Manager → Option (ℕ × Manager)
save_freq i cfg m = elim (find_slot i cfg.beam_id m) [
  | some (j, m') ↦ some (j, set_freq i j (store_freq_info cfg false) m')
  | none ↦ none
]

-- The entry counts as sent.
abbrev pub mark_sent : ℕ → ℕ → Manager → Manager
mark_sent i j m = set_freq i j (record (get_or (row_of m i) j no_freq) { sent_to_antenna = true }) m
