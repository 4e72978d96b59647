-- ===== src/Cell.antt =====
-- s_band_antenna_mgmt/src/cell_config.c and include/cell_config.h: the cells and their frequencies, and
-- the control of the transmitter. The antenna, which s_band_antenna_mgmt/src/fpga_handler.c reaches over
-- the serial port, is the interface `Antenna`.
pub mod Apply
pub mod Frequency
pub mod Request
pub mod Jobs
pub mod Lookup
pub mod Consistent
pub mod Keeps
pub mod Upkeep
pub mod Invariant
pub mod Carried
pub mod Transmit
pub mod Established
pub mod Queue
pub mod Answer
mod Tests
use dpb_s_mgmt.Base.{
  ℕ, zero, suc, ◌+◌, ◌%◌, Bool, true, false, Option, none, some, List, [], ◌∷◌, length, get_or, set,
  replicate, ltb, ◌==◌, if◌then◌else◌, not, ◌&&◌,
}

abbrev pub max_cells : ℕ
max_cells = 16

abbrev pub max_freqs_per_cell : ℕ
max_freqs_per_cell = 16

-- `CONFIG_RESULT_SUCCESS` and `CONFIG_RESULT_FAILURE`
abbrev pub result_success : ℕ
result_success = 0

abbrev pub result_failure : ℕ
result_failure = 1

-- `cell_info_t`
pub record CellInfo : Type 0 where
  pub active : Bool
  pub local_cell_id : ℕ
  pub cell_power : ℕ
  pub cell_type : ℕ
  pub freq_count : ℕ

-- `freq_info_t`
pub record FreqInfo : Type 0 where
  pub active : Bool
  pub sent_to_antenna : Bool
  pub local_cell_id : ℕ
  pub beam_id : ℕ
  pub dl_center_freq : ℕ
  pub ul_center_freq : ℕ
  pub beam_bandwidth : ℕ
  pub ul_dl_config : ℕ
  pub special_subframe : ℕ

-- `cell_config_manager_t`
pub record Manager : Type 0 where
  pub cells : List CellInfo
  pub freqs : List (List FreqInfo)

-- `fpga_send_tx_control`, `fpga_send_freq_band` and the work mode in what `fpga_handler_get_status` gives,
-- which may fail, on the state `W` of the antenna and the line to it.
pub record Antenna (W : Type 0) : Type 0 where
  pub send_tx_control : ℕ → W → Bool × W
  pub send_freq_band : ℕ → ℕ → ℕ → W → Bool × W
  pub get_mode : W → Option ℕ × W

-- The globals: the tables, `g_bbu_link_ok`, `g_tx_on`, and the antenna.
pub record State (W : Type 0) : Type 0 where
  pub manager : Manager
  pub bbu_link_ok : Bool
  pub tx_on : Bool
  pub antenna : W

abbrev pub no_cell : CellInfo
no_cell = record {
  active = false;
  local_cell_id = 0;
  cell_power = 0;
  cell_type = 0;
  freq_count = 0;
}

abbrev pub no_freq : FreqInfo
no_freq = record {
  active = false;
  sent_to_antenna = false;
  local_cell_id = 0;
  beam_id = 0;
  dl_center_freq = 0;
  ul_center_freq = 0;
  beam_bandwidth = 0;
  ul_dl_config = 0;
  special_subframe = 0;
}

-- The `memset` of `cell_config_init`.
abbrev pub empty_manager : Manager
empty_manager = record {
  cells = replicate max_cells no_cell;
  freqs = replicate max_cells (replicate max_freqs_per_cell no_freq);
}

-- The row of frequencies of a cell.
abbrev pub row_of : Manager → ℕ → List FreqInfo
row_of m i = get_or m.freqs i []

abbrev pub cell_of : Manager → ℕ → CellInfo
cell_of m i = get_or m.cells i no_cell

-- The inner loop of `has_any_freq`.
unfoldable pub any_sent : List FreqInfo → Bool
any_sent [] = false
any_sent (f ∷ fs) = let rest = any_sent fs in if f.active && f.sent_to_antenna then true else rest

-- The outer loop, over the cells and their rows of frequencies.
unfoldable pub any_freq : List CellInfo → List (List FreqInfo) → Bool
any_freq [] rows = false
any_freq (c ∷ cs) [] = false
any_freq (c ∷ cs) (row ∷ rows) =
    let rest = any_freq cs rows in
    if not c.active then rest else if any_sent row then true else rest

abbrev pub has_any_freq : Manager → Bool
has_any_freq m = any_freq m.cells m.freqs

module _ {W : Type 0} (antenna : Antenna W) where
  -- `apply_tx_control`
  unfoldable pub apply_tx_control : Bool → State W → State W
  apply_tx_control on s =
      let (sent, w) = antenna.send_tx_control (if on then 1 else 0) s.antenna in
      if sent then record s { tx_on = on; antenna = w } else record s { antenna = w }

  -- `update_tx_control`, with what other threads do between the look at the link and the command. The
  -- caller has locked the tables.
  unfoldable pub update_tx_control : (State W → State W) → State W → State W
  update_tx_control meanwhile s =
      if not s.bbu_link_ok
      then s
      else let s' = meanwhile s in apply_tx_control (has_any_freq s.manager) s'

  -- `cell_config_notify_bbu_link`
  unfoldable pub notify_bbu_link : Bool → State W → State W
  notify_bbu_link up s =
      let need_off = s.tx_on in
      if up
      then record s { bbu_link_ok = true }
      else if need_off
      then apply_tx_control false (record s { bbu_link_ok = false })
      else record s { bbu_link_ok = false }

unfoldable pub next : Option ℕ → Option ℕ
next none = none
next (some i) = some (suc i)

-- The loops over a table that stop at the first entry with a property.
unfoldable pub find_first : {A : Type 0} → (A → Bool) → List A → Option ℕ
unfolding next
find_first p [] = none
find_first p (x ∷ xs) = let rest = next (find_first p xs) in if p x then some 0 else rest

abbrev pub is_cell : ℕ → CellInfo → Bool
is_cell id c = c.active && c.local_cell_id == id

abbrev pub is_free_cell : CellInfo → Bool
is_free_cell c = not c.active

abbrev pub is_beam : ℕ → FreqInfo → Bool
is_beam id f = f.active && f.beam_id == id

abbrev pub is_free_freq : FreqInfo → Bool
is_free_freq f = not f.active
