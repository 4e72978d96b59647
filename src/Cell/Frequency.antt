-- ===== src/Cell/Frequency.antt =====
-- `cell_config_apply_freq`. The tables are unlocked while the antenna's mode is watched: what other
-- threads do then is the argument `other`; what they do between a look at the link and a command to the
-- transmitter is `meanwhile`.
use dpb_s_mgmt.Base.{
  ℕ, Bool, false, Option, none, some, ◌==◌, if◌then◌else◌, not, ◌||◌, get_or, general, Result, ok,
  err,
}
use dpb_s_mgmt.Cell.{
  result_success, result_failure, Manager, Antenna, State, no_freq, row_of, update_tx_control,
  find_first, is_cell, is_beam,
}
use dpb_s_mgmt.Cell.Apply.{
  FreqConfig, set_freq, forget, is_sent_with, is_beam_with, save_freq, count_down, mark_sent,
  wait_cycle,
}

-- `PHASED_ARRAY_MODE_BUSINESS` or `PHASED_ARRAY_MODE_SPECTRUM`, where the status is known.
abbrev pub is_good_mode : Option ℕ → Bool
is_good_mode none = false
is_good_mode (some mode) = mode == 0 || mode == 1

-- What `cell_config_apply_freq` returns, and `*result`.
pub record Answer (W : Type 0) : Type 0 where
  pub returned : Result (Unit {0})
  pub result : ℕ
  pub state : State W

module _ {W : Type 0} where
  abbrev pub failed : Result (Unit {0}) → State W → Answer W
  failed r s = record { returned = r; result = result_failure; state = s }

  abbrev pub succeeded : State W → Answer W
  succeeded s = record { returned = ok tt; result = result_success; state = s }

  -- An entry that is kept although nothing is sent.
  unfoldable pub save_locally : ℕ → FreqConfig → State W → State W
  save_locally i cfg s = elim (save_freq i cfg s.manager) [
    | none ↦ s
    | some (j, m) ↦ record s { manager = m }
  ]

-- The entry that the locked part behind the wait looks for again.
unfoldable pub find_again : FreqConfig → Manager → Option (ℕ × ℕ)
find_again cfg m = elim (find_first (is_cell cfg.local_cell_id) m.cells) [
  | none ↦ none
  | some i ↦ elim (find_first (is_beam_with cfg) (row_of m i)) [
    | none ↦ none
    | some j ↦ some (i, j)
  ]
]

-- The tables without a frequency.
abbrev pub delete_at : ℕ → ℕ → Manager → Manager
delete_at i j m = count_down i (set_freq i j (forget (get_or (row_of m i) j no_freq)) m)

module _ {W : Type 0} (antenna : Antenna W) (other meanwhile : State W → State W) where
  -- An entry whose parameters the antenna has.
  unfoldable pub accept : ℕ → ℕ → State W → Answer W
  accept i j s =
      succeeded
        (update_tx_control antenna meanwhile (record s { manager = mark_sent i j s.manager }))

  -- The part behind the wait.
  unfoldable pub confirm : FreqConfig → Result (Unit {0}) → State W → Answer W
  confirm cfg cycle s = elim (find_again cfg s.manager) [
    | none ↦ failed (ok tt) s
    | some (i, j) ↦ elim cycle [ ok u ↦ accept i j s | err e ↦ failed (ok tt) s ]
  ]

  -- Step 5 with a command to the antenna.
  unfoldable pub send_and_confirm : FreqConfig → State W → Answer W
  send_and_confirm cfg s =
      let (sent, w) =
        antenna.send_freq_band cfg.dl_center_freq cfg.ul_center_freq cfg.beam_bandwidth s.antenna in
      let (cycle, w') = wait_cycle antenna w in
      if not sent
      then failed (ok tt) (record s { antenna = w })
      else confirm cfg cycle (other (record s { antenna = w' }))

  -- Steps 2 to 5 of `FREQ_CFG_ESTABLISH`.
  unfoldable pub establish_checked : ℕ → FreqConfig → State W → Answer W
  establish_checked i cfg s = elim (save_freq i cfg s.manager) [
    | none ↦ failed (err general) s
    | some (j, m) ↦ elim (find_first (is_sent_with cfg) (row_of s.manager i)) [
      | some k ↦ accept i j (record s { manager = m })
      | none ↦ send_and_confirm cfg (record s { manager = m })
    ]
  ]

  unfoldable pub establish_freq : ℕ → FreqConfig → State W → Answer W
  establish_freq i cfg s =
      let (mode, w) = antenna.get_mode s.antenna in
      if is_good_mode mode
      then establish_checked i cfg (record s { antenna = w })
      else failed (ok tt) (save_locally i cfg (record s { antenna = w }))

  unfoldable pub delete_freq : ℕ → FreqConfig → State W → Answer W
  delete_freq i cfg s = elim (find_first (is_beam cfg.beam_id) (row_of s.manager i)) [
    | none ↦ succeeded s
    | some j ↦
        succeeded
          (update_tx_control antenna meanwhile (record s { manager = delete_at i j s.manager }))
  ]

  -- `cell_config_apply_freq`
  unfoldable pub apply_freq : FreqConfig → State W → Answer W
  apply_freq cfg s = elim (find_first (is_cell cfg.local_cell_id) s.manager.cells) [
    | none ↦ failed (err general) s
    | some i ↦
        if cfg.freq_cfg_flag == 0
        then establish_freq i cfg s
        else if cfg.freq_cfg_flag == 1
        then delete_freq i cfg s
        else failed (ok tt) s
  ]
