-- ===== src/Cell/Carried.antt =====
-- What every single action of a request carries on, the whole request carries on.
use dpb_s_mgmt.Base.{
  ℕ, zero, suc, Option, none, some, List, length, not, ◌==◌, ◌&&◌, Bool-cases, Option-cases, inl,
  inr, Result,
}
use dpb_s_mgmt.Cell.{
  Manager, Antenna, State, row_of, update_tx_control, find_first, is_cell, is_beam,
}
use dpb_s_mgmt.Cell.Apply.{
  CellConfig, FreqConfig, delete_cell, delete_found, apply_cell, wait_change, wait_back,
  wait_rounds, after_change, wait_cycle, save_freq, mark_sent, is_sent_with,
}
use dpb_s_mgmt.Cell.Frequency.{
  is_good_mode, save_locally, find_again, accept, confirm, send_and_confirm, establish_checked,
  establish_freq, delete_at, delete_freq, apply_freq,
}
use dpb_s_mgmt.Cell.Request.{
  parse_cell_ie, parse_freq_ie, first_ie, answer_ie, answer_ies, create_response,
  ie_type_cell_config, ie_type_freq_config,
}
use dpb_s_mgmt.Cell.Jobs.{Job, run_job}
use dpb_s_mgmt.Cell.Upkeep.{Result-cases}

-- A predicate that the tables, a command for the band, a look at the mode, the control of the transmitter
-- and other threads carry on.
pub record Carries {W : Type 0} (antenna : Antenna W) (other meanwhile : State W → State W)
    (P : State W → Type 0) : Type 0 where
  pub tables : (s : State W) (m : Manager) → P s → P (record s { manager = m })
  pub band :
      (s : State W) (dl ul bw : ℕ)
      → P s
      → P (record s { antenna = (antenna.send_freq_band dl ul bw s.antenna).1 })
  pub mode : (s : State W) → P s → P (record s { antenna = (antenna.get_mode s.antenna).1 })
  pub update : (s : State W) → P s → P (update_tx_control antenna meanwhile s)
  pub others : (s : State W) → P s → P (other s)

module _ {W : Type 0} (antenna : Antenna W) (other meanwhile : State W → State W)
    (P : State W → Type 0) (c : Carries antenna other meanwhile P) where
  wait_change-carries :
      (initial n : ℕ) (s : State W)
      → P s
      → P (record s { antenna = (wait_change antenna initial n s.antenna).1 })
  unfolding wait_change
  wait_change-carries initial zero s v = v
  wait_change-carries initial (suc n) s v =
      let (now, w) = antenna.get_mode s.antenna in
      let s' = record s { antenna = w } in
      let v' = c.mode s v in
      let rest = wait_change-carries initial n s' v' in
      elim (Option-cases now) [
        | inl unknown ↦ rw (wait_change, unknown) rest
        | inr (current, known) ↦ elim (Bool-cases (current == initial)) [
          | inl same ↦ rw (wait_change, known, same) rest
          | inr other_ ↦ rw (wait_change, known, other_) v'
        ]
      ]

  wait_back-carries :
      (initial n : ℕ) (s : State W)
      → P s
      → P (record s { antenna = (wait_back antenna initial n s.antenna).1 })
  unfolding wait_back
  wait_back-carries initial zero s v = v
  wait_back-carries initial (suc n) s v =
      let (now, w) = antenna.get_mode s.antenna in
      let s' = record s { antenna = w } in
      let v' = c.mode s v in
      let rest = wait_back-carries initial n s' v' in
      elim (Option-cases now) [
        | inl unknown ↦ rw (wait_back, unknown) rest
        | inr (current, known) ↦ elim (Bool-cases (current == initial)) [
          | inl same ↦ rw (wait_back, known, same) v'
          | inr other_ ↦ rw (wait_back, known, other_) rest
        ]
      ]

  after_change-carries :
      (initial : ℕ) (left : Option ℕ) (s : State W)
      → P s
      → P (record s { antenna = (after_change antenna initial (left, s.antenna)).1 })
  unfolding after_change
  after_change-carries initial none s v = v
  after_change-carries initial (some left) s v =
      elim (Bool-cases (wait_back antenna initial left s.antenna).0) [
        | inl back ↦ rw (after_change, back) (wait_back-carries initial left s v)
        | inr gone ↦ rw (after_change, gone) (wait_back-carries initial left s v)
      ]

  wait_cycle-carries :
      (s : State W) → P s → P (record s { antenna = (wait_cycle antenna s.antenna).1 })
  unfolding wait_cycle
  wait_cycle-carries s v =
      let (now, w) = antenna.get_mode s.antenna in
      let s' = record s { antenna = w } in
      let v' = c.mode s v in
      elim (Option-cases now) [
        | inl unknown ↦ rw (wait_cycle, unknown) v'
        | inr (initial, known) ↦ elim (Bool-cases (not (initial == 0) && not (initial == 1))) [
          | inl skipped ↦ rw (wait_cycle, known, skipped) v'
          | inr watched ↦
              let (left, w'') = wait_change antenna initial wait_rounds w in
              rw (wait_cycle, known, watched)
                (after_change-carries initial left (record s { antenna = w'' })
                  (wait_change-carries initial wait_rounds s' v'))
        ]
      ]

  apply_cell-carries :
      (cfg : CellConfig) (s : State W) → P s → P (apply_cell antenna meanwhile cfg s).1
  unfolding apply_cell delete_found
  apply_cell-carries cfg s v = elim (Bool-cases (cfg.cell_cfg_flag == 0)) [
    | inl first ↦ rw (apply_cell, first) (c.tables s _ v)
    | inr not_first ↦ elim (Bool-cases (cfg.cell_cfg_flag == 1)) [
      | inl second ↦ rw (apply_cell, not_first, second) (c.tables s _ v)
      | inr not_second ↦ elim (Bool-cases (cfg.cell_cfg_flag == 2)) [
        | inr unknown ↦ rw (apply_cell, not_first, not_second, unknown) v
        | inl third ↦ elim (Option-cases (find_first (is_cell cfg.local_cell_id) s.manager.cells)) [
          | inl unknown ↦ rw (apply_cell, not_first, not_second, third, delete_found, unknown) v
          | inr (i, known) ↦
              rw (apply_cell, not_first, not_second, third, delete_found, known)
                (c.update _ (c.tables s (delete_cell i s.manager) v))
        ]
      ]
    ]
  ]

  accept-carries : (i j : ℕ) (s : State W) → P s → P (accept antenna other meanwhile i j s).state
  unfolding accept
  accept-carries i j s v = c.update _ (c.tables s (mark_sent i j s.manager) v)

  confirm-carries :
      (cfg : FreqConfig) (cycle : Result (Unit {0})) (s : State W)
      → P s
      → P (confirm antenna other meanwhile cfg cycle s).state
  unfolding confirm
  confirm-carries cfg cycle s v = elim (Option-cases (find_again cfg s.manager)) [
    | inl gone ↦ rw (confirm, gone) v
    | inr ((i, j), found) ↦ elim (Result-cases cycle) [
      | inl (u, fine) ↦ rw (confirm, found, fine) (accept-carries i j s v)
      | inr (e, late) ↦ rw (confirm, found, late) v
    ]
  ]

  send_and_confirm-carries :
      (cfg : FreqConfig) (s : State W)
      → P s
      → P (send_and_confirm antenna other meanwhile cfg s).state
  unfolding send_and_confirm
  send_and_confirm-carries cfg s v =
      let (sent, w) =
        antenna.send_freq_band cfg.dl_center_freq cfg.ul_center_freq cfg.beam_bandwidth s.antenna in
      let v' = c.band s cfg.dl_center_freq cfg.ul_center_freq cfg.beam_bandwidth v in
      let (cycle, w') = wait_cycle antenna w in
      elim (Bool-cases sent) [
        | inr lost ↦ rw (send_and_confirm, lost) v'
        | inl fine ↦
            rw (send_and_confirm, fine)
              (confirm-carries cfg cycle (other (record s { antenna = w' })) (
                c.others (record s { antenna = w' })
                  (wait_cycle-carries (record s { antenna = w }) v')))
      ]

  establish_checked-carries :
      (i : ℕ) (cfg : FreqConfig) (s : State W)
      → P s
      → P (establish_checked antenna other meanwhile i cfg s).state
  unfolding establish_checked
  establish_checked-carries i cfg s v = elim (Option-cases (save_freq i cfg s.manager)) [
    | inl full ↦ rw (establish_checked, full) v
    | inr ((j, m), saved) ↦
        let v' = c.tables s m v in
        elim (Option-cases (find_first (is_sent_with cfg) (row_of s.manager i))) [
          | inr (k, known) ↦
              rw (establish_checked, saved, known)
                (accept-carries i j (record s { manager = m }) v')
          | inl new ↦
              rw (establish_checked, saved, new)
                (send_and_confirm-carries cfg (record s { manager = m }) v')
        ]
  ]

  save_locally-carries : (i : ℕ) (cfg : FreqConfig) (s : State W) → P s → P (save_locally i cfg s)
  unfolding save_locally
  save_locally-carries i cfg s v = elim (Option-cases (save_freq i cfg s.manager)) [
    | inl full ↦ rw (save_locally, full) v
    | inr ((j, m), saved) ↦ rw (save_locally, saved) (c.tables s m v)
  ]

  establish_freq-carries :
      (i : ℕ) (cfg : FreqConfig) (s : State W)
      → P s
      → P (establish_freq antenna other meanwhile i cfg s).state
  unfolding establish_freq
  establish_freq-carries i cfg s v =
      let (now, w) = antenna.get_mode s.antenna in
      let v' = c.mode s v in
      elim (Bool-cases (is_good_mode now)) [
        | inl good ↦
            rw (establish_freq, good)
              (establish_checked-carries i cfg (record s { antenna = w }) v')
        | inr bad ↦
            rw (establish_freq, bad) (save_locally-carries i cfg (record s { antenna = w }) v')
      ]

  delete_freq-carries :
      (i : ℕ) (cfg : FreqConfig) (s : State W)
      → P s
      → P (delete_freq antenna other meanwhile i cfg s).state
  unfolding delete_freq
  delete_freq-carries i cfg s v =
      elim (Option-cases (find_first (is_beam cfg.beam_id) (row_of s.manager i))) [
        | inl unknown ↦ rw (delete_freq, unknown) v
        | inr (j, known) ↦
            rw (delete_freq, known) (c.update _ (c.tables s (delete_at i j s.manager) v))
      ]

  apply_freq-carries :
      (cfg : FreqConfig) (s : State W) → P s → P (apply_freq antenna other meanwhile cfg s).state
  unfolding apply_freq
  apply_freq-carries cfg s v =
      elim (Option-cases (find_first (is_cell cfg.local_cell_id) s.manager.cells)) [
        | inl unknown ↦ rw (apply_freq, unknown) v
        | inr (i, known) ↦ elim (Bool-cases (cfg.freq_cfg_flag == 0)) [
          | inl first ↦ rw (apply_freq, known, first) (establish_freq-carries i cfg s v)
          | inr not_first ↦ elim (Bool-cases (cfg.freq_cfg_flag == 1)) [
            | inl second ↦ rw (apply_freq, known, not_first, second) (delete_freq-carries i cfg s v)
            | inr neither ↦ rw (apply_freq, known, not_first, neither) v
          ]
        ]
      ]

  answer_ie-carries :
      (ie_type : ℕ) (data_ : List ℕ) (s : State W) (payload : Option (List ℕ))
      → P s
      → P (answer_ie antenna other meanwhile ie_type data_ s payload).0
  unfolding answer_ie
  answer_ie-carries ie_type data_ s payload v = elim (Bool-cases (ie_type == ie_type_cell_config)) [
    | inl cell ↦ elim (Result-cases (parse_cell_ie data_)) [
      | inl (cfg, e) ↦ rw (answer_ie, cell, e) (apply_cell-carries cfg s v)
      | inr (code, e) ↦ rw (answer_ie, cell, e) v
    ]
    | inr not_cell ↦ elim (Bool-cases (ie_type == ie_type_freq_config)) [
      | inl freq ↦ elim (Result-cases (parse_freq_ie data_)) [
        | inl (cfg, e) ↦ rw (answer_ie, not_cell, freq, e) (apply_freq-carries cfg s v)
        | inr (code, e) ↦ rw (answer_ie, not_cell, freq, e) v
      ]
      | inr other_ ↦ rw (answer_ie, not_cell, other_) v
    ]
  ]

  answer_ies-carries :
      (n : ℕ) (p : List ℕ) (s : State W) (payload : Option (List ℕ))
      → P s
      → P (answer_ies antenna other meanwhile n p s payload).0
  unfolding answer_ies
  answer_ies-carries zero p s payload v = v
  answer_ies-carries (suc n) p s payload v = elim (Option-cases (first_ie p)) [
    | inl last ↦ rw (answer_ies, last) v
    | inr ((ie_type, data_, rest), e) ↦
        rw (answer_ies, e)
          (answer_ies-carries n rest _ _ (answer_ie-carries ie_type data_ s payload v))
  ]

  pub run_job-carries : (j : Job) (s : State W) → P s → P (run_job antenna other meanwhile j s).0
  unfolding run_job create_response
  run_job-carries j s v = answer_ies-carries (length j.payload) j.payload s none v
