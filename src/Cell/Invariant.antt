-- ===== src/Cell/Invariant.antt =====
-- Requests keep the tables consistent, whatever other threads do that keep them so.
use dpb_s_mgmt.Base.{
  ℕ, zero, suc, ◌<◌, ◌≡◌, refl, true, Option, none, List, length, get_or, ◌==◌, arith, Bool-cases,
  Option-cases, inl, inr, Result,
}
use dpb_s_mgmt.Cell.{Antenna, State, no_freq, row_of, cell_of, find_first, is_cell, is_beam}
use dpb_s_mgmt.Cell.Apply.{FreqConfig, wait_cycle, save_freq, mark_sent, is_sent_with, is_beam_with}
use dpb_s_mgmt.Cell.Frequency.{
  is_good_mode, save_locally, find_again, accept, confirm, send_and_confirm, establish_checked,
  establish_freq, delete_at, delete_freq, apply_freq,
}
use dpb_s_mgmt.Cell.Request.{
  parse_cell_ie, parse_freq_ie, first_ie, answer_ie, answer_ies, create_response,
  ie_type_cell_config, ie_type_freq_config,
}
use dpb_s_mgmt.Cell.Jobs.{Job, run_job}
use dpb_s_mgmt.Cell.Consistent.{IsConsistent}
use dpb_s_mgmt.Cell.Keeps.{
  save_freq-IsConsistent, mark_sent-IsConsistent, delete_at-IsConsistent, found_in, save_freq-slot,
}
use dpb_s_mgmt.Cell.Upkeep.{
  Keeps, Result-cases, found_cell, update_tx_control-IsConsistent, apply_cell-IsConsistent,
}

module _ {W : Type 0} (antenna : Antenna W) where
  module _ (other meanwhile : State W → State W) (o : Keeps other) (d : Keeps meanwhile) where
    accept-IsConsistent :
        (i j : ℕ) (s : State W)
        → i < 16
        → j < 16
        → IsConsistent s.manager
        → (cell_of s.manager i).active ≡ true
        → (get_or (row_of s.manager i) j no_freq).active ≡ true
        → IsConsistent (accept antenna other meanwhile i j s).state.manager
    unfolding accept
    accept-IsConsistent i j s hi hj v on used =
        update_tx_control-IsConsistent antenna other meanwhile o d
          (record s { manager = mark_sent i j s.manager })
          (mark_sent-IsConsistent i j s.manager hi hj v on used)

    confirm-IsConsistent :
        (cfg : FreqConfig) (cycle : Result (Unit {0})) (s : State W)
        → IsConsistent s.manager
        → IsConsistent (confirm antenna other meanwhile cfg cycle s).state.manager
    unfolding confirm find_again
    confirm-IsConsistent cfg cycle s v =
        elim (Option-cases (find_first (is_cell cfg.local_cell_id) s.manager.cells)) [
          | inl gone ↦ rw (confirm, find_again, gone) v
          | inr (i, cell) ↦
              elim (Option-cases (find_first (is_beam_with cfg) (row_of s.manager i))) [
                | inl gone ↦ rw (confirm, find_again, cell, gone) v
                | inr (j, entry) ↦ elim (Result-cases cycle) [
                  | inr (e, late) ↦ rw (confirm, find_again, cell, entry, late) v
                  | inl (u, done) ↦
                      let (hi, on, id) = found_cell cfg.local_cell_id i s.manager v cell in
                      let (hj, holds) = found_in (is_beam_with cfg) i j s.manager hi v entry in
                      rw (confirm, find_again, cell, entry, done)
                        (accept-IsConsistent i j s hi hj v on (ground arith))
                ]
              ]
        ]

    send_and_confirm-IsConsistent :
        (cfg : FreqConfig) (s : State W)
        → IsConsistent s.manager
        → IsConsistent (send_and_confirm antenna other meanwhile cfg s).state.manager
    unfolding send_and_confirm
    send_and_confirm-IsConsistent cfg s v =
        let (sent, w) =
          antenna.send_freq_band cfg.dl_center_freq cfg.ul_center_freq cfg.beam_bandwidth
            s.antenna in
        let (cycle, w') = wait_cycle antenna w in
        elim (Bool-cases sent) [
          | inr lost ↦ rw (send_and_confirm, lost) v
          | inl fine ↦
              rw (send_and_confirm, fine)
                (confirm-IsConsistent cfg cycle (other (record s { antenna = w' }))
                  (o (record s { antenna = w' }) v))
        ]

    establish_checked-IsConsistent :
        (i : ℕ) (cfg : FreqConfig) (s : State W)
        → i < 16
        → IsConsistent s.manager
        → (cell_of s.manager i).active ≡ true
        → IsConsistent (establish_checked antenna other meanwhile i cfg s).state.manager
    unfolding establish_checked
    establish_checked-IsConsistent i cfg s hi v on =
        elim (Option-cases (save_freq i cfg s.manager)) [
          | inl full ↦ rw (establish_checked, full) v
          | inr ((j, m), saved) ↦
              let v' = save_freq-IsConsistent i cfg s.manager {j = j} {m' = m} hi v on saved in
              elim (Option-cases (find_first (is_sent_with cfg) (row_of s.manager i))) [
                | inl new ↦
                    rw (establish_checked, saved, new)
                      (send_and_confirm-IsConsistent cfg (record s { manager = m }) v')
                | inr (k, known) ↦
                    let (hj, on1, id1, stored) =
                      save_freq-slot i cfg s.manager {j = j} {m' = m} hi v on saved in
                    rw (establish_checked, saved, known)
                      (accept-IsConsistent i j (record s { manager = m }) hi hj v' on1
                        (rw stored refl))
              ]
        ]

    save_locally-IsConsistent :
        (i : ℕ) (cfg : FreqConfig) (s : State W)
        → i < 16
        → IsConsistent s.manager
        → (cell_of s.manager i).active ≡ true
        → IsConsistent (save_locally i cfg s).manager
    unfolding save_locally
    save_locally-IsConsistent i cfg s hi v on = elim (Option-cases (save_freq i cfg s.manager)) [
      | inl full ↦ rw (save_locally, full) v
      | inr ((j, m), saved) ↦
          rw (save_locally, saved)
            (save_freq-IsConsistent i cfg s.manager {j = j} {m' = m} hi v on saved)
    ]

    establish_freq-IsConsistent :
        (i : ℕ) (cfg : FreqConfig) (s : State W)
        → i < 16
        → IsConsistent s.manager
        → (cell_of s.manager i).active ≡ true
        → IsConsistent (establish_freq antenna other meanwhile i cfg s).state.manager
    unfolding establish_freq
    establish_freq-IsConsistent i cfg s hi v on =
        let (mode, w) = antenna.get_mode s.antenna in
        elim (Bool-cases (is_good_mode mode)) [
          | inl good ↦
              rw (establish_freq, good)
                (establish_checked-IsConsistent i cfg (record s { antenna = w }) hi v on)
          | inr bad ↦
              rw (establish_freq, bad)
                (save_locally-IsConsistent i cfg (record s { antenna = w }) hi v on)
        ]

    delete_freq-IsConsistent :
        (i : ℕ) (cfg : FreqConfig) (s : State W)
        → i < 16
        → IsConsistent s.manager
        → (cell_of s.manager i).active ≡ true
        → IsConsistent (delete_freq antenna other meanwhile i cfg s).state.manager
    unfolding delete_freq
    delete_freq-IsConsistent i cfg s hi v on =
        elim (Option-cases (find_first (is_beam cfg.beam_id) (row_of s.manager i))) [
          | inl unknown ↦ rw (delete_freq, unknown) v
          | inr (j, known) ↦
              let (hj, holds) = found_in (is_beam cfg.beam_id) i j s.manager hi v known in
              rw (delete_freq, known)
                (update_tx_control-IsConsistent antenna other meanwhile o d
                  (record s { manager = delete_at i j s.manager })
                  (delete_at-IsConsistent i j s.manager hi hj v on (ground arith)))
        ]

    pub apply_freq-IsConsistent :
        (cfg : FreqConfig) (s : State W)
        → IsConsistent s.manager
        → IsConsistent (apply_freq antenna other meanwhile cfg s).state.manager
    unfolding apply_freq
    apply_freq-IsConsistent cfg s v =
        elim (Option-cases (find_first (is_cell cfg.local_cell_id) s.manager.cells)) [
          | inl unknown ↦ rw (apply_freq, unknown) v
          | inr (i, known) ↦
              let (hi, on, id) = found_cell cfg.local_cell_id i s.manager v known in
              elim (Bool-cases (cfg.freq_cfg_flag == 0)) [
                | inl first ↦
                    rw (apply_freq, known, first) (establish_freq-IsConsistent i cfg s hi v on)
                | inr not_first ↦ elim (Bool-cases (cfg.freq_cfg_flag == 1)) [
                  | inl second ↦
                      rw (apply_freq, known, not_first, second)
                        (delete_freq-IsConsistent i cfg s hi v on)
                  | inr neither ↦ rw (apply_freq, known, not_first, neither) v
                ]
              ]
        ]

    answer_ie-IsConsistent :
        (ie_type : ℕ) (data_ : List ℕ) (s : State W) (payload : Option (List ℕ))
        → IsConsistent s.manager
        → IsConsistent (answer_ie antenna other meanwhile ie_type data_ s payload).0.manager
    unfolding answer_ie
    answer_ie-IsConsistent ie_type data_ s payload v =
        elim (Bool-cases (ie_type == ie_type_cell_config)) [
          | inl cell ↦ elim (Result-cases (parse_cell_ie data_)) [
            | inl (cfg, e) ↦
                rw (answer_ie, cell, e)
                  (apply_cell-IsConsistent antenna other meanwhile o d cfg s v)
            | inr (code, e) ↦ rw (answer_ie, cell, e) v
          ]
          | inr not_cell ↦ elim (Bool-cases (ie_type == ie_type_freq_config)) [
            | inl freq ↦ elim (Result-cases (parse_freq_ie data_)) [
              | inl (cfg, e) ↦ rw (answer_ie, not_cell, freq, e) (apply_freq-IsConsistent cfg s v)
              | inr (code, e) ↦ rw (answer_ie, not_cell, freq, e) v
            ]
            | inr other_ ↦ rw (answer_ie, not_cell, other_) v
          ]
        ]

    answer_ies-IsConsistent :
        (n : ℕ) (p : List ℕ) (s : State W) (payload : Option (List ℕ))
        → IsConsistent s.manager
        → IsConsistent (answer_ies antenna other meanwhile n p s payload).0.manager
    unfolding answer_ies
    answer_ies-IsConsistent zero p s payload v = v
    answer_ies-IsConsistent (suc n) p s payload v = elim (Option-cases (first_ie p)) [
      | inl last ↦ rw (answer_ies, last) v
      | inr ((ie_type, data_, rest), e) ↦
          rw (answer_ies, e)
            (answer_ies-IsConsistent n rest _ _ (answer_ie-IsConsistent ie_type data_ s payload v))
    ]

    -- Carrying out a request keeps the tables consistent: every counter of frequencies is the number of
    -- its cell's frequencies in use, slots without a cell have none, and no two cells have one
    -- identifier; for every antenna, and whatever other threads do that keeps the tables consistent.
    pub run_job-IsConsistent :
        (j : Job) (s : State W)
        → IsConsistent s.manager
        → IsConsistent (run_job antenna other meanwhile j s).0.manager
    unfolding run_job create_response
    run_job-IsConsistent j s v = answer_ies-IsConsistent (length j.payload) j.payload s none v
