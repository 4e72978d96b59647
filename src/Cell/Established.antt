-- ===== src/Cell/Established.antt =====
-- What a success that is answered to a frequency's configuration says.
use dpb_s_mgmt.Base.{
  ℕ, ◌<◌, ◌≡◌, refl, ap, ◌∙◌, true, false, some, ◌⊎◌, get_or, ◌==◌, ==_iff, arith, Bool-cases,
  Option-cases, inl, inr, Result, ok,
}
use dpb_s_mgmt.Cell.{
  Manager, Antenna, State, no_freq, row_of, cell_of, has_any_freq, update_tx_control, find_first,
  is_cell, result_success,
}
use dpb_s_mgmt.Cell.Apply.{
  FreqConfig, wait_cycle, save_freq, mark_sent, is_sent_with, is_beam_with, store_freq_info,
  has_params,
}
use dpb_s_mgmt.Cell.Frequency.{
  is_good_mode, find_again, accept, confirm, send_and_confirm, establish_checked, establish_freq,
  apply_freq,
}
use dpb_s_mgmt.Cell.Consistent.{IsConsistent}
use dpb_s_mgmt.Cell.Keeps.{found_in, save_freq-slot, save_freq-IsConsistent, entry_at}
use dpb_s_mgmt.Cell.Upkeep.{
  Keeps, found_cell, apply_tx_control-manager, update_tx_control-up, Result-cases,
}

-- The frequency is in its cell's row, under its beam and with its parameters, and counts as sent.
pub record IsEstablished (cfg : FreqConfig) (m : Manager) : Type 0 where
  pub cell : ℕ
  pub slot : ℕ
  pub cell_active : (cell_of m cell).active ≡ true
  pub cell_id : (cell_of m cell).local_cell_id ≡ cfg.local_cell_id
  pub active : (get_or (row_of m cell) slot no_freq).active ≡ true
  pub sent : (get_or (row_of m cell) slot no_freq).sent_to_antenna ≡ true
  pub beam : (get_or (row_of m cell) slot no_freq).beam_id ≡ cfg.beam_id
  pub params : has_params cfg (get_or (row_of m cell) slot no_freq) ≡ true

-- An entry with the configuration's beam and parameters is marked.
mark_sent-IsEstablished :
    (i j : ℕ) (cfg : FreqConfig) (m : Manager)
    → i < 16
    → j < 16
    → IsConsistent m
    → (cell_of m i).active ≡ true
    → (cell_of m i).local_cell_id ≡ cfg.local_cell_id
    → is_beam_with cfg (get_or (row_of m i) j no_freq) ≡ true
    → IsEstablished cfg (mark_sent i j m)
mark_sent-IsEstablished i j cfg m hi hj v on id holds =
    let f = get_or (row_of m i) j no_freq in
    let there = entry_at i j (record f { sent_to_antenna = true }) m hi hj v in
    record {
      cell = i;
      slot = j;
      cell_active = on;
      cell_id = id;
      active = rw there (ground arith);
      sent = rw there refl;
      beam = rw there (ground arith);
      params = rw there (ground arith);
    }

-- What has just been saved has the configuration's beam and parameters.
stored_beam : (cfg : FreqConfig) → is_beam_with cfg (store_freq_info cfg false) ≡ true
stored_beam cfg =
    let beam = (==_iff cfg.beam_id cfg.beam_id).1 refl in
    let dl = (==_iff cfg.dl_center_freq cfg.dl_center_freq).1 refl in
    let ul = (==_iff cfg.ul_center_freq cfg.ul_center_freq).1 refl in
    let bw = (==_iff cfg.beam_bandwidth cfg.beam_bandwidth).1 refl in rw (beam, dl, ul, bw) refl

-- An entry with the configuration's parameters has been sent before, in the row `i`.
abbrev pub IsKnown : ℕ → FreqConfig → Manager → Type 0
IsKnown i cfg m = (k : ℕ) × (find_first (is_sent_with cfg) (row_of m i) ≡ some k)

-- The antenna takes the command for the band, and the wait for its mode behind that does not fail.
abbrev pub IsAcknowledged : {W : Type 0} → Antenna W → FreqConfig → W → Type 0
IsAcknowledged antenna cfg w =
    let (sent, w') =
      antenna.send_freq_band cfg.dl_center_freq cfg.ul_center_freq cfg.beam_bandwidth w in
    (sent ≡ true) × ((wait_cycle antenna w').0 ≡ ok tt)

-- What success says of the antenna before it.
abbrev pub WasCommanded : {W : Type 0} → Antenna W → FreqConfig → State W → Type 0
WasCommanded antenna cfg s =
    let (mode, w) = antenna.get_mode s.antenna in
    (i : ℕ) × (find_first (is_cell cfg.local_cell_id) s.manager.cells ≡ some i)
    × (is_good_mode mode ≡ true)
    × (IsKnown i cfg s.manager ⊎ IsAcknowledged antenna cfg w)

module _ {W : Type 0} (antenna : Antenna W) (other meanwhile : State W → State W) (o : Keeps other)
    (same : (s : State W) → (meanwhile s).manager ≡ s.manager) where
  -- The control of the transmitter leaves the tables as they are.
  update_tx_control-manager :
      (s : State W) → (update_tx_control antenna meanwhile s).manager ≡ s.manager
  unfolding update_tx_control
  update_tx_control-manager s = elim (Bool-cases s.bbu_link_ok) [
    | inr down ↦ rw (update_tx_control, down) refl
    | inl up ↦
        ap (λ (t : State W). t.manager) (update_tx_control-up antenna meanwhile s up)
        ∙ apply_tx_control-manager antenna (has_any_freq s.manager) (meanwhile s)
        ∙ same s
  ]

  accept-IsEstablished :
      (i j : ℕ) (cfg : FreqConfig) (s : State W)
      → IsEstablished cfg (mark_sent i j s.manager)
      → IsEstablished cfg (accept antenna other meanwhile i j s).state.manager
  unfolding accept
  accept-IsEstablished i j cfg s v =
      rw (update_tx_control-manager (record s { manager = mark_sent i j s.manager })) v

  confirm-IsEstablished :
      (cfg : FreqConfig) (cycle : Result (Unit {0})) (s : State W)
      → IsConsistent s.manager
      → (confirm antenna other meanwhile cfg cycle s).result ≡ result_success
      → IsEstablished cfg (confirm antenna other meanwhile cfg cycle s).state.manager
  unfolding confirm find_again accept
  confirm-IsEstablished cfg cycle s v =
      elim (Option-cases (find_first (is_cell cfg.local_cell_id) s.manager.cells)) [
        | inl gone ↦ rw (confirm, find_again, gone) (λ e. absurd (omega arith))
        | inr (i, cell) ↦ elim (Option-cases (find_first (is_beam_with cfg) (row_of s.manager i))) [
          | inl gone ↦ rw (confirm, find_again, cell, gone) (λ e. absurd (omega arith))
          | inr (j, entry) ↦ elim (Result-cases cycle) [
            | inr (code, late) ↦
                rw (confirm, find_again, cell, entry, late) (λ e. absurd (omega arith))
            | inl (u, done) ↦
                let (hi, on, id) = found_cell cfg.local_cell_id i s.manager v cell in
                let (hj, holds) = found_in (is_beam_with cfg) i j s.manager hi v entry in
                rw (confirm, find_again, cell, entry, done)
                  (λ e.
                    accept-IsEstablished i j cfg s
                      (mark_sent-IsEstablished i j cfg s.manager hi hj v on id holds))
          ]
        ]
      ]

  send_and_confirm-IsEstablished :
      (cfg : FreqConfig) (s : State W)
      → IsConsistent s.manager
      → (send_and_confirm antenna other meanwhile cfg s).result ≡ result_success
      → IsEstablished cfg (send_and_confirm antenna other meanwhile cfg s).state.manager
  unfolding send_and_confirm
  send_and_confirm-IsEstablished cfg s v =
      let (sent, w) =
        antenna.send_freq_band cfg.dl_center_freq cfg.ul_center_freq cfg.beam_bandwidth s.antenna in
      let (cycle, w') = wait_cycle antenna w in
      elim (Bool-cases sent) [
        | inr lost ↦ rw (send_and_confirm, lost) (λ e. absurd (omega arith))
        | inl fine ↦
            rw (send_and_confirm, fine)
              (confirm-IsEstablished cfg cycle (other (record s { antenna = w' }))
                (o (record s { antenna = w' }) v))
      ]

  establish_checked-IsEstablished :
      (i : ℕ) (cfg : FreqConfig) (s : State W)
      → i < 16
      → IsConsistent s.manager
      → (cell_of s.manager i).active ≡ true
      → (cell_of s.manager i).local_cell_id ≡ cfg.local_cell_id
      → (establish_checked antenna other meanwhile i cfg s).result ≡ result_success
      → IsEstablished cfg (establish_checked antenna other meanwhile i cfg s).state.manager
  unfolding establish_checked
  establish_checked-IsEstablished i cfg s hi v on id =
      elim (Option-cases (save_freq i cfg s.manager)) [
        | inl full ↦ rw (establish_checked, full) (λ e. absurd (omega arith))
        | inr ((j, m), saved) ↦
            let v' = save_freq-IsConsistent i cfg s.manager {j = j} {m' = m} hi v on saved in
            elim (Option-cases (find_first (is_sent_with cfg) (row_of s.manager i))) [
              | inl new ↦
                  rw (establish_checked, saved, new)
                    (send_and_confirm-IsEstablished cfg (record s { manager = m }) v')
              | inr (k, known) ↦
                  let (hj, on1, id1, stored) =
                    save_freq-slot i cfg s.manager {j = j} {m' = m} hi v on saved in
                  rw (establish_checked, saved, known)
                    (λ e.
                      accept-IsEstablished i j cfg (record s { manager = m })
                        (mark_sent-IsEstablished i j cfg m hi hj v' on1 (id1 ∙ id)
                          (rw stored (stored_beam cfg))))
            ]
      ]

  confirm-waited :
      (cfg : FreqConfig) (cycle : Result (Unit {0})) (s : State W)
      → (confirm antenna other meanwhile cfg cycle s).result ≡ result_success
      → cycle ≡ ok tt
  unfolding confirm
  confirm-waited cfg cycle s = elim (Result-cases cycle) [
    | inl (u, done) ↦ λ e. done
    | inr (code, late) ↦ elim (Option-cases (find_again cfg s.manager)) [
      | inl gone ↦ rw (confirm, gone) (λ e. absurd (omega arith))
      | inr ((i, j), entry) ↦ rw (confirm, entry, late) (λ e. absurd (omega arith))
    ]
  ]

  send_and_confirm-IsAcknowledged :
      (cfg : FreqConfig) (s : State W)
      → (send_and_confirm antenna other meanwhile cfg s).result ≡ result_success
      → IsAcknowledged antenna cfg s.antenna
  unfolding send_and_confirm
  send_and_confirm-IsAcknowledged cfg s =
      let (sent, w) =
        antenna.send_freq_band cfg.dl_center_freq cfg.ul_center_freq cfg.beam_bandwidth s.antenna in
      let (cycle, w') = wait_cycle antenna w in
      elim (Bool-cases sent) [
        | inr lost ↦ rw (send_and_confirm, lost) (λ e. absurd (omega arith))
        | inl fine ↦
            rw (send_and_confirm, fine)
              (λ e. (refl, confirm-waited cfg cycle (other (record s { antenna = w' })) e))
      ]

  establish_checked-IsAcknowledged :
      (i : ℕ) (cfg : FreqConfig) (s : State W)
      → (establish_checked antenna other meanwhile i cfg s).result ≡ result_success
      → IsKnown i cfg s.manager ⊎ IsAcknowledged antenna cfg s.antenna
  unfolding establish_checked
  establish_checked-IsAcknowledged i cfg s = elim (Option-cases (save_freq i cfg s.manager)) [
    | inl full ↦ rw (establish_checked, full) (λ e. absurd (omega arith))
    | inr ((j, m), saved) ↦
        elim (Option-cases (find_first (is_sent_with cfg) (row_of s.manager i))) [
          | inl new ↦
              rw (establish_checked, saved, new)
                (λ e. inr (send_and_confirm-IsAcknowledged cfg (record s { manager = m }) e))
          | inr (k, known) ↦ λ e. inl (k, known)
        ]
  ]

  apply_freq-kept :
      (cfg : FreqConfig) (s : State W)
      → IsConsistent s.manager
      → cfg.freq_cfg_flag ≡ 0
      → (apply_freq antenna other meanwhile cfg s).result ≡ result_success
      → IsEstablished cfg (apply_freq antenna other meanwhile cfg s).state.manager
  unfolding apply_freq establish_freq
  apply_freq-kept cfg s v flag =
      elim (Option-cases (find_first (is_cell cfg.local_cell_id) s.manager.cells)) [
        | inl unknown ↦ rw (apply_freq, unknown) (λ e. absurd (omega arith))
        | inr (i, known) ↦
            let (hi, on, id) = found_cell cfg.local_cell_id i s.manager v known in
            let (mode, w) = antenna.get_mode s.antenna in
            let first : (cfg.freq_cfg_flag == 0) ≡ true = (==_iff cfg.freq_cfg_flag 0).1 flag in
            elim (Bool-cases (is_good_mode mode)) [
              | inr bad ↦
                  rw (apply_freq, known, first, establish_freq, bad) (λ e. absurd (omega arith))
              | inl good ↦
                  rw (apply_freq, known, first, establish_freq, good)
                    (establish_checked-IsEstablished i cfg (record s { antenna = w }) hi v on id)
            ]
      ]

  apply_freq-acknowledged :
      (cfg : FreqConfig) (s : State W)
      → cfg.freq_cfg_flag ≡ 0
      → (apply_freq antenna other meanwhile cfg s).result ≡ result_success
      → WasCommanded antenna cfg s
  unfolding apply_freq establish_freq
  apply_freq-acknowledged cfg s flag =
      elim (Option-cases (find_first (is_cell cfg.local_cell_id) s.manager.cells)) [
        | inl unknown ↦ rw (apply_freq, unknown) (λ e. absurd (omega arith))
        | inr (i, known) ↦
            let (mode, w) = antenna.get_mode s.antenna in
            let first : (cfg.freq_cfg_flag == 0) ≡ true = (==_iff cfg.freq_cfg_flag 0).1 flag in
            elim (Bool-cases (is_good_mode mode)) [
              | inr bad ↦
                  rw (apply_freq, known, first, establish_freq, bad) (λ e. absurd (omega arith))
              | inl good ↦
                  rw (apply_freq, known, first, establish_freq, good)
                    (λ e. (
                      i,
                      refl,
                      refl,
                      establish_checked-IsAcknowledged i cfg (record s { antenna = w }) e,
                    ))
            ]
      ]

  -- A configuration that establishes a frequency is answered with success only where, at first, the
  -- antenna says that it is in business or spectrum mode, and either an entry of the cell with the same
  -- parameters has already been sent to it, or it takes the command for the band and the wait for its mode
  -- returns SUCCESS, as it also does when the mode has not changed. The frequency is then in the table,
  -- under its cell and beam and with its parameters, and counts as sent to the antenna: whatever other
  -- threads do to the tables while they are unlocked, as long as they stay consistent, and where they leave
  -- the tables alone between a look at the link and the command to the transmitter.
  pub apply_freq-IsEstablished :
      (cfg : FreqConfig) (s : State W)
      → IsConsistent s.manager
      → cfg.freq_cfg_flag ≡ 0
      → (apply_freq antenna other meanwhile cfg s).result ≡ result_success
      → IsEstablished cfg (apply_freq antenna other meanwhile cfg s).state.manager
        × WasCommanded antenna cfg s
  apply_freq-IsEstablished cfg s v flag e =
      (apply_freq-kept cfg s v flag e, apply_freq-acknowledged cfg s flag e)
