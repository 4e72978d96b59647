-- ===== src/Cell/Upkeep.antt =====
-- The operations on cells and the control of the transmitter keep the tables consistent.
use dpb_s_mgmt.Base.{
  ℕ, ◌<◌, ◌≡◌, refl, ap, Bool, true, some, if◌then◌else◌, not, ◌&&◌, ◌==◌, arith, ◌⊎◌, Bool-cases,
  Option-cases, inl, inr, Result, ok, err, Error,
}
use dpb_s_mgmt.Cell.{
  Manager, Antenna, State, no_cell, cell_of, has_any_freq, apply_tx_control, update_tx_control,
  find_first, is_cell, is_free_cell,
}
use dpb_s_mgmt.Cell.Apply.{
  CellConfig, delete_cell, establish_cell, reconfig_cell, delete_found, apply_cell,
}
use dpb_s_mgmt.Cell.Lookup.{find_first-some}
use dpb_s_mgmt.Cell.Consistent.{IsConsistent}
use dpb_s_mgmt.Cell.Keeps.{new_cell-IsConsistent, reconfig-IsConsistent, delete_cell-IsConsistent}

-- What other threads do keeps the tables consistent.
abbrev pub Keeps : {W : Type 0} → (State W → State W) → Type 0
Keeps {W} f = (s : State W) → IsConsistent s.manager → IsConsistent (f s).manager

pub Result-cases :
    {A : Type 0} (r : Result A) → ((a : A) × (r ≡ ok a)) ⊎ ((e : Error) × (r ≡ err e))
Result-cases (ok a) = inl (a, refl)
Result-cases (err e) = inr (e, refl)

-- A cell that is found is in use, in one of the 16 slots.
pub found_cell :
    (id i : ℕ) (m : Manager)
    → IsConsistent m
    → find_first (is_cell id) m.cells ≡ some i
    → (i < 16) × ((cell_of m i).active ≡ true) × ((cell_of m i).local_cell_id ≡ id)
found_cell id i m v e =
    let (inside, holds) = find_first-some (is_cell id) m.cells no_cell {i = i} e in
    (omega (arith, v.cells_size), ground arith, ground arith)

establish_cell-IsConsistent :
    (cfg : CellConfig) (m : Manager)
    → IsConsistent m
    → IsConsistent (establish_cell cfg (find_first (is_cell cfg.local_cell_id) m.cells) m).1
unfolding establish_cell
establish_cell-IsConsistent cfg m v =
    elim (Option-cases (find_first (is_cell cfg.local_cell_id) m.cells)) [
      | inr (i, known) ↦
          let c = cell_of m i in
          elim (Bool-cases (c.cell_power == cfg.cell_power && c.cell_type == cfg.cell_type)) [
            | inl same ↦ rw (known, establish_cell, same) v
            | inr differs ↦ rw (known, establish_cell, differs) v
          ]
      | inl new ↦ elim (Option-cases (find_first is_free_cell m.cells)) [
        | inl full ↦ rw (new, establish_cell, full) v
        | inr (k, free) ↦ rw (new, establish_cell, free) (new_cell-IsConsistent k cfg m v new free)
      ]
    ]

reconfig_cell-IsConsistent :
    (cfg : CellConfig) (m : Manager)
    → IsConsistent m
    → IsConsistent (reconfig_cell cfg (find_first (is_cell cfg.local_cell_id) m.cells) m).1
unfolding reconfig_cell
reconfig_cell-IsConsistent cfg m v =
    elim (Option-cases (find_first (is_cell cfg.local_cell_id) m.cells)) [
      | inl unknown ↦ rw (unknown, reconfig_cell) v
      | inr (i, known) ↦
          rw (known, reconfig_cell)
            (reconfig-IsConsistent i cfg.cell_power m (found_cell cfg.local_cell_id i m v known).0
              v)
    ]

module _ {W : Type 0} (antenna : Antenna W) where
  -- The transmitter has nothing to do with the tables.
  pub apply_tx_control-manager :
      (on : Bool) (s : State W) → (apply_tx_control antenna on s).manager ≡ s.manager
  unfolding apply_tx_control
  apply_tx_control-manager on s =
      elim (Bool-cases (antenna.send_tx_control (if on then 1 else 0) s.antenna).0) [
        | inl sent ↦ rw (apply_tx_control, sent) refl
        | inr lost ↦ rw (apply_tx_control, lost) refl
      ]

  -- With the link up the transmitter is told what the tables say.
  pub update_tx_control-up :
      (meanwhile : State W → State W) (s : State W)
      → s.bbu_link_ok ≡ true
      → update_tx_control antenna meanwhile s
        ≡ apply_tx_control antenna (has_any_freq s.manager) (meanwhile s)
  unfolding update_tx_control
  update_tx_control-up meanwhile s up =
      ap
        (λ (b : Bool).
          if not b then s else apply_tx_control antenna (has_any_freq s.manager) (meanwhile s))
        up

  module _ (other meanwhile : State W → State W) (o : Keeps other) (d : Keeps meanwhile) where
    pub update_tx_control-IsConsistent :
        (s : State W)
        → IsConsistent s.manager
        → IsConsistent (update_tx_control antenna meanwhile s).manager
    unfolding update_tx_control
    update_tx_control-IsConsistent s v = elim (Bool-cases s.bbu_link_ok) [
      | inr down ↦ rw (update_tx_control, down) v
      | inl up ↦
          rw
            (
              update_tx_control-up meanwhile s up,
              apply_tx_control-manager (has_any_freq s.manager) (meanwhile s),
            )
            (d s v)
    ]

    delete_found-IsConsistent :
        (cfg : CellConfig) (s : State W)
        → IsConsistent s.manager
        → IsConsistent
            (delete_found antenna meanwhile
              (find_first (is_cell cfg.local_cell_id) s.manager.cells)
              s).1.manager
    unfolding delete_found
    delete_found-IsConsistent cfg s v =
        elim (Option-cases (find_first (is_cell cfg.local_cell_id) s.manager.cells)) [
          | inl unknown ↦ rw (unknown, delete_found) v
          | inr (i, known) ↦
              rw (known, delete_found)
                (update_tx_control-IsConsistent (record s { manager = delete_cell i s.manager })
                  (delete_cell-IsConsistent i s.manager
                    (found_cell cfg.local_cell_id i s.manager v known).0 v))
        ]

    pub apply_cell-IsConsistent :
        (cfg : CellConfig) (s : State W)
        → IsConsistent s.manager
        → IsConsistent (apply_cell antenna meanwhile cfg s).1.manager
    unfolding apply_cell
    apply_cell-IsConsistent cfg s v = elim (Bool-cases (cfg.cell_cfg_flag == 0)) [
      | inl first ↦ rw (apply_cell, first) (establish_cell-IsConsistent cfg s.manager v)
      | inr not_first ↦ elim (Bool-cases (cfg.cell_cfg_flag == 1)) [
        | inl second ↦
            rw (apply_cell, not_first, second) (reconfig_cell-IsConsistent cfg s.manager v)
        | inr not_second ↦ elim (Bool-cases (cfg.cell_cfg_flag == 2)) [
          | inl third ↦
              rw (apply_cell, not_first, not_second, third) (delete_found-IsConsistent cfg s v)
          | inr unknown ↦ rw (apply_cell, not_first, not_second, unknown) v
        ]
      ]
    ]
