-- ===== src/Cell/Consistent.antt =====
-- The tables of cells and frequencies fit together, and every change of one slot keeps it so.
use dpb_s_mgmt.Base.{
  ℕ, zero, suc, ◌<◌, ◌≡◌, ◌≢◌, refl, sym, ap, ◌∙◌, true, false, List, [], length, get_or, set, ◌==◌,
  ==_iff, arith, Bool-cases, inl, inr, length-set, replicate, get_or-set_ne,
}
use dpb_s_mgmt.Cell.{CellInfo, FreqInfo, Manager, empty_manager, no_cell, no_freq, row_of, cell_of}
use dpb_s_mgmt.Cell.Apply.{set_cell, set_freq}
use dpb_s_mgmt.Cell.Lookup.{in_use}

-- A cell's counter is the number of its frequencies, and a slot without a cell has none.
pub record Counts (c : CellInfo) (row : List FreqInfo) : Type 0 where
  pub size : length row ≡ 16
  pub counted : c.active ≡ true → c.freq_count ≡ in_use row
  pub empty : c.active ≡ false → in_use row ≡ 0

-- Sixteen slots each, every counter right, and no two cells with one identifier.
pub record IsConsistent (m : Manager) : Type 0 where
  pub cells_size : length m.cells ≡ 16
  pub freqs_size : length m.freqs ≡ 16
  pub counts : (i : ℕ) → i < 16 → Counts (cell_of m i) (row_of m i)
  pub distinct :
      (i j : ℕ)
      → i < 16
      → j < 16
      → (cell_of m i).active ≡ true
      → (cell_of m j).active ≡ true
      → (cell_of m i).local_cell_id ≡ (cell_of m j).local_cell_id
      → i ≡ j

-- Only slot `k` differs.
pub record Changed (k : ℕ) (m m' : Manager) : Type 0 where
  pub cells_size : length m'.cells ≡ length m.cells
  pub freqs_size : length m'.freqs ≡ length m.freqs
  pub cells_same : (j : ℕ) → k ≢ j → cell_of m' j ≡ cell_of m j
  pub rows_same : (j : ℕ) → k ≢ j → row_of m' j ≡ row_of m j

pub set_cell-Changed : (k : ℕ) (c : CellInfo) (m : Manager) → Changed k m (set_cell k c m)
set_cell-Changed k c m = record {
  cells_size = length-set m.cells k c;
  freqs_size = refl;
  cells_same = λ j ne. get_or-set_ne m.cells k j c no_cell ne;
  rows_same = λ j ne. refl;
}

pub set_freq-Changed : (k j : ℕ) (f : FreqInfo) (m : Manager) → Changed k m (set_freq k j f m)
set_freq-Changed k j f m = record {
  cells_size = refl;
  freqs_size = length-set m.freqs k (set (row_of m k) j f);
  cells_same = λ i ne. refl;
  rows_same = λ i ne. get_or-set_ne m.freqs k i (set (row_of m k) j f) [] ne;
}

pub Changed-trans : (k : ℕ) (m n o : Manager) → Changed k m n → Changed k n o → Changed k m o
Changed-trans k m n o a b = record {
  cells_size = b.cells_size ∙ a.cells_size;
  freqs_size = b.freqs_size ∙ a.freqs_size;
  cells_same = λ j ne. b.cells_same j ne ∙ a.cells_same j ne;
  rows_same = λ j ne. b.rows_same j ne ∙ a.rows_same j ne;
}

-- A slot is changed to one that counts right and whose identifier, where it is in use, no other has.
pub Changed-IsConsistent :
    (k : ℕ) (m m' : Manager)
    → IsConsistent m
    → Changed k m m'
    → Counts (cell_of m' k) (row_of m' k)
    → ((j : ℕ)
        → j < 16
        → k ≢ j
        → (cell_of m' k).active ≡ true
        → (cell_of m j).active ≡ true
        → (cell_of m' k).local_cell_id ≢ (cell_of m j).local_cell_id)
    → IsConsistent m'
Changed-IsConsistent k m m' v c good fresh = record {
  cells_size = c.cells_size ∙ v.cells_size;
  freqs_size = c.freqs_size ∙ v.freqs_size;
  counts = λ i h. elim (Bool-cases (k == i)) [
    | inl here ↦ let same : k ≡ i = (==_iff k i).0 here in rw (sym same) good
    | inr there ↦
        let ne : k ≢ i = ground arith in rw (c.cells_same i ne, c.rows_same i ne) (v.counts i h)
  ];
  distinct = λ i j hi hj ai aj e. elim (Bool-cases (k == i)) [
    | inl here ↦ elim (Bool-cases (k == j)) [
      | inl both ↦ sym ((==_iff k i).0 here) ∙ (==_iff k j).0 both
      | inr there ↦
          let same : k ≡ i = (==_iff k i).0 here in
          let ne : k ≢ j = ground arith in
          let e' = e ∙ ap (λ (c : CellInfo). c.local_cell_id) (c.cells_same j ne) in
          absurd (fresh j hj ne (rw same ai) (rw (sym (c.cells_same j ne)) aj) (rw same e'))
    ]
    | inr away ↦
        let ni : k ≢ i = ground arith in
        elim (Bool-cases (k == j)) [
          | inl here ↦
              let same : k ≡ j = (==_iff k j).0 here in
              let e' = sym e ∙ ap (λ (c : CellInfo). c.local_cell_id) (c.cells_same i ni) in
              absurd (fresh i hi ni (rw same aj) (rw (sym (c.cells_same i ni)) ai) (rw same e'))
          | inr there ↦
              let nj : k ≢ j = ground arith in
              v.distinct i j hi hj (rw (sym (c.cells_same i ni)) ai)
                (rw (sym (c.cells_same j nj)) aj)
                (sym (ap (λ (c : CellInfo). c.local_cell_id) (c.cells_same i ni))
                  ∙ e
                  ∙ ap (λ (c : CellInfo). c.local_cell_id) (c.cells_same j nj))
        ]
  ];
}

get_or-replicate : {A : Type 0} (n i : ℕ) (a d : A) → i < n → get_or (replicate n a) i d ≡ a
get_or-replicate zero i a d h = absurd (omega arith)
get_or-replicate (suc n) zero a d h = refl
get_or-replicate (suc n) (suc i) a d h = get_or-replicate n i a d (omega arith)

none_used : in_use (replicate 16 no_freq) ≡ 0
unfolding in_use
none_used = refl

-- The tables that `cell_config_init` leaves.
pub empty-IsConsistent : IsConsistent empty_manager
empty-IsConsistent =
    let row = replicate 16 no_freq in
    record {
      cells_size = refl;
      freqs_size = refl;
      counts = λ i h.
          rw (get_or-replicate 16 i no_cell no_cell h, get_or-replicate 16 i row [] h)
            (record { size = refl; counted = λ a. cc; empty = λ a. none_used });
      distinct = λ i j hi hj a b e.
          let off = ap (λ (c : CellInfo). c.active) (get_or-replicate 16 i no_cell no_cell hi) in
          cc;
    }
