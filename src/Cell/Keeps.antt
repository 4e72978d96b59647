-- ===== src/Cell/Keeps.antt =====
-- Every operation on the tables keeps them consistent.
use dpb_s_mgmt.Base.{
  ℕ, suc, ◌+◌, ◌%◌, ◌<◌, ◌≡◌, refl, sym, ap, ◌∙◌, Bool, true, false, none, some, List, [], ◌∷◌,
  length, get_or, set, arith, Option-cases, inl, inr, map, length-set, get_or-set_self,
  get_or-set_ne,
}
use dpb_s_mgmt.Cell.{
  CellInfo, FreqInfo, Manager, no_cell, no_freq, row_of, cell_of, find_first, is_cell, is_free_cell,
  is_beam, is_free_freq,
}
use dpb_s_mgmt.Cell.Apply.{
  CellConfig, FreqConfig, new_cell, forget, delete_cell, set_cell, set_freq, store_freq_info,
  count_up, find_slot, save_freq, mark_sent,
}
use dpb_s_mgmt.Cell.Frequency.{delete_at}
use dpb_s_mgmt.Cell.Lookup.{find_first-some, find_first-none, one_if, in_use, in_use-le, in_use-set}
use dpb_s_mgmt.Cell.Consistent.{
  Counts, IsConsistent, Changed, Changed-IsConsistent, set_cell-Changed, set_freq-Changed,
  Changed-trans,
}

-- A cell that is still there under its identifier, or gone.
keep_id :
    (k : ℕ) (m m' : Manager)
    → k < 16
    → IsConsistent m
    → Changed k m m'
    → Counts (cell_of m' k) (row_of m' k)
    → ((cell_of m' k).active ≡ true
        → ((cell_of m k).active ≡ true)
          × ((cell_of m' k).local_cell_id ≡ (cell_of m k).local_cell_id))
    → IsConsistent m'
keep_id k m m' hk v c good same =
    Changed-IsConsistent k m m' v c good
      (λ j h ne a aj e. let (ak, id) = same a in ne (v.distinct k j hk h ak aj (sym id ∙ e)))

cell_at :
    (k : ℕ) (c : CellInfo) (m : Manager) → k < 16 → IsConsistent m → cell_of (set_cell k c m) k ≡ c
cell_at k c m h v = get_or-set_self m.cells k c no_cell (omega (arith, v.cells_size))

row_at :
    (k : ℕ) (row : List FreqInfo) (m : Manager)
    → k < 16
    → IsConsistent m
    → get_or (set m.freqs k row) k [] ≡ row
row_at k row m h v = get_or-set_self m.freqs k row [] (omega (arith, v.freqs_size))

pub new_cell-IsConsistent :
    (k : ℕ) (cfg : CellConfig) (m : Manager)
    → IsConsistent m
    → find_first (is_cell cfg.local_cell_id) m.cells ≡ none
    → find_first is_free_cell m.cells ≡ some k
    → IsConsistent (set_cell k (new_cell cfg) m)
new_cell-IsConsistent k cfg m v unknown found =
    let (inside, free) = find_first-some is_free_cell m.cells no_cell {i = k} found in
    let hk : k < 16 = omega (arith, v.cells_size) in
    let off : (cell_of m k).active ≡ false = ground arith in
    let here = cell_at k (new_cell cfg) m hk v in
    let old = v.counts k hk in
    Changed-IsConsistent k m (set_cell k (new_cell cfg) m) v (set_cell-Changed k (new_cell cfg) m)
      (rw here (record {
        size = old.size;
        counted = λ a. sym (old.empty off);
        empty = λ a. absurd (ground arith);
      }))
      (rw here (λ j h ne a aj e.
        let other =
          find_first-none (is_cell cfg.local_cell_id) m.cells no_cell j unknown
            (omega (arith, v.cells_size)) in
        absurd (ground (arith, sym e, aj, other))))

pub reconfig-IsConsistent :
    (k power : ℕ) (m : Manager)
    → k < 16
    → IsConsistent m
    → IsConsistent (set_cell k (record (cell_of m k) { cell_power = power }) m)
reconfig-IsConsistent k power m hk v =
    let c = record (cell_of m k) { cell_power = power } in
    let here = cell_at k c m hk v in
    let old = v.counts k hk in
    keep_id k m (set_cell k c m) hk v (set_cell-Changed k c m)
      (rw here (record { size = old.size; counted = old.counted; empty = old.empty }))
      (rw here (λ a. (a, refl)))

length-forget : (row : List FreqInfo) → length (map forget row) ≡ length row
length-forget [] = refl
length-forget (f ∷ row) = ap suc (length-forget row)

in_use-forget : (row : List FreqInfo) → in_use (map forget row) ≡ 0
unfolding in_use
in_use-forget [] = refl
in_use-forget (f ∷ row) = omega (arith, in_use-forget row)

pub delete_cell-IsConsistent :
    (k : ℕ) (m : Manager) → k < 16 → IsConsistent m → IsConsistent (delete_cell k m)
delete_cell-IsConsistent k m hk v =
    let c = record (cell_of m k) { freq_count = 0; active = false } in
    let row = map forget (row_of m k) in
    let here : cell_of (delete_cell k m) k ≡ c = cell_at k c m hk v in
    let there : row_of (delete_cell k m) k ≡ row = row_at k row m hk v in
    let old = v.counts k hk in
    let changed : Changed k m (delete_cell k m) = record {
      cells_size = length-set m.cells k c;
      freqs_size = length-set m.freqs k row;
      cells_same = λ j ne. get_or-set_ne m.cells k j c no_cell ne;
      rows_same = λ j ne. get_or-set_ne m.freqs k j row [] ne;
    } in
    keep_id k m (delete_cell k m) hk v changed
      (rw (here, there)
        (record {
          size = length-forget (row_of m k) ∙ old.size;
          counted = λ a. absurd (ground arith);
          empty = λ a. in_use-forget (row_of m k);
        }))
      (rw here (λ a. absurd (ground arith)))

-- An entry of an active cell is replaced, and the counter goes with it.
replace-IsConsistent :
    (k j n : ℕ) (f : FreqInfo) (m : Manager)
    → k < 16
    → j < 16
    → IsConsistent m
    → (cell_of m k).active ≡ true
    → n + one_if (get_or (row_of m k) j no_freq).active ≡ (cell_of m k).freq_count + one_if f.active
    → IsConsistent (set_freq k j f (set_cell k (record (cell_of m k) { freq_count = n }) m))
replace-IsConsistent k j n f m hk hj v on count =
    let c = record (cell_of m k) { freq_count = n } in
    let row = set (row_of m k) j f in
    let m' = set_freq k j f (set_cell k c m) in
    let here : cell_of m' k ≡ c = cell_at k c m hk v in
    let there : row_of m' k ≡ row = row_at k row m hk v in
    let old = v.counts k hk in
    let changes = in_use-set (row_of m k) j f (omega (arith, old.size)) in
    let counted = old.counted on in
    keep_id k m m' hk v
      (Changed-trans k m (set_cell k c m) m' (set_cell-Changed k c m)
        (set_freq-Changed k j f (set_cell k c m)))
      (rw (here, there)
        (record {
          size = length-set (row_of m k) j f ∙ old.size;
          counted = λ a. omega arith;
          empty = λ a. absurd (ground arith);
        }))
      (rw here (λ a. (a, refl)))

-- The same where the counter need not move.
replace_same-IsConsistent :
    (k j : ℕ) (f : FreqInfo) (m : Manager)
    → k < 16
    → j < 16
    → IsConsistent m
    → (cell_of m k).active ≡ true
    → (get_or (row_of m k) j no_freq).active ≡ true
    → f.active ≡ true
    → IsConsistent (set_freq k j f m)
replace_same-IsConsistent k j f m hk hj v on before after =
    let row = set (row_of m k) j f in
    let there : row_of (set_freq k j f m) k ≡ row = row_at k row m hk v in
    let old = v.counts k hk in
    let changes = in_use-set (row_of m k) j f (omega (arith, old.size)) in
    let one = ap one_if before in
    let again = ap one_if after in
    let counted = old.counted on in
    keep_id k m (set_freq k j f m) hk v (set_freq-Changed k j f m)
      (rw there (record {
        size = length-set (row_of m k) j f ∙ old.size;
        counted = λ a. omega arith;
        empty = λ a. absurd (ground arith);
      }))
      (λ a. (a, refl))

-- An entry with a property of its own and in use is found in its row.
pub found_in :
    (p : FreqInfo → Bool) (k j : ℕ) (m : Manager)
    → k < 16
    → IsConsistent m
    → find_first p (row_of m k) ≡ some j
    → (j < 16) × (p (get_or (row_of m k) j no_freq) ≡ true)
found_in p k j m hk v e =
    let (inside, holds) = find_first-some p (row_of m k) no_freq {i = j} e in
    (omega (arith, (v.counts k hk).size), holds)

pub save_freq-IsConsistent :
    (k : ℕ) (cfg : FreqConfig) (m : Manager) {j : ℕ} {m' : Manager}
    → k < 16
    → IsConsistent m
    → (cell_of m k).active ≡ true
    → save_freq k cfg m ≡ some (j, m')
    → IsConsistent m'
unfolding save_freq find_slot
save_freq-IsConsistent k cfg m {j} {m'} hk v on e =
    let f = store_freq_info cfg false in
    elim (Option-cases (find_first (is_beam cfg.beam_id) (row_of m k))) [
      | inr (i, known) ↦
          let (hi, holds) = found_in (is_beam cfg.beam_id) k i m hk v known in
          let e' : some (i, set_freq k i f m) ≡ some (j, m') =
            rw (save_freq, find_slot, known) at e in
          let same : set_freq k i f m ≡ m' = cc in
          rw (sym same) (replace_same-IsConsistent k i f m hk hi v on (ground arith) refl)
      | inl new ↦ elim (Option-cases (find_first is_free_freq (row_of m k))) [
        | inl full ↦ let e' : none ≡ some (j, m') = rw (save_freq, find_slot, new, full) at e in cc
        | inr (i, free) ↦
            let (hi, holds) = found_in is_free_freq k i m hk v free in
            let off : (get_or (row_of m k) i no_freq).active ≡ false = ground arith in
            let e' : some (i, set_freq k i f (count_up k m)) ≡ some (j, m') =
              rw (save_freq, find_slot, new, free) at e in
            let same : set_freq k i f (count_up k m) ≡ m' = cc in
            let old = v.counts k hk in
            let more = rw off at (in_use-set (row_of m k) i f (omega (arith, old.size))) in
            let most = in_use-le (set (row_of m k) i f) in
            let size = length-set (row_of m k) i f in
            let counted = old.counted on in
            rw (sym same) (
              replace-IsConsistent k i (((cell_of m k).freq_count + 1) % 256) f m hk hi v on
                (rw off (omega (arith, old.size))))
      ]
    ]

pub entry_at :
    (k j : ℕ) (f : FreqInfo) (m : Manager)
    → k < 16
    → j < 16
    → IsConsistent m
    → get_or (row_of (set_freq k j f m) k) j no_freq ≡ f
entry_at k j f m hk hj v =
    ap (λ (row : List FreqInfo). get_or row j no_freq) (row_at k (set (row_of m k) j f) m hk v)
    ∙ get_or-set_self (row_of m k) j f no_freq (omega (arith, (v.counts k hk).size))

-- Where the entry is saved.
pub save_freq-slot :
    (k : ℕ) (cfg : FreqConfig) (m : Manager) {j : ℕ} {m' : Manager}
    → k < 16
    → IsConsistent m
    → (cell_of m k).active ≡ true
    → save_freq k cfg m ≡ some (j, m')
    → (j < 16)
      × ((cell_of m' k).active ≡ true)
      × ((cell_of m' k).local_cell_id ≡ (cell_of m k).local_cell_id)
      × (get_or (row_of m' k) j no_freq ≡ store_freq_info cfg false)
unfolding save_freq find_slot
save_freq-slot k cfg m {j} {m'} hk v on e =
    let f = store_freq_info cfg false in
    elim (Option-cases (find_first (is_beam cfg.beam_id) (row_of m k))) [
      | inr (i, known) ↦
          let hi = (found_in (is_beam cfg.beam_id) k i m hk v known).0 in
          let e' : some (i, set_freq k i f m) ≡ some (j, m') =
            rw (save_freq, find_slot, known) at e in
          let place : j ≡ i = cc in
          let same : m' ≡ set_freq k i f m = cc in
          rw (place, same) (hi, on, refl, entry_at k i f m hk hi v)
      | inl new ↦ elim (Option-cases (find_first is_free_freq (row_of m k))) [
        | inl full ↦ let e' : none ≡ some (j, m') = rw (save_freq, find_slot, new, full) at e in cc
        | inr (i, free) ↦
            let hi = (found_in is_free_freq k i m hk v free).0 in
            let e' : some (i, set_freq k i f (count_up k m)) ≡ some (j, m') =
              rw (save_freq, find_slot, new, free) at e in
            let place : j ≡ i = cc in
            let same : m' ≡ set_freq k i f (count_up k m) = cc in
            let c = record (cell_of m k) { freq_count = ((cell_of m k).freq_count + 1) % 256 } in
            let here = cell_at k c m hk v in
            rw (place, same)
              (
                hi,
                ap (λ (x : CellInfo). x.active) here ∙ on,
                ap (λ (x : CellInfo). x.local_cell_id) here,
                entry_at k i f m hk hi v,
              )
      ]
    ]

pub mark_sent-IsConsistent :
    (k j : ℕ) (m : Manager)
    → k < 16
    → j < 16
    → IsConsistent m
    → (cell_of m k).active ≡ true
    → (get_or (row_of m k) j no_freq).active ≡ true
    → IsConsistent (mark_sent k j m)
mark_sent-IsConsistent k j m hk hj v on used =
    replace_same-IsConsistent k j _ m hk hj v on used used

pub delete_at-IsConsistent :
    (k j : ℕ) (m : Manager)
    → k < 16
    → j < 16
    → IsConsistent m
    → (cell_of m k).active ≡ true
    → (get_or (row_of m k) j no_freq).active ≡ true
    → IsConsistent (delete_at k j m)
delete_at-IsConsistent k j m hk hj v on used =
    let f = forget (get_or (row_of m k) j no_freq) in
    let old = v.counts k hk in
    let less = rw used at (in_use-set (row_of m k) j f (omega (arith, old.size))) in
    let most = in_use-le (row_of m k) in
    let counted = old.counted on in
    replace-IsConsistent k j (((cell_of m k).freq_count + 255) % 256) f m hk hj v on
      (rw used (omega (arith, old.size)))
