-- ===== src/Alarm/Clearing.antt =====
-- `alarm_clear`: the alarm goes out of the table, and nothing else does.
use dpb_s_mgmt.Base.{
  ℕ, ◌+◌, ◌≤◌, ◌≡◌, refl, sym, ◌∙◌, Bool, true, false, not, ◌&&◌, Option, none, some, arith, get_or,
  set, length-set, ltb, Bool-cases, inl, inr,
}
use dpb_s_mgmt.Alarm.{
  AlarmRecord, Manager, blank, is_alarm, find_first, is_active, find_alarm_record, clear, clear_at,
}
use dpb_s_mgmt.Alarm.Table.{
  bit, tally, tally-not, Search, find_first-Search, entries, IsConsistent, is_active-entries,
}
use dpb_s_mgmt.Alarm.Activity.{same, replaced-entries, replaced-active}

-- What clearing an alarm has done to the manager.
pub record Cleared (code sub : ℕ) (m m' : Manager) : Type 0 where
  pub consistent : IsConsistent m'
  pub active : (c s : ℕ) → is_active m' c s ≡ (is_active m c s && not (same code sub c s))
  pub tracker : m'.state_tracker ≡ m.state_tracker

absent-active :
    (code sub : ℕ) (m : Manager)
    → entries m code sub ≡ 0
    → (c s : ℕ) → is_active m c s ≡ (is_active m c s && not (same code sub c s))
absent-active code sub m e c s = elim (Bool-cases (same code sub c s)) [
  | inr other ↦ ground arith
  | inl it ↦
      let e1 : code ≡ c = ground arith in
      let e2 : sub ≡ s = ground arith in
      let k : entries m c s ≡ 0 = rw (sym e1, sym e2) e in ground (arith, is_active-entries m c s)
]

clear_at-Cleared :
    (code sub now : ℕ) {m : Manager} (o : Option ℕ)
    → IsConsistent m
    → Search (is_alarm code sub) m.records o
    → Cleared code sub m (clear_at code sub now m o).0
unfolding clear_at
clear_at-Cleared code sub now {m} none v s = record {
  consistent = v;
  active = absent-active code sub m s;
  tracker = refl;
}
clear_at-Cleared code sub now {m} (some idx) v s =
    let old : AlarmRecord = get_or m.records idx blank in
    let r : AlarmRecord = record old { clear_time = now; active = false } in
    let gone = replaced-active m idx r s.0 in
    let total = tally-not (λ r. r.active) m.records in
    let was : old.active ≡ true = ground (arith, s.1) in
    let at : (c sb : ℕ)
        → tally (is_alarm c sb) (set m.records idx r) + bit (same code sub c sb) ≡ entries m c sb =
      λ c sb. ground (arith, replaced-entries m idx r s.0 c sb, s.1) in
    record {
      consistent = record {
        size = length-set m.records idx r ∙ v.size;
        counted = ground (arith, v.counted, v.size, gone, total);
        once = λ c sb. ground (arith, at c sb, v.once c sb);
      };
      active = λ c sb.
          at_most (entries m c sb) (tally (is_alarm c sb) (set m.records idx r))
            (same code sub c sb) (is_active-entries m c sb) (is_active-entries _ c sb) (at c sb)
            (v.once c sb);
      tracker = refl;
    }
  where
    at_most :
        (n n' : ℕ) (it : Bool) {b b' : Bool}
        → b ≡ ltb 0 n
        → b' ≡ ltb 0 n'
        → n' + bit it ≡ n
        → n ≤ 1
        → b' ≡ (b && not it)
    at_most n n' true e e' k le = ground (arith, e, e', k, le)
    at_most n n' false e e' k le = ground (arith, e, e', k, le)

-- `alarm_clear` keeps the table consistent and the edge trackers as they are; afterwards the alarm is
-- not active, whether it was or not, and all other alarms are as before.
pub clear-Cleared :
    (code sub now : ℕ) {m : Manager} → IsConsistent m → Cleared code sub m (clear code sub now m).0
unfolding clear find_alarm_record
clear-Cleared code sub now {m} v =
    clear_at-Cleared code sub now {m = m} (find_first (is_alarm code sub) m.records) v
      (find_first-Search (is_alarm code sub) m.records)
