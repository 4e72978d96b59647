-- ===== src/Alarm/Table.antt =====
-- The table of active alarms, by counting: how many records satisfy a test, and the invariant.
use dpb_s_mgmt.Base.{
  ℕ, zero, suc, ◌+◌, ◌≤◌, ◌<◌, ◌≡◌, refl, Bool, true, false, not, Option, none, some, List, [], ◌∷◌,
  arith, length, get_or, set, ltb, Bool-cases, inl, inr,
}
use dpb_s_mgmt.Alarm.{
  AlarmRecord, Manager, blank, is_alarm, find_first, next, is_some, is_active, find_alarm_record,
}

abbrev pub bit : Bool → ℕ
bit true = 1
bit false = 0

-- How many records satisfy `p`.
unfoldable pub tally : (AlarmRecord → Bool) → List AlarmRecord → ℕ
tally p [] = 0
tally p (r ∷ rs) = bit (p r) + tally p rs

pub tally-set :
    (p : AlarmRecord → Bool) (rs : List AlarmRecord) (i : ℕ) (r : AlarmRecord)
    → i < length rs
    → tally p (set rs i r) + bit (p (get_or rs i blank)) ≡ tally p rs + bit (p r)
unfolding tally
tally-set p [] i r h = absurd (omega arith)
tally-set p (x ∷ rs) zero r h = omega arith
tally-set p (x ∷ rs) (suc i) r h = omega (arith, tally-set p rs i r (omega arith))

-- What a search has found.
abbrev pub Search : (AlarmRecord → Bool) → List AlarmRecord → Option ℕ → Type 0
Search p rs none = tally p rs ≡ 0
Search p rs (some i) = (i < length rs) × (p (get_or rs i blank) ≡ true) × (0 < tally p rs)

Search-next :
    (p : AlarmRecord → Bool) (r : AlarmRecord) (rs : List AlarmRecord) (o : Option ℕ)
    → p r ≡ false
    → Search p rs o
    → Search p (r ∷ rs) (next o)
unfolding next tally
Search-next p r rs none e s = rw e (omega (arith, s))
Search-next p r rs (some i) e s = (omega (arith, s.0), s.1, omega (arith, s.2))

pub find_first-Search :
    (p : AlarmRecord → Bool) (rs : List AlarmRecord) → Search p rs (find_first p rs)
unfolding find_first tally
find_first-Search p [] = refl
find_first-Search p (r ∷ rs) = elim (Bool-cases (p r)) [
  | inl here ↦ rw here (omega arith, here, rw here (omega arith))
  | inr other ↦ rw other (Search-next p r rs (find_first p rs) other (find_first-Search p rs))
]

pub tally-not :
    (p : AlarmRecord → Bool) (rs : List AlarmRecord)
    → tally (λ r. not (p r)) rs + tally p rs ≡ length rs
unfolding tally
tally-not p [] = refl
tally-not p (r ∷ rs) = ground (arith, tally-not p rs)

-- The number of active records.
abbrev pub active_count : Manager → ℕ
active_count m = tally (λ r. r.active) m.records

-- The number of active records of an alarm.
abbrev pub entries : Manager → ℕ → ℕ → ℕ
entries m code sub = tally (is_alarm code sub) m.records

-- The table has its 64 records, no alarm is in it twice, and the counter is right.
pub record IsConsistent (m : Manager) : Type 0 where
  pub size : length m.records ≡ 64
  pub counted : m.alarm_count ≡ active_count m
  pub once : (code sub : ℕ) → entries m code sub ≤ 1

pub is_active-entries :
    (m : Manager) (code sub : ℕ) → is_active m code sub ≡ ltb 0 (entries m code sub)
unfolding is_active find_alarm_record
is_active-entries m code sub =
    found (find_first (is_alarm code sub) m.records)
      (find_first-Search (is_alarm code sub) m.records)
  where
    found :
        (o : Option ℕ)
        → Search (is_alarm code sub) m.records o
        → is_some o ≡ ltb 0 (entries m code sub)
    found none s = ground arith
    found (some i) s = ground arith
