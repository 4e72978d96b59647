-- ===== src/Alarm/Follow.antt =====
-- The alarms follow the readings: an alarm that is in step with its tracker stays so.
use dpb_s_mgmt.Base.{
  ℕ, ◌<◌, ◌≡◌, sym, Bool, true, false, not, ◌&&◌, ◌||◌, List, arith, get_or, set, leb, ◌==◌,
  if◌then◌else◌, Bool-cases, inl, inr, Result, ok, err,
}
use dpb_s_mgmt.Alarm.{
  Manager, Tracker, Report, is_active, trigger, clear, find_alarm_record, code_lo_unlock,
  code_over_temperature,
}
use dpb_s_mgmt.Alarm.Table.{IsConsistent}
use dpb_s_mgmt.Alarm.Activity.{same, Triggered, trigger-Triggered, trigger-IsConsistent}
use dpb_s_mgmt.Alarm.Clearing.{clear-Cleared}
use dpb_s_mgmt.Alarm.Edges.{
  Config, less_int8, without_status, edge, check_lo_unlock, check_over_temperature,
}

-- The alarm `(code, sub)` is `current` in `m'`, and all others are as in `m`.
pub record Follows (current : Bool) (code sub : ℕ) (m m' : Manager) : Type 0 where
  pub consistent : IsConsistent m'
  pub active :
      (c s : ℕ) → is_active m' c s ≡ (if same code sub c s then current else is_active m c s)

same_eq : (code sub c s : ℕ) → same code sub c s ≡ true → (code ≡ c) × (sub ≡ s)
same_eq code sub c s h = ground arith

-- The three ways in which an edge ends.
or-Follows :
    (code sub : ℕ) (m m' : Manager)
    → ((c s : ℕ) → is_active m' c s ≡ (is_active m c s || same code sub c s))
    → (c s : ℕ) → is_active m' c s ≡ (if same code sub c s then true else is_active m c s)
or-Follows code sub m m' e c s = ground (arith, e c s)

and-Follows :
    (code sub : ℕ) (m m' : Manager)
    → ((c s : ℕ) → is_active m' c s ≡ (is_active m c s && not (same code sub c s)))
    → (c s : ℕ) → is_active m' c s ≡ (if same code sub c s then false else is_active m c s)
and-Follows code sub m m' e c s = ground (arith, e c s)

stay-Follows :
    (current : Bool) (code sub : ℕ) (m : Manager)
    → is_active m code sub ≡ current
    → (c s : ℕ) → is_active m c s ≡ (if same code sub c s then current else is_active m c s)
stay-Follows current code sub m e c s = elim (Bool-cases (same code sub c s)) [
  | inr other ↦ ground arith
  | inl it ↦ let k = same_eq code sub c s it in rw it (rw (sym k.0, sym k.1) e)
]

without_status-Follows :
    (code sub : ℕ) (m : Manager) (o : Result (Unit {0}) × Manager × List Report)
    → m.alarm_count < 64
    → IsConsistent o.1
    → Triggered code sub m o
    → Follows true code sub m (without_status o).0
unfolding without_status
without_status-Follows code sub m (ok u, m', reports) room v t = record {
  consistent = v;
  active = or-Follows code sub m m' t;
}
without_status-Follows code sub m (err e, m', reports) room v t = absurd (omega (arith, t.2))

pub edge-Follows :
    (now : ℕ) (current prev : Bool) (code sub : ℕ) (info : List ℕ) {m : Manager}
    → IsConsistent m
    → m.alarm_count < 64
    → is_active m code sub ≡ prev
    → Follows current code sub m (edge (λ m. m) now current prev code sub info m).0
unfolding edge
edge-Follows now true true code sub info {m} v room e = record {
  consistent = v;
  active = stay-Follows true code sub m e;
}
edge-Follows now false false code sub info {m} v room e = record {
  consistent = v;
  active = stay-Follows false code sub m e;
}
edge-Follows now true false code sub info {m} v room e =
    without_status-Follows code sub m (trigger (λ m. m) code sub info now m) room
      (trigger-IsConsistent (λ m. m) code sub info now (λ m v. v) v)
      (trigger-Triggered code sub info now v)
edge-Follows now false true code sub info {m} v room e =
    let c = clear-Cleared code sub now v in
    record {
      consistent = c.consistent;
      active = and-Follows code sub m (clear code sub now m).0 c.active;
    }

pub retracked :
    {m : Manager} (t : Tracker) → IsConsistent m → IsConsistent (record m { state_tracker = t })
retracked t v = record { size = v.size; counted = v.counted; once = v.once }

-- `alarm_check_lo_unlock` on a consistent table with a free slot, where the tracker agrees with the
-- table before, and with no other thread in between: the alarm 50001 is active afterwards if and only
-- if the reading is not 0, all other alarms are as before, and the table is consistent.
pub check_lo_unlock-Follows :
    (now : ℕ) (info : List ℕ) (status : ℕ) {m : Manager}
    → IsConsistent m
    → m.alarm_count < 64
    → is_active m code_lo_unlock 0 ≡ m.state_tracker.lo_unlock_active
    → Follows (not (status == 0)) code_lo_unlock 0 m (check_lo_unlock (λ m. m) now info status m).0
unfolding check_lo_unlock is_active find_alarm_record
check_lo_unlock-Follows now info status {m} v room e =
    let t : Tracker = record m.state_tracker { lo_unlock_active = not (status == 0) } in
    let f =
      edge-Follows now (not (status == 0)) m.state_tracker.lo_unlock_active code_lo_unlock 0 info
        {m = record m { state_tracker = t }} (retracked t v) room e in
    record { consistent = f.consistent; active = f.active }

-- `alarm_check_over_temperature` for a probe below 10, on a consistent table with a free slot, where
-- the probe's tracker agrees with the table before, and with no other thread in between: the probe's
-- alarm 1156 is active afterwards if and only if its temperature, as an int8_t, is above the upper
-- limit or below the lower one; all other alarms are as before, and the table is consistent.
pub check_over_temperature-Follows :
    (now : ℕ) (config : Config) (info : List ℕ) (probe temperature : ℕ) {m : Manager}
    → IsConsistent m
    → m.alarm_count < 64
    → probe < 10
    → is_active m code_over_temperature probe ≡ get_or m.state_tracker.over_temperature probe false
    → Follows
        (less_int8 config.over_temp_threshold_high temperature
          || less_int8 temperature config.over_temp_threshold_low)
        code_over_temperature
        probe
        m
        (check_over_temperature (λ m. m) now config info probe temperature m).0
unfolding check_over_temperature is_active find_alarm_record
check_over_temperature-Follows now config info probe temperature {m} v room small e =
    let current : Bool =
      less_int8 config.over_temp_threshold_high temperature
      || less_int8 temperature config.over_temp_threshold_low in
    let probes : List Bool = m.state_tracker.over_temperature in
    let t : Tracker = record m.state_tracker { over_temperature = set probes probe current } in
    let valid : leb 10 probe ≡ false = ground arith in
    let f =
      edge-Follows now current (get_or probes probe false) code_over_temperature probe info
        {m = record m { state_tracker = t }} (retracked t v) room e in
    rw valid (record { consistent = f.consistent; active = f.active })
