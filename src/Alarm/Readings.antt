-- ===== src/Alarm/Readings.antt =====
-- What the periodic check makes of the telemetry, apart from the optical ports.
use dpb_s_mgmt.Base.{
  ℕ, ◌+◌, ◌≤◌, ◌<◌, ◌≡◌, refl, Bool, true, false, Option, none, some, not, ◌||◌, List, arith,
  get_or, set, leb, ltb, ◌==◌, ◌⊎◌, Bool-cases, inl, inr, sub32,
}
use dpb_s_mgmt.Alarm.{
  Manager, Tracker, is_active, trigger, clear, place, place_in, announce, mark_reported, clear_at,
  find_alarm_record, find_free_record, code_lo_unlock, code_tcp_disconnect, is_alarm, blank, Placed,
  already, full, placed, code_over_temperature, code_channel_fault_exceed,
}
use dpb_s_mgmt.Alarm.Table.{IsConsistent, tally-not}
use dpb_s_mgmt.Alarm.Clearing.{clear-Cleared}
use dpb_s_mgmt.Alarm.Edges.{
  Config, less_int8, without_status, edge, check_lo_unlock, check_over_temperature,
  check_channel_fault_exceed,
}
use dpb_s_mgmt.Alarm.Follow.{Follows, edge-Follows, retracked}

-- The tracker is as before, and at most one entry more is in use.
record Kept (m m' : Manager) : Type 0 where
  tracker : m'.state_tracker ≡ m.state_tracker
  room : m'.alarm_count ≤ m.alarm_count + 1

place_in-Kept :
    (code sub : ℕ) (info : List ℕ) (now : ℕ) (m : Manager) (slot : Option ℕ)
    → Kept m (place_in code sub info now m slot).1
unfolding place_in
place_in-Kept code sub info now m none = record { tracker = refl; room = omega arith }
place_in-Kept code sub info now m (some i) = record { tracker = refl; room = omega arith }

place-Kept :
    (code sub : ℕ) (info : List ℕ) (now : ℕ) (m : Manager) → Kept m (place code sub info now m).1
unfolding place
place-Kept code sub info now m = elim (Bool-cases (is_active m code sub)) [
  | inl there ↦ rw there (record { tracker = refl; room = omega arith })
  | inr new ↦ rw new (place_in-Kept code sub info now m (find_free_record m))
]

mark_reported-Kept :
    (code sub i : ℕ) (m m' : Manager) → Kept m m' → Kept m (mark_reported code sub i m')
unfolding mark_reported
mark_reported-Kept code sub i m m' k =
    elim (Bool-cases (is_alarm code sub (get_or m'.records i blank))) [
      | inl it ↦ rw it (record { tracker = k.tracker; room = k.room })
      | inr other ↦ rw other k
    ]

announce-Kept :
    (code sub : ℕ) (info : List ℕ) (m : Manager) (o : Placed × Manager)
    → Kept m o.1
    → Kept m (announce (λ m. m) code sub info o).1
unfolding announce
announce-Kept code sub info m (already, m') k = k
announce-Kept code sub info m (full, m') k = k
announce-Kept code sub info m (placed i, m') k = elim (Bool-cases m'.tcp_connected) [
  | inl up ↦ rw up (
      mark_reported-Kept code sub i m (record m' { tcp_connected = true })
        (record { tracker = k.tracker; room = k.room }))
  | inr down ↦ elim (Bool-cases (code == code_tcp_disconnect)) [
    | inl tcp ↦ rw (down, tcp) (record { tracker = k.tracker; room = k.room })
    | inr other ↦ rw (down, other) (record { tracker = k.tracker; room = k.room })
  ]
]

clear_at-tracker :
    (code sub now : ℕ) (m : Manager) (slot : Option ℕ)
    → ((clear_at code sub now m slot).0.state_tracker ≡ m.state_tracker)
      × (((clear_at code sub now m slot).0.alarm_count ≡ m.alarm_count)
          ⊎ ((clear_at code sub now m slot).0.alarm_count ≡ sub32 m.alarm_count 1))
unfolding clear_at
clear_at-tracker code sub now m none = (refl, inl refl)
clear_at-tracker code sub now m (some i) = (refl, inr refl)

-- A consistent table has at most 64 alarms.
few_alarms : {m : Manager} → IsConsistent m → m.alarm_count ≤ 64
few_alarms {m} v = omega (arith, v.counted, v.size, tally-not (λ r. r.active) m.records)

edge-Kept :
    (now : ℕ) (current prev : Bool) (code sub : ℕ) (info : List ℕ) {m : Manager}
    → IsConsistent m
    → Kept m (edge (λ m. m) now current prev code sub info m).0
unfolding edge without_status trigger clear
edge-Kept now true true code sub info {m} v = record { tracker = refl; room = omega arith }
edge-Kept now false false code sub info {m} v = record { tracker = refl; room = omega arith }
edge-Kept now true false code sub info {m} v =
    announce-Kept code sub info m (place code sub info now m) (place-Kept code sub info now m)
edge-Kept now false true code sub info {m} v =
    let (tracker, count) = clear_at-tracker code sub now m (find_alarm_record code sub m) in
    let few : (clear_at code sub now m (find_alarm_record code sub m)).0.alarm_count ≤ 64 =
      few_alarms (clear-Cleared code sub now v).consistent in
    let before = few_alarms v in
    record { tracker = tracker; room = omega (arith, few, before, count) }

-- What a check has done: its alarm follows the reading, the others are as before, at most one entry more is
-- in use, and the tracker is the one that is given.
pub record Checked (current : Bool) (code sub : ℕ) (t : Tracker) (m m' : Manager) : Type 0 where
  pub follows : Follows current code sub m m'
  pub tracker : m'.state_tracker ≡ t
  pub room : m'.alarm_count ≤ m.alarm_count + 1

edge-Checked :
    (now : ℕ) (current prev : Bool) (code sub : ℕ) (info : List ℕ) (t : Tracker) {m : Manager}
    → IsConsistent m
    → m.alarm_count < 64
    → is_active m code sub ≡ prev
    → Checked current code sub t m
        (edge (λ m. m) now current prev code sub info (record m { state_tracker = t })).0
unfolding is_active find_alarm_record
edge-Checked now current prev code sub info t {m} v room e =
    let m' : Manager = record m { state_tracker = t } in
    let f = edge-Follows now current prev code sub info {m = m'} (retracked t v) room e in
    let k = edge-Kept now current prev code sub info {m = m'} (retracked t v) in
    record {
      follows = record { consistent = f.consistent; active = f.active };
      tracker = k.tracker;
      room = k.room;
    }

-- A reading of a probe outside its limits.
abbrev pub is_hot : Config → ℕ → Bool
is_hot config temperature =
    less_int8 config.over_temp_threshold_high temperature
    || less_int8 temperature config.over_temp_threshold_low

module _ (now : ℕ) (config : Config) where
  pub check_lo_unlock-Checked :
      (info : List ℕ) (status : ℕ) {m : Manager}
      → IsConsistent m
      → m.alarm_count < 64
      → is_active m code_lo_unlock 0 ≡ m.state_tracker.lo_unlock_active
      → Checked
          (not (status == 0))
          code_lo_unlock
          0
          (record m.state_tracker { lo_unlock_active = not (status == 0) })
          m
          (check_lo_unlock (λ m. m) now info status m).0
  unfolding check_lo_unlock
  check_lo_unlock-Checked info status {m} v room e =
      edge-Checked now (not (status == 0)) m.state_tracker.lo_unlock_active code_lo_unlock 0 info
        (record m.state_tracker { lo_unlock_active = not (status == 0) }) {m = m} v room e

  pub check_channel_fault_exceed-Checked :
      (info : List ℕ) (count : ℕ) {m : Manager}
      → IsConsistent m
      → m.alarm_count < 64
      → is_active m code_channel_fault_exceed 0 ≡ m.state_tracker.channel_fault_exceed_active
      → Checked
          (ltb config.channel_fault_threshold count)
          code_channel_fault_exceed
          0
          (record m.state_tracker {
            channel_fault_exceed_active = ltb config.channel_fault_threshold count;
          })
          m
          (check_channel_fault_exceed (λ m. m) now config info count m).0
  unfolding check_channel_fault_exceed
  check_channel_fault_exceed-Checked info count {m} v room e =
      edge-Checked now (ltb config.channel_fault_threshold count)
        m.state_tracker.channel_fault_exceed_active code_channel_fault_exceed 0 info
        (record m.state_tracker {
          channel_fault_exceed_active = ltb config.channel_fault_threshold count;
        })
        {m = m} v room e

  pub check_over_temperature-Checked :
      (info : List ℕ) (probe temperature : ℕ) {m : Manager}
      → IsConsistent m
      → m.alarm_count < 64
      → probe < 10
      → is_active m code_over_temperature probe
        ≡ get_or m.state_tracker.over_temperature probe false
      → Checked
          (is_hot config temperature)
          code_over_temperature
          probe
          (record m.state_tracker {
            over_temperature =
                set m.state_tracker.over_temperature probe (is_hot config temperature);
          })
          m
          (check_over_temperature (λ m. m) now config info probe temperature m).0
  unfolding check_over_temperature
  check_over_temperature-Checked info probe temperature {m} v room small e =
      let valid : leb 10 probe ≡ false = ground arith in
      rw valid (
        edge-Checked now (is_hot config temperature)
          (get_or m.state_tracker.over_temperature probe false) code_over_temperature probe info
          (record m.state_tracker {
            over_temperature =
                set m.state_tracker.over_temperature probe (is_hot config temperature);
          })
          {m = m} v room e)
