-- ===== src/Alarm/Outcome.antt =====
-- Which alarms are active behind the periodic check.
use dpb_s_mgmt.Base.{
  ℕ, ◌+◌, ◌≤◌, ◌<◌, ◌≡◌, ◌≢◌, refl, ◌∙◌, Bool, false, not, List, get_or, ltb, ◌==◌, if◌then◌else◌,
}
use dpb_s_mgmt.Alarm.{
  Manager, Tracker, Report, is_active, code_lo_unlock, code_over_temperature,
  code_channel_fault_exceed, code_optical_sync_loss,
}
use dpb_s_mgmt.Alarm.Table.{IsConsistent}
use dpb_s_mgmt.Alarm.Activity.{same}
use dpb_s_mgmt.Alarm.Edges.{
  check_optical_sync_loss, check_channel_fault_exceed, Config, check_lo_unlock,
  check_over_temperature,
}
use dpb_s_mgmt.Alarm.Grace.{Grace, Telemetry, ◌then_do◌}
use dpb_s_mgmt.Alarm.Readings.{Checked, is_hot}

-- A consistent table with room for five alarms more, and a tracker that agrees with it.
pub record InStep (m : Manager) : Type 0 where
  pub consistent : IsConsistent m
  pub room : m.alarm_count + 5 ≤ 64
  pub lo : is_active m code_lo_unlock 0 ≡ m.state_tracker.lo_unlock_active
  pub probe :
      (k : ℕ)
      → k < 3
      → is_active m code_over_temperature k ≡ get_or m.state_tracker.over_temperature k false
  pub channel :
      is_active m code_channel_fault_exceed 0 ≡ m.state_tracker.channel_fault_exceed_active

-- What the telemetry says of an alarm, and what was the case before for those of which it says nothing.
abbrev pub told : Config → Telemetry → Manager → ℕ → ℕ → Bool
told config t m c s =
    if same code_channel_fault_exceed 0 c s
    then ltb config.channel_fault_threshold t.channel_fault_count
    else if same code_over_temperature 2 c s
    then is_hot config t.temp3
    else if same code_over_temperature 1 c s
    then is_hot config t.temp2
    else if same code_over_temperature 0 c s
    then is_hot config t.temp1
    else if same code_lo_unlock 0 c s
    then not (t.lo_lock_status == 0)
    else is_active m c s

-- An alarm that a check is not about is as before.
Checked-other :
    (current : Bool) (code sub : ℕ) (t : Tracker) (m m' : Manager) (c s : ℕ)
    → Checked current code sub t m m'
    → same code sub c s ≡ false
    → is_active m' c s ≡ is_active m c s
Checked-other current code sub t m m' c s k e = k.follows.active c s ∙ rw e refl

-- Of the alarms, at most those of lost optical links have changed.
IsQuiet : Manager → Manager → Type 0
IsQuiet m m' =
    IsConsistent m' × ((c s : ℕ) → c ≢ code_optical_sync_loss → is_active m' c s ≡ is_active m c s)

module _ (now : ℕ) (config : Config) (info : ℕ → ℕ → List ℕ) where
  port : ℕ → Bool → Manager → Manager × List Report
  port k sync m = check_optical_sync_loss (λ m. m) now (info code_optical_sync_loss k) k sync m

  -- The checks in front of the optical ports.
  abbrev readings : Telemetry → Manager → Manager × List Report
  readings t m =
      check_lo_unlock (λ m. m) now (info code_lo_unlock 0) t.lo_lock_status m
      then_do check_over_temperature (λ m. m) now config (info code_over_temperature 0) 0 t.temp1
      then_do check_over_temperature (λ m. m) now config (info code_over_temperature 1) 1 t.temp2
      then_do check_over_temperature (λ m. m) now config (info code_over_temperature 2) 2 t.temp3
      then_do check_channel_fault_exceed (λ m. m) now config (info code_channel_fault_exceed 0)
          t.channel_fault_count
