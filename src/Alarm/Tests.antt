-- ===== src/Alarm/Tests.antt =====
-- Runs of alarm_manager.c on small inputs.
use dpb_s_mgmt.Base.{
  ℕ, zero, suc, ◌<◌, ◌≡◌, refl, true, false, ◌||◌, [], ◌∷◌, arith, replicate, get_or, not,
}
use dpb_s_mgmt.Alarm.{
  Manager, blank, manager_init, is_active, find_alarm_record, find_first, next, trigger, clear,
  code_lo_unlock, code_over_temperature,
}
use dpb_s_mgmt.Alarm.Table.{tally, IsConsistent}
use dpb_s_mgmt.Alarm.Activity.{Triggered, trigger-Triggered, trigger-IsConsistent}
use dpb_s_mgmt.Alarm.Clearing.{Cleared, clear-Cleared}
use dpb_s_mgmt.Alarm.Pending.{
  is_pending, pending_reports, report_all_pending, report_all_pending-Reported,
}
use dpb_s_mgmt.Alarm.Edges.{Config, less_int8, check_over_temperature}
use dpb_s_mgmt.Alarm.Grace.{Telemetry}
use dpb_s_mgmt.Alarm.Outcome.{told}
use dpb_s_mgmt.Alarm.Follow.{Follows, check_over_temperature-Follows}

tally-blank : (n code sub : ℕ) → tally (λ r. r.active) (replicate n blank) ≡ 0
unfolding tally
tally-blank zero code sub = refl
tally-blank (suc n) code sub = omega (arith, tally-blank n code sub)

entries-blank : (n code sub : ℕ) → tally (λ r. not (not r.active)) (replicate n blank) ≡ 0
unfolding tally
entries-blank zero code sub = refl
entries-blank (suc n) code sub = omega (arith, entries-blank n code sub)

-- A table that `alarm_manager_init` has cleared, with the TCP connection up.
abbrev start : Manager
start = record manager_init { tcp_connected = true }

start-IsConsistent : IsConsistent start
unfolding manager_init tally
start-IsConsistent = record { size = refl; counted = refl; once = λ code sub. omega arith }

-- The local oscillator's alarm appears on the empty table.
abbrev unlocked : Manager
unlocked = (trigger (λ m. m) code_lo_unlock 0 (76 ∷ 79 ∷ []) 5 start).1

unlocked-IsConsistent : IsConsistent unlocked
unlocked-IsConsistent =
    trigger-IsConsistent (λ m. m) code_lo_unlock 0 (76 ∷ 79 ∷ []) 5 (λ m v. v) start-IsConsistent

-- While the report is sent, another thread clears the alarm.
trigger-IsConsistent_example :
    IsConsistent
      (trigger (λ m. (clear code_lo_unlock 0 6 m).0) code_lo_unlock 0 (76 ∷ 79 ∷ []) 5 start).1
trigger-IsConsistent_example =
    trigger-IsConsistent (λ m. (clear code_lo_unlock 0 6 m).0) code_lo_unlock 0 (76 ∷ 79 ∷ []) 5
      (λ m v. (clear-Cleared code_lo_unlock 0 6 v).consistent) start-IsConsistent

trigger-Triggered_example :
    Triggered code_over_temperature 2 unlocked
      (trigger (λ m. m) code_over_temperature 2 (84 ∷ []) 9 unlocked)
trigger-Triggered_example =
    trigger-Triggered code_over_temperature 2 (84 ∷ []) 9 unlocked-IsConsistent

clear-Cleared_example : Cleared code_lo_unlock 0 unlocked (clear code_lo_unlock 0 8 unlocked).0
clear-Cleared_example = clear-Cleared code_lo_unlock 0 8 unlocked-IsConsistent

report_all_pending-Reported_example :
    let (last, count, reports) = report_all_pending (λ r. true) (λ m. m) unlocked in
    (tally is_pending last.records ≡ 0)
    × (count ≡ tally is_pending unlocked.records)
    × (reports ≡ pending_reports unlocked.records)
report_all_pending-Reported_example =
    report_all_pending-Reported (λ r. true) unlocked (λ r. refl) unlocked-IsConsistent.size

few-start : start.alarm_count < 64
unfolding manager_init
few-start = omega arith

in_step-start : is_active start code_lo_unlock 0 ≡ start.state_tracker.lo_unlock_active
unfolding manager_init is_active find_alarm_record find_first next
in_step-start = refl

in_step-probe :
    is_active start code_over_temperature 1 ≡ get_or start.state_tracker.over_temperature 1 false
unfolding manager_init is_active find_alarm_record find_first next
in_step-probe = refl

abbrev limits : Config
limits = record {
  channel_fault_threshold = 10;
  over_temp_threshold_high = 85;
  over_temp_threshold_low = 216;
  link_grace_sec = 10;
  optical_port_count = 4;
}

-- 200 is the bit pattern of -56, below the limit of -40.
check_over_temperature-Follows_example :
    Follows
      (less_int8 85 200 || less_int8 200 216)
      code_over_temperature
      1
      start
      (check_over_temperature (λ m. m) 3 limits (84 ∷ []) 1 200 start).0
check_over_temperature-Follows_example =
    check_over_temperature-Follows 3 limits (84 ∷ []) 1 200 {m = start} start-IsConsistent few-start
      (omega arith) in_step-probe

abbrev hot : Telemetry
hot = record {
  lo_lock_status = 1;
  temp1 = 90;
  temp2 = 25;
  temp3 = 200;
  channel_fault_count = 11;
  link_success_flag = 5;
}

told-hot : told limits hot start code_over_temperature 0 ≡ true
told-hot = refl
