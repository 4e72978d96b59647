-- ===== src/Alarm.antt =====
-- s_band_antenna_mgmt/src/alarm_manager.c and include/alarm_manager.h: the table of active alarms,
-- their reports to the BBU, and the edge detection on FPGA telemetry. The manager g_alarm_mgr is
-- passed in and out. While an operation has released the mutex, other threads may change the
-- manager: `other` is what they do. A report that is sent is a value of the result; the clock is an
-- argument. Strings are lists of characters without the final zero.
pub mod Table
pub mod Activity
pub mod Clearing
pub mod Pending
pub mod Edges
pub mod Follow
pub mod Grace
pub mod Readings
pub mod Outcome
mod Tests
use dpb_s_mgmt.Base.{
  ℕ, zero, suc, ◌+◌, ◌-◌, ◌%◌, ◌^◌, Bool, true, false, not, ◌&&◌, ◌||◌, Option, none, some, List,
  [], ◌∷◌, ◌++◌, length, get_or, set, take, replicate, ltb, leb, ◌==◌, if◌then◌else◌, add32, sub32,
  bit_and, Error, general, Result, ok, err,
}

-- `alarm_attribute_t`
pub data Attribute : Type 0 where
  fault event state : Attribute

-- `alarm_record_t`
pub record AlarmRecord : Type 0 where
  pub active : Bool
  pub alarm_code : ℕ
  pub sub_code : ℕ
  pub start_time : ℕ
  pub clear_time : ℕ
  pub reported : Bool
  pub clear_reported : Bool
  pub attribute : Attribute
  pub additional_info : List ℕ

-- A record behind `memset`.
abbrev pub blank : AlarmRecord
blank = record {
  active = false;
  alarm_code = 0;
  sub_code = 0;
  start_time = 0;
  clear_time = 0;
  reported = false;
  clear_reported = false;
  attribute = fault;
  additional_info = [];
}

-- `alarm_state_tracker_t`
pub record Tracker : Type 0 where
  pub lo_unlock_active : Bool
  pub optical_sync_loss : List Bool
  pub over_temperature : List Bool
  pub channel_fault_exceed_active : Bool
  pub tcp_disconnect_active : Bool

-- `alarm_manager_t` without its mutex.
pub record Manager : Type 0 where
  pub records : List AlarmRecord
  pub state_tracker : Tracker
  pub alarm_count : ℕ
  pub total_count : ℕ
  pub tcp_connected : Bool
  pub pending_tcp_alarm : Bool

abbrev pub max_alarm_records : ℕ
max_alarm_records = 64

abbrev pub code_lo_unlock : ℕ
code_lo_unlock = 50001

abbrev pub code_optical_sync_loss : ℕ
code_optical_sync_loss = 1097

abbrev pub code_over_temperature : ℕ
code_over_temperature = 1156

abbrev pub code_version_activate_fail : ℕ
code_version_activate_fail = 1158

abbrev pub code_channel_fault_exceed : ℕ
code_channel_fault_exceed = 1159

abbrev pub code_tcp_disconnect : ℕ
code_tcp_disconnect = 1160

-- The arguments of a call of `alarm_report_to_bbu`; `cleared` is its clear flag.
pub record Report : Type 0 where
  pub alarm_code : ℕ
  pub sub_code : ℕ
  pub cleared : Bool
  pub info : List ℕ

-- The manager that `alarm_manager_init` makes.
pub manager_init : Manager
manager_init = record {
  records = replicate max_alarm_records blank;
  state_tracker = record {
    lo_unlock_active = false;
    optical_sync_loss = replicate 8 false;
    over_temperature = replicate 10 false;
    channel_fault_exceed_active = false;
    tcp_disconnect_active = false;
  };
  alarm_count = 0;
  total_count = 0;
  tcp_connected = false;
  pending_tcp_alarm = false;
}

-- The codes and attributes of `g_alarm_info`.
abbrev alarm_info : List (ℕ × Attribute)
alarm_info =
    (code_lo_unlock, fault)
    ∷ (code_optical_sync_loss, fault)
    ∷ (code_over_temperature, fault)
    ∷ (code_version_activate_fail, fault)
    ∷ (code_channel_fault_exceed, fault)
    ∷ (code_tcp_disconnect, fault)
    ∷ []

attribute_in : List (ℕ × Attribute) → ℕ → Attribute
attribute_in [] code = fault
attribute_in ((c, a) ∷ infos) code = if c == code then a else attribute_in infos code

pub get_attribute : ℕ → Attribute
get_attribute code = attribute_in alarm_info code

-- The tests of the loops of `find_alarm_record` and `find_free_record`.
abbrev pub is_alarm : ℕ → ℕ → AlarmRecord → Bool
is_alarm code sub r = r.active && r.alarm_code == code && r.sub_code == sub

abbrev pub is_free : AlarmRecord → Bool
is_free r = not r.active

pub next : Option ℕ → Option ℕ
next none = none
next (some i) = some (suc i)

-- The first index whose record satisfies the test.
pub find_first : (AlarmRecord → Bool) → List AlarmRecord → Option ℕ
unfolding next
find_first p [] = none
find_first p (r ∷ rs) = let rest = next (find_first p rs) in if p r then some 0 else rest

pub find_alarm_record : ℕ → ℕ → Manager → Option ℕ
find_alarm_record code sub m = find_first (is_alarm code sub) m.records

pub find_free_record : Manager → Option ℕ
find_free_record m = find_first is_free m.records

abbrev pub is_some : Option ℕ → Bool
is_some none = false
is_some (some i) = true

pub is_active : Manager → ℕ → ℕ → Bool
unfolding find_alarm_record
is_active m code sub = is_some (find_alarm_record code sub m)

-- What the first critical section of `alarm_trigger` comes to.
pub data Placed : Type 0 where
  already full : Placed
  placed : ℕ → Placed

-- The record that `alarm_trigger` writes.
abbrev pub new_record : ℕ → ℕ → List ℕ → ℕ → AlarmRecord
new_record code sub info now = record {
  active = true;
  alarm_code = code;
  sub_code = sub;
  start_time = now;
  clear_time = 0;
  reported = false;
  clear_reported = false;
  attribute = get_attribute code;
  additional_info = take 99 info;
}

pub place_in : ℕ → ℕ → List ℕ → ℕ → Manager → Option ℕ → Placed × Manager
place_in code sub info now m none = (full, m)
place_in code sub info now m (some idx) = (
  placed idx,
  record m {
    records = set m.records idx (new_record code sub info now);
    alarm_count = add32 m.alarm_count 1;
    total_count = add32 m.total_count 1;
  },
)

-- The first critical section of `alarm_trigger`.
pub place : ℕ → ℕ → List ℕ → ℕ → Manager → Placed × Manager
unfolding place_in
place code sub info now m =
    if is_active m code sub then (already, m) else place_in code sub info now m (find_free_record m)

-- The record at `idx` is marked as reported if it is still that active alarm.
pub mark_reported : ℕ → ℕ → ℕ → Manager → Manager
mark_reported code sub idx m =
    let r = get_or m.records idx blank in
    if is_alarm code sub r
    then record m { records = set m.records idx (record r { reported = true }) }
    else m

-- What follows the first critical section.
pub announce :
    (Manager → Manager)
    → ℕ
    → ℕ
    → List ℕ
    → Placed × Manager
    → Result (Unit {0}) × Manager × List Report
announce other code sub info (already, m) = (ok tt, m, [])
announce other code sub info (full, m) = (err general, m, [])
announce other code sub info (placed idx, m) =
    if m.tcp_connected
    then (
      ok tt,
      mark_reported code sub idx (other m),
      record { alarm_code = code; sub_code = sub; cleared = false; info = info } ∷ [],
    )
    else if code == code_tcp_disconnect
    then (ok tt, record (other m) { pending_tcp_alarm = true }, [])
    else (ok tt, m, [])

-- `alarm_trigger`
pub trigger :
    (Manager → Manager) → ℕ → ℕ → List ℕ → ℕ → Manager → Result (Unit {0}) × Manager × List Report
trigger other code sub info now m = announce other code sub info (place code sub info now m)

pub clear_at : ℕ → ℕ → ℕ → Manager → Option ℕ → Manager × List Report
clear_at code sub now m none = (m, [])
clear_at code sub now m (some idx) =
    let r = get_or m.records idx blank in
    (
      record m {
        records = set m.records idx (record r { clear_time = now; active = false });
        alarm_count = sub32 m.alarm_count 1;
      },
      (if m.tcp_connected
          then record {
            alarm_code = code;
            sub_code = sub;
            cleared = true;
            info = take 99 r.additional_info;
          }
            ∷ []
          else []),
    )

-- `alarm_clear`; it always returns SUCCESS.
pub clear : ℕ → ℕ → ℕ → Manager → Manager × List Report
unfolding clear_at
clear code sub now m = clear_at code sub now m (find_alarm_record code sub m)
