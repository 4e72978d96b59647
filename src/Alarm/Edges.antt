-- ===== src/Alarm/Edges.antt =====
-- The functions of alarm_manager.c that turn the FPGA's readings and the state of the TCP connection
-- into alarms at their edges. What `snprintf` writes as an alarm's text is a parameter. They run in
-- one thread; `other` is what other threads do while the mutex is released for a report.
use dpb_s_mgmt.Base.{
  ℕ, ◌+◌, ◌%◌, Bool, true, false, not, ◌&&◌, ◌||◌, Option, none, some, List, [], get_or, set, ltb,
  leb, ◌==◌, if◌then◌else◌, Result,
}
use dpb_s_mgmt.Alarm.{
  Manager, Report, trigger, clear, code_lo_unlock, code_optical_sync_loss, code_over_temperature,
  code_version_activate_fail, code_channel_fault_exceed, code_tcp_disconnect,
}

-- `alarm_config_t`; the temperatures are the bit patterns of an int8_t.
pub record Config : Type 0 where
  pub channel_fault_threshold : ℕ
  pub over_temp_threshold_high : ℕ
  pub over_temp_threshold_low : ℕ
  pub link_grace_sec : ℕ
  pub optical_port_count : ℕ

-- The configuration that `alarm_manager_init` keeps, of what its caller passes.
pub config_init : Option Config → Config
config_init none = record {
  channel_fault_threshold = 10;
  over_temp_threshold_high = 85;
  over_temp_threshold_low = 216;
  link_grace_sec = 10;
  optical_port_count = 4;
}
config_init (some c) =
    if not (c.optical_port_count == 4) && not (c.optical_port_count == 8)
    then record c { optical_port_count = 4 }
    else c

-- `a < b` for two int8_t, given by their bit patterns.
abbrev pub less_int8 : ℕ → ℕ → Bool
less_int8 a b = ltb ((a + 128) % 256) ((b + 128) % 256)

-- The callers do not read the status that `alarm_trigger` returns.
unfoldable pub without_status : Result (Unit {0}) × Manager × List Report → Manager × List Report
without_status (status, m, reports) = (m, reports)

module _ (other : Manager → Manager) (now : ℕ) where
  -- The edge of a tracked state: the alarm is triggered where the state appears, and cleared where it
  -- goes. `m` is the manager with the tracker already set to `current`.
  unfoldable pub edge : Bool → Bool → ℕ → ℕ → List ℕ → Manager → Manager × List Report
  unfolding without_status
  edge current prev code sub info m =
      if current && not prev
      then without_status (trigger other code sub info now m)
      else if not current && prev
      then clear code sub now m
      else (m, [])

  unfoldable pub check_lo_unlock : List ℕ → ℕ → Manager → Manager × List Report
  check_lo_unlock info lo_lock_status m =
      let current = not (lo_lock_status == 0) in
      let tracker = record m.state_tracker { lo_unlock_active = current } in
      edge current m.state_tracker.lo_unlock_active code_lo_unlock 0 info
        (record m { state_tracker = tracker })

  unfoldable pub check_optical_sync_loss : List ℕ → ℕ → Bool → Manager → Manager × List Report
  check_optical_sync_loss info port sync_status m =
      if leb 8 port
      then (m, [])
      else (let ports = m.state_tracker.optical_sync_loss in
          let tracker = record m.state_tracker {
            optical_sync_loss = set ports port (not sync_status);
          } in
          edge (not sync_status) (get_or ports port false) code_optical_sync_loss port info
            (record m { state_tracker = tracker }))

  unfoldable pub check_over_temperature : Config → List ℕ → ℕ → ℕ → Manager → Manager × List Report
  check_over_temperature config info probe temperature m =
      if leb 10 probe
      then (m, [])
      else (let probes = m.state_tracker.over_temperature in
          let current =
            less_int8 config.over_temp_threshold_high temperature
            || less_int8 temperature config.over_temp_threshold_low in
          let tracker = record m.state_tracker { over_temperature = set probes probe current } in
          edge current (get_or probes probe false) code_over_temperature probe info
            (record m { state_tracker = tracker }))

  unfoldable pub check_channel_fault_exceed : Config → List ℕ → ℕ → Manager → Manager × List Report
  check_channel_fault_exceed config info fault_count m =
      let current = ltb config.channel_fault_threshold fault_count in
      let tracker = record m.state_tracker { channel_fault_exceed_active = current } in
      edge current m.state_tracker.channel_fault_exceed_active code_channel_fault_exceed 0 info
        (record m { state_tracker = tracker })

  pub trigger_version_activate_fail : List ℕ → Manager → Manager × List Report
  unfolding without_status
  trigger_version_activate_fail info m =
      without_status (trigger other code_version_activate_fail 0 info now m)

  pub trigger_tcp_disconnect : List ℕ → Manager → Manager × List Report
  unfolding without_status
  trigger_tcp_disconnect info m =
      let tracker = record m.state_tracker { tcp_disconnect_active = true } in
      let m' = record m { state_tracker = tracker } in
      if m.state_tracker.tcp_disconnect_active
      then (m', [])
      else without_status (trigger other code_tcp_disconnect 0 info now m')

  pub clear_tcp_disconnect : Manager → Manager × List Report
  clear_tcp_disconnect m =
      let tracker = record m.state_tracker { tcp_disconnect_active = false } in
      let m' = record m { state_tracker = tracker } in
      if m.state_tracker.tcp_disconnect_active then clear code_tcp_disconnect 0 now m' else (m', [])
