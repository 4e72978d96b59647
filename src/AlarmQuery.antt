-- ===== src/AlarmQuery.antt =====
-- s_band_antenna_mgmt/src/alarm_query.c and include/alarm_query.h: what a query of the alarms is answered
-- with. The clock is an argument; the text of a time, which `localtime_r` and `strftime` make, is the
-- parameter `format_time`. A message that is sent is a value of the result.
pub mod Wanted
mod Tests
use dpb_s_mgmt.Base.{
  ℕ, zero, suc, ◌+◌, ◌-◌, Bool, true, false, Option, none, some, List, [], ◌∷◌, ◌++◌, length, take,
  replicate, ltb, ◌==◌, if◌then◌else◌, not, ◌&&◌, u16_le, u32_le, Error, not_initialized, Result,
  ok, err,
}
use dpb_s_mgmt.Cpri.{Header, Message, encode_message}
use dpb_s_mgmt.Alarm.Pending.{get_active_alarms}
use dpb_s_mgmt.Alarm.{AlarmRecord, Manager, max_alarm_records}

-- `ALARM_QUERY_ALL`
abbrev pub query_all : ℕ
query_all = 0xFFFFFFFF

-- `alarm_matches_query`
unfoldable pub alarm_matches_query : AlarmRecord → ℕ → ℕ → Bool
alarm_matches_query r query_code query_subcode =
    if query_code == query_all && query_subcode == query_all
    then true
    else if not (query_code == query_all) && query_subcode == query_all
    then r.alarm_code == query_code
    else if not (query_code == query_all) && not (query_subcode == query_all)
    then r.alarm_code == query_code && r.sub_code == query_subcode
    else false

-- A text in an array of `n` bytes that was zero, with a zero at its end.
abbrev pub in_array : ℕ → List ℕ → List ℕ
in_array n text = take n (take (n - 1) text ++ replicate n 0)

-- `ie_alarm_report_t`
abbrev pub report_ie : ℕ → ℕ → ℕ → ℕ → List ℕ → List ℕ → List ℕ
report_ie validity alarm_code sub_code clear_flag timestamp info =
    u16_le validity
    ++ (u32_le alarm_code
        ++ (u32_le sub_code ++ (u32_le clear_flag ++ (in_array 20 timestamp ++ in_array 100 info))))

-- The message that carries a report: `MSG_ALARM_REPORT_REQ_ACK` with the element 1001 of 138 bytes.
abbrev pub report_message : Header → List ℕ → Message (List ℕ)
report_message h ie = record {
  header = record {
    msg_id = 122;
    msg_length = 0;
    paau_id = h.paau_id;
    bbu_id = h.bbu_id;
    port_num = h.port_num;
    serial_num = h.serial_num;
  };
  payload = some (u16_le 1001 ++ (u16_le 138 ++ ie));
  payload_len = 138;
}

-- "Alarm not found or already cleared"
abbrev pub not_found : List ℕ
not_found =
    65 ∷ 108 ∷ 97 ∷ 114 ∷ 109 ∷ 32 ∷ 110 ∷ 111 ∷ 116 ∷ 32 ∷ 102 ∷ 111 ∷ 117 ∷ 110 ∷ 100 ∷ 32 ∷ 111
    ∷ 114 ∷ 32 ∷ 97 ∷ 108 ∷ 114 ∷ 101 ∷ 97 ∷ 100 ∷ 121 ∷ 32 ∷ 99 ∷ 108 ∷ 101 ∷ 97 ∷ 114 ∷ 101 ∷ 100
    ∷ []

module _ (format_time : ℕ → List ℕ) where
  -- `send_alarm_report_from_record`: the bytes that are sent, or ERROR_GENERAL.
  unfoldable pub send_alarm_report : Header → AlarmRecord → Result (List ℕ)
  send_alarm_report h r =
      encode_message
        (report_message h (
          report_ie 0 r.alarm_code r.sub_code (if r.active then 0 else 1) (format_time r.start_time)
            r.additional_info))
        2048

  -- `send_invalid_alarm_response`
  unfoldable pub send_invalid_alarm : ℕ → Header → ℕ → ℕ → Result (List ℕ)
  send_invalid_alarm now h alarm_code sub_code =
      encode_message
        (report_message h (report_ie 1 alarm_code sub_code 1 (format_time now) not_found)) 2048

  abbrev pub sent : Result (List ℕ) → List (List ℕ)
  sent (ok bytes) = bytes ∷ []
  sent (err e) = []

  -- The number of reports, and what was sent.
  abbrev pub counted : Result (List ℕ) → ℕ × List (List ℕ) → ℕ × List (List ℕ)
  counted (ok bytes) (n, out) = (suc n, bytes ∷ out)
  counted (err e) (n, out) = (n, out)

  -- The loop over the active alarms.
  unfoldable pub report_loop : ℕ → Header → ℕ → ℕ → List AlarmRecord → ℕ × List (List ℕ)
  report_loop now h query_code query_subcode [] = (0, [])
  report_loop now h query_code query_subcode (r ∷ rs) =
      let rest = report_loop now h query_code query_subcode rs in
      if not r.active
      then rest
      else if not (alarm_matches_query r query_code query_subcode)
      then rest
      else if ltb 86400 (now - r.start_time)
      then rest
      else counted (send_alarm_report h r) rest

  -- `handle_alarm_query_request`: what it returns, and what is sent.
  unfoldable pub handle_alarm_query_request :
      Bool → ℕ → Header → ℕ → ℕ → Manager → Result (Unit {0}) × List (List ℕ)
  handle_alarm_query_request initialized now h query_code query_subcode m =
      let alarms = get_active_alarms m.records max_alarm_records in
      let (n, out) = report_loop now h query_code query_subcode alarms in
      if not initialized
      then (err not_initialized, [])
      else if n == 0
      then (ok tt, out ++ sent (send_invalid_alarm now h query_code query_subcode))
      else (ok tt, out)
