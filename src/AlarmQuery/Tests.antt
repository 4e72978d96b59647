-- ===== src/AlarmQuery/Tests.antt =====
-- Runs of the queries, and their theorem at a concrete input.
use dpb_s_mgmt.Base.{◌≡◌, refl, true, false, [], ◌∷◌, ok, arith}
use dpb_s_mgmt.Cpri.{Header}
use dpb_s_mgmt.Alarm.{AlarmRecord, Manager, blank}
use dpb_s_mgmt.AlarmQuery.{query_all, alarm_matches_query, handle_alarm_query_request}
use dpb_s_mgmt.AlarmQuery.Wanted.{answers, select, is_wanted, handle_alarm_query_request-answers}

abbrev unlocked : AlarmRecord
unlocked = record blank { active = true; alarm_code = 50001; sub_code = 1; start_time = 100 }

abbrev table : Manager
table = record {
  records = blank ∷ unlocked ∷ record unlocked { alarm_code = 1097; start_time = 90000 } ∷ [];
  state_tracker = record {
    lo_unlock_active = true;
    optical_sync_loss = [];
    over_temperature = [];
    channel_fault_exceed_active = false;
    tcp_disconnect_active = false;
  };
  alarm_count = 2;
  total_count = 2;
  tcp_connected = true;
  pending_tcp_alarm = false;
}

abbrev query_header : Header
query_header = record {
  msg_id = 121;
  msg_length = 27;
  paau_id = 0;
  bbu_id = 1;
  port_num = 2;
  serial_num = 3;
}

-- A subcode without a code asks for nothing.
no_code : alarm_matches_query unlocked query_all 1 ≡ false
unfolding alarm_matches_query
no_code = refl

handle_alarm_query_request-answers_example :
    handle_alarm_query_request (λ t. t ∷ []) true 90001 query_header query_all query_all table ≡ (
      ok tt,
      answers
          (λ t. t ∷ [])
          90001
          query_header
          query_all
          query_all
          (select (is_wanted 90001 query_all query_all) table.records),
    )
handle_alarm_query_request-answers_example =
    handle_alarm_query_request-answers (λ t. t ∷ []) 90001 query_header query_all query_all table
      (omega arith)
