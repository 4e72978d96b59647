-- ===== src/AlarmQuery/Wanted.antt =====
-- Which alarms a query is answered with.
use dpb_s_mgmt.Base.{
  ℕ, zero, suc, ◌-◌, ◌≤◌, ◌≡◌, refl, Bool, true, false, List, [], ◌∷◌, ◌++◌, length, ltb, ◌==◌,
  if◌then◌else◌, not, ◌&&◌, ◌||◌, arith, Bool-cases, inl, inr, Result, ok, map,
}
use dpb_s_mgmt.Cpri.{Header, encode_message, header_bytes, payload_bytes}
use dpb_s_mgmt.Alarm.Pending.{get_active_alarms}
use dpb_s_mgmt.Alarm.{AlarmRecord, Manager}
use dpb_s_mgmt.AlarmQuery.{
  query_all, alarm_matches_query, report_ie, report_message, not_found, send_alarm_report,
  send_invalid_alarm, sent, report_loop, handle_alarm_query_request,
}

-- The query matches the code and the subcode of an alarm: `query_all` stands for every subcode, and for
-- every code only where it also stands for the subcode.
abbrev pub is_asked : ℕ → ℕ → AlarmRecord → Bool
is_asked code sub r =
    (code == query_all && sub == query_all)
    || (not (code == query_all)
        && (r.alarm_code == code && (sub == query_all || r.sub_code == sub)))

alarm_matches_query-eq :
    (r : AlarmRecord) (code sub : ℕ) → alarm_matches_query r code sub ≡ is_asked code sub r
unfolding alarm_matches_query
alarm_matches_query-eq r code sub = elim (Bool-cases (code == query_all)) [
  | inl every ↦ elim (Bool-cases (sub == query_all)) [
    | inl all ↦ rw (alarm_matches_query, every, all) refl
    | inr one ↦ rw (alarm_matches_query, every, one) refl
  ]
  | inr certain ↦ elim (Bool-cases (sub == query_all)) [
    | inl all ↦ elim (Bool-cases (r.alarm_code == code)) [
      | inl same ↦ rw (alarm_matches_query, certain, all, same) refl
      | inr differs ↦ rw (alarm_matches_query, certain, all, differs) refl
    ]
    | inr one ↦ rw (alarm_matches_query, certain, one) refl
  ]
]

-- The alarms that a query gets: active, raised at most a day ago, and matched by the query.
abbrev pub is_wanted : ℕ → ℕ → ℕ → AlarmRecord → Bool
is_wanted now code sub r = r.active && (not (ltb 86400 (now - r.start_time)) && is_asked code sub r)

abbrev pub select {ℓ} : {A : Type ℓ} → (A → Bool) → List A → List A
select p [] = []
select p (x ∷ xs) = if p x then x ∷ select p xs else select p xs

module _ (format_time : ℕ → List ℕ) where
  -- The bytes of a message with a report.
  abbrev pub report_bytes : Header → List ℕ → List ℕ
  report_bytes h ie =
      let msg = report_message h ie in header_bytes msg.header 153 ++ payload_bytes msg.payload 138

  abbrev pub report_of : Header → AlarmRecord → List ℕ
  report_of h r =
      report_bytes h
        (report_ie 0 r.alarm_code r.sub_code 0 (format_time r.start_time) r.additional_info)

  -- All reports, or the one that says that there are none.
  abbrev pub answers : ℕ → Header → ℕ → ℕ → List AlarmRecord → List (List ℕ)
  answers now h code sub [] =
      report_bytes h (report_ie 1 code sub 1 (format_time now) not_found) ∷ []
  answers now h code sub (r ∷ rs) = map (report_of h) (r ∷ rs)

  report_loop-wanted :
      (now : ℕ) (h : Header) (code sub room : ℕ) (rs : List AlarmRecord)
      → length rs ≤ room
      → report_loop format_time now h code sub (get_active_alarms rs room) ≡ (
        length (select (is_wanted now code sub) rs),
        map (report_of h) (select (is_wanted now code sub) rs),
      )
  unfolding report_loop get_active_alarms alarm_matches_query send_alarm_report encode_message
  report_loop-wanted now h code sub room [] e = refl
  report_loop-wanted now h code sub zero (r ∷ rs) e = absurd (omega arith)
  report_loop-wanted now h code sub (suc room) (r ∷ rs) e = elim (Bool-cases r.active) [
    | inr off ↦
        rw (get_active_alarms, off) (report_loop-wanted now h code sub (suc room) rs (omega arith))
    | inl on ↦
        let rest = report_loop-wanted now h code sub room rs (omega arith) in
        let matches = alarm_matches_query-eq r code sub in
        elim (Bool-cases (is_asked code sub r)) [
          | inr unasked ↦ elim (Bool-cases (ltb 86400 (now - r.start_time))) [
            | inl old ↦ simp (get_active_alarms, report_loop, on, matches, unasked, old) rest
            | inr fresh ↦ simp (get_active_alarms, report_loop, on, matches, unasked, fresh) rest
          ]
          | inl asked ↦ elim (Bool-cases (ltb 86400 (now - r.start_time))) [
            | inl old ↦ simp (get_active_alarms, report_loop, on, matches, asked, old) rest
            | inr fresh ↦
                simp
                  (
                    get_active_alarms, report_loop, on, matches, asked, fresh, send_alarm_report,
                    encode_message, rest,
                  )
                  refl
          ]
        ]
  ]

  abbrev closing : ℕ → List (List ℕ) → Result (List ℕ) → Result (Unit {0}) × List (List ℕ)
  closing n out invalid = if n == 0 then (ok tt, out ++ sent format_time invalid) else (ok tt, out)

  finished :
      (now : ℕ) (h : Header) (code sub : ℕ) (rs : List AlarmRecord)
      → closing (length rs) (map (report_of h) rs) (send_invalid_alarm format_time now h code sub)
        ≡ (ok tt, answers now h code sub rs)
  unfolding send_invalid_alarm encode_message
  finished now h code sub [] = refl
  finished now h code sub (r ∷ rs) =
      let more : (suc (length rs) == 0) ≡ false = ground arith in rw more refl

  -- In an initialised module, for a table of at most 64 records, a query is answered with one report for
  -- every alarm of the table that is active, was raised at most a day ago and is matched by the query, in
  -- the order of the table, and with exactly one report of an invalid alarm where there is none. A query
  -- matches every alarm when its code and its subcode are both `ALARM_QUERY_ALL`, the alarms of its code
  -- when only the subcode is, the alarm of both when neither is, and nothing when only the code is.
  pub handle_alarm_query_request-answers :
      (now : ℕ) (h : Header) (code sub : ℕ) (m : Manager)
      → length m.records ≤ 64
      → handle_alarm_query_request format_time true now h code sub m
        ≡ (ok tt, answers now h code sub (select (is_wanted now code sub) m.records))
  unfolding handle_alarm_query_request
  handle_alarm_query_request-answers now h code sub m few =
      let found = report_loop-wanted now h code sub 64 m.records few in
      rw (handle_alarm_query_request, found)
        (finished now h code sub (select (is_wanted now code sub) m.records))
