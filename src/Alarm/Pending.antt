-- ===== src/Alarm/Pending.antt =====
-- `alarm_report_all_pending`, `alarm_set_tcp_status` and `alarm_get_active_alarms` of
-- alarm_manager.c: the operations that go through the whole table.
use dpb_s_mgmt.Base.{
  ℕ, zero, suc, ◌+◌, ◌<◌, ◌≡◌, refl, ap, ◌∙◌, Bool-cases, inl, inr, set, drop, drop_all, length-set,
  Bool, true, false, not, ◌&&◌, List, [], ◌∷◌, length, get_or, if◌then◌else◌, arith,
}
use dpb_s_mgmt.Alarm.{
  AlarmRecord, Manager, Report, blank, max_alarm_records, is_alarm, mark_reported,
}
use dpb_s_mgmt.Alarm.Table.{bit, tally, tally-set}

-- The loop of `alarm_report_all_pending`, from slot `i` on, with the rounds that are left; `sends` is
-- whether `alarm_report_to_bbu` returns SUCCESS.
report_from : (Report → Bool) → (Manager → Manager) → ℕ → ℕ → Manager → Manager × ℕ × List Report
report_from sends other i zero m = (m, 0, [])
report_from sends other i (suc rounds) m =
    let r = get_or m.records i blank in
    let rep : Report = record {
      alarm_code = r.alarm_code;
      sub_code = r.sub_code;
      cleared = false;
      info = r.additional_info;
    } in
    let pending : Bool = r.active && not r.reported in
    let m' : Manager =
      if pending
      then (if sends rep then mark_reported r.alarm_code r.sub_code i (other m) else other m)
      else m in
    let (last, count, reports) = report_from sends other (suc i) rounds m' in
    (
      last,
      (if pending && sends rep then count + 1 else count),
      (if pending then rep ∷ reports else reports),
    )

-- `alarm_report_all_pending`
pub report_all_pending : (Report → Bool) → (Manager → Manager) → Manager → Manager × ℕ × List Report
unfolding report_from
report_all_pending sends other m =
    let (last, count, reports) = report_from sends other 0 max_alarm_records m in
    (record last { pending_tcp_alarm = false }, count, reports)

-- `alarm_set_tcp_status`
pub set_tcp_status : (Report → Bool) → (Manager → Manager) → Bool → Manager → Manager × List Report
set_tcp_status sends other connected m =
    let m' = record m { tcp_connected = connected } in
    if connected && not m.tcp_connected
    then (let (last, count, reports) = report_all_pending sends other m' in (last, reports))
    else (m', [])

-- `alarm_get_active_alarms`, with the array's size.
unfoldable pub get_active_alarms : List AlarmRecord → ℕ → List AlarmRecord
get_active_alarms [] max_count = []
get_active_alarms (r ∷ rs) zero = []
get_active_alarms (r ∷ rs) (suc max_count) =
    let shown = get_active_alarms rs max_count in
    let others = get_active_alarms rs (suc max_count) in if r.active then r ∷ shown else others

-- An active alarm that has not been reported.
abbrev pub is_pending : AlarmRecord → Bool
is_pending r = r.active && not r.reported

tally-drop :
    (p : AlarmRecord → Bool) (rs : List AlarmRecord) (i : ℕ)
    → i < length rs
    → tally p (drop i rs) ≡ bit (p (get_or rs i blank)) + tally p (drop (suc i) rs)
unfolding tally
tally-drop p [] i h = absurd (omega arith)
tally-drop p (r ∷ rs) zero h = refl
tally-drop p (r ∷ rs) (suc i) h = tally-drop p rs i (omega arith)

drop-set_below :
    (i : ℕ) (rs : List AlarmRecord) (r : AlarmRecord) → drop (suc i) (set rs i r) ≡ drop (suc i) rs
drop-set_below i [] r = refl
drop-set_below zero (x ∷ rs) r = refl
drop-set_below (suc i) (x ∷ rs) r = drop-set_below i rs r

-- The record at `i` of a manager is reported, if it is pending.
after_slot : Manager → ℕ → Manager
after_slot m i =
    let r = get_or m.records i blank in
    if is_pending r then mark_reported r.alarm_code r.sub_code i m else m

after_slot_lem :
    (m : Manager) (i : ℕ)
    → i < length m.records
    → let m' = after_slot m i in
      (length m'.records ≡ length m.records)
      × (drop (suc i) m'.records ≡ drop (suc i) m.records)
      × (tally is_pending m'.records + bit (is_pending (get_or m.records i blank))
          ≡ tally is_pending m.records)
unfolding after_slot mark_reported
after_slot_lem m i h =
    let r : AlarmRecord = get_or m.records i blank in
    let r' : AlarmRecord = record r { reported = true } in
    elim (Bool-cases (is_pending r)) [
      | inr idle ↦ rw idle (refl, refl, omega arith)
      | inl pending ↦
          let it : is_alarm r.alarm_code r.sub_code r ≡ true = ground arith in
          rw (pending, it)
            (
              length-set m.records i r',
              drop-set_below i m.records r',
              ground (arith, tally-set is_pending m.records i r' h),
            )
    ]

-- The reports of the pending alarms of a table, in its order: each of its alarm, as raised, with its text.
abbrev pub pending_reports : List AlarmRecord → List Report
pending_reports [] = []
pending_reports (r ∷ rs) =
    let behind = pending_reports rs in
    if is_pending r
    then record {
      alarm_code = r.alarm_code;
      sub_code = r.sub_code;
      cleared = false;
      info = r.additional_info;
    }
      ∷ behind
    else behind

drop-get_or :
    (rs : List AlarmRecord) (i : ℕ)
    → i < length rs
    → drop i rs ≡ get_or rs i blank ∷ drop (suc i) rs
drop-get_or [] i h = absurd (omega arith)
drop-get_or (r ∷ rs) zero h = refl
drop-get_or (r ∷ rs) (suc i) h = drop-get_or rs i (omega arith)

-- What the loop has done from slot `i` on.
abbrev Reported : ℕ → Manager → Manager × ℕ × List Report → Type 0
Reported i m (last, count, reports) =
    (count + tally is_pending last.records ≡ tally is_pending m.records)
    × (count ≡ tally is_pending (drop i m.records))
    × (reports ≡ pending_reports (drop i m.records))

Reported-slot :
    (i : ℕ) (m : Manager) (pending : Bool) (o : Manager × ℕ × List Report)
    → pending ≡ is_pending (get_or m.records i blank)
    → i < length m.records
    → Reported (suc i) (after_slot m i) o
    → let (last, count, reports) = o in
      let r = get_or m.records i blank in
      let rep : Report = record {
        alarm_code = r.alarm_code;
        sub_code = r.sub_code;
        cleared = false;
        info = r.additional_info;
      } in
      Reported i m (
        last,
        (if pending && true then count + 1 else count),
        (if pending then rep ∷ reports else reports),
      )
Reported-slot i m pending (last, count, reports) e h s =
    let a = after_slot_lem m i h in
    let behind : tally is_pending (drop (suc i) (after_slot m i).records)
        ≡ tally is_pending (drop (suc i) m.records) =
      ap (tally is_pending) a.1 in
    let rest : reports ≡ pending_reports (drop (suc i) m.records) = s.2 ∙ ap pending_reports a.1 in
    (
      ground (arith, e, s.0, s.1, a.2, behind, tally-drop is_pending m.records i h),
      ground (arith, e, s.0, s.1, a.2, behind, tally-drop is_pending m.records i h),
      rw (drop-get_or m.records i h, rest, e) refl,
    )

report_from-Reported :
    (sends : Report → Bool) (i rounds : ℕ) (m : Manager)
    → ((r : Report) → sends r ≡ true)
    → i + rounds ≡ length m.records
    → Reported i m (report_from sends (λ m. m) i rounds m)
unfolding report_from after_slot tally
report_from-Reported sends i zero m all e =
    let nothing : drop i m.records ≡ [] = drop_all i m.records (omega arith) in
    (omega arith, rw nothing refl, rw nothing refl)
report_from-Reported sends i (suc rounds) m all e =
    let r : AlarmRecord = get_or m.records i blank in
    let rep : Report = record {
      alarm_code = r.alarm_code;
      sub_code = r.sub_code;
      cleared = false;
      info = r.additional_info;
    } in
    rw (all rep) (
      Reported-slot i m (is_pending r) (report_from sends (λ m. m) (suc i) rounds (after_slot m i))
        refl (omega arith)
        (report_from-Reported sends (suc i) rounds (after_slot m i) all
          (omega (arith, after_slot_lem m i (omega arith)))))

-- `alarm_report_all_pending` on a table of 64 slots, where every report succeeds and no other thread
-- comes in between: for each active alarm that has not been reported, in the order of the table, it
-- sends one report, of that alarm as raised, with its code, its subcode and its text, and sends no other;
-- it returns their number, and leaves no such alarm behind.
pub report_all_pending-Reported :
    (sends : Report → Bool) (m : Manager)
    → ((r : Report) → sends r ≡ true)
    → length m.records ≡ 64
    → let (last, count, reports) = report_all_pending sends (λ m. m) m in
      (tally is_pending last.records ≡ 0)
      × (count ≡ tally is_pending m.records)
      × (reports ≡ pending_reports m.records)
unfolding report_all_pending
report_all_pending-Reported sends m all size =
    let r = report_from-Reported sends 0 max_alarm_records m all (omega arith) in
    (omega (arith, r.0, r.1), r.1, r.2)
