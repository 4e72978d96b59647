-- ===== src/Alarm/Activity.antt =====
-- `alarm_trigger`: the invariant of the table, and the alarms that are active.
use dpb_s_mgmt.Base.{
  ℕ, zero, suc, ◌+◌, ◌≤◌, ◌<◌, ◌≡◌, refl, sym, ◌∙◌, Bool, true, false, ◌&&◌, ◌||◌, Option, none,
  some, List, [], ◌∷◌, arith, length, get_or, set, length-set, ◌==◌, Bool-cases, inl, inr, Result,
  ok, err,
}
use dpb_s_mgmt.Alarm.{
  AlarmRecord, Manager, Report, Placed, already, full, placed, blank, new_record, is_alarm, is_free,
  find_first, is_active, find_free_record, place, place_in, mark_reported, announce, trigger,
  code_tcp_disconnect,
}
use dpb_s_mgmt.Alarm.Table.{
  bit, tally, tally-set, tally-not, Search, find_first-Search, active_count, entries, IsConsistent,
  is_active-entries,
}

-- The numbers `a` and `b` denote the alarm `(c, s)`.
abbrev pub same : ℕ → ℕ → ℕ → ℕ → Bool
same a b c s = a == c && b == s

-- A record at `i` gives way to one that is as active and of the same alarm.
module _ (m : Manager) (i : ℕ) (r : AlarmRecord) (h : i < length m.records) where
  pub replaced-entries :
      (code sub : ℕ)
      → tally (is_alarm code sub) (set m.records i r)
          + bit (is_alarm code sub (get_or m.records i blank))
        ≡ entries m code sub + bit (is_alarm code sub r)
  replaced-entries code sub = tally-set (is_alarm code sub) m.records i r h

  pub replaced-active :
      tally (λ r. r.active) (set m.records i r) + bit (get_or m.records i blank).active
      ≡ active_count m + bit r.active
  replaced-active = tally-set (λ r. r.active) m.records i r h

-- What the first critical section of `alarm_trigger` has done.
abbrev Placing : ℕ → ℕ → Manager → Placed × Manager → Type 0
Placing code sub m (already, m') = (m' ≡ m) × (0 < entries m code sub)
Placing code sub m (full, m') = (m' ≡ m) × (entries m code sub ≡ 0) × (m.alarm_count ≡ 64)
Placing code sub m (placed idx, m') =
    IsConsistent m'
    × (entries m code sub ≡ 0)
    × (m.alarm_count < 64)
    × ((c s : ℕ) → entries m' c s ≡ entries m c s + bit (same code sub c s))

place_in-Placing :
    (code sub : ℕ) (info : List ℕ) (now : ℕ) (m : Manager) (o : Option ℕ)
    → IsConsistent m
    → entries m code sub ≡ 0
    → Search is_free m.records o
    → Placing code sub m (place_in code sub info now m o)
unfolding place_in
place_in-Placing code sub info now m none v e s =
    (refl, e, omega (arith, v.counted, v.size, s, tally-not (λ r. r.active) m.records))
place_in-Placing code sub info now m (some idx) v e s =
    let r : AlarmRecord = new_record code sub info now in
    let old : AlarmRecord = get_or m.records idx blank in
    let idle : old.active ≡ false = ground (arith, s.1) in
    let active = replaced-active m idx r s.0 in
    let room = tally-not (λ r. r.active) m.records in
    let at : (c s : ℕ)
        → tally (is_alarm c s) (set m.records idx r) ≡ entries m c s + bit (same code sub c s) =
      λ c sb. ground (arith, replaced-entries m idx r s.0 c sb) in
    (
      record {
        size = length-set m.records idx r ∙ v.size;
        counted = ground (arith, v.counted, v.size, active, room, s.2);
        once = λ c sb. once c sb (at c sb);
      },
      e,
      ground (arith, v.counted, v.size, room, s.2),
      at,
    )
  where
    once :
        (c sb : ℕ)
        → tally (is_alarm c sb) (set m.records idx (new_record code sub info now))
          ≡ entries m c sb + bit (same code sub c sb)
        → tally (is_alarm c sb) (set m.records idx (new_record code sub info now)) ≤ 1
    once c sb k = elim (Bool-cases (same code sub c sb)) [
      | inl it ↦
          let e1 : code ≡ c = ground arith in
          let e2 : sub ≡ sb = ground arith in
          let e3 : entries m c sb ≡ 0 = rw (sym e1, sym e2) e in ground (arith, k, e3)
      | inr other ↦ ground (arith, k, v.once c sb)
    ]

place-Placing :
    (code sub : ℕ) (info : List ℕ) (now : ℕ) {m : Manager}
    → IsConsistent m
    → Placing code sub m (place code sub info now m)
unfolding place find_free_record
place-Placing code sub info now {m} v = elim (Bool-cases (is_active m code sub)) [
  | inl active ↦ rw active (refl, ground (arith, is_active-entries m code sub))
  | inr idle ↦ rw idle (
      place_in-Placing code sub info now m (find_first is_free m.records) v
        (ground (arith, is_active-entries m code sub)) (find_first-Search is_free m.records))
]

pub in_range : (rs : List AlarmRecord) (i : ℕ) → (get_or rs i blank).active ≡ true → i < length rs
in_range [] i e = cc
in_range (x ∷ rs) zero e = omega arith
in_range (x ∷ rs) (suc i) e = omega (arith, in_range rs i e)

pub mark_reported_lem :
    (code sub idx : ℕ) {m : Manager}
    → IsConsistent m
    → IsConsistent (mark_reported code sub idx m)
      × ((c s : ℕ) → entries (mark_reported code sub idx m) c s ≡ entries m c s)
unfolding mark_reported
mark_reported_lem code sub idx {m} v =
    let r : AlarmRecord = get_or m.records idx blank in
    elim (Bool-cases (is_alarm code sub r)) [
      | inr differs ↦ rw differs (v, λ c s. refl)
      | inl it ↦
          let r' : AlarmRecord = record r { reported = true } in
          let h : idx < length m.records = in_range m.records idx (ground arith) in
          let at : (c s : ℕ) → tally (is_alarm c s) (set m.records idx r') ≡ entries m c s =
            λ c s. omega (arith, replaced-entries m idx r' h c s) in
          rw it (
            record {
              size = length-set m.records idx r' ∙ v.size;
              counted = omega (arith, v.counted, replaced-active m idx r' h);
              once = λ c s. omega (arith, at c s, v.once c s);
            },
            at,
          )
    ]

announce-IsConsistent :
    (other : Manager → Manager) (code sub : ℕ) (info : List ℕ) (m : Manager) (p : Placed × Manager)
    → ((m : Manager) → IsConsistent m → IsConsistent (other m))
    → IsConsistent m
    → Placing code sub m p
    → IsConsistent (announce other code sub info p).1
unfolding announce
announce-IsConsistent other code sub info m (already, m') keeps v p = rw p.0 v
announce-IsConsistent other code sub info m (full, m') keeps v p = rw p.0 v
announce-IsConsistent other code sub info m (placed idx, m') keeps v p =
    elim (Bool-cases m'.tcp_connected) [
      | inl on ↦ simp on ((mark_reported_lem code sub idx (keeps m' p.0)).0)
      | inr off ↦ simp off (elim (Bool-cases (code == code_tcp_disconnect)) [
        | inl it ↦
            let k = keeps m' p.0 in
            rw it (record { size = k.size; counted = k.counted; once = k.once })
        | inr differs ↦ rw differs p.0
      ])
    ]

-- `alarm_trigger` keeps the table consistent: 64 slots, no alarm in it twice, and an `alarm_count`
-- that is the number of active records; also if other threads change the manager, in any way that
-- keeps it consistent, while the mutex is released for the report.
pub trigger-IsConsistent :
    (other : Manager → Manager) (code sub : ℕ) (info : List ℕ) (now : ℕ) {m : Manager}
    → ((m : Manager) → IsConsistent m → IsConsistent (other m))
    → IsConsistent m
    → IsConsistent (trigger other code sub info now m).1
unfolding trigger
trigger-IsConsistent other code sub info now {m} keeps v =
    announce-IsConsistent other code sub info m (place code sub info now m) keeps v
      (place-Placing code sub info now v)

-- What a trigger that is alone has done.
abbrev pub Triggered : ℕ → ℕ → Manager → Result (Unit {0}) × Manager × List Report → Type 0
Triggered code sub m (ok u, m', reports) =
    (c s : ℕ) → is_active m' c s ≡ (is_active m c s || same code sub c s)
Triggered code sub m (err e, m', reports) =
    (m' ≡ m) × (is_active m code sub ≡ false) × (m.alarm_count ≡ 64)

active_from :
    (code sub : ℕ) (m m' : Manager)
    → ((c s : ℕ) → entries m' c s ≡ entries m c s + bit (same code sub c s))
    → (c s : ℕ) → is_active m' c s ≡ (is_active m c s || same code sub c s)
active_from code sub m m' e c s =
    ground (arith, is_active-entries m c s, is_active-entries m' c s, e c s)

active_already :
    (code sub : ℕ) (m : Manager)
    → 0 < entries m code sub
    → (c s : ℕ) → is_active m c s ≡ (is_active m c s || same code sub c s)
active_already code sub m e c s = elim (Bool-cases (same code sub c s)) [
  | inr other ↦ ground arith
  | inl it ↦
      let e1 : code ≡ c = ground arith in
      let e2 : sub ≡ s = ground arith in
      let k : 0 < entries m c s = rw (sym e1, sym e2) e in ground (arith, is_active-entries m c s)
]

announce-Triggered :
    (code sub : ℕ) (info : List ℕ) (m : Manager) (p : Placed × Manager)
    → Placing code sub m p
    → Triggered code sub m (announce (λ m. m) code sub info p)
unfolding announce is_active
announce-Triggered code sub info m (already, m') p = rw p.0 (active_already code sub m p.1)
announce-Triggered code sub info m (full, m') p =
    (p.0, ground (arith, is_active-entries m code sub, p.1), p.2)
announce-Triggered code sub info m (placed idx, m') p = elim (Bool-cases m'.tcp_connected) [
  | inl on ↦ simp on (
      active_from code sub m (mark_reported code sub idx m')
        (λ c s. (mark_reported_lem code sub idx p.0).1 c s ∙ p.3 c s))
  | inr off ↦ simp off (elim (Bool-cases (code == code_tcp_disconnect)) [
    | inl it ↦ rw it (active_from code sub m (record m' { pending_tcp_alarm = true }) p.3)
    | inr differs ↦ rw differs (active_from code sub m m' p.3)
  ])
]

-- `alarm_trigger` on a consistent table, with no other thread in between: where it returns SUCCESS,
-- the alarm is active afterwards and all other alarms are as before; otherwise nothing has changed,
-- the alarm is not active, and 64 alarms are.
pub trigger-Triggered :
    (code sub : ℕ) (info : List ℕ) (now : ℕ) {m : Manager}
    → IsConsistent m
    → Triggered code sub m (trigger (λ m. m) code sub info now m)
unfolding trigger
trigger-Triggered code sub info now {m} v =
    announce-Triggered code sub info m (place code sub info now m)
      (place-Placing code sub info now v)
