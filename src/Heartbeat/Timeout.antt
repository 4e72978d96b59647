-- ===== src/Heartbeat/Timeout.antt =====
-- When `heartbeat_check_timeout` reports that the BBU is gone.
use dpb_s_mgmt.Base.{
  ℕ, ◌+◌, ◌*◌, ◌≤◌, ◌<◌, ◌≡◌, refl, true, min, ◌&&◌, List, [], ◌∷◌, if◌then◌else◌, arith, leb,
  Bool-cases, inl, inr,
}
use dpb_s_mgmt.Heartbeat.{Heartbeat, start, stop, handle_bbu, check_timeout}

-- The manager `h` at second `now`, where the BBU was last heard at second `since`, or the heartbeat
-- started then. Time does not go back.
pub data Runs : ℕ → ℕ → Heartbeat → Type 0 where
  starts : (now : ℕ) (h : Heartbeat) → Runs now now (start now h)
  stops : {since now : ℕ} {h : Heartbeat} → Runs since now h → Runs since now (stop h)
  passes :
      {since now : ℕ} {h : Heartbeat} (later : ℕ)
      → now ≤ later
      → Runs since now h
      → Runs since later h
  hears : {since now : ℕ} {h : Heartbeat} → Runs since now h → Runs now now (handle_bbu now h)
  looks :
      {since now : ℕ} {h : Heartbeat} → Runs since now h → Runs since now (check_timeout now h).1

-- While the heartbeat is on, each miss that is counted, up to 19, stands for an interval.
record IsTimed (since now : ℕ) (h : Heartbeat) : Type 0 where
  past : since ≤ now
  timed :
      h.enabled ≡ true
      → (since + 3 * min h.miss_count 19 ≤ h.last_bbu_time) × (h.last_bbu_time ≤ now)

check_timeout-IsTimed :
    (since now : ℕ) (h : Heartbeat)
    → IsTimed since now h
    → IsTimed since now (check_timeout now h).1
unfolding check_timeout
check_timeout-IsTimed since now h t = elim (Bool-cases h.enabled) [
  | inr off ↦ simp off t
  | inl on ↦ let k = t.timed on in record { past = t.past; timed = λ e. ground (arith, k, on) }
]

Runs-IsTimed : {since now : ℕ} {h : Heartbeat} → Runs since now h → IsTimed since now h
unfolding start stop handle_bbu
Runs-IsTimed (starts now h) = record { past = omega arith; timed = λ e. omega arith }
Runs-IsTimed (stops r) = record { past = (Runs-IsTimed r).past; timed = λ e. cc }
Runs-IsTimed (passes later le r) =
    let t = Runs-IsTimed r in
    record {
      past = omega (arith, le, t.past);
      timed = λ e. let k = t.timed e in omega (arith, k, le);
    }
Runs-IsTimed (hears {since} {now} {h} r) = heard (Runs-IsTimed r)
  where
    heard : IsTimed since now h → IsTimed now now (handle_bbu now h)
    heard t = record { past = omega arith; timed = λ e. ground (arith, e) }
Runs-IsTimed (looks {since} {now} {h} r) = check_timeout-IsTimed since now h (Runs-IsTimed r)

-- In every run of the heartbeat in which time does not go back, a timeout is reported only when at
-- least 60 seconds have passed since the heartbeat started or the BBU was last heard.
pub check_timeout-late :
    {since now : ℕ} {h : Heartbeat}
    → Runs since now h
    → (check_timeout now h).0 ≡ true
    → since + 60 ≤ now
unfolding check_timeout
check_timeout-late {since} {now} {h} r e =
    let t = Runs-IsTimed r in
    elim (Bool-cases h.enabled) [
      | inr off ↦ ground (arith, e, off)
      | inl on ↦ let k = t.timed on in ground (arith, e, k, on)
    ]

-- Checks, each so many seconds behind the one before.
unfoldable pub checks : List ℕ → ℕ → Heartbeat → ℕ × Heartbeat
checks [] now h = (now, h)
checks (d ∷ ds) now h = checks ds (now + d) (check_timeout (now + d) h).1

-- How many of these checks close an interval of 3 seconds or more, which starts at the check that closed
-- the last one, and the seconds since then; `waited` seconds of the first one are over.
abbrev pub intervals : List ℕ → ℕ → ℕ × ℕ
intervals [] waited = (0, waited)
intervals (d ∷ ds) waited =
    let (n, left) = intervals ds 0 in
    let longer = intervals ds (waited + d) in if leb 3 (waited + d) then (n + 1, left) else longer

-- The manager behind some checks: `n` intervals are counted, `waited` seconds ago the last one.
IsBehind : ℕ → ℕ → ℕ → Heartbeat → Type 0
IsBehind n waited now h = (h.enabled ≡ true) × (h.last_bbu_time + waited ≡ now) × (h.miss_count ≡ n)

check_timeout-waits :
    (n waited now d : ℕ) (h : Heartbeat)
    → waited + d < 3
    → IsBehind n waited now h
    → IsBehind n (waited + d) (now + d) (check_timeout (now + d) h).1
unfolding IsBehind check_timeout
check_timeout-waits n waited now d h short b = ground (arith, b)

check_timeout-counts :
    (n waited now d : ℕ) (h : Heartbeat)
    → 3 ≤ waited + d
    → n < 19
    → IsBehind n waited now h
    → IsBehind (n + 1) 0 (now + d) (check_timeout (now + d) h).1
unfolding IsBehind check_timeout
check_timeout-counts n waited now d h long few b = ground (arith, b)

checks-counts :
    (ds : List ℕ) (n waited now : ℕ) (h : Heartbeat)
    → let (k, left) = intervals ds waited in
      n + k ≤ 19
      → IsBehind n waited now h
      → let (now', h') = checks ds now h in IsBehind (n + k) left now' h'
unfolding checks IsBehind
checks-counts [] n waited now h = λ few b. (b.0, b.1, omega (arith, b.2))
checks-counts (d ∷ ds) n waited now h = elim (Bool-cases (leb 3 (waited + d))) [
  | inl long ↦ rw long (λ few b.
      let c = check_timeout-counts n waited now d h (ground (arith, long)) (omega (arith, few)) b in
      let rest =
        checks-counts ds (n + 1) 0 (now + d) (check_timeout (now + d) h).1 (omega (arith, few)) c in
      (rest.0, rest.1, omega (arith, rest.2)))
  | inr short ↦ rw short (λ few b.
      checks-counts ds n (waited + d) (now + d) (check_timeout (now + d) h).1 few
        (check_timeout-waits n waited now d h (ground (arith, short)) b))
]

-- From the start of the heartbeat on, with checks at any distances and no word of the BBU: cut the time
-- into intervals of 3 seconds or more, each of which ends with the first check that is late enough. A
-- check behind others that have closed at most 19 intervals reports a timeout if and only if it closes
-- the twentieth.
pub checks-timeout :
    (ds : List ℕ) (d now : ℕ) (h : Heartbeat)
    → (intervals ds 0).0 ≤ 19
    → let (n, waited) = intervals ds 0 in
      let (now', h') = checks ds now (start now h) in
      (check_timeout (now' + d) h').0 ≡ (leb 3 (waited + d) && leb 20 (n + 1))
unfolding start check_timeout IsBehind
checks-timeout ds d now h few =
    let k = checks-counts ds 0 0 now (start now h) (omega (arith, few)) (refl, omega arith, refl) in
    ground (arith, k)
