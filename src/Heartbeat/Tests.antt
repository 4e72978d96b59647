-- ===== src/Heartbeat/Tests.antt =====
-- Runs of heartbeat.c.
use dpb_s_mgmt.Base.{ℕ, zero, suc, ◌+◌, ◌≤◌, ◌≡◌, refl, true, arith, leb, ◌&&◌, List, [], ◌∷◌}
use dpb_s_mgmt.Heartbeat.{Heartbeat, heartbeat_init, start, check_timeout}
use dpb_s_mgmt.Heartbeat.Timeout.{Runs, checks, check_timeout-late, checks-timeout}

-- Nineteen checks, one every three seconds.
abbrev threes : ℕ → List ℕ
threes zero = []
threes (suc n) = 3 ∷ threes n

checks-Runs :
    (ds : List ℕ) (now : ℕ) (h : Heartbeat) {since : ℕ}
    → Runs since now h
    → let (now', h') = checks ds now h in Runs since now' h'
unfolding checks
checks-Runs [] now h r = r
checks-Runs (d ∷ ds) now h r =
    checks-Runs ds (now + d) (check_timeout (now + d) h).1
      (Runs.looks (Runs.passes (now + d) (omega arith) r))

abbrev silent : Heartbeat
silent = record { enabled = true; paau_count = 0; miss_count = 19; last_bbu_time = 157 }

silent_lem : checks (threes 19) 100 (start 100 heartbeat_init) ≡ (157, silent)
unfolding checks start check_timeout
silent_lem = refl

Runs-silent : Runs 100 160 silent
Runs-silent = Runs.passes 160 (omega arith) (
    rw silent_lem at
      (checks-Runs (threes 19) 100 (start 100 heartbeat_init) (Runs.starts 100 heartbeat_init)))

reports : (check_timeout 160 silent).0 ≡ true
unfolding check_timeout
reports = refl

check_timeout-late_example : 100 + 60 ≤ 160
check_timeout-late_example = check_timeout-late Runs-silent reports

-- A check every second: the sixtieth one reports.
abbrev seconds : ℕ → List ℕ
seconds zero = []
seconds (suc n) = 1 ∷ seconds n

checks-timeout_example :
    let (now', h') = checks (seconds 59) 7 (start 7 heartbeat_init) in
    (check_timeout (now' + 1) h').0 ≡ (leb 3 (2 + 1) && leb 20 (19 + 1))
checks-timeout_example = checks-timeout (seconds 59) 1 7 heartbeat_init (omega arith)
