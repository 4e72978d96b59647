-- ===== src/Inject/Polling.antt =====
-- The loop that asks whether the target is ready ends, whatever the target answers.
use dpb_s_mgmt.Base.{
  ℕ, zero, suc, ◌+◌, ◌-◌, ◌*◌, ◌^◌, ◌≤◌, ◌<◌, ◌≡◌, true, false, List, arith, ltb, ◌==◌, Bool-cases,
  ◌⊎◌, inl, inr, sub32, add32,
}
use dpb_s_mgmt.Inject.Interface.{Line}
use dpb_s_mgmt.Inject.Task.{time, sleep_loop, interruptible_sleep, transact}
use dpb_s_mgmt.Inject.Opening.{Poll, answered, gave_up, stuck, poll_start}
use dpb_s_mgmt.Inject.Delivery.{Result-cases}

module _ (w : Line) where
  -- A wait has been cut off by a request to abort, or has taken its time.
  Waited : ℕ → w.State → w.State → Type 0
  Waited micros before after = (w.aborted after ≡ true) ⊎ (w.clock before + micros ≤ w.clock after)

  sleep_loop-Waited :
      (n elapsed total : ℕ) (env : w.State)
      → total ≡ elapsed + n * 100
      → total < 2 ^ 32
      → Waited (n * 100000) env (sleep_loop w n elapsed total env)
  unfolding Waited sleep_loop
  sleep_loop-Waited zero elapsed total env e small = inr (omega arith)
  sleep_loop-Waited (suc n) elapsed total env e small = elim (Bool-cases (w.aborted env)) [
    | inl stopped ↦
        let more : ltb elapsed total ≡ true = ground arith in
        rw (sleep_loop, more, stopped) (inl stopped)
    | inr on ↦
        let more : ltb elapsed total ≡ true = ground arith in
        let full : ltb (sub32 total elapsed) 100 ≡ false = ground arith in
        let next : add32 elapsed 100 ≡ elapsed + 100 = omega arith in
        let slice = w.usleep-clock 100000 env in
        elim (sleep_loop-Waited n (elapsed + 100) total (w.usleep 100000 env) (omega arith) small) [
          | inl stopped ↦ rw (sleep_loop, more, on, full, next) (inl stopped)
          | inr waited ↦ rw (sleep_loop, more, on, full, next) (inr (omega arith))
        ]
  ]

  -- Behind an exchange and a wait of a second, the abort is asked for or the second has passed.
  later :
      (k : ℕ) (frame : List ℕ) (start : ℕ) (env : w.State)
      → (w.aborted env ≡ true) ⊎ (start + k ≤ time w env)
      → w.aborted env ≡ false
      → (w.aborted (interruptible_sleep w 1 (transact w frame 0x015A env).1) ≡ true)
        ⊎ (start + (k + 1) ≤ time w (interruptible_sleep w 1 (transact w frame 0x015A env).1))
  unfolding interruptible_sleep transact Waited
  later k frame start env h on =
      let env' = (w.send_and_wait frame 256 0x015A env).1 in
      let grows = w.exchange-clock frame 256 0x015A env in
      let so_far : start + k ≤ time w env = elim h [
        | inl stopped ↦ ground arith
        | inr passed ↦ passed
      ] in
      elim (sleep_loop-Waited 10 0 1000 env' (omega arith) (omega arith)) [
        | inl stopped ↦ inl stopped
        | inr waited ↦ inr (omega arith)
      ]

  -- The loop has ended.
  abbrev pub Ended : Poll w → Type 0
  Ended (answered result env) = Unit {0}
  Ended (gave_up e env) = Unit {0}
  Ended stuck = ⊥

  poll_start-Ended :
      (n k : ℕ) (frame : List ℕ) (start : ℕ) (env : w.State)
      → k ≤ 301
      → 302 ≤ n + k
      → (w.aborted env ≡ true) ⊎ (start + k ≤ time w env)
      → Ended (poll_start w n frame start env)
  unfolding poll_start
  poll_start-Ended zero k frame start env small enough h = absurd (omega arith)
  poll_start-Ended (suc n) k frame start env small enough h = elim (Bool-cases (w.aborted env)) [
    | inl stopped ↦ rw (poll_start, stopped) tt
    | inr on ↦ elim (Bool-cases (ltb 300 (time w env - start))) [
      | inl late ↦ rw (poll_start, on, late) tt
      | inr early ↦
          let env' : w.State = (transact w frame 0x015A env).1 in
          let again : Ended (poll_start w n frame start (interruptible_sleep w 1 env')) =
            poll_start-Ended n (k + 1) frame start (interruptible_sleep w 1 env') (ground arith)
              (omega arith) (later k frame start env h on) in
          elim (Result-cases (transact w frame 0x015A env).0) [
            | inr (e, bad) ↦ rw (poll_start, on, early, bad) again
            | inl (result, fine) ↦ elim (Bool-cases (result == 0x11)) [
              | inl preparing ↦ rw (poll_start, on, early, fine, preparing) again
              | inr other ↦ rw (poll_start, on, early, fine, other) tt
            ]
          ]
    ]
  ]

  -- With the fuel that the model gives it, the loop of `handle_transfer_start` ends: the target answers
  -- with something other than PREPARING, or the task is aborted, or more than 300 seconds have passed.
  -- It does so for every behaviour of the line, because each round waits a second.
  pub poll_start-Ended_enough :
      (frame : List ℕ) (env : w.State) → Ended (poll_start w 303 frame (time w env) env)
  poll_start-Ended_enough frame env =
      poll_start-Ended 303 0 frame (time w env) env (omega arith) (omega arith) (inr (omega arith))
