-- ===== src/Inject/Thread.antt =====
-- The handlers behind the transfer, and the loop of the thread.
use dpb_s_mgmt.Base.{
  ℕ, zero, suc, ◌-◌, Bool, true, false, Option, none, some, ltb, ◌==◌, if◌then◌else◌, not, general,
  timeout, Result, ok, err,
}
use dpb_s_mgmt.Rs422.Commands.{build_transfer_end, build_reconfig_start, build_reconfig_query}
use dpb_s_mgmt.Inject.Interface.{Line}
use dpb_s_mgmt.Inject.Task.{
  State, idle, parsing_metadata, transfer_start, transfer_data, transfer_end, reconfig_start,
  reconfig_polling, completed, failed, Run, time, transition_state, fail_with, interruptible_sleep,
  transact, send_upload_notify, send_transfer_abort,
}
use dpb_s_mgmt.Inject.Opening.{handle_parsing_metadata, handle_transfer_start}
use dpb_s_mgmt.Inject.Packets.{handle_transfer_data}

module _ (w : Line) where
  unfoldable pub handle_transfer_end : Run w → Result (Unit {0}) × Run w
  handle_transfer_end r =
      let (built, seq) = build_transfer_end 256 r.task.seq in
      let r' = record r { task = record r.task { seq = seq; bin_fp = none } } in
      elim built [
        | err e ↦ fail_with w general r'
        | ok frame ↦
            let (result, env) = transact w frame 0x01BB r.env in
            elim result [
              | err e ↦ fail_with w general (record r' { env = env })
              | ok result ↦
                  if not (result == 0)
                  then fail_with w general (send_transfer_abort w (record r' { env = env }))
                  else (ok tt, transition_state w reconfig_start (record r' { env = env }))
            ]
      ]

  unfoldable pub handle_reconfig_start : Run w → Result (Unit {0}) × Run w
  handle_reconfig_start r =
      let m = r.task.metadata in
      let (built, seq) = build_reconfig_start m.file_type m.file_sub_type 256 r.task.seq in
      let r' = record r { task = record r.task { seq = seq } } in
      elim built [
        | err e ↦ fail_with w general r'
        | ok frame ↦
            let (sent, env) = w.send_frame frame r.env in
            elim sent [
              | err e ↦ fail_with w general (record r' { env = env })
              | ok u ↦ (ok tt, transition_state w reconfig_polling (record r' { env = env }))
            ]
      ]

  unfoldable pub handle_reconfig_polling : Run w → Result (Unit {0}) × Run w
  handle_reconfig_polling r =
      let (built, seq) = build_reconfig_query 256 r.task.seq in
      let r' = record r { task = record r.task { seq = seq } } in
      if ltb 600 (time w r.env - r.task.last_activity) then fail_with w timeout r else elim built [
        | err e ↦ (err general, r')
        | ok frame ↦
            let (result, env) = transact w frame 0x01CA r.env in
            let later = record r' { env = interruptible_sleep w 5 env } in
            elim result [
              | err e ↦ (err general, later)
              | ok result ↦
                  if result == 0
                  then (ok tt, transition_state w completed (record r' { env = env }))
                  else if result == 0x11
                  then (ok tt, later)
                  else fail_with w general (record r' { env = env })
            ]
      ]

  -- The switch of the thread's loop, which leaves the loop before it in the last two states.
  unfoldable pub handle : State → Run w → Result (Unit {0}) × Run w
  handle idle r = (ok tt, record r { env = w.usleep 100000 r.env })
  handle parsing_metadata r = handle_parsing_metadata w r
  handle transfer_start r = handle_transfer_start w r
  handle transfer_data r = handle_transfer_data w r
  handle transfer_end r = handle_transfer_end r
  handle reconfig_start r = handle_reconfig_start r
  handle reconfig_polling r = handle_reconfig_polling r
  handle completed r = (ok tt, r)
  handle failed r = (ok tt, r)

  abbrev pub is_final : State → Bool
  is_final completed = true
  is_final failed = true
  is_final _ = false

  -- A round of the loop: behind a handler that has failed, it waits.
  unfoldable pub round : Run w → Run w
  round r =
      let (res, r') = handle r.task.state r in
      elim res [ ok u ↦ r' | err e ↦ record r' { env = w.usleep 100000 r'.env } ]

  -- The loop of `injection_thread_func`, on fuel.
  unfoldable pub thread_loop : ℕ → Run w → Option (Run w)
  thread_loop zero r = none
  thread_loop (suc n) r =
      let rest = thread_loop n (round r) in
      if w.aborted r.env then some r else if is_final r.task.state then some r else rest

  -- The part behind `exit_thread`.
  unfoldable pub exit_thread : Run w → Run w
  exit_thread r =
      let r' = send_upload_notify w 0x02 r in
      record r' { task = record r'.task { bin_fp = none; in_progress = false } }

  unfoldable pub injection_thread : ℕ → Run w → Option (Run w)
  injection_thread fuel r = elim (thread_loop fuel (send_upload_notify w 0x01 r)) [
    | none ↦ none
    | some r' ↦ some (exit_thread r')
  ]
