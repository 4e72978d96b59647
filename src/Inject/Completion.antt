-- ===== src/Inject/Completion.antt =====
-- The whole thread: what has been acknowledged behind a completed injection.
use dpb_s_mgmt.Base.{
  ℕ, zero, suc, ◌-◌, ◌≤◌, ◌≡◌, refl, sym, ap, ◌∙◌, some, List, [], arith, take, ltb, ◌==◌,
  Bool-cases, Option-cases, inl, inr, ok,
}
use dpb_s_mgmt.Package.{Host, Metadata, firmware_parse_metadata}
use dpb_s_mgmt.Rs422.Commands.{
  build_transfer_end, build_reconfig_start, build_reconfig_query, build_upload_notify,
}
use dpb_s_mgmt.Inject.Interface.{Line}
use dpb_s_mgmt.Inject.Task.{
  State, Task, Run, time, transact, send_upload_notify, idle, parsing_metadata, transfer_start,
  transfer_data, transfer_end, reconfig_start, reconfig_polling, completed, failed,
}
use dpb_s_mgmt.Inject.Thread.{
  handle_transfer_end, handle_reconfig_start, handle_reconfig_polling, handle, is_final, round,
  thread_loop, exit_thread, injection_thread,
}
use dpb_s_mgmt.Inject.Delivery.{
  Loaded, Holds, Good, Result-cases, max_file_size, handle_parsing_metadata-Good,
  handle_transfer_start-Good,
}
use dpb_s_mgmt.Inject.Transfer.{handle_transfer_data-Good}

-- The file has been acknowledged as a whole.
abbrev Delivered : Host → Task → List ℕ → Type 0
Delivered h t acked =
    (content : List ℕ) × Loaded h t.version_dir t.metadata t.total_segments content
    × (acked ≡ take t.metadata.file_size content)

module _ (w : Line) where
  handle_transfer_end-Good :
      (r : Run w) → Delivered w.host r.task r.acked → Good w (handle_transfer_end w r).1
  unfolding handle_transfer_end
  handle_transfer_end-Good r h = elim (Result-cases (build_transfer_end 256 r.task.seq).0) [
    | inr (e, bad) ↦ rw (handle_transfer_end, bad) tt
    | inl (frame, fine) ↦ elim (Result-cases (transact w frame 0x01BB r.env).0) [
      | inr (e, bad) ↦ rw (handle_transfer_end, fine, bad) tt
      | inl (result, answered) ↦ elim (Bool-cases (result == 0)) [
        | inr refused ↦ rw (handle_transfer_end, fine, answered, refused) tt
        | inl accepted ↦ rw (handle_transfer_end, fine, answered, accepted) h
      ]
    ]
  ]

  handle_reconfig_start-Good :
      (r : Run w) → Delivered w.host r.task r.acked → Good w (handle_reconfig_start w r).1
  unfolding handle_reconfig_start
  handle_reconfig_start-Good r h =
      let m = r.task.metadata in
      elim (Result-cases (build_reconfig_start m.file_type m.file_sub_type 256 r.task.seq).0) [
        | inr (e, bad) ↦ rw (handle_reconfig_start, bad) tt
        | inl (frame, fine) ↦ elim (Result-cases (w.send_frame frame r.env).0) [
          | inr (e, bad) ↦ rw (handle_reconfig_start, fine, bad) tt
          | inl (u, sent) ↦ rw (handle_reconfig_start, fine, sent) h
        ]
      ]

  handle_reconfig_polling-Good :
      (r : Run w)
      → r.task.state ≡ reconfig_polling
      → Delivered w.host r.task r.acked
      → Good w (handle_reconfig_polling w r).1
  unfolding handle_reconfig_polling
  handle_reconfig_polling-Good r at h =
      elim (Bool-cases (ltb 600 (time w r.env - r.task.last_activity))) [
        | inl late ↦ rw (handle_reconfig_polling, late) tt
        | inr early ↦ elim (Result-cases (build_reconfig_query 256 r.task.seq).0) [
          | inr (e, bad) ↦ rw (handle_reconfig_polling, early, bad, at) h
          | inl (frame, fine) ↦ elim (Result-cases (transact w frame 0x01CA r.env).0) [
            | inr (e, bad) ↦ rw (handle_reconfig_polling, early, fine, bad, at) h
            | inl (result, answered) ↦ elim (Bool-cases (result == 0)) [
              | inl success ↦ rw (handle_reconfig_polling, early, fine, answered, success) h
              | inr other ↦ elim (Bool-cases (result == 0x11)) [
                | inl busy ↦ rw (handle_reconfig_polling, early, fine, answered, other, busy, at) h
                | inr refused ↦
                    rw (handle_reconfig_polling, early, fine, answered, other, refused) tt
              ]
            ]
          ]
        ]
      ]

  handle-Good :
      (s : State) (r : Run w)
      → r.task.state ≡ s
      → Holds w.host s r.task r.acked
      → Good w (handle w s r).1
  unfolding handle
  handle-Good idle r at h = rw at tt
  handle-Good parsing_metadata r at h = handle_parsing_metadata-Good w r h
  handle-Good transfer_start r at h = handle_transfer_start-Good w r at h
  handle-Good transfer_data r at h = handle_transfer_data-Good w r at h
  handle-Good transfer_end r at h = handle_transfer_end-Good r h
  handle-Good reconfig_start r at h = handle_reconfig_start-Good r h
  handle-Good reconfig_polling r at h = handle_reconfig_polling-Good r at h
  handle-Good completed r at h = rw at h
  handle-Good failed r at h = rw at tt

  round-Good : (r : Run w) → Good w r → Good w (round w r)
  unfolding round
  round-Good r h =
      let good = handle-Good r.task.state r refl h in
      elim (Result-cases (handle w r.task.state r).0) [
        | inl (u, fine) ↦ rw (round, fine) good
        | inr (e, bad) ↦ rw (round, bad) good
      ]

  thread_loop-Good :
      (fuel : ℕ) (r : Run w) {last : Run w}
      → Good w r
      → thread_loop w fuel r ≡ some last
      → Good w last
  unfolding thread_loop
  thread_loop-Good zero r h e = cc
  thread_loop-Good (suc fuel) r {last} h e = elim (Bool-cases (w.aborted r.env)) [
    | inl stopped ↦ let same : r ≡ last = ground arith in rw (sym same) h
    | inr on ↦ elim (Bool-cases (is_final w r.task.state)) [
      | inl final ↦ let same : r ≡ last = ground arith in rw (sym same) h
      | inr busy ↦ thread_loop-Good fuel (round w r) {last = last} (round-Good r h) (ground arith)
    ]
  ]

  notify-Good :
      (code : ℕ) (r : Run w)
      → r.task.state ≡ parsing_metadata
      → Holds w.host parsing_metadata r.task r.acked
      → Good w (send_upload_notify w code r)
  unfolding send_upload_notify
  notify-Good code r at h = elim (Result-cases (build_upload_notify code 64 r.task.seq).0) [
    | inr (e, bad) ↦ rw (send_upload_notify, bad, at) h
    | inl (frame, fine) ↦ rw (send_upload_notify, fine, at) h
  ]

  -- The part behind the loop keeps what holds of a completed task.
  exit_thread-completed :
      (r : Run w)
      → Good w r
      → (exit_thread w r).task.state ≡ completed
      → Delivered w.host (exit_thread w r).task (exit_thread w r).acked
  unfolding exit_thread send_upload_notify
  exit_thread-completed r h ends = elim (Result-cases (build_upload_notify 0x02 64 r.task.seq).0) [
    | inr (e, bad) ↦
        let done : r.task.state ≡ completed = rw (exit_thread, send_upload_notify, bad) at ends in
        rw (exit_thread, send_upload_notify, bad) (rw done at h)
    | inl (frame, fine) ↦
        let done : r.task.state ≡ completed = rw (exit_thread, send_upload_notify, fine) at ends in
        rw (exit_thread, send_upload_notify, fine) (rw done at h)
  ]

  -- A run of the injection thread that starts on a task as `fpga_firmware_injection_start` leaves it,
  -- for a package whose file, if the metadata can be read, has at most 2^32 - 2^20 bytes, and that
  -- ends in the state COMPLETED: the metadata has been parsed, the file that it names has passed the
  -- digest check and has as many bytes as its size says at least, and the data of the acknowledged
  -- packets, put together, is the file up to that size.
  pub injection_thread-delivers :
      (fuel : ℕ) (r : Run w) {last : Run w}
      → r.task.state ≡ parsing_metadata
      → r.acked ≡ []
      → r.task.max_retries ≡ 3
      → ((m : Metadata)
          → firmware_parse_metadata w.host r.task.version_dir ≡ ok m
          → m.file_size ≤ max_file_size)
      → injection_thread w fuel r ≡ some last
      → last.task.state ≡ completed
      → (content : List ℕ) × Loaded w.host last.task.version_dir last.task.metadata
          last.task.total_segments content
        × (last.acked ≡ take last.task.metadata.file_size content)
  unfolding injection_thread
  injection_thread-delivers fuel r {last} at fresh limit small e done =
      elim (Option-cases (thread_loop w fuel (send_upload_notify w 0x01 r))) [
        | inl out ↦ ground arith
        | inr (end, ends) ↦
            let good =
              thread_loop-Good fuel (send_upload_notify w 0x01 r)
                (notify-Good 0x01 r at (fresh, limit, small)) ends in
            let same : exit_thread w end ≡ last = ground arith in
            rw (sym same)
              (exit_thread-completed end good (ap (λ (x : Run w). x.task.state) same ∙ done))
      ]
