-- ===== src/Inject/Opening.antt =====
-- The first two handlers: the metadata of the package, and the command that starts a transfer.
use dpb_s_mgmt.Base.{
  ℕ, zero, suc, ◌+◌, ◌-◌, ◌*◌, ◌/◌, ◌%◌, ◌^◌, none, some, List, length, take, ltb, ◌==◌,
  if◌then◌else◌, not, add32, Error, general, timeout, memory, Result, ok, err,
}
use dpb_s_mgmt.Rs422.{crc16_ccitt_false}
use dpb_s_mgmt.Rs422.Commands.{TransferStart, build_transfer_start}
use dpb_s_mgmt.Package.{firmware_parse_metadata, firmware_verify_integrity}
use dpb_s_mgmt.Inject.Interface.{Line}
use dpb_s_mgmt.Inject.Task.{
  segment_size, Task, transfer_start, transfer_data, Run, time, transition_state, fail_with,
  interruptible_sleep, transact,
}

module _ (w : Line) where
  -- `handle_parsing_metadata`; on an error `metadata` is left as it was, nothing reads it then.
  unfoldable pub handle_parsing_metadata : Run w → Result (Unit {0}) × Run w
  handle_parsing_metadata r = elim (firmware_parse_metadata w.host r.task.version_dir) [
    | err e ↦ fail_with w general r
    | ok m ↦
        let total = add32 m.file_size (segment_size - 1) / segment_size in
        let r' = record r { task = record r.task { metadata = m; total_segments = total } } in
        elim (firmware_verify_integrity w.host m.bin_file_path m.sha256) [
          | err e ↦ fail_with w general (record r { task = record r.task { metadata = m } })
          | ok u ↦ elim (w.host.read_file m.bin_file_path) [
            | none ↦ fail_with w general r'
            | some bytes ↦
                let file_data = take m.file_size bytes in
                if w.malloc_fails m.file_size r.env
                then fail_with w memory r'
                else if not (length file_data == m.file_size)
                then fail_with w general r'
                else (
                  ok tt,
                  transition_state w transfer_start (record r' {
                    task = record r'.task { file_checksum = crc16_ccitt_false file_data };
                  }),
                )
          ]
        ]
  ]

  -- The parameters of the command 3-3.
  unfoldable pub start_params : Task → TransferStart
  start_params t =
      let last = t.metadata.file_size % segment_size in
      record {
        device_id = 0x0180 / 16 % 128;
        file_type = t.metadata.file_type;
        file_sub_type = t.metadata.file_sub_type;
        segment_info =
            if ltb 1 t.total_segments then (3 * 2 ^ 14 + t.total_segments) % 2 ^ 16 else 0;
        file_length = if t.total_segments == 1 then t.metadata.file_size else segment_size;
        last_segment_len =
            if t.total_segments == 1
            then t.metadata.file_size
            else if last == 0
            then segment_size
            else last;
        file_checksum = t.file_checksum;
      }

  -- How the polling of `handle_transfer_start` ends; `stuck` where its fuel does.
  pub data Poll : Type 0 where
    answered : ℕ → w.State → Poll
    gave_up : Error → w.State → Poll
    stuck : Poll

  -- The loop while the target prepares, on fuel.
  unfoldable pub poll_start : ℕ → List ℕ → ℕ → w.State → Poll
  poll_start zero frame start_time env = stuck
  poll_start (suc n) frame start_time env =
      let (result, env') = transact w frame 0x015A env in
      let again = poll_start n frame start_time (interruptible_sleep w 1 env') in
      if w.aborted env
      then gave_up general env
      else if ltb 300 (time w env - start_time)
      then gave_up timeout env
      else elim result [
        | err e ↦ again
        | ok result ↦ if result == 0x11 then again else answered result env'
      ]

  -- The part of `handle_transfer_start` behind the loop.
  unfoldable pub after_poll : Run w → Poll → Result (Unit {0}) × Run w
  after_poll r stuck = (err timeout, r)
  after_poll r (gave_up e env) = fail_with w e (record r { env = env })
  after_poll r (answered result env) =
      let r' = record r { env = env } in
      if not (result == 0)
      then fail_with w general r'
      else elim (w.host.read_file r.task.metadata.bin_file_path) [
        | none ↦ fail_with w general r'
        | some bytes ↦
            let env' = interruptible_sleep w 20 env in
            let task = record r.task { bin_fp = some (record { content = bytes; pos = 0 }) } in
            if w.aborted env' then fail_with w general (record r { task = task; env = env' }) else (
              ok tt,
              transition_state w transfer_data (record r {
                task = record task {
                  current_segment = 0;
                  current_packet = 0;
                  segment_offset = 0;
                  retry_count = 0;
                };
                env = env';
              }),
            )
      ]

  -- 303 polls are enough.
  unfoldable pub handle_transfer_start : Run w → Result (Unit {0}) × Run w
  handle_transfer_start r =
      let (built, seq) = build_transfer_start (start_params r.task) 512 r.task.seq in
      let r' = record r { task = record r.task { seq = seq } } in
      elim built [
        | err e ↦ fail_with w general r'
        | ok frame ↦ after_poll r' (poll_start 303 frame (time w r.env) r.env)
      ]
