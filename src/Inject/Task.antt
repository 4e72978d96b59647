-- ===== src/Inject/Task.antt =====
-- The task of the firmware injector, its start, and what its handlers share.
use dpb_s_mgmt.Base.{
  ℕ, zero, suc, ◌*◌, ◌/◌, ◌%◌, ◌^◌, Bool, false, Option, none, List, [], take, ltb, if◌then◌else◌,
  add32, sub32, Error, general, Result, ok, err, ◌>>=◌,
}
use dpb_s_mgmt.Rs422.{decode_frame, seq_counter_rollback}
use dpb_s_mgmt.Rs422.Commands.{build_transfer_abort, build_upload_notify, parse_result}
use dpb_s_mgmt.Package.{Metadata}
use dpb_s_mgmt.Inject.Interface.{Line}

pub data State : Type 0 where
  idle parsing_metadata transfer_start transfer_data transfer_end : State
  reconfig_start reconfig_polling completed failed : State

abbrev pub segment_size : ℕ
segment_size = 1048576

abbrev pub packet_size : ℕ
packet_size = 1000

abbrev pub max_packet_retries : ℕ
max_packet_retries = 3

-- `bin_fp`: the bytes of the open file, and its position.
pub record File : Type 0 where
  pub content : List ℕ
  pub pos : ℕ

-- `fpga_injection_task_t`, with the RS-422 sequence counter g_seq_counter. `start_time` and
-- `version_num` only serve the log.
pub record Task : Type 0 where
  pub state : State
  pub metadata : Metadata
  pub version_dir : List ℕ
  pub total_segments : ℕ
  pub current_segment : ℕ
  pub total_packets : ℕ
  pub current_packet : ℕ
  pub segment_offset : ℕ
  pub file_checksum : ℕ
  pub bin_fp : Option File
  pub last_activity : ℕ
  pub retry_count : ℕ
  pub max_retries : ℕ
  pub in_progress : Bool
  pub seq : ℕ

abbrev pub empty_metadata : Metadata
empty_metadata = record {
  file_type = 0;
  file_sub_type = 0;
  file_size = 0;
  sha256 = [];
  version = [];
  bin_file_path = [];
}

-- `fpga_firmware_injection_init`
abbrev pub injection_init : Task
injection_init = record {
  state = idle;
  metadata = empty_metadata;
  version_dir = [];
  total_segments = 0;
  current_segment = 0;
  total_packets = 0;
  current_packet = 0;
  segment_offset = 0;
  file_checksum = 0;
  bin_fp = none;
  last_activity = 0;
  retry_count = 0;
  max_retries = max_packet_retries;
  in_progress = false;
  seq = 0;
}

-- `fpga_firmware_injection_start` at a time; `created` says whether `pthread_create` succeeds.
unfoldable pub injection_start : List ℕ → ℕ → Bool → Task → Result (Unit {0}) × Task
injection_start version_dir now created t =
    let started = record t {
      state = parsing_metadata;
      version_dir = take 255 version_dir;
      last_activity = now;
      in_progress = created;
      current_segment = 0;
      retry_count = 0;
      bin_fp = none;
    } in
    if t.in_progress then (err general, t) else ((if created then ok tt else err general), started)

module _ (w : Line) where
  -- The task, its surroundings, and the data of the packets that have been acknowledged, in order:
  -- the code keeps no such list, the statements speak of it.
  pub record Run : Type 0 where
    pub task : Task
    pub env : w.State
    pub acked : List ℕ

  abbrev pub time : w.State → ℕ
  time env = w.clock env / 1000000

  abbrev pub transition_state : State → Run → Run
  transition_state new r = record r {
    task = record r.task { state = new; last_activity = time r.env };
  }

  abbrev pub fail_with : Error → Run → Result (Unit {0}) × Run
  fail_with e r = (err e, transition_state failed r)

  -- The loop of `interruptible_sleep`, with fuel for its slices of 100 ms.
  unfoldable pub sleep_loop : ℕ → ℕ → ℕ → w.State → w.State
  sleep_loop zero elapsed_ms total_ms env = env
  sleep_loop (suc n) elapsed_ms total_ms env =
      let remain = sub32 total_ms elapsed_ms in
      let s = if ltb remain 100 then remain else 100 in
      let rest = sleep_loop n (add32 elapsed_ms s) total_ms (w.usleep (s * 1000) env) in
      if ltb elapsed_ms total_ms then (if w.aborted env then env else rest) else env

  unfoldable pub interruptible_sleep : ℕ → w.State → w.State
  interruptible_sleep total_sec env = sleep_loop (total_sec * 10) 0 (total_sec * 1000 % 2 ^ 32) env

  -- `uart_rs422_send_and_wait`, `rs422_decode_frame` and the reader of the acknowledgement's byte.
  unfoldable pub transact : List ℕ → ℕ → w.State → Result ℕ × w.State
  transact frame expected_cmd env =
      let (answer, env') = w.send_and_wait frame 256 expected_cmd env in
      ((do received ← answer; d ← decode_frame received; parse_result d.payload), env')

  -- `send_upload_notify`, whose result no caller reads.
  unfoldable pub send_upload_notify : ℕ → Run → Run
  send_upload_notify notify_code r =
      let (built, seq) = build_upload_notify notify_code 64 r.task.seq in
      elim built [
        | err e ↦ record r { task = record r.task { seq = seq } }
        | ok frame ↦ record r {
          task = record r.task { seq = seq_counter_rollback seq };
          env = (w.send_frame frame r.env).1;
        }
      ]

  -- `send_transfer_abort`, whose result no caller reads.
  unfoldable pub send_transfer_abort : Run → Run
  send_transfer_abort r =
      let (built, seq) = build_transfer_abort 256 r.task.seq in
      let r' = record r { task = record r.task { seq = seq } } in
      elim built [
        | err e ↦ r'
        | ok frame ↦
            let (sent, env) = w.send_frame frame r.env in
            elim sent [
              | err e ↦ record r' { env = env }
              | ok u ↦ record r' { env = (w.send_and_wait frame 256 0x018E env).1 }
            ]
      ]
