-- ===== src/Inject/Tests.antt =====
-- An injection of a small package over a line whose answers are a list.
use dpb_s_mgmt.Base.{
  ℕ, ◌+◌, ◌≤◌, ◌≡◌, ◌∙◌, sym, refl, true, false, some, List, [], ◌∷◌, arith, Result, ok, err,
  general, timeout, take, ◌==◌, if◌then◌else◌, Bool-cases, inl, inr, ==_iff,
}
use dpb_s_mgmt.Rs422.{
  crc16_ccitt_false, Decoded, decode_frame, sealed, body, build_file_data, encode_frame, checksum,
  sum_bytes, decode_data, seq_counter_rollback,
}
use dpb_s_mgmt.Rs422.Roundtrip.{as_ack}
use dpb_s_mgmt.Rs422.Commands.{
  build_transfer_start, build_transfer_end, build_transfer_abort, build_reconfig_start,
  build_reconfig_query, build_upload_notify, parse_result, transfer_start_bytes,
}
use dpb_s_mgmt.Shell.{str_chr, shell_safe_name}
use dpb_s_mgmt.Package.{
  Host, Metadata, firmware_parse_metadata, finish_metadata, firmware_verify_integrity,
  firmware_get_file_size, join_path, parse_lines, parse_line, set_field, file_lines, fgets,
  before_zero, hex_string, hex_digit,
}
use dpb_s_mgmt.Package.Text.{trim_whitespace, strtoul, str_eq, strcasecmp_eq}
use dpb_s_mgmt.Inject.Interface.{Line}
use dpb_s_mgmt.Inject.Task.{
  Run, injection_init, injection_start, interruptible_sleep, sleep_loop, transact,
  send_upload_notify, send_transfer_abort, parsing_metadata, completed,
}
use dpb_s_mgmt.Inject.Opening.{
  handle_parsing_metadata, start_params, poll_start, after_poll, handle_transfer_start,
}
use dpb_s_mgmt.Inject.Packets.{
  current_segment_size, begin_segment, reposition, current_packet_size, fread, retry, after_answer,
  after_read, send_packet, after_reposition, after_begin, handle_transfer_data,
}
use dpb_s_mgmt.Inject.Thread.{
  handle_transfer_end, handle_reconfig_start, handle_reconfig_polling, handle, round, thread_loop,
  exit_thread, injection_thread,
}
use dpb_s_mgmt.Inject.Delivery.{Loaded, max_file_size}
use dpb_s_mgmt.Inject.Completion.{injection_thread-delivers}
use dpb_s_mgmt.Inject.Polling.{Ended, poll_start-Ended_enough}

-- "# a", "file_type = 0xF1", "file_sub_type=19", " sha256=0A", "version=v1", "bin_file=a.b"
abbrev metadata_text : List ℕ
metadata_text =
    b'#' ∷ 32 ∷ b'a' ∷ 10 ∷ b'f' ∷ b'i' ∷ b'l' ∷ b'e' ∷ b'_' ∷ b't' ∷ b'y' ∷ b'p' ∷ b'e' ∷ 32 ∷ b'='
    ∷ 32 ∷ b'0' ∷ b'x' ∷ b'F' ∷ b'1' ∷ 10 ∷ b'f' ∷ b'i' ∷ b'l' ∷ b'e' ∷ b'_' ∷ b's' ∷ b'u' ∷ b'b'
    ∷ b'_' ∷ b't' ∷ b'y' ∷ b'p' ∷ b'e' ∷ b'=' ∷ b'1' ∷ b'9' ∷ 10 ∷ 32 ∷ b's' ∷ b'h' ∷ b'a' ∷ b'2'
    ∷ b'5' ∷ b'6' ∷ b'=' ∷ b'0' ∷ b'A' ∷ 10 ∷ b'v' ∷ b'e' ∷ b'r' ∷ b's' ∷ b'i' ∷ b'o' ∷ b'n' ∷ b'='
    ∷ b'v' ∷ b'1' ∷ 10 ∷ b'b' ∷ b'i' ∷ b'n' ∷ b'_' ∷ b'f' ∷ b'i' ∷ b'l' ∷ b'e' ∷ b'=' ∷ b'a' ∷ b'.'
    ∷ b'b' ∷ 10 ∷ []

-- An answer that is no answer to the command is dropped.
matching : ℕ → List ℕ → Result (List ℕ)
matching cmd frame = elim (decode_frame frame) [
  | err e ↦ err e
  | ok d ↦ if d.cmd_code == cmd then ok frame else err general
]

matching-answers :
    (cmd : ℕ) (frame : List ℕ) {received : List ℕ}
    → matching cmd frame ≡ ok received
    → (d : Decoded) × (decode_frame received ≡ ok d) × (d.cmd_code ≡ cmd)
unfolding matching
matching-answers cmd frame {received} e = go (decode_frame frame) refl e
  where
    go :
        (o : Result Decoded)
        → decode_frame frame ≡ o
        → elim o [ err e ↦ err e | ok d ↦ if d.cmd_code == cmd then ok frame else err general ]
          ≡ ok received
        → (d : Decoded) × (decode_frame received ≡ ok d) × (d.cmd_code ≡ cmd)
    go (err x) same found = cc
    go (ok d) same found = elim (Bool-cases (d.cmd_code == cmd)) [
      | inr other ↦ ground arith
      | inl fits ↦
          let this : ok frame ≡ ok received = ground arith in
          (d, cc, (==_iff d.cmd_code cmd).0 fits)
    ]

record Script : Type 0 where
  micros : ℕ
  answers : List (List ℕ)

give : ℕ → Script → Result (List ℕ) × Script
give cmd s = elim s.answers [
  | [] ↦ (err timeout, s)
  | frame ∷ rest ↦ (matching cmd frame, record s { answers = rest })
]

give-micros : (cmd : ℕ) (s : Script) → s.micros ≤ (give cmd s).1.micros
unfolding give
give-micros cmd s =
    elim s.answers as (λ a. s.micros ≤ (give cmd (record s { answers = a })).1.micros) [
      | [] ↦ omega arith
      | frame ∷ rest ↦ omega arith
    ]

give-answers :
    (cmd : ℕ) (s : Script) {received : List ℕ}
    → (give cmd s).0 ≡ ok received
    → (d : Decoded) × (decode_frame received ≡ ok d) × (d.cmd_code ≡ cmd)
unfolding give
give-answers cmd s {received} =
    elim s.answers
      as (λ a.
        (give cmd (record s { answers = a })).0 ≡ ok received
        → (d : Decoded) × (decode_frame received ≡ ok d) × (d.cmd_code ≡ cmd)) [
          | [] ↦ λ e. cc
          | frame ∷ rest ↦ λ e. matching-answers cmd frame e
        ]

-- Every file holds the same metadata, and is taken for 70 bytes long.
abbrev a_host : Host
a_host = record {
  read_file = λ path. some metadata_text;
  stat_size = λ path. some 70;
  sha256 = λ bytes. 10 ∷ [];
}

abbrev script_line : Line
script_line = record {
  State = Script;
  host = a_host;
  clock = λ s. s.micros;
  aborted = λ s. false;
  usleep = λ n s. record s { micros = s.micros + n };
  send_frame = λ frame s. (ok tt, s);
  send_and_wait = λ frame size cmd s. give cmd s;
  seek_fails = λ s. false;
  malloc_fails = λ n s. false;
  usleep-clock = λ n s. omega arith;
  usleep-aborted = λ n s e. e;
  exchange-clock = λ frame size cmd s. give-micros cmd s;
  exchange-aborted = λ frame size cmd s e. e;
  exchange-answers = λ frame size cmd s ne e. give-answers cmd s e;
}

-- An acknowledgement with one byte of result.
abbrev ack : ℕ → ℕ → List ℕ
ack cmd result = as_ack (sealed (body 0x0180 0 2 cmd (result ∷ [])))

-- The target prepares once, refuses the packet once, and is busy once when it is asked for the
-- result.
abbrev some_answers : List (List ℕ)
some_answers =
    ack 0x015A 0x11
    ∷ ack 0x015A 0
    ∷ ack 0x018A 0xFF
    ∷ ack 0x018A 0
    ∷ ack 0x01BB 0
    ∷ ack 0x01CA 0x11
    ∷ ack 0x01CA 0
    ∷ []

abbrev start : Run script_line
start = record {
  task = record injection_init {
    state = parsing_metadata;
    version_dir = b'/' ∷ [];
    in_progress = true;
  };
  env = record { micros = 0; answers = some_answers };
  acked = [];
}

started_lem : injection_start (b'/' ∷ []) 0 true injection_init ≡ (ok tt, start.task)
unfolding injection_start
started_lem = refl

abbrev a_metadata : Metadata
a_metadata = record {
  file_type = 0xF1;
  file_sub_type = 19;
  file_size = 70;
  sha256 = b'0' ∷ b'A' ∷ [];
  version = b'v' ∷ b'1' ∷ [];
  bin_file_path = b'/' ∷ b'/' ∷ b'a' ∷ b'.' ∷ b'b' ∷ [];
}

parsed : firmware_parse_metadata a_host (b'/' ∷ []) ≡ ok a_metadata
unfolding firmware_parse_metadata finish_metadata firmware_get_file_size join_path parse_lines
    parse_line set_field file_lines fgets before_zero trim_whitespace str_eq strtoul str_chr
    shell_safe_name
parsed = refl

small :
    (m : Metadata) → firmware_parse_metadata a_host (b'/' ∷ []) ≡ ok m → m.file_size ≤ max_file_size
small m e =
    let same : ok m ≡ ok a_metadata = sym e ∙ parsed in
    let size : m.file_size ≡ 70 = cc in omega arith

-- The run behind the loop.
abbrev last : Run script_line
last = record {
  task = record start.task {
    state = completed;
    metadata = a_metadata;
    total_segments = 1;
    current_segment = 1;
    total_packets = 1;
    file_checksum = crc16_ccitt_false (take 70 metadata_text);
    last_activity = 26;
    in_progress = false;
    seq = 5;
  };
  env = record { micros = 26101000; answers = [] };
  acked = take 70 metadata_text;
}

ran : injection_thread script_line 12 start ≡ some last
unfolding injection_thread thread_loop exit_thread round handle handle_parsing_metadata
    handle_transfer_start handle_transfer_data handle_transfer_end handle_reconfig_start
    handle_reconfig_polling send_upload_notify send_transfer_abort after_begin after_reposition
    send_packet after_read after_answer retry fread current_packet_size reposition begin_segment
    current_segment_size after_poll poll_start start_params transact interruptible_sleep sleep_loop
    build_transfer_start build_transfer_end build_transfer_abort build_reconfig_start
    build_reconfig_query build_upload_notify parse_result transfer_start_bytes build_file_data
    encode_frame decode_frame decode_data checksum sum_bytes seq_counter_rollback give matching
    firmware_parse_metadata finish_metadata firmware_get_file_size join_path parse_lines parse_line
    set_field file_lines fgets before_zero trim_whitespace str_eq strtoul str_chr shell_safe_name
    firmware_verify_integrity hex_string hex_digit strcasecmp_eq
ran = refl

injection_thread-delivers_example :
    (content : List ℕ) × Loaded a_host (b'/' ∷ []) a_metadata 1 content
    × (last.acked ≡ take 70 content)
injection_thread-delivers_example =
    injection_thread-delivers script_line 12 start refl refl refl small ran refl

poll_start-Ended_enough_example : Ended script_line (poll_start script_line 303 [] 0 start.env)
poll_start-Ended_enough_example = poll_start-Ended_enough script_line [] start.env
