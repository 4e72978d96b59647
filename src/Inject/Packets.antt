-- ===== src/Inject/Packets.antt =====
-- `handle_transfer_data`: segments of 1 MB, in packets of 1000 bytes. The arithmetic is that of
-- uint32_t.
use dpb_s_mgmt.Base.{
  ℕ, ◌+◌, ◌-◌, ◌*◌, ◌/◌, ◌%◌, ◌^◌, Bool, true, false, Option, none, some, List, [], ◌++◌, length,
  take, drop, ltb, leb, ◌==◌, if◌then◌else◌, not, add32, sub32, general, Result, ok, err,
}
use dpb_s_mgmt.Rs422.{build_file_data}
use dpb_s_mgmt.Inject.Interface.{Line}
use dpb_s_mgmt.Inject.Task.{
  segment_size, packet_size, File, Task, transfer_end, Run, transition_state, fail_with, transact,
  send_transfer_abort,
}

module _ (w : Line) where
  -- `current_segment_size`
  unfoldable pub current_segment_size : Task → ℕ
  current_segment_size t =
      if t.current_segment == sub32 t.total_segments 1
      then sub32 t.metadata.file_size (t.current_segment * segment_size % 2 ^ 32)
      else segment_size

  abbrev pub seek : ℕ → Task → Task
  seek pos t = record t {
    bin_fp = elim t.bin_fp [ none ↦ none | some f ↦ some (record f { pos = pos }) ];
  }

  -- The start of a segment sets its number of packets and its offset, and seeks; whether that fails.
  unfoldable pub begin_segment : Run w → Bool × Run w
  begin_segment r =
      let t = r.task in
      let offset = t.current_segment * segment_size % 2 ^ 32 in
      let t' = record t {
        total_packets = add32 (current_segment_size t) (packet_size - 1) / packet_size;
        segment_offset = offset;
      } in
      if not (t.current_packet == 0)
      then (false, r)
      else if w.seek_fails r.env
      then (true, record r { task = t' })
      else (false, record r { task = seek offset t' })

  -- A packet that is sent again is sought first; whether that fails.
  unfoldable pub reposition : Run w → Bool × Run w
  reposition r =
      let t = r.task in
      let offset = add32 t.segment_offset (t.current_packet * packet_size % 2 ^ 32) in
      if not (ltb 0 t.retry_count)
      then (false, r)
      else if w.seek_fails r.env
      then (true, r)
      else (false, record r { task = seek offset t })

  -- `packet_size` behind the test for the last packet.
  unfoldable pub current_packet_size : Task → ℕ
  current_packet_size t =
      let remaining = sub32 (current_segment_size t) (t.current_packet * packet_size % 2 ^ 32) in
      if t.current_packet == sub32 t.total_packets 1
      then (if ltb remaining packet_size then remaining else packet_size)
      else packet_size

  -- `fread`, which gives nothing without a file.
  unfoldable pub fread : ℕ → Option File → List ℕ × Option File
  fread n none = ([], none)
  fread n (some f) =
      let bytes = take n (drop f.pos f.content) in
      (bytes, some (record f { pos = f.pos + length bytes }))

  -- A packet has not been acknowledged.
  unfoldable pub retry : Run w → Result (Unit {0}) × Run w
  retry r =
      let n = add32 r.task.retry_count 1 in
      let r' = record r { task = record r.task { retry_count = n } } in
      if leb r.task.max_retries n
      then fail_with w general (send_transfer_abort w r')
      else (err general, r')

  -- What follows the exchange in which `bytes` have been sent.
  unfoldable pub after_answer : Run w → List ℕ → Result ℕ × w.State → Result (Unit {0}) × Run w
  after_answer r bytes (err e, env) = retry (record r { env = env })
  after_answer r bytes (ok result, env) =
      let t = r.task in
      if not (result == 0) then retry (record r { env = env }) else (
        ok tt,
        record {
          task = record t { current_packet = add32 t.current_packet 1; retry_count = 0 };
          env = w.usleep 1000 env;
          acked = r.acked ++ bytes;
        },
      )

  unfoldable pub after_read : Run w → List ℕ × Option File → Result (Unit {0}) × Run w
  after_read r (bytes, fp) =
      let t = r.task in
      let r' = record r { task = record t { bin_fp = fp } } in
      if not (length bytes == current_packet_size t)
      then fail_with w general r'
      else elim (build_file_data t.current_segment bytes 1512 t.current_packet t.total_packets) [
        | err e ↦ fail_with w general r'
        | ok frame ↦ after_answer r' bytes (transact w frame 0x018A r.env)
      ]

  unfoldable pub send_packet : Run w → Result (Unit {0}) × Run w
  send_packet r = after_read r (fread (current_packet_size r.task) r.task.bin_fp)

  unfoldable pub after_reposition : Bool × Run w → Result (Unit {0}) × Run w
  after_reposition (unsought, r) = if unsought then fail_with w general r else send_packet r

  unfoldable pub after_begin : Bool × Run w → Result (Unit {0}) × Run w
  after_begin (unsought, r) =
      let t = r.task in
      if unsought
      then fail_with w general r
      else if leb t.total_packets t.current_packet
      then (
        ok tt,
        record r {
          task = record t {
            current_segment = add32 t.current_segment 1;
            current_packet = 0;
            retry_count = 0;
          };
        },
      )
      else after_reposition (reposition r)

  unfoldable pub handle_transfer_data : Run w → Result (Unit {0}) × Run w
  handle_transfer_data r =
      if leb r.task.total_segments r.task.current_segment
      then (ok tt, transition_state w transfer_end r)
      else after_begin (begin_segment r)
