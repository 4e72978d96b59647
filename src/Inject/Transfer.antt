-- ===== src/Inject/Transfer.antt =====
-- `handle_transfer_data` keeps the acknowledged data a prefix of the file.
use dpb_s_mgmt.Base.{
  ℕ, ◌+◌, ◌-◌, ◌*◌, ◌/◌, ◌<◌, min, ◌≡◌, refl, sym, ap, ◌∙◌, Bool, true, false, Option, some, List,
  ◌++◌, arith, length, take, drop, take-split, leb, ◌==◌, add32, Bool-cases, inl, inr, Result, ok,
  err, ==_iff,
}
use dpb_s_mgmt.Inject.Interface.{Line}
use dpb_s_mgmt.Inject.Task.{File, Task, Run, transact, transfer_data}
use dpb_s_mgmt.Inject.Packets.{
  begin_segment, reposition, current_packet_size, fread, retry, after_answer, after_read,
  send_packet, after_reposition, after_begin, handle_transfer_data,
}
use dpb_s_mgmt.Rs422.{build_file_data}
use dpb_s_mgmt.Inject.Delivery.{Loaded, Holds, Good, place, Result-cases}
use dpb_s_mgmt.Inject.Position.{
  AtPacket, Ready, segment_size_lem, begin_segment-Ready, Poised, reposition-Poised,
}

module _ (w : Line) where
  -- The bytes of the packet have been read.
  record HasRead (t : Task) (acked content bytes : List ℕ) : Type 0 where
    pos : ℕ
    file : t.bin_fp ≡ some (record { content = content; pos = pos })
    behind : pos ≡ place t.metadata.file_size t.current_segment (t.current_packet + 1)
    acked_prefix :
        acked ≡ take (place t.metadata.file_size t.current_segment t.current_packet) content
    with_bytes : acked ++ bytes ≡ take pos content
    in_file : t.current_segment < t.total_segments
    offset : t.segment_offset ≡ t.current_segment * 1048576
    packets :
        t.total_packets
        ≡ (min 1048576 (t.metadata.file_size - t.current_segment * 1048576) + 999) / 1000
    tries : t.retry_count < 3
    limit : t.max_retries ≡ 3
    in_packets : t.current_packet < t.total_packets

  Read : Run w → List ℕ → Type 0
  Read r bytes =
      (content : List ℕ) × Loaded w.host r.task.version_dir r.task.metadata r.task.total_segments
        content
      × HasRead r.task r.acked content bytes
      × (r.task.state ≡ transfer_data)

  retry-Good : (r : Run w) (bytes : List ℕ) → Read r bytes → Good w (retry w r).1
  unfolding Read retry
  retry-Good r bytes (content, loaded, a, at) =
      let n = add32 r.task.retry_count 1 in
      let tries = a.tries in
      let limit = a.limit in
      elim (Bool-cases (leb r.task.max_retries n)) [
        | inl last ↦ rw (retry, last) tt
        | inr again ↦
            let more : n < 3 = ground arith in
            rw (retry, again, at)
              (
                content,
                loaded,
                record {
                  pos = a.pos;
                  file = a.file;
                  acked_prefix = a.acked_prefix;
                  in_file = omega (arith, a.in_file);
                  in_segment = λ later. a.in_file;
                  offset = λ later. a.offset;
                  packets = λ later. a.packets;
                  tries = more;
                  limit = a.limit;
                  in_packets = λ later. omega (arith, a.in_packets);
                  at_packet = λ later first. absurd (omega arith);
                },
              )
      ]

  after_answer-Good :
      (r : Run w) (bytes : List ℕ) (p : Result ℕ × w.State)
      → Read r bytes
      → Good w (after_answer w r bytes p).1
  unfolding Read after_answer
  after_answer-Good r bytes (err e, env) h = retry-Good (record r { env = env }) bytes h
  after_answer-Good r bytes (ok result, env) h = elim (Bool-cases (result == 0)) [
    | inr refused ↦ rw (after_answer, refused) (retry-Good (record r { env = env }) bytes h)
    | inl accepted ↦
        let (content, loaded, a, at) = h in
        let segments = loaded.segments in
        let small = loaded.small in
        let in_file = a.in_file in
        let below = a.in_packets in
        let packets = a.packets in
        let next : add32 r.task.current_packet 1 ≡ r.task.current_packet + 1 = omega arith in
        rw (after_answer, accepted, at)
          (
            content,
            loaded,
            record {
              pos = a.pos;
              file = a.file;
              acked_prefix = rw next (a.with_bytes ∙ ap (λ k. take k content) a.behind);
              in_file = omega arith;
              in_segment = λ later. a.in_file;
              offset = λ later. a.offset;
              packets = λ later. a.packets;
              tries = omega arith;
              limit = a.limit;
              in_packets = λ later. omega arith;
              at_packet = λ later first. rw next (a.behind);
            },
          )
  ]

  packet_size_lem :
      (r : Run w) {content : List ℕ}
      → Loaded w.host r.task.version_dir r.task.metadata r.task.total_segments content
      → AtPacket r.task r.acked content
      → r.task.current_packet < r.task.total_packets
      → place r.task.metadata.file_size r.task.current_segment (r.task.current_packet + 1)
        ≡ place r.task.metadata.file_size r.task.current_segment r.task.current_packet
          + current_packet_size w r.task
  unfolding current_packet_size
  packet_size_lem r {content} loaded a below =
      let segments = loaded.segments in
      let small = loaded.small in
      let in_file = a.in_file in
      let packets = a.packets in
      let size = segment_size_lem w r loaded in_file in rw size (ground arith)

  after_read-Good :
      (r : Run w) (content : List ℕ)
      → Loaded w.host r.task.version_dir r.task.metadata r.task.total_segments content
      → (a : AtPacket r.task r.acked content)
      → a.pos ≡ place r.task.metadata.file_size r.task.current_segment r.task.current_packet
      → r.task.state ≡ transfer_data
      → r.task.current_packet < r.task.total_packets
      → Good w
          (after_read w r (
            fread w
              (current_packet_size w r.task)
              (some (record { content = content; pos = a.pos })))).1
  unfolding after_read fread Read
  after_read-Good r content loaded a there at below =
      let t = r.task in
      let n = current_packet_size w t in
      let p = place t.metadata.file_size t.current_segment t.current_packet in
      let bytes : List ℕ = take n (drop a.pos content) in
      let pos : ℕ = a.pos + length bytes in
      let fp : Option File = some (record { content = content; pos = pos }) in
      let here = packet_size_lem r loaded a below in
      elim (Bool-cases (length bytes == n)) [
        | inr short ↦ rw (after_read, fread, short) tt
        | inl whole ↦
            let all = (==_iff (length bytes) n).0 whole in
            let joined : take pos content ≡ r.acked ++ bytes =
              take-split a.pos n pos content (omega arith)
              ∙ ap (λ (first : List ℕ). first ++ bytes)
                  (ap (λ k. take k content) there ∙ sym a.acked_prefix) in
            elim (Result-cases
              (build_file_data t.current_segment bytes 1512 t.current_packet t.total_packets)) [
                | inr (e, bad) ↦ rw (after_read, fread, whole, bad) tt
                | inl (frame, fine) ↦
                    rw (after_read, fread, whole, fine)
                      (after_answer-Good (record r { task = record t { bin_fp = fp } }) bytes
                        (transact w frame 0x018A r.env)
                        (
                          content,
                          loaded,
                          record {
                            pos = pos;
                            file = refl;
                            behind = omega arith;
                            acked_prefix = a.acked_prefix;
                            with_bytes = sym joined;
                            in_file = a.in_file;
                            offset = a.offset;
                            packets = a.packets;
                            tries = a.tries;
                            limit = a.limit;
                            in_packets = below;
                          },
                          at,
                        ))
              ]
      ]

  send_packet-Good : (r : Run w) → Poised w r → Good w (send_packet w r).1
  unfolding send_packet Poised
  send_packet-Good r (content, loaded, (a, there), at, below) =
      let read : fread w (current_packet_size w r.task) r.task.bin_fp
          ≡ fread w (current_packet_size w r.task)
              (some (record { content = content; pos = a.pos })) =
        ap (fread w (current_packet_size w r.task)) a.file in
      rw (send_packet, read) (after_read-Good r content loaded a there at below)

  after_begin-Good :
      (b : Bool) (r : Run w) → (b ≡ false → Ready w r) → Good w (after_begin w (b, r)).1
  unfolding after_begin after_reposition Ready
  after_begin-Good true r h = tt
  after_begin-Good false r h =
      let (content, loaded, a, at) = h refl in
      let segments = loaded.segments in
      let small = loaded.small in
      let in_file = a.in_file in
      let packets = a.packets in
      let most = a.in_packets in
      elim (Bool-cases (leb r.task.total_packets r.task.current_packet)) [
        | inl done ↦
            let end : place r.task.metadata.file_size (add32 r.task.current_segment 1) 0
                ≡ place r.task.metadata.file_size r.task.current_segment r.task.current_packet =
              ground arith in
            rw (after_begin, done, at)
              (
                content,
                loaded,
                record {
                  pos = a.pos;
                  file = a.file;
                  acked_prefix = a.acked_prefix ∙ ap (λ k. take k content) (sym end);
                  in_file = omega arith;
                  in_segment = λ later. absurd (omega arith);
                  offset = λ later. absurd (omega arith);
                  packets = λ later. absurd (omega arith);
                  tries = omega arith;
                  limit = a.limit;
                  in_packets = λ later. absurd (omega arith);
                  at_packet = λ later. absurd (omega arith);
                },
              )
        | inr more ↦ elim (Bool-cases (reposition w r).0) [
          | inl bad ↦ rw (after_begin, more, after_reposition, bad) tt
          | inr sought ↦
              rw (after_begin, more, after_reposition, sought)
                (send_packet-Good (reposition w r).1
                  (reposition-Poised w r (h refl) (ground arith) sought))
        ]
      ]

  pub handle_transfer_data-Good :
      (r : Run w)
      → r.task.state ≡ transfer_data
      → Holds w.host transfer_data r.task r.acked
      → Good w (handle_transfer_data w r).1
  unfolding handle_transfer_data
  handle_transfer_data-Good r at (content, loaded, s) =
      let segments = loaded.segments in
      let in_file = s.in_file in
      elim (Bool-cases (leb r.task.total_segments r.task.current_segment)) [
        | inl done ↦
            let end : place r.task.metadata.file_size r.task.current_segment r.task.current_packet
                ≡ r.task.metadata.file_size =
              ground arith in
            rw (handle_transfer_data, done)
              (content, loaded, s.acked_prefix ∙ ap (λ k. take k content) end)
        | inr more ↦
            rw (handle_transfer_data, more)
              (after_begin-Good (begin_segment w r).0 (begin_segment w r).1
                (begin_segment-Ready w r loaded s at (ground arith)))
      ]
