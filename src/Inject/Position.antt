-- ===== src/Inject/Position.antt =====
-- The position of the file at the start of a packet, as `begin_segment` and `reposition` leave it.
use dpb_s_mgmt.Base.{
  ℕ, ◌+◌, ◌-◌, ◌*◌, ◌/◌, ◌%◌, ◌^◌, ◌≤◌, ◌<◌, min, ◌≡◌, refl, false, some, List, arith, take, ltb,
  ◌==◌, add32, sub32, Bool-cases, inl, inr, ==_iff,
}
use dpb_s_mgmt.Inject.Interface.{Line}
use dpb_s_mgmt.Inject.Task.{Task, Run, transfer_data}
use dpb_s_mgmt.Inject.Packets.{current_segment_size, seek, begin_segment, reposition}
use dpb_s_mgmt.Inject.Delivery.{Loaded, Sending, place}

-- The start of a packet, the position of the file included unless it is sent again.
pub record AtPacket (t : Task) (acked content : List ℕ) : Type 0 where
  pub pos : ℕ
  pub file : t.bin_fp ≡ some (record { content = content; pos = pos })
  pub acked_prefix :
      acked ≡ take (place t.metadata.file_size t.current_segment t.current_packet) content
  pub in_file : t.current_segment < t.total_segments
  pub offset : t.segment_offset ≡ t.current_segment * 1048576
  pub packets :
      t.total_packets
      ≡ (min 1048576 (t.metadata.file_size - t.current_segment * 1048576) + 999) / 1000
  pub tries : t.retry_count < 3
  pub limit : t.max_retries ≡ 3
  pub in_packets : t.current_packet ≤ t.total_packets
  pub at_packet :
      t.retry_count ≡ 0 → pos ≡ place t.metadata.file_size t.current_segment t.current_packet

module _ (w : Line) where
  unfoldable pub Ready : Run w → Type 0
  Ready r =
      (content : List ℕ) × Loaded w.host r.task.version_dir r.task.metadata r.task.total_segments
        content
      × AtPacket r.task r.acked content
      × (r.task.state ≡ transfer_data)

  pub segment_size_lem :
      (r : Run w) {content : List ℕ}
      → Loaded w.host r.task.version_dir r.task.metadata r.task.total_segments content
      → r.task.current_segment < r.task.total_segments
      → current_segment_size w r.task
        ≡ min 1048576 (r.task.metadata.file_size - r.task.current_segment * 1048576)
  unfolding current_segment_size
  segment_size_lem r loaded below =
      let segments = loaded.segments in
      let small = loaded.small in
      elim (Bool-cases (r.task.current_segment == sub32 r.task.total_segments 1)) [
        | inl last ↦ rw last (
            let e = (==_iff r.task.current_segment (sub32 r.task.total_segments 1)).0 last in
            omega arith)
        | inr other ↦ rw other (ground arith)
      ]

  pub seek-file :
      (pos : ℕ) (t : Task) {content : List ℕ} {old : ℕ}
      → t.bin_fp ≡ some (record { content = content; pos = old })
      → (seek w pos t).bin_fp ≡ some (record { content = content; pos = pos })
  seek-file pos t e = rw e refl

  pub begin_segment-Ready :
      (r : Run w) {content : List ℕ}
      → Loaded w.host r.task.version_dir r.task.metadata r.task.total_segments content
      → Sending r.task r.acked content
      → r.task.state ≡ transfer_data
      → r.task.current_segment < r.task.total_segments
      → (begin_segment w r).0 ≡ false
      → Ready (begin_segment w r).1
  unfolding begin_segment Ready
  begin_segment-Ready r {content} loaded s at below sought =
      elim (Bool-cases (r.task.current_packet == 0)) [
        | inl new ↦ elim (Bool-cases (w.seek_fails r.env)) [
          | inl bad ↦ ground arith
          | inr fine ↦
              let n = r.task.current_segment * 1048576 % 2 ^ 32 in
              let segments = loaded.segments in
              let small = loaded.small in
              let here : r.task.current_packet ≡ 0 = (==_iff r.task.current_packet 0).0 new in
              let size = segment_size_lem r loaded below in
              rw (begin_segment, new, fine)
                (
                  content,
                  loaded,
                  record {
                    pos = n;
                    file = seek-file n r.task s.file;
                    acked_prefix = s.acked_prefix;
                    in_file = below;
                    offset = omega arith;
                    packets = rw size (omega arith);
                    tries = s.tries;
                    limit = s.limit;
                    in_packets = omega arith;
                    at_packet = λ first. omega arith;
                  },
                  at,
                )
        ]
        | inr old ↦
            let pos : 0 < r.task.current_packet = ground arith in
            rw (begin_segment, old)
              (
                content,
                loaded,
                record {
                  pos = s.pos;
                  file = s.file;
                  acked_prefix = s.acked_prefix;
                  in_file = below;
                  offset = s.offset pos;
                  packets = s.packets pos;
                  tries = s.tries;
                  limit = s.limit;
                  in_packets = s.in_packets pos;
                  at_packet = s.at_packet pos;
                },
                at,
              )
      ]

  -- The start of a packet with the position of the file at its bytes.
  unfoldable pub Poised : Run w → Type 0
  Poised r =
      (content : List ℕ) × Loaded w.host r.task.version_dir r.task.metadata r.task.total_segments
        content
      × ((a : AtPacket r.task r.acked content) × (a.pos
            ≡ place r.task.metadata.file_size r.task.current_segment r.task.current_packet))
      × (r.task.state ≡ transfer_data)
      × (r.task.current_packet < r.task.total_packets)

  pub reposition-Poised :
      (r : Run w)
      → Ready r
      → r.task.current_packet < r.task.total_packets
      → (reposition w r).0 ≡ false
      → Poised (reposition w r).1
  unfolding reposition Ready Poised
  reposition-Poised r (content, loaded, a, at) below sought =
      elim (Bool-cases (ltb 0 r.task.retry_count)) [
        | inr first ↦
            let none_yet : r.task.retry_count ≡ 0 = ground arith in
            rw (reposition, first) (content, loaded, (a, a.at_packet none_yet), at, below)
        | inl again ↦ elim (Bool-cases (w.seek_fails r.env)) [
          | inl bad ↦ ground arith
          | inr fine ↦
              let n = add32 r.task.segment_offset (r.task.current_packet * 1000 % 2 ^ 32) in
              let segments = loaded.segments in
              let small = loaded.small in
              let in_file = a.in_file in
              let packets = a.packets in
              let offset = a.offset in
              let there : n
                  ≡ place r.task.metadata.file_size r.task.current_segment r.task.current_packet =
                omega arith in
              rw (reposition, again, fine)
                (
                  content,
                  loaded,
                  (
                    record {
                      pos = n;
                      file = seek-file n r.task a.file;
                      acked_prefix = a.acked_prefix;
                      in_file = a.in_file;
                      offset = a.offset;
                      packets = a.packets;
                      tries = a.tries;
                      limit = a.limit;
                      in_packets = a.in_packets;
                      at_packet = λ first. there;
                    },
                    there,
                  ),
                  at,
                  below,
                )
        ]
      ]
