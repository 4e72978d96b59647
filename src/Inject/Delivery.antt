-- ===== src/Inject/Delivery.antt =====
-- Behind a completed injection the target has acknowledged the bytes of the verified file, in order.
use dpb_s_mgmt.Base.{
  ℕ, ◌+◌, ◌-◌, ◌*◌, ◌/◌, ◌^◌, ◌≤◌, ◌<◌, min, ◌≡◌, refl, sym, ◌∙◌, some, List, [], arith, length,
  length-take, take, ◌==◌, Bool-cases, Option-cases, inl, inr, Result, ok, err, ◌⊎◌, Error, ==_iff,
}
use dpb_s_mgmt.Package.{Host, Metadata, firmware_parse_metadata, firmware_verify_integrity}
use dpb_s_mgmt.Inject.Interface.{Line}
use dpb_s_mgmt.Inject.Task.{
  interruptible_sleep, State, Task, Run, idle, parsing_metadata, transfer_start, transfer_data,
  failed,
}
use dpb_s_mgmt.Inject.Opening.{
  handle_parsing_metadata, Poll, answered, gave_up, stuck, after_poll, start_params,
  handle_transfer_start,
}
use dpb_s_mgmt.Rs422.Commands.{build_transfer_start}

-- The largest file whose number of segments does not wrap around.
abbrev pub max_file_size : ℕ
max_file_size = 2 ^ 32 - 2 ^ 20

-- The metadata has been read, its file found, and the file's digest checked.
pub record Loaded (h : Host) (version_dir : List ℕ) (m : Metadata) (total_segments : ℕ)
    (content : List ℕ) : Type 0 where
  pub parsed : firmware_parse_metadata h version_dir ≡ ok m
  pub verified : firmware_verify_integrity h m.bin_file_path m.sha256 ≡ ok tt
  pub opens : h.read_file m.bin_file_path ≡ some content
  pub enough : m.file_size ≤ length content
  pub small : m.file_size ≤ max_file_size
  pub segments : total_segments ≡ (m.file_size + 1048575) / 1048576

-- How many bytes of the file lie before a packet.
abbrev pub place : ℕ → ℕ → ℕ → ℕ
place size segment packet = min size (segment * 1048576 + min (packet * 1000) 1048576)

-- Between two packets.
pub record Sending (t : Task) (acked content : List ℕ) : Type 0 where
  pub pos : ℕ
  pub file : t.bin_fp ≡ some (record { content = content; pos = pos })
  pub acked_prefix :
      acked ≡ take (place t.metadata.file_size t.current_segment t.current_packet) content
  pub in_file : t.current_segment ≤ t.total_segments
  pub in_segment : 0 < t.current_packet → t.current_segment < t.total_segments
  pub offset : 0 < t.current_packet → t.segment_offset ≡ t.current_segment * 1048576
  pub packets :
      0 < t.current_packet
      → t.total_packets
        ≡ (min 1048576 (t.metadata.file_size - t.current_segment * 1048576) + 999) / 1000
  pub tries : t.retry_count < 3
  pub limit : t.max_retries ≡ 3
  pub in_packets : 0 < t.current_packet → t.current_packet ≤ t.total_packets
  pub at_packet :
      0 < t.current_packet
      → t.retry_count ≡ 0
      → pos ≡ place t.metadata.file_size t.current_segment t.current_packet

-- What holds in each state of the task.
abbrev pub Holds : Host → State → Task → List ℕ → Type 0
Holds h idle t acked = Unit {0}
Holds h parsing_metadata t acked =
    (acked ≡ [])
    × (t.max_retries ≡ 3)
    × ((m : Metadata)
        → firmware_parse_metadata h t.version_dir ≡ ok m
        → m.file_size ≤ max_file_size)
Holds h transfer_start t acked =
    (content : List ℕ) × Loaded h t.version_dir t.metadata t.total_segments content
    × (acked ≡ [])
    × (t.max_retries ≡ 3)
Holds h transfer_data t acked =
    (content : List ℕ) × Loaded h t.version_dir t.metadata t.total_segments content
    × Sending t acked content
Holds h failed t acked = Unit {0}
Holds h _ t acked =
    (content : List ℕ) × Loaded h t.version_dir t.metadata t.total_segments content
    × (acked ≡ take t.metadata.file_size content)

pub Result-cases {ℓ} :
    {A : Type ℓ} (r : Result A) → ((a : A) × (r ≡ ok a)) ⊎ ((e : Error) × (r ≡ err e))
Result-cases (ok a) = inl (a, refl)
Result-cases (err e) = inr (e, refl)

module _ (w : Line) where
  abbrev pub Good : Run w → Type 0
  Good r = Holds w.host r.task.state r.task r.acked

  pub handle_parsing_metadata-Good :
      (r : Run w)
      → Holds w.host parsing_metadata r.task r.acked
      → Good (handle_parsing_metadata w r).1
  unfolding handle_parsing_metadata
  handle_parsing_metadata-Good r h =
      elim (Result-cases (firmware_parse_metadata w.host r.task.version_dir)) [
        | inr (e, bad) ↦ rw (handle_parsing_metadata, bad) tt
        | inl (m, parsed) ↦
            elim (Result-cases (firmware_verify_integrity w.host m.bin_file_path m.sha256)) [
              | inr (e, bad) ↦ rw (handle_parsing_metadata, parsed, bad) tt
              | inl (u, verified) ↦ elim (Option-cases (w.host.read_file m.bin_file_path)) [
                | inl missing ↦ rw (handle_parsing_metadata, parsed, verified, missing) tt
                | inr (content, opens) ↦ elim (Bool-cases (w.malloc_fails m.file_size r.env)) [
                  | inl full ↦ rw (handle_parsing_metadata, parsed, verified, opens, full) tt
                  | inr given ↦
                      elim (Bool-cases (length (take m.file_size content) == m.file_size)) [
                        | inr short ↦
                            rw (handle_parsing_metadata, parsed, verified, opens, given, short) tt
                        | inl whole ↦
                            let small = h.2 m parsed in
                            rw (handle_parsing_metadata, parsed, verified, opens, given, whole)
                              (
                                content,
                                record {
                                  parsed = parsed;
                                  verified = verified;
                                  opens = opens;
                                  enough = omega (
                                    arith,
                                    length-take m.file_size content,
                                    (==_iff (length (take m.file_size content)) m.file_size).0
                                        whole,
                                  );
                                  small = small;
                                  segments = omega arith;
                                },
                                h.0,
                                h.1,
                              )
                      ]
                ]
              ]
            ]
      ]

  after_poll-Good :
      (r : Run w) (p : Poll w)
      → r.task.state ≡ transfer_start
      → Holds w.host transfer_start r.task r.acked
      → Good (after_poll w r p).1
  unfolding after_poll
  after_poll-Good r (gave_up e env) at h = tt
  after_poll-Good r stuck at h = rw at h
  after_poll-Good r (answered result env) at h = elim (Bool-cases (result == 0)) [
    | inr refused ↦ rw (after_poll, refused) tt
    | inl ready ↦ elim (Option-cases (w.host.read_file r.task.metadata.bin_file_path)) [
      | inl missing ↦ rw (after_poll, ready, missing) tt
      | inr (content, opens) ↦ elim (Bool-cases (w.aborted (interruptible_sleep w 20 env))) [
        | inl stopped ↦ rw (after_poll, ready, opens, stopped) tt
        | inr awake ↦
            let (whole, loaded, none_sent, limit) = h in
            let same : some content ≡ some whole = sym opens ∙ loaded.opens in
            let start : place r.task.metadata.file_size 0 0 ≡ 0 = omega arith in
            rw (after_poll, ready, opens, awake)
              (
                whole,
                loaded,
                record {
                  pos = 0;
                  file = cc;
                  acked_prefix = rw start none_sent;
                  in_file = omega arith;
                  in_segment = λ pos. absurd (omega arith);
                  offset = λ pos. absurd (omega arith);
                  packets = λ pos. absurd (omega arith);
                  tries = omega arith;
                  limit = limit;
                  in_packets = λ pos. absurd (omega arith);
                  at_packet = λ pos. absurd (omega arith);
                },
              )
      ]
    ]
  ]

  pub handle_transfer_start-Good :
      (r : Run w)
      → r.task.state ≡ transfer_start
      → Holds w.host transfer_start r.task r.acked
      → Good (handle_transfer_start w r).1
  unfolding handle_transfer_start
  handle_transfer_start-Good r at h =
      let (built, seq) = build_transfer_start (start_params w r.task) 512 r.task.seq in
      elim (Result-cases built) [
        | inr (e, bad) ↦ rw (handle_transfer_start, bad) tt
        | inl (frame, fine) ↦
            rw (handle_transfer_start, fine)
              (after_poll-Good (record r { task = record r.task { seq = seq } }) _ at h)
      ]
