-- ===== src/Uart/Receive.antt =====
-- `uart_rs422_recv_frame` returns acknowledgements, and gives up on a chunk that completes none.
use dpb_s_mgmt.Base.{
  ℕ, ◌^◌, ◌≤◌, ◌<◌, ◌≡◌, refl, ◌∙◌, Bool, true, false, Option, some, List, [], ◌∷◌, arith, length,
  ltb, ◌==◌, AreBytes, AreBytes-append, AreBytes-take, AreBytes-drop, Bool-cases, inl, inr, ok, err,
}
use dpb_s_mgmt.Ring.{RBuf, put, clear}
use dpb_s_mgmt.Ring.Contents.{IsValid, contents, n_bytes-eq-length}
use dpb_s_mgmt.Ring.Put.{put-Appended}
use dpb_s_mgmt.Finder.Packet.{IsSane}
use dpb_s_mgmt.Finder.Stream.{Parsed, parse-Parsed}
use dpb_s_mgmt.Uart.{
  Held, Context, ack_finder, check_and_process, Event, time_over, select_failed, quiet, read_failed,
  chunk, Received, returned, waiting, stuck, store, deliver, take_chunk, recv_round, continue,
  recv_loop, recv_frame,
}
use dpb_s_mgmt.Uart.Frames.{IsAnswer, Kept, check_and_process-Keeps}

ack_finder-IsSane : IsSane ack_finder
ack_finder-IsSane = record {
  head_pos = omega arith;
  fix_len = λ e. cc;
  add_len = omega arith;
  field_small = omega arith;
  small_pos = omega arith;
  small_fix = omega arith;
  small_add = omega arith;
}

-- A ring as `uart_recv_context_init` makes it, with bytes in it.
pub record IsStream (r : RBuf) : Type 0 where
  pub valid : IsValid r
  pub size : r.len ≡ 5120
  pub bytes : AreBytes (contents r)

clear-IsStream : {r : RBuf} → IsStream r → IsStream (clear r)
unfolding clear
clear-IsStream {r} s = record { valid = omega (arith, s.valid, s.size); size = s.size; bytes = tt }

put-IsStream :
    {r : RBuf} (src : List ℕ)
    → IsStream r
    → AreBytes src
    → length src < 2 ^ 31
    → IsStream (put r src).0
put-IsStream {r} src s h small =
    let a = put-Appended {r = r} src s.valid (omega arith) in
    record {
      valid = a.valid;
      size = a.len_kept ∙ s.size;
      bytes = rw a.bytes (AreBytes-append (contents r) _ s.bytes (AreBytes-take _ src h));
    }

store-IsStream :
    {r : RBuf} (src : List ℕ)
    → IsStream r
    → AreBytes src
    → length src < 2 ^ 31
    → IsStream (store r src)
unfolding store
store-IsStream {r} src s h small = elim (Bool-cases ((put r src).1 == 0)) [
  | inl full ↦ rw full (put-IsStream src (clear-IsStream s) h small)
  | inr took ↦ rw took (put-IsStream src s h small)
]

-- What a call has returned by the end of a round with bytes: it never goes on waiting.
abbrev Done : ℕ → Received → Type 0
Done size (returned (ok frame) c) = IsStream c.rbuf × IsAnswer frame × (length frame ≤ size)
Done size (returned (err e) c) = IsStream c.rbuf
Done size (waiting c) = ⊥
Done size stuck = ⊥

deliver-Done :
    (size : ℕ) (r : RBuf) (h : Held) (good : Bool)
    → IsStream r
    → Kept 0 good h
    → Done size (deliver size (some (r, h, good)))
unfolding deliver
deliver-Done size r h false s k = s
deliver-Done size r h true s k = elim (Bool-cases (ltb size (length h.frame))) [
  | inl more ↦ rw (k.0, more) s
  | inr fits ↦ rw (k.0, fits) (s, k.1 refl, ground arith)
]

Parsed-IsStream :
    {r : RBuf} {o : Option (RBuf × Held × Bool)}
    → IsStream r
    → (p : Parsed ack_finder check_and_process r Kept o) → IsStream p.ring
Parsed-IsStream {r} s p = record {
  valid = p.valid;
  size = p.len_kept ∙ s.size;
  bytes = rw p.rest (AreBytes-drop p.gone (contents r) s.bytes);
}

take_chunk-Done :
    (size : ℕ) (c : Context) (b : ℕ) (bytes : List ℕ)
    → IsStream c.rbuf
    → c.held.ready ≡ false
    → AreBytes (b ∷ bytes)
    → length (b ∷ bytes) ≤ 1024
    → Done size (take_chunk size c (b ∷ bytes))
unfolding take_chunk
take_chunk-Done size c b bytes s idle h small =
    let r : RBuf = store c.rbuf (b ∷ bytes) in
    let s' : IsStream r = store-IsStream (b ∷ bytes) s h (omega arith) in
    let fits : length (contents r) < 5120 = omega (arith, n_bytes-eq-length s'.valid, s'.size) in
    let p =
      parse-Parsed ack_finder check_and_process Kept {r = r} 5121 5120 c.held
        (check_and_process-Keeps (contents r) s'.bytes) ack_finder-IsSane s'.valid s'.bytes
        (omega (arith, s'.size)) (omega arith) (omega arith) (omega arith) (idle, λ e. cc) in
    rw p.returns (deliver-Done size p.ring p.exec p.ok (Parsed-IsStream s' p) p.kept)

-- What `read` may return.
abbrev pub IsPossible : Event → Type 0
IsPossible (chunk bytes) = AreBytes bytes × (length bytes ≤ 1024)
IsPossible time_over = Unit {0}
IsPossible select_failed = Unit {0}
IsPossible quiet = Unit {0}
IsPossible read_failed = Unit {0}

abbrev pub ArePossible : List Event → Type 0
ArePossible [] = Unit {0}
ArePossible (e ∷ events) = IsPossible e × ArePossible events

-- Nothing has come.
abbrev pub IsIdle : Event → Type 0
IsIdle quiet = Unit {0}
IsIdle (chunk []) = Unit {0}
IsIdle (chunk (b ∷ bytes)) = ⊥
IsIdle time_over = ⊥
IsIdle select_failed = ⊥
IsIdle read_failed = ⊥

abbrev pub AreIdle : List Event → Type 0
AreIdle [] = Unit {0}
AreIdle (e ∷ events) = IsIdle e × AreIdle events

-- What a call of `uart_rs422_recv_frame` may come to over `events`.
abbrev pub Good : ℕ → List Event → Received → Type 0
Good size events (returned (ok frame) c) = IsStream c.rbuf × IsAnswer frame × (length frame ≤ size)
Good size events (returned (err e) c) = IsStream c.rbuf
Good size events (waiting c) = IsStream c.rbuf × AreIdle events
Good size events stuck = ⊥

Done-Good :
    (size : ℕ) (events : List Event) (rest : Context → Received) (o : Received)
    → Done size o
    → Good size events (continue rest o)
unfolding continue
Done-Good size events rest (returned (ok frame) c) d = d
Done-Good size events rest (returned (err e) c) d = d
Done-Good size events rest (waiting c) d = absurd d
Done-Good size events rest stuck d = absurd d

idle-Good :
    (size : ℕ) (e : Event) (events : List Event) (o : Received)
    → IsIdle e
    → Good size events o
    → Good size (e ∷ events) o
idle-Good size e events (returned (ok frame) c) i g = g
idle-Good size e events (returned (err x) c) i g = g
idle-Good size e events (waiting c) i g = (g.0, (i, g.1))
idle-Good size e events stuck i g = g

recv_loop-Good :
    (size : ℕ) (events : List Event) (c : Context)
    → ArePossible events
    → IsStream c.rbuf
    → c.held.ready ≡ false
    → Good size events (recv_loop size events c)
unfolding recv_loop recv_round continue take_chunk
recv_loop-Good size [] c p s idle = (s, tt)
recv_loop-Good size (time_over ∷ events) c p s idle = s
recv_loop-Good size (select_failed ∷ events) c p s idle = s
recv_loop-Good size (read_failed ∷ events) c p s idle = s
recv_loop-Good size (quiet ∷ events) c p s idle =
    idle-Good size quiet events (recv_loop size events c) tt
      (recv_loop-Good size events c p.1 s idle)
recv_loop-Good size (chunk [] ∷ events) c p s idle =
    idle-Good size (chunk []) events (recv_loop size events c) tt
      (recv_loop-Good size events c p.1 s idle)
recv_loop-Good size (chunk (b ∷ bytes) ∷ events) c p s idle =
    Done-Good size (chunk (b ∷ bytes) ∷ events) (recv_loop size events)
      (take_chunk size c (b ∷ bytes)) (take_chunk-Done size c b bytes s idle p.0.0 p.0.1)

-- Over events in which every `read` returns at most 1024 bytes, and from a ring as
-- `uart_recv_context_init` makes it with bytes in it, `uart_rs422_recv_frame` leaves such a ring
-- behind; it is still waiting only if nothing at all has come; the fuel of the finder's loop is
-- enough; and a frame that it returns fits the caller's buffer, has 11 to 2048 bytes, and is
-- accepted by `rs422_decode_frame` if it has more than 11.
pub recv_frame-Good :
    (size : ℕ) (events : List Event) (c : Context)
    → ArePossible events
    → IsStream c.rbuf
    → Good size events (recv_frame size events c)
unfolding recv_frame
recv_frame-Good size events c p s =
    recv_loop-Good size events (record c { held = record { frame = c.held.frame; ready = false } })
      p s refl
