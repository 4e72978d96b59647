-- ===== src/MessageRing/Refine.antt =====
-- The ring of rng.c against a bounded queue of messages: a producer and a consumer cannot tell them
-- apart, whatever they call and in whatever order.
use dpb_s_mgmt.Base.{
  ℕ, zero, suc, ◌-◌, ◌*◌, ◌%◌, ◌^◌, ◌<◌, ◌≡◌, refl, sym, ap, ◌∙◌, Bool, true, false, List, [], ◌∷◌,
  ◌++◌, arith, length, copy_in, length-copy_in, ◌==◌, if◌then◌else◌, Bool-cases, inl, inr,
}
use dpb_s_mgmt.MessageRing.{
  Rng, added, write_done, read_done, get_n_msgs, clear, is_ful, fill, message_at_read,
}
use dpb_s_mgmt.MessageRing.Slots.{
  slots, slot_room, slot-written, IsBehind, IsBehind-next, added-cases, length-slots, slots-snoc,
  slots-other,
}

-- The storage has the room that the ring is configured for, and the indices lie in it.
abbrev pub IsValid : Rng → Type 0
IsValid r =
    (length r.buf ≡ r.max_msgs * r.msg_len)
    × (length r.buf < 2 ^ 32)
    × (r.max_msgs < 2 ^ 31)
    × (r.in_index < r.max_msgs)
    × (r.out_index < r.max_msgs)

-- The messages that are not read yet, the oldest first.
abbrev pub contents : Rng → List (List ℕ)
contents r = slots r.msg_len r.max_msgs r.buf r.out_index (get_n_msgs r)

-- The calls of the interface: a message is put at the write pointer and `rngWriteDone` is called, or the
-- message at the read pointer is taken and `rngReadDone` is called, when `rngGetNMsgs` is not zero.
pub data Op : Type 0 where
  writes : List ℕ → Op
  reads counts asks_full clears : Op

-- What a call hands back.
pub data Reply : Type 0 where
  message : List ℕ → Reply
  number : ℕ → Reply
  flag : Bool → Reply
  nothing done : Reply

unfoldable pub step : Rng → Op → Rng × Reply
step r (writes msg) = (write_done (fill msg r), done)
step r reads =
    if get_n_msgs r == 0 then (r, nothing) else (read_done r, message (message_at_read r))
step r counts = (r, number (get_n_msgs r))
step r asks_full = (r, flag (is_ful r))
step r clears = (clear r, done)

-- A queue of at most `cap` messages, which drops what it has no room for.
pub queue_step : ℕ → List (List ℕ) → Op → List (List ℕ) × Reply
queue_step cap q (writes msg) = (if length q == cap then q else q ++ (msg ∷ []), done)
queue_step cap [] reads = ([], nothing)
queue_step cap (m ∷ q) reads = (q, message m)
queue_step cap q counts = (q, number (length q))
queue_step cap q asks_full = (q, flag (length q == cap))
queue_step cap q clears = ([], done)

unfoldable pub run : Rng → List Op → List Reply
run r [] = []
run r (o ∷ os) = let (r', reply) = step r o in reply ∷ run r' os

pub queue_run : ℕ → List (List ℕ) → List Op → List Reply
queue_run cap q [] = []
queue_run cap q (o ∷ os) = let (q', reply) = queue_step cap q o in reply ∷ queue_run cap q' os

-- The messages have the ring's length.
abbrev pub Fits : ℕ → Op → Type 0
Fits len (writes msg) = length msg ≡ len
Fits len _ = Unit {0}

abbrev pub AllFit : ℕ → List Op → Type 0
AllFit len [] = Unit {0}
AllFit len (o ∷ os) = Fits len o × AllFit len os

n_msgs-IsBehind : (r : Rng) → IsValid r → IsBehind r.max_msgs r.out_index (get_n_msgs r) r.in_index
unfolding get_n_msgs
n_msgs-IsBehind r v = ground arith

distance_unique : {max o d d' i : ℕ} → IsBehind max o d i → IsBehind max o d' i → d ≡ d'
distance_unique b b' = ground arith

-- A pointer into a valid ring does not wrap around.
place_lem :
    (r : Rng) (i : ℕ) → IsValid r → i < r.max_msgs → (i * r.msg_len) % 2 ^ 32 ≡ i * r.msg_len
place_lem r i v h = let room = slot_room {i = i} {o = r.max_msgs} r.msg_len h in omega arith

-- The write index moves on by one slot.
IsBehind-suc :
    {max o d i : ℕ}
    → max < 2 ^ 31
    → IsBehind max o d i
    → suc d < max
    → IsBehind max o (suc d) (added max i)
IsBehind-suc {max} {o} {d} {i} small b h = elim (added-cases {max = max} {i = i} small b.3) [
  | inl (e, h') ↦ rw e (ground arith)
  | inr (e, h') ↦ rw e (ground arith)
]

-- The ring is full when one slot is left.
is_ful-eq : (r : Rng) → IsValid r → is_ful r ≡ (get_n_msgs r == r.max_msgs - 1)
unfolding is_ful
is_ful-eq r v =
    let b = n_msgs-IsBehind r v in
    elim (added-cases {max = r.max_msgs} {i = r.in_index} v.2 v.3) [
      | inl (e, h) ↦ rw e (ground arith)
      | inr (e, h) ↦ rw e (ground arith)
    ]

record Refined (r : Rng) (o : Op) : Type 0 where
  reply : (step r o).1 ≡ (queue_step (r.max_msgs - 1) (contents r) o).1
  state : contents (step r o).0 ≡ (queue_step (r.max_msgs - 1) (contents r) o).0
  valid : IsValid (step r o).0
  max_kept : (step r o).0.max_msgs ≡ r.max_msgs
  len_kept : (step r o).0.msg_len ≡ r.msg_len

-- A ring whose indices are known to lie `n` slots apart.
contents-eq :
    (r : Rng) (n : ℕ)
    → IsValid r
    → IsBehind r.max_msgs r.out_index n r.in_index
    → contents r ≡ slots r.msg_len r.max_msgs r.buf r.out_index n
contents-eq r n v b =
    ap (slots r.msg_len r.max_msgs r.buf r.out_index) (distance_unique (n_msgs-IsBehind r v) b)

fill-IsValid : (r : Rng) (msg : List ℕ) → IsValid r → IsValid (fill msg r)
fill-IsValid r msg v =
    let same = length-copy_in r.buf ((r.in_index * r.msg_len) % 2 ^ 32) msg in
    (same ∙ v.0, rw same v.1, v.2, v.3, v.4)

-- The message is behind the others in the storage, whether the index moves on or not.
fill-slots :
    (r : Rng) (msg : List ℕ)
    → IsValid r
    → length msg ≡ r.msg_len
    → let b = (fill msg r).buf in
      let n = get_n_msgs r in
      (slots r.msg_len r.max_msgs b r.out_index n ≡ contents r)
      × (slots r.msg_len r.max_msgs b r.out_index (suc n) ≡ contents r ++ (msg ∷ []))
fill-slots r msg v size =
    let n = get_n_msgs r in
    let behind = n_msgs-IsBehind r v in
    let room = slot_room {i = r.in_index} {o = r.max_msgs} r.msg_len v.3 in
    let here = slot-written r.msg_len r.in_index r.buf msg size (omega arith) in
    let b = copy_in r.buf (r.in_index * r.msg_len) msg in
    let others =
      slots-other r.msg_len r.max_msgs v.2 r.buf msg r.out_index n n {i = r.in_index} size
        (omega arith) behind in
    let last = slots-snoc r.msg_len r.max_msgs v.2 b r.out_index n {i = r.in_index} behind in
    let e : (fill msg r).buf ≡ b = ap (λ at. copy_in r.buf at msg) (place_lem r r.in_index v v.3) in
    (
      ap (λ x. slots r.msg_len r.max_msgs x r.out_index n) e ∙ others,
      ap (λ x. slots r.msg_len r.max_msgs x r.out_index (suc n)) e ∙ last ∙ rw (others, here) refl,
    )

write-Refined :
    (r : Rng) (msg : List ℕ) → IsValid r → Fits r.msg_len (writes msg) → Refined r (writes msg)
unfolding step queue_step write_done is_ful
write-Refined r msg v size =
    let behind = n_msgs-IsBehind r v in
    let filled = fill-slots r msg v size in
    let valid = fill-IsValid r msg v in
    let count = length-slots r.msg_len r.max_msgs r.buf r.out_index (get_n_msgs r) in
    elim (Bool-cases (added r.max_msgs r.in_index == r.out_index)) [
      | inl full ↦
          let e : (get_n_msgs r == r.max_msgs - 1) ≡ true = sym (is_ful-eq r v) ∙ full in
          record {
            reply = refl;
            state =
                rw (full, count, e)
                  (contents-eq (fill msg r) (get_n_msgs r) valid behind ∙ filled.0);
            valid = rw full valid;
            max_kept = rw full refl;
            len_kept = rw full refl;
          }
      | inr free ↦
          let e : (get_n_msgs r == r.max_msgs - 1) ≡ false = sym (is_ful-eq r v) ∙ free in
          let next = added r.max_msgs r.in_index in
          let behind' : IsBehind r.max_msgs r.out_index (suc (get_n_msgs r)) next =
            IsBehind-suc v.2 behind (ground arith) in
          let r' : Rng = record (fill msg r) { in_index = next } in
          let valid' : IsValid r' = (valid.0, valid.1, v.2, behind'.3, v.4) in
          record {
            reply = refl;
            state =
                rw (free, count, e) (contents-eq r' (suc (get_n_msgs r)) valid' behind' ∙ filled.1);
            valid = rw free valid';
            max_kept = rw free refl;
            len_kept = rw free refl;
          }
    ]

read-Refined : (r : Rng) (n : ℕ) → IsValid r → get_n_msgs r ≡ n → Refined r reads
unfolding step queue_step
read-Refined r zero v e = record {
  reply = rw e refl;
  state = rw e (ap (slots r.msg_len r.max_msgs r.buf r.out_index) e);
  valid = rw e v;
  max_kept = rw e refl;
  len_kept = rw e refl;
}
read-Refined r (suc n) v e =
    let behind : IsBehind r.max_msgs r.out_index (suc n) r.in_index =
      rw (sym e) (n_msgs-IsBehind r v) in
    let behind' =
      IsBehind-next {max = r.max_msgs} {o = r.out_index} {d = n} {i = r.in_index} v.2 behind in
    let valid' : IsValid (read_done r) = (v.0, v.1, v.2, v.3, behind'.0) in
    let place = place_lem r r.out_index v v.4 in
    let positive : (suc n == 0) ≡ false = ground arith in
    record {
      reply = rw (e, positive, place) refl;
      state = rw (e, positive) (contents-eq (read_done r) n valid' behind');
      valid = rw (e, positive) valid';
      max_kept = rw (e, positive) refl;
      len_kept = rw (e, positive) refl;
    }

step-Refined : (r : Rng) (o : Op) → IsValid r → Fits r.msg_len o → Refined r o
unfolding step queue_step
step-Refined r (writes msg) v h = write-Refined r msg v h
step-Refined r reads v h = read-Refined r (get_n_msgs r) v refl
step-Refined r counts v h =
    let count = length-slots r.msg_len r.max_msgs r.buf r.out_index (get_n_msgs r) in
    record {
      reply = ap number (sym count);
      state = refl;
      valid = v;
      max_kept = refl;
      len_kept = refl;
    }
step-Refined r asks_full v h =
    let count = length-slots r.msg_len r.max_msgs r.buf r.out_index (get_n_msgs r) in
    record {
      reply = ap flag (is_ful-eq r v ∙ ap (λ n. n == r.max_msgs - 1) (sym count));
      state = refl;
      valid = v;
      max_kept = refl;
      len_kept = refl;
    }
step-Refined r clears v h =
    let valid : IsValid (clear r) = (v.0, v.1, v.2, omega (arith, v.3), omega (arith, v.3)) in
    record {
      reply = refl;
      state = contents-eq (clear r) 0 valid (ground (arith, v.3));
      valid = valid;
      max_kept = refl;
      len_kept = refl;
    }

-- On a valid ring, any sequence of writes of messages of the ring's length, reads, counts, tests and
-- clears gives the replies of a queue of `maxMsgs - 1` messages, which starts with the ring's contents
-- and drops a message that it has no room for.
pub run_queues :
    (r : Rng) (os : List Op)
    → IsValid r
    → AllFit r.msg_len os
    → run r os ≡ queue_run (r.max_msgs - 1) (contents r) os
unfolding run queue_run
run_queues r [] v h = refl
run_queues r (o ∷ os) v h =
    let f = step-Refined r o v h.0 in
    let fit : AllFit (step r o).0.msg_len os = rw f.len_kept h.1 in
    let cap = r.max_msgs - 1 in
    let rest =
      run_queues (step r o).0 os f.valid fit
      ∙ ap (λ max. queue_run (max - 1) (contents (step r o).0) os) f.max_kept
      ∙ ap (λ q. queue_run cap q os) f.state in
    rw f.reply (ap (◌∷◌ (queue_step cap (contents r) o).1) rest)
