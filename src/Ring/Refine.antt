-- ===== src/Ring/Refine.antt =====
-- The ring of rBuf.c against a bounded queue of bytes: a producer and a consumer cannot tell them
-- apart, whatever they call and in whatever order.
use dpb_s_mgmt.Base.{
  ℕ, ◌-◌, ◌^◌, ◌<◌, min, ◌≡◌, refl, sym, ap, ◌∙◌, Bool, List, [], ◌∷◌, ◌++◌, arith, length, take,
  drop, ◌==◌, Bool-cases, inl, inr, ==_iff,
}
use dpb_s_mgmt.Ring.{RBuf, put, get, remove, clear, n_bytes, is_full}
use dpb_s_mgmt.Ring.Contents.{IsValid, contents, n_bytes-eq-length}
use dpb_s_mgmt.Ring.Put.{put-Appended}
use dpb_s_mgmt.Ring.Read.{get-contents, remove-Removed, is_full_iff}

-- The calls of the ring's interface, with what the caller passes.
pub data Op : Type 0 where
  puts : List ℕ → Op
  gets removes : ℕ → Op
  counts asks_full clears : Op

-- What a call hands back.
pub data Reply : Type 0 where
  number : ℕ → Reply
  bytes : List ℕ → Reply
  flag : Bool → Reply
  done : Reply

unfoldable pub step : RBuf → Op → RBuf × Reply
step r (puts src) = let (r', n) = put r src in (r', number n)
step r (gets n) = (r, bytes (get r n))
step r (removes n) = let (r', m) = remove r n in (r', number m)
step r counts = (r, number (n_bytes r))
step r asks_full = (r, flag (is_full r))
step r clears = (clear r, done)

-- A queue that holds at most `cap` bytes.
pub queue_step : ℕ → List ℕ → Op → List ℕ × Reply
queue_step cap q (puts src) =
    let n = min (length src) (cap - length q) in (q ++ take n src, number n)
queue_step cap q (gets n) = (q, bytes (take n q))
queue_step cap q (removes n) = (drop n q, number (min n (length q)))
queue_step cap q counts = (q, number (length q))
queue_step cap q asks_full = (q, flag (length q == cap))
queue_step cap q clears = ([], done)

unfoldable pub run : RBuf → List Op → List Reply
run r [] = []
run r (o ∷ os) = let (r', reply) = step r o in reply ∷ run r' os

pub queue_run : ℕ → List ℕ → List Op → List Reply
queue_run cap q [] = []
queue_run cap q (o ∷ os) = let (q', reply) = queue_step cap q o in reply ∷ queue_run cap q' os

-- The sizes that are passed fit in a `UINT`.
abbrev pub Fits : Op → Type 0
Fits (puts src) = length src < 2 ^ 32
Fits (gets n) = n < 2 ^ 32
Fits (removes n) = n < 2 ^ 32
Fits _ = Unit {0}

abbrev pub AllFit : List Op → Type 0
AllFit [] = Unit {0}
AllFit (o ∷ os) = Fits o × AllFit os

pub record Refined (r : RBuf) (o : Op) : Type 0 where
  pub reply : (step r o).1 ≡ (queue_step (r.len - 1) (contents r) o).1
  pub state : contents (step r o).0 ≡ (queue_step (r.len - 1) (contents r) o).0
  pub valid : IsValid (step r o).0
  pub len_kept : (step r o).0.len ≡ r.len

step-Refined : {r : RBuf} (o : Op) → IsValid r → Fits o → Refined r o
unfolding step queue_step clear
step-Refined {r} (puts src) v h =
    let a = put-Appended {r = r} src v h in
    record {
      reply = ap number a.count;
      state = a.bytes ∙ ap (λ n. contents r ++ take n src) a.count;
      valid = a.valid;
      len_kept = a.len_kept;
    }
step-Refined {r} (gets n) v h = record {
  reply = ap bytes (get-contents n v h);
  state = refl;
  valid = v;
  len_kept = refl;
}
step-Refined {r} (removes n) v h =
    let a = remove-Removed {r = r} n v h in
    record { reply = ap number a.count; state = a.bytes; valid = a.valid; len_kept = a.len_kept }
step-Refined {r} counts v h = record {
  reply = ap number (n_bytes-eq-length v).0;
  state = refl;
  valid = v;
  len_kept = refl;
}
step-Refined {r} asks_full v h = record {
  reply = ap flag (full_test {r = r} v);
  state = refl;
  valid = v;
  len_kept = refl;
}
  where
    full_test : {r : RBuf} → IsValid r → is_full r ≡ (length (contents r) == r.len - 1)
    full_test {r} v = elim (Bool-cases (is_full r)) [
      | inl e ↦ e ∙ sym ((==_iff _ _).1 (omega (arith, (is_full_iff v).0 e)))
      | inr e ↦ e ∙ ground (arith, e, (is_full_iff v).1)
    ]
step-Refined {r} clears v h = record {
  reply = refl;
  state = refl;
  valid = omega arith;
  len_kept = refl;
}

-- Every sequence of calls of the interface, on a valid ring, gets the replies of the bounded queue
-- that starts with the ring's contents and holds one byte less than the storage.
pub run_refines :
    (os : List Op) {r : RBuf}
    → IsValid r
    → AllFit os
    → run r os ≡ queue_run (r.len - 1) (contents r) os
unfolding run queue_run
run_refines [] v h = refl
run_refines (o ∷ os) {r} v h =
    let s = step-Refined {r = r} o v h.0 in
    rw (run_refines os s.valid h.1, s.len_kept, s.state, s.reply)
