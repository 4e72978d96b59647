-- ===== src/FpgaUart/Split.antt =====
-- The loop ends, and the frames that it finds do not depend on where the reads cut the stream.
use dpb_s_mgmt.Base.{
  ℕ, zero, suc, ◌+◌, ◌≤◌, ◌<◌, ◌≡◌, refl, sym, ap, ◌∙◌, some, List, [], ◌∷◌, ◌++◌, length, arith,
  Option-cases, inl, inr, AreBytes, ◌⊎◌, ltb, Bool-cases, length-append,
}
use dpb_s_mgmt.FpgaUart.{Delivery, Step, done, skip, frame, step, process, add_frame, receive}
use dpb_s_mgmt.FpgaUart.Steps.{Shrinks, extend, step-Shrinks, step-extend, step-done}

pub Step-cases :
    (s : Step)
    → ((c : List ℕ) × (s ≡ done c))
      ⊎ ((c : List ℕ) × (s ≡ skip c))
      ⊎ ((d : Delivery) × (c : List ℕ) × (s ≡ frame d c))
Step-cases (done c) = inl (c, refl)
Step-cases (skip c) = inr (inl (c, refl))
Step-cases (frame d c) = inr (inr (d, c, refl))

-- With fuel for every byte the loop ends, and keeps no more bytes than it had.
pub process-ends :
    (n : ℕ) (b : List ℕ)
    → length b < n
    → (r : List Delivery × List ℕ) × (process n b ≡ some r) × (length r.1 ≤ length b)
unfolding process
process-ends zero b h = absurd (omega arith)
process-ends (suc n) b h = elim (Step-cases (step b)) [
  | inl (c, e) ↦
      let k : Shrinks (length b) (done c) = rw e at (step-Shrinks b) in
      (([], c), rw (process, e) refl, k)
  | inr (inl (c, e)) ↦
      let k : Shrinks (length b) (skip c) = rw e at (step-Shrinks b) in
      let (r, found, shorter) = process-ends n c (omega arith) in
      (r, rw (process, e) found, omega arith)
  | inr (inr (d, c, e)) ↦
      let k : Shrinks (length b) (frame d c) = rw e at (step-Shrinks b) in
      let (r, found, shorter) = process-ends n c (omega arith) in
      ((d ∷ r.0, r.1), rw (process, e) (rw found refl), omega arith)
]

-- Any fuel above the number of bytes gives the same.
pub process-fuel :
    (m k : ℕ) (b : List ℕ) {r : List Delivery × List ℕ}
    → process m b ≡ some r
    → length b < k
    → process k b ≡ some r
unfolding process
process-fuel zero k b e h = cc
process-fuel (suc m) zero b e h = absurd (omega arith)
process-fuel (suc m) (suc k) b {r} e h = elim (Step-cases (step b)) [
  | inl (c, ends) ↦ rw (process, ends) (rw (process, ends) at e)
  | inr (inl (c, goes)) ↦
      let shorter : Shrinks (length b) (skip c) = rw goes at (step-Shrinks b) in
      rw (process, goes) (process-fuel m k c {r = r} (rw (process, goes) at e) (omega arith))
  | inr (inr (d, c, goes)) ↦
      let shorter : Shrinks (length b) (frame d c) = rw goes at (step-Shrinks b) in
      let inner : add_frame d (process m c) ≡ some r = rw (process, goes) at e in
      elim (Option-cases (process m c)) [
        | inl out ↦ ground arith
        | inr (r', found) ↦
            rw (process, goes)
              (rw (process-fuel m k c {r = r'} found (omega arith)) (rw found at inner))
      ]
]

-- The frames and the rest that the loop finds in some bytes, and then in that rest with more bytes
-- behind it, are the frames and the rest that it finds in all of them at once: how `read` cuts the
-- stream into pieces does not matter, as long as the buffer has room.
pub process-split :
    (n m k : ℕ) (b ys : List ℕ) {ds ds' : List Delivery} {c r : List ℕ}
    → AreBytes ys
    → process n b ≡ some (ds, c)
    → process m (c ++ ys) ≡ some (ds', r)
    → length b + length ys < k
    → process k (b ++ ys) ≡ some (ds ++ ds', r)
unfolding process
process-split zero m k b ys bytes e e' h = cc
process-split (suc n) m zero b ys bytes e e' h = absurd (omega arith)
process-split (suc n) m (suc k) b ys {ds} {ds'} {c} {r} bytes e e' h = elim (Step-cases (step b)) [
  | inl (kept, ends) ↦
      let shorter : Shrinks (length b) (done kept) = rw ends at (step-Shrinks b) in
      let same : some ([], kept) ≡ some (ds, c) = rw (process, ends) at e in
      let none_yet : [] ≡ ds = cc in
      let rest : kept ≡ c = cc in
      let later : process (suc k) (kept ++ ys) ≡ some (ds', r) =
        process-fuel m (suc k) (kept ++ ys) {r = (ds', r)} (rw rest e')
          (omega (arith, length-append kept ys)) in
      rw (sym none_yet) (rw (process, step-done b kept ys bytes ends) later)
  | inr (inl (next, goes)) ↦
      let shorter : Shrinks (length b) (skip next) = rw goes at (step-Shrinks b) in
      let again : step (b ++ ys) ≡ skip (next ++ ys) =
        step-extend b ys (rw goes tt) ∙ ap (extend ys) goes in
      rw (process, again)
        (process-split n m k next ys {ds = ds} {ds' = ds'} {c = c} {r = r} bytes
          (rw (process, goes) at e) e' (omega arith))
  | inr (inr (d, next, goes)) ↦
      let shorter : Shrinks (length b) (frame d next) = rw goes at (step-Shrinks b) in
      let again : step (b ++ ys) ≡ frame d (next ++ ys) =
        step-extend b ys (rw goes tt) ∙ ap (extend ys) goes in
      let inner : add_frame d (process n next) ≡ some (ds, c) = rw (process, goes) at e in
      elim (Option-cases (process n next)) [
        | inl out ↦ ground arith
        | inr ((ds1, c1), found) ↦
            let whole : some (d ∷ ds1, c1) ≡ some (ds, c) = rw found at inner in
            let first : d ∷ ds1 ≡ ds = cc in
            let rest : c1 ≡ c = cc in
            let later =
              process-split n m k next ys {ds = ds1} {ds' = ds'} {c = c1} {r = r} bytes found
                (rw rest e') (omega arith) in
            rw (process, again) (rw later (rw (sym first) refl))
      ]
]

-- A buffer of at most 2048 bytes takes every read: the loop ends within its fuel, and leaves at most
-- 2048 bytes in the buffer.
pub receive-fits :
    (buffer bytes : List ℕ)
    → length buffer ≤ 2048
    → (r : List Delivery × List ℕ) × (receive buffer bytes ≡ some r) × (length r.1 ≤ 2048)
unfolding receive
receive-fits buffer bytes h = elim (Bool-cases (ltb 2048 (length bytes))) [
  | inl large ↦ elim (Bool-cases (ltb 2048 (length buffer + length bytes))) [
    | inl over ↦ (([], []), rw (receive, large, over) refl, omega arith)
    | inr fits ↦ (([], buffer), rw (receive, large, fits) refl, h)
  ]
  | inr small ↦ elim (Bool-cases (ltb 2048 (length buffer + length bytes))) [
    | inl over ↦
        let (r, e, shorter) = process-ends 2049 bytes (ground arith) in
        (r, rw (receive, small, over) e, ground arith)
    | inr fits ↦
        let n = length-append buffer bytes in
        let room : length (buffer ++ bytes) ≤ 2048 = ground (arith, n) in
        let (r, e, shorter) = process-ends 2049 (buffer ++ bytes) (omega arith) in
        (r, rw (receive, small, fits) e, omega arith)
  ]
]
