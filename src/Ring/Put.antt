-- ===== src/Ring/Put.antt =====
-- `rBufPut` appends to the contents as many bytes as fit.
use native.Mathlib.Decide.{dec_lt}
use dpb_s_mgmt.Base.{
  ℕ, ◌+◌, ◌-◌, ◌^◌, ◌≤◌, ◌<◌, min, ◌≡◌, ap, ◌∙◌, List, ◌++◌, arith, length, take, drop, copy_in,
  ltb, add32, ◌⊎◌, refl, ltb→lt, lt→ltb, ==_iff, ◌==◌, ◌≢◌, sym, false, length-take, length-drop,
  length-copy_in, sub32, take-split, Bool-cases, inl, inr,
}
use dpb_s_mgmt.Ring.{RBuf, put, put_once, put_unwrapped}
use dpb_s_mgmt.Ring.Contents.{
  IsValid, contents, length-contents_of_le, length-contents_of_lt, held-copy_in_le, held-copy_in_lt,
  held-copy_in_round, held-copy_in_end,
}

-- What a put of `src` that returned `out` has done.
pub record Appended (r : RBuf) (src : List ℕ) (out : RBuf × ℕ) : Type 0 where
  pub count : out.1 ≡ min (length src) (r.len - 1 - length (contents r))
  pub bytes : contents out.0 ≡ contents r ++ take out.1 src
  pub valid : IsValid out.0
  pub len_kept : out.0.len ≡ r.len

-- The part that is copied up to the end of the storage or to the read index.
length-take_min : (n : ℕ) (src : List ℕ) → n ≤ length src → length (take n src) ≡ n
length-take_min n src h = omega (arith, length-take n src)

module _ {r : RBuf} (src : List ℕ) (v : IsValid r) (small : length src < 2 ^ 32) where
  -- One copy, where the room is all the free space and ends before the next boundary.
  put_once-Appended :
      (room : ℕ)
      → room ≡ r.len - 1 - length (contents r)
      → ((r.in_index + room < r.out_index)
          ⊎ ((r.out_index ≤ r.in_index) × (r.in_index + room < r.len)))
      → Appended r src (put_once r src room)
  unfolding put_once
  put_once-Appended room e h =
      let n : ℕ = min (length src) room in
      let i' : ℕ = add32 r.in_index n in
      let l : length (take n src) ≡ n = length-take_min n src (omega arith) in
      record {
        count = ap (min (length src)) e;
        bytes = elim h [
          | inl lt ↦
              held-copy_in_lt r.buf r.in_index r.out_index i' (take n src) (omega arith)
                (omega arith) (omega arith)
          | inr le ↦
              held-copy_in_le r.buf r.in_index r.out_index i' (take n src) le.0 (omega arith)
                (omega arith)
        ];
        valid = omega (arith, length-copy_in r.buf r.in_index (take n src));
        len_kept = refl;
      }

  -- Two copies, round the end of the storage.
  put_unwrapped-Appended :
      0 < r.out_index → r.out_index ≤ r.in_index → Appended r src (put_unwrapped r src)
  unfolding put_unwrapped
  put_unwrapped-Appended ho h =
      let n : ℕ = min (length src) (sub32 r.len r.in_index) in
      let l : length (take n src) ≡ n = length-take_min n src (omega arith) in
      let m : ℕ = min (sub32 (length src) n) (sub32 r.out_index 1) in
      let lm : length (take m (drop n src)) ≡ m =
        length-take_min m (drop n src) (omega (arith, length-drop n src)) in
      let held : length (contents r) ≡ r.in_index - r.out_index = length-contents_of_le v h in
      let b : List ℕ = copy_in r.buf r.in_index (take n src) in
      elim (Bool-cases (ltb n (length src))) [
        | inl more ↦
            let lt : n < length src = ltb→lt _ _ more in
            rw more (record {
              count = omega arith;
              bytes =
                  held-copy_in_round r.buf r.in_index r.out_index m (take n src)
                    (take m (drop n src)) h (omega arith) (omega arith) (omega arith)
                  ∙ ap (◌++◌ (contents r)) (sym (take-split n m (add32 n m) src (omega arith)));
              valid = omega (
                arith,
                length-copy_in r.buf r.in_index (take n src),
                length-copy_in b 0 (take m (drop n src)),
              );
              len_kept = refl;
            })
        | inr all ↦
            let le : n ≡ length src = ground arith in
            rw all (elim (Bool-cases (add32 r.in_index n == r.len)) [
              | inl end ↦ rw end (record {
                count = omega arith;
                bytes =
                    held-copy_in_end r.buf r.in_index r.out_index (take n src) h ho
                      (omega (arith, (==_iff _ _).0 end));
                valid = omega (arith, length-copy_in r.buf r.in_index (take n src));
                len_kept = refl;
              })
              | inr inside ↦
                  let ne : add32 r.in_index n ≢ r.len = ground arith in
                  rw inside (record {
                    count = omega arith;
                    bytes =
                        held-copy_in_le r.buf r.in_index r.out_index (add32 r.in_index n)
                          (take n src) h (omega arith) (omega arith);
                    valid = omega (arith, length-copy_in r.buf r.in_index (take n src));
                    len_kept = refl;
                  })
            ])
      ]

  -- `rBufPut` on a valid ring takes as many bytes as there are free places (one place always stays
  -- free) and returns their number; it appends exactly that prefix to the contents, in order, on
  -- each of its three branches; and the ring stays valid with its length unchanged.
  pub put-Appended : Appended r src (put r src)
  unfolding put
  put-Appended = elim (dec_lt r.in_index r.out_index) [
    | yes lt ↦
        rw (lt→ltb _ _ lt)
          (put_once-Appended _ (omega (arith, length-contents_of_lt v lt)) (inl (omega arith)))
    | no ge ↦
        let le : r.out_index ≤ r.in_index = omega arith in
        let skip : ltb r.in_index r.out_index ≡ false = ground arith in
        rw skip (elim (Bool-cases (r.out_index == 0)) [
          | inl z ↦
              let e : r.out_index ≡ 0 = (==_iff _ _).0 z in
              rw z (
                put_once-Appended _ (omega (arith, length-contents_of_le v le))
                  (inr (le, omega arith)))
          | inr nz ↦
              let pos : 0 < r.out_index = ground arith in rw nz (put_unwrapped-Appended pos le)
        ])
  ]
