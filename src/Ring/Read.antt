-- ===== src/Ring/Read.antt =====
-- `rBufGet` shows a prefix of the contents, `rBufRemove` drops one, `rBufIsFull` says when no byte
-- fits.
use native.Mathlib.Decide.{dec_le}
use mathlib.Core.List.{append-nil}
use dpb_s_mgmt.Base.{
  ℕ, ◌+◌, ◌-◌, ◌^◌, ◌≤◌, ◌<◌, min, ◌≡◌, refl, sym, ap, ◌∙◌, ◌↔◌, true, false, List, [], ◌++◌, arith,
  length, take, drop, ltb, leb, if◌then◌else◌, add32, sub32, Bool-cases, inl, inr, ◌⊎◌, leb→le,
  ltb→lt, take-take, take_all, take-append_left, take-append_right, drop-append_left,
  drop-append_right, drop-drop, drop-take, length-drop, drop-min,
}
use dpb_s_mgmt.Ring.{RBuf, get, remove, is_full, n_bytes}
use dpb_s_mgmt.Ring.Contents.{
  IsValid, contents, held, held_of_le, held_of_lt, length-contents_of_le, length-contents_of_lt,
  n_bytes-eq-length,
}

-- The branch of `rBufGet` in which the contents go round the end of the storage.
get-round :
    {r : RBuf} (n : ℕ)
    → IsValid r
    → n < 2 ^ 32
    → r.in_index < r.out_index
    → let m = min n (sub32 r.len r.out_index) in
      take m (drop r.out_index r.buf)
        ++ (if ltb m n then take (min (sub32 n m) r.in_index) r.buf else [])
      ≡ take n (drop r.out_index r.buf ++ take r.in_index r.buf)
get-round {r} n v small lt =
    let m : ℕ = min n (sub32 r.len r.out_index) in
    let old : List ℕ = drop r.out_index r.buf in
    let l : length old ≡ r.len - r.out_index = omega (arith, length-drop r.out_index r.buf) in
    elim (Bool-cases (ltb m n)) [
      | inl more ↦
          let lt' : m < n = ltb→lt _ _ more in
          rw (
            more,
            take_all m old (omega arith),
            take-append_right n (n - m) old (take r.in_index r.buf) (omega arith),
            take-take (n - m) r.in_index (min (sub32 n m) r.in_index) r.buf (omega arith),
          )
      | inr enough ↦
          let e : m ≡ n = ground arith in
          rw (enough, append-nil, take-append_left n old (take r.in_index r.buf) (omega arith))
            (ap (λ k. take k old) e)
    ]

-- `rBufGet` writes the oldest `n` bytes of the contents, or all of them if there are fewer.
pub get-contents : {r : RBuf} (n : ℕ) → IsValid r → n < 2 ^ 32 → get r n ≡ take n (contents r)
unfolding get
get-contents {r} n v small = elim (dec_le r.out_index r.in_index) [
  | yes le ↦
      let here : leb r.out_index r.in_index ≡ true = ground arith in
      let k : ℕ = min n (sub32 r.in_index r.out_index) in
      rw (here, take-take n (r.in_index - r.out_index) k (drop r.out_index r.buf) (omega arith))
  | no gt ↦
      let lt : r.in_index < r.out_index = omega arith in
      let round : leb r.out_index r.in_index ≡ false = ground arith in
      rw round (get-round {r = r} n v small lt)
]

-- How far the bytes that are left reach.
within :
    {r : RBuf}
    → IsValid r
    → ((r.out_index ≤ r.in_index) × (length (contents r) ≡ r.in_index - r.out_index))
      ⊎ ((r.in_index < r.out_index) × (length (contents r) ≡ r.len - r.out_index + r.in_index))
within {r} v = elim (dec_le r.out_index r.in_index) [
  | yes le ↦ inl (le, length-contents_of_le v le)
  | no gt ↦ inr (omega arith, length-contents_of_lt v (omega arith))
]

-- Moving the read index on, where it stays in front of the end of the storage.
held-drop_before :
    (buf : List ℕ) (i o m o' : ℕ)
    → o' ≡ o + m
    → o' ≤ length buf
    → ((o ≤ i) × (o' ≤ i)) ⊎ (i < o)
    → held buf i o' ≡ drop m (held buf i o)
held-drop_before buf i o m o' e h (inl (le, le')) = rw (
  held_of_le buf i o' le',
  held_of_le buf i o le,
  drop-take m (i - o') (i - o) (drop o buf) (omega arith),
  drop-drop o m o' buf e,
)
held-drop_before buf i o m o' e h (inr lt) = rw (
  held_of_lt buf i o' (omega arith),
  held_of_lt buf i o lt,
  drop-append_left m (drop o buf) (take i buf) (omega (arith, length-drop o buf)),
  drop-drop o m o' buf e,
)

-- Moving the read index on past the end of the storage.
held-drop_past :
    (buf : List ℕ) (i o m o' : ℕ)
    → length buf + o' ≡ o + m
    → i < o
    → o ≤ length buf
    → o' ≤ i
    → held buf i o' ≡ drop m (held buf i o)
held-drop_past buf i o m o' e lt h le = rw (
  held_of_le buf i o' le,
  held_of_lt buf i o lt,
  drop-append_right m o' (drop o buf) (take i buf) (omega (arith, length-drop o buf)),
  drop-take o' (i - o') i buf (omega arith),
)

pub record Removed (r : RBuf) (n : ℕ) (out : RBuf × ℕ) : Type 0 where
  pub count : out.1 ≡ min n (length (contents r))
  pub bytes : contents out.0 ≡ drop n (contents r)
  pub valid : IsValid out.0
  pub len_kept : out.0.len ≡ r.len

-- `rBufRemove`
pub remove-Removed : {r : RBuf} (n : ℕ) → IsValid r → n < 2 ^ 32 → Removed r n (remove r n)
unfolding remove
remove-Removed {r} n v small =
    let counted : n_bytes r ≡ length (contents r) = (n_bytes-eq-length v).0 in
    let m : ℕ = min n (n_bytes r) in
    let short : drop n (contents r) ≡ drop m (contents r) =
      drop-min n m (contents r) (omega arith) in
    let o : ℕ = add32 r.out_index m in
    elim (Bool-cases (leb r.len o)) [
      | inl past ↦
          let over : r.len ≤ o = leb→le _ _ past in
          rw past (record {
            count = omega arith;
            bytes =
                held-drop_past r.buf r.in_index r.out_index m (sub32 o r.len)
                  (omega (arith, within v)) (omega (arith, within v)) (omega (arith, within v))
                  (omega (arith, within v))
                ∙ sym short;
            valid = omega (arith, within v);
            len_kept = refl;
          })
      | inr before ↦
          let lt : o < r.len = ground arith in
          rw before (record {
            count = omega arith;
            bytes =
                held-drop_before r.buf r.in_index r.out_index m o (omega (arith, within v))
                  (omega (arith, within v)) (omega (arith, within v))
                ∙ sym short;
            valid = omega (arith, within v);
            len_kept = refl;
          })
    ]

-- `rBufIsFull` is TRUE exactly when one place is left free.
pub is_full_iff : {r : RBuf} → IsValid r → (is_full r ≡ true) ↔ (length (contents r) + 1 ≡ r.len)
unfolding is_full
is_full_iff {r} v = elim (dec_le r.out_index r.in_index) [
  | yes le ↦ ground (arith, length-contents_of_le v le)
  | no gt ↦ ground (arith, length-contents_of_lt v (omega arith))
]
