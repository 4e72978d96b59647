-- ===== src/Ring/Contents.antt =====
-- The bytes that a ring of rBuf.c holds, oldest first, and the indices for which it is well formed.
use mathlib.Core.List.{append_assoc, append-nil}
use dpb_s_mgmt.Base.{
  ℕ, ◌+◌, ◌-◌, ◌^◌, ◌≤◌, ◌<◌, ◌≡◌, sym, ap, ◌∙◌, List, [], ◌++◌, arith, length, take, drop, copy_in,
  leb, if◌then◌else◌, length-append, length-take, length-drop, take_all, length-copy_in,
  take-copy_in_end, drop-copy_in_above, drop-copy_in_below,
}
use dpb_s_mgmt.Ring.{RBuf, n_bytes}

pub record IsValid (r : RBuf) : Type 0 where
  pub storage : length r.buf ≡ r.len
  pub small : r.len ≤ 2 ^ 31
  pub in_below : r.in_index < r.len
  pub out_below : r.out_index < r.len

-- With `in` before `out` the contents go round the end of the storage.
abbrev pub held : List ℕ → ℕ → ℕ → List ℕ
held buf i o = if leb o i then take (i - o) (drop o buf) else drop o buf ++ take i buf

abbrev pub contents : RBuf → List ℕ
contents r = held r.buf r.in_index r.out_index

pub held_of_le : (buf : List ℕ) (i o : ℕ) → o ≤ i → held buf i o ≡ take (i - o) (drop o buf)
held_of_le buf i o h = ground arith

pub held_of_lt : (buf : List ℕ) (i o : ℕ) → i < o → held buf i o ≡ drop o buf ++ take i buf
held_of_lt buf i o h = ground arith

length-held :
    (buf : List ℕ) (i o : ℕ)
    → i < length buf
    → o < length buf
    → length (held buf i o) ≡ (if leb o i then i - o else length buf - o + i)
length-held buf i o hi ho = ground (
  arith,
  length-take (i - o) (drop o buf),
  length-drop o buf,
  length-append (drop o buf) (take i buf),
  length-take i buf,
)

pub length-contents_of_le :
    {r : RBuf}
    → IsValid r
    → r.out_index ≤ r.in_index
    → length (contents r) ≡ r.in_index - r.out_index
length-contents_of_le {r} v h = ground (arith, length-held r.buf r.in_index r.out_index)

pub length-contents_of_lt :
    {r : RBuf}
    → IsValid r
    → r.in_index < r.out_index
    → length (contents r) ≡ r.len - r.out_index + r.in_index
length-contents_of_lt {r} v h = ground (arith, length-held r.buf r.in_index r.out_index)

-- `rBufNBytes` counts the contents, and a valid ring always keeps one place free.
pub n_bytes-eq-length :
    {r : RBuf} → IsValid r → (n_bytes r ≡ length (contents r)) × (length (contents r) < r.len)
unfolding n_bytes
n_bytes-eq-length {r} v = ground (arith, length-held r.buf r.in_index r.out_index)

-- Copying behind the contents, where the copied part ends before the storage does.
pub held-copy_in_le :
    (buf : List ℕ) (i o k : ℕ) (ys : List ℕ)
    → o ≤ i
    → k ≡ i + length ys
    → k ≤ length buf
    → held (copy_in buf i ys) k o ≡ held buf i o ++ ys
held-copy_in_le buf i o k ys h e hk =
    held_of_le _ k o (omega arith)
    ∙ ap (take (k - o)) (drop-copy_in_below o (i - o) i buf ys (omega arith))
    ∙ take-copy_in_end (k - o) (i - o) (drop o buf) ys (omega arith)
        (omega (arith, length-drop o buf))
    ∙ ap (λ c. c ++ ys) (sym (held_of_le buf i o h))

-- Copying behind contents that go round the end.
pub held-copy_in_lt :
    (buf : List ℕ) (i o k : ℕ) (ys : List ℕ)
    → k ≡ i + length ys
    → k < o
    → o < length buf
    → held (copy_in buf i ys) k o ≡ held buf i o ++ ys
held-copy_in_lt buf i o k ys e h ho = rw (
  held_of_lt (copy_in buf i ys) k o h,
  held_of_lt buf i o (omega arith),
  drop-copy_in_above o i buf ys (omega arith),
  take-copy_in_end k i buf ys e (omega arith),
  append_assoc,
)

-- Copying up to the very end of the storage, the rest of the bytes from its start.
pub held-copy_in_round :
    (buf : List ℕ) (i o k : ℕ) (ys zs : List ℕ)
    → o ≤ i
    → i + length ys ≡ length buf
    → k ≡ length zs
    → k < o
    → held (copy_in (copy_in buf i ys) 0 zs) k o ≡ held buf i o ++ (ys ++ zs)
held-copy_in_round buf i o k ys zs h e ek hk = rw (
  held_of_lt (copy_in (copy_in buf i ys) 0 zs) k o hk,
  held_of_le buf i o h,
  drop-copy_in_above o 0 (copy_in buf i ys) zs (omega arith),
  take-copy_in_end k 0 (copy_in buf i ys) zs (omega arith) (omega (arith, length-copy_in buf i ys)),
  ends,
  append_assoc,
)
  where
    ends : drop o (copy_in buf i ys) ≡ take (i - o) (drop o buf) ++ ys
    ends =
        drop-copy_in_below o (i - o) i buf ys (omega arith)
        ∙ sym (
            take_all (length buf - o) (copy_in (drop o buf) (i - o) ys)
              (omega (arith, length-copy_in (drop o buf) (i - o) ys, length-drop o buf)))
        ∙ take-copy_in_end (length buf - o) (i - o) (drop o buf) ys (omega arith)
            (omega (arith, length-drop o buf))

-- The copy that ends exactly at the end of the storage, after which the write index is 0.
pub held-copy_in_end :
    (buf : List ℕ) (i o : ℕ) (ys : List ℕ)
    → o ≤ i
    → 0 < o
    → i + length ys ≡ length buf
    → held (copy_in buf i ys) 0 o ≡ held buf i o ++ ys
unfolding copy_in
held-copy_in_end buf i o ys h ho e =
    held-copy_in_round buf i o 0 ys [] h e (omega arith) ho ∙ rw append-nil
