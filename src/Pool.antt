-- ===== src/Pool.antt =====
-- The static pools of payload buffers of cpri_protocol.c and fpga_protocol.c: `cpri_payload_alloc` and
-- `fpga_payload_alloc` have the same body, for 16 buffers of 8192 bytes and 8 of 2048. A pointer to a
-- buffer's data is the buffer's index. The mutex makes each call one step.
use dpb_s_mgmt.Base.{
  ℕ, zero, suc, ◌≤◌, ◌<◌, ◌≡◌, refl, sym, ap, Bool, true, false, Option, none, some, List, [], ◌∷◌,
  ◌++◌, arith, length, get_or, set, take, drop, ltb, if◌then◌else◌, Bool-cases, inl, inr,
  get_or-set_self, take-append_exact,
}

-- The flags `in_use` and the arrays `data` of the buffers.
pub record Pool : Type 0 where
  pub in_use : List Bool
  pub arrays : List (List ℕ)

unfoldable pub next : Option ℕ → Option ℕ
next none = none
next (some i) = some (suc i)

-- The loop over the buffers.
unfoldable pub first_free : List Bool → Option ℕ
unfolding next
first_free [] = none
first_free (b ∷ bs) = let rest = next (first_free bs) in if b then rest else some 0

unfoldable pub take_slot : Pool → Option ℕ → Option (ℕ × Pool)
take_slot p none = none
take_slot p (some i) = some (i, record p { in_use = set p.in_use i true })

-- `cpri_payload_alloc`, with the size of a buffer.
unfoldable pub alloc : ℕ → ℕ → Pool → Option (ℕ × Pool)
unfolding take_slot
alloc max_size size p = if ltb max_size size then none else take_slot p (first_free p.in_use)

-- `memcpy(ptr, bytes, n)` into buffer `i`.
unfoldable pub store : Pool → ℕ → List ℕ → Pool
store p i bytes = record p {
  arrays = set p.arrays i (bytes ++ drop (length bytes) (get_or p.arrays i []));
}

-- `cpri_payload_free` of a pointer into the pool.
unfoldable pub release : Pool → ℕ → Pool
release p i = record p { in_use = set p.in_use i false }

-- The buffer that a search has found is free, and those before it are not.
abbrev pub FirstFree : List Bool → Option ℕ → Type 0
FirstFree flags none = (k : ℕ) → k < length flags → get_or flags k false ≡ true
FirstFree flags (some i) =
    (i < length flags)
    × (get_or flags i true ≡ false)
    × ((k : ℕ) → k < i → get_or flags k false ≡ true)

FirstFree-next :
    (flags : List Bool) (o : Option ℕ) → FirstFree flags o → FirstFree (true ∷ flags) (next o)
unfolding next
FirstFree-next flags none f = used
  where
    used : (k : ℕ) → k < length (true ∷ flags) → get_or (true ∷ flags) k false ≡ true
    used zero h = refl
    used (suc k) h = f k (omega arith)
FirstFree-next flags (some i) f = (omega (arith, f.0), f.1, used)
  where
    used : (k : ℕ) → k < suc i → get_or (true ∷ flags) k false ≡ true
    used zero h = refl
    used (suc k) h = f.2 k (omega arith)

pub first_free-FirstFree : (flags : List Bool) → FirstFree flags (first_free flags)
unfolding first_free
first_free-FirstFree [] = λ k h. absurd (omega arith)
first_free-FirstFree (true ∷ flags) =
    FirstFree-next flags (first_free flags) (first_free-FirstFree flags)
first_free-FirstFree (false ∷ flags) = (omega arith, refl, λ k h. absurd (omega arith))

-- What an allocation has done.
abbrev pub Allocated : ℕ → ℕ → Pool → Option (ℕ × Pool) → Type 0
Allocated max_size size p none =
    (size ≤ max_size) → (k : ℕ) → k < length p.in_use → get_or p.in_use k false ≡ true
Allocated max_size size p (some (i, p')) =
    (size ≤ max_size)
    × (i < length p.in_use)
    × (get_or p.in_use i true ≡ false)
    × (p'.in_use ≡ set p.in_use i true)
    × (p'.arrays ≡ p.arrays)

take_slot-Allocated :
    (max_size size : ℕ) (p : Pool) (o : Option ℕ)
    → size ≤ max_size
    → FirstFree p.in_use o
    → Allocated max_size size p (take_slot p o)
unfolding take_slot
take_slot-Allocated max_size size p none le f = λ e. f
take_slot-Allocated max_size size p (some i) le f = (le, f.0, f.1, refl, refl)

-- The allocation of a payload buffer takes a buffer that was free, marks it and changes nothing else;
-- it fails only for a size above the buffers' or when all buffers are in use.
pub alloc-Allocated :
    (max_size size : ℕ) (p : Pool) → Allocated max_size size p (alloc max_size size p)
unfolding alloc
alloc-Allocated max_size size p = elim (Bool-cases (ltb max_size size)) [
  | inl large ↦ rw large (λ le. absurd (ground arith))
  | inr fits ↦ rw fits (
      take_slot-Allocated max_size size p (first_free p.in_use) (ground arith)
        (first_free-FirstFree p.in_use))
]

-- Marking a free buffer and then releasing it gives the flags back.
pub set-set_back :
    (flags : List Bool) (i : ℕ)
    → get_or flags i true ≡ false
    → set (set flags i true) i false ≡ flags
set-set_back [] i e = refl
set-set_back (b ∷ flags) zero e = ap (λ b. b ∷ flags) (sym e)
set-set_back (b ∷ flags) (suc i) e = ap (λ bs. b ∷ bs) (set-set_back flags i e)

-- What has been stored in a buffer is there.
pub store_lem :
    (p : Pool) (i : ℕ) (bytes : List ℕ)
    → i < length p.arrays
    → take (length bytes) (get_or (store p i bytes).arrays i []) ≡ bytes
unfolding store
store_lem p i bytes h =
    let kept : List ℕ = drop (length bytes) (get_or p.arrays i []) in
    rw (get_or-set_self p.arrays i (bytes ++ kept) [] h)
      (take-append_exact (length bytes) bytes kept refl)
