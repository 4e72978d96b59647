-- ===== src/MessageRing/Slots.antt =====
-- The slots of the storage of rng.c: what a write to one of them leaves in the others.
use native.Mathlib.Nat.{mul-le-mul_right}
use dpb_s_mgmt.Base.{
  ℕ, zero, suc, ◌+◌, ◌-◌, ◌*◌, ◌^◌, ◌≤◌, ◌<◌, ◌≡◌, ◌≢◌, refl, ap, ◌∙◌, ◌⊎◌, inl, inr, List, [], ◌∷◌,
  ◌++◌, length, take, drop, length-drop, arith, copy_in, take-copy_in_end, take-copy_in_below,
  drop-copy_in_above, drop-copy_in_below, ltb, Bool-cases,
}
use dpb_s_mgmt.MessageRing.{added}

abbrev pub slot : ℕ → List ℕ → ℕ → List ℕ
slot len buf i = take len (drop (i * len) buf)

-- Another slot lies before or behind.
pub slot_room : {i o : ℕ} (len : ℕ) → i < o → i * len + len ≤ o * len
slot_room {i} {o} len h =
    let bound = mul-le-mul_right {m = suc i} {n = o} len (omega arith) in
    let step : suc i * len ≡ i * len + len = omega arith in omega arith

pub slot-written :
    (len i : ℕ) (buf msg : List ℕ)
    → length msg ≡ len
    → i * len + len ≤ length buf
    → slot len (copy_in buf (i * len) msg) i ≡ msg
slot-written len i buf msg size room =
    ap (take len) (drop-copy_in_below (i * len) 0 (i * len) buf msg (omega arith))
    ∙ take-copy_in_end len 0 (drop (i * len) buf) msg (omega arith)
        (omega (arith, length-drop (i * len) buf))

pub slot-other :
    (len i o : ℕ) (buf msg : List ℕ)
    → length msg ≡ len
    → o ≢ i
    → slot len (copy_in buf (i * len) msg) o ≡ slot len buf o
slot-other len i o buf msg size other = elim (Bool-cases (ltb o i)) [
  | inl below ↦
      let before : o < i = ground arith in
      let room = slot_room len before in
      ap (take len)
        (drop-copy_in_below (o * len) (i * len - o * len) (i * len) buf msg (omega arith))
      ∙ take-copy_in_below len (i * len - o * len) (drop (o * len) buf) msg (omega arith)
  | inr behind ↦
      let above : i < o = ground arith in
      let room = slot_room len above in
      ap (take len) (drop-copy_in_above (o * len) (i * len) buf msg (omega arith))
]

-- `n` slots from `o` on, around the end of the storage.
abbrev pub slots : ℕ → ℕ → List ℕ → ℕ → ℕ → List (List ℕ)
slots len max buf o zero = []
slots len max buf o (suc n) = slot len buf o ∷ slots len max buf (added max o) n

-- The slot `i` is `d` slots behind `o`.
abbrev pub IsBehind : ℕ → ℕ → ℕ → ℕ → Type 0
IsBehind max o d i = (o < max) × (d < max) × ((o + d ≡ i) ⊎ (o + d ≡ i + max)) × (i < max)

pub added-cases :
    {max i : ℕ}
    → max < 2 ^ 31
    → i < max
    → ((added max i ≡ suc i) × (suc i < max)) ⊎ ((added max i ≡ 0) × (suc i ≡ max))
unfolding added
added-cases {max} {i} small h = ground arith

pub IsBehind-next :
    {max o d i : ℕ} → max < 2 ^ 31 → IsBehind max o (suc d) i → IsBehind max (added max o) d i
IsBehind-next {max} {o} {d} {i} small b = elim (added-cases {max = max} {i = o} small b.0) [
  | inl (e, h) ↦ rw e (ground arith)
  | inr (e, h) ↦ rw e (ground arith)
]

pub length-slots : (len max : ℕ) (buf : List ℕ) (o n : ℕ) → length (slots len max buf o n) ≡ n
length-slots len max buf o zero = refl
length-slots len max buf o (suc n) = ap suc (length-slots len max buf (added max o) n)

module _ (len max : ℕ) (small : max < 2 ^ 31) where
  pub slots-snoc :
      (buf : List ℕ) (o n : ℕ) {i : ℕ}
      → IsBehind max o n i
      → slots len max buf o (suc n) ≡ slots len max buf o n ++ (slot len buf i ∷ [])
  slots-snoc buf o zero {i} b = let same : o ≡ i = ground arith in rw same refl
  slots-snoc buf o (suc n) {i} b = ap (◌∷◌ (slot len buf o)) (
      slots-snoc buf (added max o) n {i = i}
        (IsBehind-next {max = max} {o = o} {d = n} {i = i} small b))

  pub slots-other :
      (buf msg : List ℕ) (o n d : ℕ) {i : ℕ}
      → length msg ≡ len
      → n ≤ d
      → IsBehind max o d i
      → slots len max (copy_in buf (i * len) msg) o n ≡ slots len max buf o n
  slots-other buf msg o zero d size h b = refl
  slots-other buf msg o (suc n) zero size h b = absurd (omega arith)
  slots-other buf msg o (suc n) (suc d) {i} size h b =
      let here = slot-other len i o buf msg size (ground arith) in
      let rest =
        slots-other buf msg (added max o) n d {i = i} size (omega arith)
          (IsBehind-next {max = max} {o = o} {d = d} {i = i} small b) in
      rw (here, rest) refl
