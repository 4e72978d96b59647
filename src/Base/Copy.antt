-- ===== src/Base/Copy.antt =====
-- The copy loop `for (i = 0; i < n; i++) dst[at + i] = src[i]` (also what memcpy does), and what
-- prefixes and suffixes of the destination hold after it.
use Prim.Native.Nat.{ℕ, zero, suc, ◌+◌, ◌≤◌}
use mathlib.Core.Path.{◌≡◌, refl, ap, ◌∙◌}
use mathlib.Core.List.{List, [], ◌∷◌, ◌++◌}
use native.Mathlib.Omega.{arith}
use dpb_s_mgmt.Base.Lists.{length, set, take, drop, length-set}

module _ {ℓ} {A : Type ℓ} where
  unfoldable pub copy_in : List A → ℕ → List A → List A
  copy_in dst at [] = dst
  copy_in dst at (x ∷ src) = copy_in (set dst at x) (suc at) src

  pub length-copy_in :
      (dst : List A) (at : ℕ) (src : List A) → length (copy_in dst at src) ≡ length dst
  unfolding copy_in
  length-copy_in dst at [] = refl
  length-copy_in dst at (x ∷ src) = length-copy_in (set dst at x) (suc at) src ∙ length-set dst at x

  copy_in-cons :
      (b : A) (dst : List A) (at : ℕ) (src : List A)
      → copy_in (b ∷ dst) (suc at) src ≡ b ∷ copy_in dst at src
  unfolding copy_in
  copy_in-cons b dst at [] = refl
  copy_in-cons b dst at (x ∷ src) = copy_in-cons b (set dst at x) (suc at) src

  copy_in-zero :
      (b : A) (dst : List A) (x : A) (src : List A)
      → copy_in (b ∷ dst) zero (x ∷ src) ≡ x ∷ copy_in dst zero src
  unfolding copy_in
  copy_in-zero b dst x src = copy_in-cons x dst zero src

  -- What lies before the copied range stays, and the range holds the source.
  pub take-copy_in_end :
      (k at : ℕ) (dst src : List A)
      → k ≡ at + length src
      → k ≤ length dst
      → take k (copy_in dst at src) ≡ take at dst ++ src
  unfolding copy_in
  take-copy_in_end zero zero dst [] e h = refl
  take-copy_in_end zero zero dst (x ∷ src) e h = absurd (omega arith)
  take-copy_in_end zero (suc at) dst src e h = absurd (omega arith)
  take-copy_in_end (suc k) at [] src e h = elim h [ ]
  take-copy_in_end (suc k) zero (b ∷ dst) [] e h = absurd (omega arith)
  take-copy_in_end (suc k) zero (b ∷ dst) (x ∷ src) e h =
      ap (take (suc k)) (copy_in-zero b dst x src)
      ∙ ap (◌∷◌ x) (take-copy_in_end k zero dst src (omega arith) (omega arith))
  take-copy_in_end (suc k) (suc at) (b ∷ dst) src e h =
      ap (take (suc k)) (copy_in-cons b dst at src)
      ∙ ap (◌∷◌ b) (take-copy_in_end k at dst src (omega arith) (omega arith))

  -- What lies behind the copied range stays.
  pub drop-copy_in_above :
      (j at : ℕ) (dst src : List A) → at + length src ≤ j → drop j (copy_in dst at src) ≡ drop j dst
  unfolding copy_in
  drop-copy_in_above j at dst [] h = refl
  drop-copy_in_above zero at dst (x ∷ src) h = absurd (omega arith)
  drop-copy_in_above (suc j) at [] (x ∷ src) h =
      drop-copy_in_above (suc j) (suc at) [] src (omega arith)
  drop-copy_in_above (suc j) zero (b ∷ dst) (x ∷ src) h =
      ap (drop (suc j)) (copy_in-zero b dst x src) ∙ drop-copy_in_above j zero dst src (omega arith)
  drop-copy_in_above (suc j) (suc at) (b ∷ dst) (x ∷ src) h =
      ap (drop (suc j)) (copy_in-cons b dst at (x ∷ src))
      ∙ drop-copy_in_above j at dst (x ∷ src) (omega arith)

  -- A suffix that begins before the range is the copy into that suffix.
  pub drop-copy_in_below :
      (j k at : ℕ) (dst src : List A)
      → at ≡ j + k
      → drop j (copy_in dst at src) ≡ copy_in (drop j dst) k src
  unfolding copy_in
  drop-copy_in_below zero k at dst src e = ap (λ m. copy_in dst m src) (omega arith)
  drop-copy_in_below (suc j) k zero dst src e = absurd (omega arith)
  drop-copy_in_below (suc j) k (suc at) [] src e = copy_in-nil (suc j) (suc at) k src
    where
      copy_in-nil : (j at k : ℕ) (src : List A) → drop j (copy_in [] at src) ≡ copy_in [] k src
      copy_in-nil zero at k [] = refl
      copy_in-nil (suc j) at k [] = refl
      copy_in-nil j at k (x ∷ src) = copy_in-nil j (suc at) (suc k) src
  drop-copy_in_below (suc j) k (suc at) (b ∷ dst) src e =
      ap (drop (suc j)) (copy_in-cons b dst at src)
      ∙ drop-copy_in_below j k at dst src (omega arith)

  -- A prefix that ends before the range stays.
  pub take-copy_in_below :
      (j at : ℕ) (dst src : List A) → j ≤ at → take j (copy_in dst at src) ≡ take j dst
  unfolding copy_in
  take-copy_in_below j at dst [] h = refl
  take-copy_in_below zero at dst (x ∷ src) h = refl
  take-copy_in_below (suc j) zero dst (x ∷ src) h = absurd (omega arith)
  take-copy_in_below (suc j) (suc at) [] (x ∷ src) h =
      take-copy_in_below (suc j) (suc (suc at)) [] src (omega arith)
  take-copy_in_below (suc j) (suc at) (b ∷ dst) (x ∷ src) h =
      ap (take (suc j)) (copy_in-cons b dst at (x ∷ src))
      ∙ ap (◌∷◌ b) (take-copy_in_below j at dst (x ∷ src) (omega arith))
