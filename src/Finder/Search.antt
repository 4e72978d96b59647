-- ===== src/Finder/Search.antt =====
-- What `pkfinderFind` finds: the first place of the header, and a packet that lies in the buffer.
use native.Mathlib.Decide.{dec_lt}
use dpb_s_mgmt.Base.{
  ℕ, zero, suc, ◌+◌, ◌≤◌, ◌<◌, ◌≡◌, true, false, Option, none, some, List, arith, Bool-cases, inl,
  inr,
}
use dpb_s_mgmt.Finder.{PkFinder, head_at, search_head}

-- The header is at none of the places from `lo` to `hi`.
abbrev pub NoHead : PkFinder → List ℕ → ℕ → ℕ → Type 0
NoHead pf buf lo hi = (k : ℕ) → lo ≤ k → k < hi → head_at pf buf k ≡ false

NoHead-step :
    (pf : PkFinder) (buf : List ℕ) (i hi : ℕ)
    → head_at pf buf i ≡ false
    → NoHead pf buf (i + 1) hi
    → NoHead pf buf i hi
NoHead-step pf buf i hi h f k lo lt = elim (dec_lt i k) [
  | yes more ↦ f k (omega arith) lt
  | no same ↦ let e : k ≡ i = omega arith in rw e h
]

-- `o` is the first place of the header from `lo` to `hi`.
abbrev pub IsFirst : PkFinder → List ℕ → ℕ → ℕ → Option ℕ → Type 0
IsFirst pf buf lo hi none = NoHead pf buf lo hi
IsFirst pf buf lo hi (some p) = (lo ≤ p) × (p < hi) × (head_at pf buf p ≡ true) × NoHead pf buf lo p

IsFirst-step :
    (pf : PkFinder) (buf : List ℕ) (i hi : ℕ) (o : Option ℕ)
    → head_at pf buf i ≡ false
    → IsFirst pf buf (i + 1) hi o
    → IsFirst pf buf i hi o
IsFirst-step pf buf i hi none h f = NoHead-step pf buf i hi h f
IsFirst-step pf buf i hi (some p) h f = (omega arith, f.1, f.2, NoHead-step pf buf i p h f.3)

-- The search of `pkfinderFind` returns the first place of the header among those it looks at, and
-- none only where it is at none of them.
pub search_head-IsFirst :
    (pf : PkFinder) (buf : List ℕ) (i rounds hi : ℕ)
    → hi ≡ i + rounds
    → IsFirst pf buf i hi (search_head pf buf i rounds)
unfolding search_head
search_head-IsFirst pf buf i zero hi e = λ k lo h. absurd (omega arith)
search_head-IsFirst pf buf i (suc rounds) hi e = elim (Bool-cases (head_at pf buf i)) [
  | inl here ↦ rw here (omega arith, omega arith, here, λ k lo h. absurd (omega arith))
  | inr other ↦ rw other (
      IsFirst-step pf buf i hi _ other (search_head-IsFirst pf buf (i + 1) rounds hi (omega arith)))
]
