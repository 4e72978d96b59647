-- ===== src/Cell/Lookup.antt =====
-- What the loops over the tables find, and how many entries a table has in use.
use dpb_s_mgmt.Base.{
  ℕ, zero, suc, ◌+◌, ◌≤◌, ◌<◌, ◌≡◌, Bool, true, false, none, some, List, [], ◌∷◌, length, get_or,
  set, arith, Bool-cases, Option-cases, inl, inr,
}
use dpb_s_mgmt.Cell.{next, find_first, FreqInfo, no_freq}

module _ {A : Type 0} (p : A → Bool) where
  -- The first entry with the property, and none before it.
  pub find_first-some :
      (xs : List A) (d : A) {i : ℕ}
      → find_first p xs ≡ some i
      → (i < length xs) × (p (get_or xs i d) ≡ true)
  unfolding find_first next
  find_first-some [] d e = cc
  find_first-some (x ∷ xs) d {i} e = elim (Bool-cases (p x)) [
    | inl here ↦ let first : i ≡ 0 = ground arith in rw first (omega arith, here)
    | inr later ↦ elim (Option-cases (find_first p xs)) [
      | inl nowhere ↦ ground arith
      | inr (j, found) ↦
          let rest = find_first-some xs d {i = j} found in
          let second : i ≡ suc j = ground arith in rw second (omega (arith, rest.0), rest.1)
    ]
  ]

  pub find_first-none :
      (xs : List A) (d : A) (i : ℕ)
      → find_first p xs ≡ none
      → i < length xs
      → p (get_or xs i d) ≡ false
  unfolding find_first next
  find_first-none [] d i e h = absurd (omega arith)
  find_first-none (x ∷ xs) d zero e h = elim (Bool-cases (p x)) [
    | inl here ↦ ground arith
    | inr later ↦ later
  ]
  find_first-none (x ∷ xs) d (suc i) e h = elim (Bool-cases (p x)) [
    | inl here ↦ ground arith
    | inr later ↦ elim (Option-cases (find_first p xs)) [
      | inr (j, found) ↦ ground arith
      | inl nowhere ↦ find_first-none xs d i nowhere (omega arith)
    ]
  ]

-- The frequencies of a row that are in use.
abbrev pub one_if : Bool → ℕ
one_if true = 1
one_if false = 0

unfoldable pub in_use : List FreqInfo → ℕ
in_use [] = 0
in_use (f ∷ fs) = one_if f.active + in_use fs

pub in_use-le : (fs : List FreqInfo) → in_use fs ≤ length fs
unfolding in_use
in_use-le [] = omega arith
in_use-le (f ∷ fs) = elim (Bool-cases f.active) [
  | inl on ↦ rw on (omega (arith, in_use-le fs))
  | inr off ↦ rw off (omega (arith, in_use-le fs))
]

-- An entry is replaced.
pub in_use-set :
    (fs : List FreqInfo) (j : ℕ) (f : FreqInfo)
    → j < length fs
    → in_use (set fs j f) + one_if (get_or fs j no_freq).active ≡ in_use fs + one_if f.active
unfolding in_use
in_use-set [] j f h = absurd (omega arith)
in_use-set (x ∷ fs) zero f h = omega arith
in_use-set (x ∷ fs) (suc j) f h = omega (arith, in_use-set fs j f (omega arith))
