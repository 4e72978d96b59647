-- ===== src/Shell/Paths.antt =====
-- What the accepted paths are, and that they stay below the directory they are taken from.
use mathlib.Core.List.{append_assoc}
use dpb_s_mgmt.Base.{
  ℕ, zero, suc, ◌+◌, ◌≤◌, ◌<◌, ◌≡◌, ◌≢◌, ◌↔◌, refl, sym, ap, ◌∙◌, Bool, true, false, none, some,
  List, [], ◌∷◌, ◌++◌, arith, length, length-drop, take_all, get_or, take, drop, ◌==◌,
  if◌then◌else◌, not, ◌&&◌, Bool-cases, Option-cases, inl, inr,
}
use dpb_s_mgmt.Shell.{
  str_chr, is_name_char, all_name_chars, is_dots, shell_safe_name, no_control_chars, check_segments,
  shell_safe_relpath, shell_safe_tar_member,
}

abbrev pub dot_dot : List ℕ
dot_dot = b'.' ∷ b'.' ∷ []

-- A byte in front of the first segment.
abbrev extend_first : ℕ → List (List ℕ) → List (List ℕ)
extend_first c [] = (c ∷ []) ∷ []
extend_first c (s ∷ rest) = (c ∷ s) ∷ rest

-- The parts of a path between its slashes.
unfoldable pub segments : List ℕ → List (List ℕ)
segments [] = [] ∷ []
segments (c ∷ p) = let rest = segments p in if c == b'/' then [] ∷ rest else extend_first c rest

abbrev pub All : (List ℕ → Type 0) → List (List ℕ) → Type 0
All P [] = Unit {0}
All P (s ∷ rest) = P s × All P rest

-- Every byte is above the control characters and is not DEL.
abbrev pub IsPrintable : List ℕ → Type 0
IsPrintable [] = Unit {0}
IsPrintable (c ∷ s) = ((0x20 ≤ c) × (c ≢ 0x7f)) × IsPrintable s

-- The segments, split at the first slash as the loop does it.
segments-none : (p : List ℕ) → str_chr p b'/' ≡ none → segments p ≡ p ∷ []
unfolding segments str_chr
segments-none [] e = refl
segments-none (c ∷ p) e = elim (Bool-cases (c == b'/')) [
  | inl slash ↦ ground arith
  | inr other ↦ elim (Option-cases (str_chr p b'/')) [
    | inl last ↦ rw other (rw (segments-none p last) refl)
    | inr (i, more) ↦ ground arith
  ]
]

segments-some :
    (p : List ℕ) (i : ℕ)
    → str_chr p b'/' ≡ some i
    → (segments p ≡ take i p ∷ segments (drop (suc i) p)) × (i < length p)
unfolding segments str_chr
segments-some [] i e = cc
segments-some (c ∷ p) i e = elim (Bool-cases (c == b'/')) [
  | inl slash ↦ let z : i ≡ 0 = ground arith in (rw slash (rw z refl), omega arith)
  | inr other ↦ elim (Option-cases (str_chr p b'/')) [
    | inl last ↦ ground arith
    | inr (j, more) ↦
        let z : i ≡ suc j = ground arith in
        let step = segments-some p j more in
        (rw other (rw z (rw (step.0) refl)), omega (arith, step.1))
  ]
]

-- The test on a segment of `i` bytes at the front of `p`.
abbrev starts_with_dots : ℕ → List ℕ → Bool
starts_with_dots i p = i == 2 && get_or p 0 0 == b'.' && get_or p 1 0 == b'.'

starts_with_dots_iff :
    (i : ℕ) (p : List ℕ) → i ≤ length p → (starts_with_dots i p ≡ true) ↔ (take i p ≡ dot_dot)
starts_with_dots_iff zero p h = (λ e. cc, λ e. cc)
starts_with_dots_iff (suc zero) [] h = (λ e. cc, λ e. cc)
starts_with_dots_iff (suc zero) (a ∷ p) h = (λ e. ground arith, λ e. cc)
starts_with_dots_iff (suc (suc i)) [] h = absurd (omega arith)
starts_with_dots_iff (suc (suc i)) (a ∷ []) h = absurd (omega arith)
starts_with_dots_iff (suc (suc zero)) (a ∷ b ∷ p) h = ground arith
starts_with_dots_iff (suc (suc (suc i))) (a ∷ b ∷ []) h = absurd (omega arith)
starts_with_dots_iff (suc (suc (suc i))) (a ∷ b ∷ c ∷ p) h = (λ e. ground arith, λ e. ground arith)

segment_iff :
    (dots rest : Bool) (s : List ℕ) (others : List (List ℕ))
    → (dots ≡ true) ↔ (s ≡ dot_dot)
    → (rest ≡ true) ↔ All (λ s. s ≢ dot_dot) others
    → ((if dots then false else rest) ≡ true) ↔ All (λ s. s ≢ dot_dot) (s ∷ others)
segment_iff true rest s others d r = (λ e. cc, λ a. absurd (a.0 (d.0 refl)))
segment_iff false rest s others d r =
    (λ e. (λ same. let bad : false ≡ true = d.1 same in cc, r.0 e), λ a. r.1 a.1)

-- The loop's answer, for every amount of fuel above the length.
check_segments_iff :
    (n : ℕ) (p : List ℕ)
    → length p < n
    → (check_segments n p ≡ true) ↔ All (λ s. s ≢ dot_dot) (segments p)
unfolding check_segments segments
check_segments_iff zero p h = absurd (omega arith)
check_segments_iff (suc n) [] h =
    (λ e. (λ same. let bad : [] ≡ dot_dot = same in cc, tt), λ a. refl)
check_segments_iff (suc n) (c ∷ p) h = elim (Option-cases (str_chr (c ∷ p) b'/')) [
  | inl last ↦
      let whole : take (length (c ∷ p)) (c ∷ p) ≡ c ∷ p =
        take_all (length (c ∷ p)) (c ∷ p) (omega arith) in
      let here = starts_with_dots_iff (length (c ∷ p)) (c ∷ p) (omega arith) in
      rw last (
        rw (segments-none (c ∷ p) last) (
          segment_iff (starts_with_dots (length (c ∷ p)) (c ∷ p)) true (c ∷ p) []
            (λ e. sym whole ∙ here.0 e, λ e. here.1 (whole ∙ e)) (λ e. tt, λ a. refl)))
  | inr (i, more) ↦
      let split = segments-some (c ∷ p) i more in
      rw more (
        rw (split.0) (
          segment_iff (starts_with_dots i (c ∷ p)) (check_segments n (drop (suc i) (c ∷ p)))
            (take i (c ∷ p)) _ (starts_with_dots_iff i (c ∷ p) (omega (arith, split.1)))
            (check_segments_iff n (drop (suc i) (c ∷ p))
              (omega (arith, length-drop (suc i) (c ∷ p), split.1)))))
]

no_control_chars_iff : (s : List ℕ) → (no_control_chars s ≡ true) ↔ IsPrintable s
unfolding no_control_chars
no_control_chars_iff [] = (λ e. tt, λ e. refl)
no_control_chars_iff (c ∷ s) = let rest = no_control_chars_iff s in ground (arith, rest)

is_name_char_bounds : (c : ℕ) → is_name_char c ≡ true → (0x20 ≤ c) × (c < 0x7f) × (c ≢ b'/')
unfolding is_name_char
is_name_char_bounds c e = ground arith

all_name_chars_lem :
    (s : List ℕ) → all_name_chars s ≡ true → IsPrintable s × (str_chr s b'/' ≡ none)
unfolding all_name_chars str_chr
all_name_chars_lem [] e = (tt, refl)
all_name_chars_lem (c ∷ s) e = elim (Bool-cases (is_name_char c)) [
  | inr bad ↦ ground arith
  | inl fine ↦
      let bounds = is_name_char_bounds c fine in
      let rest = all_name_chars_lem s (ground arith) in
      (((bounds.0, λ del. absurd (omega arith)), rest.0), ground (arith, rest))
]

-- What `shell_safe_relpath` promises of a path.
pub record IsSafePath (p : List ℕ) : Type 0 where
  pub nonempty : 0 < length p
  pub short : length p ≤ 255
  pub printable : IsPrintable p
  pub no_dot_dot : All (λ s. s ≢ dot_dot) (segments p)

pub shell_safe_relpath_iff : (p : List ℕ) → (shell_safe_relpath (some p) ≡ true) ↔ IsSafePath p
unfolding shell_safe_relpath
shell_safe_relpath_iff p =
    let clean = no_control_chars_iff p in
    let parts = check_segments_iff (length p + 1) p (omega arith) in
    (
      λ e. record {
        nonempty = ground arith;
        short = ground arith;
        printable = clean.0 (ground arith);
        no_dot_dot = parts.0 (ground arith);
      },
      λ s.
          let h0 : no_control_chars p ≡ true = clean.1 s.printable in
          let h1 : check_segments (length p + 1) p ≡ true = parts.1 s.no_dot_dot in
          let h2 = s.nonempty in let h3 = s.short in ground arith,
    )

-- `shell_safe_tar_member` accepts a member exactly where `shell_safe_relpath` accepts it as a path and
-- it does not begin with a slash.
pub shell_safe_tar_member-eq :
    (p : List ℕ)
    → shell_safe_tar_member (some p) ≡ (not (get_or p 0 0 == b'/') && shell_safe_relpath (some p))
unfolding shell_safe_tar_member shell_safe_relpath
shell_safe_tar_member-eq [] = refl
shell_safe_tar_member-eq (c ∷ p) = ground arith

-- The directories on the way to a place, the innermost first, after one more segment of a path.
abbrev pub enter : List (List ℕ) → List ℕ → List (List ℕ)
enter dirs [] = dirs
enter dirs (a ∷ []) = if a == b'.' then dirs else (a ∷ []) ∷ dirs
enter dirs (a ∷ b ∷ []) =
    if a == b'.' && b == b'.'
    then elim dirs [ [] ↦ [] | d ∷ outer ↦ outer ]
    else (a ∷ b ∷ []) ∷ dirs
enter dirs (a ∷ b ∷ c ∷ s) = (a ∷ b ∷ c ∷ s) ∷ dirs

-- Where a path leads from a directory.
unfoldable pub walk : List (List ℕ) → List (List ℕ) → List (List ℕ)
walk dirs [] = dirs
walk dirs (s ∷ rest) = walk (enter dirs s) rest

enter-below :
    (dirs : List (List ℕ)) (s : List ℕ)
    → s ≢ dot_dot
    → (added : List (List ℕ)) × (enter dirs s ≡ added ++ dirs)
enter-below dirs [] h = ([], refl)
enter-below dirs (a ∷ []) h = elim (Bool-cases (a == b'.')) [
  | inl dot ↦ ([], rw dot refl)
  | inr other ↦ ((a ∷ []) ∷ [], rw other refl)
]
enter-below dirs (a ∷ b ∷ []) h = elim (Bool-cases (a == b'.' && b == b'.')) [
  | inl dots ↦ absurd (h (ground arith))
  | inr other ↦ ((a ∷ b ∷ []) ∷ [], rw other refl)
]
enter-below dirs (a ∷ b ∷ c ∷ s) h = ((a ∷ b ∷ c ∷ s) ∷ [], refl)

walk-below :
    (segs dirs : List (List ℕ))
    → All (λ s. s ≢ dot_dot) segs
    → (added : List (List ℕ)) × (walk dirs segs ≡ added ++ dirs)
unfolding walk
walk-below [] dirs h = ([], refl)
walk-below (s ∷ rest) dirs h =
    let (first, e) = enter-below dirs s h.0 in
    let (more, f) = walk-below rest (enter dirs s) h.1 in
    (more ++ first, f ∙ ap (◌++◌ more) e ∙ sym (append_assoc more first dirs))

-- An accepted path leads to a place at or below the directory it is taken from: it adds directories,
-- and takes none away.
pub shell_safe_relpath-below :
    (p : List ℕ) (dirs : List (List ℕ))
    → shell_safe_relpath (some p) ≡ true
    → (added : List (List ℕ)) × (walk dirs (segments p) ≡ added ++ dirs)
shell_safe_relpath-below p dirs e =
    let safe = (shell_safe_relpath_iff p).0 e in walk-below (segments p) dirs safe.no_dot_dot

enter-plain :
    (dirs : List (List ℕ)) (s : List ℕ) → 0 < length s → is_dots s ≡ false → enter dirs s ≡ s ∷ dirs
unfolding is_dots
enter-plain dirs [] pos e = absurd (omega arith)
enter-plain dirs (a ∷ []) pos e = ground arith
enter-plain dirs (a ∷ b ∷ []) pos e = ground arith
enter-plain dirs (a ∷ b ∷ c ∷ s) pos e = refl

dot_dot-is_dots : (s : List ℕ) → is_dots s ≡ false → s ≢ dot_dot
unfolding is_dots
dot_dot-is_dots s e same = let bad : true ≡ false = ap is_dots (sym same) ∙ e in cc

-- An accepted name is one segment, a file directly in the directory it is taken from, and
-- `shell_safe_relpath` accepts it too.
pub shell_safe_name-file :
    (name : List ℕ) (dirs : List (List ℕ))
    → shell_safe_name (some name) ≡ true
    → (walk dirs (segments name) ≡ name ∷ dirs) × (shell_safe_relpath (some name) ≡ true)
unfolding shell_safe_name walk
shell_safe_name-file name dirs e =
    let chars = all_name_chars_lem name (ground arith) in
    let one = segments-none name chars.1 in
    let plain : is_dots name ≡ false = ground arith in
    let pos : 0 < length name = ground arith in
    let short : length name ≤ 255 = ground arith in
    (
      rw one (enter-plain dirs name pos plain),
      (shell_safe_relpath_iff name).1 record {
        nonempty = pos;
        short = short;
        printable = chars.0;
        no_dot_dot = rw one (dot_dot-is_dots name plain, tt);
      },
    )
