-- ===== src/FpgaUart/Steps.antt =====
-- A round of the loop: it consumes a byte or ends, and what it does does not change when more bytes
-- follow.
use dpb_s_mgmt.Base.{
  ℕ, suc, ◌+◌, ◌-◌, ◌*◌, ◌≤◌, ◌<◌, ◌≡◌, refl, sym, ap, ◌∙◌, Bool, false, none, some, List, [], ◌∷◌,
  ◌++◌, length, get_or, drop, ltb, ◌==◌, not, ◌||◌, get_u16_be, arith, Bool-cases, Option-cases,
  inl, inr, length-drop, length-append, take-append_left, drop-append_left, get_or-append_left,
  AreBytes,
}
use dpb_s_mgmt.FpgaUart.{
  find_header, Step, done, skip, frame, check_frame, at_header, half_header, step,
  telemetry_payload_len, frame_header, telemetry_log_header, frame_tail, buffer_size,
}

-- The bytes of a round that goes on are followed by the same bytes when more arrive.
abbrev pub extend : List ℕ → Step → Step
extend ys (done c) = done (c ++ ys)
extend ys (skip c) = skip (c ++ ys)
extend ys (frame d c) = frame d (c ++ ys)

abbrev pub IsOpen : Step → Type 0
IsOpen (done c) = ⊥
IsOpen (skip c) = Unit {0}
IsOpen (frame d c) = Unit {0}

-- What is left is shorter by a byte at least, where the round does not end.
abbrev pub Shrinks : ℕ → Step → Type 0
Shrinks n (done c) = length c ≤ n
Shrinks n (skip c) = length c < n
Shrinks n (frame d c) = length c < n

Shrinks-le : (m n : ℕ) (s : Step) → m ≤ n → Shrinks m s → Shrinks n s
Shrinks-le m n (done c) h k = omega arith
Shrinks-le m n (skip c) h k = omega arith
Shrinks-le m n (frame d c) h k = omega arith

check_frame-Shrinks :
    (hdr field expected : ℕ) (b : List ℕ)
    → 4 ≤ length b
    → Shrinks (length b) (check_frame hdr field expected b)
unfolding check_frame
check_frame-Shrinks hdr field expected b h =
    elim (Bool-cases (ltb expected 6 || ltb buffer_size expected)) [
      | inl bad ↦ rw (check_frame, bad) (omega (arith, length-drop 1 b))
      | inr sane ↦ elim (Bool-cases (ltb (length b) expected)) [
        | inl short ↦ rw (check_frame, sane, short) (omega arith)
        | inr whole ↦ elim (Bool-cases (get_u16_be b (expected - 2) == frame_tail)) [
          | inr wrong ↦ rw (check_frame, sane, whole, wrong) (omega (arith, length-drop 1 b))
          | inl right ↦
              let six : 6 ≤ expected = ground arith in
              rw (check_frame, sane, whole, right) (omega (arith, length-drop expected b))
        ]
      ]
    ]

check_frame-extend :
    (hdr field expected : ℕ) (b ys : List ℕ)
    → 4 ≤ length b
    → IsOpen (check_frame hdr field expected b)
    → check_frame hdr field expected (b ++ ys) ≡ extend ys (check_frame hdr field expected b)
unfolding check_frame
check_frame-extend hdr field expected b ys h =
    elim (Bool-cases (ltb expected 6 || ltb buffer_size expected)) [
      | inl bad ↦ λ o. rw (check_frame, bad) (ap skip (drop-append_left 1 b ys (omega arith)))
      | inr sane ↦ elim (Bool-cases (ltb (length b) expected)) [
        | inl short ↦ rw (check_frame, sane, short) (λ o. absurd o)
        | inr whole ↦
            let six : 6 ≤ expected = ground arith in
            let fits : expected ≤ length b = ground arith in
            let more : ltb (length (b ++ ys)) expected ≡ false =
              ground (arith, length-append b ys) in
            let tail : get_u16_be (b ++ ys) (expected - 2) ≡ get_u16_be b (expected - 2) =
              rw
                (
                  get_or-append_left (expected - 2) b ys 0 (omega arith),
                  get_or-append_left (expected - 2 + 1) b ys 0 (omega arith),
                )
                refl in
            elim (Bool-cases (get_u16_be b (expected - 2) == frame_tail)) [
              | inr wrong ↦ λ o.
                  rw (check_frame, sane, whole, more, tail, wrong)
                    (ap skip (drop-append_left 1 b ys (omega arith)))
              | inl right ↦ λ o.
                  rw
                    (
                      check_frame,
                      sane,
                      whole,
                      more,
                      tail,
                      right,
                      take-append_left expected b ys fits,
                      drop-append_left expected b ys fits,
                    )
                    refl
            ]
      ]
    ]

at_header-Shrinks : (hdr : ℕ) (b : List ℕ) → Shrinks (length b) (at_header hdr b)
unfolding at_header
at_header-Shrinks hdr b = elim (Bool-cases (ltb (length b) 4)) [
  | inl short ↦ rw (at_header, short) (omega arith)
  | inr long ↦
      let four : 4 ≤ length b = ground arith in
      let expect = telemetry_payload_len (get_or b 2 0) in
      elim (Bool-cases (hdr == telemetry_log_header)) [
        | inr frame_ ↦
            rw (at_header, long, frame_)
              (check_frame-Shrinks hdr (get_u16_be b 2) (2 + 2 + get_u16_be b 2 + 2) b four)
        | inl log ↦ elim (Bool-cases (expect == 0 || not (get_or b 3 0 == expect))) [
          | inl bad ↦ rw (at_header, long, log, bad) (omega (arith, length-drop 1 b))
          | inr good ↦
              rw (at_header, long, log, good) (check_frame-Shrinks hdr 0 (6 + get_or b 3 0) b four)
        ]
      ]
]

at_header-extend :
    (hdr : ℕ) (b ys : List ℕ)
    → IsOpen (at_header hdr b)
    → at_header hdr (b ++ ys) ≡ extend ys (at_header hdr b)
unfolding at_header
at_header-extend hdr b ys = elim (Bool-cases (ltb (length b) 4)) [
  | inl short ↦ rw (at_header, short) (λ o. absurd o)
  | inr long ↦
      let four : 4 ≤ length b = ground arith in
      let more : ltb (length (b ++ ys)) 4 ≡ false = ground (arith, length-append b ys) in
      let second = get_or-append_left 2 b ys 0 (omega arith) in
      let third = get_or-append_left 3 b ys 0 (omega arith) in
      let expect = telemetry_payload_len (get_or b 2 0) in
      elim (Bool-cases (hdr == telemetry_log_header)) [
        | inr frame_ ↦
            rw (at_header, long, more, second, third, frame_)
              (check_frame-extend hdr (get_u16_be b 2) (2 + 2 + get_u16_be b 2 + 2) b ys four)
        | inl log ↦ elim (Bool-cases (expect == 0 || not (get_or b 3 0 == expect))) [
          | inl bad ↦
              rw (at_header, long, more, second, third, log, bad)
                (λ o. ap skip (drop-append_left 1 b ys (omega arith)))
          | inr good ↦
              rw (at_header, long, more, second, third, log, good)
                (check_frame-extend hdr 0 (6 + get_or b 3 0) b ys four)
        ]
      ]
]

-- A round that ends at a header keeps the header and all behind it.
abbrev Waits : List ℕ → Step → Type 0
Waits b (done c) = c ≡ b
Waits b (skip c) = Unit {0}
Waits b (frame d c) = Unit {0}

check_frame-Waits :
    (hdr field expected : ℕ) (b : List ℕ) → Waits b (check_frame hdr field expected b)
unfolding check_frame
check_frame-Waits hdr field expected b =
    elim (Bool-cases (ltb expected 6 || ltb buffer_size expected)) [
      | inl bad ↦ rw (check_frame, bad) tt
      | inr sane ↦ elim (Bool-cases (ltb (length b) expected)) [
        | inl short ↦ rw (check_frame, sane, short) refl
        | inr whole ↦ elim (Bool-cases (get_u16_be b (expected - 2) == frame_tail)) [
          | inr wrong ↦ rw (check_frame, sane, whole, wrong) tt
          | inl right ↦ rw (check_frame, sane, whole, right) tt
        ]
      ]
    ]

at_header-Waits : (hdr : ℕ) (b : List ℕ) → Waits b (at_header hdr b)
unfolding at_header
at_header-Waits hdr b = elim (Bool-cases (ltb (length b) 4)) [
  | inl short ↦ rw (at_header, short) refl
  | inr long ↦ elim (Bool-cases (hdr == telemetry_log_header)) [
    | inr frame_ ↦
        rw (at_header, long, frame_)
          (check_frame-Waits hdr (get_u16_be b 2) (2 + 2 + get_u16_be b 2 + 2) b)
    | inl log ↦
        elim (Bool-cases (
          telemetry_payload_len (get_or b 2 0) == 0
          || not (get_or b 3 0 == telemetry_payload_len (get_or b 2 0)))) [
            | inl bad ↦ rw (at_header, long, log, bad) tt
            | inr good ↦
                rw (at_header, long, log, good) (check_frame-Waits hdr 0 (6 + get_or b 3 0) b)
          ]
  ]
]

abbrev is_header : ℕ → Bool
is_header hdr = hdr == frame_header || hdr == telemetry_log_header

-- A byte that begins no header does not change what a round does.
step-cons :
    (a b : ℕ) (rest : List ℕ)
    → is_header (a * 256 + b) ≡ false
    → step (a ∷ b ∷ rest) ≡ step (b ∷ rest)
unfolding step find_header half_header
step-cons a b rest plain = elim (Option-cases (find_header (b ∷ rest))) [
  | inl no_header ↦ rw (step, find_header, half_header, plain, no_header) refl
  | inr (found, e) ↦ rw (step, find_header, plain, e) refl
]

find_header-step :
    (b ys : List ℕ) (found : ℕ × ℕ)
    → find_header b ≡ some found
    → (step (b ++ ys) ≡ at_header found.1 (drop found.0 b ++ ys))
      × (step (drop found.0 b ++ ys) ≡ at_header found.1 (drop found.0 b ++ ys))
      × (found.0 < length b)
unfolding step find_header
find_header-step [] ys found e = cc
find_header-step (a ∷ []) ys found e = cc
find_header-step (a ∷ b ∷ rest) ys found e = elim (Bool-cases (is_header (a * 256 + b))) [
  | inl here ↦
      let same : found ≡ (0, a * 256 + b) = ground arith in
      rw same (rw (step, find_header, here) refl, rw (step, find_header, here) refl, omega arith)
  | inr plain ↦ elim (Option-cases (find_header (b ∷ rest))) [
    | inl no_header ↦ ground arith
    | inr (later, e') ↦
        let same : found ≡ (suc later.0, later.1) = ground arith in
        let (first, second, below) = find_header-step (b ∷ rest) ys later e' in
        rw same (step-cons a b (rest ++ ys) plain ∙ first, second, omega arith)
  ]
]

-- Two bytes that begin with another byte than the headers' are no header.
plain_byte : (a b : ℕ) → b < 256 → (a == 0xEB) ≡ false → is_header (a * 256 + b) ≡ false
plain_byte a b small ne = ground arith

half_header-step :
    (b ys : List ℕ)
    → AreBytes ys
    → find_header b ≡ none
    → step (b ++ ys) ≡ step (half_header b ++ ys)
unfolding find_header half_header step
half_header-step [] ys bytes e = refl
half_header-step (a ∷ []) [] bytes e = elim (Bool-cases (a == 0xEB)) [
  | inl half ↦
      let kept : half_header (a ∷ []) ≡ a ∷ [] = rw (half_header, half) refl in
      ap (λ (k : List ℕ). step (k ++ [])) (sym kept)
  | inr other_ ↦
      let dropped : half_header (a ∷ []) ≡ [] = rw (half_header, other_) refl in
      ap done dropped ∙ ap (λ (k : List ℕ). step (k ++ [])) (sym dropped)
]
half_header-step (a ∷ []) (y ∷ ys) bytes e = elim (Bool-cases (a == 0xEB)) [
  | inl half ↦ rw (half_header, half) refl
  | inr other_ ↦ rw (half_header, other_) (step-cons a y ys (plain_byte a y bytes.0 other_))
]
half_header-step (a ∷ b ∷ rest) ys bytes e = elim (Bool-cases (is_header (a * 256 + b))) [
  | inl here ↦ ground arith
  | inr plain ↦ elim (Option-cases (find_header (b ∷ rest))) [
    | inl no_header ↦
        step-cons a b (rest ++ ys) plain ∙ half_header-step (b ∷ rest) ys bytes no_header
    | inr (later, e') ↦ ground arith
  ]
]

half_header-le : (b : List ℕ) → length (half_header b) ≤ length b
unfolding half_header
half_header-le [] = omega arith
half_header-le (a ∷ []) = ground arith
half_header-le (a ∷ b ∷ rest) = omega (arith, half_header-le (b ∷ rest))

pub step-Shrinks : (b : List ℕ) → Shrinks (length b) (step b)
unfolding step
step-Shrinks b = elim (Option-cases (find_header b)) [
  | inl no_header ↦ rw (step, no_header) (half_header-le b)
  | inr (found, e) ↦
      rw (step, e)
        (Shrinks-le (length (drop found.0 b)) (length b) _ (omega (arith, length-drop found.0 b))
          (at_header-Shrinks found.1 (drop found.0 b)))
]

done-injective : {b c : List ℕ} → done b ≡ done c → b ≡ c
done-injective e = cc

done-Waits : (b c : List ℕ) (s : Step) → s ≡ done c → Waits b s → c ≡ b
done-Waits b c (done c') e same = cc
done-Waits b c (skip c') e same = cc
done-Waits b c (frame d c') e same = cc

-- A round that goes on does the same when more bytes follow.
pub step-extend : (b ys : List ℕ) → IsOpen (step b) → step (b ++ ys) ≡ extend ys (step b)
unfolding step
step-extend b ys = elim (Option-cases (find_header b)) [
  | inl no_header ↦ rw (step, no_header) (λ o. absurd o)
  | inr (found, e) ↦
      let here : step b ≡ at_header found.1 (drop found.0 b) = rw (step, e) refl in
      let there = find_header-step b ys found e in
      rw here (λ o. there.0 ∙ at_header-extend found.1 (drop found.0 b) ys o)
]

-- A round that ends keeps what later bytes need.
pub step-done : (b c ys : List ℕ) → AreBytes ys → step b ≡ done c → step (b ++ ys) ≡ step (c ++ ys)
unfolding step
step-done b c ys bytes = elim (Option-cases (find_header b)) [
  | inl no_header ↦ λ ends.
      let here : step b ≡ done (half_header b) = rw (step, no_header) refl in
      let same : half_header b ≡ c = done-injective (sym here ∙ ends) in
      half_header-step b ys bytes no_header ∙ ap (λ (k : List ℕ). step (k ++ ys)) same
  | inr (found, e) ↦ λ ends.
      let here : step b ≡ at_header found.1 (drop found.0 b) = rw (step, e) refl in
      let there = find_header-step b ys found e in
      let same : c ≡ drop found.0 b =
        done-Waits (drop found.0 b) c _ (sym here ∙ ends)
          (at_header-Waits found.1 (drop found.0 b)) in
      there.0 ∙ sym (there.1) ∙ ap (λ (k : List ℕ). step (k ++ ys)) (sym same)
]
