-- ===== src/Stream/Cut.antt =====
-- However the reads cut the stream, the messages in it are delivered.
use mathlib.Core.List.{append_assoc, append-nil}
use dpb_s_mgmt.Base.{
  ℕ, zero, suc, ◌+◌, ◌≤◌, ◌<◌, ◌≡◌, refl, sym, ap, ◌∙◌, true, false, some, List, [], ◌∷◌, ◌++◌,
  length, take, drop, ltb, ◌||◌, get_u32_le, add32, arith, length-append, length-drop,
  take-append_left, take-append_exact, drop-append_left, drop-append_right, take-append-drop,
  get_or-append_left, Bool-cases, inl, inr, All, concat,
}
use dpb_s_mgmt.Stream.{done, message, step, process, receive, receive_all}

-- The beginning of a message of `n` bytes, as far as its length field says so.
pub record IsBeginning (max n : ℕ) (w : List ℕ) : Type 0 where
  pub field : 15 ≤ length w → get_u32_le w 4 ≡ n
  pub large : 15 ≤ n
  pub small : n ≤ max

-- A message of at most `max` bytes with its length in its length field.
abbrev pub IsMessage : ℕ → List ℕ → Type 0
IsMessage max m = IsBeginning max (length m) m

-- The beginning of a message, or nothing.
abbrev pub IsCut : ℕ → List ℕ → Type 0
IsCut max w = (n : ℕ) × IsBeginning max n w × (length w < n)

module _ (max : ℕ) (bound : max ≤ 8192) where
  get_u32_prefix : (x y : List ℕ) → 15 ≤ length x → get_u32_le (x ++ y) 4 ≡ get_u32_le x 4
  get_u32_prefix x y h =
      rw
        (
          get_or-append_left 4 x y 0 (omega arith),
          get_or-append_left (4 + 1) x y 0 (omega arith),
          get_or-append_left (4 + 2) x y 0 (omega arith),
          get_or-append_left (4 + 3) x y 0 (omega arith),
        )
        refl

  step-cut : (x : List ℕ) → IsCut max x → step x ≡ done x
  unfolding step
  step-cut x (n, b, short) = elim (Bool-cases (ltb (length x) 15)) [
    | inl tiny ↦ rw (step, tiny) refl
    | inr header ↦
        let at = b.field (ground arith) in
        let sane : (ltb n 15 || ltb 8192 n) ≡ false = ground (arith, b.large, b.small) in
        let waits : ltb (length x) n ≡ true = ground arith in
        rw (step, header, at, sane, waits) refl
  ]

  step-message : (m x : List ℕ) → IsMessage max m → step (m ++ x) ≡ message m x
  unfolding step
  step-message m x b =
      let len = length-append m x in
      let at : get_u32_le (m ++ x) 4 ≡ length m = get_u32_prefix m x b.large ∙ b.field b.large in
      let header : ltb (length (m ++ x)) 15 ≡ false = ground (arith, b.large, len) in
      let sane : (ltb (length m) 15 || ltb 8192 (length m)) ≡ false =
        ground (arith, b.large, b.small) in
      let whole : ltb (length (m ++ x)) (length m) ≡ false = ground (arith, len) in
      rw (step, header, at, sane, whole)
        (ap (λ (k : List ℕ). message k (drop (length m) (m ++ x)))
            (take-append_exact (length m) m x refl)
          ∙ ap (message m) (drop-append_right (length m) 0 m x (omega arith)))

  -- What is there of a word is its beginning.
  prefix-IsCut :
      (n : ℕ) (x y w z : List ℕ)
      → IsBeginning max n w
      → x ++ y ≡ w ++ z
      → length x ≤ length w
      → length x < n
      → IsCut max x
  prefix-IsCut n x y w z b e inside short = (
    n,
    record {
      field = λ h.
          sym (get_u32_prefix x y h)
          ∙ ap (λ (k : List ℕ). get_u32_le k 4) e
          ∙ get_u32_prefix w z (omega arith)
          ∙ b.field (omega arith);
      large = b.large;
      small = b.small;
    },
    short,
  )

  -- A word that another begins with is split off.
  split_off :
      (m x y w : List ℕ)
      → x ++ y ≡ m ++ w
      → length m ≤ length x
      → (m ++ drop (length m) x ≡ x) × (drop (length m) x ++ y ≡ w)
  split_off m x y w e h = (
    ap (λ (k : List ℕ). k ++ drop (length m) x)
          (sym (take-append_exact (length m) m w refl)
            ∙ ap (take (length m)) (sym e)
            ∙ take-append_left (length m) x y h)
        ∙ take-append-drop (length m) x,
    sym (drop-append_left (length m) x y h)
        ∙ ap (drop (length m)) e
        ∙ drop-append_right (length m) 0 m w (omega arith),
  )

abbrev pub deliver_all : {S : Type 0} → (List ℕ → S → S) → List (List ℕ) → S → S
deliver_all deliver [] s = s
deliver_all deliver (m ∷ ms) s = deliver_all deliver ms (deliver m s)

-- What the loop leaves of a stream: the messages that are not yet delivered, and the bytes in the buffer.
record Left {S : Type 0} (max : ℕ) (deliver : List ℕ → S → S) (whole : S) (y rest : List ℕ)
    (r : S × List ℕ) : Type 0 where
  later : List (List ℕ)
  sound : All (IsMessage max) later
  goal : deliver_all deliver later r.0 ≡ whole
  stream : r.1 ++ y ≡ concat later ++ rest
  cut : IsCut max r.1

module _ (max : ℕ) (bound : max ≤ 8192) {S : Type 0} (deliver : List ℕ → S → S) where
  process-Left :
      (k : ℕ) (s : S) (ms : List (List ℕ)) (x y rest : List ℕ)
      → All (IsMessage max) ms
      → IsCut max rest
      → x ++ y ≡ concat ms ++ rest
      → length x < k
      → (r : S × List ℕ) × (process deliver k s x ≡ some r)
        × Left max deliver (deliver_all deliver ms s) y rest r
  unfolding process
  process-Left zero s ms x y rest ok_ cut e h = absurd (omega arith)
  process-Left (suc k) s [] x y rest ok_ (n, b, short) e h =
      let len = ap (λ (l : List ℕ). length l) e in
      let sum = length-append x y in
      let here =
        prefix-IsCut max bound n x y rest [] b (e ∙ sym (append-nil rest)) (omega arith)
          (omega arith) in
      (
        (s, x),
        rw (process, step-cut max bound x here) refl,
        record { later = []; sound = tt; goal = refl; stream = e; cut = here },
      )
  process-Left (suc k) s (m ∷ ms) x y rest ok_ cut e h =
      elim (Bool-cases (ltb (length x) (length m))) [
        | inl short ↦
            let here =
              prefix-IsCut max bound (length m) x y m (concat ms ++ rest) ok_.0
                (e ∙ append_assoc m (concat ms) rest) (ground arith) (ground arith) in
            (
              (s, x),
              rw (process, step-cut max bound x here) refl,
              record { later = m ∷ ms; sound = ok_; goal = refl; stream = e; cut = here },
            )
        | inr whole ↦
            let (same, left) =
              split_off max bound m x y (concat ms ++ rest) (e ∙ append_assoc m (concat ms) rest)
                (ground arith) in
            let goes : step x ≡ message m (drop (length m) x) =
              ap step (sym same) ∙ step-message max bound m (drop (length m) x) ok_.0 in
            let (r, found, l) =
              process-Left k (deliver m s) ms (drop (length m) x) y rest ok_.1 cut left
                (ground (arith, length-drop (length m) x, ok_.0.large)) in
            (r, rw (process, goes) found, l)
      ]

  -- A cut-off message is not followed by anything that is delivered.
  no_message :
      (ms : List (List ℕ)) (b rest : List ℕ)
      → All (IsMessage max) ms
      → IsCut max b
      → b ≡ concat ms ++ rest
      → (ms ≡ []) × (b ≡ rest)
  no_message [] b rest ok_ cut e = (refl, e)
  no_message (m ∷ ms) b rest ok_ cut e =
      let stays = step-cut max bound b cut in
      let goes =
        ap step (e ∙ append_assoc m (concat ms) rest)
        ∙ step-message max bound m (concat ms ++ rest) ok_.0 in
      absurd (cc)

  receive-Left :
      (s : S) (ms : List (List ℕ)) (b bytes y rest : List ℕ)
      → All (IsMessage max) ms
      → IsCut max b
      → IsCut max rest
      → length bytes + max ≤ 8193
      → b ++ (bytes ++ y) ≡ concat ms ++ rest
      → (r : S × List ℕ) × (receive deliver s b bytes ≡ some r)
        × Left max deliver (deliver_all deliver ms s) y rest r
  unfolding receive
  receive-Left s ms b bytes y rest ok_ (n, beginning, short) cut room e =
      let sum = length-append b bytes in
      let fits : ltb 8192 (add32 (length b) (length bytes)) ≡ false =
        ground (arith, beginning.small) in
      let (r, found, l) =
        process-Left 8193 s ms (b ++ bytes) y rest ok_ cut (append_assoc b bytes y ∙ e)
          (omega (arith, beginning.small)) in
      (r, rw (receive, fits) found, l)

  -- Where every message has at most `max` bytes and its length in its header, and every read at most
  -- 8193 - `max`, so that it finds room in the buffer of 8192 bytes behind a part of a message: the messages
  -- of the stream are delivered each once and in their order, wherever the reads cut it, and the bytes
  -- behind the last one stay in the buffer.
  pub receive_all-delivers :
      (reads ms : List (List ℕ)) (s : S) (b rest : List ℕ)
      → All (IsMessage max) ms
      → IsCut max b
      → IsCut max rest
      → All (λ r. length r + max ≤ 8193) reads
      → b ++ concat reads ≡ concat ms ++ rest
      → receive_all deliver s b reads ≡ some (deliver_all deliver ms s, rest)
  unfolding receive_all
  receive_all-delivers [] ms s b rest ok_ here cut room e =
      let (none_left, same) = no_message ms b rest ok_ here (sym (append-nil b) ∙ e) in
      rw (none_left, same) refl
  receive_all-delivers (bytes ∷ reads) ms s b rest ok_ here cut room e =
      let ((s', b'), found, l) =
        receive-Left s ms b bytes (concat reads) rest ok_ here cut room.0 e in
      rw (receive_all, found)
        (receive_all-delivers reads l.later s' b' rest l.sound l.cut cut room.1 l.stream
          ∙ ap (λ (t : S). some (t, rest)) l.goal)
