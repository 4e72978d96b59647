-- ===== src/Finder/Parse.antt =====
-- `pkfinderParse`: its loop ends, stays in the data, and passes on packets that do not overlap.
use dpb_s_mgmt.Base.{
  ℕ, zero, suc, ◌+◌, ◌-◌, ◌^◌, ◌≤◌, ◌<◌, ◌≡◌, refl, sym, ap, ◌∙◌, Bool, true, false, Option, some,
  List, arith, length, take, drop, get_or, get_or-drop, AreBytes, AreBytes-drop, add32, sub32, ltb,
  leb, ◌==◌, if◌then◌else◌, Bool-cases, leb→le, inl, inr, length-drop, bit_and, bit_or, ◌*◌,
}
use dpb_s_mgmt.Finder.{
  PkFinder, Verdict, failed, no_head, incomplete, complete, Scan, Out, left, aborted, Round, again,
  over, len_byte, little_len, big_len, field_len, head_from, head_at, find, act, round, proceed,
  parse_loop,
}
use dpb_s_mgmt.Finder.Packet.{IsSane, packet_len, Says, find-Says}

head_from-drop :
    (pf : PkFinder) (dat : List ℕ) (i p j rounds : ℕ)
    → head_from pf (drop i dat) p j rounds ≡ head_from pf dat (i + p) j rounds
unfolding head_from
head_from-drop pf dat i p j zero = refl
head_from-drop pf dat i p j (suc rounds) =
    rw (get_or-drop dat i (p + j) 0, head_from-drop pf dat i p (j + 1) rounds)
      (ap
        (λ k.
          if bit_and (get_or dat k 0) (get_or pf.head_masks j 0) == get_or pf.head_buf j 0
          then head_from pf dat (i + p) (j + 1) rounds
          else false)
        (omega arith))

len_byte-drop :
    (pf : PkFinder) (dat : List ℕ) (i p k : ℕ)
    → len_byte pf (drop i dat) p k ≡ len_byte pf dat (i + p) k
unfolding len_byte
len_byte-drop pf dat i p k = rw (get_or-drop dat i (p + pf.pk_len_pos + k) 0) (
    ap (λ j. if k == 0 then bit_and (get_or dat j 0) pf.pk_len_first_msk else get_or dat j 0)
      (omega arith))

little_len-drop :
    (pf : PkFinder) (dat : List ℕ) (i p acc k rounds : ℕ)
    → little_len pf (drop i dat) p acc k rounds ≡ little_len pf dat (i + p) acc k rounds
unfolding little_len
little_len-drop pf dat i p acc k zero = refl
little_len-drop pf dat i p acc k (suc rounds) = rw (len_byte-drop pf dat i p k) (
    little_len-drop pf dat i p (bit_or acc (len_byte pf dat (i + p) k * 2 ^ (8 * k))) (k + 1)
      rounds)

big_len-drop :
    (pf : PkFinder) (dat : List ℕ) (i p acc k rounds : ℕ)
    → big_len pf (drop i dat) p acc k rounds ≡ big_len pf dat (i + p) acc k rounds
unfolding big_len
big_len-drop pf dat i p acc k zero = refl
big_len-drop pf dat i p acc k (suc rounds) = rw (len_byte-drop pf dat i p (pf.pk_len_len - k - 1)) (
    big_len-drop pf dat i p
      (bit_or acc (len_byte pf dat (i + p) (pf.pk_len_len - k - 1) * 2 ^ (8 * k))) (k + 1) rounds)

-- The length of a packet in the rest of the data is its length in the data.
packet_len-drop :
    (pf : PkFinder) (dat : List ℕ) (i p : ℕ)
    → packet_len pf (drop i dat) p ≡ packet_len pf dat (i + p)
unfolding field_len
packet_len-drop pf dat i p =
    rw (little_len-drop pf dat i p 0 0 pf.pk_len_len, big_len-drop pf dat i p 0 0 pf.pk_len_len)
      refl

-- The header of the rest of the data is the header of the data.
head_at-drop :
    (pf : PkFinder) (dat : List ℕ) (i p : ℕ) → head_at pf (drop i dat) p ≡ head_at pf dat (i + p)
unfolding head_at
head_at-drop pf dat i p = head_from-drop pf dat i p 0 pf.head_len

module _ {S : Type 0} (pf : PkFinder) (chk_exec : S → List ℕ → S × Bool) (dat : List ℕ) where
  -- What a client shows of its callback: `P at ok e` says that all packets passed on so far end at
  -- or before `at`, that `pk_fres` is `ok`, and whatever it wants of its state `e`. A packet that
  -- starts at or behind that place, with a header and of the length that the finder gives it, keeps it.
  pub record Keeps (P : ℕ → Bool → S → Type 0) : Type 0 where
    pub later : (at at' : ℕ) (ok : Bool) (e : S) → at ≤ at' → P at ok e → P at' ok e
    pub packet :
        (lo at len : ℕ) (ok : Bool) (e : S)
        → lo ≤ at
        → at + len ≤ length dat
        → pf.head_len ≤ len
        → head_at pf dat at ≡ true
        → len ≡ packet_len pf dat at
        → P lo ok e
        → let (e', good) = chk_exec e (take len (drop at dat)) in
          P (if good then at + len else at + pf.head_len) (if good then true else ok) e'

  -- What a round does to a scan that satisfies `P`.
  abbrev pub After : (ℕ → Bool → S → Type 0) → Scan S → Round S → Type 0
  After P s (again s') =
      (s.fnd_index < s'.fnd_index) × (s'.fnd_index ≤ length dat) × P s'.fnd_index s'.pk_fres s'.exec
  After P s (over (left s')) =
      (s.fnd_index ≤ s'.fnd_index) × (s'.fnd_index ≤ length dat) × P s'.fnd_index s'.pk_fres s'.exec
  After P s (over (aborted e)) = ⊥

  module _ {P : ℕ → Bool → S → Type 0} (keeps : Keeps P) (sane : IsSane pf)
      (are_bytes : AreBytes dat) (small : length dat < 2 ^ 31) where
    act-After :
        (n : ℕ) (s : Scan S) (verdict : Verdict) (pos len : ℕ)
        → s.fnd_index + pf.head_len ≤ length dat
        → P s.fnd_index s.pk_fres s.exec
        → Says pf (drop s.fnd_index dat) verdict pos len
        → After P s (act pf chk_exec dat n s verdict pos len)
    unfolding act
    act-After n s failed pos len fits p says = says
    act-After n s no_head pos len fits p says =
        let i : ℕ = sub32 (length dat) pf.head_len in
        (omega arith, omega arith, keeps.later s.fnd_index i s.pk_fres s.exec (omega arith) p)
    act-After n s incomplete pos len fits p says =
        let i : ℕ =
          if ltb n len then add32 (add32 s.fnd_index pos) pf.head_len else add32 s.fnd_index pos in
        let bounds : (s.fnd_index ≤ i) × (i ≤ length dat) =
          ground (arith, length-drop s.fnd_index dat) in
        (bounds.0, bounds.1, keeps.later s.fnd_index i s.pk_fres s.exec bounds.0 p)
    act-After n s complete pos len fits p says =
        let at : ℕ = s.fnd_index + pos in
        let l : pos + len ≤ length dat - s.fnd_index =
          omega (arith, says.0, length-drop s.fnd_index dat) in
        let here : head_at pf dat at ≡ true = sym (head_at-drop pf dat s.fnd_index pos) ∙ says.2 in
        let e_at : add32 s.fnd_index pos ≡ at = omega arith in
        let e_len : add32 at len ≡ at + len = omega arith in
        let e_head : add32 at pf.head_len ≡ at + pf.head_len = omega (arith, says.1) in
        let good : Bool = (chk_exec s.exec (take len (drop at dat))).1 in
        let next : ℕ = if good then at + len else at + pf.head_len in
        let bounds : (s.fnd_index < next) × (next ≤ length dat) =
          ground (arith, says.1, sane.head_pos) in
        rw (e_at, e_len, e_head)
          (
            bounds.0,
            bounds.1,
            keeps.packet s.fnd_index at len s.pk_fres s.exec (omega arith) (omega arith) says.1 here
                (says.4 ∙ packet_len-drop pf dat s.fnd_index pos) p,
          )

    round-After :
        (n : ℕ) (s : Scan S)
        → s.fnd_index + pf.head_len ≤ length dat
        → P s.fnd_index s.pk_fres s.exec
        → After P s (round pf chk_exec dat n s)
    unfolding round
    round-After n s fits p =
        let rest : List ℕ = drop s.fnd_index dat in
        let f = find pf rest s.pk_pos s.pk_len in
        act-After n s f.verdict f.pos f.len fits p (
          find-Says rest s.pk_pos s.pk_len sane (AreBytes-drop s.fnd_index dat are_bytes)
            (omega (arith, length-drop s.fnd_index dat))
            (omega (arith, length-drop s.fnd_index dat)))

    -- How the loop ends from `s` on: by its test or a `break`, inside the data.
    abbrev pub Ends : Scan S → Option (Out S) → Type 0
    Ends s o =
        (s' : Scan S) × (o ≡ some (left s'))
        × (s.fnd_index ≤ s'.fnd_index)
        × (s'.fnd_index ≤ length dat)
        × P s'.fnd_index s'.pk_fres s'.exec

    proceed-Ends :
        (rest : Scan S → Option (Out S)) (s : Scan S) (o : Round S)
        → ((s' : Scan S)
            → s.fnd_index < s'.fnd_index
            → s'.fnd_index ≤ length dat
            → P s'.fnd_index s'.pk_fres s'.exec
            → Ends s' (rest s'))
        → After P s o
        → Ends s (proceed rest o)
    unfolding proceed
    proceed-Ends rest s (again s') ih a =
        let e = ih s' a.0 a.1 a.2 in (e.0, e.1, omega (arith, a.0, e.2), e.3, e.4)
    proceed-Ends rest s (over (left s')) ih a = (s', refl, a.0, a.1, a.2)
    proceed-Ends rest s (over (aborted e)) ih a = absurd a

    pub parse_loop-Ends :
        (fuel n : ℕ) (s : Scan S)
        → length dat < fuel + s.fnd_index
        → s.fnd_index ≤ length dat
        → P s.fnd_index s.pk_fres s.exec
        → Ends s (parse_loop pf chk_exec fuel dat n s)
    unfolding parse_loop
    parse_loop-Ends zero n s f le p = absurd (omega arith)
    parse_loop-Ends (suc fuel) n s f le p =
        elim (Bool-cases (leb (add32 s.fnd_index pf.head_len) (length dat))) [
          | inl fits ↦
              let room : add32 s.fnd_index pf.head_len ≤ length dat = leb→le _ _ fits in
              rw fits (
                proceed-Ends (parse_loop pf chk_exec fuel dat n) s (round pf chk_exec dat n s)
                  (λ s' lt le' p'. parse_loop-Ends fuel n s' (omega arith) le' p')
                  (round-After n s (omega (arith, sane.add_len, sane.small_add)) p))
          | inr out ↦ rw out (s, refl, omega arith, le, p)
        ]
