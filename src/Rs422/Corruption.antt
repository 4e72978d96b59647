-- ===== src/Rs422/Corruption.antt =====
-- One byte that the line changes in a frame: `rs422_decode_frame` refuses the frame.
use dpb_s_mgmt.Base.{
  ℕ, zero, suc, ◌∷◌, [], Bool-cases, inl, inr, ◌+◌, ◌-◌, ◌^◌, ◌≤◌, ◌<◌, ◌≡◌, ◌≢◌, refl, ap, ◌∙◌,
  false, not, List, arith, length, get_or, set, take, drop, ltb, ◌==◌, add32, get_u16_be, general,
  invalid_param, fail_if-eq_ok, fail_if-err, ok, err, AreBytes, get_or-lt, length-take, length-drop,
  length-set, get_or-set_ne, get_or-set_self, get_or-take, get_or-drop, drop-set, take-set, ==_ne,
  ltb-eq_false,
}
use dpb_s_mgmt.Rs422.{
  sync_word_ack, header_size, crc_size, checksum, Decoded, decode_data, decode_frame,
}
use dpb_s_mgmt.Rs422.Checksum.{checksum-set_ne}

-- A frame whose checksum does not fit is refused, whatever else is wrong with it.
decode_data-mismatch :
    (frame : List ℕ) (m : ℕ)
    → m < 2 ^ 17
    → get_u16_be frame (m + 8) ≢ checksum (take (m + 6) (drop 2 frame))
    → decode_data frame m ≡ err general
unfolding decode_data
decode_data-mismatch frame m small ne =
    let e : add32 header_size m ≡ m + 8 = omega arith in
    let e' : m + 8 - 2 ≡ m + 6 = omega arith in
    rw (e, e', ==_ne _ _ ne)
      (fail_if-err (ltb m 2) general _
        (fail_if-err (ltb (length frame) (add32 (m + 8) crc_size)) general _ refl))

-- What the checks of `rs422_decode_frame` have established when it returns SUCCESS.
pub record Accepted (frame : List ℕ) (d : Decoded) : Type 0 where
  pub size : d.payload_len + 12 ≤ length frame
  pub sync : get_u16_be frame 0 ≡ sync_word_ack
  pub field : get_u16_be frame 6 ≡ d.payload_len + 1
  pub seal :
      get_u16_be frame (d.payload_len + 10) ≡ checksum (take (d.payload_len + 8) (drop 2 frame))
  pub payload : d.payload ≡ take d.payload_len (drop 10 frame)

not-eq_self : (a b : ℕ) → a ≡ b → not (a == b) ≡ false
not-eq_self a b h = ground arith

not-eq_false : (a b : ℕ) → not (a == b) ≡ false → a ≡ b
not-eq_false a b h = ground arith

decode_frame-Accepted :
    (frame : List ℕ) {d : Decoded} → AreBytes frame → decode_frame frame ≡ ok d → Accepted frame d
unfolding decode_frame decode_data
decode_frame-Accepted frame {d} h e =
    let m : ℕ = get_u16_be frame 6 + 1 in
    let m_small : m ≤ 2 ^ 16 = omega (arith, get_or-lt frame 6 h, get_or-lt frame 7 h) in
    let t1 = fail_if-eq_ok (ltb (length frame) 12) invalid_param _ e in
    let t2 = fail_if-eq_ok (not (get_u16_be frame 0 == sync_word_ack)) general _ t1.1 in
    let t3 = fail_if-eq_ok (ltb m 2) general _ t2.1 in
    let t4 =
      fail_if-eq_ok (ltb (length frame) (add32 (add32 header_size m) crc_size)) general _ t3.1 in
    let t5 =
      fail_if-eq_ok
        (not (
          get_u16_be frame (add32 header_size m)
          == checksum (take (add32 header_size m - 2) (drop 2 frame))))
        general _ t4.1 in
    let len_eq : m - 2 ≡ d.payload_len = cc t5.1 in
    let two : 2 ≤ m = ground (arith, t3.0) in
    let e_m : add32 header_size m ≡ d.payload_len + 10 = omega (arith, two, len_eq) in
    let e_c : d.payload_len + 10 - 2 ≡ d.payload_len + 8 = omega arith in
    let sealed_ok : get_u16_be frame (d.payload_len + 10)
        ≡ checksum (take (d.payload_len + 8) (drop 2 frame)) =
      rw (e_m, e_c) at (not-eq_false _ _ t5.0) in
    record {
      size = ground (arith, t4.0, len_eq, two);
      sync = not-eq_false _ _ t2.0;
      field = omega (arith, two, len_eq);
      seal = sealed_ok;
      payload = rw (← len_eq) (cc t5.1);
    }

-- Changing one covered byte changes the checksum of the covered part, which is `c` bytes long.
covered-set_ne :
    (frame : List ℕ) (k v c : ℕ)
    → AreBytes frame
    → 2 ≤ k
    → k < c + 2
    → c + 2 ≤ length frame
    → v < 256
    → v ≢ get_or frame k 0
    → checksum (take c (drop 2 (set frame k v))) ≢ checksum (take c (drop 2 frame))
covered-set_ne frame k v c h two inside fits small ne =
    let j : ℕ = k - 2 in
    let held : List ℕ = take c (drop 2 frame) in
    let moved : take c (drop 2 (set frame k v)) ≡ set held j v =
      ap (take c) (drop-set 2 j k frame v (omega arith)) ∙ take-set c j (drop 2 frame) v in
    let old : get_or held j 0 ≡ get_or frame k 0 =
      get_or-take c j (drop 2 frame) 0 (omega arith)
      ∙ get_or-drop frame 2 j 0
      ∙ ap (λ i. get_or frame i 0) (omega arith) in
    rw moved (
      checksum-set_ne held j v (omega (arith, length-take c (drop 2 frame), length-drop 2 frame))
        (omega (arith, old, get_or-lt frame k h)) small (omega (arith, old)))

-- A byte behind the covered ones leaves them as they are.
covered-set_above :
    (frame : List ℕ) (k v c : ℕ)
    → c + 2 ≤ k
    → take c (drop 2 (set frame k v)) ≡ take c (drop 2 frame)
covered-set_above frame k v c h =
    let j : ℕ = k - 2 in
    ap (take c) (drop-set 2 j k frame v (omega arith))
    ∙ take-set c j (drop 2 frame) v
    ∙ set-above (take c (drop 2 frame)) j v (omega (arith, length-take c (drop 2 frame)))
  where
    set-above : (xs : List ℕ) (i v : ℕ) → length xs ≤ i → set xs i v ≡ xs
    set-above [] i v h = refl
    set-above (x ∷ xs) zero v h = absurd (omega arith)
    set-above (x ∷ xs) (suc i) v h = ap (◌∷◌ x) (set-above xs i v (omega arith))

-- Neither a byte of the sync word nor of the length field, and in the frame, its checksum included.
abbrev IsCovered : ℕ → ℕ → Type 0
IsCovered k payload_len = (2 ≤ k) × (k ≢ 6) × (k ≢ 7) × (k < payload_len + 12)

-- The checksum does not fit once a byte is changed, in what it covers or in itself.
seal-set_ne :
    (frame : List ℕ) (k v n : ℕ)
    → AreBytes frame
    → n + 12 ≤ length frame
    → get_u16_be frame (n + 10) ≡ checksum (take (n + 8) (drop 2 frame))
    → IsCovered k n
    → v < 256
    → v ≢ get_or frame k 0
    → get_u16_be (set frame k v) (n + 10) ≢ checksum (take (n + 8) (drop 2 (set frame k v)))
seal-set_ne frame k v n h size seal covered small ne =
    let at : (i : ℕ) → k ≢ i → get_or (set frame k v) i 0 ≡ get_or frame i 0 =
      λ i. get_or-set_ne frame k i v 0 in
    elim (Bool-cases (ltb k (n + 10))) [
      | inl below ↦
          let inside : k < n + 10 = ground arith in
          let differs =
            covered-set_ne frame k v (n + 8) h covered.0 (omega arith) (omega arith) small ne in
          omega (arith, at (n + 10) (omega arith), at (n + 10 + 1) (omega arith), seal, differs)
      | inr above ↦
          let behind : n + 10 ≤ k = ground arith in
          let kept = covered-set_above frame k v (n + 8) (omega arith) in
          let new : (i : ℕ) → k ≡ i → get_or (set frame k v) i 0 ≡ v =
            λ i p. rw (← p) (get_or-set_self frame k v 0 (omega (arith, covered.3))) in
          let old : (i : ℕ) → k ≡ i → v ≢ get_or frame i 0 = λ i p. rw (← p) ne in
          let low = get_or-lt frame (n + 10 + 1) h in
          let sums = ap checksum kept in
          elim (Bool-cases (k == n + 10)) [
            | inl first ↦
                let here : k ≡ n + 10 = ground arith in
                let e = new (n + 10) here in
                let e' = at (n + 10 + 1) (omega arith) in
                let other = old (n + 10) here in omega (arith, e, e', other, low, sums, seal)
            | inr second ↦
                let here : k ≡ n + 10 + 1 = ground (arith, covered.3) in
                let e = new (n + 10 + 1) here in
                let e' = at (n + 10) (omega arith) in
                let other = old (n + 10 + 1) here in omega (arith, e, e', other, low, sums, seal)
          ]
    ]

-- A frame of bytes that `rs422_decode_frame` accepts is refused once any single one of its bytes, up to
-- the checksum and with it, is replaced by another one, those of the sync word and of the length field
-- excepted. What stands in the buffer behind the checksum is not part of the frame.
pub decode_frame-set_ne :
    (frame : List ℕ) (k v : ℕ) {d : Decoded}
    → AreBytes frame
    → decode_frame frame ≡ ok d
    → IsCovered k d.payload_len
    → v < 256
    → v ≢ get_or frame k 0
    → decode_frame (set frame k v) ≡ err general
unfolding decode_frame
decode_frame-set_ne frame k v {d} h e covered small ne =
    let a = decode_frame-Accepted frame h e in
    let n : ℕ = d.payload_len in
    let new : List ℕ = set frame k v in
    let len : length new ≡ length frame = length-set frame k v in
    let at : (i : ℕ) → k ≢ i → get_or new i 0 ≡ get_or frame i 0 =
      λ i. get_or-set_ne frame k i v 0 in
    let sync : get_u16_be new 0 ≡ sync_word_ack =
      omega (arith, at 0 (omega (arith, covered.0)), at 1 (omega (arith, covered.0)), a.sync) in
    let field : get_u16_be new 6 + 1 ≡ n + 2 =
      omega (arith, at 6 covered.1, at 7 covered.2, a.field) in
    let differs = seal-set_ne frame k v n h a.size a.seal covered small ne in
    let mismatch : get_u16_be new (n + 2 + 8) ≢ checksum (take (n + 2 + 6) (drop 2 new)) =
      let e10 : n + 2 + 8 ≡ n + 10 = omega arith in
      let e8 : n + 2 + 6 ≡ n + 8 = omega arith in rw (e10, e8) differs in
    rw (ltb-eq_false (length new) 12 (omega (arith, len, a.size)), not-eq_self _ _ sync, field)
      (decode_data-mismatch new (n + 2)
        (omega (arith, a.field, get_or-lt frame 6 h, get_or-lt frame 7 h)) mismatch)
