-- ===== src/Transparent/Forward.antt =====
-- What reaches the FPGA of a transparent message.
use dpb_s_mgmt.Base.{
  ℕ, zero, suc, ◌+◌, ◌-◌, ◌≤◌, ◌≡◌, ◌⊎◌, ◌%◌, ◌^◌, refl, sym, ap, ◌∙◌, Bool, true, false, none,
  some, List, [], ◌∷◌, ◌++◌, length, get_or, take, replicate, ltb, leb, ◌==◌, arith, Error, Result,
  ok, err, length-append, length-replicate, take-append_exact, get_or-append_left, Bool-cases, inl,
  inr, ==_iff,
}
use dpb_s_mgmt.Transparent.{
  Content, Effects, calc_effective_len, ie_payload, reply, handle_bbu_to_paau, msg_handle,
  send_paau_to_bbu,
}
use dpb_s_mgmt.Transparent.Elements.{msg_parse-ie_payload}

zero_get : (k i : ℕ) → ◌≡◌ {A = ℕ} (get_or (replicate k 0) i 0) 0
zero_get zero i = refl
zero_get (suc k) zero = refl
zero_get (suc k) (suc i) = zero_get k i

zero_behind : (s : List ℕ) (k i : ℕ) → length s ≤ i → get_or (s ++ replicate k 0) i 0 ≡ 0
zero_behind [] k i h = zero_get k i
zero_behind (x ∷ s) k zero h = absurd (omega arith)
zero_behind (x ∷ s) k (suc i) h = zero_behind s k i (omega arith)

-- The last byte that is not zero ends what counts.
strip :
    (xs : List ℕ) (j n : ℕ)
    → suc j ≤ n
    → ((i : ℕ) → suc j ≤ i → get_or xs i 0 ≡ 0)
    → (get_or xs j 0 == 0) ≡ false
    → calc_effective_len xs n ≡ suc j
unfolding calc_effective_len
strip xs j zero h z l = absurd (omega arith)
strip xs j (suc n) h z l = elim (Bool-cases (n == j)) [
  | inl here ↦ let same : n ≡ j = (==_iff n j).0 here in rw (same, l) refl
  | inr there ↦
      let above : suc j ≤ n = ground arith in
      let zero_here : (get_or xs n 0 == 0) ≡ true = (==_iff (get_or xs n 0) 0).1 (z n above) in
      rw (zero_here) (strip xs j n above z l)
]

Result-cases :
    (r : Result (List ℕ)) → ((bytes : List ℕ) × (r ≡ ok bytes)) ⊎ ((e : Error) × (r ≡ err e))
Result-cases (ok bytes) = inl (bytes, refl)
Result-cases (err e) = inr (e, refl)

reply-to_fpga :
    (initialized auto_reply : Bool) (msg_id : ℕ) (c : Content) (done : Effects)
    → (reply initialized auto_reply msg_id c done).1.to_fpga ≡ done.to_fpga
unfolding reply
reply-to_fpga initialized false msg_id c done = refl
reply-to_fpga initialized true msg_id c done =
    elim (Result-cases (
      send_paau_to_bbu initialized ((221 + (msg_id - 231)) % 2 ^ 16) c.target_id
        (take c.effective_len c.bytes))) [
          | inl (bytes, e) ↦ rw e refl
          | inr (e, failed) ↦ rw failed refl
        ]

effective :
    (sent : List ℕ) (k : ℕ)
    → (get_or sent (length sent - 1) 0 == 0) ≡ false
    → calc_effective_len (sent ++ replicate k 0) (length (sent ++ replicate k 0)) ≡ length sent
effective [] k l = absurd (ground arith)
effective (x ∷ s) k l =
    let last : suc (length s) - 1 ≡ length s = omega arith in
    let whole = x ∷ s in
    let sum = length-append whole (replicate k 0) in
    strip (whole ++ replicate k 0) (length s) (length (whole ++ replicate k 0)) (omega arith)
      (λ i h. zero_behind whole k i h)
      (ap (λ b. b == 0) (get_or-append_left (length s) whole (replicate k 0) 0 (omega arith))
        ∙ ap (λ n. get_or whole n 0 == 0) (sym last)
        ∙ l)

nonempty : (s : List ℕ) → (get_or s (length s - 1) 0 == 0) ≡ false → ltb 0 (length s) ≡ true
nonempty [] l = absurd (ground arith)
nonempty (x ∷ s) l = ground arith

-- A message for the FPGA (231 to 240) reaches it without the zeros that fill its content up to at most
-- 1024 bytes, and without anything else changed, also where the answer fails: for a content whose last
-- byte is not zero, an enabled channel and a serial port that takes the bytes.
pub msg_handle-forwards :
    (send_raw : List ℕ → Result (Unit {0})) (auto_reply : Bool) (msg_id target k : ℕ)
    (sent : List ℕ)
    → 231 ≤ msg_id
    → msg_id ≤ 240
    → length sent + k ≤ 1024
    → (get_or sent (length sent - 1) 0 == 0) ≡ false
    → send_raw sent ≡ ok tt
    → (msg_handle send_raw true true auto_reply msg_id
        (some (ie_payload target (sent ++ replicate k 0)))).1.to_fpga
      ≡ some sent
unfolding msg_handle handle_bbu_to_paau
msg_handle-forwards send_raw auto_reply msg_id target k sent low high small l works =
    let content = sent ++ replicate k 0 in
    let sum = length-append sent (replicate k 0) in
    let zeros = length-replicate {A = ℕ} k 0 in
    let parsed = msg_parse-ie_payload target content (omega (arith, sum, zeros)) in
    let from : leb 231 msg_id ≡ true = ground arith in
    let to : leb msg_id 240 ≡ true = ground arith in
    let some_bytes = nonempty sent l in
    let cut = take-append_exact (length sent) sent (replicate k 0) refl in
    rw (parsed, effective sent k l, from, to, some_bytes, cut, works)
      (reply-to_fpga true auto_reply msg_id
          (record {
            target_id = target;
            bytes = content;
            effective_len = calc_effective_len content (length content);
          })
          (record {
            to_fpga = some (take (calc_effective_len content (length content)) content);
            to_bbu = none;
          })
        ∙ ap (λ n. some (take n content)) (effective sent k l)
        ∙ ap (λ xs. some xs) cut)
