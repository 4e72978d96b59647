-- ===== src/Transparent/Elements.antt =====
-- What is sent comes back from the elements that it is put into.
use dpb_s_mgmt.Base.{
  ℕ, suc, ◌+◌, ◌-◌, ◌*◌, ◌/◌, ◌%◌, ◌^◌, ◌≤◌, ◌<◌, ◌≡◌, refl, sym, ap, ◌∙◌, false, none, some, List,
  [], ◌∷◌, ◌++◌, length, drop, ltb, arith, u16_le, ok, take_all, length-append, take-append_exact,
  drop-append_right, ltb-eq_false,
}
use dpb_s_mgmt.Transparent.{
  Found, ie_target, ie_content, take_ie, parse_ies, msg_parse, ie_payload, calc_effective_len,
}

drop_header : (k a b c d : ℕ) (p : List ℕ) → drop (4 + k) (a ∷ b ∷ c ∷ d ∷ p) ≡ drop k p
drop_header k a b c d p =
    let four : 4 + k ≡ suc (suc (suc (suc k))) = omega arith in
    ap (λ n. drop n (a ∷ b ∷ c ∷ d ∷ p)) four

of_bytes : (x : ℕ) → x < 65536 → x % 256 + x / 256 % 256 * 256 ≡ x
of_bytes x h = omega arith

-- One round of the loop, over an element that is put together as the sender does it.
parse_ies-element :
    (n : ℕ) (f : Found) (ie_type : ℕ) (data_ rest : List ℕ)
    → ie_type < 65536
    → length data_ ≤ 65531
    → parse_ies
        (suc n)
        f
        (u16_le ie_type ++ (u16_le ((4 + length data_) % 2 ^ 16) ++ (data_ ++ rest)))
      ≡ parse_ies n (take_ie f ie_type data_) rest
unfolding parse_ies
parse_ies-element n f ie_type data_ rest ht hl =
    let fits : (4 + length data_) % 65536 ≡ 4 + length data_ = omega arith in
    let ty = of_bytes ie_type ht in
    let len = of_bytes (4 + length data_) (omega arith) in
    let more : 4 + length data_ - 4 ≡ length data_ = omega arith in
    let tail =
      drop_header (length data_) (ie_type % 256) (ie_type / 256 % 256) ((4 + length data_) % 256)
        ((4 + length data_) / 256 % 256) (data_ ++ rest) in
    let enough : 4 ≤ suc (suc (suc (suc (length (data_ ++ rest))))) = omega arith in
    let inside : 4 + length data_ ≤ suc (suc (suc (suc (length (data_ ++ rest))))) =
      let sum = length-append data_ rest in omega arith in
    rw
      (
        fits,
        ty,
        len,
        more,
        tail,
        take-append_exact (length data_) data_ rest refl,
        drop-append_right (length data_) 0 data_ rest (omega arith),
        ltb-eq_false (suc (suc (suc (suc (length (data_ ++ rest)))))) 4 enough,
        ltb-eq_false (4 + length data_) 4 (omega arith),
        ltb-eq_false (suc (suc (suc (suc (length (data_ ++ rest)))))) (4 + length data_) inside,
      )
      refl

append_nil : (xs : List ℕ) → xs ++ [] ≡ xs
append_nil [] = refl
append_nil (x ∷ xs) = ap (◌∷◌ x) (append_nil xs)

parse_ies-end :
    (k target : ℕ) (content : List ℕ)
    → length content ≤ 1024
    → parse_ies
        (suc k)
        (take_ie (record { target_id = target; content = none }) ie_content content)
        []
      ≡ ok (record { target_id = target; content = some content })
unfolding parse_ies take_ie
parse_ies-end k target content small = rw (take_all 1024 content small) refl

take_ie-target :
    (target : ℕ)
    → take_ie (record { target_id = 0; content = none }) ie_target (target ∷ [])
      ≡ record { target_id = target; content = none }
unfolding take_ie
take_ie-target target = refl

parse_ies-payload :
    (k target : ℕ) (content : List ℕ)
    → length content ≤ 1024
    → parse_ies
        (suc (suc (suc k)))
        (record { target_id = 0; content = none })
        (ie_payload target content)
      ≡ ok (record { target_id = target; content = some content })
unfolding ie_payload
parse_ies-payload k target content small =
    let f : Found = record { target_id = target; content = none } in
    let second = u16_le ie_content ++ (u16_le ((4 + length content) % 2 ^ 16) ++ content) in
    parse_ies-element (suc (suc k)) (record { target_id = 0; content = none }) ie_target
      (target ∷ []) second (omega arith) (omega arith)
    ∙ ap (λ g. parse_ies (suc (suc k)) g second) (take_ie-target target)
    ∙ ap
        (λ c.
          parse_ies (suc (suc k)) f
            (u16_le ie_content ++ (u16_le ((4 + length content) % 2 ^ 16) ++ c)))
        (sym (append_nil content))
    ∙ parse_ies-element (suc k) f ie_content content [] (omega arith) (omega arith)
    ∙ parse_ies-end k target content small

-- `transparent_msg_parse` reads the target and the content back from the payload that
-- `send_transparent_paau_to_bbu` puts together, for a content of at most 1024 bytes; how many
-- bytes of it count is what `calc_effective_len` says.
pub msg_parse-ie_payload :
    (target : ℕ) (content : List ℕ)
    → length content ≤ 1024
    → msg_parse (ie_payload target content)
      ≡ ok (record {
        target_id = target;
        bytes = content;
        effective_len = calc_effective_len content (length content);
      })
unfolding msg_parse ie_payload
msg_parse-ie_payload target content small =
    let fuel : length (ie_payload target content) + 1 ≡ suc (suc (suc (7 + length content))) =
      omega arith in
    let bytes : ltb (length (ie_payload target content)) 4 ≡ false =
      ltb-eq_false (length (ie_payload target content)) 4 (omega arith) in
    rw (fuel, bytes, parse_ies-payload (7 + length content) target content small) refl
