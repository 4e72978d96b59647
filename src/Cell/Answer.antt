-- ===== src/Cell/Answer.antt =====
-- The loop over the elements of a request ends within its fuel, and a request is answered.
use dpb_s_mgmt.Base.{
  ℕ, zero, suc, ◌+◌, ◌-◌, ◌%◌, ◌^◌, ◌≤◌, ◌≡◌, refl, sym, true, false, Option, none, some, List,
  ◌++◌, length, take, drop, ltb, ◌==◌, ◌||◌, u16_le, get_u16_le, add32, arith, Bool-cases,
  Option-cases, inl, inr, length-append, length-take, length-drop, ok,
}
use dpb_s_mgmt.Cpri.{Header, encode_message}
use dpb_s_mgmt.Cell.{Antenna, State}
use dpb_s_mgmt.Cell.Apply.{CellConfig, FreqConfig, apply_cell}
use dpb_s_mgmt.Cell.Frequency.{apply_freq}
use dpb_s_mgmt.Cell.Request.{
  parse_cell_ie, parse_freq_ie, bytes_of, add_ie, first_ie, answer_ie, answer_ies, create_response,
  cell_resp, freq_resp, ie_type_cell_config, ie_type_freq_config, ie_type_cell_config_resp,
  ie_type_freq_config_resp, response_of,
}
use dpb_s_mgmt.Cell.Jobs.{Job, encoded, run_job, request_header}
use dpb_s_mgmt.Cell.Upkeep.{Result-cases}

-- The first element and what is behind it make up the bytes.
first_ie-length :
    (p : List ℕ) {ie_type : ℕ} {data_ rest : List ℕ}
    → first_ie p ≡ some (ie_type, data_, rest)
    → 4 + length data_ + length rest ≡ length p
unfolding first_ie
first_ie-length p {ie_type} {data_} {rest} e = elim (Bool-cases (ltb (length p) 4)) [
  | inl short ↦ let e' : none ≡ some (ie_type, data_, rest) = rw (first_ie, short) at e in cc
  | inr long ↦ elim (Bool-cases (ltb (get_u16_le p 2) 4 || ltb (length p) (get_u16_le p 2))) [
    | inl bad ↦ let e' : none ≡ some (ie_type, data_, rest) = rw (first_ie, long, bad) at e in cc
    | inr good ↦
        let n = get_u16_le p 2 in
        let e' : some (get_u16_le p 0, take (n - 4) (drop 4 p), drop n p)
            ≡ some (ie_type, data_, rest) =
          rw (first_ie, long, good) at e in
        let d : data_ ≡ take (n - 4) (drop 4 p) = cc in
        let r : rest ≡ drop n p = cc in
        let t = length-take (n - 4) (drop 4 p) in
        let t' = length-drop 4 p in
        let t'' = length-drop n p in
        let large : 4 ≤ n = ground arith in
        let inside : n ≤ length p = ground arith in rw (d, r) (omega arith)
  ]
]

add_ie-length :
    (payload : Option (List ℕ)) (ie_type : ℕ) (d : List ℕ)
    → length (bytes_of (add_ie payload ie_type d).1) ≤ length (bytes_of payload) + (4 + length d)
unfolding add_ie
add_ie-length payload ie_type d =
    let n = (4 + length d) % 2 ^ 16 in
    elim (Bool-cases (ltb 4096 (length (bytes_of payload) + n))) [
      | inl full ↦ rw (add_ie, full) (omega arith)
      | inr room ↦
          rw (add_ie, room)
            (omega (arith, length-append (bytes_of payload) (u16_le ie_type ++ (u16_le n ++ d))))
    ]

parse_cell_ie-length : (d : List ℕ) {c : CellConfig} → parse_cell_ie d ≡ ok c → 10 ≤ length d
unfolding parse_cell_ie
parse_cell_ie-length d e = elim (Bool-cases (ltb (length d) 10)) [
  | inl short ↦ absurd (ground arith)
  | inr long ↦ ground arith
]

parse_freq_ie-length : (d : List ℕ) {c : FreqConfig} → parse_freq_ie d ≡ ok c → 32 ≤ length d
unfolding parse_freq_ie
parse_freq_ie-length d e = elim (Bool-cases (ltb (length d) 32)) [
  | inl short ↦ absurd (ground arith)
  | inr long ↦ ground arith
]

encoded-fits :
    (h : Header) (payload : Option (List ℕ))
    → length (bytes_of payload) ≤ 4081
    → (bytes : List ℕ) × (encoded (response_of h payload) ≡ some bytes)
unfolding encoded encode_message
encoded-fits h payload small =
    let fits : ltb 4096 (add32 15 (length (bytes_of payload))) ≡ false = ground arith in
    elim (Option-cases (encoded (response_of h payload))) [
      | inr found ↦ found
      | inl lost ↦ absurd (cc (rw (encoded, encode_message, fits) at lost))
    ]

module _ {W : Type 0} (antenna : Antenna W) (other meanwhile : State W → State W) where
  ends :
      (k : ℕ) (p : List ℕ) (s : State W) (payload : Option (List ℕ))
      → length p ≤ 0
      → (s, payload) ≡ answer_ies antenna other meanwhile (suc k) p s payload
  unfolding answer_ies first_ie
  ends k p s payload h =
      let short : ltb (length p) 4 ≡ true = ground arith in rw (answer_ies, first_ie, short) refl

  -- The loop over the elements of a request gives the same with any fuel that is at least the number of
  -- the request's bytes, so it has ended within that number of rounds.
  pub answer_ies-enough :
      (n k : ℕ) (p : List ℕ) (s : State W) (payload : Option (List ℕ))
      → length p ≤ n
      → length p ≤ k
      → answer_ies antenna other meanwhile n p s payload
        ≡ answer_ies antenna other meanwhile k p s payload
  unfolding answer_ies
  answer_ies-enough zero zero p s payload h h' = refl
  answer_ies-enough zero (suc k) p s payload h h' = ends k p s payload h
  answer_ies-enough (suc n) zero p s payload h h' = sym (ends n p s payload h')
  answer_ies-enough (suc n) (suc k) p s payload h h' = elim (Option-cases (first_ie p)) [
    | inl last ↦ rw (answer_ies, last) refl
    | inr ((ie_type, data_, rest), e) ↦
        let shorter = first_ie-length p {ie_type = ie_type} {data_ = data_} {rest = rest} e in
        rw (answer_ies, e) (answer_ies-enough n k rest _ _ (omega arith) (omega arith))
  ]

  answer_ie-length :
      (ie_type : ℕ) (d : List ℕ) (s : State W) (payload : Option (List ℕ))
      → length (bytes_of (answer_ie antenna other meanwhile ie_type d s payload).1)
        ≤ length (bytes_of payload) + (4 + length d)
  unfolding answer_ie
  answer_ie-length ie_type d s payload = elim (Bool-cases (ie_type == ie_type_cell_config)) [
    | inl cell ↦ elim (Result-cases (parse_cell_ie d)) [
      | inr (code, e) ↦ rw (answer_ie, cell, e) (omega arith)
      | inl (cfg, e) ↦
          let long = parse_cell_ie-length d {c = cfg} e in
          let result = (apply_cell antenna meanwhile cfg s).0 in
          rw (answer_ie, cell, e)
            (omega (
              arith,
              add_ie-length payload ie_type_cell_config_resp (cell_resp cfg.local_cell_id result),
            ))
    ]
    | inr not_cell ↦ elim (Bool-cases (ie_type == ie_type_freq_config)) [
      | inr other_ ↦ rw (answer_ie, not_cell, other_) (omega arith)
      | inl freq ↦ elim (Result-cases (parse_freq_ie d)) [
        | inr (code, e) ↦ rw (answer_ie, not_cell, freq, e) (omega arith)
        | inl (cfg, e) ↦
            let long = parse_freq_ie-length d {c = cfg} e in
            let result = (apply_freq antenna other meanwhile cfg s).result in
            rw (answer_ie, not_cell, freq, e)
              (omega (
                arith,
                add_ie-length payload ie_type_freq_config_resp
                    (freq_resp cfg.local_cell_id cfg.beam_id result),
              ))
      ]
    ]
  ]

  answer_ies-length :
      (n : ℕ) (p : List ℕ) (s : State W) (payload : Option (List ℕ))
      → length (bytes_of (answer_ies antenna other meanwhile n p s payload).1)
        ≤ length (bytes_of payload) + length p
  unfolding answer_ies
  answer_ies-length zero p s payload = omega arith
  answer_ies-length (suc n) p s payload = elim (Option-cases (first_ie p)) [
    | inl last ↦ rw (answer_ies, last) (omega arith)
    | inr ((ie_type, data_, rest), e) ↦
        let shorter = first_ie-length p {ie_type = ie_type} {data_ = data_} {rest = rest} e in
        let (s', payload') = answer_ie antenna other meanwhile ie_type data_ s payload in
        let first = answer_ie-length ie_type data_ s payload in
        let later = answer_ies-length n rest s' payload' in rw (answer_ies, e) (omega arith)
  ]

  -- A request of at most 4081 bytes is answered: its response fits the buffer of 4096 bytes with its
  -- header, and is sent.
  pub run_job-answers :
      (j : Job) (s : State W)
      → length j.payload ≤ 4081
      → (bytes : List ℕ) × ((run_job antenna other meanwhile j s).1 ≡ some bytes)
  unfolding run_job create_response encoded
  run_job-answers j s small =
      let (s', payload) = answer_ies antenna other meanwhile (length j.payload) j.payload s none in
      let most = answer_ies-length (length j.payload) j.payload s none in
      encoded-fits (request_header j) payload (omega arith)
