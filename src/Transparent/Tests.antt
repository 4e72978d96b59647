-- ===== src/Transparent/Tests.antt =====
-- Runs of the transparent messages, and the theorems at concrete inputs.
use dpb_s_mgmt.Base.{
  ℕ, ◌≡◌, refl, true, false, some, List, [], ◌∷◌, ◌++◌, replicate, arith, ok, err, invalid_param,
}
use dpb_s_mgmt.Transparent.{
  calc_effective_len, parse_ies, msg_parse, ie_payload, msg_handle, nothing,
}
use dpb_s_mgmt.Transparent.Forward.{msg_handle-forwards}

abbrev padded : List ℕ
padded = 0xEB ∷ 0x90 ∷ 0 ∷ 0x55 ∷ 0 ∷ 0 ∷ []

counts : calc_effective_len padded 6 ≡ 4
unfolding calc_effective_len
counts = refl

wrong_length : msg_parse (0x41 ∷ 6 ∷ 3 ∷ 0 ∷ []) ≡ err invalid_param
unfolding msg_parse parse_ies
wrong_length = refl

disabled :
    msg_handle (λ bytes. ok tt) true false true 231 (some (ie_payload 1 padded))
    ≡ (err invalid_param, nothing)
unfolding msg_handle
disabled = refl

msg_handle-forwards_example :
    (msg_handle
      (λ bytes. ok tt)
      true
      true
      false
      231
      (some (ie_payload 1 ((0xEB ∷ 0x90 ∷ 0x55 ∷ []) ++ replicate 2 0)))).1.to_fpga
    ≡ some (0xEB ∷ 0x90 ∷ 0x55 ∷ [])
msg_handle-forwards_example =
    msg_handle-forwards (λ bytes. ok tt) false 231 1 2 (0xEB ∷ 0x90 ∷ 0x55 ∷ []) (omega arith)
      (omega arith) (omega arith) refl refl
