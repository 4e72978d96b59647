-- ===== src/Dispatch/Reach.antt =====
-- Which messages reach which handler.
use dpb_s_mgmt.Base.{
  ℕ, ◌≡◌, refl, Bool, true, false, Option, none, some, List, [], ◌∷◌, ◌==◌, if◌then◌else◌, arith,
  Bool-cases, Option-cases, inl, inr,
}
use dpb_s_mgmt.Transparent.{is_transparent_message, is_bbu_to_paau_transparent}
use dpb_s_mgmt.Dispatch.{
  Identity, Handler, Outcome, transparent, rejected, called, msg_handlers, is_listed,
  msg_id_is_accepted, call_listed, paau_id_accept, dispatch,
}

-- The handler of the first entry with the message's identifier.
abbrev pub listed_handler : List (ℕ × Handler) → ℕ → Option Handler
listed_handler [] msg_id = none
listed_handler (entry ∷ rest) msg_id =
    if entry.0 == msg_id then some entry.1 else listed_handler rest msg_id

-- The handler that a message is meant for.
unfoldable pub handler_of : ℕ → Option Handler
handler_of msg_id =
    if is_bbu_to_paau_transparent msg_id
    then some transparent
    else listed_handler msg_handlers msg_id

abbrev pub outcome_of : Bool → Option Handler → Outcome
outcome_of accepted none = rejected
outcome_of true (some h) = called h
outcome_of false (some h) = rejected

listed :
    (t : List (ℕ × Handler)) (id : ℕ) (h : Handler)
    → listed_handler t id ≡ some h
    → (is_listed t id ≡ true) × (call_listed t id ≡ called h)
unfolding is_listed call_listed
listed [] id h e = cc
listed (entry ∷ rest) id h e = elim (Bool-cases (entry.0 == id)) [
  | inl here ↦ ground arith
  | inr later ↦ let inner = listed rest id h (ground arith) in ground (arith, inner)
]

not_listed : (t : List (ℕ × Handler)) (id : ℕ) → listed_handler t id ≡ none → is_listed t id ≡ false
unfolding is_listed
not_listed [] id e = refl
not_listed (entry ∷ rest) id e = elim (Bool-cases (entry.0 == id)) [
  | inl here ↦ ground arith
  | inr later ↦ let inner = not_listed rest id (ground arith) in ground (arith, inner)
]

-- No entry of the table is a transparent message.
listed-transparent :
    (id : ℕ) (h : Handler)
    → listed_handler msg_handlers id ≡ some h
    → is_transparent_message id ≡ false
unfolding is_transparent_message
listed-transparent id h e = ground arith

bbu-transparent : (id : ℕ) → is_bbu_to_paau_transparent id ≡ true → is_transparent_message id ≡ true
unfolding is_transparent_message is_bbu_to_paau_transparent
bbu-transparent id e = ground arith

-- A message reaches exactly the handler that it is meant for, where its PAAU identifier is accepted:
-- the transparent handler for 231 to 240, else the one that the table names. All others are rejected
-- with ERROR_INVALID_PARAM; the branch behind the loop, for a message without a handler, is never
-- taken.
pub dispatch-reaches :
    (i : Identity) (msg_id paau_id : ℕ)
    → (dispatch i msg_id paau_id).0 ≡ outcome_of (paau_id_accept i paau_id).0 (handler_of msg_id)
unfolding dispatch msg_id_is_accepted handler_of
dispatch-reaches i msg_id paau_id =
    let accepted = (paau_id_accept i paau_id).0 in
    elim (Bool-cases (is_bbu_to_paau_transparent msg_id)) [
      | inl bbu ↦ elim (Bool-cases accepted) [
        | inl fine ↦
            rw (dispatch, msg_id_is_accepted, handler_of, bbu, fine, bbu-transparent msg_id bbu)
              refl
        | inr bad ↦ rw (dispatch, msg_id_is_accepted, handler_of, bbu, bad) refl
      ]
      | inr other ↦ elim (Option-cases (listed_handler msg_handlers msg_id)) [
        | inl unknown ↦
            rw
              (
                dispatch,
                msg_id_is_accepted,
                handler_of,
                other,
                unknown,
                not_listed msg_handlers msg_id unknown,
              )
              refl
        | inr (h, known) ↦
            let (found, calls) = listed msg_handlers msg_id h known in
            elim (Bool-cases accepted) [
              | inl fine ↦
                  rw
                    (
                      dispatch,
                      msg_id_is_accepted,
                      handler_of,
                      other,
                      known,
                      found,
                      fine,
                      listed-transparent msg_id h known,
                      calls,
                    )
                    refl
              | inr bad ↦
                  rw (dispatch, msg_id_is_accepted, handler_of, other, known, found, bad) refl
            ]
      ]
    ]
