-- ===== src/Dispatch/Tests.antt =====
-- Runs of the dispatch, and its theorem at a concrete input.
use dpb_s_mgmt.Base.{◌≡◌, refl, some}
use dpb_s_mgmt.Transparent.{is_transparent_message, is_bbu_to_paau_transparent}
use dpb_s_mgmt.Dispatch.{
  Identity, warn, enforce, heartbeat, transparent, called, rejected, paau_id_accept, dispatch,
  msg_id_is_accepted, is_listed, call_listed,
}
use dpb_s_mgmt.Dispatch.Reach.{handler_of, outcome_of, dispatch-reaches}

abbrev strict : Identity
strict = record { local = 0; broadcast = some 255; mode = enforce; mismatch_count = 0 }

abbrev lenient : Identity
lenient = record strict { mode = warn }

beat : dispatch strict 181 255 ≡ (called heartbeat, strict)
unfolding dispatch paau_id_accept msg_id_is_accepted is_listed call_listed is_transparent_message
    is_bbu_to_paau_transparent
beat = refl

-- 221 goes from the PAAU to the BBU only.
wrong_direction : (dispatch strict 221 0).0 ≡ rejected
unfolding dispatch paau_id_accept msg_id_is_accepted is_listed is_transparent_message
    is_bbu_to_paau_transparent
wrong_direction = refl

tolerated : dispatch lenient 231 7 ≡ (called transparent, record lenient { mismatch_count = 1 })
unfolding dispatch paau_id_accept msg_id_is_accepted is_listed call_listed is_transparent_message
    is_bbu_to_paau_transparent
tolerated = refl

dispatch-reaches_example :
    (dispatch strict 181 7).0 ≡ outcome_of (paau_id_accept strict 7).0 (handler_of 181)
dispatch-reaches_example = dispatch-reaches strict 181 7
