-- ===== src/Dispatch.antt =====
-- s_band_antenna_mgmt/src/msg_handler.c: which messages of the BBU are accepted, and which handler they
-- reach. The handlers are names here.
pub mod Reach
mod Tests
use dpb_s_mgmt.Base.{
  ℕ, ◌+◌, Bool, true, false, Option, none, some, List, [], ◌∷◌, ◌==◌, if◌then◌else◌, not, add32,
}
use dpb_s_mgmt.Transparent.{is_transparent_message, is_bbu_to_paau_transparent}

pub data CheckMode : Type 0 where
  off warn enforce : CheckMode

-- What `paau_id_cfg_load` leaves: the two identifiers as a uint8_t, no broadcast where the setting is
-- outside 0 to 255, and a mode; and the number of mismatches.
pub record Identity : Type 0 where
  pub local : ℕ
  pub broadcast : Option ℕ
  pub mode : CheckMode
  pub mismatch_count : ℕ

abbrev pub is_broadcast : Option ℕ → ℕ → Bool
is_broadcast none id = false
is_broadcast (some b) id = id == b

-- `return g_paau_id_check_mode != PAAU_ID_CHECK_ENFORCE;`
abbrev pub tolerates : CheckMode → Bool
tolerates enforce = false
tolerates _ = true

unfoldable pub paau_id_accept : Identity → ℕ → Bool × Identity
paau_id_accept i inbound_id =
    let mismatch = record i { mismatch_count = add32 i.mismatch_count 1 } in
    let checked : Bool × Identity =
      if is_broadcast i.broadcast inbound_id
      then (true, i)
      else if inbound_id == i.local
      then (true, i)
      else (tolerates i.mode, mismatch) in
    elim i.mode [ off ↦ (true, i) | warn ↦ checked | enforce ↦ checked ]

pub data Handler : Type 0 where
  channel_setup heartbeat calibration status_query param_query param_config : Handler
  alarm_query cell_config log_upload version_download version_activate : Handler
  loopback reset remote_reset transparent : Handler

-- `g_msg_handlers` before its end marker.
abbrev pub msg_handlers : List (ℕ × Handler)
msg_handlers =
    (2, channel_setup)
    ∷ (181, heartbeat)
    ∷ (71, calibration)
    ∷ (41, status_query)
    ∷ (51, param_query)
    ∷ (61, param_config)
    ∷ (121, alarm_query)
    ∷ (195, cell_config)
    ∷ (131, log_upload)
    ∷ (21, version_download)
    ∷ (31, version_activate)
    ∷ (81, loopback)
    ∷ (141, reset)
    ∷ (151, remote_reset)
    ∷ []

-- The loop of `msg_id_is_accepted`.
unfoldable pub is_listed : List (ℕ × Handler) → ℕ → Bool
is_listed [] msg_id = false
is_listed (entry ∷ rest) msg_id =
    let later = is_listed rest msg_id in if entry.0 == msg_id then true else later

unfoldable pub msg_id_is_accepted : ℕ → Bool
msg_id_is_accepted msg_id =
    if is_bbu_to_paau_transparent msg_id then true else is_listed msg_handlers msg_id

-- How a dispatch ends: with ERROR_INVALID_PARAM, in a handler, or without a handler.
pub data Outcome : Type 0 where
  rejected no_handler : Outcome
  called : Handler → Outcome

-- The loop of `msg_handler_dispatch`.
unfoldable pub call_listed : List (ℕ × Handler) → ℕ → Outcome
call_listed [] msg_id = no_handler
call_listed (entry ∷ rest) msg_id =
    let later = call_listed rest msg_id in if entry.0 == msg_id then called entry.1 else later

unfoldable pub dispatch : Identity → ℕ → ℕ → Outcome × Identity
dispatch i msg_id paau_id =
    let (accepted, i') = paau_id_accept i paau_id in
    if not (msg_id_is_accepted msg_id)
    then (rejected, i)
    else if not accepted
    then (rejected, i')
    else if is_transparent_message msg_id
    then (called transparent, i')
    else (call_listed msg_handlers msg_id, i')
