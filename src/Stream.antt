-- ===== src/Stream.antt =====
-- s_band_antenna_mgmt/src/main.c: the messages in the byte stream of the TCP link, and what the loss of
-- the link resets. `g_recv_buffer` up to `g_recv_offset` is a list of bytes. The heartbeat, the cells
-- and the handlers are the state `S` of the surroundings and functions on it.
pub mod Cut
mod Tests
use dpb_s_mgmt.Base.{
  ℕ, zero, suc, ◌+◌, Bool, true, false, Option, none, some, List, [], ◌∷◌, ◌++◌, length, take, drop,
  ltb, ◌==◌, if◌then◌else◌, ◌||◌, add32, get_u32_le, Result, ok, err,
}
use dpb_s_mgmt.Pool.{Pool}
use dpb_s_mgmt.Cpri.{Message, header_len, decode_message, free_message}

abbrev pub recv_buffer_size : ℕ
recv_buffer_size = 8192

-- `MSG_CHANNEL_SETUP_CFG`
abbrev pub channel_setup_cfg : ℕ
channel_setup_cfg = 2

-- How a round of the loop ends: the loop is left with these bytes, or goes on behind a message.
pub data Step : Type 0 where
  done : List ℕ → Step
  message : List ℕ → List ℕ → Step

-- The guards of a round.
unfoldable pub step : List ℕ → Step
step b =
    let msg_length = get_u32_le b 4 in
    if ltb (length b) header_len
    then done b
    else if ltb msg_length header_len || ltb recv_buffer_size msg_length
    then done []
    else if ltb (length b) msg_length
    then done b
    else message (take msg_length b) (drop msg_length b)

module _ {S : Type 0} where
  -- The loop, on fuel, over what is done with a message.
  unfoldable pub process : (List ℕ → S → S) → ℕ → S → List ℕ → Option (S × List ℕ)
  process deliver zero s b = none
  process deliver (suc n) s b = elim (step b) [
    | done rest ↦ some (s, rest)
    | message m rest ↦ process deliver n (deliver m s) rest
  ]

  -- `on_tcp_data_received`, with fuel for every byte of the buffer.
  unfoldable pub receive : (List ℕ → S → S) → S → List ℕ → List ℕ → Option (S × List ℕ)
  receive deliver s buffer bytes =
      if ltb recv_buffer_size (add32 (length buffer) (length bytes))
      then some (s, [])
      else process deliver (recv_buffer_size + 1) s (buffer ++ bytes)

  -- The reads of `tcp_recv_thread` one after the other.
  unfoldable pub receive_all : (List ℕ → S → S) → S → List ℕ → List (List ℕ) → Option (S × List ℕ)
  receive_all deliver s buffer [] = some (s, buffer)
  receive_all deliver s buffer (bytes ∷ reads) = elim (receive deliver s buffer bytes) [
    | none ↦ none
    | some r ↦ receive_all deliver r.0 r.1 reads
  ]

-- What the program does beside the stream: the messages that reach a handler, the channel that has been
-- set up (`cell_config_notify_bbu_link` and `version_trial_on_channel_established`), and the loss of the
-- link (`heartbeat_stop` and `cell_config_notify_bbu_link`).
pub record Program (S : Type 0) : Type 0 where
  pub dispatch : Message ℕ → Pool → S → Pool × S
  pub on_channel : S → S
  pub on_lost : S → S

pub record Link (S : Type 0) : Type 0 where
  pub pool : Pool
  pub channel_established : Bool
  pub other : S

module _ {S : Type 0} (program : Program S) where
  abbrev pub set_up : Message ℕ → Link S → Link S
  set_up msg l =
      if msg.header.msg_id == channel_setup_cfg
      then record l { channel_established = true; other = program.on_channel l.other }
      else l

  -- Dispatch and release of a message, once decoded.
  pub handle_decoded : Result (Message ℕ) → Pool → Link S → Link S
  handle_decoded (err e) p l = record l { pool = p }
  handle_decoded (ok msg) p l =
      let l' = set_up msg (record l { pool = p }) in
      let (p', s) = program.dispatch msg l'.pool l'.other in
      let (freed, p'') = free_message msg p' in record l' { pool = p''; other = s }

  -- The body of the loop for a whole message.
  unfoldable pub deliver_message : List ℕ → Link S → Link S
  unfolding handle_decoded
  deliver_message bytes l =
      let (decoded, p) = decode_message bytes l.pool in handle_decoded decoded p l

  -- `on_tcp_disconnected`: the state, and what stays in the buffer.
  unfoldable pub disconnected : Link S → Link S × List ℕ
  disconnected l = (record l { channel_established = false; other = program.on_lost l.other }, [])
