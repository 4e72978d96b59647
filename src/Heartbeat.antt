-- ===== src/Heartbeat.antt =====
-- s_band_antenna_mgmt/src/heartbeat.c: the heartbeats between this board and the BBU. The manager
-- g_heartbeat_mgr is passed in and out, as are g_serial_num and the second that `time` gives.
pub mod Timeout
mod Tests
use dpb_s_mgmt.Base.{
  ℕ, ◌+◌, Bool, true, false, Option, none, List, [], ◌∷◌, leb, if◌then◌else◌, add32, Result, ok,
  err,
}
use dpb_s_mgmt.Cpri.{encode_message}

-- `heartbeat_manager_t` without its mutex.
pub record Heartbeat : Type 0 where
  pub enabled : Bool
  pub paau_count : ℕ
  pub miss_count : ℕ
  pub last_bbu_time : ℕ

abbrev pub interval_sec : ℕ
interval_sec = 3

abbrev pub timeout_count : ℕ
timeout_count = 20

-- `heartbeat_init`
pub heartbeat_init : Heartbeat
heartbeat_init = record { enabled = false; paau_count = 0; miss_count = 0; last_bbu_time = 0 }

-- `heartbeat_start`
pub start : ℕ → Heartbeat → Heartbeat
start now h = record { enabled = true; paau_count = 0; miss_count = 0; last_bbu_time = now }

-- `heartbeat_stop`
pub stop : Heartbeat → Heartbeat
stop h = record h { enabled = false }

-- The bytes that `heartbeat_send_paau` sends, in a buffer of 32 bytes.
abbrev pub beat : ℕ → Result (List ℕ)
beat serial =
    encode_message
      (record {
        header = record {
          msg_id = 171;
          msg_length = 0;
          paau_id = 0;
          bbu_id = 0;
          port_num = 0;
          serial_num = serial;
        };
        payload = none;
        payload_len = 0;
      })
      32

-- `heartbeat_send_paau`: the manager, the serial number and what is sent; nothing is sent while the
-- heartbeat is off.
pub send_paau : ℕ → Heartbeat → Heartbeat × ℕ × List (List ℕ)
send_paau serial h = if h.enabled then sent (beat (add32 serial 1)) else (h, serial, [])
  where
    sent : Result (List ℕ) → Heartbeat × ℕ × List (List ℕ)
    sent (ok bytes) = (record h { paau_count = add32 h.paau_count 1 }, add32 serial 1, bytes ∷ [])
    sent (err e) = (h, add32 serial 1, [])

-- `heartbeat_handle_bbu`
pub handle_bbu : ℕ → Heartbeat → Heartbeat
handle_bbu now h = if h.enabled then record h { last_bbu_time = now; miss_count = 0 } else h

-- `heartbeat_check_timeout`; the difference of two times is signed.
pub check_timeout : ℕ → Heartbeat → Bool × Heartbeat
check_timeout now h =
    let missed = add32 h.miss_count 1 in
    if h.enabled
    then (if leb (h.last_bbu_time + interval_sec) now
        then (if leb timeout_count missed
            then (true, record h { miss_count = missed })
            else (false, record h { miss_count = missed; last_bbu_time = now }))
        else (false, h))
    else (false, h)
