-- ===== src/Handler.antt =====
-- s_band_antenna_mgmt/src/fpga_handler.c: the commands to the FPGA, as frames of Fpga on the serial port
-- of Send, and the last status of the FPGA, of a type `T`.
pub mod Frame
mod Tests
use dpb_s_mgmt.Base.{
  ℕ, ◌+◌, ◌%◌, Bool, true, false, Option, none, some, List, [], ◌∷◌, ◌++◌, length, ltb,
  if◌then◌else◌, ◌==◌, u32_be, Error, general, invalid_param, Result, ok, err,
}
use dpb_s_mgmt.Fpga.{Message, encode_message, encode_frequency}
use dpb_s_mgmt.Send.{Wrote, Sent, uart_client_send}

-- The serial port: whether it is open, what its next writes do, and what has been written.
pub record Port : Type 0 where
  pub is_open : Bool
  pub writes : List Wrote
  pub written : List ℕ

-- `uart_client_send` on the port.
unfoldable pub send_bytes : List ℕ → Port → Result (Unit {0}) × Port
send_bytes bytes p =
    let s = uart_client_send p.is_open p.writes bytes in
    (s.returned, record p { writes = s.later; written = p.written ++ s.bytes })

-- What all commands do with their payload: the frame goes into a buffer of `buffer_size` bytes, and out.
unfoldable pub send_message : ℕ → List ℕ → ℕ → Port → Result (Unit {0}) × Port
send_message msg_id payload buffer_size p =
    let message : Message (List ℕ) = record {
      msg_id = msg_id;
      payload = some payload;
      payload_len = length payload;
    } in
    elim (encode_message message buffer_size) [
      | ok bytes ↦ send_bytes bytes p
      | err e ↦ (err general, p)
    ]

-- `fpga_send_cpri_mode`, which `fpga_handler_set_work_mode` calls.
unfoldable pub send_cpri_mode : ℕ → Port → Result (Unit {0}) × Port
send_cpri_mode mode = send_message 0x02 (u32_be mode) 32

-- `fpga_send_cpri_config`
unfoldable pub send_cpri_config : ℕ → Port → Result (Unit {0}) × Port
send_cpri_config config = send_message 0x01 (u32_be config) 32

-- `fpga_send_beam_num`: what the first command returns is not read.
unfoldable pub send_beam_num : ℕ → ℕ → Port → Result (Unit {0}) × Port
send_beam_num cmd_beam_num service_beam_num p =
    send_message 0x04 (service_beam_num ∷ []) 32 (send_message 0x03 (cmd_beam_num ∷ []) 32 p).1

-- `fpga_send_phase_restore`
unfoldable pub send_phase_restore : ℕ → Port → Result (Unit {0}) × Port
send_phase_restore restore_type = send_message 0x05 (u32_be restore_type) 32

-- `fpga_send_calibration`
unfoldable pub send_calibration : ℕ → Port → Result (Unit {0}) × Port
send_calibration calib_params = send_message 0x06 (u32_be calib_params) 32

-- `fpga_send_loopback`
unfoldable pub send_loopback : ℕ → Port → Result (Unit {0}) × Port
send_loopback loopback_type = send_message 0x07 (loopback_type ∷ []) 32

-- `fpga_send_freq_band`
unfoldable pub send_freq_band : ℕ → ℕ → ℕ → Port → Result (Unit {0}) × Port
send_freq_band dl_freq ul_freq bandwidth =
    send_message 0x08
      (u32_be (encode_frequency dl_freq) ++ (u32_be bandwidth ++ u32_be (encode_frequency ul_freq)))
      64

-- A `struct tm`, with the whole year.
pub record Time : Type 0 where
  pub sec : ℕ
  pub min : ℕ
  pub hour : ℕ
  pub mday : ℕ
  pub month : ℕ
  pub year : ℕ

-- `fpga_send_system_time`, with what `localtime_r` gives.
unfoldable pub send_system_time : Option Time → Port → Result (Unit {0}) × Port
send_system_time none p = (err general, p)
send_system_time (some t) p =
    send_message 0x0A (t.sec ∷ t.min ∷ t.hour ∷ t.mday ∷ t.month ∷ (t.year % 256) ∷ []) 32 p

-- `fpga_send_tx_control`
unfoldable pub send_tx_control : ℕ → Port → Result (Unit {0}) × Port
send_tx_control tx_enable = send_message 0x0B (tx_enable ∷ []) 32

-- `fpga_send_passthrough`
unfoldable pub send_passthrough : List ℕ → Port → Result (Unit {0}) × Port
send_passthrough bytes p =
    if length bytes == 0
    then (err invalid_param, p)
    else if ltb 255 (length bytes)
    then (err invalid_param, p)
    else send_message 0x12 bytes 512 p

abbrev pub raw_max_len : ℕ
raw_max_len = 1024

-- `fpga_send_raw`
unfoldable pub send_raw : List ℕ → Port → Result (Unit {0}) × Port
send_raw bytes p =
    if length bytes == 0
    then (err invalid_param, p)
    else if ltb raw_max_len (length bytes)
    then (err invalid_param, p)
    else send_bytes bytes p

module _ {T : Type 0} where
  -- `fpga_handler_on_status_update`: what is kept, and the alarms that `check` finds.
  unfoldable pub on_status_update : {A : Type 0} → (T → A → A) → T → Option T × A → Option T × A
  on_status_update check status (kept, alarms) = (some status, check status alarms)

  -- `fpga_handler_get_status`
  unfoldable pub get_status : Option T → Result T
  get_status none = err general
  get_status (some status) = ok status
