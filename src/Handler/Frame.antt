-- ===== src/Handler/Frame.antt =====
-- Every command puts one frame on the line, or the beginning of one.
use dpb_s_mgmt.Base.{ℕ, ◌%◌, ◌≤◌, ◌≡◌, some, List, [], ◌∷◌, ◌++◌, length, u16_be, u32_be, Result}
use dpb_s_mgmt.Fpga.{encode_frequency, frame_header, frame_tail}
use dpb_s_mgmt.Send.{Sent}
use dpb_s_mgmt.Send.Prefix.{Outcome}
use dpb_s_mgmt.Handler.{
  Port, send_cpri_mode, send_cpri_config, send_phase_restore, send_calibration, send_loopback,
  send_freq_band, send_tx_control, send_passthrough, send_system_time, Time,
}

-- A frame: the header, the command, the length of its payload in a byte, the payload and the tail.
abbrev pub frame : ℕ → List ℕ → List ℕ
frame msg_id payload =
    u16_be frame_header ++ (msg_id ∷ (length payload) ∷ (payload ++ u16_be frame_tail))

-- What a command with its frame has done: nothing is lost of what was written, and the frame or a
-- beginning of it is behind it.
pub record Commanded (bytes : List ℕ) (p : Port) (r : Result (Unit {0}) × Port) : Type 0 where
  pub sent : Sent
  pub outcome : Outcome bytes sent
  pub returned : r.0 ≡ sent.returned
  pub written : r.1.written ≡ p.written ++ sent.bytes

-- The commands of one frame (`fpga_send_beam_num` sends two, `fpga_send_raw` none), with their numbers and payloads as the protocol of the FPGA names them.
pub data Command : Type 0 where
  cpri_mode cpri_config phase_restore calibration loopback tx_control : ℕ → Command
  freq_band : ℕ → ℕ → ℕ → Command
  passthrough : ℕ → List ℕ → Command
  system_time : Time → Command

unfoldable pub carry_out : Command → Port → Result (Unit {0}) × Port
carry_out (cpri_mode n) = send_cpri_mode n
carry_out (cpri_config n) = send_cpri_config n
carry_out (phase_restore n) = send_phase_restore n
carry_out (calibration n) = send_calibration n
carry_out (loopback n) = send_loopback n
carry_out (tx_control n) = send_tx_control n
carry_out (freq_band dl ul bw) = send_freq_band dl ul bw
carry_out (passthrough b bs) = send_passthrough (b ∷ bs)
carry_out (system_time t) = send_system_time (some t)

abbrev pub frame_of : Command → List ℕ
frame_of (cpri_config n) = frame 0x01 (u32_be n)
frame_of (cpri_mode n) = frame 0x02 (u32_be n)
frame_of (phase_restore n) = frame 0x05 (u32_be n)
frame_of (calibration n) = frame 0x06 (u32_be n)
frame_of (loopback n) = frame 0x07 (n ∷ [])
frame_of (freq_band dl ul bw) =
    frame 0x08 (u32_be (encode_frequency dl) ++ (u32_be bw ++ u32_be (encode_frequency ul)))
frame_of (tx_control n) = frame 0x0B (n ∷ [])
frame_of (passthrough b bs) = frame 0x12 (b ∷ bs)
frame_of (system_time t) =
    frame 0x0A (t.sec ∷ t.min ∷ t.hour ∷ t.mday ∷ t.month ∷ (t.year % 256) ∷ [])

-- What a byte for the length of the payload can say.
abbrev pub IsSendable : Command → Type 0
IsSendable (passthrough b bs) = length (b ∷ bs) ≤ 255
IsSendable (cpri_mode n) = Unit {0}
IsSendable (cpri_config n) = Unit {0}
IsSendable (phase_restore n) = Unit {0}
IsSendable (calibration n) = Unit {0}
IsSendable (loopback n) = Unit {0}
IsSendable (tx_control n) = Unit {0}
IsSendable (freq_band dl ul bw) = Unit {0}
IsSendable (system_time t) = Unit {0}
