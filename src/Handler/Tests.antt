-- ===== src/Handler/Tests.antt =====
-- Runs of the commands to the FPGA, and their theorem at a concrete input.
use dpb_s_mgmt.Base.{◌≡◌, refl, true, [], ◌∷◌}
use dpb_s_mgmt.Fpga.{encode_message}
use dpb_s_mgmt.Send.{wrote, interrupted, failed, uart_client_send, uart_loop}
use dpb_s_mgmt.Handler.{Port, send_message, send_bytes, send_tx_control}

abbrev a_port : Port
a_port = record {
  is_open = true;
  writes = wrote 3 ∷ interrupted ∷ wrote 4 ∷ failed ∷ [];
  written = [];
}

stop : (send_tx_control 0 a_port).1.written ≡ 0xEB ∷ 0x90 ∷ 0x0B ∷ 1 ∷ 0 ∷ 0x55 ∷ 0x55 ∷ []
unfolding send_tx_control send_message send_bytes encode_message uart_client_send uart_loop
stop = refl
