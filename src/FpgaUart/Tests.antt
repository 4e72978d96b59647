-- ===== src/FpgaUart/Tests.antt =====
-- The FPGA stream on a frame that two reads cut in the middle of its header.
use dpb_s_mgmt.Base.{ℕ, ◌≤◌, ◌≡◌, refl, sym, concat, some, List, [], ◌∷◌, arith, length}
use dpb_s_mgmt.FpgaUart.{
  Delivery, other, process, receive, receive_all, step, find_header, half_header, at_header,
  check_frame, telemetry_payload_len,
}
use dpb_s_mgmt.FpgaUart.Split.{receive-fits}
use dpb_s_mgmt.FpgaUart.Reads.{HasRoom, receive_all-whole}

-- A byte of noise and the first byte of a header; the rest of a frame with two bytes of data.
abbrev first_read : List ℕ
first_read = 7 ∷ 0xEB ∷ []

abbrev second_read : List ℕ
second_read = 0x90 ∷ 0 ∷ 2 ∷ 5 ∷ 6 ∷ 0x55 ∷ 0x55 ∷ []

abbrev a_frame : List ℕ
a_frame = 0xEB ∷ 0x90 ∷ 0 ∷ 2 ∷ 5 ∷ 6 ∷ 0x55 ∷ 0x55 ∷ []

first_received : receive [] first_read ≡ some ([], 0xEB ∷ [])
unfolding receive process step find_header half_header at_header check_frame telemetry_payload_len
first_received = refl

-- The reads find room: a byte is left of the first one.
room : HasRoom [] (first_read ∷ second_read ∷ [])
room = (omega arith, second)
  where
    second :
        (found : List Delivery) (left : List ℕ)
        → receive [] first_read ≡ some (found, left)
        → HasRoom left (second_read ∷ [])
    second found left e =
        let same : some ([], 0xEB ∷ []) ≡ some (found, left) = rw first_received at e in
        let one : 0xEB ∷ [] ≡ left = cc same in rw (sym one) (omega arith, λ found' left' e'. tt)

receive_all-whole_example :
    (r : List Delivery × List ℕ) × (receive_all [] (first_read ∷ second_read ∷ []) ≡ some r)
    × (process 10 (concat (first_read ∷ second_read ∷ [])) ≡ some r)
receive_all-whole_example =
    receive_all-whole (first_read ∷ second_read ∷ []) 10
      (
        (omega arith, (omega arith, tt)),
        (
          (
            omega arith,
            (
              omega arith,
              (omega arith, (omega arith, (omega arith, (omega arith, (omega arith, tt))))),
            ),
          ),
          tt,
        ),
      )
      room (omega arith)

-- The frame is found once the second read is there.
both_received : receive_all [] (first_read ∷ second_read ∷ []) ≡ some (other a_frame ∷ [], [])
unfolding receive_all receive process step find_header half_header at_header check_frame
    telemetry_payload_len
both_received = refl

receive-fits_example :
    (r : List Delivery × List ℕ) × (receive first_read second_read ≡ some r) × (length r.1 ≤ 2048)
receive-fits_example = receive-fits first_read second_read (omega arith)
