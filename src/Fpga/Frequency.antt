-- ===== src/Fpga/Frequency.antt =====
-- The packed frequencies of fpga_protocol.c.
use dpb_s_mgmt.Base.{ℕ, ◌%◌, ◌^◌, ◌<◌, ◌≡◌, arith}
use dpb_s_mgmt.Fpga.{encode_frequency, decode_frequency}

-- Every frequency below 12.8 GHz comes back from its packed form, and the packed form fits a uint32_t;
-- above, the quotient no longer fits its byte, and the frequency comes back modulo 12.8 GHz.
pub decode_frequency-encode_frequency :
    (khz : ℕ)
    → khz < 2 ^ 32
    → (decode_frequency (encode_frequency khz) ≡ khz % 12800000) × (encode_frequency khz < 2 ^ 32)
unfolding decode_frequency encode_frequency
decode_frequency-encode_frequency khz h = omega arith
