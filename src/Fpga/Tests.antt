-- ===== src/Fpga/Tests.antt =====
-- Runs of fpga_protocol.c on small frames.
use dpb_s_mgmt.Base.{ℕ, ◌≡◌, refl, true, false, some, List, [], ◌∷◌, arith, ok}
use dpb_s_mgmt.Pool.{Pool, alloc, first_free, take_slot, store}
use dpb_s_mgmt.Fpga.{encode_message, decode_message}
use dpb_s_mgmt.Fpga.Frames.{decode_message-encode_message_short}

abbrev pool : Pool
pool = record { in_use = false ∷ []; arrays = [] ∷ [] }

abbrev taken : Pool
taken = record { in_use = true ∷ []; arrays = [] ∷ [] }

alloc-large : alloc 2048 253 pool ≡ some (0, taken)
unfolding alloc first_free take_slot
alloc-large = refl

alloc-small : alloc 2048 1 pool ≡ some (0, taken)
unfolding alloc first_free take_slot
alloc-small = refl

-- Six bytes, of which the decoder makes a payload of 253.

decode_message-encode_message_short_example :
    (f : List ℕ) × (encode_message
        (record { msg_id = 8; payload = some (1 ∷ 2 ∷ 3 ∷ []); payload_len = 3 })
        64
      ≡ ok f)
    × (decode_message f pool
        ≡ (ok (record { msg_id = 8; payload = some 0; payload_len = 1 }), store taken 0 (1 ∷ [])))
decode_message-encode_message_short_example =
    decode_message-encode_message_short 8 (1 ∷ 2 ∷ 3 ∷ []) 64 pool (omega arith) (omega arith)
      (omega arith) alloc-small
