-- ===== src/Cpri/Tests.antt =====
-- Runs of cpri_protocol.c on a small message.
use dpb_s_mgmt.Base.{
  ℕ, ◌≡◌, refl, true, false, some, List, [], ◌∷◌, arith, length, get_or, take, ok,
}
use dpb_s_mgmt.Pool.{Pool, alloc, first_free, take_slot, next}
use dpb_s_mgmt.Cpri.{Header, Message, encode_message, decode_message, free_message}
use dpb_s_mgmt.Cpri.Roundtrip.{decode_message-encode_message}

-- Two buffers, the first one in use.
abbrev pool : Pool
pool = record { in_use = true ∷ false ∷ []; arrays = (1 ∷ 2 ∷ []) ∷ (3 ∷ 4 ∷ 5 ∷ []) ∷ [] }

abbrev taken : Pool
taken = record { in_use = true ∷ true ∷ []; arrays = (1 ∷ 2 ∷ []) ∷ (3 ∷ 4 ∷ 5 ∷ []) ∷ [] }

alloc-pool : alloc 8192 2 pool ≡ some (1, taken)
unfolding alloc first_free take_slot next
alloc-pool = refl

abbrev heartbeat : Header
heartbeat = record {
  msg_id = 171;
  msg_length = 0;
  paau_id = 1;
  bbu_id = 2;
  port_num = 0;
  serial_num = 70000;
}

decode_message-encode_message_example :
    (f : List ℕ) × (msg : Message ℕ) × (q : Pool) × (encode_message
        (record { header = heartbeat; payload = some (8 ∷ 9 ∷ []); payload_len = 2 })
        512
      ≡ ok f)
    × (length f ≡ 17)
    × (decode_message f pool ≡ (ok msg, q))
    × (msg ≡ record {
      header = record heartbeat { msg_length = 17 };
      payload = some 1;
      payload_len = 2;
    })
    × (take 2 (get_or q.arrays 1 []) ≡ 8 ∷ 9 ∷ [])
    × ((free_message msg q).1.in_use ≡ true ∷ false ∷ [])
decode_message-encode_message_example =
    decode_message-encode_message heartbeat (8 ∷ 9 ∷ []) 512 pool (omega arith) (omega arith)
      (omega arith) (omega arith) (omega arith) refl alloc-pool
