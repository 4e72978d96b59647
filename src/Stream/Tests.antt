-- ===== src/Stream/Tests.antt =====
-- Runs of the stream of the TCP link, and its theorem at a concrete input.
use dpb_s_mgmt.Base.{ℕ, ◌+◌, ◌≡◌, refl, false, some, List, [], ◌∷◌, replicate, arith}
use dpb_s_mgmt.Stream.{Program, Link, receive, receive_all, process, step, deliver_message}
use dpb_s_mgmt.Stream.Cut.{IsMessage, IsCut, deliver_all, receive_all-delivers}

-- A heartbeat of 15 bytes, and a message of two bytes more.
abbrev beat : List ℕ
beat = 181 ∷ 0 ∷ 0 ∷ 0 ∷ 15 ∷ 0 ∷ 0 ∷ 0 ∷ 0 ∷ 0 ∷ 0 ∷ 9 ∷ 0 ∷ 0 ∷ 0 ∷ []

abbrev set_up_cfg : List ℕ
set_up_cfg = 2 ∷ 0 ∷ 0 ∷ 0 ∷ 17 ∷ 0 ∷ 0 ∷ 0 ∷ 0 ∷ 0 ∷ 0 ∷ 1 ∷ 0 ∷ 0 ∷ 0 ∷ 7 ∷ 8 ∷ []

-- Counts the messages that reach a handler.
abbrev counter : Program ℕ
counter = record { dispatch = λ msg p n. (p, n + 1); on_channel = λ n. n + 100; on_lost = λ n. n }

abbrev no_pool : Link ℕ
no_pool = record {
  pool = record { in_use = []; arrays = [] };
  channel_established = false;
  other = 0;
}

-- An impossible length drops what is in the buffer.
bad_length : receive (λ m (n : ℕ). n + 1) 0 [] (replicate 20 255) ≡ some (0, [])
unfolding receive process step
bad_length = refl

-- A read behind half a message may not fit, though the whole stream is in order.
overflow : receive (λ m (n : ℕ). n + 1) 0 (181 ∷ []) (replicate 8192 0) ≡ some (0, [])
unfolding receive
overflow = refl

beat-IsMessage : IsMessage 4096 beat
beat-IsMessage = record { field = λ h. refl; large = omega arith; small = omega arith }

set_up_cfg-IsMessage : IsMessage 4096 set_up_cfg
set_up_cfg-IsMessage = record { field = λ h. refl; large = omega arith; small = omega arith }

half-IsCut : IsCut 4096 (181 ∷ 0 ∷ [])
half-IsCut = (
  15,
  record { field = λ h. absurd (omega arith); large = omega arith; small = omega arith },
  omega arith,
)

empty-IsCut : IsCut 4096 []
empty-IsCut = (
  15,
  record { field = λ h. absurd (omega arith); large = omega arith; small = omega arith },
  omega arith,
)

abbrev reads : List (List ℕ)
reads =
    (181 ∷ 0 ∷ 0 ∷ 0 ∷ 15 ∷ 0 ∷ 0 ∷ 0 ∷ 0 ∷ [])
    ∷ (0 ∷ 0 ∷ 9 ∷ 0 ∷ 0 ∷ 0 ∷ 2 ∷ 0 ∷ 0 ∷ 0 ∷ 17 ∷ 0 ∷ 0 ∷ 0 ∷ 0 ∷ 0 ∷ 0 ∷ 1 ∷ 0 ∷ 0 ∷ 0 ∷ 7 ∷ [])
    ∷ (8 ∷ 181 ∷ 0 ∷ [])
    ∷ []

receive_all-delivers_example :
    receive_all (deliver_message counter) no_pool [] reads
    ≡ some (deliver_all (deliver_message counter) (beat ∷ set_up_cfg ∷ []) no_pool, 181 ∷ 0 ∷ [])
receive_all-delivers_example =
    receive_all-delivers 4096 (omega arith) (deliver_message counter) reads (beat ∷ set_up_cfg ∷ [])
      no_pool [] (181 ∷ 0 ∷ []) (beat-IsMessage, (set_up_cfg-IsMessage, tt)) empty-IsCut half-IsCut
      (omega arith, (omega arith, (omega arith, tt))) refl
