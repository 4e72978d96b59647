-- ===== src/Send/Tests.antt =====
-- Runs of the loops, and their theorems at concrete inputs.
use dpb_s_mgmt.Base.{◌≡◌, refl, true, [], ◌∷◌, err, timeout}
use dpb_s_mgmt.Send.{wrote, would_block, tcp_client_send, tcp_loop}
use dpb_s_mgmt.Send.Prefix.{Outcome, tcp_client_send-Outcome}

timed_out :
    tcp_client_send true (wrote 2 ∷ would_block ∷ []) (1 ∷ 2 ∷ 3 ∷ [])
    ≡ record { returned = err timeout; bytes = 1 ∷ 2 ∷ []; later = [] }
unfolding tcp_client_send tcp_loop
timed_out = refl

tcp_client_send-Outcome_example :
    Outcome (1 ∷ 2 ∷ []) (tcp_client_send true (wrote 1 ∷ wrote 1 ∷ []) (1 ∷ 2 ∷ []))
tcp_client_send-Outcome_example = tcp_client_send-Outcome true (wrote 1 ∷ wrote 1 ∷ []) 1 (2 ∷ [])
