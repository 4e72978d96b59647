-- ===== src/Send.antt =====
-- The loops that write all bytes of a buffer: s_band_antenna_mgmt/src/uart_client.c to the FPGA's serial
-- port, and s_band_antenna_mgmt/src/tcp_client.c to the BBU. What each `write` or `send` does is the head
-- of a list; behind its end all fail. The mutex makes a whole call one step.
pub mod Prefix
mod Tests
use dpb_s_mgmt.Base.{
  ℕ, zero, suc, Bool, List, [], ◌∷◌, ◌++◌, length, take, drop, if◌then◌else◌, not, ◌==◌, Error,
  general, invalid_param, network, timeout, Result, ok, err,
}

-- What a call of the system reports: a number of bytes, EINTR, EAGAIN, or another error.
pub data Wrote : Type 0 where
  wrote : ℕ → Wrote
  interrupted would_block failed : Wrote

-- What a call returns, the bytes that went out, and what later writes do.
pub record Sent : Type 0 where
  pub returned : Result (Unit {0})
  pub bytes : List ℕ
  pub later : List Wrote

abbrev pub before : List ℕ → Sent → Sent
before out s = record s { bytes = out ++ s.bytes }

abbrev pub stop : Error → List Wrote → Sent
stop e later = record { returned = err e; bytes = []; later = later }

-- The loop of `uart_client_send` over what is not yet sent; a write of nothing ends it.
unfoldable pub uart_loop : List Wrote → List ℕ → Sent
uart_loop ws [] = record { returned = ok tt; bytes = []; later = ws }
uart_loop [] (b ∷ bs) = stop general []
uart_loop (interrupted ∷ ws) (b ∷ bs) = uart_loop ws (b ∷ bs)
uart_loop (would_block ∷ ws) (b ∷ bs) = stop general ws
uart_loop (failed ∷ ws) (b ∷ bs) = stop general ws
uart_loop (wrote zero ∷ ws) (b ∷ bs) = stop general ws
uart_loop (wrote (suc n) ∷ ws) (b ∷ bs) =
    before (take (suc n) (b ∷ bs)) (uart_loop ws (drop (suc n) (b ∷ bs)))

-- `uart_client_send`
unfoldable pub uart_client_send : Bool → List Wrote → List ℕ → Sent
uart_client_send is_open ws bytes =
    let sent = uart_loop ws bytes in
    if length bytes == 0
    then stop invalid_param ws
    else if not is_open
    then stop general ws
    else sent

-- The loop of `tcp_client_send`; EAGAIN comes from the time limit on the socket.
unfoldable pub tcp_loop : List Wrote → List ℕ → Sent
tcp_loop ws [] = record { returned = ok tt; bytes = []; later = ws }
tcp_loop [] (b ∷ bs) = stop network []
tcp_loop (interrupted ∷ ws) (b ∷ bs) = tcp_loop ws (b ∷ bs)
tcp_loop (would_block ∷ ws) (b ∷ bs) = stop timeout ws
tcp_loop (failed ∷ ws) (b ∷ bs) = stop network ws
tcp_loop (wrote n ∷ ws) (b ∷ bs) = before (take n (b ∷ bs)) (tcp_loop ws (drop n (b ∷ bs)))

-- `tcp_client_send`
unfoldable pub tcp_client_send : Bool → List Wrote → List ℕ → Sent
tcp_client_send connected ws bytes =
    let sent = tcp_loop ws bytes in
    if length bytes == 0
    then stop invalid_param ws
    else if not connected
    then stop network ws
    else sent
