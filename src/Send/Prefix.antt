-- ===== src/Send/Prefix.antt =====
-- What goes out is the beginning of the buffer, and all of it exactly on success.
use dpb_s_mgmt.Base.{
  ℕ, zero, suc, ◌≡◌, refl, ap, ◌∙◌, Bool, true, false, List, [], ◌∷◌, ◌++◌, length, take, drop,
  ◌==◌, arith, Error, ok, err, take-append-drop,
}
use dpb_s_mgmt.Send.{
  Wrote, wrote, interrupted, would_block, failed, Sent, before, uart_loop, uart_client_send,
  tcp_loop, tcp_client_send,
}
use mathlib.Core.List.{append_assoc}

-- On success all the bytes are out, and on an error a beginning of them with something left.
pub data Outcome (bytes : List ℕ) : Sent → Type 0 where
  whole :
      (later : List Wrote)
      → Outcome bytes (record { returned = ok tt; bytes = bytes; later = later })
  part :
      (e : Error) (out : List ℕ) (b : ℕ) (left : List ℕ) (later : List Wrote)
      → out ++ (b ∷ left) ≡ bytes
      → Outcome bytes (record { returned = err e; bytes = out; later = later })

before-Outcome :
    (n : ℕ) (bytes : List ℕ) (s : Sent)
    → Outcome (drop n bytes) s
    → Outcome bytes (before (take n bytes) s)
before-Outcome n bytes s (whole later) = rw (take-append-drop n bytes) (whole later)
before-Outcome n bytes s (part e out b left later same) =
    part e (take n bytes ++ out) b left later (
      append_assoc (take n bytes) out (b ∷ left)
      ∙ ap (λ (k : List ℕ). take n bytes ++ k) same
      ∙ take-append-drop n bytes)

uart_loop-Outcome : (ws : List Wrote) (bytes : List ℕ) → Outcome bytes (uart_loop ws bytes)
unfolding uart_loop
uart_loop-Outcome [] [] = whole []
uart_loop-Outcome (w ∷ ws) [] = whole (w ∷ ws)
uart_loop-Outcome [] (b ∷ bs) = part _ [] b bs [] refl
uart_loop-Outcome (interrupted ∷ ws) (b ∷ bs) = uart_loop-Outcome ws (b ∷ bs)
uart_loop-Outcome (would_block ∷ ws) (b ∷ bs) = part _ [] b bs ws refl
uart_loop-Outcome (failed ∷ ws) (b ∷ bs) = part _ [] b bs ws refl
uart_loop-Outcome (wrote zero ∷ ws) (b ∷ bs) = part _ [] b bs ws refl
uart_loop-Outcome (wrote (suc n) ∷ ws) (b ∷ bs) =
    before-Outcome (suc n) (b ∷ bs) _ (uart_loop-Outcome ws (drop (suc n) (b ∷ bs)))

tcp_loop-Outcome : (ws : List Wrote) (bytes : List ℕ) → Outcome bytes (tcp_loop ws bytes)
unfolding tcp_loop
tcp_loop-Outcome [] [] = whole []
tcp_loop-Outcome (w ∷ ws) [] = whole (w ∷ ws)
tcp_loop-Outcome [] (b ∷ bs) = part _ [] b bs [] refl
tcp_loop-Outcome (interrupted ∷ ws) (b ∷ bs) = tcp_loop-Outcome ws (b ∷ bs)
tcp_loop-Outcome (would_block ∷ ws) (b ∷ bs) = part _ [] b bs ws refl
tcp_loop-Outcome (failed ∷ ws) (b ∷ bs) = part _ [] b bs ws refl
tcp_loop-Outcome (wrote n ∷ ws) (b ∷ bs) =
    before-Outcome n (b ∷ bs) _ (tcp_loop-Outcome ws (drop n (b ∷ bs)))

not_empty : (b : ℕ) (bs : List ℕ) → (length (b ∷ bs) == 0) ≡ false
not_empty b bs = ground arith

-- Whatever the system does with the writes, `uart_client_send` has written all the bytes where it returns
-- SUCCESS, and a beginning of them with at least a byte missing where it returns an error: for a buffer
-- that is not empty.
pub uart_client_send-Outcome :
    (is_open : Bool) (ws : List Wrote) (b : ℕ) (bs : List ℕ)
    → Outcome (b ∷ bs) (uart_client_send is_open ws (b ∷ bs))
unfolding uart_client_send
uart_client_send-Outcome true ws b bs =
    rw (uart_client_send, not_empty b bs) (uart_loop-Outcome ws (b ∷ bs))
uart_client_send-Outcome false ws b bs =
    rw (uart_client_send, not_empty b bs) (part _ [] b bs ws refl)

-- Whatever the socket does with the writes, `tcp_client_send` has written all the bytes where it returns
-- SUCCESS, and a beginning of them with at least a byte missing where it returns an error: for a buffer
-- that is not empty.
pub tcp_client_send-Outcome :
    (connected : Bool) (ws : List Wrote) (b : ℕ) (bs : List ℕ)
    → Outcome (b ∷ bs) (tcp_client_send connected ws (b ∷ bs))
unfolding tcp_client_send
tcp_client_send-Outcome true ws b bs =
    rw (tcp_client_send, not_empty b bs) (tcp_loop-Outcome ws (b ∷ bs))
tcp_client_send-Outcome false ws b bs =
    rw (tcp_client_send, not_empty b bs) (part _ [] b bs ws refl)
