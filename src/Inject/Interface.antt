-- ===== src/Inject/Interface.antt =====
-- What the injection thread asks of its surroundings: the serial line, the clock, the request to
-- abort, memory and files. A state of them is passed in and out of every call. Another thread may ask
-- to abort at any time; the code sees that at its next wait or exchange.
use dpb_s_mgmt.Base.{ℕ, ◌+◌, ◌≤◌, ◌≡◌, ◌≢◌, Bool, true, List, Result, ok}
use dpb_s_mgmt.Rs422.{Decoded, decode_frame}
use dpb_s_mgmt.Package.{Host}

pub record Line : Type 1 where
  pub State : Type 0
  pub host : Host
  -- Microseconds, and `abort_requested`.
  pub clock : State → ℕ
  pub aborted : State → Bool
  pub usleep : ℕ → State → State
  -- `uart_rs422_send_frame`.
  pub send_frame : List ℕ → State → Result (Unit {0}) × State
  -- `uart_rs422_send_and_wait` with the frame, the size of the buffer and the expected command.
  pub send_and_wait : List ℕ → ℕ → ℕ → State → Result (List ℕ) × State
  -- Whether `fseek` fails, and whether `malloc` gives no memory.
  pub seek_fails : State → Bool
  pub malloc_fails : ℕ → State → Bool
  -- A wait takes its time; the clock never goes back; a request to abort stays.
  pub usleep-clock : (n : ℕ) (s : State) → clock s + n ≤ clock (usleep n s)
  pub usleep-aborted : (n : ℕ) (s : State) → aborted s ≡ true → aborted (usleep n s) ≡ true
  pub exchange-clock :
      (f : List ℕ) (size cmd : ℕ) (s : State) → clock s ≤ clock (send_and_wait f size cmd s).1
  pub exchange-aborted :
      (f : List ℕ) (size cmd : ℕ) (s : State)
      → aborted s ≡ true
      → aborted (send_and_wait f size cmd s).1 ≡ true
  -- A frame that is received in answer is one that was asked for.
  pub exchange-answers :
      (f : List ℕ) (size cmd : ℕ) (s : State) {received : List ℕ}
      → cmd ≢ 0
      → (send_and_wait f size cmd s).0 ≡ ok received
      → (d : Decoded) × (decode_frame received ≡ ok d) × (d.cmd_code ≡ cmd)
