-- ===== src/Inject/Serial.antt =====
-- The line of the injector, made of the RS-422 client of Uart: what the operating system and the
-- target do is a list of attempts, one for each frame that is sent.
use dpb_s_mgmt.Base.{
  ℕ, ◌+◌, ◌≤◌, ◌≡◌, ◌≢◌, refl, Bool, true, false, Option, List, [], ◌∷◌, arith, ◌||◌, Result, ok,
  err, general, timeout,
}
use dpb_s_mgmt.Rs422.{Decoded, decode_frame}
use dpb_s_mgmt.Package.{Host}
use dpb_s_mgmt.Uart.{Context, Event, Received, returned, waiting, stuck, send_frame, send_and_wait}
use dpb_s_mgmt.Uart.Send.{send_and_wait-ok}
use dpb_s_mgmt.Inject.Interface.{Line}

-- What each `write` writes, what happens while an answer is awaited, the microseconds that pass, and
-- whether an abort is asked for meanwhile.
pub record Attempt : Type 0 where
  pub writes : List (Option ℕ)
  pub events : List Event
  pub took : ℕ
  pub abort : Bool

pub record Port : Type 0 where
  pub context : Context
  pub clock : ℕ
  pub aborted : Bool
  pub attempts : List Attempt

-- The answer that is received, and the context behind it; no answer where the events end first.
outcome : Context → Received → Result (List ℕ) × Context
outcome c (returned res c') = (res, c')
outcome c (waiting c') = (err timeout, c')
outcome c stuck = (err general, c)

unfoldable pub exchange : List ℕ → ℕ → ℕ → Port → Result (List ℕ) × Port
unfolding outcome
exchange frame size cmd p = elim p.attempts [
  | [] ↦ (err timeout, p)
  | a ∷ rest ↦
      let (res, c) =
        outcome p.context (send_and_wait frame 3 a.writes size cmd a.events p.context) in
      (
        res,
        record {
          context = c;
          clock = p.clock + a.took;
          aborted = p.aborted || a.abort;
          attempts = rest;
        },
      )
]

unfoldable pub send : List ℕ → Port → Result (Unit {0}) × Port
send frame p = elim p.attempts [
  | [] ↦ (err general, p)
  | a ∷ rest ↦ (
    send_frame frame 3 a.writes,
    record p { clock = p.clock + a.took; aborted = p.aborted || a.abort; attempts = rest },
  )
]

stays : (a b : Bool) → a ≡ true → (a || b) ≡ true
stays a b e = rw e refl

pub exchange-clock :
    (frame : List ℕ) (size cmd : ℕ) (p : Port) → p.clock ≤ (exchange frame size cmd p).1.clock
unfolding exchange
exchange-clock frame size cmd p =
    elim p.attempts
      as (λ t. p.clock ≤ (exchange frame size cmd (record p { attempts = t })).1.clock) [
        | [] ↦ omega arith
        | a ∷ rest ↦ omega arith
      ]

pub exchange-aborted :
    (frame : List ℕ) (size cmd : ℕ) (p : Port)
    → p.aborted ≡ true
    → (exchange frame size cmd p).1.aborted ≡ true
unfolding exchange
exchange-aborted frame size cmd p e =
    elim p.attempts
      as (λ t. (exchange frame size cmd (record p { attempts = t })).1.aborted ≡ true) [
        | [] ↦ e
        | a ∷ rest ↦ stays p.aborted a.abort e
      ]

outcome-ok :
    (c : Context) (o : Received) {frame : List ℕ}
    → (outcome c o).0 ≡ ok frame
    → (c' : Context) × (o ≡ returned (ok frame) c')
unfolding outcome
outcome-ok c (returned res c') e = (c', cc)
outcome-ok c (waiting c') e = cc
outcome-ok c stuck e = cc

pub exchange-answers :
    (frame : List ℕ) (size cmd : ℕ) (p : Port) {received : List ℕ}
    → cmd ≢ 0
    → (exchange frame size cmd p).0 ≡ ok received
    → (d : Decoded) × (decode_frame received ≡ ok d) × (d.cmd_code ≡ cmd)
unfolding exchange
exchange-answers frame size cmd p {received} ne =
    elim p.attempts
      as (λ t.
        (exchange frame size cmd (record p { attempts = t })).0 ≡ ok received
        → (d : Decoded) × (decode_frame received ≡ ok d) × (d.cmd_code ≡ cmd)) [
          | [] ↦ λ e. cc
          | a ∷ rest ↦ λ e.
              let (c', back) =
                outcome-ok p.context (send_and_wait frame 3 a.writes size cmd a.events p.context)
                  e in
              (send_and_wait-ok frame 3 a.writes size cmd a.events p.context ne back).1
        ]

-- The waits of the thread change only the clock; no `fseek` and no `malloc` fails here.
unfoldable pub serial_line : Host → Line
unfolding exchange send
serial_line host = record {
  State = Port;
  host = host;
  clock = λ p. p.clock;
  aborted = λ p. p.aborted;
  usleep = λ n p. record p { clock = p.clock + n };
  send_frame = send;
  send_and_wait = exchange;
  seek_fails = λ p. false;
  malloc_fails = λ n p. false;
  usleep-clock = λ n p. omega arith;
  usleep-aborted = λ n p e. e;
  exchange-clock = exchange-clock;
  exchange-aborted = exchange-aborted;
  exchange-answers = exchange-answers;
}
