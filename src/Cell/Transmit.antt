-- ===== src/Cell/Transmit.antt =====
-- Whether the antenna transmits while the link to the BBU is down.
use dpb_s_mgmt.Base.{
  ℕ, ◌≡◌, refl, ◌∙◌, Bool, true, false, List, [], ◌∷◌, if◌then◌else◌, not, Bool-cases, inl, inr,
}
use dpb_s_mgmt.Cell.{
  Antenna, State, has_any_freq, apply_tx_control, update_tx_control, notify_bbu_link,
}
use dpb_s_mgmt.Cell.Jobs.{Job, run_job}
use dpb_s_mgmt.Cell.Carried.{Carries, run_job-carries}

-- An antenna that obeys: `transmits` says whether it transmits. A command to stop gets through; a command
-- to start that is lost, a command for the band and a look at the mode change nothing.
pub record Obeys {W : Type 0} (antenna : Antenna W) (transmits : W → Bool) : Type 0 where
  pub stop : (w : W) → (antenna.send_tx_control 0 w).0 ≡ true
  pub stopped : (w : W) → transmits (antenna.send_tx_control 0 w).1 ≡ false
  pub lost :
      (w : W)
      → (antenna.send_tx_control 1 w).0 ≡ false
      → transmits (antenna.send_tx_control 1 w).1 ≡ transmits w
  pub band : (w : W) (dl ul bw : ℕ) → transmits (antenna.send_freq_band dl ul bw w).1 ≡ transmits w
  pub mode : (w : W) → transmits (antenna.get_mode w).1 ≡ transmits w

-- What the program says of the transmitter covers what the antenna does, and with the link down it says
-- that nothing is transmitted.
pub record IsSilent {W : Type 0} (transmits : W → Bool) (s : State W) : Type 0 where
  pub recorded : s.tx_on ≡ false → transmits s.antenna ≡ false
  pub gated : s.bbu_link_ok ≡ false → s.tx_on ≡ false

-- What reaches the program: news of the link, and a request, with the news of the link that come while it
-- waits for the antenna.
pub data Event : Type 0 where
  link : Bool → Event
  request : Job → List Bool → Event

if_both :
    {A : Type 0} (P : A → Type 0) (b : Bool) (x y : A)
    → (b ≡ true → P x)
    → (b ≡ false → P y)
    → P (if b then x else y)
if_both P true x y h k = h refl
if_both P false x y h k = k refl

un_not : (b : Bool) → not b ≡ false → b ≡ true
un_not true e = refl
un_not false e = cc

module _ {W : Type 0} (antenna : Antenna W) where
  abbrev pub news : List Bool → State W → State W
  news [] s = s
  news (up ∷ ups) s = news ups (notify_bbu_link antenna up s)

  -- Each look at the link and the command that follows it are one step here.
  unfoldable pub happens : Event → State W → State W
  happens (link up) s = notify_bbu_link antenna up s
  happens (request j ups) s = (run_job antenna (news ups) (λ t. t) j s).0

  unfoldable pub history : List Event → State W → State W
  history [] s = s
  history (e ∷ es) s = history es (happens e s)

  module _ (transmits : W → Bool) (o : Obeys antenna transmits) where
    stop-IsSilent : (s : State W) → IsSilent transmits (apply_tx_control antenna false s)
    unfolding apply_tx_control
    stop-IsSilent s =
        rw (apply_tx_control, o.stop s.antenna)
          (record { recorded = λ e. o.stopped s.antenna; gated = λ e. refl })

    start-IsSilent :
        (s : State W)
        → s.bbu_link_ok ≡ true
        → IsSilent transmits s
        → IsSilent transmits (apply_tx_control antenna true s)
    unfolding apply_tx_control
    start-IsSilent s up v = elim (Bool-cases (antenna.send_tx_control 1 s.antenna).0) [
      | inl sent ↦ rw (apply_tx_control, sent) (record { recorded = λ e. cc; gated = λ e. cc })
      | inr lost ↦
          rw (apply_tx_control, lost)
            (record { recorded = λ e. o.lost s.antenna lost ∙ v.recorded e; gated = v.gated })
    ]

    notify_bbu_link-IsSilent :
        (up : Bool) (s : State W)
        → IsSilent transmits s
        → IsSilent transmits (notify_bbu_link antenna up s)
    unfolding notify_bbu_link
    notify_bbu_link-IsSilent true s v = record { recorded = v.recorded; gated = λ e. cc }
    notify_bbu_link-IsSilent false s v =
        if_both (IsSilent transmits) s.tx_on _ _
          (λ on. stop-IsSilent (record s { bbu_link_ok = false }))
          (λ off. record { recorded = v.recorded; gated = λ e. off })

    control-IsSilent :
        (on : Bool) (s : State W)
        → s.bbu_link_ok ≡ true
        → IsSilent transmits s
        → IsSilent transmits (apply_tx_control antenna on s)
    control-IsSilent true s up v = start-IsSilent s up v
    control-IsSilent false s up v = stop-IsSilent s

    update_tx_control-IsSilent :
        (s : State W)
        → IsSilent transmits s
        → IsSilent transmits (update_tx_control antenna (λ t. t) s)
    unfolding update_tx_control
    update_tx_control-IsSilent s v =
        if_both (IsSilent transmits) (not s.bbu_link_ok) _ _ (λ down. v)
          (λ up. control-IsSilent (has_any_freq s.manager) s (un_not s.bbu_link_ok up) v)

    news-IsSilent :
        (ups : List Bool) (s : State W) → IsSilent transmits s → IsSilent transmits (news ups s)
    news-IsSilent [] s v = v
    news-IsSilent (up ∷ ups) s v =
        news-IsSilent ups (notify_bbu_link antenna up s) (notify_bbu_link-IsSilent up s v)

    request-Carries : (ups : List Bool) → Carries antenna (news ups) (λ t. t) (IsSilent transmits)
    request-Carries ups = record {
      tables = λ s m v. record { recorded = v.recorded; gated = v.gated };
      band = λ s dl ul bw v. record {
        recorded = λ e. o.band s.antenna dl ul bw ∙ v.recorded e;
        gated = v.gated;
      };
      mode = λ s v. record { recorded = λ e. o.mode s.antenna ∙ v.recorded e; gated = v.gated };
      update = update_tx_control-IsSilent;
      others = news-IsSilent ups;
    }

    happens-IsSilent :
        (e : Event) (s : State W) → IsSilent transmits s → IsSilent transmits (happens e s)
    unfolding happens
    happens-IsSilent (link up) s v = notify_bbu_link-IsSilent up s v
    happens-IsSilent (request j ups) s v =
        run_job-carries antenna (news ups) (λ t. t) (IsSilent transmits) (request-Carries ups) j s v

    history-IsSilent :
        (es : List Event) (s : State W) → IsSilent transmits s → IsSilent transmits (history es s)
    unfolding history
    history-IsSilent [] s v = v
    history-IsSilent (e ∷ es) s v = history-IsSilent es (happens e s) (happens-IsSilent e s v)

    -- For an antenna that obeys every command to stop, from a state in which it does not transmit, and
    -- where no news of the link comes between a look at the link and the command to the transmitter that
    -- follows it: behind any history of requests and news of the link, with the link to the BBU down, the
    -- antenna does not transmit.
    pub history-silent :
        (es : List Event) (s : State W)
        → s.tx_on ≡ false
        → transmits s.antenna ≡ false
        → (history es s).bbu_link_ok ≡ false
        → transmits (history es s).antenna ≡ false
    history-silent es s off quiet down =
        let v = history-IsSilent es s (record { recorded = λ e. quiet; gated = λ e. off }) in
        v.recorded (v.gated down)
