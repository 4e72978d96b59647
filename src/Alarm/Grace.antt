-- ===== src/Alarm/Grace.antt =====
-- The grace period of the optical links, and `alarm_periodic_check`.
use dpb_s_mgmt.Base.{
  ℕ, zero, suc, ◌+◌, ◌%◌, ◌^◌, ◌<◌, ◌≡◌, refl, Bool, true, false, not, Option, none, some, List, [],
  ◌++◌, arith, ltb, ◌==◌, ==_ne, if◌then◌else◌, bit_and,
}
use dpb_s_mgmt.Alarm.{
  Manager, Report, code_lo_unlock, code_optical_sync_loss, code_over_temperature,
  code_channel_fault_exceed,
}
use dpb_s_mgmt.Alarm.Edges.{
  Config, check_lo_unlock, check_over_temperature, check_channel_fault_exceed,
  check_optical_sync_loss,
}

-- g_optical_grace_armed and g_optical_grace_end.
pub record Grace : Type 0 where
  pub armed : Bool
  pub end : ℕ

-- `alarm_optical_in_grace`, with the second that the monotonic clock gives, if it gives one.
pub optical_in_grace : Config → Option ℕ → Grace → Bool × Grace
optical_in_grace config clock g = if config.link_grace_sec == 0 then (false, g) else at clock
  where
    at : Option ℕ → Bool × Grace
    at none = (false, g)
    at (some now) =
        if g.armed
        then (ltb now g.end, g)
        else (true, record { armed = true; end = (now + config.link_grace_sec) % 2 ^ 64 })

-- The fields of `fpga_status_frame_t` that are read here.
pub record Telemetry : Type 0 where
  pub lo_lock_status : ℕ
  pub temp1 : ℕ
  pub temp2 : ℕ
  pub temp3 : ℕ
  pub channel_fault_count : ℕ
  pub link_success_flag : ℕ

infixl 5 ◌then_do◌
-- One operation after another, with all their reports.
abbrev pub ◌then_do◌ :
    Manager × List Report → (Manager → Manager × List Report) → Manager × List Report
(m, reports) then_do f = let (m', more) = f m in (m', reports ++ more)

-- `info` is what `snprintf` writes for an alarm's code and number.
module _ (other : Manager → Manager) (now : ℕ) (config : Config) (info : ℕ → ℕ → List ℕ) where
  -- The loop over the optical ports, from port `i` on; the links' bits are tested as
  -- `link_success_flag & (1 << i)`.
  unfoldable pub check_ports : ℕ → ℕ → ℕ → Manager → Manager × List Report
  check_ports flags i zero m = (m, [])
  check_ports flags i (suc rounds) m =
      let sync = λ (k : ℕ). not (bit_and flags (2 ^ k) == 0) in
      let main = check_optical_sync_loss other now (info code_optical_sync_loss i) i (sync i) m in
      let both =
        if config.optical_port_count == 8
        then main
          then_do check_optical_sync_loss other now (info code_optical_sync_loss (i + 4)) (i + 4)
              (sync (i + 4))
        else main in
      both then_do check_ports flags (i + 1) rounds

  unfoldable pub periodic_check :
      Option ℕ → Telemetry → Grace → Manager → Grace × Manager × List Report
  periodic_check clock t g m =
      let readings =
        check_lo_unlock other now (info code_lo_unlock 0) t.lo_lock_status m
        then_do check_over_temperature other now config (info code_over_temperature 0) 0 t.temp1
        then_do check_over_temperature other now config (info code_over_temperature 1) 1 t.temp2
        then_do check_over_temperature other now config (info code_over_temperature 2) 2 t.temp3
        then_do check_channel_fault_exceed other now config (info code_channel_fault_exceed 0)
            t.channel_fault_count in
      let (waits, g') = optical_in_grace config clock g in
      let (m', reports) =
        if waits then readings else readings then_do check_ports t.link_success_flag 0 4 in
      (g', m', reports)

-- With a grace period of `n` > 0 seconds that starts at the first telemetry, at second `start` of the
-- monotonic clock, the optical links are skipped at that telemetry, and at second `now` of a later
-- one if and only if `now` is before `start + n`; the end stays where the first telemetry has set it.
pub optical_in_grace_iff :
    (config : Config) (start now end : ℕ)
    → 0 < config.link_grace_sec
    → start + config.link_grace_sec < 2 ^ 64
    → let first = optical_in_grace config (some start) (record { armed = false; end = end }) in
      let later = optical_in_grace config (some now) first.1 in
      (first.0 ≡ true) × (later.0 ≡ ltb now (start + config.link_grace_sec)) × (later.1 ≡ first.1)
unfolding optical_in_grace
optical_in_grace_iff config start now end pos small =
    let some_grace : (config.link_grace_sec == 0) ≡ false = ==_ne _ _ (omega arith) in
    let e : (start + config.link_grace_sec) % 2 ^ 64 ≡ start + config.link_grace_sec =
      omega arith in
    rw (some_grace, e) (refl, refl, refl)
