-- ===== src/Watchdog/Toggle.antt =====
-- What feeding does to the registers.
use dpb_s_mgmt.Base.{
  ℕ, ◌≡◌, ◌≢◌, refl, ap, ◌∙◌, Bool, true, false, if◌then◌else◌, not, Bool-cases, inl, inr, ==_self,
  ==_ne, ok,
}
use dpb_s_mgmt.Watchdog.{Watchdog, Bits, set_bit, clear_bit, write_reg, watchdog_feed}

-- The level of the pin, and the other bits of the data registers.
abbrev pub pin : Watchdog → Bool
pin s = s.dr s.gpio.use_portb s.gpio.port

same_group : (g : Bool) (v : Bits) (regs : Bool → Bits) → write_reg g v regs g ≡ v
same_group true v regs = refl
same_group false v regs = refl

other_group : (g h : Bool) (v : Bits) (regs : Bool → Bits) → g ≢ h → write_reg g v regs h ≡ regs h
other_group true true v regs ne = absurd (ne refl)
other_group true false v regs ne = refl
other_group false true v regs ne = refl
other_group false false v regs ne = absurd (ne refl)

-- The register value that a feed writes.
abbrev toggled : ℕ → Bits → Bits
toggled n x = if x n then clear_bit n x else set_bit n x

toggled-at : (n : ℕ) (x : Bits) → toggled n x n ≡ not (x n)
unfolding set_bit clear_bit
toggled-at n x = elim (Bool-cases (x n)) [
  | inl high ↦ rw high (rw (==_self n n refl) refl)
  | inr low ↦ rw low (rw (==_self n n refl) refl)
]

toggled-ne : (n i : ℕ) (x : Bits) → i ≢ n → toggled n x i ≡ x i
unfolding set_bit clear_bit
toggled-ne n i x ne = elim (Bool-cases (x n)) [
  | inl high ↦ rw high (rw (==_ne i n ne) refl)
  | inr low ↦ rw low (rw (==_ne i n ne) refl)
]

-- A feed with mapped registers succeeds and inverts the pin; it changes no other bit of its data
-- register, and nothing of the other port group's.
pub watchdog_feed-pin :
    (s : Watchdog)
    → s.gpio_mapped ≡ true
    → ((watchdog_feed s).0 ≡ ok tt)
      × (pin (watchdog_feed s).1 ≡ not (pin s))
      × ((i : ℕ)
          → i ≢ s.gpio.port
          → (watchdog_feed s).1.dr s.gpio.use_portb i ≡ s.dr s.gpio.use_portb i)
      × ((g : Bool) → s.gpio.use_portb ≢ g → (watchdog_feed s).1.dr g ≡ s.dr g)
unfolding watchdog_feed
watchdog_feed-pin s mapped =
    let g = s.gpio in
    let value : Bits = toggled g.port (s.dr g.use_portb) in
    let written = same_group g.use_portb value s.dr in
    (
      simp mapped refl,
      simp mapped (ap (λ (v : Bits). v g.port) written ∙ toggled-at g.port (s.dr g.use_portb)),
      λ i ne.
          simp mapped (ap (λ (v : Bits). v i) written ∙ toggled-ne g.port i (s.dr g.use_portb) ne),
      λ h ne. simp mapped (other_group g.use_portb h value s.dr ne),
    )
