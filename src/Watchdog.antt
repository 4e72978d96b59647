-- ===== src/Watchdog.antt =====
-- s_band_antenna_mgmt/src/fpga_watchdog.c: the thread that toggles a GPIO pin for the FPGA's hardware
-- watchdog. A 32-bit register is the function of its bits. What `/dev/mem`, `mmap`, the mutex and
-- `pthread_create` answer is a parameter; the locks, the log and the waits are left out.
pub mod Alarms
pub mod Toggle
mod Tests
use dpb_s_mgmt.Base.{
  ℕ, zero, suc, ◌+◌, ◌%◌, ◌^◌, Bool, true, false, List, [], ◌∷◌, ◌++◌, ltb, leb, ◌==◌,
  if◌then◌else◌, not, ◌&&◌, ◌||◌, add32, Error, general, Result, ok, err, ◌>>=◌,
}

abbrev pub Bits : Type 0
Bits = ℕ → Bool

-- `x | (1 << n)` and `x & ~(1 << n)`
unfoldable pub set_bit : ℕ → Bits → Bits
set_bit n x = λ i. if i == n then true else x i

unfoldable pub clear_bit : ℕ → Bits → Bits
clear_bit n x = λ i. if i == n then false else x i

-- `gpio_config_t`
pub record GpioConfig : Type 0 where
  pub gpio_base : ℕ
  pub pin_mux_offset : ℕ
  pub mux_func_bit : ℕ
  pub mux_pull_bit : ℕ
  pub port : ℕ
  pub use_portb : Bool

-- The module's variables and the registers that it writes: the data and direction registers of the
-- two port groups, by `use_portb`, and the pin's multiplexer register.
pub record Watchdog : Type 0 where
  pub mutex_ready : Bool
  pub enabled : Bool
  pub feed_count : ℕ
  pub consecutive_feed_fails : ℕ
  pub gpio : GpioConfig
  pub mem_open : Bool
  pub gpio_mapped : Bool
  pub iomux_mapped : Bool
  pub dr : Bool → Bits
  pub ddr : Bool → Bits
  pub mux : Bits

-- What the system answers to the calls of `fpga_watchdog_init`: whether the mutex can be made, the
-- memory device opened and each region mapped, and whether the multiplexer register reads back as it
-- was written.
pub record Answers : Type 0 where
  pub mutex_made : Bool
  pub mem_opens : Bool
  pub gpio_maps : Bool
  pub iomux_maps : Bool
  pub mux_verifies : Bool

abbrev pub gpio0_base : ℕ
gpio0_base = 0x28004000

abbrev pub gpio1_base : ℕ
gpio1_base = 0x28005000

-- `mmap_init`: the state behind it, and whether it gives an address.
unfoldable pub mmap_init : Bool → Bool → Watchdog → Watchdog × Bool
mmap_init opens maps s =
    if s.mem_open
    then (s, maps)
    else if opens
    then (record s { mem_open = true }, maps)
    else (s, false)

abbrev pub write_reg : Bool → Bits → (Bool → Bits) → Bool → Bits
write_reg group value regs = λ (g : Bool). if same group g then value else regs g
  where
    same : Bool → Bool → Bool
    same true g = g
    same false g = not g

-- `configure_iomux`: bits [3:0] of the field are cleared and its second bit is set.
unfoldable pub configure_iomux : Answers → Watchdog → Result (Unit {0}) × Watchdog
configure_iomux a s =
    let (s', mapped) = if s.iomux_mapped then (s, true) else mmap_init a.mem_opens a.iomux_maps s in
    let f = s.gpio.mux_func_bit in
    let mux =
      set_bit (f + 1)
        (clear_bit f (clear_bit (f + 1) (clear_bit (f + 2) (clear_bit (f + 3) s.mux)))) in
    if not mapped then (err general, s') else (
      (if a.mux_verifies then ok tt else err general),
      record s' { iomux_mapped = true; mux = mux },
    )

unfoldable pub base_good : GpioConfig → Bool
base_good c = c.gpio_base == gpio0_base || c.gpio_base == gpio1_base

unfoldable pub gpio_set_direction : Bool → Watchdog → Result (Unit {0}) × Watchdog
gpio_set_direction output s =
    let g = s.gpio in
    let temp = s.ddr g.use_portb in
    let value = if output then set_bit g.port temp else clear_bit g.port temp in
    if not (base_good g)
    then (err general, s)
    else if not s.gpio_mapped
    then (err general, s)
    else (ok tt, record s { ddr = write_reg g.use_portb value s.ddr })

unfoldable pub gpio_set_value : Bool → Watchdog → Result (Unit {0}) × Watchdog
gpio_set_value high s =
    let g = s.gpio in
    let temp = s.dr g.use_portb in
    let value = if high then set_bit g.port temp else clear_bit g.port temp in
    if not (base_good g)
    then (err general, s)
    else if not s.gpio_mapped
    then (err general, s)
    else (ok tt, record s { dr = write_reg g.use_portb value s.dr })

-- The next call where the last one succeeded.
abbrev pub and_then :
    (Watchdog → Result (Unit {0}) × Watchdog)
    → Result (Unit {0}) × Watchdog
    → Result (Unit {0}) × Watchdog
and_then next (err e, s) = (err e, s)
and_then next (ok u, s) = next s

unfoldable pub watchdog_gpio_init : Answers → Watchdog → Result (Unit {0}) × Watchdog
watchdog_gpio_init a s =
    let (s', mapped) = mmap_init a.mem_opens a.gpio_maps s in
    let s1 = record s' { gpio_mapped = mapped } in
    if not mapped
    then (err general, s1)
    else and_then (gpio_set_value false) (and_then (gpio_set_direction true) (configure_iomux a s1))

unfoldable pub watchdog_feed : Watchdog → Result (Unit {0}) × Watchdog
unfolding set_bit clear_bit
watchdog_feed s =
    let g = s.gpio in
    let current = s.dr g.use_portb in
    let value = if current g.port then clear_bit g.port current else set_bit g.port current in
    if not s.gpio_mapped
    then (err general, s)
    else (ok tt, record s { dr = write_reg g.use_portb value s.dr })

-- The calls of the alarm manager, both for the alarm 1161.
pub data AlarmCall : Type 0 where
  trigger clear : AlarmCall

abbrev pub fail_threshold : ℕ
fail_threshold = 3

-- What the thread does behind a feed.
unfoldable pub after_feed : Result (Unit {0}) × Watchdog → Watchdog × List AlarmCall
after_feed (err e, s) =
    let fails = add32 s.consecutive_feed_fails 1 in
    (
      record s { consecutive_feed_fails = fails },
      if fails == fail_threshold then trigger ∷ [] else [],
    )
after_feed (ok u, s) = (
  record s { feed_count = add32 s.feed_count 1; consecutive_feed_fails = 0 },
  (if leb fail_threshold s.consecutive_feed_fails then clear ∷ [] else []),
)

-- A round of `watchdog_thread_func`, which is over when the watchdog is not enabled.
unfoldable pub thread_round : Watchdog → Watchdog × List AlarmCall
thread_round s = if not s.enabled then (s, []) else after_feed (watchdog_feed s)

unfoldable pub watchdog_init : Answers → GpioConfig → Watchdog → Result (Unit {0}) × Watchdog
watchdog_init a config s =
    let zeroed = record s { enabled = false; feed_count = 0; consecutive_feed_fails = 0 } in
    let ready = record zeroed { mutex_ready = true; gpio = config } in
    let (res, s') = watchdog_gpio_init a ready in
    if not a.mutex_made
    then (err general, zeroed)
    else elim res [ ok u ↦ (ok tt, s') | err e ↦ (err general, record s' { mutex_ready = false }) ]

-- `created` says whether `pthread_create` succeeds.
unfoldable pub watchdog_start : Bool → Watchdog → Result (Unit {0}) × Watchdog
watchdog_start created s =
    if not s.mutex_ready then (err general, s) else if s.enabled then (ok tt, s) else (
      (if created then ok tt else err general),
      record s { enabled = created; feed_count = 0; consecutive_feed_fails = 0 },
    )

unfoldable pub watchdog_stop : Watchdog → Watchdog
watchdog_stop s =
    if not s.mutex_ready then s else if not s.enabled then s else record s { enabled = false }

unfoldable pub is_running : Watchdog → Bool
is_running s = if not s.mutex_ready then false else s.enabled

unfoldable pub watchdog_destroy : Watchdog → Watchdog
unfolding watchdog_stop
watchdog_destroy s = record (watchdog_stop s) {
  gpio_mapped = false;
  iomux_mapped = false;
  mem_open = false;
  mutex_ready = false;
}
