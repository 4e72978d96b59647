-- ===== src/Watchdog/Tests.antt =====
-- The watchdog on a concrete board.
use dpb_s_mgmt.Base.{◌≡◌, refl, true, false, List, [], ◌∷◌}
use dpb_s_mgmt.Watchdog.{Watchdog, Answers, GpioConfig}
use dpb_s_mgmt.Watchdog.Alarms.{Call, init, start, stop, destroy, round, run, IsSound, run-silent}

-- The module's variables before the first call.
abbrev fresh : Watchdog
fresh = record {
  mutex_ready = false;
  enabled = false;
  feed_count = 0;
  consecutive_feed_fails = 0;
  gpio = record {
    gpio_base = 0;
    pin_mux_offset = 0;
    mux_func_bit = 0;
    mux_pull_bit = 0;
    port = 0;
    use_portb = false;
  };
  mem_open = false;
  gpio_mapped = false;
  iomux_mapped = false;
  dr = λ group bit. false;
  ddr = λ group bit. false;
  mux = λ bit. true;
}

abbrev board : GpioConfig
board = record {
  gpio_base = 0x28004000;
  pin_mux_offset = 0x214;
  mux_func_bit = 8;
  mux_pull_bit = 10;
  port = 6;
  use_portb = true;
}

abbrev all_well : Answers
all_well = record {
  mutex_made = true;
  mem_opens = true;
  gpio_maps = true;
  iomux_maps = true;
  mux_verifies = true;
}

abbrev some_calls : List Call
some_calls =
    init all_well board
    ∷ start true
    ∷ round
    ∷ round
    ∷ stop
    ∷ round
    ∷ start true
    ∷ round
    ∷ destroy
    ∷ []

abbrev running : Watchdog
running = record fresh { mutex_ready = true; enabled = true; gpio = board; gpio_mapped = true }

fresh-IsSound : IsSound fresh
fresh-IsSound = record { running = λ on. cc; mapped = λ m. cc; no_fails = refl }

run-silent_example : IsSound (run some_calls fresh).0 × ((run some_calls fresh).1 ≡ [])
run-silent_example = run-silent some_calls fresh fresh-IsSound
