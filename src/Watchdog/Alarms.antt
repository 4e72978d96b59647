-- ===== src/Watchdog/Alarms.antt =====
-- Whatever the order of the calls, a running watchdog's registers are mapped, so that no feed fails.
use dpb_s_mgmt.Base.{
  general, ◌≡◌, refl, sym, ◌∙◌, Bool, true, false, List, [], ◌∷◌, ◌++◌, if◌then◌else◌, not,
  Bool-cases, inl, inr, Result, ok, err, arith, leb,
}
use dpb_s_mgmt.Watchdog.{
  Bits, after_feed, Watchdog, Answers, GpioConfig, AlarmCall, mmap_init, configure_iomux,
  gpio_set_direction, gpio_set_value, and_then, watchdog_gpio_init, watchdog_feed, thread_round,
  watchdog_init, watchdog_start, watchdog_stop, watchdog_destroy, base_good,
}

-- The calls of the module, a round of its thread among them.
pub data Call : Type 0 where
  init : Answers → GpioConfig → Call
  start : Bool → Call
  stop destroy round : Call

-- A call's effect on the state, and the alarm calls that it makes.
unfoldable pub step : Call → Watchdog → Watchdog × List AlarmCall
step (init a config) s = ((watchdog_init a config s).1, [])
step (start created) s = ((watchdog_start created s).1, [])
step stop s = (watchdog_stop s, [])
step destroy s = (watchdog_destroy s, [])
step round s = thread_round s

unfoldable pub run : List Call → Watchdog → Watchdog × List AlarmCall
unfolding step
run [] s = (s, [])
run (c ∷ calls) s =
    let (s', now) = step c s in let (s'', later) = run calls s' in (s'', now ++ later)

-- A running watchdog is initialised, and an initialised one's registers are mapped.
pub record IsSound (s : Watchdog) : Type 0 where
  pub running : s.enabled ≡ true → s.mutex_ready ≡ true
  pub mapped : s.mutex_ready ≡ true → s.gpio_mapped ≡ true
  pub no_fails : s.consecutive_feed_fails ≡ 0

-- The flags and counts that the GPIO functions leave alone.
record Keeps (s s' : Watchdog) : Type 0 where
  enabled : s'.enabled ≡ s.enabled
  ready : s'.mutex_ready ≡ s.mutex_ready
  fails : s'.consecutive_feed_fails ≡ s.consecutive_feed_fails
  mapped : s'.gpio_mapped ≡ s.gpio_mapped

same : (s : Watchdog) → Keeps s s
same s = record { enabled = refl; ready = refl; fails = refl; mapped = refl }

trans : {a b c : Watchdog} → Keeps a b → Keeps b c → Keeps a c
trans k l = record {
  enabled = l.enabled ∙ k.enabled;
  ready = l.ready ∙ k.ready;
  fails = l.fails ∙ k.fails;
  mapped = l.mapped ∙ k.mapped;
}

if-Keeps :
    {A : Type 0} (f : A → Watchdog) (s : Watchdog) (b : Bool) (x y : A)
    → Keeps s (f x)
    → Keeps s (f y)
    → Keeps s (f (if b then x else y))
if-Keeps f s true x y hx hy = hx
if-Keeps f s false x y hx hy = hy

kept :
    (s s' : Watchdog)
    → s'.enabled ≡ s.enabled
    → s'.mutex_ready ≡ s.mutex_ready
    → s'.consecutive_feed_fails ≡ s.consecutive_feed_fails
    → s'.gpio_mapped ≡ s.gpio_mapped
    → Keeps s s'
kept s s' a b c d = record { enabled = a; ready = b; fails = c; mapped = d }

mmap_init-Keeps : (opens maps : Bool) (s : Watchdog) → Keeps s (mmap_init opens maps s).0
unfolding mmap_init
mmap_init-Keeps opens maps s =
    let f : Watchdog × Bool → Watchdog = λ p. p.0 in
    if-Keeps f s s.mem_open (s, maps) _ (same s)
      (if-Keeps f s opens (record s { mem_open = true }, maps) (s, false)
        (kept s _ refl refl refl refl) (same s))

abbrev state_of : Result (Unit {0}) × Watchdog → Watchdog
state_of o = o.1

set_direction-Keeps : (high : Bool) (s : Watchdog) → Keeps s (gpio_set_direction high s).1
unfolding gpio_set_direction
set_direction-Keeps high s =
    if-Keeps state_of s (not (base_good s.gpio)) (err general, s) _ (same s)
      (if-Keeps state_of s (not s.gpio_mapped) (err general, s) _ (same s)
        (kept s _ refl refl refl refl))

set_value-Keeps : (high : Bool) (s : Watchdog) → Keeps s (gpio_set_value high s).1
unfolding gpio_set_value
set_value-Keeps high s =
    if-Keeps state_of s (not (base_good s.gpio)) (err general, s) _ (same s)
      (if-Keeps state_of s (not s.gpio_mapped) (err general, s) _ (same s)
        (kept s _ refl refl refl refl))

configure_iomux-Keeps : (a : Answers) (s : Watchdog) → Keeps s (configure_iomux a s).1
unfolding configure_iomux
configure_iomux-Keeps a s =
    let f : Watchdog × Bool → Watchdog = λ p. p.0 in
    let opened = mmap_init a.mem_opens a.iomux_maps s in
    let first : (Watchdog × Bool) = if s.iomux_mapped then (s, true) else opened in
    let k : Keeps s first.0 =
      if-Keeps f s s.iomux_mapped (s, true) opened (same s)
        (mmap_init-Keeps a.mem_opens a.iomux_maps s) in
    if-Keeps state_of s (not first.1) (err general, first.0) _ k
      (trans k (kept first.0 _ refl refl refl refl))

and_then-Keeps :
    (next : Watchdog → Result (Unit {0}) × Watchdog) (s : Watchdog)
    (o : Result (Unit {0}) × Watchdog)
    → ((s : Watchdog) → Keeps s (next s).1)
    → Keeps s o.1
    → Keeps s (and_then next o).1
and_then-Keeps next s (err e, s') h k = k
and_then-Keeps next s (ok u, s') h k = trans k (h s')

-- `watchdog_gpio_init` changes neither flag, and has mapped the registers where it succeeds.
record Prepared (s : Watchdog) (o : Result (Unit {0}) × Watchdog) : Type 0 where
  enabled : o.1.enabled ≡ s.enabled
  ready : o.1.mutex_ready ≡ s.mutex_ready
  mapped : o.0 ≡ ok tt → o.1.gpio_mapped ≡ true
  fails : o.1.consecutive_feed_fails ≡ s.consecutive_feed_fails

abbrev configured : Answers → Watchdog → Result (Unit {0}) × Watchdog
configured a s =
    and_then (gpio_set_value false) (and_then (gpio_set_direction true) (configure_iomux a s))

configured-Keeps : (a : Answers) (s : Watchdog) → Keeps s (configured a s).1
configured-Keeps a s =
    and_then-Keeps (gpio_set_value false) s
      (and_then (gpio_set_direction true) (configure_iomux a s)) (set_value-Keeps false)
      (and_then-Keeps (gpio_set_direction true) s (configure_iomux a s) (set_direction-Keeps true)
        (configure_iomux-Keeps a s))

mapped-Prepared :
    (a : Answers) (s t : Watchdog) (b : Bool)
    → Keeps s t
    → Prepared s (
        if not b
        then (err general, record t { gpio_mapped = b })
        else configured a (record t { gpio_mapped = b }))
mapped-Prepared a s t false k = record {
  enabled = k.enabled;
  ready = k.ready;
  mapped = λ e. cc;
  fails = k.fails;
}
mapped-Prepared a s t true k =
    let rest = configured-Keeps a (record t { gpio_mapped = true }) in
    record {
      enabled = rest.enabled ∙ k.enabled;
      ready = rest.ready ∙ k.ready;
      mapped = λ e. rest.mapped;
      fails = rest.fails ∙ k.fails;
    }

gpio_init-Prepared : (a : Answers) (s : Watchdog) → Prepared s (watchdog_gpio_init a s)
unfolding watchdog_gpio_init
gpio_init-Prepared a s =
    let first = mmap_init a.mem_opens a.gpio_maps s in
    mapped-Prepared a s first.0 first.1 (mmap_init-Keeps a.mem_opens a.gpio_maps s)

abbrev finished : Bool → Watchdog → Result (Unit {0}) × Watchdog → Result (Unit {0}) × Watchdog
finished made z (res, s) =
    if not made
    then (err general, z)
    else elim res [ ok u ↦ (ok tt, s) | err e ↦ (err general, record s { mutex_ready = false }) ]

finished-IsSound :
    (s : Watchdog) (made : Bool) (z : Watchdog) (o : Result (Unit {0}) × Watchdog)
    → Prepared s o
    → s.enabled ≡ false
    → s.consecutive_feed_fails ≡ 0
    → s.mutex_ready ≡ true
    → IsSound z
    → IsSound (finished made z o).1
finished-IsSound s false z o p off zero ready sound = sound
finished-IsSound s true z (err e, s') p off zero ready sound = record {
  running = λ on. let bad : true ≡ false = sym on ∙ p.enabled ∙ off in cc;
  mapped = λ m. cc;
  no_fails = p.fails ∙ zero;
}
finished-IsSound s true z (ok u, s') p off zero ready sound = record {
  running = λ on. p.ready ∙ ready;
  mapped = λ m. p.mapped refl;
  no_fails = p.fails ∙ zero;
}

init-IsSound :
    (a : Answers) (config : GpioConfig) (s : Watchdog)
    → IsSound s
    → IsSound (watchdog_init a config s).1
unfolding watchdog_init
init-IsSound a config s h =
    let zeroed : Watchdog = record s {
      enabled = false;
      feed_count = 0;
      consecutive_feed_fails = 0;
    } in
    let ready : Watchdog = record zeroed { mutex_ready = true; gpio = config } in
    finished-IsSound ready a.mutex_made zeroed (watchdog_gpio_init a ready)
      (gpio_init-Prepared a ready) refl refl refl
      (record { running = λ on. cc; mapped = h.mapped; no_fails = refl })

start-IsSound : (created : Bool) (s : Watchdog) → IsSound s → IsSound (watchdog_start created s).1
unfolding watchdog_start
start-IsSound created s h = elim (Bool-cases s.mutex_ready) [
  | inr unready ↦ simp unready h
  | inl ready ↦ elim (Bool-cases s.enabled) [
    | inl on ↦ simp (ready, on) h
    | inr off ↦
        simp (ready, off)
          record { running = λ on. refl; mapped = λ m. h.mapped ready; no_fails = refl }
  ]
]

stop-IsSound : (s : Watchdog) → IsSound s → IsSound (watchdog_stop s)
unfolding watchdog_stop
stop-IsSound s h = elim (Bool-cases s.mutex_ready) [
  | inr unready ↦ simp unready h
  | inl ready ↦ elim (Bool-cases s.enabled) [
    | inl on ↦
        simp (ready, on)
          record { running = λ on. cc; mapped = λ m. h.mapped ready; no_fails = h.no_fails }
    | inr off ↦ simp (ready, off) h
  ]
]

-- A stopped watchdog is not enabled, since only an initialised one ever is.
stop-enabled : (s : Watchdog) → IsSound s → (watchdog_stop s).enabled ≡ false
unfolding watchdog_stop
stop-enabled s h = elim (Bool-cases s.enabled) [
  | inl on ↦ let ready = h.running on in simp (ready, on) refl
  | inr off ↦ ground arith
]

destroy-IsSound : (s : Watchdog) → IsSound s → IsSound (watchdog_destroy s)
unfolding watchdog_destroy
destroy-IsSound s h = record {
  running = λ on. let bad : true ≡ false = sym on ∙ stop-enabled s h in cc;
  mapped = λ m. cc;
  no_fails = (stop-IsSound s h).no_fails;
}

-- A feed on mapped registers succeeds, and changes a data register only.
feed-mapped :
    (s : Watchdog)
    → s.gpio_mapped ≡ true
    → (dr : Bool → Bits) × (watchdog_feed s ≡ (ok tt, record s { dr = dr }))
unfolding watchdog_feed
feed-mapped s mapped = ((watchdog_feed s).1.dr, simp mapped refl)

round-IsSound : (s : Watchdog) → IsSound s → IsSound (thread_round s).0 × ((thread_round s).1 ≡ [])
unfolding thread_round after_feed
round-IsSound s h = elim (Bool-cases s.enabled) [
  | inr off ↦ (simp off h, simp off refl)
  | inl on_ ↦
      let (dr, fed) = feed-mapped s (h.mapped (h.running on_)) in
      let quiet : leb 3 s.consecutive_feed_fails ≡ false = rw (h.no_fails) refl in
      (
        simp (on_, fed)
            record { running = λ on. h.running on_; mapped = h.mapped; no_fails = refl },
        simp (on_, fed, quiet) refl,
      )
]

step-IsSound : (c : Call) (s : Watchdog) → IsSound s → IsSound (step c s).0 × ((step c s).1 ≡ [])
unfolding step
step-IsSound (init a config) s h = (init-IsSound a config s h, refl)
step-IsSound (start created) s h = (start-IsSound created s h, refl)
step-IsSound stop s h = (stop-IsSound s h, refl)
step-IsSound destroy s h = (destroy-IsSound s h, refl)
step-IsSound round s h = round-IsSound s h

-- From a state in which a running watchdog is initialised, the registers of an initialised one are
-- mapped, and no feed has failed, every sequence of calls and rounds of the thread keeps that so, and
-- never calls the alarm manager: the alarm 1161 for failing feeds is neither raised nor cleared.
pub run-silent :
    (calls : List Call) (s : Watchdog)
    → IsSound s
    → IsSound (run calls s).0 × ((run calls s).1 ≡ [])
unfolding run
run-silent [] s h = (h, refl)
run-silent (c ∷ calls) s h =
    let (sound, quiet) = step-IsSound c s h in
    let (rest, later) = run-silent calls (step c s).0 sound in (rest, rw (quiet, later) refl)
