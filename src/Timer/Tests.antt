-- ===== src/Timer/Tests.antt =====
-- Runs of the timer of libsax/sax/timer.c.
use xlibsax.Prelude.{
  ℕ, ◌≤◌, ◌<◌, ◌≡◌, refl, true, false, Option, none, some, List, [], ◌∷◌, map, arith, On, ◌==◌,
  if◌then◌else◌,
}
use xlibsax.Pool.Xslab
use xlibsax.Timer.{
  Node, lv1, Timer, Request, starts, create2, start, cancel, tick, poll, fire, cascade, schedule,
  reschedule, level_of, pending, fire_node, serve, serve_all,
}
use xlibsax.Timer.Wheel.{strictly, put_ring-All}
use xlibsax.Timer.Place.{IsPlaced}
use xlibsax.Timer.Keep.{Has}
use xlibsax.Timer.Start.{Valid}
use xlibsax.Timer.Tick.{Fires, advanced}
use xlibsax.Timer.OnTime.{create2-Valid, tick_exact, start_on_time}

abbrev fresh : Timer
fresh = record {
  wheel = λ lv i. [];
  pool = record {
    free_list = [];
    usable_amount = 0;
    shrink_amount = 0;
    alloc_size = 40;
    freed = [];
  };
  last = 250;
  count = 0;
  fired = [];
}

fresh_made : create2 true true true 250 ≡ some (some fresh)
unfolding create2 Xslab.init
fresh_made = refl

-- A failed `malloc` of the rings is not tested for.
create2_faults : create2 true false true 0 ≡ none
unfolding create2 Xslab.init
create2_faults = refl

program : Unit {0}
unfolding Xslab.alloc Xslab.free start cancel pending schedule level_of serve serve_all fire_node
    fire reschedule cascade tick poll
program = tt

-- Timers of 1 and 300 ticks; the callback of the first starts another of 2.
abbrev script : Node → List Request
script n = if n.user_data == 1 then starts (some 48) 2 3 ∷ [] else []

abbrev data_of : Option Timer → Option (List ℕ × ℕ × ℕ)
data_of none = none
data_of (some t) = some (map (λ (n : Node). n.user_data) t.fired, t.last, t.count)

abbrev session : ℕ → Option Timer
session lapsed = elim (start fresh (some 16) 1 1) [
  | none ↦ none
  | some (h, t) ↦ elim (start t (some 32) 300 2) [
    | none ↦ none
    | some (h, u) ↦ poll script 9 lapsed u
  ]
]

session_start : data_of (session 2) ≡ some (1 ∷ [], 252, 2)
unfolding program
session_start = refl

session_all : data_of (session 300) ≡ some (1 ∷ 3 ∷ 2 ∷ [], 550, 0)
unfolding program
session_all = refl

-- A delay of zero waits for a whole turn of the lowest wheel.
abbrev zero_delay : ℕ → Option (List ℕ × ℕ × ℕ)
zero_delay lapsed = elim (start fresh (some 16) 0 7) [
  | none ↦ none
  | some (h, t) ↦ data_of (poll (λ n. []) 9 lapsed t)
]

zero_delay_late : zero_delay 255 ≡ some ([], 505, 1)
unfolding program
zero_delay_late = refl

zero_delay_fires : zero_delay 256 ≡ some (7 ∷ [], 506, 0)
unfolding program
zero_delay_fires = refl

-- The timer after `g_timer_start` with a delay of one tick.
abbrev one_tick : Timer
one_tick = record fresh {
  wheel = schedule fresh.wheel (record { addr = 16; user_data = 1; expire = 251 }) 1;
  count = 1;
}

one_tick_started : start fresh (some 16) 1 1 ≡ some (some 16, one_tick)
unfolding start Xslab.alloc
one_tick_started = refl

start_on_time_example :
    let n : Node = record { addr = 16; user_data = 1; expire = 251 } in
    (bound : ℕ) × (t' : Timer) × ((fuel : ℕ)
      → bound ≤ fuel
      → poll (λ n. []) fuel 1 one_tick ≡ some t')
    × (1 < 1 → Has t'.wheel n)
    × (1 ≤ 1 → On n t'.fired)
start_on_time_example =
    start_on_time (λ n. []) (λ n. tt) (λ n. tt) fresh one_tick (some 16) 1 1 16 1
      (create2-Valid 250 (omega arith) fresh_made).0 (omega arith) (omega arith) one_tick_started
      (omega arith)

one_tick-Valid : Valid strictly one_tick
unfolding schedule level_of
one_tick-Valid = record {
  clock = omega arith;
  pool = record { counted = refl; wide = omega arith };
  placed =
      put_ring-All (λ lv j m. IsPlaced 1 250 lv j m.expire) fresh.wheel lv1 251
        (record { addr = 16; user_data = 1; expire = 251 } ∷ []) (λ lv i. tt) (omega arith);
}

tick_exact_example :
    (t' : Timer) × (tick (λ n. []) 2 one_tick ≡ some t') × Fires (advanced one_tick) t'
tick_exact_example =
    tick_exact (λ n. []) 2 one_tick (λ n. tt) one_tick-Valid (unfold program in omega arith)
