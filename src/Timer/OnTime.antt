-- ===== src/Timer/OnTime.antt =====
-- What a client of libsax/sax/timer.c relies on: a timer fires when its delay has passed.
use xlibsax.Prelude.{
  ℕ, ◌^◌, ◌≤◌, ◌<◌, ◌≡◌, refl, sym, ap, ◌∙◌, true, Option, some, List, [], arith, length, All, On,
  add32, sub32, some-eq,
}
use xlibsax.Pool.Xslab
use xlibsax.Timer.{Node, Timer, Request, create2, start, tick, poll}
use xlibsax.Timer.Wheel.{strictly}
use xlibsax.Timer.Keep.{Has}
use xlibsax.Timer.Start.{Valid, Keeps, due_ring, start_total}
use xlibsax.Timer.Serve.{IsPolite, IsGentle}
use xlibsax.Timer.Tick.{Fires, advanced, tick_total}
use xlibsax.Timer.Poll.{poll_total}

-- A timer that `g_timer_create2` returns is valid, has the clock that was asked for and holds no
-- node; it counts none and has fired none.
pub create2-Valid :
    (now : ℕ) {t : Timer}
    → now < 2 ^ 32
    → create2 true true true now ≡ some (some t)
    → Valid strictly t × (t.last ≡ now) × (t.count ≡ 0) × ((n : Node) → ¬ (Has t.wheel n))
unfolding create2 Xslab.init
create2-Valid now {t} h e =
    let e' : fresh ≡ t = cc in
    rw (← e') (
      record {
        clock = h;
        pool = record { counted = refl; wide = omega arith };
        placed = λ lv i. tt;
      },
      refl,
      refl,
      λ n (has : Has fresh.wheel n). has.2,
    )
  where
    fresh : Timer
    fresh = record {
      wheel = λ lv i. [];
      pool = record {
        free_list = [];
        usable_amount = 0;
        shrink_amount = 0;
        alloc_size = 40;
        freed = [];
      };
      last = now;
      count = 0;
      fired = [];
    }

-- A round of `g_timer_poll` on a valid timer whose callbacks ask for delays between 1 and
-- 2 ^ 32 - 1: with more fuel than the due ring has nodes it returns, the timer it leaves is valid,
-- the clock has moved by one, and every callback that it ran belongs to a node expiring now.
pub tick_exact :
    (func : Node → List Request) (fuel : ℕ) (t : Timer)
    → (polite : (n : Node) → All IsPolite (func n)) → Valid strictly t
    → length (due_ring (advanced t)) < fuel
    → (t' : Timer) × (tick func fuel t ≡ some t') × Fires (advanced t) t'
tick_exact func fuel t polite v h =
    let (t', run, o, keep) = tick_total func polite fuel t v h in (t', run, o)

module _ (func : Node → List Request) (polite : (n : Node) → All IsPolite (func n))
    (gentle : (n : Node) → All IsGentle (func n)) where
  -- `g_timer_start` with a delay between 1 and 2 ^ 32 - 1 on a valid timer, followed by `lapsed`
  -- ticks whose callbacks start timers with such delays and cancel none: with enough fuel polling
  -- returns; while `lapsed` is below the delay the node still stands on the wheel, and from the
  -- delay on its callback has run.
  pub start_on_time :
      (t t₁ : Timer) (answer : Option ℕ) (delay data' p lapsed : ℕ)
      → Valid strictly t
      → 1 ≤ delay
      → delay < 2 ^ 32
      → start t answer delay data' ≡ some (some p, t₁)
      → lapsed < 2 ^ 32
      → let n : Node = record { addr = p; user_data = data'; expire = add32 t.last delay } in
        (bound : ℕ) × (t' : Timer) × ((fuel : ℕ)
          → bound ≤ fuel
          → poll func fuel lapsed t₁ ≡ some t')
        × (lapsed < delay → Has t'.wheel n)
        × (delay ≤ lapsed → On n t'.fired)
  start_on_time t t₁ answer delay data' p lapsed v lo hi e hl =
      let (r, run, k, keep, has) =
        start_total strictly (λ lv. omega arith) t answer delay data' v lo hi in
      let q : r ≡ (some p, t₁) = some-eq (sym run ∙ e) in
      let q₁ : r.1 ≡ t₁ = ap (λ (x : Option ℕ × Timer). x.1) q in
      let k₁ : Keeps strictly t t₁ = rw q₁ at k in
      let here = rw q₁ at (has p (ap (λ (x : Option ℕ × Timer). x.0) q)) in
      let (bound, t', run', o) = poll_total func polite gentle lapsed t₁ k₁.valid hl in
      let left : sub32 (add32 t.last delay) t₁.last ≡ delay = omega (arith, k₁.last, v.clock) in
      (bound, t', run', λ h. o.early _ here (omega arith), λ h. o.due _ here (omega arith))
