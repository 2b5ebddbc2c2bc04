-- ===== src/Timer/Start.antt =====
-- `g_timer_start`, `g_timer_cancel` and a callback's calls of them, on libsax/sax/timer.c's timer.
use xlibsax.Prelude.{
  ℕ, ◌%◌, ◌^◌, ◌≤◌, ◌<◌, ◌≡◌, refl, ap, ◌∙◌, inl, inr, ◌&&◌, Option, none, some, List, arith,
  length, On, ◌==◌, Bool-cases, add32, sub32,
}
use xlibsax.Pool.Xslab
use xlibsax.Timer.{
  Node, Level, lv1, lv2, lv3, lv4, Timer, same_level, level_of, slot_of, schedule, start,
}
use xlibsax.Timer.Place.{IsPlaced, ahead, Serves, level_of-Serves, Serves-IsPlaced}
use xlibsax.Timer.Wheel.{Holds, same_ring, put_ring-All}
use xlibsax.Timer.Keep.{Has, On-put_ring_self, schedule-On}

-- The invariant of the timer, `f` telling how far ahead the nodes of each level are at least.
pub record Valid (f : Level → ℕ) (t : Timer) : Type 0 where
  pub clock : t.last < 2 ^ 32
  pub pool : Xslab.IsValid t.pool
  pub placed : Holds f t.last t.wheel

-- The nodes that expire now, if the wheel is in order, are those of this ring.
abbrev pub due_ring : Timer → List Node
due_ring t = t.wheel lv1 (t.last % 256)

-- What a call of the interface keeps of the timer.
pub record Keeps (f : Level → ℕ) (t t' : Timer) : Type 0 where
  pub valid : Valid f t'
  pub last : t'.last ≡ t.last
  pub fired : t'.fired ≡ t.fired
  pub due : length (due_ring t') ≤ length (due_ring t)

pub Keeps-trans : (f : Level → ℕ) (t u v : Timer) → Keeps f t u → Keeps f u v → Keeps f t v
Keeps-trans f t u v h k = record {
  valid = k.valid;
  last = k.last ∙ h.last;
  fired = k.fired ∙ h.fired;
  due = omega (arith, h.due, k.due);
}

ahead_one : (lv : Level) → ahead lv 1 ≡ 1
ahead_one lv1 = refl
ahead_one lv2 = refl
ahead_one lv3 = refl
ahead_one lv4 = refl

module _ (f : Level → ℕ) (fl : (lv : Level) → f lv ≤ 1) where
  -- The node that `g_timer_start` makes.
  abbrev new_node : Timer → ℕ → ℕ → ℕ → Node
  new_node t p delay data' = record { addr = p; user_data = data'; expire = add32 t.last delay }

  started : Timer → ℕ → ℕ → ℕ → Xslab.Xslab → Timer
  started t p delay data' pool = record t {
    wheel = schedule t.wheel (new_node t p delay data') delay;
    pool = pool;
    count = add32 t.count 1;
  }

  node-IsPlaced :
      (t : Timer) (delay : ℕ)
      → t.last < 2 ^ 32
      → 1 ≤ delay
      → delay < 2 ^ 32
      → let lv = level_of delay in
        IsPlaced (f lv) t.last lv (slot_of lv (add32 t.last delay)) (add32 t.last delay)
  node-IsPlaced t delay hc lo hi =
      let lv = level_of delay in
      let e = add32 t.last delay in
      let back : sub32 e t.last ≡ delay = omega arith in
      let s : Serves lv (sub32 e t.last) = rw back (level_of-Serves delay hi) in
      let fits = Serves-IsPlaced 1 t.last lv e hc (omega arith) (omega arith) (omega arith) s in
      (fits.0, fits.1, omega (arith, fl lv, ahead_one lv, fits.2), fits.3)

  -- A timer that is started goes on no ring that is about to be fired.
  started-due :
      (t : Timer) (p delay data' : ℕ) (pool : Xslab.Xslab)
      → t.last < 2 ^ 32
      → 1 ≤ delay
      → delay < 2 ^ 32
      → due_ring (started t p delay data' pool) ≡ due_ring t
  unfolding started schedule
  started-due t p delay data' pool hc lo hi =
      elim (Bool-cases (same_level (level_of delay) lv1 && slot == t.last % 256)) [
        | inr e ↦ rw e
        | inl e ↦
            let (a, b) = same_ring (level_of delay) lv1 slot (t.last % 256) e in
            let s : Serves lv1 delay = rw a at (level_of-Serves delay hi) in
            let b' : add32 t.last delay % 256 ≡ t.last % 256 = rw a at b in absurd (omega arith)
      ]
    where
      slot : ℕ
      slot = slot_of (level_of delay) (add32 t.last delay)

  started-Keeps :
      (t : Timer) (p delay data' : ℕ) (pool : Xslab.Xslab)
      → Valid f t
      → Xslab.IsValid pool
      → 1 ≤ delay
      → delay < 2 ^ 32
      → Keeps f t (started t p delay data' pool)
  unfolding started schedule
  started-Keeps t p delay data' pool v vp lo hi = record {
    valid = record {
      clock = v.clock;
      pool = vp;
      placed =
          put_ring-All (λ lv j m. IsPlaced (f lv) t.last lv j m.expire) t.wheel (level_of delay) _ _
            v.placed (node-IsPlaced t delay v.clock lo hi, v.placed _ _);
    };
    last = refl;
    fired = refl;
    due = omega (arith, ap length (started-due t p delay data' pool v.clock lo hi));
  }

  started-Has :
      (t : Timer) (p delay data' : ℕ) (pool : Xslab.Xslab) (n : Node)
      → Has t.wheel n
      → Has (started t p delay data' pool).wheel n
  unfolding started
  started-Has t p delay data' pool n (lv, i, o) =
      (lv, i, schedule-On t.wheel (new_node t p delay data') n delay lv i o)

  started-On :
      (t : Timer) (q p delay data' : ℕ) (pool : Xslab.Xslab)
      → q ≡ p
      → On (new_node t p delay data') (
          (started t q delay data' pool).wheel
            (level_of delay)
            (slot_of (level_of delay) (add32 t.last delay)))
  unfolding started schedule
  started-On t q p delay data' pool e =
      On-put_ring_self t.wheel (level_of delay) _ _ (new_node t p delay data') (inl (cc))

  -- `g_timer_start` does not fault; a handle comes with a node that expires after the delay.
  pub start_total :
      (t : Timer) (answer : Option ℕ) (delay data' : ℕ)
      → Valid f t
      → 1 ≤ delay
      → delay < 2 ^ 32
      → (r : Option ℕ × Timer) × (start t answer delay data' ≡ some r)
        × Keeps f t r.1
        × ((n : Node) → Has t.wheel n → Has r.1.wheel n)
        × ((p : ℕ)
            → r.0 ≡ some p
            → Has r.1.wheel (record { addr = p; user_data = data'; expire = add32 t.last delay }))
  unfolding start
  start_total t answer delay data' v lo hi = go (Xslab.alloc_total t.pool answer v.pool)
    where
      Goal : Type 0
      Goal =
          (r : Option ℕ × Timer) × (start t answer delay data' ≡ some r)
          × Keeps f t r.1
          × ((n : Node) → Has t.wheel n → Has r.1.wheel n)
          × ((p : ℕ)
              → r.0 ≡ some p
              → Has r.1.wheel (record { addr = p; user_data = data'; expire = add32 t.last delay }))

      go :
          (a : Option ℕ × Xslab.Xslab) × (Xslab.alloc t.pool answer ≡ some a) × Xslab.IsValid a.1
          → Goal
      go ((none, pool), run, vp) = (
        (none, record t { pool = pool }),
        rw (run, start),
        record {
          valid = record { clock = v.clock; pool = vp; placed = v.placed };
          last = refl;
          fired = refl;
          due = omega arith;
        },
        λ n h. h,
        λ p e. cc,
      )
      go ((some q, pool), run, vp) = (
        (some q, started t q delay data' pool),
        rw (run, start) (unfold started in refl),
        started-Keeps t q delay data' pool v vp lo hi,
        started-Has t q delay data' pool,
        λ p e. (
          level_of delay,
          slot_of (level_of delay) (add32 t.last delay),
          started-On t q p delay data' pool (cc),
        ),
      )
