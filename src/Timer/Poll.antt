-- ===== src/Timer/Poll.antt =====
-- `g_timer_poll` of libsax/sax/timer.c over many ticks: every timer fires on time.
use xlibsax.Prelude.{
  ℕ, zero, suc, ◌^◌, ◌≤◌, ◌<◌, max, ◌≡◌, refl, ◌≢◌, inl, inr, Option, none, some, List, [], ◌∷◌,
  arith, length, All, On, On-append_left, On-append_right, ◌==◌, ==_iff, ==_ne, Bool-cases, add32,
  sub32,
}
use xlibsax.Timer.{Node, lv1, Timer, Request, fire_node, fire, tick, poll}
use xlibsax.Timer.Wheel.{strictly}
use xlibsax.Timer.Keep.{Has}
use xlibsax.Timer.Start.{Valid, due_ring}
use xlibsax.Timer.Serve.{IsPolite, IsGentle}
use xlibsax.Timer.Tick.{Fires, Has-ahead, advanced, tick_total}

-- More fuel changes nothing once `fire` returns.
fire_more :
    (func : Node → List Request) (k : ℕ) (t : Timer) (i : ℕ) {t' : Timer} (m : ℕ)
    → fire func k t i ≡ some t'
    → k ≤ m
    → fire func m t i ≡ some t'
unfolding fire
fire_more func zero t i m e h = cc
fire_more func (suc k) t i zero e h = absurd (omega arith)
fire_more func (suc k) t i {t'} (suc m) e h =
    ring (λ u e'. fire_more func k u i m e' (omega arith)) (t.wheel lv1 i) refl
  where
    node :
        ((u : Timer) → fire func k u i ≡ some t' → fire func m u i ≡ some t')
        → (n : Node) (ns : List Node) → t.wheel lv1 i ≡ n ∷ ns
        → (o : Option Timer) → fire_node func t i n ns ≡ o
        → fire func (suc m) t i ≡ some t'
    node ih n ns q none p = absurd (ground (arith, e, q, p))
    node ih n ns q (some u) p = rw (q, fire, p) (ih u (rw (q, fire, p) at e))

    ring :
        ((u : Timer) → fire func k u i ≡ some t' → fire func m u i ≡ some t')
        → (ns : List Node) → t.wheel lv1 i ≡ ns
        → fire func (suc m) t i ≡ some t'
    ring ih [] q = rw (q, fire) (rw (q, fire) at e)
    ring ih (n ∷ ns) q = node ih n ns q (fire_node func t i n ns) refl

tick_more :
    (func : Node → List Request) (k m : ℕ) (t : Timer) {t' : Timer}
    → tick func k t ≡ some t'
    → k ≤ m
    → tick func m t ≡ some t'
unfolding tick
tick_more func k m t e h = fire_more func k _ _ m e h

module _ (func : Node → List Request) (polite : (n : Node) → All IsPolite (func n))
    (gentle : (n : Node) → All IsGentle (func n)) where
  -- What `lapsed` ticks do to the timers that were pending.
  pub record Polls (t : Timer) (lapsed : ℕ) (t' : Timer) : Type 0 where
    pub valid : Valid strictly t'
    pub last : t'.last ≡ add32 t.last lapsed
    pub early : (n : Node) → Has t.wheel n → lapsed < sub32 n.expire t.last → Has t'.wheel n
    pub due : (n : Node) → Has t.wheel n → sub32 n.expire t.last ≤ lapsed → On n t'.fired
    pub kept : (n : Node) → On n t.fired → On n t'.fired

  Polls-step :
      (t t₁ t₂ : Timer) (lapsed : ℕ)
      → Valid strictly t
      → (o : Fires (advanced t) t₁)
      → ((n : Node)
          → Has t.wheel n
          → (n.expire ≡ t₁.last → On n o.news) × (n.expire ≢ t₁.last → Has t₁.wheel n))
      → Polls t₁ lapsed t₂
      → Polls t (suc lapsed) t₂
  Polls-step t t₁ t₂ lapsed v o split p = record {
    valid = p.valid;
    last = omega (arith, p.last, o.last);
    early = λ n has k.
        p.early n ((split n has).1 (λ e. omega (arith, o.last, v.clock)))
          (omega (arith, o.last, v.clock));
    due = λ n has k. elim (Bool-cases (n.expire == t₁.last)) [
      | inl e ↦
          p.kept n
            (rw o.fired (On-append_right t.fired o.news n ((split n has).0 ((==_iff _ _).0 e))))
      | inr e ↦
          p.due n ((split n has).1 (==_ne _ _ e))
            (omega (arith, o.last, v.clock, Has-ahead t n v has, ==_ne _ _ e))
    ];
    kept = λ n h. p.kept n (rw o.fired (On-append_left t.fired o.news n h));
  }

  abbrev pub Reached : Timer → ℕ → Type 0
  Reached t lapsed =
      (bound : ℕ) × (t' : Timer) × ((fuel : ℕ) → bound ≤ fuel → poll func fuel lapsed t ≡ some t')
      × Polls t lapsed t'

  pub poll_total : (lapsed : ℕ) (t : Timer) → Valid strictly t → lapsed < 2 ^ 32 → Reached t lapsed
  unfolding poll
  poll_total zero t v h = (
    0,
    t,
    λ fuel k. refl,
    record {
      valid = v;
      last = omega (arith, v.clock);
      early = λ n has k. has;
      due = λ n has k. absurd (omega (arith, Has-ahead t n v has));
      kept = λ n o. o;
    },
  )
  poll_total (suc lapsed) t v h =
      let bound₁ = suc (length (due_ring (advanced t))) in
      let (t₁, run₁, o, split) = tick_total func polite bound₁ t v (omega arith) in
      let (bound₂, t₂, run₂, p) = poll_total lapsed t₁ o.valid (omega arith) in
      (
        max bound₁ bound₂,
        t₂,
        λ fuel k.
            rw (tick_more func bound₁ fuel t run₁ (omega arith), poll) (run₂ fuel (omega arith)),
        Polls-step t t₁ t₂ lapsed v o (split gentle) p,
      )
