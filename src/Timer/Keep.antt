-- ===== src/Timer/Keep.antt =====
-- No node is lost when libsax/sax/timer.c reschedules a ring.
use xlibsax.Prelude.{
  ℕ, ◌^◌, ◌<◌, ◌≡◌, refl, ◌≢◌, inl, inr, false, ◌&&◌, List, [], ◌∷◌, arith, All, On, ◌==◌, ==_refl,
  Bool-cases, sub32,
}
use xlibsax.Timer.{
  Node, Level, lv1, lv2, lv3, lv4, Wheel, same_level, put_ring, level_of, slot_of, schedule,
  reschedule_nodes, reschedule,
}
use xlibsax.Timer.Place.{IsPlaced, IsDue, sub32-due, below, Serves, level_of-Serves}
use xlibsax.Timer.Wheel.{same_ring, same_level_refl}

-- `n` stands on some ring of the wheel.
abbrev pub Has : Wheel → Node → Type 0
Has w n = (lv : Level) × (i : ℕ) × On n (w lv i)

pub On-put_ring :
    (w : Wheel) (lv lv' : Level) (i j : ℕ) (ring : List Node) (n : Node)
    → On n (w lv' j)
    → ((lv ≡ lv') → (i ≡ j) → On n ring)
    → On n (put_ring w lv i ring lv' j)
On-put_ring w lv lv' i j ring n h k = elim (Bool-cases (same_level lv lv' && i == j)) [
  | inl e ↦ let (p, q) = same_ring lv lv' i j e in rw e (k p q)
  | inr e ↦ rw e h
]

pub On-put_ring_self :
    (w : Wheel) (lv : Level) (i : ℕ) (ring : List Node) (n : Node)
    → On n ring
    → On n (put_ring w lv i ring lv i)
On-put_ring_self w lv i ring n h = rw (same_level_refl lv, ==_refl i) h

pub schedule-On :
    (w : Wheel) (m n : Node) (d : ℕ) (lv : Level) (j : ℕ)
    → On n (w lv j)
    → On n (schedule w m d lv j)
unfolding schedule
schedule-On w m n d lv j h =
    On-put_ring w (level_of d) lv (slot_of (level_of d) m.expire) j _ n h (λ p q. inr (rw (q, p) h))

reschedule_nodes-On :
    (ns : List Node) (w : Wheel) (n : Node) (now : ℕ) (lv : Level) (j : ℕ)
    → On n (w lv j)
    → On n (reschedule_nodes w ns now lv j)
unfolding reschedule_nodes
reschedule_nodes-On [] w n now lv j h = h
reschedule_nodes-On (m ∷ ns) w n now lv j h =
    reschedule_nodes-On ns _ n now lv j (schedule-On w m n _ lv j h)

-- A node whose delay is below the unit of a level goes to a lower one.
level-lower :
    (lv tgt : Level) (d : ℕ) → lv ≢ lv1 → Serves tgt d → d < below lv → same_level lv tgt ≡ false
level-lower lv1 tgt d ne s h = absurd (ne refl)
level-lower lv2 lv2 d ne s h = absurd (omega arith)
level-lower lv3 lv3 d ne s h = absurd (omega arith)
level-lower lv4 lv4 d ne s h = absurd (omega arith)
level-lower lv2 lv1 d ne s h = refl
level-lower lv2 lv3 d ne s h = refl
level-lower lv2 lv4 d ne s h = refl
level-lower lv3 lv1 d ne s h = refl
level-lower lv3 lv2 d ne s h = refl
level-lower lv3 lv4 d ne s h = refl
level-lower lv4 lv1 d ne s h = refl
level-lower lv4 lv2 d ne s h = refl
level-lower lv4 lv3 d ne s h = refl

module _ (now : ℕ) (hn : now < 2 ^ 32) (lv : Level) (ne : lv ≢ lv1) (i : ℕ)
    (due : IsDue now lv i) where
  -- Each node of the ring that is walked ends on a ring of a lower level.
  moved :
      (ns : List Node) (w : Wheel) (n : Node)
      → All (λ (m : Node). IsPlaced 0 now lv i m.expire) ns
      → On n ns
      → (tgt : Level) × (j : ℕ) × (same_level lv tgt ≡ false)
        × On n (reschedule_nodes w ns now tgt j)
  unfolding reschedule_nodes schedule
  moved [] w n h o = absurd o
  moved (m ∷ ns) w n h (inr o) = moved ns _ n h.1 o
  moved (m ∷ ns) w n h (inl e) =
      let d = sub32 m.expire now in
      let tgt = level_of d in
      let j = slot_of tgt m.expire in
      (
        tgt,
        j,
        level-lower lv tgt d ne (level_of-Serves d (omega arith))
            (sub32-due now lv i m.expire hn due h.0),
        reschedule_nodes-On ns _ n now tgt j (On-put_ring_self w tgt j (m ∷ w tgt j) n (inl e)),
      )

  -- `reschedule` of a due ring loses no node, though it empties that ring in the end.
  pub reschedule-Has :
      (w : Wheel) (n : Node)
      → All (λ (m : Node). IsPlaced 0 now lv i m.expire) (w lv i)
      → Has w n
      → Has (reschedule w lv i now) n
  unfolding reschedule
  reschedule-Has w n h (lv', j, o) = elim (Bool-cases (same_level lv lv' && i == j)) [
    | inr e ↦ (lv', j, rw e (reschedule_nodes-On (w lv i) w n now lv' j o))
    | inl e ↦
        let (p, q) = same_ring lv lv' i j e in
        let o' : On n (w lv i) = rw (p, q) o in
        let (tgt, k, low, on) = moved (w lv i) w n h o' in (tgt, k, rw low on)
  ]
