-- ===== src/Timer/Wheel.antt =====
-- The whole wheel of libsax/sax/timer.c: `schedule`, `reschedule` and the cascade of `g_timer_poll` keep
-- every node where it may stand.
use xlibsax.Prelude.{
  ℕ, ◌^◌, ◌≤◌, ◌<◌, ◌≡◌, refl, ◌≢◌, inl, inr, true, ◌&&◌, List, [], ◌∷◌, arith, All, All-map, ◌==◌,
  if◌then◌else◌, ==_ne, Bool-cases, sub32,
}
use xlibsax.Timer.{
  Node, Level, lv1, lv2, lv3, lv4, Wheel, same_level, put_ring, level_of, slot_of, schedule,
  reschedule_nodes, reschedule,
}
use xlibsax.Timer.Place.{IsPlaced, IsDue, IsPlaced-ahead, ahead, level_of-Serves, Serves-IsPlaced}

-- Every node stands where it may, at a distance of at least `f lv`.
abbrev pub Holds : (Level → ℕ) → ℕ → Wheel → Type 0
Holds f now w =
    (lv : Level) (i : ℕ) → All (λ (n : Node). IsPlaced (f lv) now lv i n.expire) (w lv i)

-- The floors before the cascade, after it, and between two ticks.
abbrev pub anywhere : Level → ℕ
anywhere lv = 0

abbrev pub settled : Level → ℕ
settled lv = ahead lv 0

abbrev pub strictly : Level → ℕ
strictly lv = 1

abbrev pub raise : (Level → ℕ) → Level → Level → ℕ
raise f lv lv' = if same_level lv lv' then 1 else f lv'

pub same_level_refl : (lv : Level) → same_level lv lv ≡ true
same_level_refl lv1 = refl
same_level_refl lv2 = refl
same_level_refl lv3 = refl
same_level_refl lv4 = refl

pub same_level-eq : (lv lv' : Level) → same_level lv lv' ≡ true → lv ≡ lv'
same_level-eq lv1 lv1 h = refl
same_level-eq lv2 lv2 h = refl
same_level-eq lv3 lv3 h = refl
same_level-eq lv4 lv4 h = refl
same_level-eq _ _ h = cc

pub same_ring :
    (lv lv' : Level) (i j : ℕ) → (same_level lv lv' && i == j) ≡ true → (lv ≡ lv') × (i ≡ j)
same_ring lv lv' i j h = (same_level-eq lv lv' (ground (arith, h)), ground (arith, h))

-- A statement about each ring survives a write that satisfies it.
pub put_ring-All :
    (P : Level → ℕ → Node → Type 0) (w : Wheel) (lv : Level) (i : ℕ) (ring : List Node)
    → ((lv' : Level) (j : ℕ) → All (P lv' j) (w lv' j))
    → All (P lv i) ring
    → (lv' : Level) (j : ℕ) → All (P lv' j) (put_ring w lv i ring lv' j)
put_ring-All P w lv i ring h k lv' j = elim (Bool-cases (same_level lv lv' && i == j)) [
  | inl e ↦ let (p, q) = same_ring lv lv' i j e in rw e (rw (← p, ← q) k)
  | inr e ↦ rw e (h lv' j)
]

-- The floors that the wheel has in any phase: nothing below the lowest level is guaranteed
-- while nodes move.
pub record Floors (f : Level → ℕ) : Type 0 where
  pub low : f lv1 ≡ 0
  pub unit : (lv : Level) → f lv ≤ 1

floor-le : (f : Level → ℕ) (lv : Level) → Floors f → f lv ≤ ahead lv 0
floor-le f lv1 h = omega (arith, h.low)
floor-le f lv2 h = h.unit lv2
floor-le f lv3 h = h.unit lv3
floor-le f lv4 h = h.unit lv4

-- `schedule` of a node with any delay left.
pub schedule-Holds :
    (f : Level → ℕ) (now : ℕ) (w : Wheel) (n : Node)
    → Floors f
    → now < 2 ^ 32
    → n.expire < 2 ^ 32
    → Holds f now w
    → Holds f now (schedule w n (sub32 n.expire now))
unfolding schedule
schedule-Holds f now w n fl hn he h =
    let tgt = level_of (sub32 n.expire now) in
    let i = slot_of tgt n.expire in
    let fits =
      Serves-IsPlaced 0 now tgt n.expire hn he (omega arith) (omega arith)
        (level_of-Serves (sub32 n.expire now) (omega arith)) in
    put_ring-All (λ lv j m. IsPlaced (f lv) now lv j m.expire) w tgt i (n ∷ w tgt i) h
      ((fits.0, fits.1, omega (arith, floor-le f tgt fl, fits.2), fits.3), h tgt i)

reschedule_nodes-Holds :
    (f : Level → ℕ) (now : ℕ) (ns : List Node) (w : Wheel)
    → Floors f
    → now < 2 ^ 32
    → All (λ (n : Node). n.expire < 2 ^ 32) ns
    → Holds f now w
    → Holds f now (reschedule_nodes w ns now)
unfolding reschedule_nodes
reschedule_nodes-Holds f now [] w fl hn hs h = h
reschedule_nodes-Holds f now (n ∷ ns) w fl hn hs h =
    reschedule_nodes-Holds f now ns (schedule w n (sub32 n.expire now)) fl hn hs.1
      (schedule-Holds f now w n fl hn hs.0 h)

-- Emptying the ring that is due makes a whole level strictly ahead.
clear-Holds :
    (f : Level → ℕ) (now : ℕ) (w : Wheel) (lv : Level) (i : ℕ)
    → now < 2 ^ 32
    → f lv ≡ 0
    → ((j : ℕ) → i ≢ j → ¬ (IsDue now lv j))
    → Holds f now w
    → Holds (raise f lv) now (put_ring w lv i [])
clear-Holds f now w lv i hn hf hd h lv' j = elim (Bool-cases (same_level lv lv')) [
  | inr other ↦ rw other (h lv' j)
  | inl same ↦ elim (Bool-cases (i == j)) [
    | inl e ↦ rw (same, e) tt
    | inr e ↦ rw (same, e) (far (same_level-eq lv lv' same) (==_ne i j e))
  ]
]
  where
    far : lv ≡ lv' → i ≢ j → All (λ (n : Node). IsPlaced 1 now lv' j n.expire) (w lv' j)
    far p ne = rw (← p) (
        All-map (λ (n : Node). IsPlaced (f lv) now lv j n.expire) _ (w lv j)
          (λ n q. IsPlaced-ahead now lv j n.expire hn (hd j ne) (rw hf at q)) (h lv j))

pub reschedule-Holds :
    (f : Level → ℕ) (now : ℕ) (w : Wheel) (lv : Level) (i : ℕ)
    → Floors f
    → now < 2 ^ 32
    → f lv ≡ 0
    → ((j : ℕ) → i ≢ j → ¬ (IsDue now lv j))
    → Holds f now w
    → Holds (raise f lv) now (reschedule w lv i now)
unfolding reschedule
reschedule-Holds f now w lv i fl hn hf hd h =
    clear-Holds f now (reschedule_nodes w (w lv i) now) lv i hn hf hd (
      reschedule_nodes-Holds f now (w lv i) w fl hn
        (All-map (λ (n : Node). IsPlaced (f lv) now lv i n.expire) _ (w lv i) (λ n q. q.0) (h lv i))
        h)

-- A level none of whose slots comes up is strictly ahead as it is.
pub quiet-Holds :
    (f : Level → ℕ) (now : ℕ) (w : Wheel) (lv : Level)
    → now < 2 ^ 32
    → f lv ≡ 0
    → ((j : ℕ) → ¬ (IsDue now lv j))
    → Holds f now w
    → Holds (raise f lv) now w
quiet-Holds f now w lv hn hf hd h lv' j = elim (Bool-cases (same_level lv lv')) [
  | inr other ↦ rw other (h lv' j)
  | inl same ↦ rw same (far (same_level-eq lv lv' same))
]
  where
    far : lv ≡ lv' → All (λ (n : Node). IsPlaced 1 now lv' j n.expire) (w lv' j)
    far p = rw (← p) (
        All-map (λ (n : Node). IsPlaced (f lv) now lv j n.expire) _ (w lv j)
          (λ n q. IsPlaced-ahead now lv j n.expire hn (hd j) (rw hf at q)) (h lv j))
