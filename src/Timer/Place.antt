-- ===== src/Timer/Place.antt =====
-- Where a node may stand on the wheels of libsax/sax/timer.c: arithmetic of one node.
use xlibsax.Prelude.{
  ℕ, zero, suc, ◌+◌, ◌-◌, ◌*◌, ◌/◌, ◌^◌, ◌≤◌, ◌<◌, ◌≡◌, refl, inl, inr, arith, ltb, leb, Bool-cases,
  add32, sub32,
}
use xlibsax.Timer.{Level, lv1, lv2, lv3, lv4, level_of, slot_of}

-- What a slot of a level covers: the expiry rounded down to the level's unit.
abbrev pub due_at : Level → ℕ → ℕ
due_at lv1 e = e
due_at lv2 e = e / 2 ^ 8 * 2 ^ 8
due_at lv3 e = e / 2 ^ 16 * 2 ^ 16
due_at lv4 e = e / 2 ^ 24 * 2 ^ 24

-- The level reaches this far ahead.
abbrev pub reach : Level → ℕ
reach lv1 = 2 ^ 8
reach lv2 = 2 ^ 16
reach lv3 = 2 ^ 24
reach lv4 = 2 ^ 32

-- A node that expires at `e` may stand in slot `i` of level `lv` when the clock reads `now`: the
-- slot is its own, it comes up in `lo` ticks or more, and the node expires in fewer than `reach lv`.
abbrev pub IsPlaced : ℕ → ℕ → Level → ℕ → ℕ → Type 0
IsPlaced lo now lv i e =
    (e < 2 ^ 32)
    × (slot_of lv e ≡ i)
    × (lo ≤ sub32 (due_at lv e) now)
    × (sub32 (due_at lv e) now + (e - due_at lv e) < reach lv)

-- The slot of a level comes up at `now`.
abbrev pub IsDue : ℕ → Level → ℕ → Type 0
IsDue now lv i = (due_at lv now ≡ now) × (slot_of lv now ≡ i)

pub IsPlaced-weaken :
    (now : ℕ) (lv : Level) (i e : ℕ) → IsPlaced 1 now lv i e → IsPlaced 0 now lv i e
IsPlaced-weaken now lv i e h = omega arith

-- One tick on, every node is one tick nearer.
pub IsPlaced-next :
    (now : ℕ) (lv : Level) (i e : ℕ)
    → now < 2 ^ 32
    → IsPlaced 1 now lv i e
    → IsPlaced 0 (add32 now 1) lv i e
IsPlaced-next now lv1 i e hn h = omega arith
IsPlaced-next now lv2 i e hn h = omega arith
IsPlaced-next now lv3 i e hn h = omega arith
IsPlaced-next now lv4 i e hn h = omega arith

IsDue-zero :
    (now : ℕ) (lv : Level) (i e : ℕ)
    → now < 2 ^ 32
    → IsPlaced 0 now lv i e
    → sub32 (due_at lv e) now ≡ 0
    → IsDue now lv i
IsDue-zero now lv1 i e hn h z = (omega arith, omega arith)
IsDue-zero now lv2 i e hn h z = (omega arith, omega arith)
IsDue-zero now lv3 i e hn h z = (omega arith, omega arith)
IsDue-zero now lv4 i e hn h z = (omega arith, omega arith)

-- A slot that does not come up now holds only nodes that are still ahead.
pub IsPlaced-ahead :
    (now : ℕ) (lv : Level) (i e : ℕ)
    → now < 2 ^ 32
    → ¬ (IsDue now lv i)
    → IsPlaced 0 now lv i e
    → IsPlaced 1 now lv i e
IsPlaced-ahead now lv i e hn d h = (h.0, h.1, positive (sub32 (due_at lv e) now) refl, h.3)
  where
    positive : (m : ℕ) → sub32 (due_at lv e) now ≡ m → 1 ≤ m
    positive zero z = absurd (d (IsDue-zero now lv i e hn h z))
    positive (suc m) z = omega arith

-- The delay that is left to a node of a slot that comes up now.
abbrev pub below : Level → ℕ
below lv1 = 1
below lv2 = 2 ^ 8
below lv3 = 2 ^ 16
below lv4 = 2 ^ 24

pub sub32-due :
    (now : ℕ) (lv : Level) (i e : ℕ)
    → now < 2 ^ 32
    → IsDue now lv i
    → IsPlaced 0 now lv i e
    → sub32 e now < below lv
sub32-due now lv1 i e hn d h = omega arith
sub32-due now lv2 i e hn d h = omega arith
sub32-due now lv3 i e hn d h = omega arith
sub32-due now lv4 i e hn d h = omega arith

-- Where a level starts: a delay that `schedule` sends to a level reaches at least so far.
abbrev pub ahead : Level → ℕ → ℕ
ahead lv1 lo = lo
ahead _ lo = 1

-- The delays that `schedule` sends to a level.
abbrev pub Serves : Level → ℕ → Type 0
Serves lv1 delay = delay < 2 ^ 8
Serves lv2 delay = (2 ^ 8 ≤ delay) × (delay < 2 ^ 16)
Serves lv3 delay = (2 ^ 16 ≤ delay) × (delay < 2 ^ 24)
Serves lv4 delay = (2 ^ 24 ≤ delay) × (delay < 2 ^ 32)

pub level_of-Serves : (delay : ℕ) → delay < 2 ^ 32 → Serves (level_of delay) delay
unfolding level_of
level_of-Serves delay h = elim (Bool-cases (leb delay 0xffff)) [
  | inl near ↦ elim (Bool-cases (ltb 0xff delay)) [
    | inl p ↦ rw (near, p) (ground arith)
    | inr p ↦ rw (near, p) (ground arith)
  ]
  | inr far ↦ elim (Bool-cases (leb delay 0xffffff)) [
    | inl p ↦ rw (far, p) (ground arith)
    | inr p ↦ rw (far, p) (ground arith)
  ]
]

-- `schedule` puts a node that expires in `delay` ticks where it may stand.
pub Serves-IsPlaced :
    (lo now : ℕ) (lv : Level) (e : ℕ)
    → now < 2 ^ 32
    → e < 2 ^ 32
    → lo ≤ sub32 e now
    → lo ≤ 1
    → Serves lv (sub32 e now)
    → IsPlaced (ahead lv lo) now lv (slot_of lv e) e
Serves-IsPlaced lo now lv1 e hn he hlo hone r = omega arith
Serves-IsPlaced lo now lv2 e hn he hlo hone r = omega arith
Serves-IsPlaced lo now lv3 e hn he hlo hone r = omega arith
Serves-IsPlaced lo now lv4 e hn he hlo hone r = omega arith
