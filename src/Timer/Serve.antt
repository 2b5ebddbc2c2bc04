-- ===== src/Timer/Serve.antt =====
-- `g_timer_cancel`, and what a callback may do to the timer of libsax/sax/timer.c while it fires.
use xlibsax.Prelude.{
  ℕ, ◌^◌, ◌≤◌, ◌<◌, ◌≡◌, refl, inl, inr, ◌&&◌, some, List, [], ◌∷◌, arith, length, All, ◌==◌,
  Bool-cases, Option-cases,
}
use xlibsax.Pool.Xslab
use xlibsax.Timer.{
  Node, Level, lv1, Wheel, Timer, put_ring, cancel, pending, unlink, Request, starts, cancels,
  serve, serve_all, same_level,
}
use xlibsax.Timer.Place.{IsPlaced}
use xlibsax.Timer.Wheel.{put_ring-All, same_ring}
use xlibsax.Timer.Keep.{Has}
use xlibsax.Timer.Start.{Valid, Keeps, Keeps-trans, start_total}

All-unlink : (P : Node → Type 0) (p : ℕ) (ns : List Node) → All P ns → All P (unlink p ns)
All-unlink P p [] h = tt
All-unlink P p (n ∷ ns) h = elim (Bool-cases (n.addr == p)) [
  | inl e ↦ rw e h.1
  | inr e ↦ rw e (h.0, All-unlink P p ns h.1)
]

length-unlink : (p : ℕ) (ns : List Node) → length (unlink p ns) ≤ length ns
length-unlink p [] = omega arith
length-unlink p (n ∷ ns) = ground (arith, length-unlink p ns)

length-put_ring :
    (w : Wheel) (lv lv' : Level) (i j : ℕ) (ring : List Node)
    → length ring ≤ length (w lv i)
    → length (put_ring w lv i ring lv' j) ≤ length (w lv' j)
length-put_ring w lv lv' i j ring h = elim (Bool-cases (same_level lv lv' && i == j)) [
  | inr e ↦ rw e (omega arith)
  | inl e ↦ let (p, q) = same_ring lv lv' i j e in rw e (rw (← q, ← p) h)
]

module _ (f : Level → ℕ) where
  -- `g_timer_cancel` keeps the wheel in order.
  pub cancel-Keeps : (t : Timer) (p : ℕ) → Valid f t → Keeps f t (cancel t p).1
  unfolding cancel
  cancel-Keeps t p v = elim (Option-cases (pending t.wheel p)) [
    | inl e ↦ rw (e, cancel) (record { valid = v; last = refl; fired = refl; due = omega arith })
    | inr ((lv, i, n), e) ↦
        rw (e, cancel)
          (record {
            valid = record {
              clock = v.clock;
              pool = Xslab.free-IsValid t.pool p v.pool;
              placed =
                  put_ring-All (λ lv j m. IsPlaced (f lv) t.last lv j m.expire) t.wheel lv i _
                    v.placed (All-unlink _ p (t.wheel lv i) (v.placed lv i));
            };
            last = refl;
            fired = refl;
            due = length-put_ring t.wheel lv lv1 i _ _ (length-unlink p (t.wheel lv i));
          })
  ]

-- A callback is polite if the delays that it asks for are between one tick and 32 bits.
abbrev pub IsPolite : Request → Type 0
IsPolite (starts answer delay data') = (1 ≤ delay) × (delay < 2 ^ 32)
IsPolite (cancels p) = Unit

-- It is gentle if it cancels nothing.
abbrev pub IsGentle : Request → Type 0
IsGentle (starts answer delay data') = Unit
IsGentle (cancels p) = ⊥

module _ (f : Level → ℕ) (fl : (lv : Level) → f lv ≤ 1) where
  -- A polite request does not fault and keeps the wheel in order; a gentle one keeps each node.
  pub serve_total :
      (t : Timer) (r : Request)
      → Valid f t
      → IsPolite r
      → (t' : Timer) × (serve t r ≡ some t')
        × Keeps f t t'
        × (IsGentle r → (n : Node) → Has t.wheel n → Has t'.wheel n)
  unfolding serve
  serve_total t (starts answer delay data') v p =
      let (r, run, k, keep, has) = start_total f fl t answer delay data' v p.0 p.1 in
      (r.1, rw (run, serve), k, λ g. keep)
  serve_total t (cancels p) v q = ((cancel t p).1, refl, cancel-Keeps f t p v, λ g. absurd g)

  pub serve_all_total :
      (rs : List Request) (t : Timer)
      → Valid f t
      → All IsPolite rs
      → (t' : Timer) × (serve_all t rs ≡ some t')
        × Keeps f t t'
        × (All IsGentle rs → (n : Node) → Has t.wheel n → Has t'.wheel n)
  unfolding serve_all
  serve_all_total [] t v p =
      (t, refl, record { valid = v; last = refl; fired = refl; due = omega arith }, λ g n h. h)
  serve_all_total (r ∷ rs) t v p =
      let (t₁, run₁, k₁, keep₁) = serve_total t r v p.0 in
      let (t₂, run₂, k₂, keep₂) = serve_all_total rs t₁ k₁.valid p.1 in
      (
        t₂,
        rw (run₁, serve_all) run₂,
        Keeps-trans f t t₁ t₂ k₁ k₂,
        λ g n h. keep₂ g.1 n (keep₁ g.0 n h),
      )
