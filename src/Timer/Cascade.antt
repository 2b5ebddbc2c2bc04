-- ===== src/Timer/Cascade.antt =====
-- The rings that one tick of `g_timer_poll` (libsax/sax/timer.c) reschedules.
use xlibsax.Prelude.{
  ℕ, ◌/◌, ◌%◌, ◌^◌, ◌≤◌, ◌<◌, ◌≡◌, refl, ◌≢◌, inl, inr, arith, ◌==◌, ==_ne, Bool-cases,
}
use xlibsax.Timer.{Node, Level, lv1, lv2, lv3, lv4, Wheel, cascade, reschedule}
use xlibsax.Timer.Keep.{Has, reschedule-Has}
use xlibsax.Timer.Wheel.{Holds, anywhere, settled, raise, Floors, reschedule-Holds, quiet-Holds}

abbrev after4 : Level → ℕ
after4 = raise anywhere lv4

abbrev after3 : Level → ℕ
after3 = raise after4 lv3

abbrev after2 : Level → ℕ
after2 = raise after3 lv2

floors0 : Floors anywhere
floors0 = record { low = refl; unit = λ lv. omega arith }

floors4 : Floors after4
floors4 = record { low = refl; unit = go }
  where
    go : (lv : Level) → after4 lv ≤ 1
    go lv1 = omega arith
    go lv2 = omega arith
    go lv3 = omega arith
    go lv4 = omega arith

floors3 : Floors after3
floors3 = record { low = refl; unit = go }
  where
    go : (lv : Level) → after3 lv ≤ 1
    go lv1 = omega arith
    go lv2 = omega arith
    go lv3 = omega arith
    go lv4 = omega arith

to_settled : (now : ℕ) (w : Wheel) → Holds after2 now w → Holds settled now w
to_settled now w h lv1 = h lv1
to_settled now w h lv2 = h lv2
to_settled now w h lv3 = h lv3
to_settled now w h lv4 = h lv4

module _ (now : ℕ) (hn : now < 2 ^ 32) where
  quiet4 : (w : Wheel) → now % 2 ^ 24 ≢ 0 → Holds anywhere now w → Holds after4 now w
  quiet4 w ne h = quiet-Holds anywhere now w lv4 hn refl (λ j d. ne (omega arith)) h

  quiet3 : (w : Wheel) → now % 2 ^ 16 ≢ 0 → Holds after4 now w → Holds after3 now w
  quiet3 w ne h = quiet-Holds after4 now w lv3 hn refl (λ j d. ne (omega arith)) h

  quiet2 : (w : Wheel) → now % 2 ^ 8 ≢ 0 → Holds after3 now w → Holds after2 now w
  quiet2 w ne h = quiet-Holds after3 now w lv2 hn refl (λ j d. ne (omega arith)) h

  move4 :
      (w : Wheel)
      → Holds anywhere now w
      → Holds after4 now (reschedule w lv4 (now / 2 ^ 24 % 256) now)
  move4 w h = reschedule-Holds anywhere now w lv4 _ floors0 hn refl (λ j ne d. ne d.1) h

  move3 :
      (w : Wheel) (i : ℕ)
      → now / 2 ^ 16 % 256 ≡ i
      → Holds after4 now w
      → Holds after3 now (reschedule w lv3 i now)
  move3 w i e h = reschedule-Holds after4 now w lv3 i floors4 hn refl (λ j ne d. ne (omega arith)) h

  move2 :
      (w : Wheel) (i : ℕ)
      → now / 2 ^ 8 % 256 ≡ i
      → Holds after3 now w
      → Holds after2 now (reschedule w lv2 i now)
  move2 w i e h = reschedule-Holds after3 now w lv2 i floors3 hn refl (λ j ne d. ne (omega arith)) h

  -- Once the due rings are rescheduled, every node above the lowest level is ahead of the clock.
  pub cascade-Holds : (w : Wheel) → Holds anywhere now w → Holds settled now (cascade w now)
  unfolding cascade
  cascade-Holds w h = to_settled now _ (elim (Bool-cases (now % 2 ^ 8 == 0)) [
    | inr a ↦ rw a (quiet2 w (==_ne _ _ a) (quiet3 w (ground arith) (quiet4 w (ground arith) h)))
    | inl a ↦ elim (Bool-cases (now % 2 ^ 16 == 0)) [
      | inr b ↦ rw (a, b) (move2 w _ refl (quiet3 w (==_ne _ _ b) (quiet4 w (ground arith) h)))
      | inl b ↦ elim (Bool-cases (now % 2 ^ 24 == 0)) [
        | inr c ↦
            rw (a, b, c) (move2 _ 0 (ground arith) (move3 w _ refl (quiet4 w (==_ne _ _ c) h)))
        | inl c ↦ rw (a, b, c) (move2 _ 0 (ground arith) (move3 _ 0 (ground arith) (move4 w h)))
      ]
    ]
  ])

  -- The cascade loses no node.
  pub cascade-Has : (w : Wheel) (n : Node) → Holds anywhere now w → Has w n → Has (cascade w now) n
  unfolding cascade
  cascade-Has w n h o = elim (Bool-cases (now % 2 ^ 8 == 0)) [
    | inr a ↦ rw a o
    | inl a ↦ elim (Bool-cases (now % 2 ^ 16 == 0)) [
      | inr b ↦
          rw (a, b)
            (keep2 w _ refl (ground arith) (quiet3 w (ground arith) (quiet4 w (ground arith) h)) o)
      | inl b ↦ elim (Bool-cases (now % 2 ^ 24 == 0)) [
        | inr c ↦
            let h3 = quiet4 w (==_ne _ _ c) h in
            rw (a, b, c)
              (keep2 _ 0 (ground arith) (ground arith) (move3 w _ refl h3)
                (keep3 w _ refl (ground arith) h3 o))
        | inl c ↦
            let h3 = move4 w h in
            rw (a, b, c)
              (keep2 _ 0 (ground arith) (ground arith) (move3 _ 0 (ground arith) h3)
                (keep3 _ 0 (ground arith) (ground arith) h3 (keep4 w (ground arith) h o)))
      ]
    ]
  ]
    where
      keep2 :
          (w : Wheel) (i : ℕ)
          → now / 2 ^ 8 % 256 ≡ i
          → now % 2 ^ 8 ≡ 0
          → Holds after3 now w
          → Has w n
          → Has (reschedule w lv2 i now) n
      keep2 w i e d h = reschedule-Has now hn lv2 (λ q. cc) i (omega arith, e) w n (h lv2 i)

      keep3 :
          (w : Wheel) (i : ℕ)
          → now / 2 ^ 16 % 256 ≡ i
          → now % 2 ^ 16 ≡ 0
          → Holds after4 now w
          → Has w n
          → Has (reschedule w lv3 i now) n
      keep3 w i e d h = reschedule-Has now hn lv3 (λ q. cc) i (omega arith, e) w n (h lv3 i)

      keep4 :
          (w : Wheel)
          → now % 2 ^ 24 ≡ 0
          → Holds anywhere now w
          → Has w n
          → Has (reschedule w lv4 (now / 2 ^ 24 % 256) now) n
      keep4 w d h = reschedule-Has now hn lv4 (λ q. cc) _ (omega arith, refl) w n (h lv4 _)
