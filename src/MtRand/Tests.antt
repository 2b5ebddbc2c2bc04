-- ===== src/MtRand/Tests.antt =====
-- Runs of the generator of libsax/sax/mt_rand.c.
use xlibsax.Prelude.{
  ℕ, ◌+◌, ◌^◌, ◌<◌, ◌≡◌, refl, true, Option, none, some, List, arith, length, get_or, All,
}
use xlibsax.MtRand.{
  Twister, twist, init_words, init_state, read_word, twist_at, renew_loop, renew_state, temper,
  exec_rand, seeded,
}
use xlibsax.MtRand.Laws.{IsReady, seeded-IsReady}
use xlibsax.MtRand.Renew.{sequence, recurrence, renew_state_lem}

-- The generator with the seed 1.
abbrev first : Twister
first = record { state = init_state 1; left = 0; next_word = 0 }

first_made : seeded true 1 ≡ some first
unfolding seeded
first_made = refl

first-IsReady : IsReady first
first-IsReady = (seeded-IsReady 1 (omega arith) first_made).0

renew_state_lem_example :
    (new : List ℕ) × (renew_state (init_state 1) ≡ some new)
    × (length new ≡ 624)
    × All (λ w. w < 2 ^ 32) new
    × ((i : ℕ)
        → i < 624
        → get_or new i 0
          ≡ recurrence
              (sequence (init_state 1) new (i + 397))
              (sequence (init_state 1) new i)
              (sequence (init_state 1) new (i + 1)))
renew_state_lem_example = renew_state_lem (init_state 1) first-IsReady.words first-IsReady.small

-- The first output of the generator with the usual seed 5489.
abbrev output : Option (ℕ × Twister) → ℕ
output none = 0
output (some (x, mt)) = x

first_output :
    output (exec_rand (record { state = init_state 5489; left = 0; next_word = 0 })) ≡ 3499211612
unfolding exec_rand renew_state renew_loop twist_at twist read_word temper init_state init_words
first_output = refl
