-- ===== src/MtRand/Laws.antt =====
-- The states that the seeding of libsax/sax/mt_rand.c makes, and the calls on them.
use xlibsax.Prelude.{
  ℕ, zero, suc, ◌+◌, ◌-◌, ◌*◌, ◌/◌, ◌%◌, ◌^◌, ◌<◌, bit_xor, ◌≡◌, refl, ap, ◌⊎◌, inl, inr, true,
  some, arith, length, get_or, All, ltb, ◌==◌, if◌then◌else◌, Bool-cases, some-eq,
}
use xlibsax.MtRand.{
  Twister, state_length, init_words, init_state, temper, read_word, exec_rand, seeded,
}
use xlibsax.MtRand.Renew.{renew_state_lem}

-- The state has its words, and those that are left come next.
pub record IsReady (mt : Twister) : Type 0 where
  pub words : length mt.state ≡ 624
  pub small : All (λ w. w < 2 ^ 32) mt.state
  pub available : (mt.left ≡ 0) ⊎ (mt.left + mt.next_word ≡ 624)

length-init_words : (i r n : ℕ) → length (init_words i r n) ≡ n
unfolding init_words
length-init_words i r zero = refl
length-init_words i r (suc n) =
    ap suc (length-init_words (i + 1) ((1812433253 * bit_xor r (r / 2 ^ 30) + i) % 2 ^ 32) n)

init_words-small : (i r n : ℕ) → All (λ w. w < 2 ^ 32) (init_words i r n)
unfolding init_words
init_words-small i r zero = tt
init_words-small i r (suc n) =
    let word = (1812433253 * bit_xor r (r / 2 ^ 30) + i) % 2 ^ 32 in
    (omega arith, init_words-small (i + 1) word n)

-- A generator that `mt_seed` returns is ready, and starts with a renewal.
pub seeded-IsReady :
    (seed : ℕ) {mt : Twister}
    → seed < 2 ^ 32
    → seeded true seed ≡ some mt
    → IsReady mt × (mt.left ≡ 0)
unfolding seeded init_state
seeded-IsReady seed {mt} p h =
    let first = if seed == 0 then 5489 else seed in
    let e : record { state = init_state first; left = 0; next_word = 0 } ≡ mt = some-eq h in
    rw (← e) (
      record {
        words = ap suc (length-init_words 1 first (state_length - 1));
        small = (ground (arith, p), init_words-small 1 first (state_length - 1));
        available = inl refl;
      },
      refl,
    )

-- `exec_rand` on a ready generator reads no word out of the state and leaves a ready generator.
exec_rand-IsReady :
    (mt : Twister) → IsReady mt → (r : ℕ × Twister) × (exec_rand mt ≡ some r) × IsReady r.1
unfolding exec_rand read_word
exec_rand-IsReady mt v = elim (Bool-cases (mt.left == 0)) [
  | inl e ↦
      let (new, made, words, small, _) = renew_state_lem mt.state v.words v.small in
      let inside : ltb 0 (length new) ≡ true = ground (arith, words) in
      (
        (temper (get_or new 0 0), record { state = new; left = 623; next_word = 1 }),
        rw (e, exec_rand, made, read_word, inside) refl,
        record { words = words; small = small; available = inr refl },
      )
  | inr e ↦
      let inside : ltb mt.next_word (length mt.state) ≡ true =
        ground (arith, v.words, v.available, e) in
      (
        (
          temper (get_or mt.state mt.next_word 0),
          record mt { left = mt.left - 1; next_word = mt.next_word + 1 },
        ),
        rw (e, exec_rand, read_word, inside) refl,
        record { words = v.words; small = v.small; available = ground (arith, v.available, e) },
      )
]
