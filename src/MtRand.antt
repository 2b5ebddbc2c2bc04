-- ===== src/MtRand.antt =====
-- The Mersenne Twister of libsax/sax/mt_rand.c, without USE_PHP_STYLE and without the outputs in
-- floating point. The state is its 624 words; the spare word is never used.
pub mod Laws
pub mod Renew
mod Tests
use xlibsax.Prelude.{
  ℕ, zero, suc, ◌+◌, ◌-◌, ◌*◌, ◌/◌, ◌%◌, ◌^◌, max, bit_and, bit_or, bit_xor, Bool, Option, none,
  some, List, [], ◌∷◌, length, get_or, set, ltb, leb, ◌==◌, if◌then◌else◌, add32, sub32,
}

pub record Twister : Type 0 where
  pub state : List ℕ
  pub left : ℕ
  pub next_word : ℕ

-- `MT_N` and `MT_M`
abbrev pub state_length : ℕ
state_length = 624

abbrev pub period : ℕ
period = 397

-- `mixBits(u, v)`
abbrev pub mix_bits : ℕ → ℕ → ℕ
mix_bits u v = bit_or (bit_and u 0x80000000) (bit_and v 0x7fffffff)

unfoldable pub twist : ℕ → ℕ → ℕ → ℕ
twist m u v = bit_xor (bit_xor m (mix_bits u v / 2)) (if bit_and v 1 == 1 then 0x9908b0df else 0)

-- The words after the first one.
unfoldable pub init_words : ℕ → ℕ → ℕ → List ℕ
init_words i r zero = []
init_words i r (suc n) =
    let word = (1812433253 * bit_xor r (r / 2 ^ 30) + i) % 2 ^ 32 in
    word ∷ init_words (i + 1) word n

unfoldable pub init_state : ℕ → List ℕ
init_state seed = seed ∷ init_words 1 seed (state_length - 1)

-- `state[i] ^ (state[i-1] ^ (state[i-1] >> 30)) * factor`
abbrev pub stirred : List ℕ → ℕ → ℕ → ℕ
stirred state i factor =
    let r = get_or state (i - 1) 0 in
    bit_xor (get_or state i 0) (bit_xor r (r / 2 ^ 30) * factor % 2 ^ 32)

-- What follows `++i` in both loops of `init_state_ex`.
abbrev pub turn : ℕ → List ℕ → ℕ × List ℕ
turn i state =
    if leb state_length i then (1, set state 0 (get_or state (state_length - 1) 0)) else (i, state)

unfoldable pub spread : List ℕ → ℕ → ℕ → ℕ → List ℕ → ℕ × List ℕ
spread seed zero i j state = (i, state)
spread seed (suc k) i j state =
    let word = add32 (stirred state i 1664525) (add32 (get_or seed j 0) j) in
    let (i', state') = turn (i + 1) (set state i word) in
    spread seed k i' (if leb (length seed) (j + 1) then 0 else j + 1) state'

unfoldable pub settle : ℕ → ℕ → List ℕ → List ℕ
settle zero i state = state
settle (suc k) i state =
    let (i', state') = turn (i + 1) (set state i (sub32 (stirred state i 1566083941) i)) in
    settle k i' state'

-- `none` for an empty seed, whose first element the source reads.
unfoldable pub init_state_ex : List ℕ → Option (List ℕ)
init_state_ex [] = none
init_state_ex (x ∷ seed) =
    let (i, state) =
      spread (x ∷ seed) (max state_length (length (x ∷ seed))) 1 0 (init_state 19650218) in
    some (set (settle (state_length - 1) i state) 0 0x80000000)

-- A word of the state; `none` reads out of it.
unfoldable pub read_word : List ℕ → ℕ → Option ℕ
read_word state i = if ltb i (length state) then some (get_or state i 0) else none

-- `*p = twist(state[m], *p, state[v])`, for `p` at `i`.
unfoldable pub twist_at : ℕ → ℕ → ℕ → List ℕ → Option (List ℕ)
twist_at m i v state = elim (read_word state m) [
  | none ↦ none
  | some far ↦ elim (read_word state i) [
    | none ↦ none
    | some here ↦ elim (read_word state v) [
      | none ↦ none
      | some after ↦ some (set state i (twist far here after))
    ]
  ]
]

-- `p[MT_M]` and `p[MT_M-MT_N]`, for `p` at `i`; an offset below the state is one out of it.
abbrev pub ahead : ℕ → ℕ
ahead i = i + period

abbrev pub behind : ℕ → ℕ
behind i = if ltb (i + period) state_length then state_length else i + period - state_length

-- The loops of `renew_state`: `at i` is where the word to twist with stands.
unfoldable pub renew_loop : (ℕ → ℕ) → ℕ → ℕ → List ℕ → Option (List ℕ)
renew_loop at zero i state = some state
renew_loop at (suc n) i state = elim (twist_at (at i) i (i + 1) state) [
  | none ↦ none
  | some state' ↦ renew_loop at n (i + 1) state'
]

unfoldable pub renew_state : List ℕ → Option (List ℕ)
renew_state state = elim (renew_loop ahead (state_length - period) 0 state) [
  | none ↦ none
  | some low ↦ elim (renew_loop behind (period - 1) (state_length - period) low) [
    | none ↦ none
    | some high ↦ twist_at (behind (state_length - 1)) (state_length - 1) 0 high
  ]
]

-- The four lines that temper a word.
unfoldable pub temper : ℕ → ℕ
temper s =
    let s₁ = bit_xor s (s / 2 ^ 11) in
    let s₂ = bit_xor s₁ (bit_and (s₁ * 2 ^ 7 % 2 ^ 32) 0x9d2c5680) in
    let s₃ = bit_xor s₂ (bit_and (s₂ * 2 ^ 15 % 2 ^ 32) 0xefc60000) in bit_xor s₃ (s₃ / 2 ^ 18)

-- `exec_rand`; `none` reads out of the state.
unfoldable pub exec_rand : Twister → Option (ℕ × Twister)
exec_rand mt =
    elim (if mt.left == 0
      then elim (renew_state mt.state) [
        | none ↦ none
        | some state ↦ some (record { state = state; left = state_length; next_word = 0 })
      ]
      else some mt) [
        | none ↦ none
        | some ready ↦ elim (read_word ready.state ready.next_word) [
          | none ↦ none
          | some s ↦
              some
                (temper s, record ready { left = ready.left - 1; next_word = ready.next_word + 1 })
        ]
      ]

-- `mt_seed` and `mt_seed_ex`; `made` is the answer of `malloc`.
unfoldable pub seeded : Bool → ℕ → Option Twister
seeded made seed =
    if made
    then some
        (record { state = init_state (if seed == 0 then 5489 else seed); left = 0; next_word = 0 })
    else none

unfoldable pub seeded_ex : Bool → List ℕ → Option (Option Twister)
seeded_ex made seed =
    if made
    then elim (init_state_ex seed) [
      | none ↦ none
      | some state ↦ some (some (record { state = state; left = 0; next_word = 0 }))
    ]
    else some none

-- `mt_rand`
unfoldable pub rand : Twister → Option (ℕ × Twister)
rand mt = elim (exec_rand mt) [ none ↦ none | some (x, mt') ↦ some (x / 2, mt') ]

-- `mt_rand_u32`
unfoldable pub rand_u32 : Twister → Option (ℕ × Twister)
rand_u32 mt = exec_rand mt
