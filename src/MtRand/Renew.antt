-- ===== src/MtRand/Renew.antt =====
-- The renewal of the state by `renew_state` of libsax/sax/mt_rand.c, against the recurrence of the
-- Mersenne Twister.
use xlibsax.Prelude.{
  ℕ, zero, suc, ◌+◌, ◌-◌, ◌*◌, ◌/◌, ◌%◌, ◌^◌, ◌≤◌, ◌<◌, bit_and, bit_xor, ◌≡◌, refl, ◌∙◌, ◌⊎◌, inl,
  inr, true, false, some, List, arith, bit_xor-lt, bit_or_join, bit_and_mask, bit_and_low,
  bit_and_high, length, get_or, set, All, length-set, get_or-set_self, get_or-set_ne, All-set,
  get_or-lt, ltb, ◌==◌, if◌then◌else◌, Bool-cases,
}
use mathlib.Core.Path.{subst}
use xlibsax.MtRand.{
  mix_bits, twist, read_word, twist_at, renew_loop, renew_state, ahead, behind, state_length,
  period,
}

-- The words of a state and the ones that follow them, as one sequence.
abbrev pub sequence : List ℕ → List ℕ → ℕ → ℕ
sequence old new k = if ltb k 624 then get_or old k 0 else get_or new (k - 624) 0

-- The published recurrence: a word is made of the first bit of the one 624 before it and the last 31
-- of the next one, shifted, and of the word 227 before it.
abbrev pub recurrence : ℕ → ℕ → ℕ → ℕ
recurrence far here after =
    let joined = here / 2 ^ 31 * 2 ^ 31 + after % 2 ^ 31 in
    bit_xor (bit_xor far (joined / 2)) (if joined % 2 == 1 then 2567483615 else 0)

either : (a b : ℕ) → (a < b) ⊎ (b ≤ a)
either a b = elim (Bool-cases (ltb a b)) [
  | inl e ↦ inl (ground (arith, e))
  | inr e ↦ inr (ground (arith, e))
]

mix_bits-recurrence :
    (here after : ℕ) → here < 2 ^ 32 → mix_bits here after ≡ here / 2 ^ 31 * 2 ^ 31 + after % 2 ^ 31
mix_bits-recurrence here after p =
    let low : bit_and after 0x7fffffff ≡ after % 2 ^ 31 =
      bit_and_mask 31 (after / 2 ^ 31) (after % 2 ^ 31) after 0x7fffffff (omega arith) (omega arith)
        (omega arith) in
    let high : bit_and here 0x80000000 ≡ here / 2 ^ 31 * 2 ^ 31 = elim (either here (2 ^ 31)) [
      | inl o ↦ bit_and_low 31 here o ∙ omega (arith, o)
      | inr o ↦ bit_and_high 31 here o p ∙ omega (arith, o, p)
    ] in
    rw (low, high) (bit_or_join 31 (here / 2 ^ 31) (after % 2 ^ 31) (omega arith))

twist-recurrence :
    (far here after : ℕ) → here < 2 ^ 32 → twist far here after ≡ recurrence far here after
unfolding twist
twist-recurrence far here after p =
    let joined = here / 2 ^ 31 * 2 ^ 31 + after % 2 ^ 31 in
    let one : bit_and after 1 ≡ joined % 2 =
      bit_and_mask 1 (after / 2) (after % 2) after 1 (omega arith) (omega arith) (omega arith)
      ∙ omega arith in
    rw (mix_bits-recurrence here after p, one)

recurrence-lt :
    (far here after : ℕ) → far < 2 ^ 32 → here < 2 ^ 32 → recurrence far here after < 2 ^ 32
recurrence-lt far here after p q =
    let joined = here / 2 ^ 31 * 2 ^ 31 + after % 2 ^ 31 in
    let mask : (if joined % 2 == 1 then 2567483615 else 0) < 2 ^ 32 =
      elim (Bool-cases (joined % 2 == 1)) [
        | inl e ↦ rw e (omega arith)
        | inr e ↦ rw e (omega arith)
      ] in
    bit_xor-lt 32 (bit_xor far (joined / 2)) (if joined % 2 == 1 then 2567483615 else 0)
      (bit_xor-lt 32 far (joined / 2) p (omega (arith, q))) mask

-- The state `now`, in which the words before `i` are renewed and the others are the old ones.
record Renewed (old now : List ℕ) (i : ℕ) : Type 0 where
  pub words : length now ≡ 624
  pub narrow : All (λ w. w < 2 ^ 32) now
  pub kept : (j : ℕ) → i ≤ j → get_or now j 0 ≡ get_or old j 0
  pub made :
      (j : ℕ)
      → j < i
      → get_or now j 0
        ≡ twist (sequence old now (j + 397)) (sequence old now j) (sequence old now (j + 1))

sequence-set :
    (old now : List ℕ) (i w k : ℕ) → k < 624 + i → sequence old (set now i w) k ≡ sequence old now k
sequence-set old now i w k p = elim (Bool-cases (ltb k 624)) [
  | inl e ↦ rw e
  | inr e ↦ rw e (get_or-set_ne now i (k - 624) w 0 (λ q. ground (arith, p, e, q)))
]

read_word-inside : (s : List ℕ) (i : ℕ) → i < length s → read_word s i ≡ some (get_or s i 0)
unfolding read_word
read_word-inside s i p = let e : ltb i (length s) ≡ true = ground (arith, p) in rw e

-- One turn, at an offset `m` with the word of the recurrence and `v` with the next one.
twist_at-Renewed :
    (old now : List ℕ) (m i v : ℕ)
    → i < 624
    → m < 624
    → v < 624
    → Renewed old now i
    → get_or now m 0 ≡ sequence old now (i + 397)
    → get_or now v 0 ≡ sequence old now (i + 1)
    → (next : List ℕ) × (twist_at m i v now ≡ some next) × Renewed old next (i + 1)
unfolding twist_at
twist_at-Renewed old now m i v pi pm pv r em ev =
    let w = twist (get_or now m 0) (get_or now i 0) (get_or now v 0) in
    let reads : (k : ℕ) → k < 624 → read_word now k ≡ some (get_or now k 0) =
      λ k p. read_word-inside now k (rw r.words p) in
    let inside : ltb i 624 ≡ true = ground (arith, pi) in
    let here : get_or now i 0 ≡ sequence old now i = rw inside (r.kept i (omega arith)) in
    (
      set now i w,
      rw (twist_at, reads m pm, reads i pi, reads v pv) refl,
      record {
        words = length-set now i w ∙ r.words;
        narrow =
            All-set (λ x. x < 2 ^ 32) now i w r.narrow
              (rw
                (twist-recurrence (get_or now m 0) (get_or now i 0) (get_or now v 0)
                  (get_or-lt now i r.narrow))
                (recurrence-lt (get_or now m 0) (get_or now i 0) (get_or now v 0)
                  (get_or-lt now m r.narrow) (get_or-lt now i r.narrow)));
        kept = λ j p.
            get_or-set_ne now i j w 0 (λ q. omega (arith, p, q)) ∙ r.kept j (omega (arith, p));
        made = λ j p.
            rw
              (
                sequence-set old now i w (j + 397) (omega (arith, p, pi)),
                sequence-set old now i w j (omega (arith, p, pi)),
                sequence-set old now i w (j + 1) (omega (arith, p, pi)),
              )
              (elim (either j i) [
                | inl o ↦ get_or-set_ne now i j w 0 (λ q. omega (arith, o, q)) ∙ r.made j o
                | inr o ↦
                    let e : i ≡ j = omega (arith, o, p) in
                    rw (← e) (get_or-set_self now i w 0 (rw r.words pi) ∙ rw (em, here, ev))
              ]);
      },
    )

-- The loops: `n` turns from `i` on, where `at` finds the word of the recurrence.
renew_loop-Renewed :
    (at : ℕ → ℕ) (old : List ℕ) (n i : ℕ) (now : List ℕ)
    → i + n ≤ 623
    → ((j : ℕ) (t : List ℕ)
        → i ≤ j
        → j < i + n
        → Renewed old t j
        → (at j < 624) × (get_or t (at j) 0 ≡ sequence old t (j + 397)))
    → Renewed old now i
    → (next : List ℕ) × (renew_loop at n i now ≡ some next) × Renewed old next (i + n)
unfolding renew_loop
renew_loop-Renewed at old zero i now p found r = (now, refl, subst (Renewed old now) e r)
  where
    e : i ≡ i + 0
    e = omega arith
renew_loop-Renewed at old (suc n) i now p found r =
    let (inside, far) = found i now (omega arith) (omega arith) r in
    let before : ltb (i + 1) 624 ≡ true = ground (arith, p) in
    let (next, e, r') =
      twist_at-Renewed old now (at i) i (i + 1) (omega (arith, p)) inside (omega (arith, p)) r far
        (rw before (r.kept (i + 1) (omega arith))) in
    let (last, e', r'') =
      renew_loop-Renewed at old n (i + 1) next (omega (arith, p))
        (λ j t p' q. found j t (omega (arith, p')) (omega (arith, q))) r' in
    (last, rw (renew_loop, e, e') refl, subst (Renewed old last) (omega arith) r'')

ahead-far :
    (old : List ℕ) (j : ℕ) (t : List ℕ)
    → 0 ≤ j
    → j < 227
    → Renewed old t j
    → (ahead j < 624) × (get_or t (ahead j) 0 ≡ sequence old t (j + 397))
ahead-far old j t o p r =
    let before : ltb (j + 397) 624 ≡ true = ground (arith, p) in
    (omega (arith, p), rw before (r.kept (j + 397) (omega arith)))

behind-far :
    (old : List ℕ) (j : ℕ) (t : List ℕ)
    → 227 ≤ j
    → j < 623
    → Renewed old t j
    → (behind j < 624) × (get_or t (behind j) 0 ≡ sequence old t (j + 397))
behind-far old j t o p r =
    let after : ltb (j + 397) 624 ≡ false = ground (arith, o) in
    (rw after (omega (arith, p)), rw after)

twist-sequence :
    (old now : List ℕ)
    → All (λ w. w < 2 ^ 32) old
    → Renewed old now 624
    → (i : ℕ) → i < 624
    → get_or now i 0
      ≡ recurrence (sequence old now (i + 397)) (sequence old now i) (sequence old now (i + 1))
twist-sequence old now small r i p =
    let first : ltb i 624 ≡ true = ground (arith, p) in
    let here : sequence old now i < 2 ^ 32 = rw first (get_or-lt old i small) in
    r.made i p
    ∙ twist-recurrence (sequence old now (i + 397)) (sequence old now i) (sequence old now (i + 1))
        here

-- Renewing a state of 624 words of 32 bits reads and writes no word out of it, and makes a state of
-- 624 words of 32 bits that continue the sequence of the old ones by the recurrence of the Mersenne Twister.
pub renew_state_lem :
    (old : List ℕ)
    → length old ≡ 624
    → All (λ w. w < 2 ^ 32) old
    → (new : List ℕ) × (renew_state old ≡ some new)
      × (length new ≡ 624)
      × All (λ w. w < 2 ^ 32) new
      × ((i : ℕ)
          → i < 624
          → get_or new i 0
            ≡ recurrence
                (sequence old new (i + 397))
                (sequence old new i)
                (sequence old new (i + 1)))
unfolding renew_state
renew_state_lem old words small =
    let start : Renewed old old 0 = record {
      words = words;
      narrow = small;
      kept = λ j p. refl;
      made = λ j p. absurd (omega (arith, p));
    } in
    let (low, e, r) =
      renew_loop-Renewed ahead old (state_length - period) 0 old (omega arith) (ahead-far old)
        start in
    let (high, e', r') =
      renew_loop-Renewed behind old (period - 1) (state_length - period) low (omega arith)
        (behind-far old) r in
    let (new, e'', r'') =
      twist_at-Renewed old high (behind (state_length - 1)) (state_length - 1) 0 (omega arith)
        (omega arith) (omega arith) r' refl refl in
    (
      new,
      rw (renew_state, e, e', e'') refl,
      r''.words,
      r''.narrow,
      twist-sequence old new small r'',
    )
