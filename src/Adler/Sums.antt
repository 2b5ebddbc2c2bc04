-- ===== src/Adler/Sums.antt =====
-- The two sums of the checksum of libsax/sax/adler32.c over the natural numbers, and why 32 bits hold
-- those that the code computes.
use native.Mathlib.Nat.{le_refl, mul-le-mul}
use xlibsax.Prelude.{
  ℕ, zero, suc, ◌+◌, ◌*◌, ◌%◌, ◌^◌, ◌≤◌, ◌<◌, ◌≡◌, refl, inl, inr, List, [], ◌∷◌, arith, length,
  take, drop, All, ltb, ltb→lt, Bool-cases, add32,
}
use xlibsax.Adler.{base, add_bytes}

abbrev pub Bytes : List ℕ → Type 0
Bytes = All (λ x. x < 256)

-- The sum of the bytes, and the sum of these sums.
unfoldable pub plain : List ℕ → ℕ × ℕ → ℕ × ℕ
plain [] s = s
plain (x ∷ xs) s = plain xs (s.0 + x, s.1 + (s.0 + x))

pub plain-split :
    (n : ℕ) (xs : List ℕ) (s : ℕ × ℕ) → plain (drop n xs) (plain (take n xs) s) ≡ plain xs s
unfolding plain
plain-split zero xs s = refl
plain-split (suc n) [] s = refl
plain-split (suc n) (x ∷ xs) s = plain-split n xs (s.0 + x, s.1 + (s.0 + x))

-- Two pairs of sums agree modulo `base`.
abbrev pub Agree : ℕ × ℕ → ℕ × ℕ → Type 0
Agree s t = (s.0 % base ≡ t.0 % base) × (s.1 % base ≡ t.1 % base)

pub plain-Agree : (xs : List ℕ) (s t : ℕ × ℕ) → Agree s t → Agree (plain xs s) (plain xs t)
unfolding plain
plain-Agree [] s t h = h
plain-Agree (x ∷ xs) s t h =
    plain-Agree xs (s.0 + x, s.1 + (s.0 + x)) (t.0 + x, t.1 + (t.0 + x)) (omega arith, omega arith)

-- A bound on the first sum while few bytes are added.
abbrev pub room : ℕ
room = 4194304

-- While there is room, the 32-bit sums are the plain ones.
pub add_bytes-plain :
    (xs : List ℕ) (s : ℕ × ℕ)
    → Bytes xs
    → s.0 + 256 * length xs ≤ room
    → s.1 + length xs * room < 2 ^ 32
    → add_bytes xs s ≡ plain xs s
unfolding add_bytes plain
add_bytes-plain [] s h p q = refl
add_bytes-plain (x ∷ xs) (s1, s2) (b, h) p q =
    let e1 : add32 s1 x ≡ s1 + x = omega arith in
    let e2 : add32 s2 (s1 + x) ≡ s2 + (s1 + x) = omega arith in
    rw (e1, e2) (add_bytes-plain xs (s1 + x, s2 + (s1 + x)) h (omega arith) (omega arith))

-- The first sum is about the root of the second.
abbrev pub Slow : ℕ × ℕ → Type 0
Slow s = s.0 * s.0 ≤ 512 * s.1 + 2 ^ 32

Slow-byte : (s1 s2 x : ℕ) → x < 256 → Slow (s1, s2) → Slow (s1 + x, s2 + (s1 + x))
Slow-byte s1 s2 x b h =
    let p : s1 * x ≤ s1 * 255 = mul-le-mul (le_refl s1) (omega arith) in
    let q : x * x ≤ x * 255 = mul-le-mul (le_refl x) (omega arith) in
    let square : (s1 + x) * (s1 + x) ≡ s1 * s1 + 2 * (s1 * x) + x * x = grind arith in
    omega (arith, p, q, square, h)

pub plain-Slow :
    (xs : List ℕ) (s : ℕ × ℕ)
    → Bytes xs
    → Slow s
    → Slow (plain xs s) × ((plain xs s).0 ≤ s.0 + 256 * length xs)
unfolding plain
plain-Slow [] s h p = (p, omega arith)
plain-Slow (x ∷ xs) s (b, h) p =
    let (slow, near) = plain-Slow xs (s.0 + x, s.1 + (s.0 + x)) h (Slow-byte s.0 s.1 x b p) in
    (slow, omega arith)

pub Slow-small : (s : ℕ × ℕ) → Slow s → s.1 < 2 ^ 31 → s.0 < 2 ^ 21
Slow-small s h p = elim (Bool-cases (ltb s.0 (2 ^ 21))) [
  | inl l ↦ ltb→lt _ _ l
  | inr l ↦
      let far : 2 ^ 21 ≤ s.0 = ground (arith, l) in
      let big : 2 ^ 21 * 2 ^ 21 ≤ s.0 * s.0 = mul-le-mul far far in absurd (omega (arith, big, h))
]

pub plain_second :
    (xs : List ℕ) (s : ℕ × ℕ)
    → Bytes xs
    → s.0 + 256 * length xs ≤ room
    → (plain xs s).1 ≤ s.1 + length xs * room
unfolding plain
plain_second [] s h p = omega arith
plain_second (x ∷ xs) s (b, h) p =
    omega (arith, plain_second xs (s.0 + x, s.1 + (s.0 + x)) h (omega arith))
