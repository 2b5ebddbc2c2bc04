-- ===== src/Prelude/Bits.antt =====
-- Laws of the bitwise operations at variables, each from an equation for the lowest digit.
use Prim.Native.Nat.{
  ℕ, zero, suc, ◌+◌, ◌*◌, ◌/◌, ◌%◌, ◌^◌, ◌≤◌, ◌<◌, min, max, bit_and, bit_or, bit_xor, digits,
  bitwise, differ, bit_and-bitwise, bit_or-bitwise, bit_xor-bitwise,
}
use mathlib.Core.Path.{◌≡◌, refl, ap, sym, ◌∙◌}
use native.Mathlib.Omega.{arith}

module _ (z : ℕ → ℕ) (f : ℕ → ℕ → ℕ) where
  digits-zero : (n b : ℕ) → digits z f n 0 b ≡ z b
  digits-zero zero b = refl
  digits-zero (suc n) b = refl

  -- More rounds than the first number are as good as that many.
  digits-more : (a n m b : ℕ) → a ≤ n → a ≤ m → digits z f n a b ≡ digits z f m a b
  digits-more zero n m b p q = digits-zero n b ∙ sym (digits-zero m b)
  digits-more (suc a) zero m b p q = absurd (omega arith)
  digits-more (suc a) (suc n) zero b p q = absurd (omega arith)
  digits-more (suc a) (suc n) (suc m) b p q =
      ap (λ t. t * 2 + f (suc a % 2) (b % 2))
        (digits-more (suc a / 2) n m (b / 2) (omega arith) (omega arith))

  lowest :
      ((b : ℕ) → z b ≡ z (b / 2) * 2 + f 0 (b % 2))
      → (a b : ℕ) → bitwise z f a b ≡ bitwise z f (a / 2) (b / 2) * 2 + f (a % 2) (b % 2)
  lowest nothing zero b = nothing b
  lowest nothing (suc a) b =
      ap (λ t. t * 2 + f (suc a % 2) (b % 2))
        (digits-more (suc a / 2) a (suc a / 2) (b / 2) (omega arith) (omega arith))

-- Of two digits, the one that tells whether they differ, and the larger one.
differ_digits : (x y : ℕ) → x < 2 → y < 2 → differ x y ≡ (x + y) % 2
differ_digits zero y p q = omega arith
differ_digits (suc zero) zero p q = refl
differ_digits (suc zero) (suc zero) p q = refl
differ_digits (suc zero) (suc (suc y)) p q = absurd (omega arith)
differ_digits (suc (suc x)) y p q = absurd (omega arith)

pub bit_xor_lowest : (a b : ℕ) → bit_xor a b ≡ bit_xor (a / 2) (b / 2) * 2 + (a + b) % 2
bit_xor_lowest a b = omega (
  arith,
  bit_xor-bitwise a b,
  bit_xor-bitwise (a / 2) (b / 2),
  lowest (λ y. y) differ (λ c. omega arith) a b,
  differ_digits (a % 2) (b % 2) (omega arith) (omega arith),
)

pub bit_or_lowest : (a b : ℕ) → bit_or a b ≡ bit_or (a / 2) (b / 2) * 2 + max (a % 2) (b % 2)
bit_or_lowest a b = omega (
  arith,
  bit_or-bitwise a b,
  bit_or-bitwise (a / 2) (b / 2),
  lowest (λ y. y) max (λ c. omega arith) a b,
)

pub bit_and_lowest : (a b : ℕ) → bit_and a b ≡ bit_and (a / 2) (b / 2) * 2 + min (a % 2) (b % 2)
bit_and_lowest a b = omega (
  arith,
  bit_and-bitwise a b,
  bit_and-bitwise (a / 2) (b / 2),
  lowest (λ y. 0) min (λ c. omega arith) a b,
)

-- The law for numbers below `2 ^ k` is an induction on `k`.
halves : (k a : ℕ) → a < 2 ^ suc k → a / 2 < 2 ^ k
halves k a h = let e : 2 ^ suc k ≡ 2 * 2 ^ k = omega arith in omega (arith, e, h)

pub bit_xor-lt : (k a b : ℕ) → a < 2 ^ k → b < 2 ^ k → bit_xor a b < 2 ^ k
bit_xor-lt zero zero zero p q = omega arith
bit_xor-lt zero zero (suc b) p q = absurd (omega arith)
bit_xor-lt zero (suc a) b p q = absurd (omega arith)
bit_xor-lt (suc k) a b p q =
    let e : 2 ^ suc k ≡ 2 * 2 ^ k = omega arith in
    omega (arith, e, bit_xor_lowest a b, bit_xor-lt k (a / 2) (b / 2) (halves k a p) (halves k b q))

pub bit_or-lt : (k a b : ℕ) → a < 2 ^ k → b < 2 ^ k → bit_or a b < 2 ^ k
bit_or-lt zero zero zero p q = omega arith
bit_or-lt zero zero (suc b) p q = absurd (omega arith)
bit_or-lt zero (suc a) b p q = absurd (omega arith)
bit_or-lt (suc k) a b p q =
    let e : 2 ^ suc k ≡ 2 * 2 ^ k = omega arith in
    omega (arith, e, bit_or_lowest a b, bit_or-lt k (a / 2) (b / 2) (halves k a p) (halves k b q))

bit_xor_undone : (k a b : ℕ) → a < 2 ^ k → b < 2 ^ k → bit_xor (bit_xor a b) b ≡ a
bit_xor_undone zero zero zero p q = refl
bit_xor_undone zero zero (suc b) p q = absurd (omega arith)
bit_xor_undone zero (suc a) b p q = absurd (omega arith)
bit_xor_undone (suc k) a b p q =
    let c = bit_xor a b in
    let low : c ≡ bit_xor (a / 2) (b / 2) * 2 + (a + b) % 2 = bit_xor_lowest a b in
    let high : c / 2 ≡ bit_xor (a / 2) (b / 2) = omega (arith, low) in
    let rest : bit_xor (c / 2) (b / 2) ≡ a / 2 =
      ap (λ t. bit_xor t (b / 2)) high
      ∙ bit_xor_undone k (a / 2) (b / 2) (halves k a p) (halves k b q) in
    omega (arith, low, rest, bit_xor_lowest c b)

below-pow : (a : ℕ) → a < 2 ^ a
below-pow zero = omega arith
below-pow (suc a) = let e : 2 ^ suc a ≡ 2 * 2 ^ a = omega arith in omega (arith, e, below-pow a)

pow_mono : (a b : ℕ) → 2 ^ a ≤ 2 ^ (a + b)
pow_mono a zero = let e : 2 ^ (a + 0) ≡ 2 ^ a = ap (λ t. 2 ^ t) (omega arith) in omega (arith, e)
pow_mono a (suc b) =
    let e : 2 ^ (a + suc b) ≡ 2 ^ suc (a + b) = ap (λ t. 2 ^ t) (omega arith) in
    let d : 2 ^ suc (a + b) ≡ 2 * 2 ^ (a + b) = omega arith in omega (arith, e, d, pow_mono a b)

bit_or-zero : (k a : ℕ) → a < 2 ^ k → bit_or a 0 ≡ a
bit_or-zero zero zero p = refl
bit_or-zero zero (suc a) p = absurd (omega arith)
bit_or-zero (suc k) a p = omega (arith, bit_or_lowest a 0, bit_or-zero k (a / 2) (halves k a p))

bit_xor_comm_below : (k a b : ℕ) → a < 2 ^ k → b < 2 ^ k → bit_xor a b ≡ bit_xor b a
bit_xor_comm_below zero zero zero p q = refl
bit_xor_comm_below zero zero (suc b) p q = absurd (omega arith)
bit_xor_comm_below zero (suc a) b p q = absurd (omega arith)
bit_xor_comm_below (suc k) a b p q = omega (
  arith,
  bit_xor_lowest a b,
  bit_xor_lowest b a,
  bit_xor_comm_below k (a / 2) (b / 2) (halves k a p) (halves k b q),
)

bit_xor_assoc_below :
    (k a b c : ℕ)
    → a < 2 ^ k
    → b < 2 ^ k
    → c < 2 ^ k
    → bit_xor (bit_xor a b) c ≡ bit_xor a (bit_xor b c)
bit_xor_assoc_below zero zero zero zero p q r = refl
bit_xor_assoc_below zero zero zero (suc c) p q r = absurd (omega arith)
bit_xor_assoc_below zero zero (suc b) c p q r = absurd (omega arith)
bit_xor_assoc_below zero (suc a) b c p q r = absurd (omega arith)
bit_xor_assoc_below (suc k) a b c p q r =
    let ab = bit_xor_lowest a b in
    let bc = bit_xor_lowest b c in
    let left : bit_xor a b / 2 ≡ bit_xor (a / 2) (b / 2) = omega (arith, ab) in
    let right : bit_xor b c / 2 ≡ bit_xor (b / 2) (c / 2) = omega (arith, bc) in
    let rest : bit_xor (bit_xor a b / 2) (c / 2) ≡ bit_xor (a / 2) (bit_xor b c / 2) =
      ap (λ t. bit_xor t (c / 2)) left
      ∙ (bit_xor_assoc_below k (a / 2) (b / 2) (c / 2) (halves k a p) (halves k b q) (halves k c r)
          ∙ ap (bit_xor (a / 2)) (sym right)) in
    omega (arith, ab, bc, rest, bit_xor_lowest (bit_xor a b) c, bit_xor_lowest a (bit_xor b c))

below : (a b c : ℕ) → (a < 2 ^ (a + b + c)) × (b < 2 ^ (a + b + c)) × (c < 2 ^ (a + b + c))
below a b c =
    let ea : 2 ^ (a + (b + c)) ≡ 2 ^ (a + b + c) = ap (λ t. 2 ^ t) (omega arith) in
    let eb : 2 ^ (b + (a + c)) ≡ 2 ^ (a + b + c) = ap (λ t. 2 ^ t) (omega arith) in
    let ec : 2 ^ (c + (a + b)) ≡ 2 ^ (a + b + c) = ap (λ t. 2 ^ t) (omega arith) in
    (
      omega (arith, ea, below-pow a, pow_mono a (b + c)),
      omega (arith, eb, below-pow b, pow_mono b (a + c)),
      omega (arith, ec, below-pow c, pow_mono c (a + b)),
    )

pub bit_xor_comm : (a b : ℕ) → bit_xor a b ≡ bit_xor b a
bit_xor_comm a b = let (p, q, r) = below a b 0 in bit_xor_comm_below (a + b + 0) a b p q

pub bit_xor_assoc : (a b c : ℕ) → bit_xor (bit_xor a b) c ≡ bit_xor a (bit_xor b c)
bit_xor_assoc a b c = let (p, q, r) = below a b c in bit_xor_assoc_below (a + b + c) a b c p q r

-- Exclusive or with the same number twice changes nothing.
pub bit_xor_twice : (a b : ℕ) → bit_xor (bit_xor a b) b ≡ a
bit_xor_twice a b = let (p, q, r) = below a b 0 in bit_xor_undone (a + b + 0) a b p q

-- `|` of a number shifted by `k` and one of `k` bits is their sum.
pub bit_or_join : (k hi lo : ℕ) → lo < 2 ^ k → bit_or (hi * 2 ^ k) lo ≡ hi * 2 ^ k + lo
bit_or_join zero hi zero p =
    omega (arith, bit_or-zero hi hi (below-pow hi), ap (λ t. bit_or t 0) one)
  where
    one : hi * 2 ^ 0 ≡ hi
    one = omega arith
bit_or_join zero hi (suc lo) p = absurd (omega arith)
bit_or_join (suc k) hi lo p =
    let p2 : 2 ^ suc k ≡ 2 * 2 ^ k = omega arith in
    let e : hi * 2 ^ suc k ≡ 2 * (hi * 2 ^ k) = rw p2 (grind arith) in
    let half : hi * 2 ^ suc k / 2 ≡ hi * 2 ^ k = omega (arith, e) in
    let rest : bit_or (hi * 2 ^ suc k / 2) (lo / 2) ≡ hi * 2 ^ k + lo / 2 =
      ap (λ t. bit_or t (lo / 2)) half ∙ bit_or_join k hi (lo / 2) (halves k lo p) in
    omega (arith, e, rest, bit_or_lowest (hi * 2 ^ suc k) lo)

bit_and-zero : (k a : ℕ) → a < 2 ^ k → bit_and a 0 ≡ 0
bit_and-zero zero zero p = refl
bit_and-zero zero (suc a) p = absurd (omega arith)
bit_and-zero (suc k) a p = omega (arith, bit_and_lowest a 0, bit_and-zero k (a / 2) (halves k a p))

-- `&` with `k` ones keeps the last `k` digits.
pub bit_and_mask : (k q r v m : ℕ) → v ≡ q * 2 ^ k + r → r < 2 ^ k → m + 1 ≡ 2 ^ k → bit_and v m ≡ r
bit_and_mask zero q zero v zero d p e = bit_and-zero v v (below-pow v)
bit_and_mask zero q zero v (suc m) d p e = absurd (omega (arith, e))
bit_and_mask zero q (suc r) v m d p e = absurd (omega (arith, p))
bit_and_mask (suc k) q r v m d p e =
    let p2 : 2 ^ suc k ≡ 2 * 2 ^ k = omega arith in
    let d2 : q * 2 ^ suc k ≡ 2 * (q * 2 ^ k) = rw p2 (grind arith) in
    let rest =
      bit_and_mask k q (r / 2) (v / 2) (m / 2) (omega (arith, d, d2)) (halves k r p)
        (omega (arith, e, p2)) in
    omega (arith, d, d2, e, p2, rest, bit_and_lowest v m)

-- `&` with the digit at `k` alone, of a number with no digit above it.
pub bit_and_low : (k u : ℕ) → u < 2 ^ k → bit_and u (2 ^ k) ≡ 0
bit_and_low zero zero p = refl
bit_and_low zero (suc u) p = absurd (omega arith)
bit_and_low (suc k) u p =
    let p2 : 2 ^ suc k ≡ 2 * 2 ^ k = omega arith in
    let half : 2 ^ suc k / 2 ≡ 2 ^ k = omega (arith, p2) in
    let rest : bit_and (u / 2) (2 ^ suc k / 2) ≡ 0 =
      ap (bit_and (u / 2)) half ∙ bit_and_low k (u / 2) (halves k u p) in
    omega (arith, p2, rest, bit_and_lowest u (2 ^ suc k))

pub bit_and_high : (k u : ℕ) → 2 ^ k ≤ u → u < 2 ^ suc k → bit_and u (2 ^ k) ≡ 2 ^ k
bit_and_high zero zero o p = absurd (omega arith)
bit_and_high zero (suc zero) o p = refl
bit_and_high zero (suc (suc u)) o p = absurd (omega arith)
bit_and_high (suc k) u o p =
    let p2 : 2 ^ suc k ≡ 2 * 2 ^ k = omega arith in
    let half : 2 ^ suc k / 2 ≡ 2 ^ k = omega (arith, p2) in
    let rest : bit_and (u / 2) (2 ^ suc k / 2) ≡ 2 ^ k =
      ap (bit_and (u / 2)) half
      ∙ bit_and_high k (u / 2) (omega (arith, o, p2)) (halves (suc k) u p) in
    omega (arith, p2, rest, bit_and_lowest u (2 ^ suc k))
