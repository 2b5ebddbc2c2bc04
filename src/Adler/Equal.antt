-- ===== src/Adler/Equal.antt =====
-- The loops of the checksum of libsax/sax/adler32.c compute the sums modulo 65521, and no sum on the
-- way leaves 32 bits.
use native.Mathlib.Nat.{mul-le-mul}
use xlibsax.Prelude.{
  ℕ, zero, suc, ◌+◌, ◌*◌, ◌/◌, ◌%◌, ◌^◌, ◌≤◌, ◌<◌, ◌≡◌, refl, sym, ap, ap₂, ◌∙◌, inl, inr, false,
  ◌&&◌, List, [], ◌∷◌, ◌++◌, append-nil, arith, bit_or_join, length, take, drop, length-take,
  length-drop, All-append, run, All-take, All-drop, ltb, ◌==◌, Bool-cases,
}
use xlibsax.Adler.{base, add_bytes, batches, rounds, calc_adler32}
use xlibsax.Adler.Sums.{
  Bytes, plain, plain-split, Agree, plain-Agree, room, add_bytes-plain, Slow, plain-Slow,
  Slow-small, plain_second,
}

-- The sums between two rounds of the inner loop.
record Fits (s : ℕ × ℕ) : Type 0 where
  slow : Slow s
  first : s.0 ≤ 2 ^ 21 + 4096
  second : s.1 ≤ 2 ^ 31 + 16 * room

reduced-Fits : (s : ℕ × ℕ) → s.0 < 2 ^ 16 → s.1 < 2 ^ 16 → Fits s
reduced-Fits s p q =
    let low : s.0 ≤ 2 ^ 16 = omega arith in
    let e : s.0 * s.0 ≤ 2 ^ 16 * 2 ^ 16 = mul-le-mul low low in
    record { slow = omega (arith, e); first = omega arith; second = omega arith }

-- Sixteen bytes more.
batch-Fits :
    (xs : List ℕ) (s : ℕ × ℕ)
    → Bytes xs
    → length xs ≤ 16
    → Fits s
    → s.1 < 2 ^ 31
    → (add_bytes xs s ≡ plain xs s) × Fits (plain xs s)
batch-Fits xs s h n f small =
    let low = Slow-small s f.slow small in
    let (slow, near) = plain-Slow xs s h f.slow in
    (
      add_bytes-plain xs s h (omega arith) (omega arith),
      record {
        slow = slow;
        first = omega arith;
        second = omega (arith, plain_second xs s h (omega arith));
      },
    )

-- What the inner loop leaves: some bytes, and the sums of the others.
record Left (buf : List ℕ) (s : ℕ × ℕ) (r : List ℕ × (ℕ × ℕ)) : Type 0 where
  fits : Fits r.1
  bytes : Bytes r.0
  shorter : length r.0 ≤ length buf
  some_left : 0 < length buf → 0 < length r.0
  same : plain r.0 r.1 ≡ plain buf s

batches_lem :
    (fuel : ℕ) (buf : List ℕ) (s : ℕ × ℕ) → Bytes buf → Fits s → Left buf s (batches fuel buf s)
unfolding batches
batches_lem zero buf s h f = record {
  fits = f;
  bytes = h;
  shorter = omega arith;
  some_left = λ p. p;
  same = refl;
}
batches_lem (suc fuel) buf s h f = elim (Bool-cases (ltb 16 (length buf) && ltb s.1 (2 ^ 31))) [
  | inr e ↦
      rw e (record { fits = f; bytes = h; shorter = omega arith; some_left = λ p. p; same = refl })
  | inl e ↦
      let many : 16 < length buf = ground (arith, e) in
      let low : s.1 < 2 ^ 31 = ground (arith, e) in
      let n : length (take 16 buf) ≤ 16 = omega (arith, length-take 16 buf) in
      let (run, f') = batch-Fits (take 16 buf) s (All-take (λ x. x < 256) 16 buf h) n f low in
      let rec =
        batches_lem fuel (drop 16 buf) (plain (take 16 buf) s) (All-drop (λ x. x < 256) 16 buf h)
          f' in
      rw (e, run)
        (record {
          fits = rec.fits;
          bytes = rec.bytes;
          shorter = omega (arith, rec.shorter, length-drop 16 buf);
          some_left = λ p. rec.some_left (omega (arith, length-drop 16 buf, many));
          same = rec.same ∙ plain-split 16 buf s;
        })
]

-- The remainders of both sums.
abbrev pub mod_base : ℕ × ℕ → ℕ × ℕ
mod_base s = (s.0 % base, s.1 % base)

rounds-nil : (fuel : ℕ) (s : ℕ × ℕ) → rounds fuel [] s ≡ s
unfolding rounds
rounds-nil zero s = refl
rounds-nil (suc fuel) s = refl

-- Reducing the sums first changes no remainder.
reduced :
    (fuel : ℕ) (buf : List ℕ) (t : ℕ × ℕ)
    → (0 < length buf → rounds fuel buf (mod_base t) ≡ mod_base (plain buf (mod_base t)))
    → rounds fuel buf (mod_base t) ≡ mod_base (plain buf t)
unfolding plain
reduced fuel [] t h = rounds-nil fuel (mod_base t)
reduced fuel (x ∷ buf) t h =
    let (a, b) = plain-Agree (x ∷ buf) (mod_base t) t (omega arith, omega arith) in
    h (omega arith) ∙ ap₂ (λ m n. (m, n)) a b

-- The outer loop on at least one byte.
rounds_lem :
    (fuel : ℕ) (buf : List ℕ) (s : ℕ × ℕ)
    → Bytes buf
    → Fits s
    → length buf ≤ fuel
    → 0 < length buf
    → rounds fuel buf s ≡ mod_base (plain buf s)
unfolding rounds
rounds_lem zero buf s h f n p = absurd (omega arith)
rounds_lem (suc fuel) [] s h f n p = absurd (omega arith)
rounds_lem (suc fuel) (b ∷ buf) s h f n p =
    let l = batches_lem fuel (b ∷ buf) s h f in
    let r = batches fuel (b ∷ buf) s in
    let t = plain (take 1 r.0) r.1 in
    let one : length (take 1 r.0) ≤ 1 = omega (arith, length-take 1 r.0) in
    let run : add_bytes (take 1 r.0) r.1 ≡ t =
      add_bytes-plain (take 1 r.0) r.1 (All-take (λ x. x < 256) 1 r.0 l.bytes)
        (omega (arith, one, l.fits.first)) (omega (arith, one, l.fits.second)) in
    let left : length (drop 1 r.0) ≤ fuel =
      omega (arith, length-drop 1 r.0, l.shorter, l.some_left p, n) in
    let small : Fits (mod_base t) = reduced-Fits (mod_base t) (omega arith) (omega arith) in
    let later = reduced fuel (drop 1 r.0) t (
      rounds_lem fuel (drop 1 r.0) (mod_base t) (All-drop (λ x. x < 256) 1 r.0 l.bytes) small
        left) in
    let more : (length (b ∷ buf) == 0) ≡ false = ground arith in
    rw (run, more) (later ∙ ap mod_base (plain-split 1 r.0 r.1 ∙ l.same))

-- The definition of the checksum, from the halves of `adler`: the remainder of each sum in a half.
abbrev pub checksum : ℕ → List ℕ → ℕ
checksum adler [] = adler
checksum adler (x ∷ xs) =
    let s = plain (x ∷ xs) (adler % 2 ^ 16, adler / 2 ^ 16) in s.1 % base * 2 ^ 16 + s.0 % base

-- For a 32-bit `adler` and bytes, `calc_adler32` computes the checksum that the definition with
-- unbounded sums gives: no sum on the way leaves 32 bits.
pub calc_adler32_lem :
    (adler : ℕ) (buf : List ℕ)
    → adler < 2 ^ 32
    → Bytes buf
    → calc_adler32 adler buf ≡ checksum adler buf
unfolding calc_adler32
calc_adler32_lem adler [] p h =
    let hi = adler / 2 ^ 16 in
    let whole : hi * 2 ^ 16 % 2 ^ 32 ≡ hi * 2 ^ 16 = omega arith in
    let joined : hi * 2 ^ 16 + adler % 2 ^ 16 ≡ adler = omega arith in
    rw (rounds-nil 0 (adler % 2 ^ 16, hi), whole)
      (bit_or_join 16 hi (adler % 2 ^ 16) (omega arith) ∙ joined)
calc_adler32_lem adler (x ∷ buf) p h =
    let s : ℕ × ℕ = (adler % 2 ^ 16, adler / 2 ^ 16) in
    let t = plain (x ∷ buf) s in
    let run =
      rounds_lem (length (x ∷ buf)) (x ∷ buf) s h (reduced-Fits s (omega arith) (omega arith))
        (omega arith) (omega arith) in
    let fits : t.1 % base * 2 ^ 16 % 2 ^ 32 ≡ t.1 % base * 2 ^ 16 = omega arith in
    rw (run, fits) (bit_or_join 16 (t.1 % base) (t.0 % base) (omega arith))

plain-append : (xs ys : List ℕ) (s : ℕ × ℕ) → plain (xs ++ ys) s ≡ plain ys (plain xs s)
unfolding plain
plain-append [] ys s = refl
plain-append (x ∷ xs) ys s = plain-append xs ys (s.0 + x, s.1 + (s.0 + x))

-- The checksum of bytes that come in two parts is the second part's, begun with the first part's.
pub calc_adler32-append :
    (adler : ℕ) (xs ys : List ℕ)
    → adler < 2 ^ 32
    → Bytes xs
    → Bytes ys
    → calc_adler32 (calc_adler32 adler xs) ys ≡ calc_adler32 adler (xs ++ ys)
calc_adler32-append adler [] ys p h k = rw (calc_adler32_lem adler [] p h)
calc_adler32-append adler (x ∷ xs) [] p h k =
    let first = calc_adler32_lem adler (x ∷ xs) p h in
    let small : calc_adler32 adler (x ∷ xs) < 2 ^ 32 = omega (arith, first) in
    calc_adler32_lem (calc_adler32 adler (x ∷ xs)) [] small tt
    ∙ ap (calc_adler32 adler) (sym (append-nil (x ∷ xs)))
calc_adler32-append adler (x ∷ xs) (y ∷ ys) p h k =
    let s = plain (x ∷ xs) (adler % 2 ^ 16, adler / 2 ^ 16) in
    let first : calc_adler32 adler (x ∷ xs) ≡ s.1 % base * 2 ^ 16 + s.0 % base =
      calc_adler32_lem adler (x ∷ xs) p h in
    let a = calc_adler32 adler (x ∷ xs) in
    let small : a < 2 ^ 32 = omega (arith, first) in
    let same : Agree (a % 2 ^ 16, a / 2 ^ 16) s = (omega (arith, first), omega (arith, first)) in
    let second = calc_adler32_lem a (y ∷ ys) small k in
    let whole =
      calc_adler32_lem adler (x ∷ xs ++ y ∷ ys) p
        (All-append (λ x. x < 256) (x ∷ xs) (y ∷ ys) h k) in
    let parts = plain-append (x ∷ xs) (y ∷ ys) (adler % 2 ^ 16, adler / 2 ^ 16) in
    let agree = plain-Agree (y ∷ ys) (a % 2 ^ 16, a / 2 ^ 16) s same in
    omega
      (arith, second, whole, agree, ap (λ (t : ℕ × ℕ). t.0) parts, ap (λ (t : ℕ × ℕ). t.1) parts)
