-- ===== src/Pool/Fsb/Pigeonhole.antt =====
-- As many distinct numbers as fit below a bound: the identifiers of `fsb_pool_t`.
use xlibsax.Prelude.{
  ℕ, zero, suc, ◌≤◌, ◌<◌, ◌≡◌, ◌⊎◌, inl, inr, true, false, List, [], ◌∷◌, arith, length, All, On,
  Distinct, ◌==◌, if◌then◌else◌, ==_iff, ==_ne, Bool-cases, map_right,
}

remove : ℕ → List ℕ → List ℕ
remove a [] = []
remove a (x ∷ xs) = if x == a then xs else x ∷ remove a xs

length-remove : (a : ℕ) (xs : List ℕ) → length xs ≤ suc (length (remove a xs))
unfolding remove
length-remove a [] = omega arith
length-remove a (x ∷ xs) = ground (arith, length-remove a xs)

On-remove : (a b : ℕ) (xs : List ℕ) → On b (remove a xs) → On b xs
unfolding remove
On-remove a b [] h = h
On-remove a b (x ∷ xs) h = elim (Bool-cases (x == a)) [
  | inl e ↦ inr (rw e at h)
  | inr e ↦ map_right (On-remove a b xs) (rw e at h)
]

Distinct-remove : (a : ℕ) (xs : List ℕ) → Distinct xs → Distinct (remove a xs)
unfolding remove
Distinct-remove a [] h = tt
Distinct-remove a (x ∷ xs) h = elim (Bool-cases (x == a)) [
  | inl e ↦ rw e h.1
  | inr e ↦ rw e (λ o. h.0 (On-remove a x xs o), Distinct-remove a xs h.1)
]

below_of_not_On :
    (c : ℕ) (xs : List ℕ) → All (λ x. x < suc c) xs → ¬ (On c xs) → All (λ x. x < c) xs
below_of_not_On c [] h n = tt
below_of_not_On c (x ∷ xs) h n =
    (lower (Bool-cases (c == x)), below_of_not_On c xs h.1 (λ o. n (inr o)))
  where
    lower : ((c == x) ≡ true) ⊎ ((c == x) ≡ false) → x < c
    lower (inl e) = absurd (n (inl ((==_iff c x).0 e)))
    lower (inr e) = omega (arith, ==_ne c x e, h.0)

All-remove :
    (c : ℕ) (xs : List ℕ) → Distinct xs → All (λ x. x < suc c) xs → All (λ x. x < c) (remove c xs)
unfolding remove
All-remove c [] d h = tt
All-remove c (x ∷ xs) d h = elim (Bool-cases (x == c)) [
  | inl e ↦ rw e (below_of_not_On c xs h.1 (λ o. d.0 (rw ((==_iff x c).0 e) o)))
  | inr e ↦ rw e (omega (arith, ==_ne x c e, h.0), All-remove c xs d.1 h.1)
]

-- Distinct numbers below `c` are at most `c`.
pub length-le : (c : ℕ) (xs : List ℕ) → Distinct xs → All (λ x. x < c) xs → length xs ≤ c
length-le zero [] d h = omega arith
length-le zero (x ∷ xs) d h = absurd (omega arith)
length-le (suc c) xs d h = omega (
  arith,
  length-remove c xs,
  length-le c (remove c xs) (Distinct-remove c xs d) (All-remove c xs d h),
)
