-- ===== src/Strings/Wild/Measure.antt =====
-- Lexicographic orders as one number, for the loop of `g_strmatch` of libsax/sax/os_api.c.
use xlibsax.Prelude.{ℕ, zero, suc, ◌+◌, ◌*◌, ◌≤◌, ◌<◌, ◌≡◌, ◌⊎◌, inl, inr, arith}

times-lt : (b a' a : ℕ) → a' < a → a' * b + b ≤ a * b
times-lt b a' zero h = omega (arith, h)
times-lt b zero (suc a) h = omega arith
times-lt b (suc a') (suc a) h = omega (arith, times-lt b a' a (omega (arith, h)))

-- The higher digit decides, or the lower one.
pub digits-lt :
    (b a' a c' c : ℕ) → c' < b → (a' < a) ⊎ ((a' ≡ a) × (c' < c)) → a' * b + c' < a * b + c
digits-lt b a' a c' c k (inl h) = omega (arith, times-lt b a' a h, k)
digits-lt b a' a c' c k (inr (e, h)) = rw e (omega (arith, h))
