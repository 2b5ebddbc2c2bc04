-- ===== src/Bsearch/Tests.antt =====
-- Runs of the searches of libsax/sax/c++/bsearch.h.
use xlibsax.Prelude.{
  ℕ, zero, suc, ◌-◌, ◌^◌, ◌≤◌, ◌<◌, ◌≡◌, refl, none, some, List, [], ◌∷◌, arith, get_or,
}
use xlibsax.Bsearch.{search, bsearch, binary_search, binary_search_strided}
use xlibsax.Bsearch.Laws.{IsIncreasing, IsPosition, IsNeighbor, searches_lem, searches_fault}

abbrev three : List ℕ
three = 10 ∷ 20 ∷ 40 ∷ []

three-IsIncreasing : IsIncreasing three
three-IsIncreasing = record { ordered = ordered; not_empty = omega arith; size = omega arith }
  where
    ordered : (i j : ℕ) → i ≤ j → j < 3 → get_or three i 0 ≤ get_or three j 0
    ordered zero zero h k = omega arith
    ordered zero (suc zero) h k = omega arith
    ordered zero (suc (suc zero)) h k = omega arith
    ordered (suc i) zero h k = absurd (omega (arith, h))
    ordered (suc zero) (suc zero) h k = omega arith
    ordered (suc zero) (suc (suc zero)) h k = omega arith
    ordered (suc (suc i)) (suc zero) h k = absurd (omega (arith, h))
    ordered (suc (suc zero)) (suc (suc zero)) h k = omega arith
    ordered (suc (suc (suc i))) (suc (suc zero)) h k = absurd (omega (arith, h))
    ordered i (suc (suc (suc j))) h k = absurd (omega (arith, k))

searches_lem_example :
    IsPosition three 30 (bsearch 5 three 3 30) × IsNeighbor three 30 (binary_search 5 three 3 30)
searches_lem_example = searches_lem three 30 three-IsIncreasing 5 (omega arith) (omega arith)

searches_fault_example : (bsearch 5 three 3 5 ≡ some none) × (binary_search 5 three 3 5 ≡ some none)
searches_fault_example = searches_fault three 5 three-IsIncreasing 5 (omega arith) (omega arith)

runs :
    (bsearch 5 three 3 40 ≡ some (some 2))
    × (bsearch 5 three 3 30 ≡ some (some (2 ^ 64 - 1)))
    × (binary_search 5 three 3 30 ≡ some (some 2))
    × (binary_search_strided 5 (40 ∷ 0 ∷ 10 ∷ 0 ∷ 20 ∷ []) 3 2 (1 ∷ 2 ∷ 0 ∷ []) 20 ≡ some (some 1))
unfolding bsearch binary_search binary_search_strided search
runs = (refl, refl, refl, refl)
