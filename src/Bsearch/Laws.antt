-- ===== src/Bsearch/Laws.antt =====
-- The searches of libsax/sax/c++/bsearch.h on ordered arrays.
use xlibsax.Prelude.{
  ℕ, zero, suc, ◌+◌, ◌-◌, ◌/◌, ◌%◌, ◌^◌, ◌≤◌, ◌<◌, ◌≡◌, refl, ◌∙◌, ◌≢◌, ◌⊎◌, inl, inr, true, false,
  Option, none, some, List, arith, length, get_or, ltb, leb, ◌==◌, ==_iff, ltb→lt, Bool-cases,
}
use xlibsax.Bsearch.{
  Answer, found, absent, faults, pred64, search, element, position, neighbor, result, bsearch,
  binary_search,
}

module _ (read : ℕ → Option ℕ) (v : ℕ → ℕ) (len x : ℕ) where
  -- The first `len` places can be read, and hold values in increasing order.
  pub record IsOrdered : Type 0 where
    pub reads : (i : ℕ) → i < len → read i ≡ some (v i)
    pub faults_behind : (i : ℕ) → len ≤ i → read i ≡ none
    pub ordered : (i j : ℕ) → i ≤ j → j < len → v i ≤ v j
    pub not_empty : 0 < len
    pub size : len < 2 ^ 63

  -- The answer is a place with `x`, or the place where it would stand.
  abbrev pub Correct : Answer → Type 0
  Correct (found mid) = (mid < len) × (v mid ≡ x)
  Correct (absent low) =
      (low ≤ len) × ((i : ℕ) → i < low → v i < x) × ((i : ℕ) → low ≤ i → i < len → x < v i)
  Correct faults = ⊥

  abbrev pub Finds : Option Answer → Type 0
  Finds none = ⊥
  Finds (some a) = Correct a

  not_first_lem : (m : ℕ) → v 0 ≤ x → x < v m → 0 < m
  not_first_lem zero first over = omega (arith, first, over)
  not_first_lem (suc m) first over = omega arith

  search-Finds :
      (fuel low high : ℕ)
      → IsOrdered
      → v 0 ≤ x
      → high < len
      → low ≤ high + 1
      → ((i : ℕ) → i < low → v i < x)
      → ((i : ℕ) → high < i → i < len → x < v i)
      → high + 1 - low < fuel
      → Finds (search read x fuel low high)
  unfolding search
  search-Finds zero low high o first h l below above f = omega (arith, f)
  search-Finds (suc fuel) low high o first h l below above f =
      let mid = low + (high - low) / 2 in
      elim (Bool-cases (leb low high)) [
        | inr e ↦ rw e (omega (arith, h, l), below, λ i p q. above i (ground (arith, p, e)) q)
        | inl e ↦
            let le : low ≤ high = ground (arith, e) in
            let inside : mid < len = omega (arith, le, h) in
            let up : (mid + 1) % 2 ^ 64 ≡ mid + 1 = omega (arith, inside, o.size) in
            elim (Bool-cases (v mid == x)) [
              | inl same ↦ rw (e, o.reads mid inside, same) (inside, (==_iff _ _).0 same)
              | inr other ↦ elim (Bool-cases (ltb (v mid) x)) [
                | inl less ↦
                    rw (e, o.reads mid inside, other, less, up)
                      (search-Finds fuel (mid + 1) high o first h (omega (arith, le))
                        (λ i p.
                          omega (arith, o.ordered i mid (omega (arith, p)) inside, ltb→lt _ _ less))
                        above (omega (arith, f, le)))
                | inr more ↦
                    let over : x < v mid = ground (arith, other, more) in
                    let not_first : 0 < mid = not_first_lem mid first over in
                    let down : (mid == 0) ≡ false = ground (arith, not_first) in
                    rw (e, o.reads mid inside, other, more, down)
                      (search-Finds fuel low (mid - 1) o first (omega (arith, inside))
                        (omega (arith, not_first)) below
                        (λ i p q. omega (arith, o.ordered mid i (omega (arith, p)) q, over))
                        (omega (arith, f, le, not_first)))
              ]
            ]
      ]

  -- The turn after the wrap-around reads behind the array.
  search-outside : (fuel : ℕ) → IsOrdered → search read x (suc fuel) 0 (2 ^ 64 - 1) ≡ some faults
  unfolding search
  search-outside fuel o =
      let away : read (0 + (2 ^ 64 - 1 - 0) / 2) ≡ none =
        o.faults_behind (0 + (2 ^ 64 - 1 - 0) / 2) (omega (arith, o.size)) in
      rw away refl

  -- With `x` below all values a turn goes on below.
  turn-below :
      (fuel high : ℕ)
      → IsOrdered
      → x < v 0
      → high < len
      → search read x (suc fuel) 0 high ≡ search read x fuel 0 (pred64 (0 + (high - 0) / 2))
  unfolding search
  turn-below fuel high o under h =
      let mid = 0 + (high - 0) / 2 in
      let e : leb 0 high ≡ true = ground arith in
      let inside : mid < len = omega (arith, h) in
      let over = o.ordered 0 mid (omega arith) inside in
      let other : (v mid == x) ≡ false = ground (arith, over, under) in
      let more : ltb (v mid) x ≡ false = ground (arith, over, under) in
      rw (e, o.reads mid inside, other, more) refl

  -- The search for it leaves the array.
  pub search-below :
      (fuel high : ℕ)
      → IsOrdered
      → x < v 0
      → high < len
      → high + 2 < fuel
      → search read x fuel 0 high ≡ some faults
  search-below zero high o under h f = absurd (omega (arith, f))
  search-below (suc zero) high o under h f = absurd (omega (arith, f))
  search-below (suc (suc fuel)) high o under h f =
      let mid = 0 + (high - 0) / 2 in
      turn-below (suc fuel) high o under h ∙ elim (Bool-cases (mid == 0)) [
        | inl z ↦ rw z (search-outside fuel o)
        | inr down ↦
            let not_first : 0 < mid = ground (arith, down) in
            rw down (
              search-below (suc fuel) (mid - 1) o under (omega (arith, h))
                (omega (arith, f, not_first)))
      ]

-- The array holds at least one value and less than 2 ^ 63, in increasing order.
pub record IsIncreasing (arr : List ℕ) : Type 0 where
  pub ordered : (i j : ℕ) → i ≤ j → j < length arr → get_or arr i 0 ≤ get_or arr j 0
  pub not_empty : 0 < length arr
  pub size : length arr < 2 ^ 63

element-IsOrdered :
    (arr : List ℕ) (x : ℕ)
    → IsIncreasing arr
    → IsOrdered (element arr) (λ i. get_or arr i 0) (length arr) x
element-IsOrdered arr x a = record {
  reads = λ i h. (let t : ltb i (length arr) ≡ true = ground (arith, h) in rw t refl);
  faults_behind = λ i h. (let t : ltb i (length arr) ≡ false = ground (arith, h) in rw t refl);
  ordered = a.ordered;
  not_empty = a.not_empty;
  size = a.size;
}

-- The answer of `BinarySearch`: a place of `x`, or the first place whose value is above it.
abbrev pub IsNeighbor : List ℕ → ℕ → Option (Option ℕ) → Type 0
IsNeighbor arr x none = ⊥
IsNeighbor arr x (some none) = ⊥
IsNeighbor arr x (some (some place)) =
    ((place < length arr) × (get_or arr place 0 ≡ x))
    ⊎ ((place ≤ length arr)
        × ((i : ℕ) → i < place → get_or arr i 0 < x)
        × ((i : ℕ) → place ≤ i → i < length arr → x < get_or arr i 0))

-- The answer of `bsearch`: a place of `x`, or the largest `size_t` when no value is `x`.
abbrev pub IsPosition : List ℕ → ℕ → Option (Option ℕ) → Type 0
IsPosition arr x none = ⊥
IsPosition arr x (some none) = ⊥
IsPosition arr x (some (some place)) =
    ((place < length arr) × (get_or arr place 0 ≡ x))
    ⊎ ((place ≡ 2 ^ 64 - 1) × ((i : ℕ) → i < length arr → get_or arr i 0 ≢ x))

module _ (arr : List ℕ) (x : ℕ) (a : IsIncreasing arr) where
  start : pred64 (length arr) ≡ length arr - 1
  start =
      let some_length = a.not_empty in
      let e : (length arr == 0) ≡ false = ground (arith, some_length) in rw e refl

  outcome :
      (fuel : ℕ)
      → get_or arr 0 0 ≤ x
      → length arr < fuel
      → Finds
          (element arr)
          (λ i. get_or arr i 0)
          (length arr)
          x
          (search (element arr) x fuel 0 (length arr - 1))
  outcome fuel first f =
      search-Finds (element arr) (λ i. get_or arr i 0) (length arr) x fuel 0 (length arr - 1)
        (element-IsOrdered arr x a) first (omega (arith, a.not_empty)) (omega arith)
        (λ i h. absurd (omega (arith, h))) (λ i p q. absurd (omega (arith, p, q)))
        (omega (arith, f, a.not_empty))

  neighbor-Correct :
      (o : Option Answer)
      → Finds (element arr) (λ i. get_or arr i 0) (length arr) x o
      → IsNeighbor arr x (result neighbor o)
  neighbor-Correct none h = h
  neighbor-Correct (some (found mid)) h = inl h
  neighbor-Correct (some (absent low)) h = inr h
  neighbor-Correct (some faults) h = h

  position-Correct :
      (o : Option Answer)
      → Finds (element arr) (λ i. get_or arr i 0) (length arr) x o
      → IsPosition arr x (result position o)
  position-Correct none h = h
  position-Correct (some (found mid)) h = inl h
  position-Correct (some (absent low)) (l, below, above) = inr (refl, λ i p. differs i p)
    where
      differs : (i : ℕ) → i < length arr → get_or arr i 0 ≢ x
      differs i p same = elim (Bool-cases (ltb i low)) [
        | inl less ↦ omega (arith, below i (ltb→lt _ _ less), same)
        | inr more ↦ omega (arith, above i (ground (arith, more)) p, same)
      ]
  position-Correct (some faults) h = h

  -- On an increasing array whose first value is not above `x`, both searches end within one turn
  -- for each element and one more, read only inside the array, and find `x` or tell that it is absent: `bsearch` by the largest
  -- `size_t`, `BinarySearch` by the place before which all values are below `x` and from which on all are above it.
  pub searches_lem :
      (fuel : ℕ)
      → get_or arr 0 0 ≤ x
      → length arr < fuel
      → IsPosition arr x (bsearch fuel arr (length arr) x)
        × IsNeighbor arr x (binary_search fuel arr (length arr) x)
  unfolding bsearch binary_search
  searches_lem fuel first f =
      rw start
        (position-Correct _ (outcome fuel first f), neighbor-Correct _ (outcome fuel first f))

  -- On an increasing array whose first value is above `x` the end of the range wraps below 0, and
  -- both searches read behind the array.
  pub searches_fault :
      (fuel : ℕ)
      → x < get_or arr 0 0
      → length arr + 1 < fuel
      → (bsearch fuel arr (length arr) x ≡ some none)
        × (binary_search fuel arr (length arr) x ≡ some none)
  unfolding bsearch binary_search
  searches_fault fuel under f =
      let run =
        search-below (element arr) (λ i. get_or arr i 0) (length arr) x fuel (length arr - 1)
          (element-IsOrdered arr x a) under (omega (arith, a.not_empty))
          (omega (arith, f, a.not_empty)) in
      rw (start, run) (refl, refl)
