-- ===== src/Bsearch.antt =====
-- The binary searches of libsax/sax/c++/bsearch.h, on arrays of natural numbers. `size_t` has 64
-- bits; a read behind the array faults.
pub mod Laws
mod Tests
use xlibsax.Prelude.{
  ℕ, zero, suc, ◌+◌, ◌-◌, ◌*◌, ◌/◌, ◌%◌, ◌^◌, Option, none, some, List, length, get_or, ltb, leb,
  ◌==◌, if◌then◌else◌,
}

pub data Answer : Type 0 where
  found : ℕ → Answer
  absent : ℕ → Answer
  faults : Answer

-- `n - 1` of a `size_t`.
abbrev pub pred64 : ℕ → ℕ
pred64 n = if n == 0 then 2 ^ 64 - 1 else n - 1

-- The loop of the searches, on fuel; `read mid` is the element that a turn compares.
unfoldable pub search : (ℕ → Option ℕ) → ℕ → ℕ → ℕ → ℕ → Option Answer
search read x zero low high = none
search read x (suc fuel) low high =
    let mid = low + (high - low) / 2 in
    let above = search read x fuel ((mid + 1) % 2 ^ 64) high in
    let below = search read x fuel low (pred64 mid) in
    if leb low high
    then elim (read mid) [
      | none ↦ some faults
      | some v ↦ if v == x then some (found mid) else if ltb v x then above else below
    ]
    else some (absent low)

-- An element of an array.
abbrev pub element : List ℕ → ℕ → Option ℕ
element arr i = if ltb i (length arr) then some (get_or arr i 0) else none

-- `arr[ID[mid]*stride]`
abbrev pub strided : List ℕ → ℕ → List ℕ → ℕ → Option ℕ
strided arr stride ids mid = elim (element ids mid) [
  | none ↦ none
  | some id ↦ element arr (id * stride % 2 ^ 64)
]

-- The result of `bsearch` by how the loop ended; `none` is a fault.
abbrev pub position : Answer → Option ℕ
position (found mid) = some mid
position (absent low) = some (2 ^ 64 - 1)
position faults = none

-- The result of `BinarySearch`.
abbrev pub neighbor : Answer → Option ℕ
neighbor (found mid) = some mid
neighbor (absent low) = some low
neighbor faults = none

abbrev pub result : (Answer → Option ℕ) → Option Answer → Option (Option ℕ)
result f none = none
result f (some a) = some (f a)

-- `bsearch` and both forms of `BinarySearch`, on fuel.
unfoldable pub bsearch : ℕ → List ℕ → ℕ → ℕ → Option (Option ℕ)
bsearch fuel arr len x = result position (search (element arr) x fuel 0 (pred64 len))

unfoldable pub binary_search : ℕ → List ℕ → ℕ → ℕ → Option (Option ℕ)
binary_search fuel arr len x = result neighbor (search (element arr) x fuel 0 (pred64 len))

unfoldable pub binary_search_strided : ℕ → List ℕ → ℕ → ℕ → List ℕ → ℕ → Option (Option ℕ)
binary_search_strided fuel arr len stride ids x =
    result neighbor (search (strided arr stride ids) x fuel 0 (pred64 len))
