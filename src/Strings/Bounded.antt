-- ===== src/Strings/Bounded.antt =====
-- `g_strlcpy` and `g_strlcat` of libsax/sax/os_api.c, on a destination that is the list of the bytes
-- that its memory holds. An outer `none` is a write out of that memory; sizes are not negative.
pub mod Stored
use xlibsax.Prelude.{
  ℕ, zero, suc, ◌+◌, ◌-◌, Option, none, some, List, [], ◌∷◌, length, set, ltb, ◌==◌, if◌then◌else◌,
}

-- `*d = c`
unfoldable pub poke : List ℕ → ℕ → ℕ → Option (List ℕ)
poke dst d c = if ltb d (length dst) then some (set dst d c) else none

-- The loop of `g_strlcpy`, entered with `n` positive, and the NUL that ends the copy.
unfoldable pub copy_loop : ℕ → List ℕ → ℕ → List ℕ → Option (List ℕ)
copy_loop zero src d dst = poke dst d 0
copy_loop (suc n) [] d dst = poke dst d 0
copy_loop (suc n) (c ∷ src) d dst = elim (poke dst d c) [
  | none ↦ none
  | some dst ↦ copy_loop n src (d + 1) dst
]

-- `none` as the result is -1.
unfoldable pub strlcpy : List ℕ → List ℕ → ℕ → Option (List ℕ × Option ℕ)
strlcpy dst src zero = some (dst, none)
strlcpy dst src (suc n) = elim (copy_loop n src 0 dst) [
  | none ↦ none
  | some dst ↦ some (dst, some (length src))
]

-- `d - dst` after the loop that looks for the end of the destination; `none` is a read out of it.
unfoldable pub find_end : ℕ → List ℕ → Option ℕ
find_end zero dst = some 0
find_end (suc n) [] = none
find_end (suc n) (c ∷ dst) = elim (find_end n dst) [
  | none ↦ if c == 0 then some 0 else none
  | some d ↦ if c == 0 then some 0 else some (d + 1)
]

-- The loop that appends, with `n` positive, and the NUL.
unfoldable pub append_loop : ℕ → List ℕ → ℕ → List ℕ → Option (List ℕ)
append_loop n [] d dst = poke dst d 0
append_loop n (c ∷ src) d dst =
    if n == 1
    then append_loop n src d dst
    else elim (poke dst d c) [ none ↦ none | some dst ↦ append_loop (n - 1) src (d + 1) dst ]

unfoldable pub strlcat : List ℕ → List ℕ → ℕ → Option (List ℕ × ℕ)
strlcat dst src siz = elim (find_end siz dst) [
  | none ↦ none
  | some dlen ↦
      if siz - dlen == 0
      then some (dst, dlen + length src)
      else elim (append_loop (siz - dlen) src dlen dst) [
        | none ↦ none
        | some dst ↦ some (dst, dlen + length src)
      ]
]
