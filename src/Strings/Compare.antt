-- ===== src/Strings/Compare.antt =====
-- `g_strncmp`, `g_stricmp` and `g_strnicmp` of libsax/sax/os_api.c.
pub mod Laws
use xlibsax.Prelude.{
  ℕ, zero, suc, ◌+◌, ◌-◌, Bool, false, not, List, [], ◌∷◌, ◌++◌, map, get_or, run, ltb, leb, ◌==◌,
  if◌then◌else◌,
}

-- The signed `int` that the comparisons return.
pub data ℤ : Type 0 where
  pos : ℕ → ℤ
  negsuc : ℕ → ℤ

-- `u1 - u2`
unfoldable pub difference : ℕ → ℕ → ℤ
difference a b = if leb b a then pos (a - b) else negsuc (b - a - 1)

-- A character constant, where `char` is signed.
abbrev pub char_value : ℕ → ℤ
char_value c = if ltb c 128 then pos c else negsuc (255 - c)

-- The array for a comparison that does not tell upper from lower case; `\0` to `\100` and so on
-- are runs of successive characters.
abbrev pub charmap : List ℤ
charmap = map char_value (run 0 65 ++ run 97 26 ++ run 91 102 ++ run 225 26 ++ run 219 37)

-- `charmap[u]`, for a byte.
unfoldable pub fold : ℕ → ℤ
fold u = get_or charmap u (pos 0)

-- `charmap[u1] == charmap[u2]` and `charmap[u1] - charmap[u2]`
abbrev pub same : ℤ → ℤ → Bool
same (pos a) (pos b) = a == b
same (negsuc a) (negsuc b) = a == b
same a b = false

infixl 65 ◌-ℤ◌
unfoldable pub ◌-ℤ◌ : ℤ → ℤ → ℤ
pos a -ℤ pos b = difference a b
pos a -ℤ negsuc b = pos (a + b + 1)
negsuc a -ℤ pos b = negsuc (a + b)
negsuc a -ℤ negsuc b = difference b a

-- `*s` and `s + 1`
abbrev pub first : List ℕ → ℕ
first [] = 0
first (c ∷ s) = c

abbrev pub rest : List ℕ → List ℕ
rest [] = []
rest (c ∷ s) = s

unfoldable pub strncmp : List ℕ → List ℕ → ℕ → ℤ
strncmp s1 s2 zero = pos 0
strncmp s1 s2 (suc n) =
    let later = strncmp (rest s1) (rest s2) n in
    if not (first s1 == first s2)
    then difference (first s1) (first s2)
    else if first s1 == 0
    then pos 0
    else later

-- The loop ends at the NUL of `s1` at the latest.
unfoldable pub stricmp : List ℕ → List ℕ → ℤ
stricmp [] s2 = if not (same (fold 0) (fold (first s2))) then fold 0 -ℤ fold (first s2) else pos 0
stricmp (u1 ∷ s1) s2 =
    let later = stricmp s1 (rest s2) in
    if not (same (fold u1) (fold (first s2)))
    then fold u1 -ℤ fold (first s2)
    else if u1 == 0
    then pos 0
    else later

unfoldable pub strnicmp : List ℕ → List ℕ → ℕ → ℤ
strnicmp s1 s2 zero = pos 0
strnicmp s1 s2 (suc n) =
    let later = strnicmp (rest s1) (rest s2) n in
    if not (same (fold (first s1)) (fold (first s2)))
    then fold (first s1) -ℤ fold (first s2)
    else if first s1 == 0
    then pos 0
    else later
