-- ===== src/Strings/Bounded/Stored.antt =====
-- What `g_strlcpy` and `g_strlcat` of libsax/sax/os_api.c leave in the destination.
use xlibsax.Prelude.{
  ℕ, zero, suc, ◌+◌, ◌-◌, ◌≤◌, ◌<◌, min, ◌≡◌, refl, sym, ap, ap₂, ◌∙◌, inl, inr, true, false, some,
  List, [], ◌∷◌, ◌++◌, append_assoc, arith, length, set, take, drop, All, length-append, ltb, leb,
  ◌==◌, if◌then◌else◌, Bool-cases,
}
use xlibsax.Strings.Bounded.{poke, copy_loop, strlcpy, find_end, append_loop, strlcat}

set-append :
    (kept room : List ℕ) (r c : ℕ) → set (kept ++ (r ∷ room)) (length kept) c ≡ kept ++ (c ∷ room)
set-append [] room r c = refl
set-append (k ∷ kept) room r c = rw (set-append kept room r c)

poked :
    (kept room : List ℕ) (r c : ℕ)
    → poke (kept ++ (r ∷ room)) (length kept) c ≡ some (kept ++ (c ∷ room))
unfolding poke
poked kept room r c =
    let on : ltb (length kept) (length (kept ++ (r ∷ room))) ≡ true =
      ground (arith, length-append kept (r ∷ room)) in
    rw (on, set-append kept room r c)

-- What the loops leave behind `kept`: the bytes that fit, and the NUL.
abbrev filled : List ℕ → ℕ → List ℕ → List ℕ → List ℕ
filled kept n src room = kept ++ (take n src ++ (0 ∷ drop (length (take n src) + 1) room))

-- One byte more is kept.
shift :
    (kept src room : List ℕ) (r c n : ℕ)
    → filled (kept ++ (c ∷ [])) n src room ≡ filled kept (suc n) (c ∷ src) (r ∷ room)
shift kept src room r c n =
    let e : suc (length (take n src) + 1) ≡ suc (length (take n src)) + 1 = omega arith in
    append_assoc kept (c ∷ []) (take n src ++ (0 ∷ drop (length (take n src) + 1) room))
    ∙ ap (λ k. kept ++ (c ∷ (take n src ++ (0 ∷ drop k (r ∷ room))))) e

copied :
    (n : ℕ) (src kept room : List ℕ)
    → n < length room
    → copy_loop n src (length kept) (kept ++ room) ≡ some (filled kept n src room)
unfolding copy_loop
copied zero src kept [] h = absurd (omega arith)
copied zero src kept (r ∷ room) h = poked kept room r 0
copied (suc n) [] kept [] h = absurd (omega arith)
copied (suc n) [] kept (r ∷ room) h = poked kept room r 0
copied (suc n) (c ∷ src) kept [] h = absurd (omega arith)
copied (suc n) (c ∷ src) kept (r ∷ room) h =
    let at : length kept + 1 ≡ length (kept ++ (c ∷ [])) =
      omega (arith, length-append kept (c ∷ [])) in
    let cells : kept ++ (c ∷ room) ≡ (kept ++ (c ∷ [])) ++ room =
      sym (append_assoc kept (c ∷ []) room) in
    rw (copy_loop, poked kept room r c)
      (ap₂ (λ i xs. copy_loop n src i xs) at cells
        ∙ (copied n src (kept ++ (c ∷ [])) room (omega arith)
            ∙ ap some (shift kept src room r c n)))

-- `g_strlcpy` with a positive size that the destination has stores the bytes that fit before a NUL,
-- keeps the rest of the destination, and returns the length of the source.
pub strlcpy_lem :
    (dst src : List ℕ) (siz : ℕ)
    → 0 < siz
    → siz ≤ length dst
    → strlcpy dst src siz
      ≡ some (
        take (siz - 1) src ++ (0 ∷ drop (length (take (siz - 1) src) + 1) dst),
        some (length src),
      )
unfolding strlcpy
strlcpy_lem dst src zero p h = elim p [ ]
strlcpy_lem dst src (suc n) p h =
    let one : suc n - 1 ≡ n = omega arith in
    rw one (rw (strlcpy, copied n src [] dst (omega arith)))

-- The loop of `g_strlcat` with room for `n - 1` bytes and the NUL.
appended :
    (n : ℕ) (src kept room : List ℕ)
    → n < length room
    → append_loop (suc n) src (length kept) (kept ++ room) ≡ some (filled kept n src room)
unfolding append_loop
appended n [] kept [] h = absurd (omega arith)
appended zero [] kept (r ∷ room) h = poked kept room r 0
appended (suc n) [] kept (r ∷ room) h = poked kept room r 0
appended n (c ∷ src) kept [] h = absurd (omega arith)
appended zero (c ∷ src) kept (r ∷ room) h = appended zero src kept (r ∷ room) h
appended (suc n) (c ∷ src) kept (r ∷ room) h =
    let at : length kept + 1 ≡ length (kept ++ (c ∷ [])) =
      omega (arith, length-append kept (c ∷ [])) in
    let cells : kept ++ (c ∷ room) ≡ (kept ++ (c ∷ [])) ++ room =
      sym (append_assoc kept (c ∷ []) room) in
    let more : (suc (suc n) == 1) ≡ false = ground arith in
    let less : suc (suc n) - 1 ≡ suc n = omega arith in
    rw (append_loop, more, poked kept room r c, less)
      (ap₂ (λ i xs. append_loop (suc n) src i xs) at cells
        ∙ (appended n src (kept ++ (c ∷ [])) room (omega arith)
            ∙ ap some (shift kept src room r c n)))

find_end_lem :
    (siz : ℕ) (old room : List ℕ)
    → All (λ c. 0 < c) old
    → siz ≤ length (old ++ (0 ∷ room))
    → find_end siz (old ++ (0 ∷ room)) ≡ some (min siz (length old))
unfolding find_end
find_end_lem zero old room h k = ap some (omega arith)
find_end_lem (suc siz) [] room h k = ground arith
find_end_lem (suc siz) (c ∷ old) room (p, h) k =
    let on : (c == 0) ≡ false = ground (arith, p) in
    rw (find_end_lem siz old room h (omega arith), on) (ap some (omega arith))

-- `g_strlcat` on a destination that begins with a string and is at least `siz` long appends the bytes
-- that fit in `siz` with the NUL, changes nothing where the string fills `siz`, and returns the sum of
-- the source's length and of the string's, or `siz` if that is less.
pub strlcat_lem :
    (old room src : List ℕ) (siz : ℕ)
    → All (λ c. 0 < c) old
    → siz ≤ length (old ++ (0 ∷ room))
    → strlcat (old ++ (0 ∷ room)) src siz
      ≡ some (
        if leb siz (length old)
            then old ++ (0 ∷ room)
            else old
              ++ (take (siz - length old - 1) src
                  ++ (0 ∷ drop (length (take (siz - length old - 1) src) + 1) (0 ∷ room))),
        min siz (length old) + length src,
      )
unfolding strlcat
strlcat_lem old room src siz h k = elim (Bool-cases (leb siz (length old))) [
  | inl q ↦
      let full : (siz - min siz (length old) == 0) ≡ true = ground (arith, q) in
      rw (strlcat, find_end_lem siz old room h k, full, q)
  | inr q ↦
      let q₁ : length old < siz = ground (arith, q) in
      let len : min siz (length old) ≡ length old = ground (arith, q) in
      let fits : (siz - length old == 0) ≡ false = ground (arith, q) in
      let n : siz - length old ≡ suc (siz - length old - 1) = ground (arith, q) in
      let run =
        ap (λ m. append_loop m src (length old) (old ++ (0 ∷ room))) n
        ∙ appended (siz - length old - 1) src old (0 ∷ room)
            (omega (arith, q₁, k, length-append old (0 ∷ room))) in
      rw (strlcat, find_end_lem siz old room h k, len, fits, q, run)
        (ap (λ d. some (filled old (siz - length old - 1) src (0 ∷ room), d + length src)) len)
]
