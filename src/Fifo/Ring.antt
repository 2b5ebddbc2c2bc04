-- ===== src/Fifo/Ring.antt =====
-- The elements between `_head` and `_tail` in the array of libsax/sax/c++/fifo.h.
use xlibsax.Prelude.{
  ℕ, zero, suc, ◌+◌, ◌-◌, ◌≤◌, ◌<◌, ◌≡◌, refl, sym, ◌∙◌, ◌≢◌, inl, inr, List, [], ◌∷◌, ◌++◌, arith,
  length, get_or, set, length-append, length-set, get_or-set_self, get_or-set_ne, ltb, leb,
  if◌then◌else◌, ltb→lt, Bool-cases,
}
use xlibsax.Fifo.{after}

-- The place `i` steps behind `pos`.
abbrev pub place : ℕ → ℕ → ℕ → ℕ
place cap pos i = if leb cap (pos + i) then pos + i - cap else pos + i

-- The array holds `xs` from `head` on.
pub record Ring (cap : ℕ) (queue : List ℕ) (head : ℕ) (xs : List ℕ) (tail : ℕ) : Type 0 where
  pub whole : length queue ≡ cap
  pub inside : head < cap
  pub fits : length xs ≤ cap
  pub end : tail ≡ place cap head (length xs)
  pub values : (i : ℕ) → i < length xs → get_or queue (place cap head i) 0 ≡ get_or xs i 0

get_or-append_left :
    (xs ys : List ℕ) (i : ℕ) → i < length xs → get_or (xs ++ ys) i 0 ≡ get_or xs i 0
get_or-append_left [] ys i h = absurd (omega (arith, h))
get_or-append_left (x ∷ xs) ys zero h = refl
get_or-append_left (x ∷ xs) ys (suc i) h = get_or-append_left xs ys i (omega (arith, h))

get_or-append_last : (xs : List ℕ) (a : ℕ) → get_or (xs ++ (a ∷ [])) (length xs) 0 ≡ a
get_or-append_last [] a = refl
get_or-append_last (x ∷ xs) a = get_or-append_last xs a

place-lt : (cap pos i : ℕ) → pos < cap → i < cap → place cap pos i < cap
place-lt cap pos i h k = ground arith

place-apart : (cap pos i j : ℕ) → pos < cap → i < j → j < cap → place cap pos j ≢ place cap pos i
place-apart cap pos i j h k l e = ground arith

after-place :
    (cap pos i : ℕ) → pos < cap → i < cap → after cap (place cap pos i) ≡ place cap pos (i + 1)
after-place cap pos i h k = ground arith

place-after :
    (cap pos i : ℕ) → pos < cap → i < cap → place cap (after cap pos) i ≡ place cap pos (suc i)
place-after cap pos i h k = ground arith

after-lt : (cap pos : ℕ) → pos < cap → after cap pos < cap
after-lt cap pos h = ground arith

-- A write at the tail appends where there is room, and a read at the head takes the first element.
pub Ring-write :
    (cap : ℕ) (queue : List ℕ) (head : ℕ) (xs : List ℕ) (tail one : ℕ)
    → Ring cap queue head xs tail
    → length xs < cap
    → Ring cap (set queue tail one) head (xs ++ (one ∷ [])) (after cap tail)
Ring-write cap queue head xs tail one r room = record {
  whole = rw (length-set queue tail one) r.whole;
  inside = r.inside;
  fits = omega (arith, longer, room);
  end = rw (longer, r.end) (after-place cap head (length xs) r.inside room);
  values = values;
}
  where
    longer : length (xs ++ (one ∷ [])) ≡ length xs + 1
    longer = length-append xs (one ∷ [])

    values :
        (i : ℕ)
        → i < length (xs ++ (one ∷ []))
        → get_or (set queue tail one) (place cap head i) 0 ≡ get_or (xs ++ (one ∷ [])) i 0
    values i h = elim (Bool-cases (ltb i (length xs))) [
      | inl old ↦
          let less = ltb→lt _ _ old in
          let other : tail ≢ place cap head i =
            rw r.end (place-apart cap head i (length xs) r.inside less room) in
          get_or-set_ne queue tail (place cap head i) one 0 other
          ∙ r.values i less
          ∙ sym (get_or-append_left xs (one ∷ []) i less)
      | inr new ↦
          let last : i ≡ length xs = ground (arith, new, h, longer) in
          let here : place cap head i ≡ tail = rw (last, r.end) refl in
          let at : tail < length queue =
            rw (r.whole, r.end) (place-lt cap head (length xs) r.inside room) in
          rw (here, get_or-set_self queue tail one 0 at, last) (sym (get_or-append_last xs one))
    ]

pub Ring-read :
    (cap : ℕ) (queue : List ℕ) (head x : ℕ) (xs : List ℕ) (tail : ℕ)
    → Ring cap queue head (x ∷ xs) tail
    → (get_or queue head 0 ≡ x) × Ring cap queue (after cap head) xs tail
Ring-read cap queue head x xs tail r =
    let first : place cap head 0 ≡ head = ground (arith, r.inside) in
    let one : get_or queue head 0 ≡ x = rw (sym first) (r.values 0 (omega arith)) in
    (
      one,
      record {
        whole = r.whole;
        inside = after-lt cap head r.inside;
        fits = omega (arith, r.fits);
        end = rw (place-after cap head (length xs) r.inside (omega (arith, r.fits))) r.end;
        values = λ i h.
            rw (place-after cap head i r.inside (omega (arith, h, r.fits)))
              (r.values (suc i) (omega (arith, h)));
      },
    )
