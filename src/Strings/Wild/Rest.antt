-- ===== src/Strings/Wild/Rest.antt =====
-- Matches from the end, for `g_strmatch` of libsax/sax/os_api.c.
use xlibsax.Prelude.{
  ℕ, ◌+◌, ◌≤◌, ◌<◌, ◌≡◌, refl, sym, ap, ◌∙◌, ◌≢◌, ◌⊎◌, inl, inr, Bool, true, false, List, arith,
  get_or,
}
use xlibsax.Strings.Wild.{star, ended, folded}
use xlibsax.Strings.Wild.Matches.{clash, Upto, start, one, none_for_star, one_for_star}

-- The string from `i` on matches the pattern from `j` on.
pub data Rest (string pattern : List ℕ) (sensitive : Bool) (terminator last : ℕ)
    : ℕ → ℕ → Type 0 where
  over :
      (i j : ℕ)
      → i ≡ last
      → ended terminator (get_or pattern j 0) ≡ true
      → Rest string pattern sensitive terminator last i j
  alike :
      (i j : ℕ)
      → i < last
      → folded sensitive (get_or string i 0) ≡ folded sensitive (get_or pattern j 0)
      → Rest string pattern sensitive terminator last (i + 1) (j + 1)
      → Rest string pattern sensitive terminator last i j
  leave :
      (i j : ℕ)
      → get_or pattern j 0 ≡ star
      → Rest string pattern sensitive terminator last i (j + 1)
      → Rest string pattern sensitive terminator last i j
  take_one :
      (i j : ℕ)
      → get_or pattern j 0 ≡ star
      → i < last
      → Rest string pattern sensitive terminator last (i + 1) j
      → Rest string pattern sensitive terminator last i j

module _ (string pattern : List ℕ) (sensitive : Bool) (terminator last : ℕ) where
  abbrev R : ℕ → ℕ → Type 0
  R = Rest string pattern sensitive terminator last

  -- A match read from the front is one read from the end: what follows is matched by the rest of
  -- the pattern, or by it with the last `*`.
  Upto-Rest :
      (i j : ℕ)
      → Upto string pattern sensitive i j
      → i ≤ last
      → R i j ⊎ ((k : ℕ) × ((j ≡ k + 1) × (get_or pattern k 0 ≡ star) × R i k))
      → R 0 0
  Upto-Rest i j start h (inl r) = r
  Upto-Rest i j start h (inr (k, (e, w, r))) = absurd (omega (arith, e))
  Upto-Rest i j (one i' j' u e) h (inl r) =
      Upto-Rest i' j' u (omega (arith, h)) (inl (alike i' j' (omega (arith, h)) e r))
  Upto-Rest i j (one i' j' u e) h (inr (k, (same, w, r))) =
      let at : k ≡ j' = omega (arith, same) in
      Upto-Rest i' j' u (omega (arith, h))
        (inl (take_one i' j' (rw (sym at) w) (omega (arith, h)) (rw (sym at) r)))
  Upto-Rest i j (none_for_star i' j' u w) h (inl r) = Upto-Rest i' j' u h (inl (leave i' j' w r))
  Upto-Rest i j (none_for_star i' j' u w) h (inr (k, (same, w', r))) =
      let at : k ≡ j' = omega (arith, same) in Upto-Rest i' j' u h (inl (rw (sym at) r))
  Upto-Rest i j (one_for_star i' j' u w) h (inl r) =
      Upto-Rest i' (j' + 1) u (omega (arith, h))
        (inr (j', (refl, w, take_one i' j' w (omega (arith, h)) (leave (i' + 1) j' w r))))
  Upto-Rest i j (one_for_star i' j' u w) h (inr (k, (same, w', r))) =
      let at : k ≡ j' = omega (arith, same) in
      Upto-Rest i' (j' + 1) u (omega (arith, h))
        (inr (j', (refl, w, take_one i' j' w (omega (arith, h)) (rw (sym at) r))))

  pub Rest-Upto :
      (j : ℕ)
      → Upto string pattern sensitive last j
      → ended terminator (get_or pattern j 0) ≡ true
      → R 0 0
  Rest-Upto j u e = Upto-Rest last j u (omega arith) (inl (over last j refl e))

  pub Rest-le : (i j : ℕ) → R i j → i ≤ last
  Rest-le i j (over i' j' e f) = omega (arith, e)
  Rest-le i j (alike i' j' h e r) = omega (arith, h)
  Rest-le i j (leave i' j' w r) = Rest-le i (j + 1) r
  Rest-le i j (take_one i' j' w h r) = omega (arith, h)

  -- What a rest begins with: nothing more at the end, the same character, or a `*`.
  pub Rest-end :
      (i j : ℕ)
      → R i j
      → i ≡ last
      → ended terminator (get_or pattern j 0) ≡ false
      → get_or pattern j 0 ≢ star
      → ⊥
  Rest-end i j (over i' j' e f) at more plain = clash (sym f ∙ more)
  Rest-end i j (alike i' j' h e r) at more plain = omega (arith, h, at)
  Rest-end i j (leave i' j' w r) at more plain = plain w
  Rest-end i j (take_one i' j' w h r) at more plain = plain w

  pub Rest-alike :
      (i j : ℕ)
      → R i j
      → i < last
      → get_or pattern j 0 ≢ star
      → R (i + 1) (j + 1)
        × (folded sensitive (get_or string i 0) ≡ folded sensitive (get_or pattern j 0))
  Rest-alike i j (over i' j' e f) h plain = absurd (omega (arith, e, h))
  Rest-alike i j (alike i' j' h' e r) h plain = (r, e)
  Rest-alike i j (leave i' j' w r) h plain = absurd (plain w)
  Rest-alike i j (take_one i' j' w h' r) h plain = absurd (plain w)

  -- Behind a `*` some later part of the string is matched, if the string has none itself.
  pub Rest-star :
      (i j : ℕ)
      → R i j
      → get_or pattern j 0 ≡ star
      → ended terminator star ≡ false
      → ((k : ℕ) → folded sensitive (get_or string k 0) ≢ folded sensitive star)
      → (x : ℕ) × ((i ≤ x) × R x (j + 1))
  Rest-star i j (over i' j' e f) w go no_star =
      absurd (clash (sym (ap (ended terminator) (sym w) ∙ f) ∙ go))
  Rest-star i j (alike i' j' h e r) w go no_star = absurd (no_star i (e ∙ ap (folded sensitive) w))
  Rest-star i j (leave i' j' w' r) w go no_star = (i, (omega arith, r))
  Rest-star i j (take_one i' j' w' h r) w go no_star =
      let (x, (l, r')) = Rest-star (i + 1) j r w go no_star in (x, (omega (arith, l), r'))
