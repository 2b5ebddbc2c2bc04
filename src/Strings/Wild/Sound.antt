-- ===== src/Strings/Wild/Sound.antt =====
-- What a turn of the loop of `g_strmatch` of libsax/sax/os_api.c keeps, and what is left to try.
use xlibsax.Prelude.{
  ℕ, ◌+◌, ◌-◌, ◌*◌, ◌≤◌, ◌<◌, ◌≡◌, refl, ◌⊎◌, inl, inr, Bool, true, Option, none, some, List, arith,
  get_or,
}
use xlibsax.Strings.Wild.{Cursor, Turn, returns, goes_on, faults, ended}
use xlibsax.Strings.Wild.Measure.{digits-lt}
use xlibsax.Strings.Wild.Matches.{Upto}

module _ (string pattern : List ℕ) (sensitive : Bool) (terminator last nul : ℕ) where
  -- The whole string matches the pattern up to an end of the pattern.
  abbrev pub Matches : Type 0
  Matches =
      (j : ℕ) × (Upto string pattern sensitive last j
        × (ended terminator (get_or pattern j 0) ≡ true))

  -- Behind the last `*` any part of the string from `from` on is matched.
  pub record Open (k p i j : ℕ) : Type 0 where
    pub from : ℕ
    pub reached : from ≤ i
    pub later : from ≤ k
    pub inside : k ≤ last
    pub passed : p ≤ j
    pub upto : (x : ℕ) → from ≤ x → x ≤ last → Upto string pattern sensitive x p

  abbrev pub Back : Option ℕ → Option ℕ → ℕ → ℕ → Type 0
  Back none none i j = Unit
  Back none (some k) i j = ⊥
  Back (some p) none i j = ⊥
  Back (some p) (some k) i j = Open k p i j

  pub record IsSound (c : Cursor) : Type 0 where
    pub string_within : c.str ≤ last
    pub pattern_within : c.pat ≤ nul
    pub upto : Upto string pattern sensitive c.str c.pat
    pub back : Back c.after_wild c.after_tame c.str c.pat

  -- What is left: of the pattern behind the last `*`, of the places to try it, of the string and
  -- of the pattern.
  abbrev pub wild_left : Option ℕ → ℕ
  wild_left none = nul + 1
  wild_left (some p) = nul - p

  abbrev pub tame_left : Option ℕ → ℕ
  tame_left none = 0
  tame_left (some k) = last + 1 - k

  abbrev pub turns_left : Cursor → ℕ
  turns_left c =
      ((wild_left c.after_wild * (last + 2) + tame_left c.after_tame) * (last + 1) + (last - c.str))
        * (nul + 1)
      + (nul - c.pat)

  abbrev pub Good : Cursor → Turn → Type 0
  Good c (returns r) = (r ≡ 0) ⊎ ((r ≡ 1) × Matches)
  Good c (goes_on d) = IsSound d × (turns_left d < turns_left c)
  Good c faults = ⊥

  -- The turns that go on: further in the pattern, in the string, to the next place for the last
  -- `*`, and to a new `*`.
  pub pattern-turns_left :
      (c : Cursor)
      → IsSound c
      → c.pat < nul
      → turns_left (record c { pat = c.pat + 1 }) < turns_left c
  pattern-turns_left c s h = omega (arith, h)

  pub string-turns_left :
      (c : Cursor) (j : ℕ)
      → c.str < last
      → turns_left (record c { str = c.str + 1; pat = j }) < turns_left c
  string-turns_left c j h =
      let tail : nul - j < nul + 1 = omega arith in
      digits-lt (nul + 1) _ _ (nul - j) (nul - c.pat) tail
        (inl (digits-lt (last + 1) _ _ _ _ (omega arith) (inr (refl, omega (arith, h)))))

  pub place-turns_left :
      (c : Cursor) (p k : ℕ)
      → c.after_wild ≡ some p
      → c.after_tame ≡ some k
      → k < last
      → turns_left (record { str = k; pat = p; after_wild = some p; after_tame = some (k + 1) })
        < turns_left c
  place-turns_left c p k w t h =
      rw (w, t)
        (digits-lt (nul + 1) _ _ (nul - p) (nul - c.pat) (omega arith) (
          inl (
            digits-lt (last + 1) _ _ _ _ (omega arith)
              (inl (digits-lt (last + 2) _ _ _ _ (omega arith) (inr (refl, omega (arith, h))))))))

  Back-fewer :
      (wild tame : Option ℕ) (i j : ℕ)
      → Back wild tame i j
      → j < nul
      → wild_left (some (j + 1)) < wild_left wild
  Back-fewer none none i j b h = omega arith
  Back-fewer none (some k) i j b h = absurd b
  Back-fewer (some p) none i j b h = absurd b
  Back-fewer (some p) (some k) i j b h = omega (arith, h, b.passed)

  pub star-turns_left :
      (c : Cursor)
      → IsSound c
      → c.pat < nul
      → turns_left (record {
        str = c.str;
        pat = c.pat + 1;
        after_wild = some (c.pat + 1);
        after_tame = some c.str;
      })
        < turns_left c
  star-turns_left c s h = digits-lt (nul + 1) _ _ _ (nul - c.pat) (omega arith) (
      inl (
        digits-lt (last + 1) _ _ _ _ (omega arith) (
          inl (
            digits-lt (last + 2) _ _ _ _ (omega arith)
              (inl (Back-fewer c.after_wild c.after_tame c.str c.pat s.back h))))))

  pub Back-str :
      (wild tame : Option ℕ) (i i' j j' : ℕ)
      → i ≤ i'
      → j ≤ j'
      → Back wild tame i j
      → Back wild tame i' j'
  Back-str none none i i' j j' h k b = tt
  Back-str none (some t) i i' j j' h k b = b
  Back-str (some p) none i i' j j' h k b = b
  Back-str (some p) (some t) i i' j j' h k b = record {
    from = b.from;
    reached = omega (arith, h, b.reached);
    later = b.later;
    inside = b.inside;
    passed = omega (arith, k, b.passed);
    upto = b.upto;
  }

  -- The cursor with its parts.
  abbrev pub cursor : ℕ → ℕ → Option ℕ → Option ℕ → Cursor
  cursor i j wild tame = record { str = i; pat = j; after_wild = wild; after_tame = tame }
