-- ===== src/Strings/Wild/Run.antt =====
-- The loop of `g_strmatch` of libsax/sax/os_api.c ends, and its answer 1 is a match.
use xlibsax.Prelude.{
  ℕ, zero, suc, ◌+◌, ◌-◌, ◌*◌, ◌≤◌, ◌<◌, ◌≡◌, ap, ◌⊎◌, inl, Bool, Option, none, some, List, arith,
}
use xlibsax.Strings.Wild.{Cursor, Turn, returns, goes_on, faults, turn, strmatch_loop, strmatch}
use xlibsax.Strings.Wild.Measure.{digits-lt}
use xlibsax.Strings.Wild.Matches.{start, Ends}
use xlibsax.Strings.Wild.Rest.{Rest-Upto}
use xlibsax.Strings.Wild.Hope.{IsPlain, Hopes, Finds}
use xlibsax.Strings.Wild.Complete.{turn-Finds}
use xlibsax.Strings.Wild.Sound.{Matches, IsSound, turns_left, Good}
use xlibsax.Strings.Wild.Turns.{turn-Good}

module _ (string pattern : List ℕ) (sensitive : Bool) (terminator last nul : ℕ) where
  -- The answers: 0, or 1 with a match.
  abbrev pub Answers : Option ℕ → Type 0
  Answers none = ⊥
  Answers (some r) = (r ≡ 0) ⊎ ((r ≡ 1) × Matches string pattern sensitive terminator last nul)

  -- The loop's result by what its turn was, where it goes on with an answer.
  turn-Answers :
      (fuel : ℕ) (c : Cursor) (t : Turn)
      → Good string pattern sensitive terminator last nul c t
      → ((d : Cursor)
          → IsSound string pattern sensitive terminator last nul d
          → turns_left string pattern sensitive terminator last nul d
            < turns_left string pattern sensitive terminator last nul c
          → Answers (strmatch_loop string pattern sensitive terminator fuel d))
      → Answers (elim t [
        | returns r ↦ some r
        | goes_on d ↦ strmatch_loop string pattern sensitive terminator fuel d
        | faults ↦ none
      ])
  turn-Answers fuel c (returns r) g later = g
  turn-Answers fuel c (goes_on d) (sound, less) later = later d sound less
  turn-Answers fuel c faults g later = absurd g

  loop-Answers :
      (fuel : ℕ) (c : Cursor)
      → Ends string pattern terminator last nul
      → IsSound string pattern sensitive terminator last nul c
      → turns_left string pattern sensitive terminator last nul c < fuel
      → Answers (strmatch_loop string pattern sensitive terminator fuel c)
  unfolding strmatch_loop
  loop-Answers zero c e s h = omega (arith, h)
  loop-Answers (suc fuel) c e s h =
      turn-Answers fuel c (turn string pattern sensitive terminator c)
        (turn-Good string pattern sensitive terminator last nul e c s)
        (λ d sound less. loop-Answers fuel d e sound (omega (arith, less, h)))

  -- Fuel enough for the start.
  start_turns :
      turns_left string pattern sensitive terminator last nul
        (record { str = 0; pat = 0; after_wild = none; after_tame = none })
      < (nul + 2) * (last + 2) * (last + 1) * (nul + 1)
  start_turns =
      let wild = digits-lt (last + 2) (nul + 1) (nul + 2) 0 0 (omega arith) (inl (omega arith)) in
      let places =
        digits-lt (last + 1) ((nul + 1) * (last + 2) + 0) ((nul + 2) * (last + 2)) (last - 0) 0
          (omega arith) (inl (omega (arith, wild))) in
      let whole =
        digits-lt (nul + 1) (((nul + 1) * (last + 2) + 0) * (last + 1) + (last - 0))
          ((nul + 2) * (last + 2) * (last + 1)) (nul - 0) 0 (omega arith)
          (inl (omega (arith, places))) in
      omega (arith, whole)

  start-IsSound :
      IsSound string pattern sensitive terminator last nul
        (record { str = 0; pat = 0; after_wild = none; after_tame = none })
  start-IsSound = record {
    string_within = omega arith;
    pattern_within = omega arith;
    upto = start;
    back = tt;
  }

  -- For a string that first ends at `last` and a pattern with a NUL at `nul`, `g_strmatch` returns
  -- within (nul + 2) * (last + 2) * (last + 1) * (nul + 1) turns and reads no null pointer; it answers
  -- 0, or 1 and the whole string matches the pattern up to an end of the pattern.
  pub strmatch_lem :
      (fuel : ℕ)
      → Ends string pattern terminator last nul
      → (nul + 2) * (last + 2) * (last + 1) * (nul + 1) ≤ fuel
      → Answers (strmatch string pattern sensitive terminator fuel)
  unfolding strmatch
  strmatch_lem fuel e enough =
      loop-Answers fuel _ e start-IsSound (omega (arith, enough, start_turns))

  turn-Finds_later :
      (fuel : ℕ) (c : Cursor) (t : Turn) (e : Ends string pattern terminator last nul)
      (plain : IsPlain string pattern sensitive terminator)
      → Good string pattern sensitive terminator last nul c t
      → Finds string pattern sensitive terminator last nul e plain t
      → ((d : Cursor)
          → IsSound string pattern sensitive terminator last nul d
          → turns_left string pattern sensitive terminator last nul d
            < turns_left string pattern sensitive terminator last nul c
          → Hopes string pattern sensitive terminator last nul e plain d.after_wild d.after_tame
              d.str d.pat
          → strmatch_loop string pattern sensitive terminator fuel d ≡ some 1)
      → elim t [
        | returns r ↦ some r
        | goes_on d ↦ strmatch_loop string pattern sensitive terminator fuel d
        | faults ↦ none
      ]
        ≡ some 1
  turn-Finds_later fuel c (returns r) e plain g f later = ap some f
  turn-Finds_later fuel c (goes_on d) e plain (sound, less) f later = later d sound less f
  turn-Finds_later fuel c faults e plain g f later = absurd g

  loop_finds :
      (fuel : ℕ) (c : Cursor) (e : Ends string pattern terminator last nul)
      (plain : IsPlain string pattern sensitive terminator)
      → IsSound string pattern sensitive terminator last nul c
      → turns_left string pattern sensitive terminator last nul c < fuel
      → Hopes string pattern sensitive terminator last nul e plain c.after_wild c.after_tame c.str
          c.pat
      → strmatch_loop string pattern sensitive terminator fuel c ≡ some 1
  unfolding strmatch_loop
  loop_finds zero c e plain s h hope = absurd (omega (arith, h))
  loop_finds (suc fuel) c e plain s h hope =
      turn-Finds_later fuel c (turn string pattern sensitive terminator c) e plain
        (turn-Good string pattern sensitive terminator last nul e c s)
        (turn-Finds string pattern sensitive terminator last nul e plain c s hope)
        (λ d sound less hope'. loop_finds fuel d e plain sound (omega (arith, less, h)) hope')

  -- Where further the pattern has at most one `*`, the string none, and the terminator stands below
  -- `*`, a string that matches the pattern up to an end of it is answered with 1, within the same
  -- number of turns.
  pub strmatch_finds :
      (fuel : ℕ)
      → Ends string pattern terminator last nul
      → IsPlain string pattern sensitive terminator
      → (nul + 2) * (last + 2) * (last + 1) * (nul + 1) ≤ fuel
      → Matches string pattern sensitive terminator last nul
      → strmatch string pattern sensitive terminator fuel ≡ some 1
  unfolding strmatch
  strmatch_finds fuel e plain enough (j, (u, over)) =
      loop_finds fuel _ e plain start-IsSound (omega (arith, enough, start_turns))
        (Rest-Upto string pattern sensitive terminator last j u over)
