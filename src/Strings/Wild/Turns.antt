-- ===== src/Strings/Wild/Turns.antt =====
-- That a turn of the loop of `g_strmatch` of libsax/sax/os_api.c keeps a match, and what is left to
-- try becomes less.
use xlibsax.Prelude.{
  ℕ, ◌+◌, ◌≤◌, ◌<◌, ◌≡◌, refl, sym, inl, inr, Bool, true, false, Option, none, some, List, arith,
  get_or, ◌==◌, ==_iff, Bool-cases,
}
use xlibsax.Strings.Wild.{
  Cursor, star, ended, folded, retry, swallow, turn_ended, turn_inside, turn,
}
use xlibsax.Strings.Wild.Sound.{
  Open, IsSound, Good, pattern-turns_left, string-turns_left, place-turns_left, star-turns_left,
  Back-str, cursor,
}
use xlibsax.Strings.Wild.Matches.{
  Upto, one, none_for_star, Ends, before_last, at_last, before_nul, stretch_to, ended_zero,
  folded_nonzero, folded-star,
}

module _ (string pattern : List ℕ) (sensitive : Bool) (terminator last nul : ℕ)
    (e : Ends string pattern terminator last nul) where
  -- At the end of the string: the next place for the last `*`.
  retry-Good :
      (i j : ℕ) (wild tame : Option ℕ)
      → IsSound string pattern sensitive terminator last nul
          (cursor string pattern sensitive terminator last nul i j wild tame)
      → Good string pattern sensitive terminator last nul
          (cursor string pattern sensitive terminator last nul i j wild tame)
          (retry string terminator wild tame)
  unfolding retry
  retry-Good i j none none s = inl refl
  retry-Good i j none (some k) s = absurd s.back
  retry-Good i j (some p) none s = absurd s.back
  retry-Good i j (some p) (some k) s = elim (Bool-cases (ended terminator (get_or string k 0))) [
    | inl over ↦ rw over (inl refl)
    | inr more ↦
        let b : Open string pattern sensitive terminator last nul k p i j = s.back in
        let inside = before_last e k b.inside more in
        rw more (
          record {
            string_within = b.inside;
            pattern_within = omega (arith, b.passed, s.pattern_within);
            upto = b.upto k b.later b.inside;
            back = record {
              from = b.from;
              reached = b.later;
              later = omega (arith, b.later);
              inside = omega (arith, inside);
              passed = omega arith;
              upto = b.upto;
            };
          },
          place-turns_left string pattern sensitive terminator last nul
              (cursor string pattern sensitive terminator last nul i j (some p) (some k)) p k refl
              refl inside,
        )
  ]

  turn_ended-Good :
      (c : Cursor)
      → IsSound string pattern sensitive terminator last nul c
      → ended terminator (get_or string c.str 0) ≡ true
      → Good string pattern sensitive terminator last nul c
          (turn_ended string pattern sensitive terminator c)
  unfolding turn_ended
  turn_ended-Good c s h = elim (Bool-cases (ended terminator (get_or pattern c.pat 0))) [
    | inl over ↦
        let end = at_last e c.str s.string_within h in
        rw over (inr (refl, (c.pat, (rw (sym end) s.upto, over))))
    | inr more ↦ elim (Bool-cases (get_or pattern c.pat 0 == star)) [
      | inl wild ↦
          let w : get_or pattern c.pat 0 ≡ star = (==_iff _ _).0 wild in
          let inside = before_nul e c.pat s.pattern_within (λ z. ground (arith, z, w)) in
          rw (more, wild)
            (
              record {
                string_within = s.string_within;
                pattern_within = omega (arith, inside);
                upto = none_for_star c.str c.pat s.upto w;
                back =
                    Back-str string pattern sensitive terminator last nul c.after_wild c.after_tame
                      c.str c.str c.pat (c.pat + 1) (omega arith) (omega arith) s.back;
              },
              pattern-turns_left string pattern sensitive terminator last nul c s inside,
            )
      | inr plain ↦ rw (more, plain) (retry-Good c.str c.pat c.after_wild c.after_tame s)
    ]
  ]

  -- On a mismatch: the last `*` takes the characters up to here.
  swallowed :
      (i j k p : ℕ)
      → Open string pattern sensitive terminator last nul k p i j
      → i < last
      → (to : ℕ) → p ≤ to
      → to ≤ nul
      → Upto string pattern sensitive (i + 1) to
      → IsSound string pattern sensitive terminator last nul
          (cursor string pattern sensitive terminator last nul (i + 1) to (some p) (some k))
  swallowed i j k p b inside to l h u = record {
    string_within = omega (arith, inside);
    pattern_within = h;
    upto = u;
    back = record {
      from = b.from;
      reached = omega (arith, b.reached);
      later = b.later;
      inside = b.inside;
      passed = l;
      upto = b.upto;
    };
  }

  swallow-Good :
      (i j : ℕ) (wild tame : Option ℕ)
      → IsSound string pattern sensitive terminator last nul
          (cursor string pattern sensitive terminator last nul i j wild tame)
      → ended terminator (get_or string i 0) ≡ false
      → Good string pattern sensitive terminator last nul
          (cursor string pattern sensitive terminator last nul i j wild tame)
          (swallow string pattern sensitive terminator i wild tame)
  unfolding swallow
  swallow-Good i j none none s h = inl refl
  swallow-Good i j none (some k) s h = absurd s.back
  swallow-Good i j (some p) none s h = absurd s.back
  swallow-Good i j (some p) (some k) s h =
      let b : Open string pattern sensitive terminator last nul k p i j = s.back in
      let inside = before_last e i s.string_within h in
      elim (Bool-cases (ended terminator (get_or pattern p 0))) [
        | inl over ↦ rw over (
            inr (
              refl,
              (p, (b.upto last (omega (arith, b.reached, s.string_within)) (omega arith), over)),
            ))
        | inr more ↦
            let stop =
              before_nul e p (omega (arith, b.passed, s.pattern_within))
                (λ z. ended_zero terminator _ z more) in
            elim (Bool-cases
              (folded sensitive (get_or string i 0) == folded sensitive (get_or pattern p 0))) [
                | inl same ↦
                    rw (more, same)
                      (
                        swallowed i j k p b inside (p + 1) (omega arith) (omega (arith, stop))
                            (one i p (b.upto i b.reached s.string_within) ((==_iff _ _).0 same)),
                        string-turns_left string pattern sensitive terminator last nul
                            (cursor string pattern sensitive terminator last nul i j (some p)
                              (some k))
                            (p + 1) inside,
                      )
                | inr other ↦
                    rw (more, other)
                      (
                        swallowed i j k p b inside p (omega arith) (omega (arith, stop))
                            (b.upto (i + 1) (omega (arith, b.reached)) (omega (arith, inside))),
                        string-turns_left string pattern sensitive terminator last nul
                            (cursor string pattern sensitive terminator last nul i j (some p)
                              (some k))
                            p inside,
                      )
              ]
      ]

  turn_inside-Good :
      (c : Cursor)
      → IsSound string pattern sensitive terminator last nul c
      → ended terminator (get_or string c.str 0) ≡ false
      → Good string pattern sensitive terminator last nul c
          (turn_inside string pattern sensitive terminator c)
  unfolding turn_inside
  turn_inside-Good c s h =
      let t = get_or string c.str 0 in
      let w = get_or pattern c.pat 0 in
      let go = before_last e c.str s.string_within h in
      elim (Bool-cases (folded sensitive t == folded sensitive w)) [
        | inl same ↦
            let inside =
              before_nul e c.pat s.pattern_within
                (folded_nonzero sensitive terminator t w h same) in
            rw same (
              record {
                string_within = omega (arith, go);
                pattern_within = omega (arith, inside);
                upto = one c.str c.pat s.upto ((==_iff _ _).0 same);
                back =
                    Back-str string pattern sensitive terminator last nul c.after_wild c.after_tame
                      c.str (c.str + 1) c.pat (c.pat + 1) (omega arith) (omega arith) s.back;
              },
              string-turns_left string pattern sensitive terminator last nul c (c.pat + 1) go,
            )
        | inr other ↦ elim (Bool-cases (folded sensitive w == star)) [
          | inl wild ↦
              let star_here = folded-star sensitive w wild in
              let inside =
                before_nul e c.pat s.pattern_within (λ z. ground (arith, z, star_here)) in
              rw (other, wild)
                (
                  record {
                    string_within = s.string_within;
                    pattern_within = omega (arith, inside);
                    upto = none_for_star c.str c.pat s.upto star_here;
                    back = record {
                      from = c.str;
                      reached = omega arith;
                      later = omega arith;
                      inside = s.string_within;
                      passed = omega arith;
                      upto = λ x lo hi. stretch_to c.str c.pat x lo s.upto star_here;
                    };
                  },
                  star-turns_left string pattern sensitive terminator last nul c s inside,
                )
          | inr plain ↦ rw (other, plain) (swallow-Good c.str c.pat c.after_wild c.after_tame s h)
        ]
      ]

  pub turn-Good :
      (c : Cursor)
      → IsSound string pattern sensitive terminator last nul c
      → Good string pattern sensitive terminator last nul c
          (turn string pattern sensitive terminator c)
  unfolding turn
  turn-Good c s = elim (Bool-cases (ended terminator (get_or string c.str 0))) [
    | inl h ↦ rw h (turn_ended-Good c s h)
    | inr h ↦ rw h (turn_inside-Good c s h)
  ]
