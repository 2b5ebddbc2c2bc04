-- ===== src/Strings/Wild/Complete.antt =====
-- The loop of `g_strmatch` of libsax/sax/os_api.c misses no match of a pattern with one `*`.
use xlibsax.Prelude.{
  ℕ, ◌+◌, ◌≤◌, ◌<◌, ◌≡◌, refl, sym, ap, ◌∙◌, ◌≢◌, ◌⊎◌, inl, inr, Bool, true, false, Option, none,
  some, List, arith, get_or, ◌==◌, ==_iff, Bool-cases,
}
use xlibsax.Strings.Wild.{
  Cursor, star, ended, folded, retry, swallow, turn_ended, turn_inside, turn,
}
use xlibsax.Strings.Wild.Matches.{clash, Ends, before_last, at_last, folded-star}
use xlibsax.Strings.Wild.Rest.{Rest-le, Rest-end, Rest-alike}
use xlibsax.Strings.Wild.Sound.{Open, IsSound, cursor}
use xlibsax.Strings.Wild.Hope.{
  IsPlain, R, at_pat, Hopes, Finds, not_star, alike_goes_on, folded_plain, Hopes-star_ended,
  Hopes-star, Hopes-alike,
}

module _ (string pattern : List ℕ) (sensitive : Bool) (terminator last nul : ℕ)
    (e : Ends string pattern terminator last nul)
    (plain : IsPlain string pattern sensitive terminator) where
  next_place :
      (k p x : ℕ)
      → k ≤ x
      → R string pattern sensitive terminator last nul e plain x p
      → R string pattern sensitive terminator last nul e plain k p
        ⊎ ((y : ℕ) × ((k + 1 ≤ y) × R string pattern sensitive terminator last nul e plain y p))
  next_place k p x l r = elim (Bool-cases (x == k)) [
    | inl same ↦ let at : x ≡ k = (==_iff x k).0 same in inl (rw (sym at) r)
    | inr other ↦ inr (x, (ground (arith, l, other), r))
  ]

  retry-Finds :
      (i j : ℕ) (wild tame : Option ℕ)
      → IsSound string pattern sensitive terminator last nul
          (cursor string pattern sensitive terminator last nul i j wild tame)
      → i ≡ last
      → ended terminator (at_pat string pattern sensitive terminator last nul e plain j) ≡ false
      → at_pat string pattern sensitive terminator last nul e plain j ≢ star
      → Hopes string pattern sensitive terminator last nul e plain wild tame i j
      → Finds string pattern sensitive terminator last nul e plain
          (retry string terminator wild tame)
  unfolding retry
  retry-Finds i j none none s at go w h =
      absurd (Rest-end string pattern sensitive terminator last i j h at go w)
  retry-Finds i j none (some k) s at go w h = absurd h
  retry-Finds i j (some p) none s at go w h = absurd h
  retry-Finds i j (some p) (some k) s at go w h =
      let b : Open string pattern sensitive terminator last nul k p i j = s.back in
      let goes : ended terminator (at_pat string pattern sensitive terminator last nul e plain p)
          ≡ false =
        elim h.not_last [ inl same ↦ rw (sym same) go | inr more ↦ more ] in
      let other : at_pat string pattern sensitive terminator last nul e plain p ≢ star =
        not_star string pattern sensitive terminator last nul e plain p j k i h p (omega arith) in
      elim h.hope [
        | inl r ↦ absurd (Rest-end string pattern sensitive terminator last i j r at go w)
        | inr (x, (l, r)) ↦ elim (Bool-cases (ended terminator (get_or string k 0))) [
          | inl over ↦
              let end = at_last e k b.inside over in
              let le = Rest-le string pattern sensitive terminator last x p r in
              absurd (
                Rest-end string pattern sensitive terminator last x p r (omega (arith, l, le, end))
                  goes other)
          | inr more ↦ rw more (record {
            at = h.at;
            behind = h.behind;
            is_star = h.is_star;
            passed = omega arith;
            not_last = inl refl;
            hope = next_place k p x l r;
          })
        ]
      ]

  turn_ended-Finds :
      (c : Cursor)
      → IsSound string pattern sensitive terminator last nul c
      → ended terminator (get_or string c.str 0) ≡ true
      → Hopes string pattern sensitive terminator last nul e plain c.after_wild c.after_tame c.str
          c.pat
      → Finds string pattern sensitive terminator last nul e plain
          (turn_ended string pattern sensitive terminator c)
  unfolding turn_ended
  turn_ended-Finds c s h hope =
      let end = at_last e c.str s.string_within h in
      elim (Bool-cases
        (ended terminator (at_pat string pattern sensitive terminator last nul e plain c.pat))) [
          | inl over ↦ rw over refl
          | inr more ↦
              elim (Bool-cases
                (at_pat string pattern sensitive terminator last nul e plain c.pat == star)) [
                  | inl wild ↦
                      rw (more, wild)
                        (Hopes-star_ended string pattern sensitive terminator last nul e plain
                          c.after_wild c.after_tame c.str c.pat end ((==_iff _ _).0 wild) hope)
                  | inr other ↦
                      rw (more, other)
                        (retry-Finds c.str c.pat c.after_wild c.after_tame s end more
                          (λ z. ground (arith, z, other)) hope)
                ]
        ]

  differ :
      (i j : ℕ)
      → i < last
      → (folded sensitive (get_or string i 0)
          == folded sensitive (at_pat string pattern sensitive terminator last nul e plain j))
        ≡ false
      → at_pat string pattern sensitive terminator last nul e plain j ≢ star
      → R string pattern sensitive terminator last nul e plain i j
      → ⊥
  differ i j inside other w r =
      let same =
        (==_iff _ _).1 (Rest-alike string pattern sensitive terminator last i j r inside w).1 in
      clash (sym same ∙ other)

  swallow-Finds :
      (i j : ℕ) (wild tame : Option ℕ)
      → i < last
      → (folded sensitive (get_or string i 0)
          == folded sensitive (at_pat string pattern sensitive terminator last nul e plain j))
        ≡ false
      → at_pat string pattern sensitive terminator last nul e plain j ≢ star
      → Hopes string pattern sensitive terminator last nul e plain wild tame i j
      → Finds string pattern sensitive terminator last nul e plain
          (swallow string pattern sensitive terminator i wild tame)
  unfolding swallow
  swallow-Finds i j none none inside other w r = absurd (differ i j inside other w r)
  swallow-Finds i j none (some k) inside other w h = absurd h
  swallow-Finds i j (some p) none inside other w h = absurd h
  swallow-Finds i j (some p) (some k) inside other w h = elim h.hope [
    | inl r ↦ absurd (differ i j inside other w r)
    | inr later ↦
        elim (Bool-cases
          (ended terminator (at_pat string pattern sensitive terminator last nul e plain p))) [
            | inl over ↦ rw over refl
            | inr more ↦
                elim (Bool-cases (
                  folded sensitive (get_or string i 0)
                  == folded sensitive
                      (at_pat string pattern sensitive terminator last nul e plain p))) [
                        | inl same ↦
                            rw (more, same)
                              (record {
                                at = h.at;
                                behind = h.behind;
                                is_star = h.is_star;
                                passed = omega arith;
                                not_last = inr more;
                                hope = inr later;
                              })
                        | inr unlike ↦
                            rw (more, unlike)
                              (record {
                                at = h.at;
                                behind = h.behind;
                                is_star = h.is_star;
                                passed = omega arith;
                                not_last = inl refl;
                                hope = inr later;
                              })
                      ]
          ]
  ]

  turn_inside-Finds :
      (c : Cursor)
      → IsSound string pattern sensitive terminator last nul c
      → ended terminator (get_or string c.str 0) ≡ false
      → Hopes string pattern sensitive terminator last nul e plain c.after_wild c.after_tame c.str
          c.pat
      → Finds string pattern sensitive terminator last nul e plain
          (turn_inside string pattern sensitive terminator c)
  unfolding turn_inside
  turn_inside-Finds c s h hope =
      let t = get_or string c.str 0 in
      let w = at_pat string pattern sensitive terminator last nul e plain c.pat in
      let go = before_last e c.str s.string_within h in
      elim (Bool-cases (folded sensitive t == folded sensitive w)) [
        | inl same ↦
            let more =
              alike_goes_on string pattern sensitive terminator last nul e plain t w h same in
            let other : w ≢ star =
              λ z. plain.no_star c.str ((==_iff _ _).0 same ∙ ap (folded sensitive) z) in
            rw same (
              Hopes-alike string pattern sensitive terminator last nul e plain c.after_wild
                c.after_tame c.str c.pat go more other hope)
        | inr other ↦ elim (Bool-cases (folded sensitive w == star)) [
          | inl wild ↦
              rw (other, wild)
                (Hopes-star string pattern sensitive terminator last nul e plain c.after_wild
                  c.after_tame c.str c.pat (folded-star sensitive w wild) hope)
          | inr unlike ↦
              rw (other, unlike)
                (swallow-Finds c.str c.pat c.after_wild c.after_tame go other
                  (folded_plain string pattern sensitive terminator last nul e plain w unlike) hope)
        ]
      ]

  pub turn-Finds :
      (c : Cursor)
      → IsSound string pattern sensitive terminator last nul c
      → Hopes string pattern sensitive terminator last nul e plain c.after_wild c.after_tame c.str
          c.pat
      → Finds string pattern sensitive terminator last nul e plain
          (turn string pattern sensitive terminator c)
  unfolding turn
  turn-Finds c s hope = elim (Bool-cases (ended terminator (get_or string c.str 0))) [
    | inl h ↦ rw h (turn_ended-Finds c s h hope)
    | inr h ↦ rw h (turn_inside-Finds c s h hope)
  ]
