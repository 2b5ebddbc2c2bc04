-- ===== src/Strings/Wild/Hope.antt =====
-- What is still to be found, for the loop of `g_strmatch` of libsax/sax/os_api.c on patterns with one
-- `*`.
use xlibsax.Prelude.{
  ℕ, ◌+◌, ◌≤◌, ◌<◌, ◌≡◌, refl, sym, ◌≢◌, ◌⊎◌, inl, inr, Bool, true, false, Option, none, some, List,
  arith, get_or, ◌==◌,
}
use xlibsax.Strings.Wild.{Turn, returns, goes_on, faults, star, ended, folded}
use xlibsax.Strings.Wild.Matches.{Ends}
use xlibsax.Strings.Wild.Rest.{Rest, Rest-le, Rest-alike, Rest-star}

-- The pattern has one `*` at most, the string has none, and the terminator is a character below it
-- (the NUL and the parentheses are).
pub record IsPlain (string pattern : List ℕ) (sensitive : Bool) (terminator : ℕ) : Type 0 where
  pub single : (j k : ℕ) → get_or pattern j 0 ≡ star → get_or pattern k 0 ≡ star → j ≡ k
  pub no_star : (i : ℕ) → folded sensitive (get_or string i 0) ≢ folded sensitive star
  pub low : terminator < star

module _ (string pattern : List ℕ) (sensitive : Bool) (terminator last nul : ℕ)
    (e : Ends string pattern terminator last nul)
    (plain : IsPlain string pattern sensitive terminator) where
  abbrev pub R : ℕ → ℕ → Type 0
  R = Rest string pattern sensitive terminator last

  abbrev pub at_pat : ℕ → ℕ
  at_pat j = get_or pattern j 0

  -- There is a match from here, or from a place that the last `*` is still to try.
  pub record Hope (k p i j : ℕ) : Type 0 where
    pub at : ℕ
    pub behind : p ≡ at + 1
    pub is_star : at_pat at ≡ star
    pub passed : p ≤ j
    pub not_last : (j ≡ p) ⊎ (ended terminator (at_pat p) ≡ false)
    pub hope : R i j ⊎ ((x : ℕ) × ((k ≤ x) × R x p))

  abbrev pub Hopes : Option ℕ → Option ℕ → ℕ → ℕ → Type 0
  Hopes none none i j = R i j
  Hopes none (some k) i j = ⊥
  Hopes (some p) none i j = ⊥
  Hopes (some p) (some k) i j = Hope k p i j

  abbrev pub Finds : Turn → Type 0
  Finds (returns r) = r ≡ 1
  Finds (goes_on d) = Hopes d.after_wild d.after_tame d.str d.pat
  Finds faults = ⊥

  pub not_star : (p j k i : ℕ) → Hope k p i j → (x : ℕ) → p ≤ x → at_pat x ≢ star
  not_star p j k i h x l w = omega (arith, plain.single x h.at w h.is_star, h.behind, l)

  star_goes_on : ended terminator star ≡ false
  star_goes_on = ground (arith, plain.low)

  pub alike_goes_on :
      (t w : ℕ)
      → ended terminator t ≡ false
      → (folded sensitive t == folded sensitive w) ≡ true
      → ended terminator w ≡ false
  alike_goes_on t w go same = elim sensitive [
    | true ↦ ground (arith, go, same, plain.low)
    | false ↦ ground (arith, go, same, plain.low)
  ]

  pub folded_plain : (w : ℕ) → (folded sensitive w == star) ≡ false → w ≢ star
  folded_plain w h z = elim sensitive [ true ↦ ground (arith, h, z) | false ↦ ground (arith, h, z) ]

  -- The last `*` at the end of the string takes nothing more.
  pub Hopes-star_ended :
      (wild tame : Option ℕ) (i j : ℕ)
      → i ≡ last
      → at_pat j ≡ star
      → Hopes wild tame i j
      → Hopes wild tame i (j + 1)
  Hopes-star_ended none none i j at w r =
      let (x, (l, r')) =
        Rest-star string pattern sensitive terminator last i j r w star_goes_on plain.no_star in
      let le = Rest-le string pattern sensitive terminator last x (j + 1) r' in
      let same : x ≡ i = omega (arith, l, le, at) in rw (sym same) r'
  Hopes-star_ended none (some k) i j at w h = h
  Hopes-star_ended (some p) none i j at w h = h
  Hopes-star_ended (some p) (some k) i j at w h = absurd (not_star p j k i h j h.passed w)

  pub Hopes-star :
      (wild tame : Option ℕ) (i j : ℕ)
      → at_pat j ≡ star
      → Hopes wild tame i j
      → Hopes (some (j + 1)) (some i) i (j + 1)
  Hopes-star none none i j w r = record {
    at = j;
    behind = refl;
    is_star = w;
    passed = omega arith;
    not_last = inl refl;
    hope =
        inr (Rest-star string pattern sensitive terminator last i j r w star_goes_on plain.no_star);
  }
  Hopes-star none (some k) i j w h = absurd h
  Hopes-star (some p) none i j w h = absurd h
  Hopes-star (some p) (some k) i j w h = absurd (not_star p j k i h j h.passed w)

  pub Hopes-alike :
      (wild tame : Option ℕ) (i j : ℕ)
      → i < last
      → ended terminator (at_pat j) ≡ false
      → at_pat j ≢ star
      → Hopes wild tame i j
      → Hopes wild tame (i + 1) (j + 1)
  Hopes-alike none none i j inside go w r =
      (Rest-alike string pattern sensitive terminator last i j r inside w).0
  Hopes-alike none (some k) i j inside go w h = h
  Hopes-alike (some p) none i j inside go w h = h
  Hopes-alike (some p) (some k) i j inside go w h = record {
    at = h.at;
    behind = h.behind;
    is_star = h.is_star;
    passed = omega (arith, h.passed);
    not_last = elim h.not_last [ inl same ↦ inr (rw (sym same) go) | inr more ↦ inr more ];
    hope = elim h.hope [
      | inl r ↦ inl ((Rest-alike string pattern sensitive terminator last i j r inside w).0)
      | inr later ↦ inr later
    ];
  }
