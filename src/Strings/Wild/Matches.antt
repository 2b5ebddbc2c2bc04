-- ===== src/Strings/Wild/Matches.antt =====
-- What a match is, for `g_strmatch` of libsax/sax/os_api.c.
use xlibsax.Prelude.{
  ℕ, zero, suc, ◌+◌, ◌-◌, ◌≤◌, ◌<◌, ◌≡◌, sym, ◌∙◌, ◌≢◌, inl, inr, Bool, true, false, List, arith,
  get_or, ◌==◌, ==_iff, Bool-cases,
}
use xlibsax.Strings.Wild.{star, ended, folded}

-- The first `i` characters of the string match the first `j` of the pattern as the code takes them: a
-- `*` stands for any number of characters, and every other character for itself, `?` too.
pub data Upto (string pattern : List ℕ) (sensitive : Bool) : ℕ → ℕ → Type 0 where
  start : Upto string pattern sensitive 0 0
  one :
      (i j : ℕ)
      → Upto string pattern sensitive i j
      → folded sensitive (get_or string i 0) ≡ folded sensitive (get_or pattern j 0)
      → Upto string pattern sensitive (i + 1) (j + 1)
  none_for_star :
      (i j : ℕ)
      → Upto string pattern sensitive i j
      → get_or pattern j 0 ≡ star
      → Upto string pattern sensitive i (j + 1)
  one_for_star :
      (i j : ℕ)
      → Upto string pattern sensitive i (j + 1)
      → get_or pattern j 0 ≡ star
      → Upto string pattern sensitive (i + 1) (j + 1)

-- The offset `last` is the first one at which the string ends; the pattern has its NUL at `nul`.
pub record Ends (string pattern : List ℕ) (terminator last nul : ℕ) : Type 0 where
  pub at_last : ended terminator (get_or string last 0) ≡ true
  pub before : (i : ℕ) → i < last → ended terminator (get_or string i 0) ≡ false
  pub at_nul : get_or pattern nul 0 ≡ 0

pub clash : true ≡ false → ⊥
clash e = cc

module _ {string pattern : List ℕ} {terminator last nul : ℕ} where
  -- A position before the end of the string, and one before the end of the pattern.
  pub before_last :
      Ends string pattern terminator last nul
      → (i : ℕ) → i ≤ last
      → ended terminator (get_or string i 0) ≡ false
      → i < last
  before_last e i h go = elim (Bool-cases (i == last)) [
    | inl same ↦
        let bad : ended terminator (get_or string i 0) ≡ true =
          rw ((==_iff i last).0 same) e.at_last in
        absurd (clash (sym bad ∙ go))
    | inr other ↦ ground (arith, h, other)
  ]

  pub at_last :
      Ends string pattern terminator last nul
      → (i : ℕ) → i ≤ last
      → ended terminator (get_or string i 0) ≡ true
      → i ≡ last
  at_last e i h go = elim (Bool-cases (i == last)) [
    | inl same ↦ (==_iff i last).0 same
    | inr other ↦ absurd (clash (sym go ∙ e.before i (ground (arith, h, other))))
  ]

  pub before_nul :
      Ends string pattern terminator last nul → (j : ℕ) → j ≤ nul → get_or pattern j 0 ≢ 0 → j < nul
  before_nul e j h go = elim (Bool-cases (j == nul)) [
    | inl same ↦ absurd (go (rw ((==_iff j nul).0 same) e.at_nul))
    | inr other ↦ ground (arith, h, other)
  ]

module _ {string pattern : List ℕ} {sensitive : Bool} where
  -- Behind a `*` that any part of the string reaches.
  pub stretch :
      (i j d : ℕ)
      → Upto string pattern sensitive i j
      → get_or pattern j 0 ≡ star
      → Upto string pattern sensitive (i + d) (j + 1)
  stretch i j zero u w = let same : i + 0 ≡ i = omega arith in rw same (none_for_star i j u w)
  stretch i j (suc d) u w =
      let same : i + suc d ≡ i + d + 1 = omega arith in
      rw same (one_for_star (i + d) j (stretch i j d u w) w)

  pub stretch_to :
      (i j x : ℕ)
      → i ≤ x
      → Upto string pattern sensitive i j
      → get_or pattern j 0 ≡ star
      → Upto string pattern sensitive x (j + 1)
  stretch_to i j x h u w =
      let same : x ≡ i + (x - i) = omega (arith, h) in rw same (stretch i j (x - i) u w)

pub ended_zero : (terminator c : ℕ) → c ≡ 0 → ended terminator c ≡ false → ⊥
ended_zero terminator c z go = ground (arith, z, go)

-- A pattern's character that equals one of the string is not the NUL.
pub folded_nonzero :
    (sensitive : Bool) (terminator t w : ℕ)
    → ended terminator t ≡ false
    → (folded sensitive t == folded sensitive w) ≡ true
    → w ≢ 0
folded_nonzero true terminator t w go same z = ground (arith, go, same, z)
folded_nonzero false terminator t w go same z = ground (arith, go, same, z)

pub folded-star : (sensitive : Bool) (w : ℕ) → (folded sensitive w == star) ≡ true → w ≡ star
folded-star true w h = ground (arith, h)
folded-star false w h = ground (arith, h)
