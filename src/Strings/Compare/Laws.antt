-- ===== src/Strings/Compare/Laws.antt =====
-- What the comparisons of libsax/sax/os_api.c decide.
use xlibsax.Prelude.{
  ℕ, zero, suc, ◌+◌, ◌<◌, ◌≡◌, refl, sym, ap, ap₂, ◌∙◌, ◌≢◌, ◌↔◌, inl, inr, true, false, not, ◌&&◌,
  List, [], ◌∷◌, map, arith, length, get_or, take, All, ltb, leb, ◌==◌, if◌then◌else◌, ==_iff,
  ==_ne, Bool-cases, passes, passes-at,
}
use xlibsax.Strings.Compare.{
  ℤ, pos, negsuc, difference, char_value, charmap, same, fold, ◌-ℤ◌, first, rest, strncmp, stricmp,
  strnicmp,
}

-- The bytes of a C string.
abbrev pub IsString : List ℕ → Type 0
IsString = All (λ c. (0 < c) × (c < 256))

difference-same : (a b : ℕ) → (a == b) ≡ false → difference a b ≢ pos 0
unfolding difference
difference-same a b h e = ground (arith, e, h)

-- The test of two entries, and their difference.
same_iff : (a b : ℤ) → same a b ≡ true ↔ a ≡ b
same_iff (pos a) (pos b) = (λ h. ap pos ((==_iff a b).0 h), λ e. ground (arith, e))
same_iff (pos a) (negsuc b) = (λ h. absurd cc, λ e. absurd cc)
same_iff (negsuc a) (pos b) = (λ h. absurd cc, λ e. absurd cc)
same_iff (negsuc a) (negsuc b) = (λ h. ap negsuc ((==_iff a b).0 h), λ e. ground (arith, e))

minus-same : (a b : ℤ) → same a b ≡ false → a -ℤ b ≢ pos 0
unfolding ◌-ℤ◌
minus-same (pos a) (pos b) h e = difference-same a b h e
minus-same (pos a) (negsuc b) h e = ground (arith, e)
minus-same (negsuc a) (pos b) h e = absurd cc
minus-same (negsuc a) (negsuc b) h e = difference-same b a (ground (arith, h)) e

-- What the array makes of a byte: `A` to `Z`, and the bytes 0xc1 to 0xda, stand for the byte 32 places
-- further, and every other byte for itself.
abbrev pub lower : ℕ → ℕ
lower c = if leb 65 c && leb c 90 then c + 32 else if leb 193 c && leb c 218 then c + 32 else c

fold-lower : (c : ℕ) → c < 256 → fold c ≡ char_value (lower c)
unfolding fold passes
fold-lower c h =
    (same_iff _ _).0
      (passes-at (λ c. same (get_or charmap c (pos 0)) (char_value (lower c))) c h refl)

char_value_injective : (c d : ℕ) → c < 256 → d < 256 → char_value c ≡ char_value d → c ≡ d
char_value_injective c d h k e = elim (Bool-cases (ltb c 128)) [
  | inl p ↦ elim (Bool-cases (ltb d 128)) [
    | inl q ↦ ground (arith, p, q, e)
    | inr q ↦ ground (arith, p, q, e)
  ]
  | inr p ↦ elim (Bool-cases (ltb d 128)) [
    | inl q ↦ ground (arith, p, q, e)
    | inr q ↦ ground (arith, p, q, e)
  ]
]

lower-lt : (c : ℕ) → c < 256 → lower c < 256
lower-lt c h = ground (arith, h)

-- Two bytes have the same entry just when they stand for the same byte.
fold_iff : (c d : ℕ) → c < 256 → d < 256 → same (fold c) (fold d) ≡ true ↔ lower c ≡ lower d
fold_iff c d h k = (
  λ e.
      char_value_injective (lower c) (lower d) (lower-lt c h) (lower-lt d k)
        (sym (fold-lower c h) ∙ (same_iff _ _).0 e ∙ fold-lower d k),
  λ e. (same_iff _ _).1 (fold-lower c h ∙ ap char_value e ∙ sym (fold-lower d k)),
)

lower-nul : (c : ℕ) → 0 < c → lower c ≢ lower 0
lower-nul c h e = ground (arith, h, e)

-- One step of a comparison that goes on only with equal bytes that are not NUL.
step :
    (c d : ℕ) (later : ℤ)
    → c < 256
    → d < 256
    → (c == 0) ≡ false
    → (if not (same (fold c) (fold d)) then fold c -ℤ fold d else if c == 0 then pos 0 else later)
        ≡ pos 0
      ↔ (lower c ≡ lower d) × (later ≡ pos 0)
step c d later hc hd h = elim (Bool-cases (same (fold c) (fold d))) [
  | inl e ↦ (λ q. ((fold_iff c d hc hd).0 e, sym (rw (e, h)) ∙ q), λ q. rw (e, h) q.1)
  | inr e ↦ (
    λ q. absurd (minus-same (fold c) (fold d) e (sym (rw e) ∙ q)),
    λ q. absurd (clash (sym e ∙ (fold_iff c d hc hd).1 q.0)),
  )
]
  where
    clash : false ≡ true → ⊥
    clash e = cc

-- The string that ends first is told from the other.
edge :
    (d : ℕ)
    → (0 < d) × (d < 256)
    → (if not (same (fold 0) (fold d)) then fold 0 -ℤ fold d else pos 0) ≢ pos 0
edge d (h, k) e = elim (Bool-cases (same (fold 0) (fold d))) [
  | inl q ↦ lower-nul d h (sym ((fold_iff 0 d (omega arith) k).0 q))
  | inr q ↦ minus-same (fold 0) (fold d) q (sym (rw q) ∙ e)
]

-- One step of a comparison of bytes.
step_exact :
    (c d : ℕ) (later : ℤ)
    → (c == 0) ≡ false
    → (if not (c == d) then difference c d else if c == 0 then pos 0 else later) ≡ pos 0
      ↔ (c ≡ d) × (later ≡ pos 0)
step_exact c d later h = elim (Bool-cases (c == d)) [
  | inl e ↦ (λ q. ((==_iff _ _).0 e, sym (rw (e, h)) ∙ q), λ q. rw (e, h) q.1)
  | inr e ↦ (λ q. absurd (difference-same c d e (sym (rw e) ∙ q)), λ q. absurd (==_ne _ _ e q.0))
]

-- An entry is the same as itself.
no_change : (if not (same (fold 0) (fold 0)) then fold 0 -ℤ fold 0 else pos 0) ≡ pos 0
unfolding fold
no_change = refl

-- `g_strnicmp` returns 0 just when the first `n` bytes of the two strings are the same, `A` to `Z` and
-- the bytes 0xc1 to 0xda each taken for the byte 32 places further.
pub strnicmp_zero :
    (n : ℕ) (s1 s2 : List ℕ)
    → IsString s1
    → IsString s2
    → (strnicmp s1 s2 n ≡ pos 0) ↔ (map lower (take n s1) ≡ map lower (take n s2))
unfolding strnicmp
strnicmp_zero zero s1 s2 h1 h2 = (λ e. refl, λ e. refl)
strnicmp_zero (suc n) [] [] h1 h2 = (λ e. refl, λ e. no_change)
strnicmp_zero (suc n) (c ∷ s1) [] h1 h2 =
    let st = step c 0 (strnicmp s1 [] n) h1.0.1 (omega arith) (ground (arith, h1.0.0)) in
    (λ q. absurd (lower-nul c h1.0.0 (st.0 q).0), λ e. absurd (omega (arith, ap length e)))
strnicmp_zero (suc n) [] (d ∷ s2) h1 h2 =
    (λ q. absurd (edge d h2.0 q), λ e. absurd (omega (arith, ap length e)))
strnicmp_zero (suc n) (c ∷ s1) (d ∷ s2) h1 h2 =
    let st = step c d (strnicmp s1 s2 n) h1.0.1 h2.0.1 (ground (arith, h1.0.0)) in
    let (there, back) = strnicmp_zero n s1 s2 h1.1 h2.1 in
    (
      λ q. ap₂ (λ x xs. x ∷ xs) (st.0 q).0 (there (st.0 q).1),
      λ e. st.1 (ap first e, back (ap rest e)),
    )

-- `g_stricmp` returns 0 just when the two strings of bytes are the same, `A` to `Z` and the bytes 0xc1
-- to 0xda each taken for the byte 32 places further, and every other byte for itself.
pub stricmp_zero :
    (s1 s2 : List ℕ)
    → IsString s1
    → IsString s2
    → (stricmp s1 s2 ≡ pos 0) ↔ (map lower s1 ≡ map lower s2)
unfolding stricmp
stricmp_zero [] [] h1 h2 = (λ e. refl, λ e. no_change)
stricmp_zero (c ∷ s1) [] h1 h2 =
    let st = step c 0 (stricmp s1 []) h1.0.1 (omega arith) (ground (arith, h1.0.0)) in
    (λ q. absurd (lower-nul c h1.0.0 (st.0 q).0), λ e. absurd (omega (arith, ap length e)))
stricmp_zero [] (d ∷ s2) h1 h2 =
    (λ q. absurd (edge d h2.0 q), λ e. absurd (omega (arith, ap length e)))
stricmp_zero (c ∷ s1) (d ∷ s2) h1 h2 =
    let st = step c d (stricmp s1 s2) h1.0.1 h2.0.1 (ground (arith, h1.0.0)) in
    let (there, back) = stricmp_zero s1 s2 h1.1 h2.1 in
    (
      λ q. ap₂ (λ x xs. x ∷ xs) (st.0 q).0 (there (st.0 q).1),
      λ e. st.1 (ap first e, back (ap rest e)),
    )

-- `g_strncmp` returns 0 just when the first `n` bytes of the two strings are the same.
pub strncmp_zero :
    (n : ℕ) (s1 s2 : List ℕ)
    → IsString s1
    → IsString s2
    → (strncmp s1 s2 n ≡ pos 0) ↔ (take n s1 ≡ take n s2)
unfolding strncmp
strncmp_zero zero s1 s2 h1 h2 = (λ e. refl, λ e. refl)
strncmp_zero (suc n) [] [] h1 h2 = (λ e. refl, λ e. refl)
strncmp_zero (suc n) (c ∷ s1) [] h1 h2 =
    let q₁ : (c == 0) ≡ false = ground (arith, h1.0.0) in
    let st = step_exact c 0 (strncmp s1 [] n) q₁ in
    (λ q. absurd (==_ne _ _ q₁ (st.0 q).0), λ e. absurd (omega (arith, ap length e)))
strncmp_zero (suc n) [] (d ∷ s2) h1 h2 =
    let q₁ : (0 == d) ≡ false = ground (arith, h2.0.0) in
    (
      λ q. absurd (difference-same 0 d q₁ (sym (rw q₁) ∙ q)),
      λ e. absurd (omega (arith, ap length e)),
    )
strncmp_zero (suc n) (c ∷ s1) (d ∷ s2) h1 h2 =
    let st = step_exact c d (strncmp s1 s2 n) (ground (arith, h1.0.0)) in
    let (there, back) = strncmp_zero n s1 s2 h1.1 h2.1 in
    (
      λ q. ap₂ (λ x xs. x ∷ xs) (st.0 q).0 (there (st.0 q).1),
      λ e. st.1 (ap first e, back (ap rest e)),
    )
