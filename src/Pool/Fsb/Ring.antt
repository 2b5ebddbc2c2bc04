-- ===== src/Pool/Fsb/Ring.antt =====
-- The ring of identifiers of `fsb_pool_t` (libsax/sax/mempool.c) as a queue.
use xlibsax.Prelude.{
  ℕ, zero, suc, ◌+◌, ◌-◌, ◌≤◌, ◌<◌, ◌≡◌, refl, ap, ap₂, ◌∙◌, ◌⊎◌, inl, inr, List, [], ◌∷◌, ◌++◌,
  arith, length, get_or, set, get_or-set_self, get_or-set_ne, ltb, if◌then◌else◌, Bool-cases,
}
use xlibsax.Pool.Fsb.{next}

module _ (slots : ℕ) where
  -- The `n` identifiers from cursor `h` on.
  abbrev pub window : List ℕ → ℕ → ℕ → List ℕ
  window ids h zero = []
  window ids h (suc n) = get_or ids h 0 ∷ window ids (next slots h) n

  -- The cursor `k` steps on.
  abbrev pub step : ℕ → ℕ → ℕ
  step h k = if ltb (h + k) slots then h + k else h + k - slots

  pub length-window : (ids : List ℕ) (h n : ℕ) → length (window ids h n) ≡ n
  length-window ids h zero = refl
  length-window ids h (suc n) = ap suc (length-window ids (next slots h) n)

  pub step-next : (h k : ℕ) → h < slots → suc k ≤ slots → step (next slots h) k ≡ step h (suc k)
  step-next h k hh hk = ground arith

  step-zero : (h : ℕ) → h < slots → h ≡ step h 0
  step-zero h hh = ground arith

  pub step-lt : (h k : ℕ) → h < slots → k < slots → step h k < slots
  step-lt h k hh hk = ground arith

  -- Cursor `i` is none of the `n` from `h` on.
  abbrev IsOutside : ℕ → ℕ → ℕ → Type 0
  IsOutside h n i = ((i < h) ⊎ (h + n ≤ i)) × (h + n ≤ i + slots)

  IsOutside-next :
      (h n i : ℕ) → h < slots → i < slots → IsOutside h (suc n) i → IsOutside (next slots h) n i
  IsOutside-next h n i hh hi (inl a, b) = ground arith
  IsOutside-next h n i hh hi (inr a, b) = ground arith

  step-IsOutside : (h n : ℕ) → h < slots → n < slots → IsOutside h n (step h n)
  step-IsOutside h n hh hn = elim (Bool-cases (ltb (h + n) slots)) [
    | inl e ↦ rw e (inr (omega arith), omega arith)
    | inr e ↦ rw e (inl (ground arith), ground arith)
  ]

  pub next-lt : (h : ℕ) → h < slots → next slots h < slots
  next-lt h hh = ground arith

  window-set :
      (ids : List ℕ) (i v h n : ℕ)
      → h < slots
      → i < slots
      → IsOutside h n i
      → window (set ids i v) h n ≡ window ids h n
  window-set ids i v h zero hh hi out = refl
  window-set ids i v h (suc n) hh hi out =
      ap₂ ◌∷◌ (get_or-set_ne ids i h v 0 (omega arith))
        (window-set ids i v (next slots h) n (next-lt h hh) hi (IsOutside-next h n i hh hi out))

  window-suc :
      (ids : List ℕ) (h n : ℕ)
      → h < slots
      → n < slots
      → window ids h (suc n) ≡ window ids h n ++ (get_or ids (step h n) 0 ∷ [])
  window-suc ids h zero hh hn = ap (λ k. get_or ids k 0 ∷ []) (step-zero h hh)
  window-suc ids h (suc n) hh hn =
      ap (λ r. get_or ids h 0 ∷ r)
        (window-suc ids (next slots h) n (next-lt h hh) (omega arith)
          ∙ ap (λ k. window ids (next slots h) n ++ (get_or ids k 0 ∷ []))
              (step-next h n hh (omega arith)))

  -- Writing at the end of a window that leaves a slot free extends it.
  pub window-push :
      (ids : List ℕ) (h n v : ℕ)
      → h < slots
      → n < slots
      → slots ≤ length ids
      → window (set ids (step h n) v) h (suc n) ≡ window ids h n ++ (v ∷ [])
  window-push ids h n v hh hn hs =
      window-suc (set ids (step h n) v) h n hh hn
      ∙ ap₂ (λ a b. a ++ (b ∷ []))
          (window-set ids (step h n) v h n hh (step-lt h n hh hn) (step-IsOutside h n hh hn))
          (get_or-set_self ids (step h n) v 0 (omega (arith, step-lt h n hh hn)))
