-- ===== src/Htab/Chains.antt =====
-- The chains of libsax/sax/htab.c: where entries stand, and what pushing and moving them does.
use xlibsax.Prelude.{
  ℕ, zero, suc, ◌+◌, ◌%◌, ◌<◌, ◌≡◌, refl, ap, ◌∙◌, ◌⊎◌, inl, inr, List, [], ◌∷◌, arith, length,
  get_or, set, On, length-set, get_or-set_self, get_or-set_ne, ◌==◌, ==_iff, ==_ne, Bool-cases,
  map_right,
}
use xlibsax.Htab.{Entry, Chain, push, move_chain, move_all}

-- How many entries a table holds.
abbrev pub total : {A : Type 0} → List (List A) → ℕ
total [] = 0
total (c ∷ cs) = length c + total cs

module _ {K V : Type 0} where
  -- An entry stands in some chain.
  abbrev pub Stands : List (Chain K V) → Entry K V → Type 0
  Stands bs e = (i : ℕ) × On e (get_or bs i [])

  -- `bs'` is `bs` and the entries of `Extra`, `extra` in number, each in its slot among `n`.
  pub record Adds (n : ℕ) (Extra : Entry K V → Type 0) (extra : ℕ) (bs bs' : List (Chain K V))
      : Type 0 where
    pub width : length bs' ≡ length bs
    pub counted : total bs' ≡ total bs + extra
    pub from :
        (x : Entry K V) (j : ℕ)
        → On x (get_or bs' j [])
        → On x (get_or bs j []) ⊎ (Extra x × (x.h % n ≡ j))
    pub into : (x : Entry K V) → Stands bs x ⊎ Extra x → Stands bs' x

  pub total-set :
      (bs : List (Chain K V)) (i : ℕ) (c : Chain K V)
      → i < length bs
      → total (set bs i c) + length (get_or bs i []) ≡ total bs + length c
  total-set [] i c h = absurd (omega arith)
  total-set (b ∷ bs) zero c h = omega arith
  total-set (b ∷ bs) (suc i) c h = omega (arith, total-set bs i c (omega arith))

  pub get_or-lt :
      (bs : List (Chain K V)) (i : ℕ) (x : Entry K V) → On x (get_or bs i []) → i < length bs
  get_or-lt [] i x h = absurd h
  get_or-lt (b ∷ bs) zero x h = omega arith
  get_or-lt (b ∷ bs) (suc i) x h = omega (arith, get_or-lt bs i x h)

  pub push-Adds :
      (bs : List (Chain K V)) (n : ℕ) (e : Entry K V)
      → 0 < n
      → length bs ≡ n
      → Adds n (λ x. x ≡ e) 1 bs (push bs (e.h % n) e)
  push-Adds bs n e pos len = record {
    width = length-set bs i c;
    counted = omega (arith, total-set bs i c here);
    from = λ x j o. elim (Bool-cases (i == j)) [
      | inl q ↦
          let q' = (==_iff i j).0 q in there x j q' (rw (← q', get_or-set_self bs i c [] here) at o)
      | inr q ↦ inl (rw (get_or-set_ne bs i j c [] (==_ne i j q)) at o)
    ];
    into = λ x s. stay x s;
  }
    where
      i : ℕ
      i = e.h % n

      c : Chain K V
      c = e ∷ get_or bs i []

      here : i < length bs
      here = omega arith

      there :
          (x : Entry K V) (j : ℕ)
          → i ≡ j
          → On x c
          → On x (get_or bs j []) ⊎ ((x ≡ e) × (x.h % n ≡ j))
      there x j q (inl p) = inr (p, ap (λ (y : Entry K V). y.h % n) p ∙ q)
      there x j q (inr o) = inl (rw (← q) o)

      stay : (x : Entry K V) → Stands bs x ⊎ (x ≡ e) → Stands (set bs i c) x
      stay x (inr p) = (i, rw (get_or-set_self bs i c [] here) (inl p))
      stay x (inl (j, o)) = elim (Bool-cases (i == j)) [
        | inl q ↦ (i, rw (get_or-set_self bs i c [] here) (inr (rw ((==_iff i j).0 q) o)))
        | inr q ↦ (j, rw (get_or-set_ne bs i j c [] (==_ne i j q)) o)
      ]

  pub Adds-trans :
      (n : ℕ) (P Q R : Entry K V → Type 0) (a b m : ℕ) (bs cs ds : List (Chain K V))
      → m ≡ a + b
      → Adds n P a bs cs
      → Adds n Q b cs ds
      → ((x : Entry K V) → P x ⊎ Q x → R x)
      → ((x : Entry K V) → R x → P x ⊎ Q x)
      → Adds n R m bs ds
  Adds-trans n P Q R a b m bs cs ds e h k up down = record {
    width = k.width ∙ h.width;
    counted = omega (arith, h.counted, k.counted);
    from = λ x j o. back x j (k.from x j o);
    into = λ x s. k.into x (forth x s);
  }
    where
      back :
          (x : Entry K V) (j : ℕ)
          → On x (get_or cs j []) ⊎ (Q x × (x.h % n ≡ j))
          → On x (get_or bs j []) ⊎ (R x × (x.h % n ≡ j))
      back x j (inr (q, r)) = inr (up x (inr q), r)
      back x j (inl o) =
          map_right (λ (p : P x × (x.h % n ≡ j)). (up x (inl p.0), p.1)) (h.from x j o)

      forth : (x : Entry K V) → Stands bs x ⊎ R x → Stands cs x ⊎ Q x
      forth x (inl s) = inl (h.into x (inl s))
      forth x (inr r) = split x (down x r)
        where
          split : (x : Entry K V) → P x ⊎ Q x → Stands cs x ⊎ Q x
          split x (inl p) = inl (h.into x (inr p))
          split x (inr q) = inr q

  Adds-none :
      (n : ℕ) (P : Entry K V → Type 0) (bs : List (Chain K V))
      → ((x : Entry K V) → ¬ (P x))
      → Adds n P 0 bs bs
  Adds-none n P bs h = record {
    width = refl;
    counted = omega arith;
    from = λ x j o. inl o;
    into = λ x s. only x s;
  }
    where
      only : (x : Entry K V) → Stands bs x ⊎ P x → Stands bs x
      only x (inl s) = s
      only x (inr p) = absurd (h x p)

  pub move_chain-Adds :
      (n : ℕ) (c : Chain K V) (bs : List (Chain K V))
      → 0 < n
      → length bs ≡ n
      → Adds n (λ x. On x c) (length c) bs (move_chain n c bs)
  unfolding move_chain
  move_chain-Adds n [] bs pos len = Adds-none n (λ x. ⊥) bs (λ x h. h)
  move_chain-Adds n (e ∷ es) bs pos len =
      let first = push-Adds bs n e pos len in
      Adds-trans n (λ x. x ≡ e) (λ x. On x es) (λ x. On x (e ∷ es)) 1 (length es) _ bs
        (push bs (e.h % n) e) _ (omega arith) first (move_chain-Adds n es _ pos (first.width ∙ len))
        (λ x s. s) (λ x s. s)

  pub move_all-Adds :
      (n : ℕ) (cs bs : List (Chain K V))
      → 0 < n
      → length bs ≡ n
      → Adds n (Stands cs) (total cs) bs (move_all n cs bs)
  unfolding move_all
  move_all-Adds n [] bs pos len = Adds-none n (Stands []) bs (λ x h. h.1)
  move_all-Adds n (c ∷ cs) bs pos len =
      let first = move_chain-Adds n c bs pos len in
      Adds-trans n (λ x. On x c) (Stands cs) (Stands (c ∷ cs)) (length c) (total cs) _ bs
        (move_chain n c bs) _ refl first (move_all-Adds n cs _ pos (first.width ∙ len)) up down
    where
      up : (x : Entry K V) → On x c ⊎ Stands cs x → Stands (c ∷ cs) x
      up x (inl o) = (0, o)
      up x (inr (i, o)) = (suc i, o)

      down : (x : Entry K V) → Stands (c ∷ cs) x → On x c ⊎ Stands cs x
      down x (zero, o) = inl o
      down x (suc i, o) = inr (i, o)
