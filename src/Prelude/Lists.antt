-- ===== src/Prelude/Lists.antt =====
-- Lists measured and indexed by native numbers, and predicates on lists.
use Prim.Native.Nat.{◌^◌, ℕ, zero, suc, ◌+◌, ◌-◌, ◌<◌, ◌≤◌, min}
use mathlib.Core.Path.{◌≡◌, refl, sym, ap, ◌∙◌}
use mathlib.Core.Logic.{◌≢◌, ◌⊎◌, inl, inr}
use mathlib.Core.List.{List, [], ◌∷◌, ◌++◌}
use native.Mathlib.Omega.{arith}

module _ {ℓ} {A : Type ℓ} where
  abbrev pub length : List A → ℕ
  length [] = 0
  length (x ∷ xs) = suc (length xs)

  abbrev pub get_or : List A → ℕ → A → A
  get_or [] i d = d
  get_or (x ∷ xs) zero d = x
  get_or (x ∷ xs) (suc i) d = get_or xs i d

  -- A write out of bounds changes nothing.
  abbrev pub set : List A → ℕ → A → List A
  set [] i v = []
  set (x ∷ xs) zero v = v ∷ xs
  set (x ∷ xs) (suc i) v = x ∷ set xs i v

  abbrev pub take : ℕ → List A → List A
  take zero xs = []
  take (suc n) [] = []
  take (suc n) (x ∷ xs) = x ∷ take n xs

  abbrev pub drop : ℕ → List A → List A
  drop zero xs = xs
  drop (suc n) [] = []
  drop (suc n) (x ∷ xs) = drop n xs

  abbrev pub replicate : ℕ → A → List A
  replicate zero a = []
  replicate (suc n) a = a ∷ replicate n a

  -- Every element satisfies `P`, as a product that the tactics read.
  abbrev pub All {κ} : (A → Type κ) → List A → Type κ
  All P [] = Unit
  All P (x ∷ xs) = P x × All P xs

-- `a` stands in a list, with its place kept.
abbrev pub On : {A : Type 0} → A → List A → Type 0
On a [] = ⊥
On a (x ∷ xs) = (a ≡ x) ⊎ On a xs

abbrev pub Distinct : {A : Type 0} → List A → Type 0
Distinct [] = Unit
Distinct (x ∷ xs) = ¬ (On x xs) × Distinct xs

module _ {ℓ} {A : Type ℓ} where
  pub length-append : (xs ys : List A) → length (xs ++ ys) ≡ length xs + length ys
  length-append [] ys = omega arith
  length-append (x ∷ xs) ys = omega (arith, length-append xs ys)

  pub length-set : (xs : List A) (i : ℕ) (v : A) → length (set xs i v) ≡ length xs
  length-set [] i v = refl
  length-set (x ∷ xs) zero v = refl
  length-set (x ∷ xs) (suc i) v = ap suc (length-set xs i v)

  pub length-take : (n : ℕ) (xs : List A) → length (take n xs) ≡ min n (length xs)
  length-take zero xs = omega arith
  length-take (suc n) [] = omega arith
  length-take (suc n) (x ∷ xs) = omega (arith, length-take n xs)

  pub length-drop : (n : ℕ) (xs : List A) → length (drop n xs) ≡ length xs - n
  length-drop zero xs = omega arith
  length-drop (suc n) [] = omega arith
  length-drop (suc n) (x ∷ xs) = omega (arith, length-drop n xs)

  pub length-replicate : (n : ℕ) (a : A) → length (replicate n a) ≡ n
  length-replicate zero a = refl
  length-replicate (suc n) a = ap suc (length-replicate n a)

  pub take-append-drop : (n : ℕ) (xs : List A) → take n xs ++ drop n xs ≡ xs
  take-append-drop zero xs = refl
  take-append-drop (suc n) [] = refl
  take-append-drop (suc n) (x ∷ xs) = rw (take-append-drop n xs)

  -- A `take` that ends with the first of two lists, or inside it.
  pub take-append : (xs ys : List A) → take (length xs) (xs ++ ys) ≡ xs
  take-append [] ys = refl
  take-append (x ∷ xs) ys = rw (take-append xs ys)

  pub drop-append : (xs ys : List A) → drop (length xs) (xs ++ ys) ≡ ys
  drop-append [] ys = refl
  drop-append (x ∷ xs) ys = drop-append xs ys

  pub take_all : (xs : List A) → take (length xs) xs ≡ xs
  take_all [] = refl
  take_all (x ∷ xs) = rw (take_all xs)

  pub get_or-set_self :
      (xs : List A) (i : ℕ) (v d : A) → i < length xs → get_or (set xs i v) i d ≡ v
  get_or-set_self [] i v d h = elim h [ ]
  get_or-set_self (x ∷ xs) zero v d h = refl
  get_or-set_self (x ∷ xs) (suc i) v d h = get_or-set_self xs i v d (omega arith)

  pub get_or-set_ne :
      (xs : List A) (i j : ℕ) (v d : A) → i ≢ j → get_or (set xs i v) j d ≡ get_or xs j d
  get_or-set_ne [] i j v d h = refl
  get_or-set_ne (x ∷ xs) zero zero v d h = absurd (h refl)
  get_or-set_ne (x ∷ xs) zero (suc j) v d h = refl
  get_or-set_ne (x ∷ xs) (suc i) zero v d h = refl
  get_or-set_ne (x ∷ xs) (suc i) (suc j) v d h = get_or-set_ne xs i j v d (λ e. h (ap suc e))

  pub All-append {κ} : (P : A → Type κ) (xs ys : List A) → All P xs → All P ys → All P (xs ++ ys)
  All-append P [] ys h k = k
  All-append P (x ∷ xs) ys h k = (h.0, All-append P xs ys h.1 k)

  pub All-map {κ μ} :
      (P : A → Type κ) (Q : A → Type μ) (xs : List A) → ((x : A) → P x → Q x) → All P xs → All Q xs
  All-map P Q [] f h = tt
  All-map P Q (x ∷ xs) f h = (f x h.0, All-map P Q xs f h.1)

module _ {A : Type 0} where
  pub On-append_left : (xs ys : List A) (a : A) → On a xs → On a (xs ++ ys)
  On-append_left [] ys a h = absurd h
  On-append_left (x ∷ xs) ys a (inl e) = inl e
  On-append_left (x ∷ xs) ys a (inr h) = inr (On-append_left xs ys a h)

  pub On-append_right : (xs ys : List A) (a : A) → On a ys → On a (xs ++ ys)
  On-append_right [] ys a h = h
  On-append_right (x ∷ xs) ys a h = inr (On-append_right xs ys a h)

  pub On-append : (xs ys : List A) (a : A) → On a (xs ++ ys) → On a xs ⊎ On a ys
  On-append [] ys a h = inr h
  On-append (x ∷ xs) ys a (inl e) = inl (inl e)
  On-append (x ∷ xs) ys a (inr h) = shift (On-append xs ys a h)
    where
      shift : On a xs ⊎ On a ys → On a (x ∷ xs) ⊎ On a ys
      shift (inl o) = inl (inr o)
      shift (inr o) = inr o

  pub Distinct-append :
      (xs : List A) (a : A) → Distinct xs → ¬ (On a xs) → Distinct (xs ++ (a ∷ []))
  Distinct-append [] a h n = (λ o. o, tt)
  Distinct-append (x ∷ xs) a h n =
      (λ o. last (On-append xs (a ∷ []) x o), Distinct-append xs a h.1 (λ o. n (inr o)))
    where
      last : On x xs ⊎ On x (a ∷ []) → ⊥
      last (inl o) = h.0 o
      last (inr (inl e)) = n (inl (sym e))
      last (inr (inr o)) = o

  pub All-On {κ} : (P : A → Type κ) (xs : List A) (a : A) → All P xs → On a xs → P a
  All-On P [] a h o = absurd o
  All-On P (x ∷ xs) a h (inl e) = rw e h.0
  All-On P (x ∷ xs) a h (inr o) = All-On P xs a h.1 o

  pub take-nil : (n : ℕ) → take {A = A} n [] ≡ []
  take-nil zero = refl
  take-nil (suc n) = refl

  pub drop-nil : (n : ℕ) → drop {A = A} n [] ≡ []
  drop-nil zero = refl
  drop-nil (suc n) = refl

  pub drop-take : (ys : List A) (n m : ℕ) → drop n (take m ys) ≡ take (m - n) (drop n ys)
  drop-take ys zero m = let e : m ≡ m - 0 = omega arith in ap (λ k. take k ys) e
  drop-take [] (suc n) zero = sym (take-nil (0 - suc n))
  drop-take [] (suc n) (suc m) = sym (take-nil (suc m - suc n))
  drop-take (y ∷ ys) (suc n) zero =
      let e : 0 ≡ 0 - suc n = omega arith in ap (λ k. take k (drop n ys)) e
  drop-take (y ∷ ys) (suc n) (suc m) =
      let e : m - n ≡ suc m - suc n = omega arith in
      drop-take ys n m ∙ ap (λ k. take k (drop n ys)) e

  pub drop-drop : (i n : ℕ) (xs : List A) → drop n (drop i xs) ≡ drop (i + n) xs
  drop-drop zero n xs = let e : n ≡ 0 + n = omega arith in ap (λ k. drop k xs) e
  drop-drop (suc i) n [] = drop-nil n ∙ sym (drop-nil (suc i + n))
  drop-drop (suc i) n (x ∷ xs) =
      let e : suc (i + n) ≡ suc i + n = omega arith in
      drop-drop i n xs ∙ ap (λ k. drop k (x ∷ xs)) e

  pub take-take : (ys : List A) (n m : ℕ) → n ≤ m → take n (take m ys) ≡ take n ys
  take-take ys zero m h = refl
  take-take ys (suc n) zero h = absurd (omega arith)
  take-take [] (suc n) (suc m) h = refl
  take-take (y ∷ ys) (suc n) (suc m) h = ap (λ r. y ∷ r) (take-take ys n m (omega arith))

-- `n` successive numbers from `a`.
abbrev pub run : ℕ → ℕ → List ℕ
run a zero = []
run a (suc n) = a ∷ run (suc a) n

module _ {ℓ κ} {A : Type ℓ} (P : A → Type κ) where
  pub All-take : (n : ℕ) (xs : List A) → All P xs → All P (take n xs)
  All-take zero xs h = tt
  All-take (suc n) [] h = tt
  All-take (suc n) (x ∷ xs) (p, h) = (p, All-take n xs h)

  pub All-drop : (n : ℕ) (xs : List A) → All P xs → All P (drop n xs)
  All-drop zero xs h = h
  All-drop (suc n) [] h = tt
  All-drop (suc n) (x ∷ xs) (p, h) = All-drop n xs h

  pub All-set : (xs : List A) (i : ℕ) (v : A) → All P xs → P v → All P (set xs i v)
  All-set [] i v h q = tt
  All-set (x ∷ xs) zero v (p, h) q = (q, h)
  All-set (x ∷ xs) (suc i) v (p, h) q = (p, All-set xs i v h q)

-- A word of a list of 32-bit words, or the 0 behind it.
pub get_or-lt : (xs : List ℕ) (i : ℕ) → All (λ w. w < 2 ^ 32) xs → get_or xs i 0 < 2 ^ 32
get_or-lt [] i h = omega arith
get_or-lt (x ∷ xs) zero (p, h) = p
get_or-lt (x ∷ xs) (suc i) (p, h) = get_or-lt xs i h
