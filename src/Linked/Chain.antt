-- ===== src/Linked/Chain.antt =====
-- What the blocks of libsax/sax/net/linked_buffer.h hold, one after the other.
use xlibsax.Prelude.{
  ℕ, zero, suc, ◌+◌, ◌-◌, ◌≤◌, ◌<◌, ◌≡◌, refl, sym, ap, ap₂, ◌∙◌, true, false, List, [], ◌∷◌, ◌++◌,
  append-nil, append_assoc, arith, length, take, drop, All, length-append, length-take, length-drop,
  drop-append, drop-drop,
}

pub true-ne-false : true ≡ false → ⊥
true-ne-false p = absurd cc

-- The bytes of some blocks, and how many so many blocks have.
abbrev pub concat : List (List ℕ) → List ℕ
concat [] = []
concat (node ∷ nodes) = node ++ concat nodes

abbrev pub span : ℕ → ℕ → ℕ
span size zero = 0
span size (suc k) = size + span size k

abbrev pub Sized : ℕ → List (List ℕ) → Type 0
Sized size nodes = All (λ node. length node ≡ size) nodes

pub length-concat :
    (size : ℕ) (nodes : List (List ℕ))
    → Sized size nodes
    → length (concat nodes) ≡ span size (length nodes)
length-concat size [] h = refl
length-concat size (node ∷ nodes) (e, h) =
    omega (arith, length-append node (concat nodes), length-concat size nodes h, e)

pub span_lower : (size k l : ℕ) → k < l → size + span size k ≤ span size l
span_lower size k zero h = absurd (omega arith)
span_lower size zero (suc l) h = omega arith
span_lower size (suc k) (suc l) h = omega (arith, span_lower size k l (omega (arith, h)))

-- Taking and dropping across the border of two lists.
module _ {A : Type 0} where
  pub take-append_left : (n : ℕ) (xs ys : List A) → n ≤ length xs → take n (xs ++ ys) ≡ take n xs
  take-append_left zero xs ys h = refl
  take-append_left (suc n) [] ys h = absurd (omega arith)
  take-append_left (suc n) (x ∷ xs) ys h =
      ap (λ t. x ∷ t) (take-append_left n xs ys (omega (arith, h)))

  pub take-append_right :
      (n : ℕ) (xs ys : List A) → length xs ≤ n → take n (xs ++ ys) ≡ xs ++ take (n - length xs) ys
  take-append_right n [] ys h = ap (λ k. take k ys) (omega arith)
  take-append_right zero (x ∷ xs) ys h = absurd (omega arith)
  take-append_right (suc n) (x ∷ xs) ys h =
      let less : suc n - length (x ∷ xs) ≡ n - length xs = omega arith in
      rw less (ap (λ t. x ∷ t) (take-append_right n xs ys (omega (arith, h))))

  pub drop-append_left :
      (n : ℕ) (xs ys : List A) → n ≤ length xs → drop n (xs ++ ys) ≡ drop n xs ++ ys
  drop-append_left zero xs ys h = refl
  drop-append_left (suc n) [] ys h = absurd (omega arith)
  drop-append_left (suc n) (x ∷ xs) ys h = drop-append_left n xs ys (omega (arith, h))

  pub drop-append_right :
      (n : ℕ) (xs ys : List A) → length xs ≤ n → drop n (xs ++ ys) ≡ drop (n - length xs) ys
  drop-append_right n [] ys h = ap (λ k. drop k ys) (omega arith)
  drop-append_right zero (x ∷ xs) ys h = absurd (omega arith)
  drop-append_right (suc n) (x ∷ xs) ys h =
      let less : suc n - length (x ∷ xs) ≡ n - length xs = omega arith in
      rw less (drop-append_right n xs ys (omega (arith, h)))

  pub drop_all : (xs : List A) → drop (length xs) xs ≡ []
  drop_all [] = refl
  drop_all (x ∷ xs) = drop_all xs

  -- Some elements in the place of others.
  abbrev pub splice : List A → ℕ → List A → List A
  splice xs i ys = take i xs ++ (ys ++ drop (i + length ys) xs)

  pub length-splice :
      (xs : List A) (i : ℕ) (ys : List A)
      → i + length ys ≤ length xs
      → length (splice xs i ys) ≡ length xs
  length-splice xs i ys h = omega (
    arith,
    h,
    length-append (take i xs) (ys ++ drop (i + length ys) xs),
    length-append ys (drop (i + length ys) xs),
    length-take i xs,
    length-drop (i + length ys) xs,
  )

  pub splice-append :
      (xs zs : List A) (i : ℕ) (ys : List A)
      → i + length ys ≤ length xs
      → splice xs i ys ++ zs ≡ splice (xs ++ zs) i ys
  splice-append xs zs i ys h =
      let rest = drop (i + length ys) xs in
      append_assoc (take i xs) (ys ++ rest) zs
      ∙ ap₂ (λ s t. s ++ t) (sym (take-append_left i xs zs (omega (arith, h))))
          (append_assoc ys rest zs
            ∙ ap (λ t. ys ++ t) (sym (drop-append_left (i + length ys) xs zs h)))

  pub splice-over :
      (xs zs : List A) (i : ℕ) (ys₁ ys₂ : List A)
      → i + length ys₁ ≡ length xs
      → splice xs i ys₁ ++ (ys₂ ++ drop (length ys₂) zs) ≡ splice (xs ++ zs) i (ys₁ ++ ys₂)
  splice-over xs zs i ys₁ ys₂ h =
      let none_left : drop (i + length ys₁) xs ≡ [] = ap (λ k. drop k xs) h ∙ drop_all xs in
      let lengths = length-append ys₁ ys₂ in
      let border : drop (i + length (ys₁ ++ ys₂)) (xs ++ zs) ≡ drop (length ys₂) zs =
        drop-append_right (i + length (ys₁ ++ ys₂)) xs zs (omega (arith, h, lengths))
        ∙ ap (λ k. drop k zs) (omega (arith, h, lengths)) in
      let tail = ys₂ ++ drop (length ys₂) zs in
      ap (λ t. (take i xs ++ (ys₁ ++ t)) ++ tail) none_left
      ∙ ap (λ t. (take i xs ++ t) ++ tail) (append-nil ys₁)
      ∙ append_assoc (take i xs) ys₁ tail
      ∙ ap₂ (λ s t. s ++ t) (sym (take-append_left i xs zs (omega (arith, h))))
          (sym (append_assoc ys₁ ys₂ (drop (length ys₂) zs))
            ∙ ap (λ t. (ys₁ ++ ys₂) ++ t) (sym border))

module _ {A : Type 0} where
  take_add :
      (xs : List A) (i j : ℕ) → i ≤ length xs → take i xs ++ take j (drop i xs) ≡ take (i + j) xs
  take_add xs zero j h = ap (λ k. take k xs) (omega arith)
  take_add [] (suc i) j h = absurd (omega arith)
  take_add (x ∷ xs) (suc i) j h =
      let one : suc i + j ≡ suc (i + j) = omega arith in
      rw one (ap (λ t. x ∷ t) (take_add xs i j (omega (arith, h))))

  pub splice-drop :
      (xs : List A) (i j : ℕ) (ys : List A)
      → i ≤ length xs
      → take i xs ++ splice (drop i xs) j ys ≡ splice xs (i + j) ys
  splice-drop xs i j ys h =
      let there : drop (j + length ys) (drop i xs) ≡ drop (i + j + length ys) xs =
        drop-drop i (j + length ys) xs ∙ ap (λ k. drop k xs) (omega arith) in
      sym (append_assoc (take i xs) (take j (drop i xs)) (ys ++ drop (j + length ys) (drop i xs)))
      ∙ ap₂ (λ s t. s ++ (ys ++ t)) (take_add xs i j h) there

  pub drop-splice :
      (xs : List A) (i j : ℕ) (ys : List A)
      → i ≤ length xs
      → drop i (splice xs (i + j) ys) ≡ splice (drop i xs) j ys
  drop-splice xs i j ys h =
      let kept : length (take i xs) ≡ i = omega (arith, length-take i xs, h) in
      ap (λ t. drop i t) (sym (splice-drop xs i j ys h))
      ∙ ap (λ k. drop k (take i xs ++ splice (drop i xs) j ys)) (sym kept)
      ∙ drop-append (take i xs) (splice (drop i xs) j ys)

-- The bytes from a block on, and those before it.
pub concat-drop :
    (size k : ℕ) (nodes : List (List ℕ))
    → Sized size nodes
    → k ≤ length nodes
    → concat (drop k nodes) ≡ drop (span size k) (concat nodes)
concat-drop size zero nodes s h = refl
concat-drop size (suc k) [] s h = absurd (omega arith)
concat-drop size (suc k) (node ∷ nodes) (e, s) h =
    let over = drop-append_right (size + span size k) node (concat nodes) (omega (arith, e)) in
    let left : size + span size k - length node ≡ span size k = omega (arith, e) in
    concat-drop size k nodes s (omega (arith, h))
    ∙ sym (over ∙ ap (λ n. drop n (concat nodes)) left)

pub concat-take :
    (size k : ℕ) (nodes : List (List ℕ))
    → Sized size nodes
    → k ≤ length nodes
    → concat (take k nodes) ≡ take (span size k) (concat nodes)
concat-take size zero nodes s h = refl
concat-take size (suc k) [] s h = absurd (omega arith)
concat-take size (suc k) (node ∷ nodes) (e, s) h =
    let over = take-append_right (size + span size k) node (concat nodes) (omega (arith, e)) in
    let left : size + span size k - length node ≡ span size k = omega (arith, e) in
    ap (λ t. node ++ t) (concat-take size k nodes s (omega (arith, h)))
    ∙ sym (over ∙ ap (λ n. node ++ take n (concat nodes)) left)

pub concat-append : (xs ys : List (List ℕ)) → concat (xs ++ ys) ≡ concat xs ++ concat ys
concat-append [] ys = refl
concat-append (x ∷ xs) ys =
    ap (λ t. x ++ t) (concat-append xs ys) ∙ sym (append_assoc x (concat xs) (concat ys))
