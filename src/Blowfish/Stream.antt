-- ===== src/Blowfish/Stream.antt =====
-- Whole buffers through the cipher of libsax/sax/blowfish.c.
use xlibsax.Prelude.{
  ℕ, zero, suc, ◌+◌, ◌*◌, ◌/◌, ◌^◌, ◌≤◌, ◌<◌, bit_xor, ◌≡◌, refl, sym, ap, ap₂, ◌∙◌, List, ◌++◌,
  arith, bit_xor-lt, length, get_or, take, drop, All, length-take, length-drop, take-append-drop,
  drop-drop, All-take, All-drop, get_or-lt,
}
use xlibsax.Buffer.Numbers.{
  bytes_of, number_of, number_of-bytes_of, number_of-lt, bytes_of-number_of,
}
use xlibsax.Blowfish.{Blowfish, mangle, feistel, rounds_up, encrypt, decrypt, blocks, enc, dec}
use xlibsax.Blowfish.Inverse.{decrypt-encrypt}

-- The words of the context that are combined with the halves are 32-bit numbers.
pub record IsValid (ctx : Blowfish) : Type 0 where
  pub words32 : All (λ w. w < 2 ^ 32) ctx.p

abbrev pub Block : ℕ × ℕ → Type 0
Block x = (x.0 < 2 ^ 32) × (x.1 < 2 ^ 32)

module _ (ctx : Blowfish) (v : IsValid ctx) where
  feistel-Block : (i : ℕ) (x : ℕ × ℕ) → Block x → Block (feistel ctx i x)
  unfolding feistel mangle
  feistel-Block i (a, b) (p, q) =
      let a' : bit_xor a (get_or ctx.p i 0) < 2 ^ 32 =
        bit_xor-lt 32 a (get_or ctx.p i 0) p (get_or-lt ctx.p i v.words32) in
      (bit_xor-lt 32 (mangle ctx (bit_xor a (get_or ctx.p i 0))) b (omega arith) q, a')

  rounds_up-Block : (n i : ℕ) (x : ℕ × ℕ) → Block x → Block (rounds_up ctx n i x)
  unfolding rounds_up
  rounds_up-Block zero i x h = h
  rounds_up-Block (suc n) i x h = rounds_up-Block n (i + 1) (feistel ctx i x) (feistel-Block i x h)

  pub encrypt-Block : (x : ℕ × ℕ) → Block x → Block (encrypt ctx x)
  unfolding encrypt
  encrypt-Block x h =
      let (p, q) = rounds_up-Block 16 0 x h in
      (
        bit_xor-lt 32 (rounds_up ctx 16 0 x).1 (get_or ctx.p 17 0) q (get_or-lt ctx.p 17 v.words32),
        bit_xor-lt 32 (rounds_up ctx 16 0 x).0 (get_or ctx.p 16 0) p (get_or-lt ctx.p 16 v.words32),
      )

-- A step on blocks that another one undoes, on whole buffers.
module _ (forth back : ℕ × ℕ → ℕ × ℕ) (undo : (x : ℕ × ℕ) → back (forth x) ≡ x)
    (keep : (x : ℕ × ℕ) → Block x → Block (forth x)) where
  word :
      (xs : List ℕ)
      → All (λ x. x < 256) xs
      → length xs ≡ 4
      → (number_of xs < 2 ^ 32) × (bytes_of 4 (number_of xs) ≡ xs)
  word xs h n =
      let e : 256 ^ length xs ≡ 256 ^ 4 = ap (λ k. 256 ^ k) n in
      (
        omega (arith, number_of-lt xs h, e),
        ap (λ k. bytes_of k (number_of xs)) (sym n) ∙ bytes_of-number_of xs h,
      )

  blocks-blocks :
      (n : ℕ) (bytes : List ℕ)
      → All (λ x. x < 256) bytes
      → n * 8 ≤ length bytes
      → blocks back n (blocks forth n bytes) ≡ bytes
  unfolding blocks bytes_of
  blocks-blocks zero bytes h l = refl
  blocks-blocks (suc n) bytes h l =
      let first = take 4 bytes in
      let second = take 4 (drop 4 bytes) in
      let (small₁, same₁) =
        word first (All-take (λ x. x < 256) 4 bytes h) (omega (arith, length-take 4 bytes)) in
      let (small₂, same₂) =
        word second (All-take (λ x. x < 256) 4 (drop 4 bytes) (All-drop (λ x. x < 256) 4 bytes h))
          (omega (arith, length-take 4 (drop 4 bytes), length-drop 4 bytes)) in
      let x : ℕ × ℕ = (number_of first, number_of second) in
      let (lo, hi) = keep x (small₁, small₂) in
      let y = forth x in
      let read₁ = number_of-bytes_of 4 y.0 lo in
      let read₂ = number_of-bytes_of 4 y.1 hi in
      let rest =
        blocks-blocks n (drop 8 bytes) (All-drop (λ x. x < 256) 8 bytes h)
          (omega (arith, length-drop 8 bytes)) in
      let joined : bytes_of 4 x.0 ++ (bytes_of 4 x.1 ++ drop 8 bytes) ≡ bytes =
        ap₂ (λ a b. a ++ (b ++ drop 8 bytes)) same₁ same₂
        ∙ (ap (λ t. first ++ (second ++ t)) (sym (drop-drop 4 4 bytes))
            ∙ (ap (λ t. first ++ t) (take-append-drop 4 (drop 4 bytes))
                ∙ take-append-drop 4 bytes)) in
      ap₂ (λ p r. bytes_of 4 p.0 ++ (bytes_of 4 p.1 ++ r))
        (ap₂ (λ a b. back (a, b)) read₁ read₂ ∙ undo x) rest
      ∙ joined

-- `blowfish_dec` of what `blowfish_enc` made of a buffer gives the buffer back, for a context of 32-bit
-- words, bytes, and a size within the buffer; both report the same number of bytes.
pub dec-enc :
    (ctx : Blowfish) (bytes : List ℕ) (size : ℕ)
    → IsValid ctx
    → All (λ x. x < 256) bytes
    → size ≤ length bytes
    → dec ctx (enc ctx bytes size).0 size ≡ (bytes, (enc ctx bytes size).1)
unfolding dec enc
dec-enc ctx bytes size v h l =
    let n : size / 8 * 8 ≤ length bytes = omega arith in
    ap (λ b. (b, size / 8 * 8))
      (blocks-blocks (encrypt ctx) (decrypt ctx) (decrypt-encrypt ctx) (encrypt-Block ctx v)
        (size / 8) bytes h n)
