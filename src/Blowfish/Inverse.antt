-- ===== src/Blowfish/Inverse.antt =====
-- The rounds of libsax/sax/blowfish.c backwards.
use xlibsax.Prelude.{
  ℕ, zero, suc, ◌+◌, bit_xor, ◌≡◌, refl, sym, ap, ap₂, ◌∙◌, arith, bit_xor_comm, bit_xor_assoc,
  bit_xor_twice, get_or,
}
use xlibsax.Blowfish.{Blowfish, mangle, feistel, rounds_up, rounds_down, encrypt, decrypt}

module _ (ctx : Blowfish) where
  rounds_up-last :
      (n i : ℕ) (x : ℕ × ℕ) → rounds_up ctx (suc n) i x ≡ feistel ctx (i + n) (rounds_up ctx n i x)
  unfolding rounds_up
  rounds_up-last zero i x = ap (λ j. feistel ctx j x) (omega arith)
  rounds_up-last (suc n) i x =
      let e : i + 1 + n ≡ i + suc n = omega arith in
      rounds_up-last n (i + 1) (feistel ctx i x)
      ∙ ap (λ j. feistel ctx j (rounds_up ctx n (i + 1) (feistel ctx i x))) e

  -- What decryption has when it has undone all rounds from the `n`-th on: the halves after `n` rounds,
  -- exchanged, each under the key word that comes off next.
  abbrev masked : ℕ → ℕ × ℕ → ℕ × ℕ
  masked n (u, v) = (bit_xor v (get_or ctx.p (n + 1) 0), bit_xor u (get_or ctx.p n 0))

  -- One round of decryption undoes one of encryption.
  feistel-masked :
      (n : ℕ) (x : ℕ × ℕ) → feistel ctx (suc n + 1) (masked (suc n) (feistel ctx n x)) ≡ masked n x
  unfolding feistel
  feistel-masked n (u, v) =
      let pn = get_or ctx.p n 0 in
      let u' = bit_xor u pn in
      let f = mangle ctx u' in
      let key : get_or ctx.p (suc n) 0 ≡ get_or ctx.p (n + 1) 0 =
        ap (λ j. get_or ctx.p j 0) (omega arith) in
      let same : bit_xor (bit_xor u' (get_or ctx.p (suc n + 1) 0)) (get_or ctx.p (suc n + 1) 0)
          ≡ u' =
        bit_xor_twice u' (get_or ctx.p (suc n + 1) 0) in
      let off : bit_xor f (bit_xor (bit_xor f v) (get_or ctx.p (suc n) 0))
          ≡ bit_xor v (get_or ctx.p (n + 1) 0) =
        sym (bit_xor_assoc f (bit_xor f v) (get_or ctx.p (suc n) 0))
        ∙ (ap (λ t. bit_xor t (get_or ctx.p (suc n) 0))
              (bit_xor_comm f (bit_xor f v)
                ∙ (ap (λ t. bit_xor t f) (bit_xor_comm f v) ∙ bit_xor_twice v f))
            ∙ ap (bit_xor v) key) in
      rw same (ap (λ t. (t, u')) off)

  rounds_down-suc :
      (n : ℕ) (y : ℕ × ℕ)
      → rounds_down ctx (suc n) (suc n + 1) y
        ≡ rounds_down ctx n (n + 1) (feistel ctx (suc n + 1) y)
  unfolding rounds_down
  rounds_down-suc n y = ap (λ i. rounds_down ctx n i (feistel ctx (suc n + 1) y)) (omega arith)

  rounds_down-rounds_up :
      (n : ℕ) (x : ℕ × ℕ) → rounds_down ctx n (n + 1) (masked n (rounds_up ctx n 0 x)) ≡ masked 0 x
  rounds_down-rounds_up zero x = unfold rounds_down rounds_up in refl
  rounds_down-rounds_up (suc n) x =
      let before = rounds_up ctx n 0 x in
      let last : rounds_up ctx (suc n) 0 x ≡ feistel ctx n before =
        rounds_up-last n 0 x ∙ ap (λ i. feistel ctx i before) (omega arith) in
      ap (λ y. rounds_down ctx (suc n) (suc n + 1) (masked (suc n) y)) last
      ∙ (rounds_down-suc n (masked (suc n) (feistel ctx n before))
          ∙ (ap (rounds_down ctx n (n + 1)) (feistel-masked n before) ∙ rounds_down-rounds_up n x))

  -- `blowfish_decrypt` undoes `blowfish_encrypt`, for every context and block.
  pub decrypt-encrypt : (x : ℕ × ℕ) → decrypt ctx (encrypt ctx x) ≡ x
  unfolding decrypt encrypt
  decrypt-encrypt (u, v) =
      let back : rounds_down ctx 16 17 (masked 16 (rounds_up ctx 16 0 (u, v))) ≡ masked 0 (u, v) =
        rounds_down-rounds_up 16 (u, v) in
      ap (λ y. (bit_xor y.1 (get_or ctx.p 0 0), bit_xor y.0 (get_or ctx.p 1 0))) back
      ∙ ap₂ (λ a b. (a, b)) (bit_xor_twice u (get_or ctx.p 0 0))
          (bit_xor_twice v (get_or ctx.p 1 0))
