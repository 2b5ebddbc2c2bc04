-- ===== src/Blowfish/Schedule.antt =====
-- The key schedule of libsax/sax/blowfish.c makes a valid context.
use xlibsax.Prelude.{
  ℕ, zero, suc, ◌+◌, ◌*◌, ◌%◌, ◌^◌, ◌≤◌, ◌<◌, bit_or, ◌≡◌, refl, sym, ap, ◌∙◌, some, List, [], ◌∷◌,
  arith, bit_xor-lt, bit_or-lt, length, get_or, set, All, All-set, leb, if◌then◌else◌, some-eq,
}
use xlibsax.Blowfish.{Blowfish, encrypt, key_word, keyed, fill_p, fill_box, fill_s, init, enc, dec}
use xlibsax.Blowfish.Stream.{IsValid, Block, encrypt-Block, dec-enc}
use xlibsax.Blowfish.Tables.{orig_p, orig_s}

key_byte : (key : List ℕ) (j : ℕ) → All (λ x. x < 256) key → get_or key j 0 < 2 ^ 32
key_byte [] j h = omega arith
key_byte (x ∷ xs) zero (p, h) = omega arith
key_byte (x ∷ xs) (suc j) (p, h) = key_byte xs j h

module _ (key : List ℕ) (bytes : All (λ x. x < 256) key) where
  key_word-lt : (n x j : ℕ) → x < 2 ^ 32 → (key_word key n x j).0 < 2 ^ 32
  unfolding key_word
  key_word-lt zero x j p = p
  key_word-lt (suc n) x j p =
      key_word-lt n (bit_or (x * 2 ^ 8 % 2 ^ 32) (get_or key j 0))
        (if leb (length key) (j + 1) then 0 else j + 1)
        (bit_or-lt 32 (x * 2 ^ 8 % 2 ^ 32) (get_or key j 0) (omega arith) (key_byte key j bytes))

  keyed-All :
      (ws : List ℕ) (j : ℕ) → All (λ w. w < 2 ^ 32) ws → All (λ w. w < 2 ^ 32) (keyed key ws j)
  unfolding keyed
  keyed-All [] j h = tt
  keyed-All (w ∷ ws) j (p, h) = (
    bit_xor-lt 32 w (key_word key 4 0 j).0 p (key_word-lt 4 0 j (omega arith)),
    keyed-All ws (key_word key 4 0 j).1 h,
  )

fill_p-IsValid :
    (n i : ℕ) (ctx : Blowfish) (x : ℕ × ℕ) → IsValid ctx → Block x → IsValid (fill_p n i ctx x).0
unfolding fill_p
fill_p-IsValid zero i ctx x v b = v
fill_p-IsValid (suc n) i ctx x v b =
    let y = encrypt ctx x in
    let (lo, hi) = encrypt-Block ctx v x b in
    fill_p-IsValid n (i + 2) (record ctx { p = set (set ctx.p i y.0) (i + 1) y.1 }) y
      (record {
        words32 =
            All-set (λ w. w < 2 ^ 32) (set ctx.p i y.0) (i + 1) y.1
              (All-set (λ w. w < 2 ^ 32) ctx.p i y.0 v.words32 lo) hi;
      })
      (lo, hi)

-- The boxes do not matter for the bounds.
fill_box-p : (k n j : ℕ) (ctx : Blowfish) (x : ℕ × ℕ) → (fill_box k n j ctx x).0.p ≡ ctx.p
unfolding fill_box
fill_box-p k zero j ctx x = refl
fill_box-p k (suc n) j ctx x =
    let y = encrypt ctx x in
    let filled = set (set (get_or ctx.s k []) j y.0) (j + 1) y.1 in
    fill_box-p k n (j + 2) (record ctx { s = set ctx.s k filled }) y

fill_s-p : (n k : ℕ) (ctx : Blowfish) (x : ℕ × ℕ) → (fill_s n k ctx x).p ≡ ctx.p
unfolding fill_s
fill_s-p zero k ctx x = refl
fill_s-p (suc n) k ctx x =
    let r = fill_box k 128 0 ctx x in fill_s-p n (k + 1) r.0 r.1 ∙ fill_box-p k 128 0 ctx x

orig_p-All : All (λ w. w < 2 ^ 32) orig_p
orig_p-All = omega arith

pub init-IsValid :
    (key : List ℕ) {ctx : Blowfish} → All (λ x. x < 256) key → init key ≡ some ctx → IsValid ctx
unfolding init
init-IsValid [] h e = cc
init-IsValid (c ∷ key) {ctx} h e =
    let start : Blowfish = record { p = keyed (c ∷ key) orig_p 0; s = orig_s } in
    let r = fill_p 9 0 start (0, 0) in
    let v : IsValid start = record { words32 = keyed-All (c ∷ key) h orig_p 0 orig_p-All } in
    let filled = fill_p-IsValid 9 0 start (0, 0) v (omega arith, omega arith) in
    let same : ctx.p ≡ r.0.p =
      ap (λ (x : Blowfish). x.p) (sym (some-eq e)) ∙ fill_s-p 4 0 r.0 r.1 in
    record { words32 = rw same (filled.words32) }

-- For a context that `blowfish_init` makes of a key of bytes, `blowfish_dec` of what `blowfish_enc`
-- made of a buffer of bytes gives the buffer back, for every size within it; both report the same
-- number of bytes.
pub dec-enc-init :
    (key bytes : List ℕ) (size : ℕ) {ctx : Blowfish}
    → All (λ x. x < 256) key
    → init key ≡ some ctx
    → All (λ x. x < 256) bytes
    → size ≤ length bytes
    → dec ctx (enc ctx bytes size).0 size ≡ (bytes, (enc ctx bytes size).1)
dec-enc-init key bytes size {ctx} hk e h l = dec-enc ctx bytes size (init-IsValid key hk e) h l
