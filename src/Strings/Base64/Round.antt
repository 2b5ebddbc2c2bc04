-- ===== src/Strings/Base64/Round.antt =====
-- Encoding and decoding in base 64 of one group of libsax/sax/os_api.c.
use xlibsax.Prelude.{
  ℕ, zero, suc, ◌+◌, ◌*◌, ◌/◌, ◌%◌, ◌≤◌, ◌<◌, ◌≡◌, refl, false, some, [], ◌∷◌, arith, get_or,
  take-nil, ◌==◌, ==_iff, passes, passes-at,
}
use xlibsax.Strings.Base64.{alphabet, codes, letter, code, encode_group, decode_group}

-- Every digit is read back.
pub code-letter : (i : ℕ) → i < 64 → code (letter i) ≡ i
unfolding letter code passes
code-letter i h =
    (==_iff _ _).0 (passes-at (λ i. get_or codes (get_or alphabet i 0) 0 == i) i h refl)

-- Three bytes are read back from the four digits that they are written as.
pub decode_group-encode_group :
    (a b c room : ℕ)
    → a < 256
    → b < 256
    → c < 256
    → 3 ≤ room
    → decode_group (encode_group (a ∷ b ∷ c ∷ []) 4).0 room ≡ some (a ∷ b ∷ c ∷ [], 3)
unfolding decode_group encode_group
decode_group-encode_group a b c zero ha hb hc h = elim h [ ]
decode_group-encode_group a b c (suc zero) ha hb hc h = absurd (omega arith)
decode_group-encode_group a b c (suc (suc zero)) ha hb hc h = absurd (omega arith)
decode_group-encode_group a b c (suc (suc (suc room))) ha hb hc h =
    let q0 : (a / 4 == 255) ≡ false = ground arith in
    let q1 : (a % 4 * 16 + b / 16 == 255) ≡ false = ground arith in
    let q2 : (b % 16 * 4 + c / 64 == 255) ≡ false = ground arith in
    let q3 : (c % 64 == 255) ≡ false = ground arith in
    let v0 : a / 4 * 4 % 256 + (a % 4 * 16 + b / 16) / 16 ≡ a = omega arith in
    let v1 : (a % 4 * 16 + b / 16) * 16 % 256 + (b % 16 * 4 + c / 64) / 4 ≡ b = omega arith in
    let v2 : (b % 16 * 4 + c / 64) * 64 % 256 + c % 64 ≡ c = omega arith in
    rw
      (
        code-letter (a / 4) (omega arith),
        code-letter (a % 4 * 16 + b / 16) (omega arith),
        code-letter (b % 16 * 4 + c / 64) (omega arith),
        code-letter (c % 64) (omega arith),
      )
      (rw (q0, q1, q2, q3, v0, v1, v2, take-nil {A = ℕ} room) refl)
