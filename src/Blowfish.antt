-- ===== src/Blowfish.antt =====
-- The block cipher of libsax/sax/blowfish.c.
pub mod Tables
pub mod Inverse
pub mod Stream
pub mod Schedule
mod Tests
use xlibsax.Prelude.{
  ℕ, zero, suc, ◌+◌, ◌-◌, ◌*◌, ◌/◌, ◌%◌, ◌^◌, bit_or, bit_xor, Option, none, some, List, [], ◌∷◌,
  ◌++◌, length, get_or, set, take, drop, leb, if◌then◌else◌, add32,
}
use xlibsax.Buffer.Numbers.{bytes_of, number_of}
use xlibsax.Blowfish.Tables.{orig_p, orig_s}

-- `P` and `S` of the context.
pub record Blowfish : Type 0 where
  pub p : List ℕ
  pub s : List (List ℕ)

-- `S[box][i]`
abbrev pub box : Blowfish → ℕ → ℕ → ℕ
box ctx k i = get_or (get_or ctx.s k []) i 0

-- `F`
unfoldable pub mangle : Blowfish → ℕ → ℕ
mangle ctx x =
    let d = x % 256 in
    let c = x / 2 ^ 8 % 256 in
    let b = x / 2 ^ 16 % 256 in
    let a = x / 2 ^ 24 % 256 in
    add32 (bit_xor (add32 (box ctx 0 a) (box ctx 1 b)) (box ctx 2 c)) (box ctx 3 d)

-- One round with `P[i]`, the exchange of the halves included.
unfoldable pub feistel : Blowfish → ℕ → ℕ × ℕ → ℕ × ℕ
feistel ctx i (u, v) = let u' = bit_xor u (get_or ctx.p i 0) in (bit_xor (mangle ctx u') v, u')

unfoldable pub rounds_up : Blowfish → ℕ → ℕ → ℕ × ℕ → ℕ × ℕ
rounds_up ctx zero i uv = uv
rounds_up ctx (suc n) i uv = rounds_up ctx n (i + 1) (feistel ctx i uv)

unfoldable pub rounds_down : Blowfish → ℕ → ℕ → ℕ × ℕ → ℕ × ℕ
rounds_down ctx zero i uv = uv
rounds_down ctx (suc n) i uv = rounds_down ctx n (i - 1) (feistel ctx i uv)

unfoldable pub encrypt : Blowfish → ℕ × ℕ → ℕ × ℕ
encrypt ctx x =
    let uv = rounds_up ctx 16 0 x in
    (bit_xor uv.1 (get_or ctx.p 17 0), bit_xor uv.0 (get_or ctx.p 16 0))

unfoldable pub decrypt : Blowfish → ℕ × ℕ → ℕ × ℕ
decrypt ctx x =
    let uv = rounds_down ctx 16 17 x in
    (bit_xor uv.1 (get_or ctx.p 0 0), bit_xor uv.0 (get_or ctx.p 1 0))

-- Four bytes of the key from `j` on, round and round.
unfoldable pub key_word : List ℕ → ℕ → ℕ → ℕ → ℕ × ℕ
key_word key zero x j = (x, j)
key_word key (suc n) x j =
    key_word key n (bit_or (x * 2 ^ 8 % 2 ^ 32) (get_or key j 0))
      (if leb (length key) (j + 1) then 0 else j + 1)

unfoldable pub keyed : List ℕ → List ℕ → ℕ → List ℕ
keyed key [] j = []
keyed key (w ∷ ws) j = let x = key_word key 4 0 j in bit_xor w x.0 ∷ keyed key ws x.1

-- The loops that replace `P` and one box by what the cipher makes of the block before.
unfoldable pub fill_p : ℕ → ℕ → Blowfish → ℕ × ℕ → Blowfish × (ℕ × ℕ)
fill_p zero i ctx x = (ctx, x)
fill_p (suc n) i ctx x =
    let y = encrypt ctx x in
    fill_p n (i + 2) (record ctx { p = set (set ctx.p i y.0) (i + 1) y.1 }) y

unfoldable pub fill_box : ℕ → ℕ → ℕ → Blowfish → ℕ × ℕ → Blowfish × (ℕ × ℕ)
fill_box k zero j ctx x = (ctx, x)
fill_box k (suc n) j ctx x =
    let y = encrypt ctx x in
    let filled = set (set (get_or ctx.s k []) j y.0) (j + 1) y.1 in
    fill_box k n (j + 2) (record ctx { s = set ctx.s k filled }) y

unfoldable pub fill_s : ℕ → ℕ → Blowfish → ℕ × ℕ → Blowfish
fill_s zero k ctx x = ctx
fill_s (suc n) k ctx x = let r = fill_box k 128 0 ctx x in fill_s n (k + 1) r.0 r.1

-- `blowfish_init`; `none` is the read of a key that has no bytes.
unfoldable pub init : List ℕ → Option Blowfish
init [] = none
init (c ∷ key) =
    let r = fill_p 9 0 (record { p = keyed (c ∷ key) orig_p 0; s = orig_s }) (0, 0) in
    some (fill_s 4 0 r.0 r.1)

-- Blocks of eight bytes as two little-endian words, in place; the rest stays as it is.
unfoldable pub blocks : (ℕ × ℕ → ℕ × ℕ) → ℕ → List ℕ → List ℕ
blocks step zero bytes = bytes
blocks step (suc n) bytes =
    let y = step (number_of (take 4 bytes), number_of (take 4 (drop 4 bytes))) in
    bytes_of 4 y.0 ++ (bytes_of 4 y.1 ++ blocks step n (drop 8 bytes))

-- `blowfish_enc` and `blowfish_dec`: the bytes, and the number of bytes done.
unfoldable pub enc : Blowfish → List ℕ → ℕ → List ℕ × ℕ
enc ctx bytes size = (blocks (encrypt ctx) (size / 8) bytes, size / 8 * 8)

unfoldable pub dec : Blowfish → List ℕ → ℕ → List ℕ × ℕ
dec ctx bytes size = (blocks (decrypt ctx) (size / 8) bytes, size / 8 * 8)
