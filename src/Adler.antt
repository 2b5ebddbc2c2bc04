-- ===== src/Adler.antt =====
-- The checksum of libsax/sax/adler32.c.
pub mod Sums
pub mod Equal
mod Tests
use xlibsax.Prelude.{
  ℕ, zero, suc, ◌*◌, ◌/◌, ◌%◌, ◌^◌, bit_or, ◌&&◌, List, [], ◌∷◌, length, take, drop, ltb, ◌==◌,
  if◌then◌else◌, add32,
}

-- `BASE`
abbrev pub base : ℕ
base = 65521

-- `DO1` on each byte, with the two sums.
unfoldable pub add_bytes : List ℕ → ℕ × ℕ → ℕ × ℕ
add_bytes [] s = s
add_bytes (x ∷ xs) (s1, s2) = add_bytes xs (add32 s1 x, add32 s2 (add32 s1 x))

-- The inner loop: 16 bytes at a time, while more are left and the sum is below 2 ^ 31. Every round
-- takes bytes, so the length is fuel enough in both loops.
unfoldable pub batches : ℕ → List ℕ → ℕ × ℕ → List ℕ × (ℕ × ℕ)
batches zero buf s = (buf, s)
batches (suc fuel) buf s =
    let later = batches fuel (drop 16 buf) (add_bytes (take 16 buf) s) in
    if ltb 16 (length buf) && ltb s.1 (2 ^ 31) then later else (buf, s)

unfoldable pub rounds : ℕ → List ℕ → ℕ × ℕ → ℕ × ℕ
rounds zero buf s = s
rounds (suc fuel) buf s =
    let r = batches fuel buf s in
    let t = add_bytes (take 1 r.0) r.1 in
    let later = rounds fuel (drop 1 r.0) (t.0 % base, t.1 % base) in
    if length buf == 0 then s else later

-- `calc_adler32`; `|` joins halves, of which the lower one has 16 bits.
unfoldable pub calc_adler32 : ℕ → List ℕ → ℕ
calc_adler32 adler buf =
    let s = rounds (length buf) buf (adler % 2 ^ 16, adler / 2 ^ 16) in
    bit_or (s.1 * 2 ^ 16 % 2 ^ 32) s.0
