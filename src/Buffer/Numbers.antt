-- ===== src/Buffer/Numbers.antt =====
-- The overloads of `get` and `put` for numbers in libsax/sax/net/buffer.h, on a little-endian machine.
use xlibsax.Prelude.{
  ℕ, zero, suc, ◌+◌, ◌*◌, ◌/◌, ◌%◌, ◌^◌, ◌<◌, ◌≡◌, refl, ap, Bool, Option, none, some, List, [],
  ◌∷◌, ◌++◌, arith, length, All, if◌then◌else◌,
}
use xlibsax.Buffer.{Buffer, get, put}

-- The bytes of a number of `width` bytes in memory, and the number that they are.
unfoldable pub bytes_of : ℕ → ℕ → List ℕ
bytes_of zero num = []
bytes_of (suc width) num = num % 256 ∷ bytes_of width (num / 256)

unfoldable pub number_of : List ℕ → ℕ
number_of [] = 0
number_of (x ∷ xs) = x + number_of xs * 256

-- `bswap_16`, `bswap_32` and `bswap_64`
unfoldable pub turned : List ℕ → List ℕ
turned [] = []
turned (x ∷ xs) = turned xs ++ (x ∷ [])

unfoldable pub bswap : ℕ → ℕ → ℕ
bswap width num = number_of (turned (bytes_of width num))

-- `get(num, bigendian)` for a number of `width` bytes.
unfoldable pub get_num : Buffer → ℕ → Bool → Option (Option ℕ × Buffer)
get_num b width bigendian = elim (get b width) [
  | none ↦ none
  | some (none, b') ↦ some (none, b')
  | some (some bytes, b') ↦
      some (some (if bigendian then bswap width (number_of bytes) else number_of bytes), b')
]

-- `put(num, bigendian)`
unfoldable pub put_num : (ℕ → Option (ℕ × List ℕ)) → Buffer → ℕ → Bool → ℕ → Option (Bool × Buffer)
put_num alloc b width bigendian num =
    put alloc b (bytes_of width (if bigendian then bswap width num else num))

-- The bytes of a number that fits its width are read back as the number.
pub number_of-bytes_of : (width num : ℕ) → num < 256 ^ width → number_of (bytes_of width num) ≡ num
unfolding number_of bytes_of
number_of-bytes_of zero num h = omega arith
number_of-bytes_of (suc width) num h =
    let e : 256 ^ suc width ≡ 256 * 256 ^ width = omega arith in
    omega (arith, number_of-bytes_of width (num / 256) (omega (arith, e, h)))

-- Bytes are at most as large as their number allows, and come back from it.
pub number_of-lt : (xs : List ℕ) → All (λ x. x < 256) xs → number_of xs < 256 ^ length xs
unfolding number_of
number_of-lt [] h = omega arith
number_of-lt (x ∷ xs) (b, h) =
    let e : 256 ^ suc (length xs) ≡ 256 * 256 ^ length xs = omega arith in
    omega (arith, e, number_of-lt xs h)

pub bytes_of-number_of :
    (xs : List ℕ) → All (λ x. x < 256) xs → bytes_of (length xs) (number_of xs) ≡ xs
unfolding number_of bytes_of
bytes_of-number_of [] h = refl
bytes_of-number_of (x ∷ xs) (b, h) =
    let low : (x + number_of xs * 256) % 256 ≡ x = omega arith in
    let high : (x + number_of xs * 256) / 256 ≡ number_of xs = omega arith in
    rw (low, high) (ap (λ ys. x ∷ ys) (bytes_of-number_of xs h))
