-- ===== src/Strings/Base64.antt =====
-- `g_b64_encode` and `g_b64_decode` of libsax/sax/os_api.c. A destination is a list of the bytes that
-- the memory holds from there on.
pub mod Round
use xlibsax.Prelude.{
  ℕ, zero, suc, ◌+◌, ◌-◌, ◌*◌, ◌/◌, ◌%◌, min, ◌||◌, Option, none, some, List, [], ◌∷◌, ◌++◌, length,
  get_or, take, drop, replicate, run, ltb, ◌==◌, if◌then◌else◌,
}

-- `_t64`
abbrev pub alphabet : List ℕ
alphabet = run 65 26 ++ run 97 26 ++ run 48 10 ++ (45 ∷ 46 ∷ [])

-- The entries that the source gives for `_t256`, with 255 for the `char` -1; C sets the rest to 0.
abbrev pub codes : List ℕ
codes =
    replicate 45 255
    ++ (62 ∷ 63 ∷ 255 ∷ [])
    ++ run 52 10
    ++ replicate 7 255
    ++ run 0 26
    ++ replicate 6 255
    ++ run 26 26
    ++ replicate 101 255

unfoldable pub letter : ℕ → ℕ
letter i = get_or alphabet i 0

unfoldable pub code : ℕ → ℕ
code c = get_or codes c 0

-- The bytes at `i` are replaced.
unfoldable pub patch : List ℕ → ℕ → List ℕ → List ℕ
patch dst i bytes = take i dst ++ (bytes ++ drop (i + length bytes) dst)

-- `b64_encode` on 1 to 3 bytes: what it stores, at most `room` bytes, and the count that it returns.
unfoldable pub encode_group : List ℕ → ℕ → List ℕ × ℕ
encode_group src room =
    let s0 : ℕ = get_or src 0 0 in
    let s1 : ℕ = get_or src 1 0 in
    let s2 : ℕ = get_or src 2 0 in
    let bytes : List ℕ = take room (
      letter (s0 / 4)
      ∷ letter (s0 % 4 * 16 + s1 / 16)
      ∷ letter (s1 % 16 * 4 + s2 / 64)
      ∷ letter (s2 % 64)
      ∷ []) in
    (bytes, min (length bytes) (length src + 1))

-- `b64_decode` on 1 to 4 bytes: `none` is -1; else what it stores and the count that it returns.
-- `|` joins bits that are disjoint, and is a sum.
unfoldable pub decode_group : List ℕ → ℕ → Option (List ℕ × ℕ)
decode_group src room =
    let p : ℕ → ℕ = λ i. if ltb i (length src) then code (get_or src i 0) else 0 in
    let bytes : List ℕ =
      take room
        ((p 0 * 4 % 256 + p 1 / 16) ∷ (p 1 * 16 % 256 + p 2 / 4) ∷ (p 2 * 64 % 256 + p 3) ∷ []) in
    if p 0 == 255 || p 1 == 255 || p 2 == 255 || p 3 == 255
    then none
    else some (bytes, min (length bytes) (if length src == 4 then 3 else length src))

-- The loop of `g_b64_encode`, before `end`: the destination and the position after it.
unfoldable pub encode_loop : ℕ → List ℕ → List ℕ → ℕ → ℕ → List ℕ × ℕ
encode_loop zero src dst at end = (dst, at)
encode_loop (suc fuel) [] dst at end = (dst, at)
encode_loop (suc fuel) (c ∷ src) dst at end =
    let (bytes, ret) = encode_group (take 3 (c ∷ src)) (end - at) in
    let later = encode_loop fuel (drop 3 (c ∷ src)) (patch dst at bytes) (at + ret) end in
    if ltb at end then later else (dst, at)

-- `g_b64_encode`, for a positive `dst_len`.
unfoldable pub encode : List ℕ → List ℕ → ℕ → List ℕ × ℕ
encode src dst dst_len =
    let (filled, at) = encode_loop (length src) src dst 0 (dst_len - 1) in
    (patch filled at (0 ∷ []), at)

unfoldable pub decode_loop : ℕ → List ℕ → List ℕ → ℕ → ℕ → Option (List ℕ × ℕ)
decode_loop zero src dst at dst_len = some (dst, at)
decode_loop (suc fuel) [] dst at dst_len = some (dst, at)
decode_loop (suc fuel) (c ∷ src) dst at dst_len =
    if ltb at dst_len
    then elim (decode_group (take 4 (c ∷ src)) (dst_len - at)) [
      | none ↦ none
      | some (bytes, ret) ↦
          if ret == 0
          then none
          else decode_loop fuel (drop 4 (c ∷ src)) (patch dst at bytes) (at + ret) dst_len
    ]
    else some (dst, at)

-- `g_b64_decode`; `none` is -1.
unfoldable pub decode : List ℕ → List ℕ → ℕ → Option (List ℕ × ℕ)
decode src dst dst_len = decode_loop (length src) src dst 0 dst_len
