-- ===== src/Linked/Direct.antt =====
-- Direct access to the bytes of a block, and the numbers, of libsax/sax/net/linked_buffer.h.
use xlibsax.Prelude.{
  ℕ, ◌+◌, Bool, true, false, not, ◌||◌, Option, none, some, List, [], ◌∷◌, drop, ltb, ◌==◌,
  if◌then◌else◌, add32, sub32,
}
use xlibsax.Buffer.Numbers.{bytes_of, number_of, bswap}
use xlibsax.Linked.{LinkedBuffer, chain, enter, moved, get, put}

-- The pointer of `direct_get`, as a block and a byte of it, and the length.
unfoldable pub direct_get : LinkedBuffer → Option ((ℕ × ℕ) × ℕ)
direct_get b =
    if b.limit.invalid
    then none
    else some (
      (b.current.block, b.current.curr_buf),
      if b.current.block == b.limit.block
          then sub32 b.limit.position b.current.position
          else b.current.remaining,
    )

unfoldable pub commit_get : LinkedBuffer → ℕ × ℕ → ℕ → Option (Bool × LinkedBuffer)
commit_get b ptr n =
    let near = record (moved b.current n) {
      curr_buf = b.current.curr_buf + n;
      remaining = sub32 b.current.remaining n;
    } in
    if b.limit.invalid || not (b.current.block == ptr.0) || not (b.current.curr_buf == ptr.1)
    then some (false, b)
    else if b.current.block == b.limit.block
    then (if ltb b.limit.position (add32 b.current.position n)
        then some (false, b)
        else some (true, record b { current = near }))
    else if ltb b.current.remaining n
    then some (false, b)
    else if b.current.remaining == n
    then elim (drop 1 (chain b b.current)) [
      | [] ↦ none
      | node ∷ nodes ↦ some (true, record b { current = moved (enter b.block_size b.current) n })
    ]
    else some (true, record b { current = near })

-- `get(num, bigendian)` and `put(num, bigendian)` for a number of `width` bytes.
unfoldable pub get_num : LinkedBuffer → ℕ → Bool → Option (Option ℕ × LinkedBuffer)
get_num b width bigendian = elim (get b width) [
  | none ↦ none
  | some (none, b') ↦ some (none, b')
  | some (some bytes, b') ↦
      some (some (if bigendian then bswap width (number_of bytes) else number_of bytes), b')
]

unfoldable pub put_num :
    (ℕ → Option (List ℕ)) → LinkedBuffer → ℕ → Bool → ℕ → Option (Bool × LinkedBuffer)
put_num alloc b width bigendian num =
    put alloc b (bytes_of width (if bigendian then bswap width num else num))
