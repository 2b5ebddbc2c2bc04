-- ===== src/Buffer.antt =====
-- The byte buffer of libsax/sax/net/buffer.h: a position, a mark and a reading limit over pages of memory.
-- An outer `none` is a fault: an access out of the pages, or a failed assertion.
pub mod Valid
pub mod Modes
pub mod Transfer
pub mod Store
pub mod Numbers
mod Tests
use xlibsax.Prelude.{
  ℕ, ◌+◌, ◌-◌, ◌*◌, ◌/◌, ◌%◌, ◌^◌, Bool, true, false, not, ◌||◌, Option, none, some, List, [], ◌++◌,
  length, take, drop, ltb, leb, ◌==◌, if◌then◌else◌, add32, sub32,
}

-- `base` is the address of `_buf`; `buf` are the bytes that the pages hold.
pub record Buffer : Type 0 where
  pub base : ℕ
  pub buf : List ℕ
  pub current : ℕ
  pub mark : ℕ
  pub limit : ℕ
  pub capacity : ℕ
  pub block_size : ℕ

-- `INVALID_VALUE`
abbrev pub invalid : ℕ
invalid = 2 ^ 32 - 1

abbrev pub writing : Buffer → Bool
writing b = b.limit == invalid

-- `memcpy` into and out of the pages.
unfoldable pub write_at : List ℕ → ℕ → List ℕ → Option (List ℕ)
write_at buf i bytes =
    if leb (i + length bytes) (length buf)
    then some (take i buf ++ (bytes ++ drop (i + length bytes) buf))
    else none

unfoldable pub read_at : List ℕ → ℕ → ℕ → Option (List ℕ)
read_at buf i n = if leb (i + n) (length buf) then some (take n (drop i buf)) else none

-- `mark`, `clear`, `rewind`
unfoldable pub set_mark : Buffer → Buffer
set_mark b = record b { mark = b.current }

unfoldable pub clear : Buffer → Buffer
clear b = record b { current = 0; mark = invalid; limit = invalid }

unfoldable pub rewind : Buffer → Buffer
rewind b = record b { mark = b.current; current = 0 }

-- `limit(new_limit)` returns the old limit.
unfoldable pub set_limit : Buffer → ℕ → Option (ℕ × Buffer)
set_limit b new_limit =
    if writing b
    then some (invalid, b)
    else (if leb new_limit b.capacity then some (b.limit, record b { limit = new_limit }) else none)

unfoldable pub reset : Buffer → Bool × Buffer
reset b =
    if b.mark == invalid
    then (false, b)
    else (true, record b { current = b.mark; mark = b.current })

unfoldable pub flip : Buffer → Bool × Buffer
flip b =
    if writing b
    then (true, record b { mark = invalid; limit = b.current; current = 0 })
    else (false, b)

-- The bytes between position and limit are moved to the front.
unfoldable pub compact : Buffer → Option (Bool × Buffer)
unfolding read_at
compact b =
    if writing b
    then some (false, b)
    else (let n = sub32 b.limit b.current in
        elim (if b.limit == b.current then some (take n b.buf) else read_at b.buf b.current n) [
          | none ↦ none
          | some moved ↦ some (
            true,
            record b { buf = moved ++ drop n b.buf; current = n; mark = invalid; limit = invalid },
          )
        ])

unfoldable pub remaining : Buffer → ℕ
remaining b = if writing b then invalid else sub32 b.limit b.current

unfoldable pub data_length : Buffer → ℕ
data_length b = if writing b then b.current else invalid

-- `get(uint8_t buf[], uint32_t length)`: the bytes, if it returns true.
unfoldable pub get : Buffer → ℕ → Option (Option (List ℕ) × Buffer)
get b n =
    if writing b || ltb (sub32 b.limit b.current) n
    then some (none, b)
    else elim (read_at b.buf b.current n) [
      | none ↦ none
      | some bytes ↦ some (some bytes, record b { current = add32 b.current n })
    ]

-- `peek` restores the position.
unfoldable pub peek : Buffer → ℕ → Option (Option (List ℕ) × Buffer)
peek b n = elim (get b n) [
  | none ↦ none
  | some (r, b') ↦ some (r, record b' { current = b.current })
]

-- `direct_get`, `commit_get` and `commit_put`; a pointer is an address.
unfoldable pub direct_get : Buffer → Option ℕ
direct_get b = if writing b then none else some (b.base + b.current)

unfoldable pub commit_get : Buffer → ℕ → ℕ → Bool × Buffer
commit_get b direct n =
    if writing b || not (b.base + b.current == direct) || ltb b.limit (add32 b.current n)
    then (false, b)
    else (true, record b { current = add32 b.current n })

unfoldable pub commit_put : Buffer → ℕ → ℕ → Bool × Buffer
commit_put b direct n =
    if not (writing b) || not (b.base + b.current == direct) || ltb b.capacity (add32 b.current n)
    then (false, b)
    else (true, record b { current = add32 b.current n })

-- `alloc pages` is what `g_shm_alloc_pages` returns: an address, and the bytes found there.
module _ (alloc : ℕ → Option (ℕ × List ℕ)) where
  -- The pages that `reserve` asks for; `size & _block_size_mask` is the remainder by `2 ^ x`.
  abbrev pub pages_for : Buffer → ℕ → ℕ
  pages_for b size = size / b.block_size + (if ltb 0 (size % b.block_size) then 1 else 0)

  unfoldable pub reserve : Buffer → ℕ → Option (Bool × Buffer)
  reserve b size =
      if ltb b.capacity size
      then elim (alloc (pages_for b size)) [
        | none ↦ some (false, b)
        | some (base, fresh) ↦ elim (read_at b.buf 0 b.current) [
          | none ↦ none
          | some kept ↦ elim (write_at fresh 0 kept) [
            | none ↦ none
            | some buf ↦ some (
              true,
              record b {
                base = base;
                buf = buf;
                capacity = pages_for b size * b.block_size % 2 ^ 32;
              },
            )
          ]
        ]
      ]
      else some (true, b)

  -- `put(uint8_t buf[], uint32_t length)`
  unfoldable pub put : Buffer → List ℕ → Option (Bool × Buffer)
  put b bytes =
      if not (writing b)
      then some (false, b)
      else elim (reserve b (add32 b.current (length bytes))) [
        | none ↦ none
        | some (false, b₁) ↦ some (false, b₁)
        | some (true, b₁) ↦ elim (write_at b₁.buf b₁.current bytes) [
          | none ↦ none
          | some buf ↦
              some (true, record b₁ { buf = buf; current = add32 b₁.current (length bytes) })
        ]
      ]

  unfoldable pub skip : Buffer → ℕ → Option (Bool × Buffer)
  skip b n =
      if writing b
      then elim (reserve b (add32 b.current n)) [
        | none ↦ none
        | some (false, b₁) ↦ some (false, b₁)
        | some (true, b₁) ↦
            some (true, record b₁ { mark = b₁.current; current = add32 b₁.current n })
      ]
      else if ltb (sub32 b.limit b.current) n
      then some (false, b)
      else some (true, record b { mark = b.current; current = add32 b.current n })

  unfoldable pub direct_put : Buffer → ℕ → Option (Option ℕ × Buffer)
  direct_put b n =
      if not (writing b) then some (none, b) else elim (reserve b (add32 b.current n)) [
        | none ↦ none
        | some (false, b₁) ↦ some (none, b₁)
        | some (true, b₁) ↦ some (some (b₁.base + b₁.current), b₁)
      ]

  -- The constructor, for a page size that is a power of two; `none` inside is `std::bad_alloc`.
  unfoldable pub new : ℕ → Option (Option Buffer)
  new block_size =
      let empty : Buffer = record {
        base = 0;
        buf = [];
        current = 0;
        mark = invalid;
        limit = invalid;
        capacity = 0;
        block_size = block_size;
      } in
      elim (reserve empty block_size) [
        | none ↦ none
        | some (false, b) ↦ some none
        | some (true, b) ↦ some (some b)
      ]

-- `capacity()` and `position()`
unfoldable pub capacity_of : Buffer → ℕ
capacity_of b = b.capacity

unfoldable pub position_of : Buffer → ℕ
position_of b = b.current
