-- ===== src/Linked.antt =====
-- The chain of blocks of libsax/sax/net/linked_buffer.h: positions that point into blocks, over a list of
-- blocks of one size. An outer `none` is a fault: a step behind the last block, or an access out of a block.
pub mod Chain
pub mod Valid
pub mod Walk
pub mod Move
pub mod Reach
pub mod Transfer
pub mod Store
pub mod Put
pub mod Modes
pub mod Compact
pub mod Pour
pub mod Into
pub mod Direct
pub mod Commit
mod Tests
use xlibsax.Prelude.{
  ℕ, zero, suc, ◌+◌, ◌-◌, ◌^◌, Bool, true, false, not, ◌&&◌, ◌||◌, Option, none, some, List, [],
  ◌∷◌, ◌++◌, length, take, drop, ltb, leb, ◌==◌, if◌then◌else◌, add32, sub32,
}

-- `pos`. A block is named by the number of blocks that came before it, those that are gone included;
-- `curr_buf` is counted from the start of its block.
pub record Pos : Type 0 where
  pub position : ℕ
  pub remaining : ℕ
  pub block : ℕ
  pub curr_buf : ℕ
  pub invalid : Bool

-- `first` is the name of the head of `_buf_list`, and `blocks` what the blocks of the list hold.
pub record LinkedBuffer : Type 0 where
  pub current : Pos
  pub zero_pos : Pos
  pub mark : Pos
  pub limit : Pos
  pub block_size : ℕ
  pub capacity : ℕ
  pub usable : ℕ
  pub first : ℕ
  pub blocks : List (List ℕ)

abbrev pub no_pos : Pos
no_pos = record { position = 0; remaining = 0; block = 0; curr_buf = 0; invalid = true }

abbrev pub at_start : ℕ → ℕ → Pos
at_start block block_size = record {
  position = 0;
  remaining = block_size;
  block = block;
  curr_buf = 0;
  invalid = false;
}

-- The constructor, by what `alloc_node` returns.
unfoldable pub new : ℕ → Option (List ℕ) → Option LinkedBuffer
new block_size none = none
new block_size (some node) = some (record {
  current = at_start 0 block_size;
  zero_pos = at_start 0 block_size;
  mark = no_pos;
  limit = no_pos;
  block_size = block_size;
  capacity = block_size;
  usable = block_size;
  first = 0;
  blocks = node ∷ [];
})

unfoldable pub set_mark : LinkedBuffer → LinkedBuffer
set_mark b = record b { mark = b.current }

unfoldable pub reset : LinkedBuffer → Bool × LinkedBuffer
reset b =
    if b.mark.invalid then (false, b) else (true, record b { current = b.mark; mark = b.current })

-- All blocks but the first go.
unfoldable pub clear : LinkedBuffer → LinkedBuffer
clear b = record b {
  blocks = take 1 b.blocks;
  capacity = b.block_size;
  usable = b.block_size;
  zero_pos = at_start b.first b.block_size;
  current = at_start b.first b.block_size;
  mark = record b.mark { invalid = true };
  limit = record b.limit { invalid = true };
}

unfoldable pub rewind : LinkedBuffer → LinkedBuffer
rewind b = record b { mark = b.current; current = b.zero_pos }

unfoldable pub flip : LinkedBuffer → Bool × LinkedBuffer
flip b = if not b.limit.invalid then (false, b) else (
  true,
  record b { mark = record b.mark { invalid = true }; limit = b.current; current = b.zero_pos },
)

-- The loop of `compact`: blocks go until the head is that of `block`.
unfoldable pub free_until : ℕ → ℕ → List (List ℕ) → ℕ → ℕ → Option (ℕ × List (List ℕ) × ℕ)
free_until block block_size [] first capacity = none
free_until block block_size (node ∷ nodes) first capacity =
    let rest = free_until block block_size nodes (suc first) (sub32 capacity block_size) in
    if first == block then some (first, node ∷ nodes, capacity) else rest

-- Where `compact` lets the data begin and end.
unfoldable pub new_zero : LinkedBuffer → Pos
new_zero b =
    if b.limit.position == b.current.position
    then at_start b.current.block b.block_size
    else record b.current { position = 0; invalid = false }

unfoldable pub new_current : LinkedBuffer → Pos
new_current b =
    if b.limit.position == b.current.position
    then at_start b.current.block b.block_size
    else record b.limit { position = sub32 b.limit.position b.current.position; invalid = false }

unfoldable pub compact_read : LinkedBuffer → Option (Bool × LinkedBuffer)
compact_read b = elim (free_until (new_zero b).block b.block_size b.blocks b.first b.capacity) [
  | none ↦ none
  | some (first, blocks, capacity) ↦ some (
    true,
    record b {
      zero_pos = new_zero b;
      current = new_current b;
      first = first;
      blocks = blocks;
      capacity = capacity;
      usable = sub32 capacity (sub32 b.block_size (new_zero b).remaining);
      mark = record b.mark { invalid = true };
      limit = record b.limit { invalid = true };
    },
  )
]

unfoldable pub compact : LinkedBuffer → Option (Bool × LinkedBuffer)
compact b = if b.limit.invalid then some (false, b) else compact_read b

unfoldable pub remaining : LinkedBuffer → ℕ
remaining b = if b.limit.invalid then 2 ^ 32 - 1 else sub32 b.limit.position b.current.position

unfoldable pub data_length : LinkedBuffer → ℕ
data_length b = if b.limit.invalid then b.current.position else 2 ^ 32 - 1

-- `alloc` is what `alloc_node` returns while the list has so many blocks.
module _ (alloc : ℕ → Option (List ℕ)) where
  -- The loop of `reserve`, on fuel.
  unfoldable pub reserve_loop : ℕ → ℕ → LinkedBuffer → Option (Bool × LinkedBuffer)
  reserve_loop size zero b = none
  reserve_loop size (suc fuel) b = elim (ltb b.usable size) [
    | false ↦ some (true, b)
    | true ↦ elim (alloc (length b.blocks)) [
      | none ↦ some (false, b)
      | some node ↦ reserve_loop size fuel (record b {
        blocks = b.blocks ++ (node ∷ []);
        capacity = add32 b.capacity b.block_size;
        usable = add32 b.usable b.block_size;
      })
    ]
  ]

  unfoldable pub reserve : LinkedBuffer → ℕ → Option (Bool × LinkedBuffer)
  reserve b size = reserve_loop (add32 size 1) (suc (add32 size 1)) b

  -- The room for `length` bytes, that `skip` and `put` look for.
  unfoldable pub room : LinkedBuffer → ℕ → Option (Bool × LinkedBuffer)
  room b length =
      if ltb b.usable (add32 (add32 b.current.position length) 1)
      then reserve b (add32 b.current.position length)
      else some (true, b)

-- The blocks from that of a position on.
unfoldable pub chain : LinkedBuffer → Pos → List (List ℕ)
chain b p = if ltb p.block b.first then [] else drop (p.block - b.first) b.blocks

-- `curr_buf`, `remaining` move by `n` in their block, and to the start of the next one.
abbrev pub within : Pos → ℕ → Pos
within p n = record p { curr_buf = p.curr_buf + n; remaining = p.remaining - n }

abbrev pub enter : ℕ → Pos → Pos
enter block_size p = record p { block = p.block + 1; curr_buf = 0; remaining = block_size }

abbrev pub at_most : ℕ → ℕ → ℕ
at_most size n = if ltb size n then size else n

-- `memcpy` out of a block and into one.
unfoldable pub read_in : List ℕ → ℕ → ℕ → Option (List ℕ)
read_in node i n = if leb (i + n) (length node) then some (take n (drop i node)) else none

unfoldable pub write_in : List ℕ → ℕ → List ℕ → Option (List ℕ)
write_in node i bytes =
    if leb (i + length bytes) (length node)
    then some (take i node ++ (bytes ++ drop (i + length bytes) node))
    else none

-- The loops of `skip`, `get` and `put` over the blocks after the current one.
unfoldable pub skip_loop : ℕ → List (List ℕ) → ℕ → Pos → Option Pos
skip_loop block_size [] n p = none
skip_loop block_size (node ∷ nodes) n p =
    let tmp = at_most block_size n in
    let p' = within (enter block_size p) tmp in
    let rest = skip_loop block_size nodes (n - tmp) p' in if ltb 0 (n - tmp) then rest else some p'

unfoldable pub get_loop : ℕ → List (List ℕ) → ℕ → Pos → Option (List ℕ × Pos)
get_loop block_size [] n p = none
get_loop block_size (node ∷ nodes) n p =
    let tmp = at_most block_size n in
    let p' = within (enter block_size p) tmp in
    let rest = get_loop block_size nodes (n - tmp) p' in
    elim (read_in node 0 tmp) [
      | none ↦ none
      | some bytes ↦
          if ltb 0 (n - tmp)
          then elim rest [ none ↦ none | some (more, q) ↦ some (bytes ++ more, q) ]
          else some (bytes, p')
    ]

unfoldable pub put_loop : ℕ → List (List ℕ) → List ℕ → Pos → Option (List (List ℕ) × Pos)
put_loop block_size [] bytes p = none
put_loop block_size (node ∷ nodes) bytes p =
    let tmp = at_most block_size (length bytes) in
    let p' = within (enter block_size p) tmp in
    let rest = put_loop block_size nodes (drop tmp bytes) p' in
    elim (write_in node 0 (take tmp bytes)) [
      | none ↦ none
      | some node' ↦
          if ltb 0 (length bytes - tmp)
          then elim rest [ none ↦ none | some (nodes', q) ↦ some (node' ∷ nodes', q) ]
          else some (node' ∷ nodes, p')
    ]

-- The moves of `skip`, `get` and `put` by `n` bytes, that are there.
unfoldable pub skip_bytes : ℕ → List (List ℕ) → ℕ → Pos → Option Pos
skip_bytes block_size [] n p = none
skip_bytes block_size (node ∷ nodes) n p =
    if ltb n p.remaining then some (within p n) else skip_loop block_size nodes (n - p.remaining) p

unfoldable pub get_bytes : ℕ → List (List ℕ) → ℕ → Pos → Option (List ℕ × Pos)
get_bytes block_size [] n p = none
get_bytes block_size (node ∷ nodes) n p =
    if ltb n p.remaining
    then elim (read_in node p.curr_buf n) [ none ↦ none | some bytes ↦ some (bytes, within p n) ]
    else elim (read_in node p.curr_buf p.remaining) [
      | none ↦ none
      | some bytes ↦ elim (get_loop block_size nodes (n - p.remaining) p) [
        | none ↦ none
        | some (more, q) ↦ some (bytes ++ more, q)
      ]
    ]

unfoldable pub put_bytes : ℕ → List (List ℕ) → List ℕ → Pos → Option (List (List ℕ) × Pos)
put_bytes block_size [] bytes p = none
put_bytes block_size (node ∷ nodes) bytes p =
    if ltb (length bytes) p.remaining
    then elim (write_in node p.curr_buf bytes) [
      | none ↦ none
      | some node' ↦ some (node' ∷ nodes, within p (length bytes))
    ]
    else elim (write_in node p.curr_buf (take p.remaining bytes)) [
      | none ↦ none
      | some node' ↦ elim (put_loop block_size nodes (drop p.remaining bytes) p) [
        | none ↦ none
        | some (nodes', q) ↦ some (node' ∷ nodes', q)
      ]
    ]

-- `_current.position += length`
abbrev pub moved : Pos → ℕ → Pos
moved p n = record p { position = add32 p.position n }

unfoldable pub get : LinkedBuffer → ℕ → Option (Option (List ℕ) × LinkedBuffer)
get b n =
    if b.limit.invalid || ltb (sub32 b.limit.position b.current.position) n
    then some (none, b)
    else elim (get_bytes b.block_size (chain b b.current) n b.current) [
      | none ↦ none
      | some (bytes, p) ↦ some (some bytes, record b { current = moved p n })
    ]

-- `peek`, for a number of `n` bytes.
unfoldable pub peek : LinkedBuffer → ℕ → Option (Option (List ℕ) × LinkedBuffer)
peek b n = elim (get b n) [
  | none ↦ none
  | some (none, b') ↦ some (none, b')
  | some (some bytes, b') ↦ some (some bytes, record b' { current = b.current })
]

module _ (alloc : ℕ → Option (List ℕ)) where
  unfoldable pub put : LinkedBuffer → List ℕ → Option (Bool × LinkedBuffer)
  put b bytes =
      if not b.limit.invalid then some (false, b) else elim (room alloc b (length bytes)) [
        | none ↦ none
        | some (false, b') ↦ some (false, b')
        | some (true, b') ↦ elim (put_bytes b'.block_size (chain b' b'.current) bytes b'.current) [
          | none ↦ none
          | some (nodes, p) ↦ some (
            true,
            record b' {
              blocks = take (b'.current.block - b'.first) b'.blocks ++ nodes;
              current = moved p (length bytes);
            },
          )
        ]
      ]

  unfoldable pub skip : LinkedBuffer → ℕ → Option (Bool × LinkedBuffer)
  skip b n =
      if not b.limit.invalid && ltb (sub32 b.limit.position b.current.position) n
      then some (false, b)
      else elim (if b.limit.invalid then room alloc b n else some (true, b)) [
        | none ↦ none
        | some (false, b') ↦ some (false, b')
        | some (true, b') ↦ elim (skip_bytes b'.block_size (chain b' b'.current) n b'.current) [
          | none ↦ none
          | some p ↦ some (true, record b' { mark = b'.current; current = moved p n })
        ]
      ]
