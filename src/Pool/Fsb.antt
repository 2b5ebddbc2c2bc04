-- ===== src/Pool/Fsb.antt =====
-- The fixed-size block pool `fsb_pool_t` of libsax/sax/mempool.c, on a machine with 8-byte `long`. A block
-- is handed out as the offset of its data in the block area; `header p` is the header that stands
-- right before offset `p`, whatever bytes these are.
pub mod Ring
pub mod Pigeonhole
pub mod Laws
pub mod Release
pub mod Init
use xlibsax.Prelude.{
  ℕ, zero, suc, ◌+◌, ◌-◌, ◌*◌, ◌/◌, ◌%◌, ◌^◌, Bool, not, ◌&&◌, Option, none, some, List, [], ◌∷◌,
  ◌++◌, get_or, set, ltb, leb, ◌==◌, if◌then◌else◌, add32,
}

-- `union { uint64_t key; struct { int32_t id; uint32_t magic; }; }`
pub record Header : Type 0 where
  pub id : ℕ
  pub magic : ℕ

-- The key that a header's eight bytes read as, least significant half first.
abbrev pub key_of : Header → ℕ
key_of h = h.magic * 2 ^ 32 + h.id

-- The two halves of a key.
abbrev pub header_of : ℕ → Header
header_of key = record { id = key % 2 ^ 32; magic = key / 2 ^ 32 }

abbrev pub no_header : Header
no_header = record { id = 0; magic = 0 }

pub record Fsb : Type 0 where
  pub block_size : ℕ
  pub block_count : ℕ
  pub begin : ℕ
  pub end : ℕ
  pub next_magic : ℕ
  pub ids : List ℕ
  pub header : ℕ → Header

-- `sizeof(fsb_block)`, `sizeof(long)` and `sizeof(fsb_pool_t)`
abbrev pub header_size : ℕ
header_size = 8

abbrev pub long_size : ℕ
long_size = 8

abbrev pub pool_size : ℕ
pool_size = 48

-- `g_fsb_needed`
unfoldable pub needed : ℕ → ℕ → ℕ
needed block_size block_count = (block_size + long_size + header_size) * block_count + pool_size

-- `g_fsb_available`; a `total` below the pool's own size gives a negative quotient there, and 0 here.
unfoldable pub available : ℕ → ℕ → ℕ
available total block_size = (total - pool_size) / (block_size + long_size + header_size)

-- `FS_GET_BLOCK_HEADER(p, id)->data`
abbrev pub data_of : ℕ → ℕ → ℕ
data_of block_size id = id * block_size + header_size

abbrev pub put_header : (ℕ → Header) → ℕ → Header → ℕ → Header
put_header f p h q = if p == q then h else f q

-- The loop of `g_fsb_init`, on the identifiers and on the headers.
abbrev pub id_range : ℕ → ℕ → List ℕ
id_range i zero = []
id_range i (suc n) = i ∷ id_range (i + 1) n

abbrev pub clear_headers : ℕ → (ℕ → Header) → ℕ → ℕ → ℕ → Header
clear_headers block_size f i zero = f
clear_headers block_size f i (suc n) =
    clear_headers block_size (put_header f (data_of block_size i) no_header) (i + 1) n

-- `g_fsb_init` on memory that holds `memory` where headers will be, and `spare` in the last of the
-- `block_count + 1` identifiers. `mapped` says that `addr` is not null.
unfoldable pub init : Bool → (ℕ → Header) → ℕ → ℕ → ℕ → ℕ → Option Fsb
unfolding needed
init mapped memory spare total block_size block_count =
    if mapped && ltb 0 block_size && ltb 0 block_count && leb (needed block_size block_count) total
    then some (record {
      block_size = block_size + header_size;
      block_count = block_count;
      begin = 0;
      end = block_count;
      next_magic = 0;
      ids = id_range 0 block_count ++ (spare ∷ []);
      header = clear_headers (block_size + header_size) memory 0 block_count;
    })
    else none

-- `g_fsb_size`, `g_fsb_count` and `g_fsb_used`
unfoldable pub size : Fsb → ℕ
size p = p.block_size - header_size

unfoldable pub count : Fsb → ℕ
count p = p.block_count

unfoldable pub used : Fsb → ℕ
used p = if ltb p.end p.begin then p.begin - p.end - 1 else p.block_count + p.begin - p.end

-- The step of a cursor round the identifiers.
abbrev pub next : ℕ → ℕ → ℕ
next slots i = if i + 1 == slots then 0 else i + 1

-- The next magic number skips 0.
unfoldable pub next_magic_of : ℕ → ℕ
next_magic_of m = let n = add32 m 1 in if n == 0 then 1 else n

unfoldable pub alloc : Fsb → Option ℕ × Fsb
alloc p =
    if p.begin == p.end
    then (none, p)
    else (let id = get_or p.ids p.begin 0 in
        let magic = next_magic_of p.next_magic in
        let block = data_of p.block_size id in
        (
          some block,
          record p {
            begin = next (p.block_count + 1) p.begin;
            next_magic = magic;
            header = put_header p.header block (record { id = id; magic = magic });
          },
        ))

-- The test that `g_fsb_free` and `g_fsb_getkey` share; `id` is the quotient of the offset.
abbrev pub live_block : Fsb → ℕ → Bool
live_block p block =
    ltb (block / p.block_size) p.block_count
    && block / p.block_size == (p.header block).id
    && not ((p.header block).magic == 0)

-- 0 for success, `none` for -1
unfoldable pub free : Fsb → ℕ → Option ℕ × Fsb
free p block =
    if live_block p block
    then (
      some 0,
      record p {
        header = put_header p.header block no_header;
        ids = set p.ids p.end (block / p.block_size);
        end = next (p.block_count + 1) p.end;
      },
    )
    else (none, p)

unfoldable pub getkey : Fsb → ℕ → ℕ
getkey p block = if live_block p block then key_of (p.header block) else 0

-- `k->id` is an `int32_t`: its bit pattern stands for a negative number from 2 ^ 31 on.
unfoldable pub getblock : Fsb → ℕ → Option ℕ
getblock p key =
    let k = header_of key in
    if not (k.magic == 0) && ltb k.id (2 ^ 31) && ltb k.id p.block_count
    then (let block = data_of p.block_size k.id in
        if key_of (p.header block) == key then some block else none)
    else none
