-- ===== src/Events.antt =====
-- The event queue of libsax/sax/stage/event_queue.h: a ring of blocks in which producers, one at a
-- time under the lock, allocate, each commits its block when the event is written, and one consumer
-- pops and frees. Positions are offsets in `_buf`; `header` is what stands at an offset.
-- The bytes of the events are left out, and so are sums that leave 32 bits: an event's size is that of
-- a type, and small.
pub mod Blocks
pub mod Allocate
pub mod Consume
pub mod Trace
mod Tests
use xlibsax.Prelude.{
  ℕ, ◌+◌, ◌-◌, ◌*◌, ◌/◌, not, ◌&&◌, ◌||◌, Option, none, some, length, ltb, leb, ◌==◌, if◌then◌else◌,
}

-- `event_header::state`
pub data State : Type 0 where
  allocated : State
  committed : State
  skipped : State

pub record Header : Type 0 where
  pub block_state : State
  pub block_size : ℕ

pub record Queue : Type 0 where
  pub cap : ℕ
  pub alloc_pos : ℕ
  pub free_pos : ℕ
  pub header : ℕ → Header

-- `sizeof(event_header)`
abbrev pub header_size : ℕ
header_size = 8

abbrev pub put_header : (ℕ → Header) → ℕ → Header → ℕ → Header
put_header f p h q = if p == q then h else f q

-- The constructor, on a buffer that holds `memory`.
unfoldable pub fresh : ℕ → (ℕ → Header) → Queue
fresh cap memory = record { cap = cap; alloc_pos = 0; free_pos = 0; header = memory }

-- The size with the header, rounded up to the size of a pointer.
abbrev pub aligned : ℕ → ℕ
aligned length = (length + header_size + 7) / 8 * 8

-- `allocate`: a pointer to the event, right behind the block's header.
unfoldable pub allocate : Queue → ℕ → Option ℕ × Queue
allocate s length =
    let new_len = aligned length in
    let cond1 = leb s.free_pos s.alloc_pos in
    let cond2 = leb (s.alloc_pos + new_len) s.cap in
    let skip_flag = cond1 && not cond2 in
    let at = if skip_flag then 0 else s.alloc_pos in
    if (cond1 && cond2) || ltb (at + new_len) s.free_pos
    then (let stamped =
          put_header s.header at (record { block_state = allocated; block_size = new_len }) in
        (
          some (at + header_size),
          record s {
            alloc_pos = at + new_len;
            header =
                if skip_flag && ltb (s.alloc_pos + header_size) s.cap
                then put_header stamped s.alloc_pos
                    (record (stamped s.alloc_pos) { block_state = skipped })
                else stamped;
          },
        ))
    else (none, s)

-- `commit_event`
unfoldable pub commit_event : Queue → ℕ → Queue
commit_event s event =
    let at = event - header_size in
    record s { header = put_header s.header at (record (s.header at) { block_state = committed }) }

-- `pop_event`: the oldest event, if it is committed; it stays in the queue until it is freed.
unfoldable pub pop_event : Queue → Option ℕ × Queue
pop_event s =
    if s.free_pos == s.alloc_pos
    then (none, s)
    else (let at = if leb s.cap (s.free_pos + header_size) then 0 else s.free_pos in
        elim ((s.header at).block_state) [
          | committed ↦ (some (at + header_size), record s { free_pos = at })
          | allocated ↦ (none, record s { free_pos = at })
          | skipped ↦ elim ((s.header 0).block_state) [
            | committed ↦ (some header_size, record s { free_pos = 0 })
            | allocated ↦ (none, record s { free_pos = 0 })
            | skipped ↦ (none, record s { free_pos = 0 })
          ]
        ])

-- `free`, which `destroy_event` calls.
unfoldable pub free : Queue → ℕ → Queue
free s event = record s { free_pos = s.free_pos + (s.header (event - header_size)).block_size }
