-- ===== src/Linked/Valid.antt =====
-- The invariant of the chain of blocks of libsax/sax/net/linked_buffer.h, and its abstract view, that
-- of the buffer of libsax/sax/net/buffer.h: bytes that are being written, or bytes that are left to read.
use xlibsax.Prelude.{
  ℕ, ◌+◌, ◌-◌, ◌^◌, ◌≤◌, ◌<◌, ◌≡◌, false, List, length, take, drop, if◌then◌else◌,
}
use xlibsax.Buffer.Valid.{Frame, written, unread}
use xlibsax.Linked.{Pos, LinkedBuffer}
use xlibsax.Linked.Chain.{concat, span, Sized}

-- The bytes of the chain from the start of the data on.
abbrev pub content : LinkedBuffer → List ℕ
content b = drop b.zero_pos.curr_buf (concat b.blocks)

unfoldable pub view : LinkedBuffer → Frame
view b =
    if b.limit.invalid
    then written (take b.current.position (content b))
    else unread (take (b.limit.position - b.current.position) (drop b.current.position (content b)))

-- A position lies in one of `count` blocks, at the byte that its number says; `start` is the byte of
-- the first block where the data begin.
pub record At (size first count start : ℕ) (p : Pos) : Type 0 where
  pub index : ℕ
  pub named : p.block ≡ first + index
  pub inside : index < count
  pub offset : p.position + start ≡ span size index + p.curr_buf
  pub whole : p.curr_buf + p.remaining ≡ size

abbrev pub Stands : LinkedBuffer → Pos → Type 0
Stands b p = At b.block_size b.first (length b.blocks) b.zero_pos.curr_buf p

-- `_usable` counts the bytes from the start of the data on; a position is before the last of them.
pub record IsValid (b : LinkedBuffer) : Type 0 where
  pub paged : 0 < b.block_size
  pub sized : Sized b.block_size b.blocks
  pub held : b.capacity ≡ span b.block_size (length b.blocks)
  pub small : b.capacity < 2 ^ 32
  pub used : b.usable + b.zero_pos.curr_buf ≡ b.capacity
  pub zero_at : Stands b b.zero_pos
  pub zero_first : b.zero_pos.block ≡ b.first
  pub zero_start : b.zero_pos.position ≡ 0
  pub zero_valid : b.zero_pos.invalid ≡ false
  pub current_at : Stands b b.current
  pub current_valid : b.current.invalid ≡ false
  pub current_in : b.current.position < b.usable
  pub limit_at : b.limit.invalid ≡ false → Stands b b.limit
  pub limit_in :
      b.limit.invalid ≡ false
      → (b.current.position ≤ b.limit.position) × (b.limit.position < b.usable)
  pub mark_at : b.mark.invalid ≡ false → Stands b b.mark
  pub mark_in : b.mark.invalid ≡ false → b.mark.position < b.usable
  pub mark_before :
      b.mark.invalid ≡ false → b.limit.invalid ≡ false → b.mark.position ≤ b.limit.position
