-- ===== src/Buffer/Valid.antt =====
-- The invariant of the buffer of libsax/sax/net/buffer.h, and its abstract view: bytes that are being
-- written, or bytes that are left to read.
use xlibsax.Prelude.{
  ℕ, ◌+◌, ◌-◌, ◌≤◌, ◌<◌, ◌≡◌, ◌≢◌, ◌⊎◌, true, List, arith, length, take, drop, length-take,
  length-drop, if◌then◌else◌,
}
use xlibsax.Buffer.{Buffer, invalid, writing, reset, set_mark, clear, rewind}

pub data Frame : Type 0 where
  written : List ℕ → Frame
  unread : List ℕ → Frame

unfoldable pub view : Buffer → Frame
view b =
    if writing b
    then written (take b.current b.buf)
    else unread (take (b.limit - b.current) (drop b.current b.buf))

-- The position up to which the mark and the position may go.
abbrev pub bound : Buffer → ℕ
bound b = if writing b then b.capacity else b.limit

pub record IsValid (b : Buffer) : Type 0 where
  pub paged : 0 < b.block_size
  pub held : length b.buf ≡ b.capacity
  pub small : b.capacity < invalid
  pub position : b.current ≤ bound b
  pub limited : (b.limit ≡ invalid) ⊎ (b.limit ≤ b.capacity)
  pub marked : (b.mark ≡ invalid) ⊎ (b.mark ≤ bound b)

pub take-drop-length : (xs : List ℕ) (i n : ℕ) → i + n ≤ length xs → length (take n (drop i xs)) ≡ n
take-drop-length xs i n h = omega (arith, length-take n (drop i xs), length-drop i xs)

-- `mark`, `rewind`, `reset` and `clear` keep the buffer valid.
pub moves-IsValid :
    (b : Buffer)
    → IsValid b
    → IsValid (set_mark b) × IsValid (rewind b) × IsValid (reset b).1 × IsValid (clear b)
unfolding reset clear rewind set_mark
moves-IsValid b v = (ground arith, ground arith, ground arith, ground arith)

-- `reset` twice is back where it was: the position and the mark are exchanged.
pub reset-reset :
    (b : Buffer) → b.mark ≢ invalid → b.current ≢ invalid → (reset (reset b).1) ≡ (true, b)
unfolding reset
reset-reset b h k = ground arith
