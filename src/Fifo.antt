-- ===== src/Fifo.antt =====
-- The bounded queue of libsax/sax/c++/fifo.h, for elements that are natural numbers. A semaphore is
-- its count; each call is cut where other threads may come between: at the semaphores and around the
-- locked part. `none` is a semaphore that cannot be passed now.
pub mod Ring
pub mod Trace
mod Tests
use xlibsax.Prelude.{ℕ, ◌+◌, ◌-◌, Option, none, some, List, get_or, set, leb, ◌==◌, if◌then◌else◌}

pub record Fifo : Type 0 where
  pub cap : ℕ
  pub queue : List ℕ
  pub head : ℕ
  pub tail : ℕ
  pub hsem : ℕ
  pub tsem : ℕ

-- The constructor, on an array that holds `memory`.
abbrev pub fresh : ℕ → List ℕ → Fifo
fresh cap memory = record { cap = cap; queue = memory; head = 0; tail = 0; hsem = 0; tsem = cap }

-- `_tail++` or `_head++`, and back to 0 at the end.
abbrev pub after : ℕ → ℕ → ℕ
after cap pos = if leb cap (pos + 1) then 0 else pos + 1

-- `push_back`: the wait, the write under the lock, and the post.
unfoldable pub push_wait : Fifo → Option Fifo
push_wait f = if f.tsem == 0 then none else some (record f { tsem = f.tsem - 1 })

unfoldable pub push_write : ℕ → Fifo → Fifo
push_write one f = record f { queue = set f.queue f.tail one; tail = after f.cap f.tail }

unfoldable pub push_post : Fifo → Fifo
push_post f = record f { hsem = f.hsem + 1 }

-- `pop_front`: the wait, the read under the lock, and the post.
unfoldable pub pop_wait : Fifo → Option Fifo
pop_wait f = if f.hsem == 0 then none else some (record f { hsem = f.hsem - 1 })

unfoldable pub pop_read : Fifo → ℕ × Fifo
pop_read f = (get_or f.queue f.head 0, record f { head = after f.cap f.head })

unfoldable pub pop_post : Fifo → Fifo
pop_post f = record f { tsem = f.tsem + 1 }
