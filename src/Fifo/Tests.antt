-- ===== src/Fifo/Tests.antt =====
-- Runs of the queue of libsax/sax/c++/fifo.h.
use xlibsax.Prelude.{ℕ, ◌+◌, ◌-◌, ◌≡◌, refl, [], ◌∷◌, ◌++◌, arith}
use xlibsax.Fifo.{push_wait, push_write, push_post, pop_wait, pop_read}
use xlibsax.Fifo.Trace.{
  System, push_waits, push_writes, push_posts, pop_waits, pop_reads, Reach, here, next, start,
  IsFifo, Fifo-IsFifo,
}

abbrev pair : System
pair = start 2 (0 ∷ 0 ∷ [])

-- Two pushes interleave, and the first element is popped.
abbrev waiting : System
waiting = record pair { fifo = record pair.fifo { tsem = 0 }; to_write = 2 }

abbrev writing : ℕ → System → System
writing one y = record y {
  fifo = push_write one y.fifo;
  to_write = y.to_write - 1;
  to_tell = y.to_tell + 1;
  pushed = y.pushed ++ (one ∷ []);
}

abbrev told : System
told =
    let y = writing 8 (writing 7 waiting) in
    record y { fifo = push_post y.fifo; to_tell = y.to_tell - 1 }

abbrev reading : System
reading = record told { fifo = record told.fifo { hsem = 0 }; to_read = 1 }

abbrev taken : System
taken = record reading {
  fifo = (pop_read reading.fifo).1;
  to_read = reading.to_read - 1;
  to_release = reading.to_release + 1;
  popped = reading.popped ++ ((pop_read reading.fifo).0 ∷ []);
}

taken_run :
    (taken.pushed ≡ 7 ∷ 8 ∷ [])
    × (taken.popped ≡ 7 ∷ [])
    × (taken.fifo.head ≡ 1)
    × (taken.fifo.tail ≡ 0)
unfolding push_write push_post pop_read
taken_run = (refl, refl, refl, refl)

waiting-Reach : Reach pair waiting
unfolding push_wait
waiting-Reach = next (next here (push_waits pair (record pair.fifo { tsem = 1 }) refl)) (
    push_waits (record pair { fifo = record pair.fifo { tsem = 1 }; to_write = 1 })
      (record pair.fifo { tsem = 0 }) refl)

told-Reach : Reach pair told
told-Reach =
    next
      (next (next waiting-Reach (push_writes waiting 7 (omega arith)))
        (push_writes (writing 7 waiting) 8 (omega arith)))
      (push_posts (writing 8 (writing 7 waiting)) (omega arith))

taken-Reach : Reach pair taken
unfolding push_write push_post pop_wait
taken-Reach =
    next (next told-Reach (pop_waits told (record told.fifo { hsem = 0 }) refl))
      (pop_reads reading (omega arith))

Fifo-IsFifo_example : IsFifo taken
Fifo-IsFifo_example = Fifo-IsFifo 2 (0 ∷ 0 ∷ []) taken (omega arith) refl taken-Reach
