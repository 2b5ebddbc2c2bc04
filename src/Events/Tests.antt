-- ===== src/Events/Tests.antt =====
-- Runs of the queue of libsax/sax/stage/event_queue.h: two events behind each other, and one at the
-- front of the buffer behind the mark.
use xlibsax.Prelude.{ℕ, ◌≡◌, refl, inl, inr, none, some, List, [], ◌∷◌, ◌++◌, arith, length}
use xlibsax.Events.{
  allocated, committed, skipped, Header, Queue, fresh, allocate, commit_event, pop_event, free,
}
use xlibsax.Events.Blocks.{Block, Holds}
use xlibsax.Events.Consume.{Pops, pop_event_lem}
use xlibsax.Events.Trace.{
  System, allocates, commits, pops, frees, Reach, here, next, got, start, IsFifo, Reach-IsFifo,
}

abbrev blank : ℕ → Header
blank p = record { block_state = allocated; block_size = 0 }

abbrev y0 : System
y0 = start 64 blank

abbrev allocating : System → ℕ → System
allocating y length = record y {
  queue = (allocate y.queue length).1;
  given = got y.given (allocate y.queue length).0;
}

abbrev committing : System → ℕ → System
committing y event = record y { queue = commit_event y.queue event }

abbrev popping : System → System
popping y = record y { queue = (pop_event y.queue).1; popped = (pop_event y.queue).0 }

abbrev freeing : System → ℕ → System
freeing y event = record y {
  queue = free y.queue event;
  taken = y.taken ++ (event ∷ []);
  popped = none;
}

-- Two events are allocated, committed, popped and freed; the third goes to the front.
abbrev two : System
two = allocating (allocating y0 16) 16

abbrev one_freed : System
one_freed = freeing (popping (committing two 8)) 8

abbrev both_freed : System
both_freed = freeing (popping (committing one_freed 32)) 32

abbrev around : System
around = popping (committing (allocating both_freed 16) 8)

around_run :
    (around.given ≡ 8 ∷ 32 ∷ 8 ∷ [])
    × (around.taken ≡ 8 ∷ 32 ∷ [])
    × (around.popped ≡ some 8)
    × (around.queue.free_pos ≡ 0)
    × ((around.queue.header 48).block_state ≡ skipped)
unfolding fresh allocate commit_event pop_event free
around_run = (refl, refl, refl, refl, refl)

two-Reach : Reach y0 two
two-Reach =
    next (next here (allocates y0 16 (omega arith))) (allocates (allocating y0 16) 16 (omega arith))

one_freed-Reach : Reach y0 one_freed
unfolding fresh allocate commit_event pop_event free
one_freed-Reach =
    next (next (next two-Reach (commits two 8 (inl refl))) (pops (committing two 8)))
      (frees (popping (committing two 8)) 8 refl)

both_freed-Reach : Reach y0 both_freed
unfolding fresh allocate commit_event pop_event free
both_freed-Reach =
    next
      (next (next one_freed-Reach (commits one_freed 32 (inl refl)))
        (pops (committing one_freed 32)))
      (frees (popping (committing one_freed 32)) 32 refl)

around-Reach : Reach y0 around
unfolding fresh allocate commit_event pop_event free
around-Reach =
    next
      (next (next both_freed-Reach (allocates both_freed 16 (omega arith)))
        (commits (allocating both_freed 16) 8 (inl refl)))
      (pops (committing (allocating both_freed 16) 8))

Reach-IsFifo_example : IsFifo around
Reach-IsFifo_example = Reach-IsFifo 64 blank around around-Reach

abbrev full : Queue
full = record {
  cap = 64;
  alloc_pos = 24;
  free_pos = 0;
  header = λ p. record { block_state = committed; block_size = 24 };
}

abbrev full_blocks : List Block
full_blocks = record { at = 0; size = 24 } ∷ []

full-Holds : Holds full full_blocks
full-Holds =
    inl (record { within = omega arith; runs = (refl, omega arith, (refl, inr refl), refl) })

pop_event_lem_example : Pops full full_blocks (pop_event full)
pop_event_lem_example = pop_event_lem full full_blocks full-Holds

-- An empty queue refuses a block that its buffer could hold, when its positions stand in the middle.
stuck :
    allocate (record full { alloc_pos = 32; free_pos = 32 }) 40
    ≡ (none, record full { alloc_pos = 32; free_pos = 32 })
unfolding allocate
stuck = refl
