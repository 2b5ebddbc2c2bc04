-- ===== src/Fifo/Trace.antt =====
-- Threads that push and pop on one queue of libsax/sax/c++/fifo.h, in any interleaving.
use xlibsax.Prelude.{
  ℕ, ◌+◌, ◌-◌, ◌<◌, ◌≡◌, refl, sym, ◌∙◌, inl, inr, true, false, none, some, List, [], ◌∷◌, ◌++◌,
  append_assoc, arith, length, length-append, ◌==◌, Bool-cases, some-eq,
}
use xlibsax.Fifo.{Fifo, fresh, push_wait, push_write, push_post, pop_wait, pop_read, pop_post}
use xlibsax.Fifo.Ring.{Ring, Ring-write, Ring-read}

-- The queue, the numbers of threads between two parts of a call, and the elements written and
-- read, both in time's order.
pub record System : Type 0 where
  pub fifo : Fifo
  pub to_write : ℕ
  pub to_tell : ℕ
  pub to_read : ℕ
  pub to_release : ℕ
  pub pushed : List ℕ
  pub popped : List ℕ

pub data Step : System → System → Type 0 where
  push_waits :
      (y : System) (f : Fifo)
      → push_wait y.fifo ≡ some f
      → Step y (record y { fifo = f; to_write = y.to_write + 1 })
  push_writes :
      (y : System) (one : ℕ)
      → 0 < y.to_write
      → Step y (record y {
        fifo = push_write one y.fifo;
        to_write = y.to_write - 1;
        to_tell = y.to_tell + 1;
        pushed = y.pushed ++ (one ∷ []);
      })
  push_posts :
      (y : System)
      → 0 < y.to_tell
      → Step y (record y { fifo = push_post y.fifo; to_tell = y.to_tell - 1 })
  pop_waits :
      (y : System) (f : Fifo)
      → pop_wait y.fifo ≡ some f
      → Step y (record y { fifo = f; to_read = y.to_read + 1 })
  pop_reads :
      (y : System)
      → 0 < y.to_read
      → Step y (record y {
        fifo = (pop_read y.fifo).1;
        to_read = y.to_read - 1;
        to_release = y.to_release + 1;
        popped = y.popped ++ ((pop_read y.fifo).0 ∷ []);
      })
  pop_posts :
      (y : System)
      → 0 < y.to_release
      → Step y (record y { fifo = pop_post y.fifo; to_release = y.to_release - 1 })

pub data Reach (y : System) : System → Type 0 where
  here : Reach y y
  next : {z w : System} → Reach y z → Step z w → Reach y w

abbrev pub start : ℕ → List ℕ → System
start cap memory = record {
  fifo = fresh cap memory;
  to_write = 0;
  to_tell = 0;
  to_read = 0;
  to_release = 0;
  pushed = [];
  popped = [];
}

-- The array holds what was pushed and not yet popped, in that order; the semaphores count it and
-- the room that is left, but for the threads on their way.
pub record IsFifo (y : System) : Type 0 where
  pub content : List ℕ
  pub ring : Ring y.fifo.cap y.fifo.queue y.fifo.head content y.fifo.tail
  pub order : y.pushed ≡ y.popped ++ content
  pub filled : length content ≡ y.fifo.hsem + y.to_tell + y.to_read
  pub room : y.fifo.tsem + y.to_write + length content + y.to_release ≡ y.fifo.cap

pop_reads-IsFifo :
    (y : System) (content : List ℕ)
    → 0 < y.to_read
    → Ring y.fifo.cap y.fifo.queue y.fifo.head content y.fifo.tail
    → y.pushed ≡ y.popped ++ content
    → length content ≡ y.fifo.hsem + y.to_tell + y.to_read
    → y.fifo.tsem + y.to_write + length content + y.to_release ≡ y.fifo.cap
    → IsFifo (record y {
      fifo = (pop_read y.fifo).1;
      to_read = y.to_read - 1;
      to_release = y.to_release + 1;
      popped = y.popped ++ ((pop_read y.fifo).0 ∷ []);
    })
unfolding pop_read
pop_reads-IsFifo y [] some_reader r order filled room = absurd (omega (arith, some_reader, filled))
pop_reads-IsFifo y (x ∷ xs) some_reader r order filled room =
    let (one, rest) = Ring-read y.fifo.cap y.fifo.queue y.fifo.head x xs y.fifo.tail r in
    record {
      content = xs;
      ring = rest;
      order = order ∙ rw one (sym (append_assoc y.popped (x ∷ []) xs));
      filled = omega (arith, filled, some_reader);
      room = omega (arith, room);
    }

not_passed : {f : Fifo} → none ≡ some f → ⊥
not_passed e = cc

-- A semaphore that is passed was not 0.
push_wait-none : (f : Fifo) → (f.tsem == 0) ≡ true → push_wait f ≡ none
unfolding push_wait
push_wait-none f e = rw e refl

push_wait-passes :
    (f : Fifo) → (f.tsem == 0) ≡ false → push_wait f ≡ some (record f { tsem = f.tsem - 1 })
unfolding push_wait
push_wait-passes f e = rw e refl

push_wait-some :
    (f g : Fifo) → push_wait f ≡ some g → (0 < f.tsem) × (record f { tsem = f.tsem - 1 } ≡ g)
push_wait-some f g e = elim (Bool-cases (f.tsem == 0)) [
  | inl z ↦ absurd (not_passed (sym (push_wait-none f z) ∙ e))
  | inr some_room ↦ (ground (arith, some_room), some-eq (sym (push_wait-passes f some_room) ∙ e))
]

pop_wait-none : (f : Fifo) → (f.hsem == 0) ≡ true → pop_wait f ≡ none
unfolding pop_wait
pop_wait-none f e = rw e refl

pop_wait-passes :
    (f : Fifo) → (f.hsem == 0) ≡ false → pop_wait f ≡ some (record f { hsem = f.hsem - 1 })
unfolding pop_wait
pop_wait-passes f e = rw e refl

pop_wait-some :
    (f g : Fifo) → pop_wait f ≡ some g → (0 < f.hsem) × (record f { hsem = f.hsem - 1 } ≡ g)
pop_wait-some f g e = elim (Bool-cases (f.hsem == 0)) [
  | inl z ↦ absurd (not_passed (sym (pop_wait-none f z) ∙ e))
  | inr some_room ↦ (ground (arith, some_room), some-eq (sym (pop_wait-passes f some_room) ∙ e))
]

replaced-IsFifo :
    {f g : Fifo} → f ≡ g → (system : Fifo → System) → IsFifo (system f) → IsFifo (system g)
replaced-IsFifo e system v = rw (sym e) v

Step-IsFifo : {y z : System} → Step y z → IsFifo y → IsFifo z
unfolding push_write push_post pop_post
Step-IsFifo (push_waits y f e) v =
    let (some_room, g) = push_wait-some y.fifo f e in
    replaced-IsFifo g (λ h. record y { fifo = h; to_write = y.to_write + 1 })
      (record {
        content = v.content;
        ring = v.ring;
        order = v.order;
        filled = v.filled;
        room = omega (arith, v.room, some_room);
      })
Step-IsFifo (push_writes y one h) v =
    let longer : length (v.content ++ (one ∷ [])) ≡ length v.content + 1 =
      length-append v.content (one ∷ []) in
    record {
      content = v.content ++ (one ∷ []);
      ring =
          Ring-write y.fifo.cap y.fifo.queue y.fifo.head v.content y.fifo.tail one v.ring
            (omega (arith, v.room, h));
      order = rw v.order (append_assoc y.popped v.content (one ∷ []));
      filled = omega (arith, longer, v.filled);
      room = omega (arith, longer, v.room, h);
    }
Step-IsFifo (push_posts y h) v = record {
  content = v.content;
  ring = v.ring;
  order = v.order;
  filled = omega (arith, v.filled, h);
  room = v.room;
}
Step-IsFifo (pop_waits y f e) v =
    let (some_room, g) = pop_wait-some y.fifo f e in
    replaced-IsFifo g (λ h. record y { fifo = h; to_read = y.to_read + 1 })
      (record {
        content = v.content;
        ring = v.ring;
        order = v.order;
        filled = omega (arith, v.filled, some_room);
        room = v.room;
      })
Step-IsFifo (pop_reads y h) v = pop_reads-IsFifo y v.content h v.ring v.order v.filled v.room
Step-IsFifo (pop_posts y h) v = record {
  content = v.content;
  ring = v.ring;
  order = v.order;
  filled = v.filled;
  room = omega (arith, v.room, h);
}

Reach-Step : {y z : System} → IsFifo y → Reach y z → IsFifo z
Reach-Step v here = v
Reach-Step v (next r st) = Step-IsFifo st (Reach-Step v r)

-- For an array of the capacity, which is not 0, and after any interleaving of pushes and pops: the elements popped are the
-- first ones pushed, in their order, the array holds the others, and the semaphores and the threads on
-- their way account for them and for the room that is left.
pub Fifo-IsFifo :
    (cap : ℕ) (memory : List ℕ) (y : System)
    → 0 < cap
    → length memory ≡ cap
    → Reach (start cap memory) y
    → IsFifo y
Fifo-IsFifo cap memory y some_room whole r =
    Reach-Step
      (record {
        content = [];
        ring = record {
          whole = whole;
          inside = some_room;
          fits = omega arith;
          end = ground arith;
          values = λ i h. absurd (omega (arith, h));
        };
        order = refl;
        filled = omega arith;
        room = omega arith;
      })
      r
