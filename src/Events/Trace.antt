-- ===== src/Events/Trace.antt =====
-- Producers and the consumer of one queue of libsax/sax/stage/event_queue.h, one operation at a time.
use xlibsax.Prelude.{
  ℕ, ◌+◌, ◌<◌, ◌≡◌, refl, sym, ap, inl, inr, Option, none, some, List, [], ◌∷◌, ◌++◌, append_assoc,
  arith, length, drop, On, drop-append, ◌==◌, ==_iff, Bool-cases,
}
use xlibsax.Events.{
  State, allocated, committed, skipped, Header, Queue, header_size, fresh, allocate, commit_event,
  pop_event, free,
}
use xlibsax.Events.Blocks.{Block, Holds}
use xlibsax.Events.Allocate.{allocate_lem}
use xlibsax.Events.Consume.{
  answer, Pops, commit_event-free_pos, commit_event_lem, pop_event_lem, free_lem,
}

-- The queue with what its users know: the events that they got, the events that were freed, both in
-- time's order, and what the last `pop_event` returned.
pub record System : Type 0 where
  pub queue : Queue
  pub given : List ℕ
  pub taken : List ℕ
  pub popped : Option ℕ

abbrev pub got : List ℕ → Option ℕ → List ℕ
got given none = given
got given (some event) = given ++ (event ∷ [])

-- The events that were allocated and not yet freed.
abbrev pub pending : System → List ℕ
pending y = drop (length y.taken) y.given

-- A producer allocates for an event of some size, and commits an event that is not freed; the
-- consumer pops, and frees what it popped.
pub data Step : System → System → Type 0 where
  allocates :
      (y : System) (length : ℕ)
      → 0 < length
      → Step y (record y {
        queue = (allocate y.queue length).1;
        given = got y.given (allocate y.queue length).0;
      })
  commits :
      (y : System) (event : ℕ)
      → On event (pending y)
      → Step y (record y { queue = commit_event y.queue event })
  pops :
      (y : System)
      → Step y (record y { queue = (pop_event y.queue).1; popped = (pop_event y.queue).0 })
  frees :
      (y : System) (event : ℕ)
      → y.popped ≡ some event
      → Step y
          (record y { queue = free y.queue event; taken = y.taken ++ (event ∷ []); popped = none })

pub data Reach (y : System) : System → Type 0 where
  here : Reach y y
  next : {z w : System} → Reach y z → Step z w → Reach y w

abbrev pub start : ℕ → (ℕ → Header) → System
start cap memory = record { queue = fresh cap memory; given = []; taken = []; popped = none }

abbrev pub pointers : List Block → List ℕ
pointers [] = []
pointers (b ∷ q) = (b.at + header_size) ∷ pointers q

-- The popped event is the oldest one, and it is committed.
abbrev pub IsOldest : Queue → List Block → Option ℕ → Type 0
IsOldest s q none = Unit
IsOldest s [] (some event) = ⊥
IsOldest s (b ∷ q) (some event) =
    (event ≡ b.at + header_size) × (s.free_pos ≡ b.at) × ((s.header b.at).block_state ≡ committed)

-- The blocks in the buffer are those of the events that are pending, in the order of their
-- allocation.
pub record IsFifo (y : System) : Type 0 where
  pub blocks : List Block
  pub holds : Holds y.queue blocks
  pub order : y.given ≡ y.taken ++ pointers blocks
  pub oldest : IsOldest y.queue blocks y.popped

pointers-append : (p q : List Block) → pointers (p ++ q) ≡ pointers p ++ pointers q
pointers-append [] q = refl
pointers-append (b ∷ p) q = rw (pointers-append p q)

On-pointers :
    (event : ℕ) (q : List Block)
    → On event (pointers q)
    → (b : Block) × (On b q × (event ≡ b.at + header_size))
On-pointers event [] o = absurd o
On-pointers event (b ∷ q) (inl e) = (b, (inl refl, e))
On-pointers event (b ∷ q) (inr o) = let (c, (on, e)) = On-pointers event q o in (c, (inr on, e))

pending_lem : (y : System) (v : IsFifo y) → pending y ≡ pointers v.blocks
pending_lem y v = rw v.order (drop-append y.taken (pointers v.blocks))

IsOldest-keep :
    (s t : Queue) (q : List Block) (popped : Option ℕ)
    → t.free_pos ≡ s.free_pos
    → ((b : Block)
        → On b q
        → (s.header b.at).block_state ≡ committed
        → (t.header b.at).block_state ≡ committed)
    → IsOldest s q popped
    → IsOldest t q popped
IsOldest-keep s t q none same keeps h = tt
IsOldest-keep s t [] (some event) same keeps h = h
IsOldest-keep s t (b ∷ q) (some event) same keeps (e, at, state) =
    (e, rw (same, at) refl, keeps b (inl refl) state)

IsOldest-append :
    (s : Queue) (q more : List Block) (popped : Option ℕ)
    → IsOldest s q popped
    → IsOldest s (q ++ more) popped
IsOldest-append s q more none h = tt
IsOldest-append s [] more (some event) h = absurd h
IsOldest-append s (b ∷ q) more (some event) h = h

IsOldest-answer :
    (s : Queue) (b : Block) (q : List Block) (state : State)
    → s.free_pos ≡ b.at
    → (s.header b.at).block_state ≡ state
    → IsOldest s (b ∷ q) (answer state b.at)
IsOldest-answer s b q allocated at e = tt
IsOldest-answer s b q skipped at e = tt
IsOldest-answer s b q committed at e = (refl, at, e)

Pops-IsOldest :
    (s : Queue) (q : List Block) (r : Option ℕ × Queue)
    → Holds s q
    → Pops s q r
    → Holds r.1 q × IsOldest r.1 q r.0
Pops-IsOldest s [] r h e =
    rw (ap (λ (x : Option ℕ × Queue). x.1) e, ap (λ (x : Option ℕ × Queue). x.0) e) (h, tt)
Pops-IsOldest s (b ∷ q) r h (e, t, holds) =
    let at : r.1.free_pos ≡ b.at = rw t refl in
    let same : (r.1.header b.at).block_state ≡ (s.header b.at).block_state = rw t refl in
    (holds, rw e (IsOldest-answer r.1 b q (s.header b.at).block_state at same))

frees-blocks :
    (y : System) (event : ℕ) (q : List Block)
    → Holds y.queue q
    → y.given ≡ y.taken ++ pointers q
    → IsOldest y.queue q (some event)
    → IsFifo
        (record y { queue = free y.queue event; taken = y.taken ++ (event ∷ []); popped = none })
frees-blocks y event [] h order old = absurd old
frees-blocks y event (b ∷ q) h order (e, at, state) = record {
  blocks = q;
  holds = rw e (free_lem y.queue b q h at);
  order = rw (order, e) (sym (append_assoc y.taken ((b.at + header_size) ∷ []) (pointers q)));
  oldest = tt;
}

allocates-IsFifo :
    (y : System) (length : ℕ)
    → 0 < length
    → IsFifo y
    → IsFifo (record y {
      queue = (allocate y.queue length).1;
      given = got y.given (allocate y.queue length).0;
    })
allocates-IsFifo y length some_length v =
    elim (allocate_lem y.queue v.blocks length some_length v.holds) [
      | inl (refused, full) ↦ rw refused v
      | inr g ↦ record {
        blocks = v.blocks ++ (g.block ∷ []);
        holds = g.holds;
        order =
            rw (g.pointer, v.order, pointers-append v.blocks (g.block ∷ []))
              (append_assoc y.taken (pointers v.blocks) ((g.block.at + header_size) ∷ []));
        oldest = IsOldest-append (allocate y.queue length).1 v.blocks (g.block ∷ []) y.popped (
            IsOldest-keep y.queue (allocate y.queue length).1 v.blocks y.popped g.same.0
              (λ b o state. rw (g.keeps b o) state) v.oldest);
      }
    ]

commits-IsFifo :
    (y : System) (event : ℕ)
    → On event (pending y)
    → IsFifo y
    → IsFifo (record y { queue = commit_event y.queue event })
commits-IsFifo y event o v =
    let (b, (on, e)) = On-pointers event v.blocks (rw (sym (pending_lem y v)) o) in
    let (holds, done, others) = commit_event_lem y.queue v.blocks b v.holds on in
    let keeps : (c : Block)
        → On c v.blocks
        → (y.queue.header c.at).block_state ≡ committed
        → ((commit_event y.queue (b.at + header_size)).header c.at).block_state ≡ committed =
      λ c o' state. elim (Bool-cases (c.at == b.at)) [
        | inl same ↦ rw ((==_iff c.at b.at).0 same) done
        | inr other ↦ rw (others c.at (λ k. ground (arith, k, other))) state
      ] in
    rw e (record {
      blocks = v.blocks;
      holds = holds;
      order = v.order;
      oldest =
          IsOldest-keep y.queue (commit_event y.queue (b.at + header_size)) v.blocks y.popped
            (commit_event-free_pos y.queue (b.at + header_size)) keeps v.oldest;
    })

pops-IsFifo :
    (y : System)
    → IsFifo y
    → IsFifo (record y { queue = (pop_event y.queue).1; popped = (pop_event y.queue).0 })
pops-IsFifo y v =
    let (holds, oldest) =
      Pops-IsOldest y.queue v.blocks (pop_event y.queue) v.holds
        (pop_event_lem y.queue v.blocks v.holds) in
    record { blocks = v.blocks; holds = holds; order = v.order; oldest = oldest }

frees-IsFifo :
    (y : System) (event : ℕ)
    → y.popped ≡ some event
    → IsFifo y
    → IsFifo
        (record y { queue = free y.queue event; taken = y.taken ++ (event ∷ []); popped = none })
frees-IsFifo y event p v = frees-blocks y event v.blocks v.holds v.order (rw (sym p) v.oldest)

Step-IsFifo : {y z : System} → Step y z → IsFifo y → IsFifo z
Step-IsFifo (allocates y length l) v = allocates-IsFifo y length l v
Step-IsFifo (commits y event o) v = commits-IsFifo y event o v
Step-IsFifo (pops y) v = pops-IsFifo y v
Step-IsFifo (frees y event p) v = frees-IsFifo y event p v

Reach-Step : {y z : System} → IsFifo y → Reach y z → IsFifo z
Reach-Step v here = v
Reach-Step v (next r st) = Step-IsFifo st (Reach-Step v r)

-- After any steps from a fresh queue the events were freed in the order of their allocation, the
-- buffer holds exactly the blocks of the others, in that order, and a popped event is the
-- oldest one and committed.
pub Reach-IsFifo :
    (cap : ℕ) (memory : ℕ → Header) (y : System) → Reach (start cap memory) y → IsFifo y
unfolding fresh
Reach-IsFifo cap memory y r =
    Reach-Step
      (record {
        blocks = [];
        holds = inl (record { within = omega arith; runs = refl });
        order = refl;
        oldest = tt;
      })
      r
