-- ===== src/Events/Consume.antt =====
-- Committing, popping and freeing in the queue of libsax/sax/stage/event_queue.h.
use xlibsax.Prelude.{
  ℕ, ◌+◌, ◌-◌, ◌≤◌, ◌<◌, ◌≡◌, refl, sym, ap, ◌∙◌, ◌≢◌, ◌⊎◌, inl, inr, true, false, Option, none,
  some, List, [], ◌∷◌, ◌++◌, arith, On, On-append, leb, ◌==◌, ==_refl, ==_iff, Bool-cases,
}
use xlibsax.Events.{
  State, allocated, committed, skipped, Header, Queue, header_size, put_header, commit_event,
  pop_event, free,
}
use xlibsax.Events.Blocks.{Block, IsBlock, Runs, Runs-le, On-Runs, Holds}

-- A header that becomes committed and keeps its size changes no block.
Runs-commit :
    (f : ℕ → Header) (p from : ℕ) (q : List Block) (to : ℕ)
    → Runs f from q to
    → Runs (put_header f p (record (f p) { block_state = committed })) from q to
Runs-commit f p from [] to r = r
Runs-commit f p from (b ∷ q) to (a, s, h, r) = (a, s, here, Runs-commit f p (from + b.size) q to r)
  where
    here : IsBlock (put_header f p (record (f p) { block_state = committed }) from) b.size
    here = elim (Bool-cases (p == from)) [
      | inr e ↦ rw e h
      | inl e ↦
          let same : p ≡ from = (==_iff p from).0 e in
          rw e (ap (λ i. (f i).block_size) same ∙ h.0, inr refl)
    ]

Holds-commit :
    (s : Queue) (q : List Block) (b : Block)
    → Holds s q
    → On b q
    → Holds
        (record s {
          header = put_header s.header b.at (record (s.header b.at) { block_state = committed });
        })
        q
Holds-commit s q b (inl h) o =
    inl (record {
      within = h.within;
      runs = Runs-commit s.header b.at s.free_pos q s.alloc_pos h.runs;
    })
Holds-commit s q b (inr h) o = inr (record {
  older = h.older;
  newer = h.newer;
  split = h.split;
  stop = h.stop;
  within = h.within;
  older_runs = Runs-commit s.header b.at s.free_pos h.older h.stop h.older_runs;
  newer_runs = Runs-commit s.header b.at 0 h.newer s.alloc_pos h.newer_runs;
  not_none = h.not_none;
  before = h.before;
  marked = rw other h.marked;
})
  where
    far : s.free_pos ≤ h.stop
    far = Runs-le s.header s.free_pos h.older h.stop h.older_runs

    apart : b.at < h.stop
    apart = elim (On-append h.older h.newer b (rw (sym h.split) o)) [
      | inl old ↦ (On-Runs s.header s.free_pos h.older h.stop b h.older_runs old).1
      | inr new ↦
          let (lo, hi) = On-Runs s.header 0 h.newer s.alloc_pos b h.newer_runs new in
          omega (arith, hi, h.before, far)
    ]

    other : (b.at == h.stop) ≡ false
    other = ground (arith, apart)

-- `commit_event` of a block in the queue makes it committed, keeps the blocks and their order, and
-- changes no other header.
pub commit_event_lem :
    (s : Queue) (q : List Block) (b : Block)
    → Holds s q
    → On b q
    → let t = commit_event s (b.at + header_size) in
      Holds t q
      × ((t.header b.at).block_state ≡ committed)
      × ((p : ℕ) → p ≢ b.at → t.header p ≡ s.header p)
unfolding commit_event
commit_event_lem s q b h o =
    let back : b.at + header_size - header_size ≡ b.at = omega arith in
    let change = record (s.header b.at) { block_state = committed } in
    let f = put_header s.header b.at change in
    let others : (p : ℕ) → p ≢ b.at → f p ≡ s.header p =
      λ p ne. let no : (b.at == p) ≡ false = ground (arith, ne) in rw no in
    rw back (Holds-commit s q b h o, rw (==_refl b.at), others)

-- The answer of `pop_event` for a block at `at`.
abbrev pub answer : State → ℕ → Option ℕ
answer committed at = some (at + header_size)
answer allocated at = none
answer skipped at = none

pop-none : (s : Queue) → (s.free_pos == s.alloc_pos) ≡ true → pop_event s ≡ (none, s)
unfolding pop_event
pop-none s e = rw e

-- `pop_event` on a block at `free_pos`.
pop-here :
    (s : Queue)
    → (s.free_pos == s.alloc_pos) ≡ false
    → leb s.cap (s.free_pos + header_size) ≡ false
    → ((s.header s.free_pos).block_state ≡ allocated)
      ⊎ ((s.header s.free_pos).block_state ≡ committed)
    → pop_event s ≡ (answer (s.header s.free_pos).block_state s.free_pos, s)
unfolding pop_event
pop-here s ne room (inl e) = rw (ne, room, e, room)
pop-here s ne room (inr e) = rw (ne, room, e, room)

-- `pop_event` at the end of the buffer goes on at 0.
pop-wrap :
    (s : Queue)
    → (s.free_pos == s.alloc_pos) ≡ false
    → (s.cap ≤ s.free_pos + header_size) ⊎ ((s.header s.free_pos).block_state ≡ skipped)
    → ((s.header 0).block_state ≡ allocated) ⊎ ((s.header 0).block_state ≡ committed)
    → pop_event s ≡ (answer (s.header 0).block_state 0, record s { free_pos = 0 })
unfolding pop_event
pop-wrap s ne marked st = elim (Bool-cases (leb s.cap (s.free_pos + header_size))) [
  | inl e ↦ elim st [ inl k ↦ rw (ne, e, k, e) | inr k ↦ rw (ne, e, k, e) ]
  | inr e ↦
      let mark : (s.header s.free_pos).block_state ≡ skipped = elim marked [
        | inl full ↦ absurd (ground (arith, full, e))
        | inr m ↦ m
      ] in
      elim st [ inl k ↦ rw (ne, e, mark, k) | inr k ↦ rw (ne, e, mark, k) ]
]

-- The oldest block stands at `free_pos`, or at 0 behind the gap at the end; the others stay without
-- it.
abbrev pub Oldest : Queue → List Block → Type 0
Oldest s [] = s.free_pos ≡ s.alloc_pos
Oldest s (b ∷ q) =
    s.free_pos ≢ s.alloc_pos
    × (((s.free_pos + header_size < s.cap)
          × (b.at ≡ s.free_pos)
          × IsBlock (s.header s.free_pos) b.size
          × Holds (record s { free_pos = s.free_pos + b.size }) q)
        ⊎ (((s.cap ≤ s.free_pos + header_size) ⊎ ((s.header s.free_pos).block_state ≡ skipped))
            × (b.at ≡ 0)
            × (0 < s.free_pos)
            × IsBlock (s.header 0) b.size
            × Holds (record s { free_pos = 0 }) (b ∷ q)))

Wrapped-Oldest :
    (s : Queue) (older newer : List Block) (stop : ℕ)
    → stop ≤ s.cap
    → Runs s.header s.free_pos older stop
    → Runs s.header 0 newer s.alloc_pos
    → 0 < s.alloc_pos
    → s.alloc_pos < s.free_pos
    → (s.cap ≤ stop + header_size) ⊎ ((s.header stop).block_state ≡ skipped)
    → Oldest s (older ++ newer)
Wrapped-Oldest s [] [] stop w r₁ r₂ z l m = absurd (omega (arith, r₂, z))
Wrapped-Oldest s [] (b ∷ q) stop w r₁ r₂ z l m = (
  (λ e. omega (arith, l, e)),
  inr (
    rw r₁ m,
    r₂.0,
    omega (arith, l),
    r₂.2,
    inl (record { within = omega (arith, w, l, r₁); runs = r₂ }),
  ),
)
Wrapped-Oldest s (b ∷ o) newer stop w (a, z', k, r₁) r₂ z l m =
    let far = Runs-le s.header (s.free_pos + b.size) o stop r₁ in
    (
      (λ e. omega (arith, l, e)),
      inl (
        omega (arith, far, w, z'),
        a,
        k,
        inr (record {
          older = o;
          newer = newer;
          split = refl;
          stop = stop;
          within = w;
          older_runs = r₁;
          newer_runs = r₂;
          not_none = z;
          before = omega (arith, l);
          marked = m;
        }),
      ),
    )

Holds-Oldest : (s : Queue) (q : List Block) → Holds s q → Oldest s q
Holds-Oldest s [] (inl h) = h.runs
Holds-Oldest s (b ∷ q) (inl h) =
    let (a, z, k, r) = h.runs in
    let far = Runs-le s.header (s.free_pos + b.size) q s.alloc_pos r in
    (
      (λ e. omega (arith, z, e, far)),
      inl (omega (arith, far, h.within, z), a, k, inl (record { within = h.within; runs = r })),
    )
Holds-Oldest s q (inr h) = rw h.split (
    Wrapped-Oldest s h.older h.newer h.stop h.within h.older_runs h.newer_runs h.not_none h.before
      h.marked)

pub commit_event-free_pos : (s : Queue) (event : ℕ) → (commit_event s event).free_pos ≡ s.free_pos
unfolding commit_event
commit_event-free_pos s event = refl

-- What `pop_event` does, by the blocks of the queue.
abbrev pub Pops : Queue → List Block → Option ℕ × Queue → Type 0
Pops s [] r = r ≡ (none, s)
Pops s (b ∷ q) r =
    (r.0 ≡ answer (s.header b.at).block_state b.at)
    × (r.1 ≡ record s { free_pos = b.at })
    × Holds r.1 (b ∷ q)

-- `pop_event` answers with no event, and changes nothing, when the queue is empty. Otherwise it
-- answers with the oldest block's event exactly if that block is committed, moves `_free_pos` to the block, past the gap
-- at the end of the buffer, and keeps the blocks and their order.
pub pop_event_lem : (s : Queue) (q : List Block) → Holds s q → Pops s q (pop_event s)
pop_event_lem s [] h =
    let empty = Holds-Oldest s [] h in
    let e : (s.free_pos == s.alloc_pos) ≡ true = ground (arith, empty) in pop-none s e
pop_event_lem s (b ∷ q) h =
    let (other, place) = Holds-Oldest s (b ∷ q) h in
    let ne : (s.free_pos == s.alloc_pos) ≡ false = ground (arith, other) in
    elim place [
      | inl (room, at, k, rest) ↦
          let no_gap : leb s.cap (s.free_pos + header_size) ≡ false = ground (arith, room) in
          rw (pop-here s ne no_gap k.1) (rw at refl, rw at refl, h)
      | inr (gap, at, far, k, rest) ↦ rw (pop-wrap s ne gap k.1) (rw at refl, rw at refl, rest)
    ]

-- `free` of the oldest block, once `pop_event` has moved to it, takes it out of the queue.
pub free_lem :
    (s : Queue) (b : Block) (q : List Block)
    → Holds s (b ∷ q)
    → s.free_pos ≡ b.at
    → Holds (free s (b.at + header_size)) q
unfolding free
free_lem s b q h e =
    let back : b.at + header_size - header_size ≡ b.at = omega arith in
    elim (Holds-Oldest s (b ∷ q) h).1 [
      | inl (room, at, k, rest) ↦
          let size : (s.header b.at).block_size ≡ b.size = rw (sym e) k.0 in rw (back, size) rest
      | inr (gap, at, far, k, rest) ↦ absurd (omega (arith, e, at, far))
    ]
