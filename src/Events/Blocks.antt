-- ===== src/Events/Blocks.antt =====
-- The blocks that the queue of libsax/sax/stage/event_queue.h holds, oldest first.
use xlibsax.Prelude.{
  ℕ, ◌+◌, ◌≤◌, ◌<◌, ◌≡◌, sym, ap, ◌⊎◌, inl, inr, false, List, [], ◌∷◌, ◌++◌, arith, On, On-append,
  ◌==◌,
}
use xlibsax.Events.{allocated, committed, skipped, Header, Queue, header_size, put_header}

pub record Block : Type 0 where
  pub at : ℕ
  pub size : ℕ

-- A block's header is that of a block, and not of a gap.
abbrev pub IsBlock : Header → ℕ → Type 0
IsBlock h size = (h.block_size ≡ size) × ((h.block_state ≡ allocated) ⊎ (h.block_state ≡ committed))

-- The blocks stand one behind the other, from `from` to `to`.
abbrev pub Runs : (ℕ → Header) → ℕ → List Block → ℕ → Type 0
Runs f from [] to = from ≡ to
Runs f from (b ∷ q) to =
    (b.at ≡ from) × (header_size < b.size) × IsBlock (f from) b.size × Runs f (from + b.size) q to

pub Runs-le : (f : ℕ → Header) (from : ℕ) (q : List Block) (to : ℕ) → Runs f from q to → from ≤ to
Runs-le f from [] to r = omega arith
Runs-le f from (b ∷ q) to r = omega (arith, Runs-le f (from + b.size) q to r.3)

pub Runs-append :
    (f : ℕ → Header) (from : ℕ) (q₁ : List Block) (mid : ℕ) (q₂ : List Block) (to : ℕ)
    → Runs f from q₁ mid
    → Runs f mid q₂ to
    → Runs f from (q₁ ++ q₂) to
Runs-append f from [] mid q₂ to r₁ r₂ = rw r₁ r₂
Runs-append f from (b ∷ q₁) mid q₂ to (p, s, h, r₁) r₂ =
    (p, s, h, Runs-append f (from + b.size) q₁ mid q₂ to r₁ r₂)

-- A block of a run begins inside it.
pub On-Runs :
    (f : ℕ → Header) (from : ℕ) (q : List Block) (to : ℕ) (b : Block)
    → Runs f from q to
    → On b q
    → (from ≤ b.at) × (b.at < to)
On-Runs f from [] to b r o = absurd o
On-Runs f from (c ∷ q) to b (a, s, h, r) (inl e) =
    let at : b.at ≡ c.at = ap (λ (x : Block). x.at) e in
    (omega (arith, at), omega (arith, at, Runs-le f (from + c.size) q to r))
On-Runs f from (c ∷ q) to b (a, s, h, r) (inr o) =
    let (lo, hi) = On-Runs f (from + c.size) q to b r o in (omega arith, hi)

-- A header written outside of the blocks changes none of them.
pub Runs-put_outside :
    (f : ℕ → Header) (from : ℕ) (q : List Block) (to p : ℕ) (h : Header)
    → (p < from) ⊎ (to ≤ p)
    → Runs f from q to
    → Runs (put_header f p h) from q to
Runs-put_outside f from [] to p h out r = r
Runs-put_outside f from (b ∷ q) to p h out (a, s, k, r) =
    let after = Runs-le f (from + b.size) q to r in
    let other : (p == from) ≡ false = ground (arith, out, after, s) in
    let out' : (p < from + b.size) ⊎ (to ≤ p) = ground (arith, out) in
    (a, s, rw other k, Runs-put_outside f (from + b.size) q to p h out' r)

-- The blocks stand between `free_pos` and `alloc_pos`.
pub record Flat (s : Queue) (q : List Block) : Type 0 where
  pub within : s.alloc_pos ≤ s.cap
  pub runs : Runs s.header s.free_pos q s.alloc_pos

-- The older blocks stand from `free_pos` to `stop`, the newer ones from 0 to `alloc_pos`; at `stop`
-- there is no room for a header, or a mark.
pub record Wrapped (s : Queue) (q : List Block) : Type 0 where
  pub older : List Block
  pub newer : List Block
  pub split : q ≡ older ++ newer
  pub stop : ℕ
  pub within : stop ≤ s.cap
  pub older_runs : Runs s.header s.free_pos older stop
  pub newer_runs : Runs s.header 0 newer s.alloc_pos
  pub not_none : 0 < s.alloc_pos
  pub before : s.alloc_pos < s.free_pos
  pub marked : (s.cap ≤ stop + header_size) ⊎ ((s.header stop).block_state ≡ skipped)

abbrev pub Holds : Queue → List Block → Type 0
Holds s q = Flat s q ⊎ Wrapped s q

-- Where the blocks begin.
pub Flat-On :
    (s : Queue) (q : List Block) (b : Block)
    → Flat s q
    → On b q
    → (s.free_pos ≤ b.at) × (b.at < s.alloc_pos)
Flat-On s q b h o = On-Runs s.header s.free_pos q s.alloc_pos b h.runs o

pub Wrapped-On :
    (s : Queue) (q : List Block) (b : Block)
    → (h : Wrapped s q) → On b q
    → (b.at < s.alloc_pos) ⊎ ((s.free_pos ≤ b.at) × (b.at < h.stop))
Wrapped-On s q b h o = elim (On-append h.older h.newer b (rw (sym h.split) o)) [
  | inl old ↦ inr (On-Runs s.header s.free_pos h.older h.stop b h.older_runs old)
  | inr new ↦ inl ((On-Runs s.header 0 h.newer s.alloc_pos b h.newer_runs new).1)
]
