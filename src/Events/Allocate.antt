-- ===== src/Events/Allocate.antt =====
-- Allocation in the queue of libsax/sax/stage/event_queue.h.
use xlibsax.Prelude.{
  ℕ, ◌+◌, ◌≤◌, ◌<◌, ◌≡◌, refl, ap, ◌∙◌, ◌≢◌, ◌⊎◌, inl, inr, true, false, not, ◌&&◌, ◌||◌, Option,
  none, some, List, [], ◌∷◌, ◌++◌, append_assoc, arith, On, ltb, leb, ◌==◌, if◌then◌else◌, ==_refl,
  ltb→lt, Bool-cases,
}
use xlibsax.Events.{allocated, skipped, Header, Queue, header_size, put_header, aligned, allocate}
use xlibsax.Events.Blocks.{
  Block, IsBlock, Runs, Runs-le, Runs-append, Runs-put_outside, Flat-On, Wrapped-On, Flat, Wrapped,
  Holds,
}

-- No gap of the buffer has room for `len` bytes.
abbrev pub Full : Queue → ℕ → Type 0
Full s len =
    ((s.free_pos ≤ s.alloc_pos) × (s.cap < s.alloc_pos + len) × (s.free_pos ≤ len))
    ⊎ ((s.alloc_pos < s.free_pos) × (s.free_pos ≤ s.alloc_pos + len))

-- What an allocation for `length` bytes that succeeded left in a queue with the blocks `q`.
pub record Grants (s : Queue) (q : List Block) (length : ℕ) (r : Option ℕ × Queue) : Type 0 where
  pub block : Block
  pub size : block.size ≡ aligned length
  pub pointer : r.0 ≡ some (block.at + header_size)
  pub holds : Holds r.1 (q ++ (block ∷ []))
  pub state : (r.1.header block.at).block_state ≡ allocated
  pub keeps : (b : Block) → On b q → r.1.header b.at ≡ s.header b.at
  pub same : (r.1.free_pos ≡ s.free_pos) × (r.1.cap ≡ s.cap)

module _ (s : Queue) (q : List Block) (length : ℕ) where
  abbrev len : ℕ
  len = aligned length

  abbrev stamp : Header
  stamp = record { block_state = allocated; block_size = len }

  -- The block goes behind the last one.
  abbrev behind : Queue
  behind = record s {
    alloc_pos = s.alloc_pos + len;
    header = put_header s.header s.alloc_pos stamp;
  }

  -- It goes to the front, and a mark behind the last one where there is room.
  abbrev front : Queue
  front = record s {
    alloc_pos = len;
    header =
        let stamped = put_header s.header 0 stamp in
        if ltb (s.alloc_pos + header_size) s.cap
        then put_header stamped s.alloc_pos (record (stamped s.alloc_pos) { block_state = skipped })
        else stamped;
  }

  stamp-Runs :
      (f : ℕ → Header) (p : ℕ)
      → 0 < length
      → Runs (put_header f p stamp) p (record { at = p; size = len } ∷ []) (p + len)
  stamp-Runs f p some_length = rw (==_refl p) (refl, omega arith, (refl, inl refl), refl)

  Flat-behind :
      0 < length
      → Flat s q
      → s.alloc_pos + len ≤ s.cap
      → Flat behind (q ++ (record { at = s.alloc_pos; size = len } ∷ []))
  Flat-behind some_length h fits = record {
    within = fits;
    runs =
        Runs-append (put_header s.header s.alloc_pos stamp) s.free_pos q s.alloc_pos
          (record { at = s.alloc_pos; size = len } ∷ []) (s.alloc_pos + len)
          (Runs-put_outside s.header s.free_pos q s.alloc_pos s.alloc_pos stamp (inr (omega arith))
            h.runs)
          (stamp-Runs s.header s.alloc_pos some_length);
  }

  Wrapped-behind :
      0 < length
      → Wrapped s q
      → s.alloc_pos + len < s.free_pos
      → Wrapped behind (q ++ (record { at = s.alloc_pos; size = len } ∷ []))
  Wrapped-behind some_length h fits =
      let b : Block = record { at = s.alloc_pos; size = len } in
      let far = Runs-le s.header s.free_pos h.older h.stop h.older_runs in
      let other : (s.alloc_pos == h.stop) ≡ false = ground (arith, far, h.before) in
      record {
        older = h.older;
        newer = h.newer ++ (b ∷ []);
        split = ap (λ l. l ++ (b ∷ [])) h.split ∙ append_assoc h.older h.newer (b ∷ []);
        stop = h.stop;
        within = h.within;
        older_runs =
            Runs-put_outside s.header s.free_pos h.older h.stop s.alloc_pos stamp (inl h.before)
              h.older_runs;
        newer_runs =
            Runs-append (put_header s.header s.alloc_pos stamp) 0 h.newer s.alloc_pos (b ∷ [])
              (s.alloc_pos + len)
              (Runs-put_outside s.header 0 h.newer s.alloc_pos s.alloc_pos stamp (inr (omega arith))
                h.newer_runs)
              (stamp-Runs s.header s.alloc_pos some_length);
        not_none = omega arith;
        before = fits;
        marked = rw other (h.marked);
      }

  behind-Flat : (b : Block) → Flat s q → On b q → (s.alloc_pos == b.at) ≡ false
  behind-Flat b h o = let (lo, hi) = Flat-On s q b h o in ground (arith, hi)

  behind-Wrapped : (b : Block) → Wrapped s q → On b q → (s.alloc_pos == b.at) ≡ false
  behind-Wrapped b h o =
      let place = Wrapped-On s q b h o in
      let apart : s.alloc_pos ≢ b.at = ground (arith, place, h.before) in ground (arith, apart)

  -- The wrap, for any headers that keep the blocks, have the new one at 0 and mark the end.
  Flat-wrap :
      (f : ℕ → Header)
      → 0 < length
      → Flat s q
      → len < s.free_pos
      → Runs f s.free_pos q s.alloc_pos
      → IsBlock (f 0) len
      → (s.cap ≤ s.alloc_pos + header_size) ⊎ ((f s.alloc_pos).block_state ≡ skipped)
      → Wrapped
          (record s { alloc_pos = len; header = f })
          (q ++ (record { at = 0; size = len } ∷ []))
  Flat-wrap f some_length h fits older new marked = record {
    older = q;
    newer = record { at = 0; size = len } ∷ [];
    split = refl;
    stop = s.alloc_pos;
    within = h.within;
    older_runs = older;
    newer_runs = (refl, omega arith, new, omega arith);
    not_none = omega arith;
    before = fits;
    marked = marked;
  }

  -- The queue with the block at the front: its headers, and the new block's.
  Flat-front :
      0 < length
      → Flat s q
      → len < s.free_pos
      → Wrapped front (q ++ (record { at = 0; size = len } ∷ []))
        × ((front.header 0).block_state ≡ allocated)
        × ((b : Block) → On b q → front.header b.at ≡ s.header b.at)
  Flat-front some_length h fits =
      let far = Runs-le s.header s.free_pos q s.alloc_pos h.runs in
      let stamped = put_header s.header 0 stamp in
      let not_first : (b : Block) → On b q → (0 == b.at) ≡ false =
        λ b o. let (lo, hi) = Flat-On s q b h o in ground (arith, lo, fits) in
      let not_last : (b : Block) → On b q → (s.alloc_pos == b.at) ≡ false =
        λ b o. let (lo, hi) = Flat-On s q b h o in ground (arith, hi) in
      let old =
        Runs-put_outside s.header s.free_pos q s.alloc_pos 0 stamp (inl (omega arith)) h.runs in
      elim (Bool-cases (ltb (s.alloc_pos + header_size) s.cap)) [
        | inr e ↦
            let none_left : s.cap ≤ s.alloc_pos + header_size = ground (arith, e) in
            rw e (
              Flat-wrap stamped some_length h fits old (refl, inl refl) (inl none_left),
              refl,
              λ b o. rw (not_first b o) refl,
            )
        | inl e ↦
            let mark : Header = record (stamped s.alloc_pos) { block_state = skipped } in
            let f = put_header stamped s.alloc_pos mark in
            let marked : (f s.alloc_pos).block_state ≡ skipped = rw (==_refl s.alloc_pos) in
            let other : (s.alloc_pos == 0) ≡ false = ground (arith, far, fits) in
            let new : f 0 ≡ stamp = rw other in
            let old' =
              Runs-put_outside stamped s.free_pos q s.alloc_pos s.alloc_pos mark (inr (omega arith))
                old in
            rw e (
              Flat-wrap f some_length h fits old' (rw new (refl, inl refl)) (inr marked),
              ap (λ (x : Header). x.block_state) new,
              λ b o. rw (not_last b o, not_first b o) refl,
            )
      ]

  allocate-behind :
      (leb s.free_pos s.alloc_pos && leb (s.alloc_pos + len) s.cap)
          || ltb (s.alloc_pos + len) s.free_pos
        ≡ true
      → (leb s.free_pos s.alloc_pos && not (leb (s.alloc_pos + len) s.cap)) ≡ false
      → allocate s length ≡ (some (s.alloc_pos + header_size), behind)
  unfolding allocate
  allocate-behind go stay = rw (stay, go)

  allocate-front :
      (leb s.free_pos s.alloc_pos && not (leb (s.alloc_pos + len) s.cap)) ≡ true
      → ltb len s.free_pos ≡ true
      → allocate s length ≡ (some header_size, front)
  unfolding allocate
  allocate-front wrap fits =
      let z : 0 + len ≡ len = omega arith in
      let go : (leb s.free_pos s.alloc_pos && leb (s.alloc_pos + len) s.cap) || ltb len s.free_pos
          ≡ true =
        ground (arith, fits) in
      rw (wrap, z, go)

  allocate-refused :
      (leb s.free_pos s.alloc_pos && leb (s.alloc_pos + len) s.cap) ≡ false
      → ltb
          ((if leb s.free_pos s.alloc_pos && not (leb (s.alloc_pos + len) s.cap)
              then 0
              else s.alloc_pos)
            + len)
          s.free_pos
        ≡ false
      → allocate s length ≡ (none, s)
  unfolding allocate
  allocate-refused p q = rw (p, q)

  pub allocate_lem :
      0 < length
      → Holds s q
      → ((allocate s length ≡ (none, s)) × Full s len) ⊎ Grants s q length (allocate s length)
  allocate_lem some_length (inl h) =
      let far = Runs-le s.header s.free_pos q s.alloc_pos h.runs in
      let c1 : leb s.free_pos s.alloc_pos ≡ true = ground (arith, far) in
      elim (Bool-cases (leb (s.alloc_pos + len) s.cap)) [
        | inl c2 ↦
            let run = allocate-behind (rw (c1, c2)) (rw (c1, c2)) in
            inr (
              rw run (record {
                block = record { at = s.alloc_pos; size = len };
                size = refl;
                pointer = refl;
                holds = inl (Flat-behind some_length h (ground (arith, c2)));
                state = rw (==_refl s.alloc_pos);
                keeps = λ b o. rw (behind-Flat b h o) refl;
                same = (refl, refl);
              }))
        | inr c2 ↦ elim (Bool-cases (ltb len s.free_pos)) [
          | inl fits ↦
              let run = allocate-front (rw (c1, c2)) fits in
              let (wrapped, state, keeps) = Flat-front some_length h (ltb→lt _ _ fits) in
              inr (
                rw run (record {
                  block = record { at = 0; size = len };
                  size = refl;
                  pointer = refl;
                  holds = inr wrapped;
                  state = state;
                  keeps = keeps;
                  same = (refl, refl);
                }))
          | inr fits ↦
              let z : 0 + len ≡ len = omega arith in
              inl (
                allocate-refused (rw (c1, c2)) (rw (c1, c2) (rw z fits)),
                inl (far, ground (arith, c2), ground (arith, fits)),
              )
        ]
      ]
  allocate_lem some_length (inr h) =
      let c1 : leb s.free_pos s.alloc_pos ≡ false = ground (arith, h.before) in
      elim (Bool-cases (ltb (s.alloc_pos + len) s.free_pos)) [
        | inl fits ↦
            let run = allocate-behind (rw (c1, fits)) (rw c1) in
            inr (
              rw run (record {
                block = record { at = s.alloc_pos; size = len };
                size = refl;
                pointer = refl;
                holds = inr (Wrapped-behind some_length h (ltb→lt _ _ fits));
                state = rw (==_refl s.alloc_pos);
                keeps = λ b o. rw (behind-Wrapped b h o) refl;
                same = (refl, refl);
              }))
        | inr fits ↦
            inl (allocate-refused (rw c1) (rw c1 fits), inr (h.before, ground (arith, fits)))
      ]
