-- ===== src/Linked/Put.antt =====
-- `put` of libsax/sax/net/linked_buffer.h.
use xlibsax.Prelude.{
  ℕ, ◌+◌, ◌-◌, ◌^◌, ◌≤◌, ◌<◌, ◌≡◌, refl, sym, ap, ap₂, ◌∙◌, inl, inr, Bool, true, false, not,
  Option, none, some, List, ◌++◌, arith, length, take, drop, length-append, length-take,
  length-drop, All-append, run, All-take, Bool-cases,
}
use mathlib.Core.Path.{subst}
use xlibsax.Buffer.Valid.{written, unread}
use xlibsax.Buffer.Store.{stored_view}
use xlibsax.Linked.{Pos, LinkedBuffer, chain, moved, skip_bytes, put_bytes, room, put}
use xlibsax.Linked.Chain.{
  concat, span, span_lower, Sized, true-ne-false, length-concat, concat-drop, concat-take,
  concat-append, splice, splice-drop, drop-splice, take-append_left, drop-append_left,
}
use xlibsax.Linked.Valid.{content, view, At, Stands, IsValid}
use xlibsax.Linked.Move.{put_bytes_lem}
use xlibsax.Linked.Reach.{Reached, reach, Sized-drop, chain_lem}
use xlibsax.Linked.Transfer.{length-content, seen_written, seen_unread}
use xlibsax.Linked.Store.{Nodes, extend, Grown, room-Grown}

-- The chain with the blocks from the current one on replaced.
abbrev pub stored : LinkedBuffer → List (List ℕ) → Pos → ℕ → LinkedBuffer
stored b nodes q n = record b {
  blocks = take (b.current.block - b.first) b.blocks ++ nodes;
  current = moved q n;
}

module _ (b : LinkedBuffer) (bytes : List ℕ) (v : IsValid b)
    (h : b.current.position + length bytes < b.usable) where
  -- The blocks that `put` leaves.
  pub record Puts (q : Pos) (nodes : List (List ℕ)) : Type 0 where
    pub runs : put_bytes b.block_size (chain b b.current) bytes b.current ≡ some (nodes, q)
    pub sized : Sized b.block_size (take (b.current.block - b.first) b.blocks ++ nodes)
    pub count : length (take (b.current.block - b.first) b.blocks ++ nodes) ≡ length b.blocks
    pub holds :
        drop b.zero_pos.curr_buf (concat (take (b.current.block - b.first) b.blocks ++ nodes))
        ≡ splice (content b) b.current.position bytes

  pub puts :
      (q : Pos) → Reached b b.current (length bytes) q → (nodes : List (List ℕ)) × Puts q nodes
  puts q r =
      let a = v.current_at in
      let size = b.block_size in
      let C = concat b.blocks in
      let le : a.index ≤ length b.blocks = omega (arith, a.inside) in
      let before : take (b.current.block - b.first) b.blocks ≡ take a.index b.blocks =
        ap (λ k. take k b.blocks) (omega (arith, a.named)) in
      let total = length-concat size b.blocks v.sized in
      let (nodes, (run, s, count, same)) =
        put_bytes_lem size b.current a.whole (drop a.index b.blocks) bytes q
          (Sized-drop size a.index b.blocks v.sized)
          (ap (λ t. skip_bytes size t (length bytes) b.current) (sym (chain_lem b b.current a))
            ∙ r.skips) in
      let here : span size a.index + b.current.curr_buf ≡ b.zero_pos.curr_buf + b.current.position =
        omega (arith, a.offset) in
      let upto : span size a.index ≤ length C =
        omega (arith, span_lower size a.index (length b.blocks) a.inside, total) in
      let joined : concat (take a.index b.blocks ++ nodes)
          ≡ splice C (span size a.index + b.current.curr_buf) bytes =
        concat-append (take a.index b.blocks) nodes
        ∙ ap₂ (λ x y. x ++ y) (concat-take size a.index b.blocks v.sized le)
            (same
              ∙ ap (λ t. splice t b.current.curr_buf bytes)
                  (concat-drop size a.index b.blocks v.sized le))
        ∙ splice-drop C (span size a.index) b.current.curr_buf bytes upto in
      let start : b.zero_pos.curr_buf ≤ length C = omega (arith, total, v.held, v.used) in
      (
        nodes,
        record {
          runs = ap (λ t. put_bytes size t bytes b.current) (chain_lem b b.current a) ∙ run;
          sized = rw before (
              All-append (λ n. length n ≡ size) (take a.index b.blocks) nodes
                (All-take (λ n. length n ≡ size) a.index b.blocks v.sized) s);
          count = rw before (
              omega (
                arith,
                length-append (take a.index b.blocks) nodes,
                length-take a.index b.blocks,
                count,
                length-drop a.index b.blocks,
                le,
              ));
          holds = rw before (
              ap (λ t. drop b.zero_pos.curr_buf t) (joined ∙ ap (λ k. splice C k bytes) here)
              ∙ drop-splice C b.zero_pos.curr_buf b.current.position bytes start);
        },
      )

  -- The chain that `put` leaves.
  pub stored-IsValid :
      b.limit.invalid ≡ true
      → (q : Pos) → Reached b b.current (length bytes) q
      → (nodes : List (List ℕ)) → Puts q nodes
      → IsValid (stored b nodes q (length bytes))
  stored-IsValid e q r nodes w = record {
    paged = v.paged;
    sized = w.sized;
    held = v.held ∙ ap (λ k. span b.block_size k) (sym w.count);
    small = v.small;
    used = v.used;
    zero_at = same b.zero_pos v.zero_at;
    zero_first = v.zero_first;
    zero_start = v.zero_start;
    zero_valid = v.zero_valid;
    current_at = same (moved q (length bytes)) r.stands;
    current_valid = r.invalid ∙ v.current_valid;
    current_in = omega (arith, r.position, h);
    limit_at = λ i. absurd (true-ne-false (sym e ∙ i));
    limit_in = λ i. absurd (true-ne-false (sym e ∙ i));
    mark_at = λ i. same b.mark (v.mark_at i);
    mark_in = v.mark_in;
    mark_before = λ i j. absurd (true-ne-false (sym e ∙ j));
  }
    where
      same : (p : Pos) → Stands b p → Stands (stored b nodes q (length bytes)) p
      same p a = subst (λ k. At b.block_size b.first k b.zero_pos.curr_buf p) (sym w.count) a

  pub stored-view :
      (q : Pos)
      → Reached b b.current (length bytes) q
      → (nodes : List (List ℕ)) → Puts q nodes
      → take (moved q (length bytes)).position (content (stored b nodes q (length bytes)))
        ≡ take b.current.position (content b) ++ bytes
  stored-view q r nodes w =
      let pos = b.current.position in
      let kept : length (take pos (content b)) ≡ pos =
        omega (arith, length-take pos (content b), length-content b v, v.current_in) in
      ap₂ (λ k t. take k t) r.position w.holds
      ∙ stored_view (λ k. none) (content b) bytes (take pos (content b)) pos refl kept

module _ (alloc : ℕ → Option (List ℕ)) where
  -- What `put` does to a chain that is written.
  pub record Stored (bytes w : List ℕ) (r : Bool × LinkedBuffer) : Type 0 where
    pub valid : IsValid r.1
    pub stored : r.0 ≡ true → view r.1 ≡ written (w ++ bytes)
    pub refused : r.0 ≡ false → (view r.1 ≡ written w) × (alloc (length r.1.blocks) ≡ none)

  put_refuses :
      (b b' : LinkedBuffer) (bytes : List ℕ)
      → b.limit.invalid ≡ true
      → room alloc b (length bytes) ≡ some (false, b')
      → put alloc b bytes ≡ some (false, b')
  unfolding put
  put_refuses b b' bytes e run =
      let go : (not b.limit.invalid) ≡ false = rw e refl in rw (go, run) refl

  pub put_grants :
      (b b' : LinkedBuffer) (bytes : List ℕ) (nodes : List (List ℕ)) (q : Pos)
      → b.limit.invalid ≡ true
      → room alloc b (length bytes) ≡ some (true, b')
      → put_bytes b'.block_size (chain b' b'.current) bytes b'.current ≡ some (nodes, q)
      → put alloc b bytes ≡ some (true, stored b' nodes q (length bytes))
  unfolding put
  put_grants b b' bytes nodes q e run puts =
      let go : (not b.limit.invalid) ≡ false = rw e refl in rw (go, run, puts) refl

  -- More blocks leave what is written.
  pub extend_content :
      (b : LinkedBuffer) (extra : List (List ℕ)) (capacity usable : ℕ)
      → IsValid b
      → take b.current.position (content (extend b extra capacity usable))
        ≡ take b.current.position (content b)
  extend_content b extra capacity usable v =
      let C = concat b.blocks in
      let total = length-concat b.block_size b.blocks v.sized in
      ap (λ t. take b.current.position (drop b.zero_pos.curr_buf t)) (concat-append b.blocks extra)
      ∙ ap (λ t. take b.current.position t)
          (drop-append_left b.zero_pos.curr_buf C (concat extra)
            (omega (arith, total, v.held, v.used)))
      ∙ take-append_left b.current.position (content b) (concat extra)
          (omega (arith, length-content b v, v.current_in))

  -- On a valid chain that is written, where new blocks have the size of the chain's and the sum of
  -- position, length, two blocks and one is a 32-bit number, `put` does not fault and leaves a
  -- valid chain: the bytes are appended to those written before, over as many blocks as they need,
  -- unless a block could not be had, and then the same is written as before.
  pub put-Stored :
      (b : LinkedBuffer) (bytes w : List ℕ)
      → Nodes alloc b.block_size
      → IsValid b
      → view b ≡ written w
      → b.current.position + length bytes + 1 + (b.block_size + b.block_size) < 2 ^ 32
      → (r : Bool × LinkedBuffer) × (put alloc b bytes ≡ some r) × Stored bytes w r
  put-Stored b bytes w nodes v f small = elim (Bool-cases b.limit.invalid) [
    | inr e ↦ absurd (other (sym (seen_unread b e) ∙ f))
    | inl e ↦
        let same : take b.current.position (content b) ≡ w =
          ground (arith, sym (seen_written b e) ∙ f) in
        let g = room-Grown alloc b (length bytes) nodes v small in finish e same g
  ]
    where
      other : {x : List ℕ} → unread x ≡ written w → ⊥
      other p = absurd cc

      finish :
          b.limit.invalid ≡ true
          → take b.current.position (content b) ≡ w
          → Grown alloc b (b.current.position + length bytes + 1) (room alloc b (length bytes))
          → (r : Bool × LinkedBuffer) × (put alloc b bytes ≡ some r) × Stored bytes w r
      finish e same g =
          let b' = extend b g.extra g.capacity g.usable in
          let kept = extend_content b g.extra g.capacity g.usable v ∙ same in
          elim (Bool-cases g.ok) [
            | inr k ↦ (
              (false, b'),
              put_refuses b b' bytes e (g.runs ∙ ap (λ t. some (t, b')) k),
              record {
                valid = g.valid;
                stored = λ q. absurd cc;
                refused = λ q. (seen_written b' e ∙ ap written kept, (g.refused k).0);
              },
            )
            | inl k ↦
                let inside : b'.current.position + length bytes < b'.usable =
                  omega (arith, g.enough k) in
                let (q, r) = reach b' b'.current (length bytes) g.valid g.valid.current_at inside in
                let (blocks, p) = puts b' bytes g.valid inside q r in
                let b'' = stored b' blocks q (length bytes) in
                (
                  (true, b''),
                  put_grants b b' bytes blocks q e (g.runs ∙ ap (λ t. some (t, b')) k) p.runs,
                  record {
                    valid = stored-IsValid b' bytes g.valid inside e q r blocks p;
                    stored = λ z.
                        seen_written b'' e
                        ∙ ap written (
                            stored-view b' bytes g.valid inside q r blocks p
                            ∙ ap (λ t. t ++ bytes) kept);
                    refused = λ z. absurd cc;
                  },
                )
          ]
