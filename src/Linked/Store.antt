-- ===== src/Linked/Store.antt =====
-- `reserve` and `put` of libsax/sax/net/linked_buffer.h.
use xlibsax.Prelude.{
  ℕ, zero, suc, ◌+◌, ◌^◌, ◌≤◌, ◌<◌, ◌≡◌, refl, sym, ap, ◌∙◌, inl, inr, Bool, true, false, Option,
  none, some, List, [], ◌∷◌, ◌++◌, append-nil, append_assoc, arith, length, length-append,
  All-append, run, ltb, Bool-cases, Option-cases, add32,
}
use mathlib.Core.Path.{subst}
use xlibsax.Linked.{Pos, LinkedBuffer, reserve_loop, reserve, room}
use xlibsax.Linked.Chain.{span}
use xlibsax.Linked.Valid.{At, IsValid}

-- What `alloc_node` promises: a block of the size of the chain's blocks.
abbrev pub Nodes : (ℕ → Option (List ℕ)) → ℕ → Type 0
Nodes alloc size = (k : ℕ) (node : List ℕ) → alloc k ≡ some node → length node ≡ size

-- A chain with more blocks.
abbrev pub extend : LinkedBuffer → List (List ℕ) → ℕ → ℕ → LinkedBuffer
extend b extra capacity usable = record b {
  blocks = b.blocks ++ extra;
  capacity = capacity;
  usable = usable;
}

At-le :
    {size first count start : ℕ} (count' : ℕ) (p : Pos)
    → count ≤ count'
    → At size first count start p
    → At size first count' start p
At-le count' p h a = record {
  index = a.index;
  named = a.named;
  inside = omega (arith, a.inside, h);
  offset = a.offset;
  whole = a.whole;
}

extend-IsValid :
    (b : LinkedBuffer) (node : List ℕ)
    → IsValid b
    → length node ≡ b.block_size
    → b.capacity + b.block_size < 2 ^ 32
    → IsValid (extend b (node ∷ []) (add32 b.capacity b.block_size) (add32 b.usable b.block_size))
extend-IsValid b node v len small =
    let count = length-append b.blocks (node ∷ []) in
    let more : length b.blocks ≤ length (b.blocks ++ (node ∷ [])) = omega (arith, count) in
    let wider : length (b.blocks ++ (node ∷ [])) ≡ suc (length b.blocks) = omega (arith, count) in
    let longer : span b.block_size (length (b.blocks ++ (node ∷ [])))
        ≡ span b.block_size (suc (length b.blocks)) =
      ap (λ k. span b.block_size k) wider in
    let fits : b.usable + b.block_size < 2 ^ 32 = omega (arith, v.used, small) in
    record {
      paged = v.paged;
      sized = All-append (λ n. length n ≡ b.block_size) b.blocks (node ∷ []) v.sized (len, tt);
      held = omega (arith, v.held, longer, small);
      small = omega arith;
      used = omega (arith, v.used, small, fits);
      zero_at = At-le (length (b.blocks ++ (node ∷ []))) b.zero_pos more v.zero_at;
      zero_first = v.zero_first;
      zero_start = v.zero_start;
      zero_valid = v.zero_valid;
      current_at = At-le (length (b.blocks ++ (node ∷ []))) b.current more v.current_at;
      current_valid = v.current_valid;
      current_in = omega (arith, v.current_in, fits);
      limit_at = λ e. At-le (length (b.blocks ++ (node ∷ []))) b.limit more (v.limit_at e);
      limit_in = λ e. ((v.limit_in e).0, omega (arith, (v.limit_in e).1, fits));
      mark_at = λ e. At-le (length (b.blocks ++ (node ∷ []))) b.mark more (v.mark_at e);
      mark_in = λ e. omega (arith, v.mark_in e, fits);
      mark_before = v.mark_before;
    }

module _ (alloc : ℕ → Option (List ℕ)) where
  -- The chain has more blocks: room for `size` bytes, or as many as could be had.
  pub record Grown (b : LinkedBuffer) (size : ℕ) (r : Option (Bool × LinkedBuffer)) : Type 0 where
    pub ok : Bool
    pub extra : List (List ℕ)
    pub capacity : ℕ
    pub usable : ℕ
    pub runs : r ≡ some (ok, extend b extra capacity usable)
    pub valid : IsValid (extend b extra capacity usable)
    pub enough : ok ≡ true → size ≤ usable
    pub refused : ok ≡ false → (alloc (length (b.blocks ++ extra)) ≡ none) × (usable < size)

  extend-nil : (b : LinkedBuffer) → extend b [] b.capacity b.usable ≡ b
  extend-nil b =
      ap (λ t. extend (record b { blocks = t }) [] b.capacity b.usable) refl
      ∙ ap (λ t. record b { blocks = t }) (append-nil b.blocks)

  stay :
      (b : LinkedBuffer) (size : ℕ) (r : Option (Bool × LinkedBuffer)) (ok : Bool)
      → r ≡ some (ok, b)
      → IsValid b
      → (ok ≡ true → size ≤ b.usable)
      → (ok ≡ false → (alloc (length b.blocks) ≡ none) × (b.usable < size))
      → Grown b size r
  stay b size r ok run v enough refused = record {
    ok = ok;
    extra = [];
    capacity = b.capacity;
    usable = b.usable;
    runs = run ∙ ap (λ t. some (ok, t)) (sym (extend-nil b));
    valid = subst IsValid (sym (extend-nil b)) v;
    enough = enough;
    refused =
        λ q. (ap (λ t. alloc (length t)) (append-nil b.blocks) ∙ (refused q).0, (refused q).1);
  }

  wider : LinkedBuffer → List ℕ → LinkedBuffer
  wider b node = extend b (node ∷ []) (add32 b.capacity b.block_size) (add32 b.usable b.block_size)

  grow :
      (b : LinkedBuffer) (node : List ℕ) (size : ℕ) (r : Option (Bool × LinkedBuffer))
      → Grown (wider b node) size r
      → Grown b size r
  unfolding wider
  grow b node size r g =
      let joined = append_assoc b.blocks (node ∷ []) g.extra in
      let same : extend (wider b node) g.extra g.capacity g.usable
          ≡ extend b (node ∷ g.extra) g.capacity g.usable =
        ap (λ t. record b { blocks = t; capacity = g.capacity; usable = g.usable }) joined in
      record {
        ok = g.ok;
        extra = node ∷ g.extra;
        capacity = g.capacity;
        usable = g.usable;
        runs = g.runs ∙ ap (λ t. some (g.ok, t)) same;
        valid = subst IsValid same g.valid;
        enough = g.enough;
        refused = λ q. (ap (λ t. alloc (length t)) (sym joined) ∙ (g.refused q).0, (g.refused q).1);
      }

  -- With a turn for each byte that is missing, the loop ends.
  reserve_loop-Grown :
      (size fuel : ℕ) (b : LinkedBuffer)
      → Nodes alloc b.block_size
      → IsValid b
      → size + (b.block_size + b.block_size) < 2 ^ 32
      → 0 < fuel
      → size < fuel + b.usable
      → Grown b size (reserve_loop alloc size fuel b)
  unfolding reserve_loop wider
  reserve_loop-Grown size zero b nodes v small pos h = absurd (omega arith)
  reserve_loop-Grown size (suc fuel) b nodes v small pos h = elim (Bool-cases (ltb b.usable size)) [
    | inr e ↦
        stay b size (reserve_loop alloc size (suc fuel) b) true (rw (reserve_loop, e) refl) v
          (λ q. ground (arith, e)) (λ q. absurd cc)
    | inl e ↦ elim (Option-cases (alloc (length b.blocks))) [
      | inl a ↦
          stay b size (reserve_loop alloc size (suc fuel) b) false (rw (reserve_loop, e, a) refl) v
            (λ q. absurd cc) (λ q. (a, ground (arith, e)))
      | inr (node, a) ↦
          let less : b.usable < size = ground (arith, e) in
          let start : b.zero_pos.curr_buf ≤ b.block_size = omega (arith, v.zero_at.whole) in
          let small' : b.capacity + b.block_size < 2 ^ 32 =
            omega (arith, v.used, less, start, small) in
          let fits : add32 b.usable b.block_size ≡ b.usable + b.block_size =
            omega (arith, v.used, small') in
          let run : reserve_loop alloc size (suc fuel) b
              ≡ reserve_loop alloc size fuel (wider b node) =
            rw (reserve_loop, e, a) refl in
          grow b node size (reserve_loop alloc size (suc fuel) b) (
            subst (λ r. Grown (wider b node) size r) (sym run)
              (reserve_loop-Grown size fuel (wider b node) nodes
                (extend-IsValid b node v (nodes (length b.blocks) node a) small') small
                (omega (arith, less, h)) (omega (arith, h, fits, v.paged))))
    ]
  ]

  -- `skip` and `put` look for room for `n` bytes and one more.
  pub room-Grown :
      (b : LinkedBuffer) (n : ℕ)
      → Nodes alloc b.block_size
      → IsValid b
      → b.current.position + n + 1 + (b.block_size + b.block_size) < 2 ^ 32
      → Grown b (b.current.position + n + 1) (room alloc b n)
  unfolding room reserve
  room-Grown b n nodes v small =
      let size = b.current.position + n + 1 in
      let end : add32 b.current.position n ≡ b.current.position + n = omega (arith, small) in
      let one : add32 (b.current.position + n) 1 ≡ size = omega (arith, small) in
      elim (Bool-cases (ltb b.usable size)) [
        | inl e ↦
            subst (λ r. Grown b size r) (sym (rw (end, one, e, reserve) refl))
              (reserve_loop-Grown size (suc size) b nodes v small (omega arith) (omega arith))
        | inr e ↦
            stay b size (room alloc b n) true (rw (end, one, e) refl) v (λ q. ground (arith, e))
              (λ q. absurd cc)
      ]
