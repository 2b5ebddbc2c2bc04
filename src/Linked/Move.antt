-- ===== src/Linked/Move.antt =====
-- A whole move of `skip`, `get` or `put` of libsax/sax/net/linked_buffer.h, from the current block on.
use xlibsax.Prelude.{
  ℕ, suc, ◌+◌, ◌-◌, ◌≤◌, ◌<◌, ◌≡◌, refl, sym, ap, ap₂, ◌∙◌, inl, inr, true, false, some, List, [],
  ◌∷◌, ◌++◌, arith, length, take, drop, length-take, length-drop, take-append-drop, take_all, run,
  ltb, Bool-cases, some-eq,
}
use xlibsax.Linked.{Pos, within, skip_loop, skip_bytes, get_bytes, put_bytes}
use xlibsax.Linked.Chain.{
  concat, span, Sized, take-append_left, take-append_right, drop-append_left, splice, length-splice,
  splice-append, splice-over,
}
use xlibsax.Linked.Walk.{skip_loop_lem, get_loop_lem, put_loop_lem, read_in_lem, write_in_lem}

-- `q` is `n` bytes behind `p`.
pub record Moves (size count n : ℕ) (p q : Pos) : Type 0 where
  pub step : ℕ
  pub few : step < count
  pub block : q.block ≡ p.block + step
  pub offset : span size step + q.curr_buf ≡ p.curr_buf + n
  pub whole : q.curr_buf + q.remaining ≡ size
  pub position : q.position ≡ p.position
  pub invalid : q.invalid ≡ p.invalid

module _ (size : ℕ) (p : Pos) (in_block : p.curr_buf + p.remaining ≡ size) where
  -- While there is a byte more, a move ends in the chain.
  pub skip_bytes_lem :
      (nodes : List (List ℕ)) (n : ℕ)
      → p.curr_buf + n < span size (length nodes)
      → (q : Pos) × ((skip_bytes size nodes n p ≡ some q) × Moves size (length nodes) n p q)
  unfolding skip_bytes
  skip_bytes_lem [] n h = absurd (omega arith)
  skip_bytes_lem (node ∷ nodes) n h = elim (Bool-cases (ltb n p.remaining)) [
    | inl e ↦ (
      within p n,
      (
        rw e refl,
        record {
          step = 0;
          few = omega arith;
          block = omega arith;
          offset = omega arith;
          whole = ground (arith, e, in_block);
          position = refl;
          invalid = refl;
        },
      ),
    )
    | inr e ↦
        let (q, (run, l)) =
          skip_loop_lem size nodes (n - p.remaining) p (ground (arith, h, e, in_block)) in
        (
          q,
          (
            rw e run,
            record {
              step = suc l.step;
              few = omega (arith, l.few);
              block = omega (arith, l.block);
              offset = ground (arith, l.offset, e, in_block);
              whole = l.whole;
              position = l.position;
              invalid = l.invalid;
            },
          ),
        )
  ]

  near :
      (node : List ℕ) (nodes : List (List ℕ)) (n : ℕ)
      → ltb n p.remaining ≡ true
      → skip_bytes size (node ∷ nodes) n p ≡ some (within p n)
  unfolding skip_bytes
  near node nodes n e = rw e refl

  far :
      (node : List ℕ) (nodes : List (List ℕ)) (n : ℕ)
      → ltb n p.remaining ≡ false
      → skip_bytes size (node ∷ nodes) n p ≡ skip_loop size nodes (n - p.remaining) p
  unfolding skip_bytes
  far node nodes n e = rw e refl

  -- `get` then has the bytes between.
  pub get_bytes_lem :
      (nodes : List (List ℕ)) (n : ℕ) (q : Pos)
      → Sized size nodes
      → skip_bytes size nodes n p ≡ some q
      → get_bytes size nodes n p ≡ some (take n (drop p.curr_buf (concat nodes)), q)
  unfolding skip_bytes get_bytes
  get_bytes_lem [] n q s run = absurd cc
  get_bytes_lem (node ∷ nodes) n q (len, s) run =
      let border = drop-append_left p.curr_buf node (concat nodes) (omega (arith, len, in_block)) in
      let held = length-drop p.curr_buf node in
      elim (Bool-cases (ltb n p.remaining)) [
        | inl e ↦
            let fits : n ≤ length (drop p.curr_buf node) = ground (arith, e, in_block, len, held) in
            let same : take n (drop p.curr_buf node)
                ≡ take n (drop p.curr_buf (node ++ concat nodes)) =
              sym (
                ap (λ t. take n t) border
                ∙ take-append_left n (drop p.curr_buf node) (concat nodes) fits) in
            rw (e, read_in_lem node p.curr_buf n (ground (arith, e, in_block, len)))
              (ap₂ (λ t r. some (t, r)) same (some-eq (sym (near node nodes n e) ∙ run)))
        | inr e ↦
            let looped =
              get_loop_lem size nodes (n - p.remaining) p q s (sym (far node nodes n e) ∙ run) in
            let rest : length (drop p.curr_buf node) ≡ p.remaining =
              omega (arith, held, len, in_block) in
            let all : take p.remaining (drop p.curr_buf node) ≡ drop p.curr_buf node =
              rw (sym rest) (take_all (drop p.curr_buf node)) in
            let same : drop p.curr_buf node ++ take (n - p.remaining) (concat nodes)
                ≡ take n (drop p.curr_buf (node ++ concat nodes)) =
              sym (
                ap (λ t. take n t) border
                ∙ take-append_right n (drop p.curr_buf node) (concat nodes)
                    (ground (arith, e, rest))
                ∙ ap (λ k. drop p.curr_buf node ++ take (n - k) (concat nodes)) rest) in
            rw
              (
                e,
                read_in_lem node p.curr_buf p.remaining (omega (arith, in_block, len)),
                looped,
                all,
              )
              (ap (λ t. some (t, q)) same)
      ]

  -- `put` then leaves blocks of the same sizes with the bytes between.
  pub put_bytes_lem :
      (nodes : List (List ℕ)) (bytes : List ℕ) (q : Pos)
      → Sized size nodes
      → skip_bytes size nodes (length bytes) p ≡ some q
      → (nodes' : List (List ℕ)) × ((put_bytes size nodes bytes p ≡ some (nodes', q))
          × Sized size nodes'
          × (length nodes' ≡ length nodes)
          × (concat nodes' ≡ splice (concat nodes) p.curr_buf bytes))
  unfolding skip_bytes put_bytes
  put_bytes_lem [] bytes q s run = absurd cc
  put_bytes_lem (node ∷ nodes) bytes q (len, s) run =
      elim (Bool-cases (ltb (length bytes) p.remaining)) [
        | inl e ↦
            let fits : p.curr_buf + length bytes ≤ length node = ground (arith, e, in_block, len) in
            let node' = splice node p.curr_buf bytes in
            (
              node' ∷ nodes,
              (
                rw (e, write_in_lem node p.curr_buf bytes fits)
                    (ap (λ r. some (node' ∷ nodes, r))
                      (some-eq (sym (near node nodes (length bytes) e) ∙ run))),
                (length-splice node p.curr_buf bytes fits ∙ len, s),
                refl,
                splice-append node (concat nodes) p.curr_buf bytes fits,
              ),
            )
        | inr e ↦
            let lent = length-drop p.remaining bytes in
            let part : length (take p.remaining bytes) ≡ p.remaining =
              ground (arith, length-take p.remaining bytes, e) in
            let fits : p.curr_buf + length (take p.remaining bytes) ≤ length node =
              omega (arith, part, in_block, len) in
            let rest_run : skip_loop size nodes (length (drop p.remaining bytes)) p ≡ some q =
              rw lent (sym (far node nodes (length bytes) e) ∙ run) in
            let (nodes', (stores, s', count, same)) =
              put_loop_lem size nodes (drop p.remaining bytes) p q s rest_run in
            let filled = splice node p.curr_buf (take p.remaining bytes) in
            (
              filled ∷ nodes',
              (
                rw (e, write_in_lem node p.curr_buf (take p.remaining bytes) fits, stores) refl,
                (length-splice node p.curr_buf (take p.remaining bytes) fits ∙ len, s'),
                ap suc count,
                ap (λ t. filled ++ t) same
                    ∙ splice-over node (concat nodes) p.curr_buf (take p.remaining bytes)
                        (drop p.remaining bytes) (omega (arith, part, in_block, len))
                    ∙ ap (λ t. splice (node ++ concat nodes) p.curr_buf t)
                        (take-append-drop p.remaining bytes),
              ),
            )
      ]
