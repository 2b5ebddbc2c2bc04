-- ===== src/Linked/Reach.antt =====
-- Moves in a valid chain of blocks of libsax/sax/net/linked_buffer.h.
use xlibsax.Prelude.{
  ℕ, zero, suc, ◌+◌, ◌-◌, ◌≤◌, ◌<◌, ◌≡◌, sym, ap, ◌∙◌, false, some, List, arith, length, take, drop,
  length-drop, drop-drop, run, All-drop, ltb,
}
use xlibsax.Linked.{Pos, LinkedBuffer, chain, moved, skip_bytes, get_bytes}
use xlibsax.Linked.Chain.{concat, span, Sized, concat-drop}
use xlibsax.Linked.Valid.{content, Stands, IsValid}
use xlibsax.Linked.Move.{Moves, skip_bytes_lem, get_bytes_lem}

pub span_add : (size i j : ℕ) → span size (i + j) ≡ span size i + span size j
span_add size zero j =
    let none_more : zero + j ≡ j = omega arith in ap (λ k. span size k) none_more ∙ omega arith
span_add size (suc i) j =
    let one : suc i + j ≡ suc (i + j) = omega arith in
    ap (λ k. span size k) one ∙ omega (arith, span_add size i j)

pub Sized-drop : (size k : ℕ) (nodes : List (List ℕ)) → Sized size nodes → Sized size (drop k nodes)
Sized-drop size k nodes s = All-drop (λ node. length node ≡ size) k nodes s

-- The blocks from a position on.
pub chain_lem : (b : LinkedBuffer) (p : Pos) (a : Stands b p) → chain b p ≡ drop a.index b.blocks
unfolding chain
chain_lem b p a =
    let order : ltb p.block b.first ≡ false = ground (arith, a.named) in
    rw order (ap (λ k. drop k b.blocks) (omega (arith, a.named)))

-- The bytes from a position on are those of its block from its byte on, and those of the next blocks.
pub content_at :
    (b : LinkedBuffer) (p : Pos)
    → Sized b.block_size b.blocks
    → (a : Stands b p)
    → drop p.position (content b) ≡ drop p.curr_buf (concat (drop a.index b.blocks))
content_at b p s a =
    let C = concat b.blocks in
    let le : a.index ≤ length b.blocks = omega (arith, a.inside) in
    drop-drop b.zero_pos.curr_buf p.position C
    ∙ ap (λ k. drop k C) (omega (arith, a.offset))
    ∙ sym (
        ap (λ t. drop p.curr_buf t) (concat-drop b.block_size a.index b.blocks s le)
        ∙ drop-drop (span b.block_size a.index) p.curr_buf C)

-- What a move by `n` bytes from a position leaves.
pub record Reached (b : LinkedBuffer) (p : Pos) (n : ℕ) (q : Pos) : Type 0 where
  pub skips : skip_bytes b.block_size (chain b p) n p ≡ some q
  pub gets : get_bytes b.block_size (chain b p) n p ≡ some (take n (drop p.position (content b)), q)
  pub stands : Stands b (moved q n)
  pub position : (moved q n).position ≡ p.position + n
  pub invalid : (moved q n).invalid ≡ p.invalid

module _ (b : LinkedBuffer) (p : Pos) (n : ℕ) (v : IsValid b) (a : Stands b p)
    (h : p.position + n < b.usable) where
  rest_room : p.curr_buf + n < span b.block_size (length (drop a.index b.blocks))
  rest_room =
      let parts = span_add b.block_size a.index (length b.blocks - a.index) in
      let sum : a.index + (length b.blocks - a.index) ≡ length b.blocks = omega (arith, a.inside) in
      let all : span b.block_size (a.index + (length b.blocks - a.index))
          ≡ span b.block_size (length b.blocks) =
        ap (λ k. span b.block_size k) sum in
      let left : span b.block_size (length (drop a.index b.blocks))
          ≡ span b.block_size (length b.blocks - a.index) =
        ap (λ k. span b.block_size k) (length-drop a.index b.blocks) in
      omega (arith, parts, all, left, v.held, v.used, a.offset, h)

  moved-Stands :
      (q : Pos) → Moves b.block_size (length (drop a.index b.blocks)) n p q → Stands b (moved q n)
  moved-Stands q m = record {
    index = a.index + m.step;
    named = omega (arith, a.named, m.block);
    inside = omega (arith, m.few, length-drop a.index b.blocks);
    offset = omega (
      arith,
      m.offset,
      m.position,
      a.offset,
      span_add b.block_size a.index m.step,
      h,
      v.small,
      v.used,
    );
    whole = m.whole;
  }

  pub reach : (q : Pos) × Reached b p n q
  reach =
      let nodes = drop a.index b.blocks in
      let (q, (run, m)) = skip_bytes_lem b.block_size p a.whole nodes n rest_room in
      let gets =
        get_bytes_lem b.block_size p a.whole nodes n q
          (Sized-drop b.block_size a.index b.blocks v.sized) run in
      (
        q,
        record {
          skips = rw (chain_lem b p a) run;
          gets =
              rw (chain_lem b p a)
                (gets ∙ ap (λ t. some (take n t, q)) (sym (content_at b p v.sized a)));
          stands = moved-Stands q m;
          position = omega (arith, m.position, h, v.small, v.used);
          invalid = m.invalid;
        },
      )
