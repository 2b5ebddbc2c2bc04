-- ===== src/Linked/Compact.antt =====
-- `compact` of libsax/sax/net/linked_buffer.h.
use xlibsax.Prelude.{
  ℕ, zero, suc, ◌+◌, ◌-◌, ◌^◌, ◌≤◌, ◌<◌, ◌≡◌, refl, sym, ap, ap₂, ◌∙◌, inl, inr, Bool, true, false,
  Option, some, List, [], ◌∷◌, arith, length, take, drop, length-drop, ltb, ◌==◌, if◌then◌else◌,
  Bool-cases, sub32,
}
use mathlib.Core.Path.{subst}
use xlibsax.Buffer.Valid.{Frame, written, unread}
use xlibsax.Linked.{
  Pos, LinkedBuffer, at_start, free_until, new_zero, new_current, compact_read, compact,
}
use xlibsax.Linked.Chain.{span, span_lower, true-ne-false}
use xlibsax.Linked.Valid.{content, view, At, IsValid}
use xlibsax.Linked.Reach.{span_add, Sized-drop, content_at}
use xlibsax.Linked.Transfer.{seen_written, seen_unread}
use xlibsax.Linked.Modes.{start-At}

-- The loop drops the blocks before the one it looks for.
free_until_lem :
    (size k : ℕ) (nodes : List (List ℕ)) (block first capacity : ℕ)
    → k < length nodes
    → block ≡ first + k
    → capacity ≡ span size (length nodes)
    → capacity < 2 ^ 32
    → free_until block size nodes first capacity
      ≡ some (block, drop k nodes, span size (length nodes - k))
unfolding free_until
free_until_lem size k [] block first capacity h e c small = absurd (omega arith)
free_until_lem size zero (node ∷ nodes) block first capacity h e c small =
    let found : (first == block) ≡ true = ground (arith, e) in
    let same : first ≡ block = omega (arith, e) in
    let all : length (node ∷ nodes) ≡ length (node ∷ nodes) - 0 = omega arith in
    rw found (ap₂ (λ x y. some (x, node ∷ nodes, y)) same (c ∙ ap (λ k. span size k) all))
free_until_lem size (suc k) (node ∷ nodes) block first capacity h e c small =
    let other : (first == block) ≡ false = ground (arith, e) in
    let less : suc (length nodes) - suc k ≡ length nodes - k = omega arith in
    let gone : sub32 capacity size ≡ span size (length nodes) = omega (arith, c, small) in
    rw (other, less)
      (free_until_lem size k nodes block (suc first) (sub32 capacity size) (omega (arith, h))
        (omega (arith, e)) gone (omega (arith, gone, c, small)))

-- What `compact` does, by what the chain holds.
abbrev pub Compacts : LinkedBuffer → Frame → Option (Bool × LinkedBuffer) → Type 0
Compacts b (written w) r = r ≡ some (false, b)
Compacts b (unread w) r =
    (b' : LinkedBuffer) × (r ≡ some (true, b')) × (view b' ≡ written w) × IsValid b'

-- The chain from a block on, with its new start and position.
cut : LinkedBuffer → ℕ → Pos → Pos → LinkedBuffer
cut b k zero' current' = record b {
  zero_pos = zero';
  current = current';
  first = zero'.block;
  blocks = drop k b.blocks;
  capacity = span b.block_size (length b.blocks - k);
  usable = span b.block_size (length b.blocks - k) - zero'.curr_buf;
  mark = record b.mark { invalid = true };
  limit = record b.limit { invalid = true };
}

module _ (b : LinkedBuffer) (v : IsValid b) (e : b.limit.invalid ≡ false) where
  abbrev pub k : ℕ
  k = v.current_at.index

  cut-IsValid :
      (zero' current' : Pos)
      → At b.block_size zero'.block (length (drop k b.blocks)) zero'.curr_buf zero'
      → zero'.position ≡ 0
      → zero'.invalid ≡ false
      → At b.block_size zero'.block (length (drop k b.blocks)) zero'.curr_buf current'
      → current'.invalid ≡ false
      → current'.position + zero'.curr_buf < span b.block_size (length b.blocks - k)
      → IsValid (cut b k zero' current')
  unfolding cut
  cut-IsValid zero' current' za zs zv ca cv ci =
      let count : length (drop k b.blocks) ≡ length b.blocks - k = length-drop k b.blocks in
      let parts = span_add b.block_size k (length b.blocks - k) in
      let sum : k + (length b.blocks - k) ≡ length b.blocks = omega (arith, v.current_at.inside) in
      let all : span b.block_size (k + (length b.blocks - k))
          ≡ span b.block_size (length b.blocks) =
        ap (λ j. span b.block_size j) sum in
      record {
        paged = v.paged;
        sized = Sized-drop b.block_size k b.blocks v.sized;
        held = ap (λ j. span b.block_size j) (sym count);
        small = omega (arith, parts, all, v.held, v.small);
        used = omega (arith, ci);
        zero_at = za;
        zero_first = refl;
        zero_start = zs;
        zero_valid = zv;
        current_at = ca;
        current_valid = cv;
        current_in = omega (arith, ci);
        limit_at = λ i. absurd (true-ne-false i);
        limit_in = λ i. absurd (true-ne-false i);
        mark_at = λ i. absurd (true-ne-false i);
        mark_in = λ i. absurd (true-ne-false i);
        mark_before = λ i. absurd (true-ne-false i);
      }

  cut_room : span b.block_size (length b.blocks - k) + span b.block_size k ≡ b.capacity
  cut_room =
      let parts = span_add b.block_size k (length b.blocks - k) in
      let sum : k + (length b.blocks - k) ≡ length b.blocks = omega (arith, v.current_at.inside) in
      let all : span b.block_size (k + (length b.blocks - k))
          ≡ span b.block_size (length b.blocks) =
        ap (λ j. span b.block_size j) sum in
      omega (arith, parts, all, v.held)

  -- `compact` drops the blocks before the current one.
  compact-cut :
      (new_zero b).block ≡ b.current.block
      → (new_zero b).curr_buf + (new_zero b).remaining ≡ b.block_size
      → (new_zero b).curr_buf ≤ span b.block_size (length b.blocks - k)
      → compact b ≡ some (true, cut b k (new_zero b) (new_current b))
  unfolding compact cut compact_read
  compact-cut zb zw zc =
      let found =
        free_until_lem b.block_size k b.blocks (new_zero b).block b.first b.capacity
          v.current_at.inside (zb ∙ v.current_at.named) v.held v.small in
      let left : sub32 (span b.block_size (length b.blocks - k))
            (sub32 b.block_size (new_zero b).remaining)
          ≡ span b.block_size (length b.blocks - k) - (new_zero b).curr_buf =
        omega (arith, zw, zc, cut_room, v.small, size_small) in
      ap (λ t. if t then some (false, b) else compact_read b) e
      ∙ rw (compact_read, found)
          (ap (λ u. some (true, record (cut b k (new_zero b) (new_current b)) { usable = u })) left)
    where
      size_small : b.block_size < 2 ^ 32
      size_small = omega (
        arith,
        span_lower b.block_size 0 (length b.blocks) (omega (arith, v.current_at.inside)),
        v.held,
        v.small,
      )

  compact-runs :
      (zero' current' : Pos)
      → new_zero b ≡ zero'
      → new_current b ≡ current'
      → zero'.block ≡ b.current.block
      → zero'.curr_buf + zero'.remaining ≡ b.block_size
      → zero'.curr_buf ≤ span b.block_size (length b.blocks - k)
      → compact b ≡ some (true, cut b k zero' current')
  compact-runs zero' current' ze ce zb zw zc =
      compact-cut (ap (λ (z : Pos). z.block) ze ∙ zb)
        (ap (λ (z : Pos). z.curr_buf + z.remaining) ze ∙ zw)
        (subst (λ (z : Pos). z.curr_buf ≤ span b.block_size (length b.blocks - k)) (sym ze) zc)
      ∙ ap₂ (λ x y. some (true, cut b k x y)) ze ce

  left : List ℕ
  left = take (b.limit.position - b.current.position) (drop b.current.position (content b))

  some_block : 0 < length (drop k b.blocks)
  some_block = omega (arith, length-drop k b.blocks, v.current_at.inside)

  -- Where all was read.
  compact_empty :
      (b.limit.position == b.current.position) ≡ true → Compacts b (unread left) (compact b)
  unfolding new_zero new_current left cut
  compact_empty q =
      let z = at_start b.current.block b.block_size in
      let none_left : b.limit.position - b.current.position ≡ 0 = ground (arith, q) in
      let one : b.block_size ≤ span b.block_size (length b.blocks - k) = omega (
        arith,
        span_lower b.block_size 0 (length b.blocks - k) (omega (arith, v.current_at.inside)),
      ) in
      (
        cut b k z z,
        compact-runs z z (rw q refl) (rw q refl) refl (omega arith) (omega arith),
        seen_written (cut b k z z) refl
            ∙ ap (λ j. written (take j (drop b.current.position (content b)))) (sym none_left),
        cut-IsValid z z
            (start-At b.block_size b.current.block (length (drop k b.blocks)) some_block) refl refl
            (start-At b.block_size b.current.block (length (drop k b.blocks)) some_block) refl
            (omega (arith, one, v.paged)),
      )

  -- The limit is in no block before the current one.
  pub limit_behind : b.current.position < b.limit.position → k ≤ (v.limit_at e).index
  limit_behind lt = elim (Bool-cases (ltb (v.limit_at e).index k)) [
    | inr n ↦ ground (arith, n)
    | inl y ↦
        let l = v.limit_at e in
        let before = span_lower b.block_size l.index k (ground (arith, y)) in
        absurd (omega (arith, before, l.offset, l.whole, v.current_at.offset, lt))
  ]

  -- Where some was not read.
  compact_some :
      (b.limit.position == b.current.position) ≡ false → Compacts b (unread left) (compact b)
  unfolding new_zero new_current left cut
  compact_some q =
      let (lo, hi) = v.limit_in e in
      let lt : b.current.position < b.limit.position = ground (arith, q, lo) in
      let l = v.limit_at e in
      let c = v.current_at in
      let behind = limit_behind lt in
      let z = record b.current { position = 0; invalid = false } in
      let m = record b.limit {
        position = b.limit.position - b.current.position;
        invalid = false;
      } in
      let diff : sub32 b.limit.position b.current.position ≡ b.limit.position - b.current.position =
        omega (arith, lo, hi, v.small, v.used) in
      let parts = span_add b.block_size k (l.index - k) in
      let sum : k + (l.index - k) ≡ l.index = omega (arith, behind) in
      let all : span b.block_size (k + (l.index - k)) ≡ span b.block_size l.index =
        ap (λ j. span b.block_size j) sum in
      let count = length-drop k b.blocks in
      let end : b.limit.position - b.current.position + b.current.curr_buf
          < span b.block_size (length b.blocks - k) =
        omega (arith, hi, lo, v.used, cut_room, c.offset) in
      let z_at : At b.block_size b.current.block (length (drop k b.blocks)) b.current.curr_buf z =
        record {
          index = 0;
          named = omega arith;
          inside = some_block;
          offset = refl;
          whole = c.whole;
        } in
      let m_at : At b.block_size b.current.block (length (drop k b.blocks)) b.current.curr_buf m =
        record {
          index = l.index - k;
          named = omega (arith, l.named, c.named, behind);
          inside = omega (arith, l.inside, behind, count);
          offset = omega (arith, l.offset, c.offset, parts, all, lo);
          whole = l.whole;
        } in
      (
        cut b k z m,
        compact-runs z m (rw q refl) (rw (q, diff) refl) refl c.whole (omega (arith, end)),
        seen_written (cut b k z m) refl
            ∙ ap (λ t. written (take (b.limit.position - b.current.position) t))
                (sym (content_at b b.current v.sized c)),
        cut-IsValid z m z_at refl refl m_at refl end,
      )

-- `compact` of a valid chain that is read drops the blocks and the bytes that were read and goes on writing
-- after the others; of a chain that is written it fails and changes nothing.
pub compact-Compacts : (b : LinkedBuffer) → IsValid b → Compacts b (view b) (compact b)
unfolding compact left
compact-Compacts b v = elim (Bool-cases b.limit.invalid) [
  | inl e ↦
      subst (λ f. Compacts b f (compact b)) (sym (seen_written b e))
        (ap (λ t. if t then some (false, b) else compact_read b) e)
  | inr e ↦
      subst (λ f. Compacts b f (compact b)) (sym (seen_unread b e))
        (elim (Bool-cases (b.limit.position == b.current.position)) [
          | inl q ↦ compact_empty b v e q
          | inr q ↦ compact_some b v e q
        ])
]
