-- ===== src/Linked/Modes.antt =====
-- The constructor, `mark`, `reset`, `rewind`, `clear` and `flip` of libsax/sax/net/linked_buffer.h.
use xlibsax.Prelude.{
  ℕ, ◌-◌, ◌^◌, ◌<◌, ◌≡◌, refl, sym, ap, ◌∙◌, inl, inr, Bool, true, false, not, some, List, [], ◌∷◌,
  arith, length, take, drop, if◌then◌else◌, Bool-cases,
}
use mathlib.Core.Path.{subst}
use xlibsax.Buffer.Valid.{Frame, written, unread}
use xlibsax.Linked.{Pos, LinkedBuffer, new, set_mark, reset, clear, rewind, flip, at_start}
use xlibsax.Linked.Chain.{span_lower, Sized, true-ne-false}
use xlibsax.Linked.Valid.{content, view, At, IsValid}
use xlibsax.Linked.Transfer.{seen_written, seen_unread}

-- The start of the first block.
pub start-At : (size first count : ℕ) → 0 < count → At size first count 0 (at_start first size)
start-At size first count h = record {
  index = 0;
  named = omega arith;
  inside = h;
  offset = refl;
  whole = omega arith;
}

-- A chain on one block, with nothing written.
abbrev fresh : ℕ → ℕ → List ℕ → Pos → Pos → LinkedBuffer
fresh size first node mark limit = record {
  current = at_start first size;
  zero_pos = at_start first size;
  mark = record mark { invalid = true };
  limit = record limit { invalid = true };
  block_size = size;
  capacity = size;
  usable = size;
  first = first;
  blocks = node ∷ [];
}

fresh-IsValid :
    (size first : ℕ) (node : List ℕ) (mark limit : Pos)
    → 0 < size
    → size < 2 ^ 32
    → length node ≡ size
    → IsValid (fresh size first node mark limit)
fresh-IsValid size first node mark limit pos small len = record {
  paged = pos;
  sized = (len, tt);
  held = omega arith;
  small = small;
  used = omega arith;
  zero_at = start-At size first 1 (omega arith);
  zero_first = refl;
  zero_start = refl;
  zero_valid = refl;
  current_at = start-At size first 1 (omega arith);
  current_valid = refl;
  current_in = pos;
  limit_at = λ e. absurd (true-ne-false e);
  limit_in = λ e. absurd (true-ne-false e);
  mark_at = λ e. absurd (true-ne-false e);
  mark_in = λ e. absurd (true-ne-false e);
  mark_before = λ e. absurd (true-ne-false e);
}

-- A new chain on a block of its size is valid, and nothing is written.
pub new_lem :
    (size : ℕ) (node : List ℕ)
    → 0 < size
    → size < 2 ^ 32
    → length node ≡ size
    → (b : LinkedBuffer) × ((new size (some node) ≡ some b) × IsValid b × (view b ≡ written []))
unfolding new view
new_lem size node pos small len =
    let p : Pos = record { position = 0; remaining = 0; block = 0; curr_buf = 0; invalid = true } in
    (fresh size 0 node p p, (refl, fresh-IsValid size 0 node p p pos small len, refl))

-- `clear` of a valid chain leaves a valid one with nothing written.
pub clear_lem : (b : LinkedBuffer) → IsValid b → IsValid (clear b) × (view (clear b) ≡ written [])
unfolding clear view
clear_lem b v = go b.blocks refl
  where
    go :
        (nodes : List (List ℕ))
        → b.blocks ≡ nodes
        → IsValid (clear b) × (view (clear b) ≡ written [])
    go [] e =
        let none_left : length b.blocks ≡ 0 = ap length e in
        absurd (omega (arith, none_left, v.zero_at.inside))
    go (node ∷ nodes) e =
        let one : take 1 b.blocks ≡ node ∷ [] = ap (λ t. take 1 t) e in
        let sized = subst (λ t. Sized b.block_size t) e v.sized in
        let size_small : b.block_size < 2 ^ 32 = omega (
          arith,
          span_lower b.block_size 0 (length b.blocks) (omega (arith, v.zero_at.inside)),
          v.held,
          v.small,
        ) in
        (
          subst
              (λ t.
                IsValid (record (fresh b.block_size b.first node b.mark b.limit) { blocks = t }))
              (sym one)
              (fresh-IsValid b.block_size b.first node b.mark b.limit v.paged size_small sized.0),
          refl,
        )

-- What `flip` does, by what the chain holds.
abbrev pub Flips : LinkedBuffer → Frame → Bool × LinkedBuffer → Type 0
Flips b (written w) r = (r.0 ≡ true) × (view r.1 ≡ unread w) × IsValid r.1
Flips b (unread w) r = r ≡ (false, b)

turned : LinkedBuffer → LinkedBuffer
turned b = record b {
  mark = record b.mark { invalid = true };
  limit = b.current;
  current = b.zero_pos;
}

turned-IsValid : (b : LinkedBuffer) → IsValid b → IsValid (turned b)
unfolding turned
turned-IsValid b v = record {
  paged = v.paged;
  sized = v.sized;
  held = v.held;
  small = v.small;
  used = v.used;
  zero_at = v.zero_at;
  zero_first = v.zero_first;
  zero_start = v.zero_start;
  zero_valid = v.zero_valid;
  current_at = v.zero_at;
  current_valid = v.zero_valid;
  current_in = omega (arith, v.zero_start, v.current_in);
  limit_at = λ e. v.current_at;
  limit_in = λ e. (omega (arith, v.zero_start), v.current_in);
  mark_at = λ e. absurd (true-ne-false e);
  mark_in = λ e. absurd (true-ne-false e);
  mark_before = λ e. absurd (true-ne-false e);
}

turned-view :
    (b : LinkedBuffer) → IsValid b → view (turned b) ≡ unread (take b.current.position (content b))
unfolding turned
turned-view b v =
    let none_read : b.zero_pos.position ≡ 0 = v.zero_start in
    seen_unread (turned b) v.current_valid
    ∙ ap (λ k. unread (take (b.current.position - k) (drop k (content b)))) none_read
    ∙ ap (λ k. unread (take k (content b))) (omega arith)

-- `flip` of a valid chain that is written makes all that was written readable, from the start; of one
-- that is read it fails and changes nothing.
pub flip-Flips : (b : LinkedBuffer) → IsValid b → Flips b (view b) (flip b)
unfolding flip turned
flip-Flips b v = elim (Bool-cases b.limit.invalid) [
  | inr e ↦
      let run : flip b ≡ (false, b) = ap (λ t. if not t then (false, b) else (true, turned b)) e in
      subst (λ f. Flips b f (flip b)) (sym (seen_unread b e)) run
  | inl e ↦
      let run : flip b ≡ (true, turned b) =
        ap (λ t. if not t then (false, b) else (true, turned b)) e in
      subst (λ f. Flips b f (flip b)) (sym (seen_written b e))
        (subst (λ r. Flips b (written (take b.current.position (content b))) r) (sym run)
          (refl, turned-view b v, turned-IsValid b v))
]

-- `mark`, `rewind` and `reset` keep the chain valid.
pub moves-IsValid :
    (b : LinkedBuffer) → IsValid b → IsValid (set_mark b) × IsValid (rewind b) × IsValid (reset b).1
unfolding set_mark rewind reset
moves-IsValid b v = (ground arith, ground arith, ground arith)
