-- ===== src/Linked/Tests.antt =====
-- Runs of the chain of blocks of libsax/sax/net/linked_buffer.h.
use xlibsax.Prelude.{
  ℕ, ◌≤◌, ◌≡◌, refl, sym, ap, Bool, true, false, Option, none, some, List, [], ◌∷◌, arith, length,
  some-eq,
}
use xlibsax.Buffer.Valid.{written, unread}
use xlibsax.Linked.{
  remaining, get_bytes, get_loop, read_in, Pos, LinkedBuffer, no_pos, flip, compact, get, skip, put,
  room, reserve, chain, put_bytes, put_loop, write_in,
}
use xlibsax.Linked.Valid.{view, At, IsValid}
use xlibsax.Linked.Transfer.{Gets, get-Gets, Skips, skip-Skips}
use xlibsax.Linked.Store.{Nodes}
use xlibsax.Linked.Put.{Stored, put-Stored}
use xlibsax.Linked.Modes.{Flips, flip-Flips}
use xlibsax.Linked.Direct.{direct_get, commit_get}
use xlibsax.Linked.Commit.{commit_get-direct_get}
use xlibsax.Linked.Pour.{get_into}
use xlibsax.Linked.Into.{Poured, get_into-Poured}
use xlibsax.Linked.Compact.{Compacts, compact-Compacts}

-- Three blocks of three bytes. The data begin at the second byte.
abbrev front : Pos
front = record { position = 0; remaining = 2; block = 7; curr_buf = 1; invalid = false }

abbrev middle : Pos
middle = record { position = 2; remaining = 3; block = 8; curr_buf = 0; invalid = false }

abbrev rear : Pos
rear = record { position = 4; remaining = 1; block = 8; curr_buf = 2; invalid = false }

front-At : At 3 7 3 1 front
front-At = record { index = 0; named = refl; inside = omega arith; offset = refl; whole = refl }

middle-At : At 3 7 3 1 middle
middle-At = record { index = 1; named = refl; inside = omega arith; offset = refl; whole = refl }

rear-At : At 3 7 3 1 rear
rear-At = record { index = 1; named = refl; inside = omega arith; offset = refl; whole = refl }

-- Four bytes are written.
abbrev filling : LinkedBuffer
filling = record {
  current = rear;
  zero_pos = front;
  mark = no_pos;
  limit = no_pos;
  block_size = 3;
  capacity = 9;
  usable = 8;
  first = 7;
  blocks = (1 ∷ 2 ∷ 3 ∷ []) ∷ (4 ∷ 5 ∷ 6 ∷ []) ∷ (0 ∷ 0 ∷ 0 ∷ []) ∷ [];
}

-- Two of the four are read.
abbrev draining : LinkedBuffer
draining = record filling { current = middle; limit = rear; mark = front }

filling-IsValid : IsValid filling
filling-IsValid = record {
  paged = omega arith;
  sized = (refl, (refl, (refl, tt)));
  held = refl;
  small = omega arith;
  used = refl;
  zero_at = front-At;
  zero_first = refl;
  zero_start = refl;
  zero_valid = refl;
  current_at = rear-At;
  current_valid = refl;
  current_in = omega arith;
  limit_at = λ e. absurd cc;
  limit_in = λ e. absurd cc;
  mark_at = λ e. absurd cc;
  mark_in = λ e. absurd cc;
  mark_before = λ e. absurd cc;
}

draining-IsValid : IsValid draining
draining-IsValid = record {
  paged = omega arith;
  sized = (refl, (refl, (refl, tt)));
  held = refl;
  small = omega arith;
  used = refl;
  zero_at = front-At;
  zero_first = refl;
  zero_start = refl;
  zero_valid = refl;
  current_at = middle-At;
  current_valid = refl;
  current_in = omega arith;
  limit_at = λ e. rear-At;
  limit_in = λ e. (omega arith, omega arith);
  mark_at = λ e. front-At;
  mark_in = λ e. omega arith;
  mark_before = λ e f. omega arith;
}

abbrev nodes : ℕ → Option (List ℕ)
nodes k = some (0 ∷ 0 ∷ 0 ∷ [])

nodes-Nodes : Nodes nodes 3
nodes-Nodes k node e = ap length (sym (some-eq e))

get-Gets_example : Gets draining 2 (unread (4 ∷ 5 ∷ [])) (get draining 2)
unfolding view
get-Gets_example = get-Gets draining 2 draining-IsValid

skipping : Skips 2 (unread (4 ∷ 5 ∷ [])) (skip nodes draining 2) draining
unfolding view
skipping = skip-Skips nodes draining 2 draining-IsValid

put-Stored_example :
    (r : Bool × LinkedBuffer) × (put nodes filling (20 ∷ 21 ∷ 22 ∷ 23 ∷ 24 ∷ []) ≡ some r)
    × Stored nodes (20 ∷ 21 ∷ 22 ∷ 23 ∷ 24 ∷ []) (2 ∷ 3 ∷ 4 ∷ 5 ∷ []) r
unfolding view
put-Stored_example =
    put-Stored nodes filling (20 ∷ 21 ∷ 22 ∷ 23 ∷ 24 ∷ []) (2 ∷ 3 ∷ 4 ∷ 5 ∷ []) nodes-Nodes
      filling-IsValid refl (omega arith)

flipping : Flips filling (written (2 ∷ 3 ∷ 4 ∷ 5 ∷ [])) (flip filling)
unfolding view
flipping = flip-Flips filling filling-IsValid

compact-Compacts_example : Compacts draining (unread (4 ∷ 5 ∷ [])) (compact draining)
unfolding view
compact-Compacts_example = compact-Compacts draining draining-IsValid

abbrev left_in_block : Option (Bool × LinkedBuffer) → ℕ
left_in_block none = 3
left_in_block (some (ok, b)) = b.current.remaining

-- A move that ends where a block ends leaves no byte of it.
ends_at_border :
    left_in_block (put nodes (record filling { current = front }) (9 ∷ 9 ∷ 9 ∷ 9 ∷ 9 ∷ [])) ≡ 0
unfolding put room reserve chain put_bytes put_loop write_in
ends_at_border = refl

-- Two blocks of four bytes, with two bytes to read.
abbrev other : LinkedBuffer
other = record {
  current = record { position = 1; remaining = 1; block = 0; curr_buf = 3; invalid = false };
  zero_pos = record { position = 0; remaining = 2; block = 0; curr_buf = 2; invalid = false };
  mark = no_pos;
  limit = record { position = 3; remaining = 3; block = 1; curr_buf = 1; invalid = false };
  block_size = 4;
  capacity = 8;
  usable = 6;
  first = 0;
  blocks = (1 ∷ 2 ∷ 3 ∷ 30 ∷ []) ∷ (31 ∷ 5 ∷ 6 ∷ 7 ∷ []) ∷ [];
}

other-IsValid : IsValid other
other-IsValid = record {
  paged = omega arith;
  sized = (refl, (refl, tt));
  held = refl;
  small = omega arith;
  used = refl;
  zero_at = record { index = 0; named = refl; inside = omega arith; offset = refl; whole = refl };
  zero_first = refl;
  zero_start = refl;
  zero_valid = refl;
  current_at = record {
    index = 0;
    named = refl;
    inside = omega arith;
    offset = refl;
    whole = refl;
  };
  current_valid = refl;
  current_in = omega arith;
  limit_at =
      λ e. record { index = 1; named = refl; inside = omega arith; offset = refl; whole = refl };
  limit_in = λ e. (omega arith, omega arith);
  mark_at = λ e. absurd cc;
  mark_in = λ e. absurd cc;
  mark_before = λ e. absurd cc;
}

get_into-Poured_example :
    (r : Bool × LinkedBuffer × LinkedBuffer) × (get_into nodes other filling 2 ≡ some r)
    × Poured nodes (30 ∷ 31 ∷ []) (2 ∷ 3 ∷ 4 ∷ 5 ∷ []) 2 r
unfolding view
get_into-Poured_example =
    get_into-Poured nodes other filling (30 ∷ 31 ∷ []) (2 ∷ 3 ∷ 4 ∷ 5 ∷ []) 2 nodes-Nodes
      other-IsValid filling-IsValid refl refl (omega arith) (omega arith)

commit_get-direct_get_example :
    (1 ≤ 2)
    × ((b' : LinkedBuffer) × ((commit_get other (0, 3) 1 ≡ some (true, b'))
          × IsValid b'
          × (view b' ≡ unread (31 ∷ []))))
unfolding view direct_get
commit_get-direct_get_example =
    commit_get-direct_get other 30 (31 ∷ []) (0, 3) 1 1 other-IsValid refl refl (omega arith)

-- Five bytes are written and read, two and then three of them.
abbrev drained : Option LinkedBuffer
drained = elim (put nodes (record filling { current = front }) (9 ∷ 9 ∷ 9 ∷ 9 ∷ 9 ∷ [])) [
  | none ↦ none
  | some (ok, b) ↦ elim (get (flip b).1 2) [
    | none ↦ none
    | some (two, b₂) ↦ elim (get b₂ 3) [ none ↦ none | some (three, b₃) ↦ some b₃ ]
  ]
]

abbrev offers : Option LinkedBuffer → Option (ℕ × Option ((ℕ × ℕ) × ℕ))
offers none = none
offers (some b) = some (remaining b, direct_get b)

-- Nothing is left to read, and `direct_get` offers the three bytes of the block behind the limit.
offers_behind_limit : offers drained ≡ some (0, some ((9, 0), 3))
unfolding put room reserve chain put_bytes put_loop write_in flip get get_bytes get_loop read_in
    remaining direct_get
offers_behind_limit = refl
