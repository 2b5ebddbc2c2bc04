-- ===== src/Linked/Transfer.antt =====
-- `get`, and `skip` of what is read, of libsax/sax/net/linked_buffer.h.
use xlibsax.Prelude.{
  ℕ, ◌+◌, ◌-◌, ◌≤◌, ◌<◌, ◌≡◌, refl, sym, ap, ap₂, ◌∙◌, inl, inr, Bool, true, false, not, ◌&&◌, ◌||◌,
  Option, none, some, List, arith, length, take, drop, length-take, length-drop, drop-take,
  drop-drop, take-take, run, ltb, if◌then◌else◌, Bool-cases, sub32,
}
use mathlib.Core.Path.{subst}
use xlibsax.Buffer.Valid.{Frame, written, unread}
use xlibsax.Linked.{Pos, LinkedBuffer, chain, moved, room, skip_bytes, get_bytes, get, skip}
use xlibsax.Linked.Chain.{concat, length-concat}
use xlibsax.Linked.Valid.{content, view, Stands, IsValid}
use xlibsax.Linked.Reach.{Reached, reach}

-- What `get` and `skip` do, by what the chain holds.
abbrev pub Gets : LinkedBuffer → ℕ → Frame → Option (Option (List ℕ) × LinkedBuffer) → Type 0
Gets b n (written w) r = r ≡ some (none, b)
Gets b n (unread w) r =
    (n ≤ length w
      → (b' : LinkedBuffer) × (r ≡ some (some (take n w), b'))
        × (view b' ≡ unread (drop n w))
        × IsValid b')
    × (length w < n → r ≡ some (none, b))

-- There are as many bytes from the start of the data as `_usable` says.
pub length-content : (b : LinkedBuffer) → IsValid b → length (content b) ≡ b.usable
length-content b v = omega (
  arith,
  length-drop b.zero_pos.curr_buf (concat b.blocks),
  length-concat b.block_size b.blocks v.sized,
  v.held,
  v.used,
)

pub seen_written :
    (b : LinkedBuffer)
    → b.limit.invalid ≡ true
    → view b ≡ written (take b.current.position (content b))
unfolding view
seen_written b e = rw e refl

pub seen_unread :
    (b : LinkedBuffer)
    → b.limit.invalid ≡ false
    → view b
      ≡ unread (take (b.limit.position - b.current.position) (drop b.current.position (content b)))
unfolding view
seen_unread b e = rw e refl

-- A valid chain that is read, with the position moved by `n` bytes.
module _ (b : LinkedBuffer) (n : ℕ) (v : IsValid b) (e : b.limit.invalid ≡ false) where
  unfoldable pub left : List ℕ
  left = take (b.limit.position - b.current.position) (drop b.current.position (content b))

  pub length-left : length left ≡ b.limit.position - b.current.position
  unfolding left
  length-left =
      let (lo, hi) = v.limit_in e in
      omega (
        arith,
        lo,
        hi,
        length-content b v,
        length-drop b.current.position (content b),
        length-take (b.limit.position - b.current.position) (drop b.current.position (content b)),
      )

  pub difference : sub32 b.limit.position b.current.position ≡ b.limit.position - b.current.position
  difference = let (lo, hi) = v.limit_in e in omega (arith, lo, hi, v.small, v.used)

  refuses : length left < n → ltb (sub32 b.limit.position b.current.position) n ≡ true
  refuses h = ground (arith, h, length-left, difference)

  pub grants : n ≤ length left → ltb (sub32 b.limit.position b.current.position) n ≡ false
  grants h = ground (arith, h, length-left, difference)

  module _ (h : n ≤ length left) where
    pub inside : b.current.position + n < b.usable
    inside = let (lo, hi) = v.limit_in e in omega (arith, lo, hi, h, length-left)

    -- The chain at another position, `n` bytes further.
    module _ (p : Pos) (stands : Stands b p) (on : p.position ≡ b.current.position + n)
        (valid : p.invalid ≡ false) where
      pub shifted-IsValid : IsValid (record b { current = p })
      shifted-IsValid =
          let (lo, hi) = v.limit_in e in
          record {
            paged = v.paged;
            sized = v.sized;
            held = v.held;
            small = v.small;
            used = v.used;
            zero_at = v.zero_at;
            zero_first = v.zero_first;
            zero_start = v.zero_start;
            zero_valid = v.zero_valid;
            current_at = stands;
            current_valid = valid;
            current_in = omega (arith, on, inside);
            limit_at = v.limit_at;
            limit_in = λ i. (omega (arith, on, h, length-left, lo), hi);
            mark_at = v.mark_at;
            mark_in = v.mark_in;
            mark_before = v.mark_before;
          }

      pub shifted-view : view (record b { current = p }) ≡ unread (drop n left)
      unfolding left
      shifted-view =
          let C = content b in
          let cur = b.current.position in
          let m = b.limit.position - cur in
          let shorter : b.limit.position - (cur + n) ≡ m - n = omega arith in
          seen_unread (record b { current = p }) e
          ∙ ap (λ k. unread (take (b.limit.position - k) (drop k C))) on
          ∙ ap unread (
              ap₂ (λ k t. take k t) shorter (sym (drop-drop cur n C))
              ∙ sym (drop-take (drop cur C) n m))

    pub moved-IsValid :
        (q : Pos) → Reached b b.current n q → IsValid (record b { current = moved q n })
    moved-IsValid q r =
        shifted-IsValid (moved q n) r.stands r.position (r.invalid ∙ v.current_valid)

    pub moved-view :
        (q : Pos)
        → Reached b b.current n q
        → view (record b { current = moved q n }) ≡ unread (drop n left)
    moved-view q r = shifted-view (moved q n) r.stands r.position (r.invalid ∙ v.current_valid)

    marked-IsValid :
        (q : Pos)
        → Reached b b.current n q
        → IsValid (record b { mark = b.current; current = moved q n })
    marked-IsValid q r =
        let w = moved-IsValid q r in
        let (lo, hi) = v.limit_in e in
        record {
          paged = v.paged;
          sized = v.sized;
          held = v.held;
          small = v.small;
          used = v.used;
          zero_at = v.zero_at;
          zero_first = v.zero_first;
          zero_start = v.zero_start;
          zero_valid = v.zero_valid;
          current_at = w.current_at;
          current_valid = w.current_valid;
          current_in = w.current_in;
          limit_at = w.limit_at;
          limit_in = w.limit_in;
          mark_at = λ i. v.current_at;
          mark_in = λ i. v.current_in;
          mark_before = λ i j. lo;
        }

-- The runs of `get`.
get_refuses :
    (b : LinkedBuffer) (n : ℕ)
    → (b.limit.invalid || ltb (sub32 b.limit.position b.current.position) n) ≡ true
    → get b n ≡ some (none, b)
unfolding get
get_refuses b n e = rw e refl

get_grants :
    (b : LinkedBuffer) (n : ℕ) (bytes : List ℕ) (q : Pos)
    → (b.limit.invalid || ltb (sub32 b.limit.position b.current.position) n) ≡ false
    → get_bytes b.block_size (chain b b.current) n b.current ≡ some (bytes, q)
    → get b n ≡ some (some bytes, record b { current = moved q n })
unfolding get
get_grants b n bytes q e run = rw (e, run) refl

-- On a valid chain that is read, `get` returns the next `n` unread bytes, in however many blocks they
-- lie, and keeps the others; with fewer unread bytes, or on a chain that is written, it fails and
-- changes nothing.
pub get-Gets : (b : LinkedBuffer) (n : ℕ) → IsValid b → Gets b n (view b) (get b n)
unfolding view left
get-Gets b n v = elim (Bool-cases b.limit.invalid) [
  | inl e ↦ subst (λ f. Gets b n f (get b n)) (sym (seen_written b e)) (get_refuses b n (rw e refl))
  | inr e ↦
      let enough : n ≤ length (left b n v e)
          → (b' : LinkedBuffer) × (get b n ≡ some (some (take n (left b n v e)), b'))
            × (view b' ≡ unread (drop n (left b n v e)))
            × IsValid b' =
        λ le.
          let (q, r) = reach b b.current n v v.current_at (inside b n v e le) in
          let same : take n (drop b.current.position (content b)) ≡ take n (left b n v e) = sym (
            take-take (drop b.current.position (content b)) n
              (b.limit.position - b.current.position) (omega (arith, le, length-left b n v e))) in
          (
            record b { current = moved q n },
            get_grants b n (take n (drop b.current.position (content b))) q
                  (rw (e, grants b n v e le) refl) r.gets
                ∙ ap (λ t. some (some t, record b { current = moved q n })) same,
            moved-view b n v e le q r,
            moved-IsValid b n v e le q r,
          ) in
      subst (λ f. Gets b n f (get b n)) (sym (seen_unread b e))
        (enough, λ lt. get_refuses b n (rw (e, refuses b n v e lt) refl))
]

-- The runs of `skip` on what is read.
skip_refuses :
    (alloc : ℕ → Option (List ℕ)) (b : LinkedBuffer) (n : ℕ)
    → (not b.limit.invalid && ltb (sub32 b.limit.position b.current.position) n) ≡ true
    → skip alloc b n ≡ some (false, b)
unfolding skip
skip_refuses alloc b n e = rw e refl

skip_grants :
    (alloc : ℕ → Option (List ℕ)) (b : LinkedBuffer) (n : ℕ) (q : Pos)
    → b.limit.invalid ≡ false
    → ltb (sub32 b.limit.position b.current.position) n ≡ false
    → skip_bytes b.block_size (chain b b.current) n b.current ≡ some q
    → skip alloc b n ≡ some (true, record b { mark = b.current; current = moved q n })
unfolding skip
skip_grants alloc b n q e enough run =
    let go : (not b.limit.invalid && ltb (sub32 b.limit.position b.current.position) n) ≡ false =
      rw (e, enough) refl in
    let as_is : (if b.limit.invalid then room alloc b n else some (true, b)) ≡ some (true, b) =
      ap (λ t. if t then room alloc b n else some (true, b)) e in
    rw (go, as_is, run) refl

-- What `skip` does to a chain that is read.
abbrev pub Skips : ℕ → Frame → Option (Bool × LinkedBuffer) → LinkedBuffer → Type 0
Skips n (written w) r b = Unit
Skips n (unread w) r b =
    (n ≤ length w
      → (b' : LinkedBuffer) × (r ≡ some (true, b')) × (view b' ≡ unread (drop n w)) × IsValid b')
    × (length w < n → r ≡ some (false, b))

-- On a valid chain that is read, `skip` leaves out the next `n` unread bytes; with fewer it fails and
-- changes nothing.
pub skip-Skips :
    (alloc : ℕ → Option (List ℕ)) (b : LinkedBuffer) (n : ℕ)
    → IsValid b
    → Skips n (view b) (skip alloc b n) b
unfolding left
skip-Skips alloc b n v = elim (Bool-cases b.limit.invalid) [
  | inl e ↦ subst (λ f. Skips n f (skip alloc b n) b) (sym (seen_written b e)) tt
  | inr e ↦
      let enough : n ≤ length (left b n v e)
          → (b' : LinkedBuffer) × (skip alloc b n ≡ some (true, b'))
            × (view b' ≡ unread (drop n (left b n v e)))
            × IsValid b' =
        λ le.
          let (q, r) = reach b b.current n v v.current_at (inside b n v e le) in
          (
            record b { mark = b.current; current = moved q n },
            skip_grants alloc b n q e (grants b n v e le) r.skips,
            unfold view in moved-view b n v e le q r,
            marked-IsValid b n v e le q r,
          ) in
      subst (λ f. Skips n f (skip alloc b n) b) (sym (seen_unread b e))
        (enough, λ lt. skip_refuses alloc b n (rw (e, refuses b n v e lt) refl))
]
