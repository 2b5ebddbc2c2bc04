-- ===== src/Buffer/Transfer.antt =====
-- Bytes into and out of the buffer of libsax/sax/net/buffer.h.
use xlibsax.Prelude.{
  ℕ, ◌+◌, ◌-◌, ◌^◌, ◌≤◌, ◌<◌, ◌≡◌, sym, ap, ◌∙◌, inl, inr, Bool, true, false, Option, none, some,
  List, arith, length, take, drop, drop-take, drop-drop, take-take, ltb, leb, Bool-cases, add32,
  sub32,
}
use xlibsax.Buffer.{Buffer, writing, read_at, get, skip}
use xlibsax.Buffer.Valid.{Frame, written, unread, view, IsValid, take-drop-length}
use xlibsax.Buffer.Modes.{reading_bounds}

-- What `get` does, by what the buffer holds.
abbrev pub Gets : Buffer → ℕ → Frame → Option (Option (List ℕ) × Buffer) → Type 0
Gets b n (written w) r = r ≡ some (none, b)
Gets b n (unread w) r =
    (n ≤ length w
      → (b' : Buffer) × (r ≡ some (some (take n w), b'))
        × (view b' ≡ unread (drop n w))
        × IsValid b')
    × (length w < n → r ≡ some (none, b))

-- The next `n` bytes are left behind.
module _ (b : Buffer) (n : ℕ) (v : IsValid b) (e : writing b ≡ false) where
  rest : List ℕ
  rest = take (b.limit - b.current) (drop b.current b.buf)

  moved : Buffer
  moved = record b { current = add32 b.current n }

  length-rest : length rest ≡ b.limit - b.current
  unfolding rest
  length-rest =
      let (lo, hi) = reading_bounds b v e in
      take-drop-length b.buf b.current (b.limit - b.current) (omega (arith, v.held))

  left : sub32 b.limit b.current ≡ b.limit - b.current
  left = let (lo, hi) = reading_bounds b v e in omega (arith, v.small)

  refuses : length rest < n → ltb (sub32 b.limit b.current) n ≡ true
  refuses lt = ground (arith, left, length-rest)

  module _ (le : n ≤ length rest) where
    on : add32 b.current n ≡ b.current + n
    on = let (lo, hi) = reading_bounds b v e in omega (arith, v.small, le, length-rest)

    grants : ltb (sub32 b.limit b.current) n ≡ false
    grants = ground (arith, left, length-rest, le)

    inside : leb (b.current + n) (length b.buf) ≡ true
    inside = let (lo, hi) = reading_bounds b v e in ground (arith, v.held, length-rest, le)

    moved-IsValid : IsValid moved
    unfolding moved
    moved-IsValid =
        let (lo, hi) = reading_bounds b v e in
        record {
          paged = v.paged;
          held = v.held;
          small = v.small;
          position = ground (arith, e, on, length-rest, le);
          limited = v.limited;
          marked = v.marked;
        }

    moved-view : view moved ≡ unread (drop n rest)
    unfolding view moved rest
    moved-view =
        let gap : b.limit - b.current - n ≡ b.limit - add32 b.current n = omega (arith, on) in
        rw e (
          ap unread (
            sym (
              drop-take (drop b.current b.buf) n (b.limit - b.current)
              ∙ (ap (λ k. take k (drop n (drop b.current b.buf))) gap
                  ∙ ap (λ r. take (b.limit - add32 b.current n) r)
                      (drop-drop b.current n b.buf ∙ ap (λ k. drop k b.buf) (sym on))))))

-- `get` on a valid buffer that is read returns the next `n` unread bytes and keeps the others; with
-- fewer unread bytes than that, or on a buffer that is written, it fails and changes nothing.
pub get_lem : (b : Buffer) (n : ℕ) → IsValid b → n < 2 ^ 32 → Gets b n (view b) (get b n)
unfolding view rest
get_lem b n v h = elim (Bool-cases (writing b)) [
  | inl e ↦ rw e (unfold get in rw e)
  | inr e ↦
      let enough : n ≤ length (rest b n v e)
          → (b' : Buffer) × (get b n ≡ some (some (take n (rest b n v e)), b'))
            × (view b' ≡ unread (drop n (rest b n v e)))
            × IsValid b' =
        λ le.
          let from : take n (rest b n v e) ≡ take n (drop b.current b.buf) =
            take-take (drop b.current b.buf) n (b.limit - b.current)
              (omega (arith, le, length-rest b n v e)) in
          (
            moved b n v e,
            unfold moved get read_at in rw (e, grants b n v e le, inside b n v e le, from),
            moved-view b n v e le,
            moved-IsValid b n v e le,
          ) in
      rw e (enough, λ lt. unfold get in rw (e, refuses b n v e lt))
]

-- What `skip` does to a buffer that is read.
abbrev pub Skips : ℕ → Frame → Option (Bool × Buffer) → Buffer → Type 0
Skips n (written w) r b = Unit
Skips n (unread w) r b =
    (n ≤ length w
      → (b' : Buffer) × (r ≡ some (true, b')) × (view b' ≡ unread (drop n w)) × IsValid b')
    × (length w < n → r ≡ some (false, b))

-- `skip` on a valid buffer that is read leaves out the next `n` unread bytes; with fewer it fails and
-- changes nothing.
pub skip_lem :
    (alloc : ℕ → Option (ℕ × List ℕ)) (b : Buffer) (n : ℕ)
    → IsValid b
    → n < 2 ^ 32
    → Skips n (view b) (skip alloc b n) b
unfolding view rest
skip_lem alloc b n v h = elim (Bool-cases (writing b)) [
  | inl e ↦ rw e tt
  | inr e ↦
      let enough : n ≤ length (rest b n v e)
          → (b' : Buffer) × (skip alloc b n ≡ some (true, b'))
            × (view b' ≡ unread (drop n (rest b n v e)))
            × IsValid b' =
        λ le.
          let m = moved-IsValid b n v e le in
          (
            record b { mark = b.current; current = add32 b.current n },
            unfold skip in rw (e, grants b n v e le),
            unfold moved in moved-view b n v e le,
            record {
              paged = v.paged;
              held = v.held;
              small = v.small;
              position = unfold moved in m.position;
              limited = v.limited;
              marked = inr (ground (arith, e, v.position));
            },
          ) in
      rw e (enough, λ lt. unfold skip in rw (e, refuses b n v e lt))
]
