-- ===== src/Buffer/Modes.antt =====
-- Turning the buffer of libsax/sax/net/buffer.h from writing to reading and back.
use xlibsax.Prelude.{
  ℕ, ◌+◌, ◌-◌, ◌≤◌, ◌≡◌, refl, sym, ap, ◌∙◌, inl, inr, Bool, true, false, Option, some, List, ◌++◌,
  arith, length, take, drop, length-append, length-drop, take-append, leb, ◌==◌, ==_iff, Bool-cases,
  sub32,
}
use xlibsax.Buffer.{Buffer, invalid, writing, flip, compact}
use xlibsax.Buffer.Valid.{Frame, written, unread, view, IsValid, take-drop-length}

-- What `flip` does, by what the buffer holds.
abbrev pub Flips : Buffer → Frame → Bool × Buffer → Type 0
Flips b (written w) r = (r.0 ≡ true) × (view r.1 ≡ unread w) × IsValid r.1
Flips b (unread w) r = r ≡ (false, b)

-- `flip` of a valid buffer that is written makes all that was written readable, from the start;
-- of one that is read it fails and changes nothing.
pub flip_lem : (b : Buffer) → IsValid b → Flips b (view b) (flip b)
unfolding flip view
flip_lem b v = elim (Bool-cases (writing b)) [
  | inr e ↦ rw e refl
  | inl e ↦
      let ne : (b.current == invalid) ≡ false = ground (arith, e) in
      rw e (refl, rw ne (ap (λ k. unread (take k b.buf)) (omega arith)), flipped e)
]
  where
    flipped :
        writing b ≡ true → IsValid (record b { mark = invalid; limit = b.current; current = 0 })
    flipped e = ground (arith, e)

-- What `compact` does, by what the buffer holds.
abbrev pub Compacts : Buffer → Frame → Option (Bool × Buffer) → Type 0
Compacts b (written w) r = r ≡ some (false, b)
Compacts b (unread w) r = (b' : Buffer) × (r ≡ some (true, b')) × (view b' ≡ written w) × IsValid b'

compacted : Buffer → Buffer
compacted b =
    let n = b.limit - b.current in
    record b {
      buf = take n (drop b.current b.buf) ++ drop n b.buf;
      current = n;
      mark = invalid;
      limit = invalid;
    }

-- While it is read, the position lies before the limit and the limit in the pages.
pub reading_bounds :
    (b : Buffer) → IsValid b → writing b ≡ false → (b.current ≤ b.limit) × (b.limit ≤ b.capacity)
reading_bounds b v e = (ground (arith, e), ground (arith, e))

compacted-IsValid : (b : Buffer) → IsValid b → writing b ≡ false → IsValid (compacted b)
unfolding compacted
compacted-IsValid b v e =
    let (lo, hi) = reading_bounds b v e in
    record {
      paged = v.paged;
      held = omega (
        arith,
        length-append (take (b.limit - b.current) (drop b.current b.buf))
            (drop (b.limit - b.current) b.buf),
        take-drop-length b.buf b.current (b.limit - b.current),
        length-drop (b.limit - b.current) b.buf,
        v.held,
      );
      small = v.small;
      position = omega arith;
      limited = inl refl;
      marked = inl refl;
    }

compact-compacted :
    (b : Buffer) → IsValid b → writing b ≡ false → compact b ≡ some (true, compacted b)
unfolding compact compacted
compact-compacted b v e =
    let (lo, hi) = reading_bounds b v e in
    let same : sub32 b.limit b.current ≡ b.limit - b.current = omega (arith, v.small) in
    elim (Bool-cases (b.limit == b.current)) [
      | inl q ↦
          let z : b.limit - b.current ≡ 0 = omega (arith, (==_iff _ _).0 q) in rw (e, q, same, z)
      | inr q ↦
          let fits : leb (b.current + (b.limit - b.current)) (length b.buf) ≡ true =
            ground (arith, v.held) in
          rw (e, q, same, fits) (rw same)
    ]

-- `compact` of a valid buffer that is read keeps exactly the unread bytes, as written ones, and
-- does not fault; of one that is written it fails and changes nothing.
pub compact_lem : (b : Buffer) → IsValid b → Compacts b (view b) (compact b)
unfolding view
compact_lem b v = elim (Bool-cases (writing b)) [
  | inl e ↦ rw e (unfold compact in rw e)
  | inr e ↦
      let (lo, hi) = reading_bounds b v e in
      rw e (
        compacted b,
        compact-compacted b v e,
        unfold compacted in
            ap written (
              ap (λ k. take k (taken ++ drop n b.buf))
                (sym (take-drop-length b.buf b.current n (omega (arith, v.held))))
              ∙ take-append taken (drop n b.buf)),
        compacted-IsValid b v e,
      )
]
  where
    n : ℕ
    n = b.limit - b.current

    taken : List ℕ
    taken = take n (drop b.current b.buf)
