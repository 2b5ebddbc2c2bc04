-- ===== src/Buffer/Store.antt =====
-- `reserve` and `put` of libsax/sax/net/buffer.h.
use native.Mathlib.Nat.{div-add-mod', mod-lt}
use xlibsax.Prelude.{
  ℕ, ◌+◌, ◌*◌, ◌/◌, ◌%◌, ◌^◌, ◌≤◌, ◌<◌, ◌≡◌, refl, sym, ap, ap₂, ◌∙◌, ◌⊎◌, inl, inr, Bool, true,
  false, Option, none, some, List, ◌++◌, append_assoc, arith, length, take, drop, length-append,
  length-take, length-drop, take-append, run, ltb, leb, if◌then◌else◌, ==_iff, ltb→lt, Bool-cases,
  Option-cases, add32,
}
use xlibsax.Buffer.{Buffer, invalid, writing, write_at, read_at, put, reserve, pages_for}
use xlibsax.Buffer.Valid.{Frame, written, unread, view, bound, IsValid}

pages_bound :
    (size bs : ℕ)
    → 0 < bs
    → let pages = size / bs + (if ltb 0 (size % bs) then 1 else 0) in
      (size ≤ pages * bs) × (pages * bs < size + bs)
pages_bound size bs h = elim (Bool-cases (ltb 0 (size % bs))) [
  | inl e ↦ rw e (two (ltb→lt 0 (size % bs) e))
  | inr e ↦ rw e (one (ground (arith, e)))
]
  where
    two : 0 < size % bs → (size ≤ (size / bs + 1) * bs) × ((size / bs + 1) * bs < size + bs)
    two p = (
      omega (arith, div-add-mod' size bs, mod-lt size h),
      omega (arith, div-add-mod' size bs, mod-lt size h),
    )

    one : size % bs ≡ 0 → (size ≤ (size / bs + 0) * bs) × ((size / bs + 0) * bs < size + bs)
    one p = (omega (arith, div-add-mod' size bs), omega (arith, div-add-mod' size bs))

-- What `g_shm_alloc_pages` promises: as many bytes as the pages have.
abbrev pub Pages : (ℕ → Option (ℕ × List ℕ)) → ℕ → Type 0
Pages alloc bs =
    (k base : ℕ) (fresh : List ℕ) → alloc k ≡ some (base, fresh) → length fresh ≡ k * bs

module _ (alloc : ℕ → Option (ℕ × List ℕ)) where
  -- What `reserve` leaves, for `size` bytes.
  pub record Reserved (b : Buffer) (size : ℕ) (r : Bool × Buffer) : Type 0 where
    pub valid : IsValid r.1
    pub mode : r.1.limit ≡ b.limit
    pub position : r.1.current ≡ b.current
    pub unit : r.1.block_size ≡ b.block_size
    pub kept : take b.current r.1.buf ≡ take b.current b.buf
    pub room : r.0 ≡ true → size ≤ r.1.capacity
    pub refused :
        r.0 ≡ false → (r.1 ≡ b) × (b.capacity < size) × (alloc (pages_for alloc b size) ≡ none)

  -- The buffer on new pages.
  moved : Buffer → ℕ → ℕ → List ℕ → Buffer
  moved b size base fresh = record b {
    base = base;
    buf = take b.current b.buf ++ drop b.current fresh;
    capacity = pages_for alloc b size * b.block_size;
  }

  moved-Reserved :
      (b : Buffer) (size base : ℕ) (fresh : List ℕ)
      → IsValid b
      → writing b ≡ true
      → b.current ≤ size
      → size + b.block_size < invalid
      → b.capacity < size
      → length fresh ≡ pages_for alloc b size * b.block_size
      → Reserved b size (true, moved b size base fresh)
  unfolding moved
  moved-Reserved b size base fresh v e fit small grown len =
      let (lo, hi) = pages_bound size b.block_size v.paged in
      let in' : b.current ≤ b.capacity = ground (arith, v.position, e) in
      let kept' : length (take b.current b.buf) ≡ b.current =
        omega (arith, length-take b.current b.buf, v.held) in
      record {
        valid = record {
          paged = v.paged;
          held = omega (
            arith,
            length-append (take b.current b.buf) (drop b.current fresh),
            length-drop b.current fresh,
            kept',
          );
          small = omega arith;
          position = rw e (omega arith);
          limited = inl ((==_iff _ _).0 e);
          marked = rw e (wider in' v.marked);
        };
        mode = refl;
        position = refl;
        unit = refl;
        kept =
            ap (λ k. take k (take b.current b.buf ++ drop b.current fresh)) (sym kept')
            ∙ take-append (take b.current b.buf) (drop b.current fresh);
        room = λ q. lo;
        refused = λ q. cc;
      }
    where
      wider :
          b.current ≤ b.capacity
          → (b.mark ≡ invalid) ⊎ (b.mark ≤ bound b)
          → (b.mark ≡ invalid) ⊎ (b.mark ≤ pages_for alloc b size * b.block_size)
      wider in' (inl m) = inl m
      wider in' (inr m) =
          let (lo, hi) = pages_bound size b.block_size v.paged in
          inr (ground (arith, m, e, lo, grown))

  -- `reserve` of `size` bytes, not fewer than are written, on a valid buffer that is written, where
  -- `size` with a page is a 32-bit number, does not fault and leaves a valid buffer with the same
  -- written bytes: with room for `size` bytes if it succeeds, and as it was if no pages could be had.
  pub reserve_total :
      (b : Buffer) (size : ℕ)
      → Pages alloc b.block_size
      → IsValid b
      → writing b ≡ true
      → b.current ≤ size
      → size + b.block_size < invalid
      → (r : Bool × Buffer) × (reserve alloc b size ≡ some r) × Reserved b size r
  unfolding reserve
  reserve_total b size pages v e fit small = elim (Bool-cases (ltb b.capacity size)) [
    | inr q ↦ (
      (true, b),
      rw q,
      record {
        valid = v;
        mode = refl;
        position = refl;
        unit = refl;
        kept = refl;
        room = λ p. ground (arith, q);
        refused = λ p. cc;
      },
    )
    | inl q ↦ elim (Option-cases (alloc (pages_for alloc b size))) [
      | inl a ↦ (
        (false, b),
        rw (q, reserve, a),
        record {
          valid = v;
          mode = refl;
          position = refl;
          unit = refl;
          kept = refl;
          room = λ p. cc;
          refused = λ p. (refl, ltb→lt _ _ q, a);
        },
      )
      | inr ((base, fresh), a) ↦
          let len = pages (pages_for alloc b size) base fresh a in
          let (lo, hi) = pages_bound size b.block_size v.paged in
          let in' : b.current ≤ b.capacity = ground (arith, v.position, e) in
          let kept' : length (take b.current (drop 0 b.buf)) ≡ b.current =
            omega (arith, length-take b.current b.buf, v.held) in
          let r1 : leb (0 + b.current) (length b.buf) ≡ true = ground (arith, v.held, in') in
          let r2 : leb (0 + length (take b.current (drop 0 b.buf))) (length fresh) ≡ true =
            ground (arith, kept', len, lo) in
          let cap : pages_for alloc b size * b.block_size % 2 ^ 32
              ≡ pages_for alloc b size * b.block_size =
            omega arith in
          let at : 0 + length (take b.current (drop 0 b.buf)) ≡ b.current = omega (arith, kept') in
          (
            (true, moved b size base fresh),
            unfold moved read_at write_at in rw (q, a, r1, r2) (rw (cap, at)),
            moved-Reserved b size base fresh v e fit small (ltb→lt _ _ q) len,
          )
    ]
  ]

  -- What `put` does to a buffer that is written.
  pub record Puts (b : Buffer) (bytes w : List ℕ) (r : Bool × Buffer) : Type 0 where
    pub valid : IsValid r.1
    pub unit : r.1.block_size ≡ b.block_size
    pub stored : r.0 ≡ true → view r.1 ≡ written (w ++ bytes)
    pub refused :
        r.0 ≡ false
        → (r.1 ≡ b)
          × (b.capacity < b.current + length bytes)
          × (alloc (pages_for alloc b (b.current + length bytes)) ≡ none)

  pub stored_view :
      (buf bytes w : List ℕ) (i : ℕ)
      → take i buf ≡ w
      → length w ≡ i
      → take (i + length bytes) (take i buf ++ (bytes ++ drop (i + length bytes) buf)) ≡ w ++ bytes
  stored_view buf bytes w i e len =
      let e₁ : i + length bytes ≡ length (w ++ bytes) = omega (arith, length-append w bytes, len) in
      ap₂ (λ n xs. take n (xs ++ (bytes ++ drop (i + length bytes) buf))) e₁ e
      ∙ (ap (λ ys. take (length (w ++ bytes)) ys)
            (sym (append_assoc w bytes (drop (i + length bytes) buf)))
          ∙ take-append (w ++ bytes) (drop (i + length bytes) buf))

  -- The bytes that were written are those of `w`.
  kept_before :
      (b : Buffer) (w : List ℕ) → writing b ≡ true → view b ≡ written w → take b.current b.buf ≡ w
  unfolding view
  kept_before b w q e =
      let shown : view b ≡ written (take b.current b.buf) = rw q in ap bytes_of (sym shown ∙ e)
    where
      bytes_of : Frame → List ℕ
      bytes_of (written xs) = xs
      bytes_of (unread xs) = xs

  -- The buffer after `bytes` are stored.
  grown : List ℕ → Buffer → Buffer
  grown bytes b₁ = record b₁ {
    buf = take b₁.current b₁.buf ++ (bytes ++ drop (b₁.current + length bytes) b₁.buf);
    current = b₁.current + length bytes;
  }

  grown-IsValid :
      (bytes : List ℕ)
      → (b₁ : Buffer) → IsValid b₁
      → writing b₁ ≡ true
      → b₁.current + length bytes ≤ b₁.capacity
      → IsValid (grown bytes b₁)
  unfolding grown
  grown-IsValid bytes b₁ v q h = record {
    paged = v.paged;
    held = omega (
      arith,
      length-append (take b₁.current b₁.buf) (bytes ++ drop (b₁.current + length bytes) b₁.buf),
      length-append bytes (drop (b₁.current + length bytes) b₁.buf),
      length-drop (b₁.current + length bytes) b₁.buf,
      length-take b₁.current b₁.buf,
      v.held,
    );
    small = v.small;
    position = rw q h;
    limited = v.limited;
    marked = v.marked;
  }

  -- `put` on a valid buffer that is written, where the sum of position, length and page size is a
  -- 32-bit number, does not fault and leaves a valid buffer: the bytes are appended to those written
  -- before, unless the pages for them cannot be allocated, and then nothing changes.
  pub put_lem :
      (b : Buffer) (bytes w : List ℕ)
      → Pages alloc b.block_size
      → IsValid b
      → view b ≡ written w
      → b.current + length bytes + b.block_size < invalid
      → (r : Bool × Buffer) × (put alloc b bytes ≡ some r) × Puts b bytes w r
  unfolding put view
  put_lem b bytes w pages v e small = elim (Bool-cases (writing b)) [
    | inr q ↦ absurd (other q e)
    | inl q ↦
        let size = b.current + length bytes in
        let on : add32 b.current (length bytes) ≡ size = omega arith in
        let (r, run, res) = reserve_total b size pages v q (omega arith) (omega arith) in
        finish q on r run res
  ]
    where
      other : writing b ≡ false → view b ≡ written w → ⊥
      other q e = ground (arith, q, e)

      finish :
          writing b ≡ true
          → add32 b.current (length bytes) ≡ b.current + length bytes
          → (r : Bool × Buffer) → reserve alloc b (b.current + length bytes) ≡ some r
          → Reserved b (b.current + length bytes) r
          → (r : Bool × Buffer) × (put alloc b bytes ≡ some r) × Puts b bytes w r
      finish q on (false, b₁) run res = (
        (false, b₁),
        rw (q, on, put, run),
        record { valid = res.valid; unit = res.unit; stored = λ p. cc; refused = res.refused },
      )
      finish q on (true, b₁) run res =
          let room = res.room refl in
          let q₁ : writing b₁ ≡ true = rw (res.mode) q in
          let fits : leb (b₁.current + length bytes) (length b₁.buf) ≡ true =
            ground (arith, res.position, res.valid.held) in
          let same : take b₁.current b₁.buf ≡ w =
            ap (λ n. take n b₁.buf) res.position ∙ (res.kept ∙ kept_before b w q e) in
          let now : add32 b₁.current (length bytes) ≡ b₁.current + length bytes =
            omega (arith, res.position, on) in
          let len : length w ≡ b₁.current =
            ap length (sym same)
            ∙ omega (arith, length-take b₁.current b₁.buf, res.valid.held, room, res.position) in
          let stored₁ = stored_view b₁.buf bytes w b₁.current same len in
          (
            (true, grown bytes b₁),
            unfold grown write_at in rw (q, on, put, run) (rw (fits, now)),
            record {
              valid = grown-IsValid bytes b₁ res.valid q₁ (omega (arith, room, res.position));
              unit = unfold grown in res.unit;
              stored = λ p. unfold grown in rw q₁ (ap written stored₁);
              refused = λ p. cc;
            },
          )
