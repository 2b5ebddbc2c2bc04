-- ===== src/Linked/Into.antt =====
-- `get` of libsax/sax/net/linked_buffer.h from one chain into another, as a whole.
use xlibsax.Prelude.{
  ℕ, ◌+◌, ◌-◌, ◌^◌, ◌≤◌, ◌<◌, ◌≡◌, refl, sym, ap, ap₂, ◌∙◌, inl, inr, Bool, true, false, not, ◌||◌,
  Option, none, some, List, [], ◌∷◌, ◌++◌, arith, length, take, drop, length-append, length-take,
  take-take, run, ltb, Bool-cases, Option-cases, sub32, some-eq,
}
use mathlib.Core.Path.{subst}
use xlibsax.Buffer.Valid.{written, unread}
use xlibsax.Linked.{Pos, LinkedBuffer, chain, within, moved, read_in, get_loop, get_bytes, room}
use xlibsax.Linked.Valid.{content, view, IsValid}
use xlibsax.Linked.Reach.{reach}
use xlibsax.Linked.Transfer.{
  left, length-left, grants, inside, moved-IsValid, moved-view, seen_written, seen_unread,
}
use xlibsax.Linked.Store.{Nodes, extend, Grown, room-Grown}
use xlibsax.Linked.Put.{extend_content}
use xlibsax.Linked.Pour.{
  put_on, pour_loop, pour_bytes, get_into, none-ne-some, Filled, both-Filled, put_on-Filled,
  pour_loop-Filled,
}

module _ (alloc : ℕ → Option (List ℕ)) (size : ℕ) (node : List ℕ) (nodes : List (List ℕ)) (n : ℕ)
    (p : Pos) where
  pour_near :
      (front : List ℕ) (b b₁ : LinkedBuffer)
      → ltb n p.remaining ≡ true
      → read_in node p.curr_buf n ≡ some front
      → put_on alloc b front ≡ some b₁
      → pour_bytes alloc size (node ∷ nodes) n p b ≡ some (b₁, within p n)
  unfolding pour_bytes
  pour_near front b b₁ y a run = rw (pour_bytes, y, a, run, y) refl

  pour_far :
      (q : Pos) (front : List ℕ) (b b₁ b₂ : LinkedBuffer)
      → ltb n p.remaining ≡ false
      → read_in node p.curr_buf p.remaining ≡ some front
      → put_on alloc b front ≡ some b₁
      → pour_loop alloc size nodes (n - p.remaining) p b₁ ≡ some (b₂, q)
      → pour_bytes alloc size (node ∷ nodes) n p b ≡ some (b₂, q)
  unfolding pour_bytes
  pour_far q front b b₁ b₂ y a run more = rw (pour_bytes, y, a, run, y, more) refl

module _ (alloc : ℕ → Option (List ℕ)) where
  -- What is put is what `get` gets.
  pour_bytes-Filled :
      (size : ℕ) (nodes : List (List ℕ)) (n : ℕ) (p q : Pos) (bytes : List ℕ) (b : LinkedBuffer)
      → get_bytes size nodes n p ≡ some (bytes, q)
      → IsValid b
      → b.limit.invalid ≡ true
      → b.current.position + length bytes < b.usable
      → (b' : LinkedBuffer) × ((pour_bytes alloc size nodes n p b ≡ some (b', q))
          × Filled b bytes b')
  unfolding get_bytes
  pour_bytes-Filled size [] n p q bytes b run v e h = absurd cc
  pour_bytes-Filled size (node ∷ nodes) n p q bytes b run v e h =
      elim (Bool-cases (ltb n p.remaining)) [
        | inl y ↦ elim (Option-cases (read_in node p.curr_buf n)) [
          | inl a ↦ absurd (none-ne-some (sym (rw (get_bytes, y, a) refl) ∙ run))
          | inr (front, a) ↦
              let got : get_bytes size (node ∷ nodes) n p ≡ some (front, within p n) =
                rw (get_bytes, y, a) refl in
              let same : (front, within p n) ≡ (bytes, q) = some-eq (sym got ∙ run) in
              let sum : length bytes ≡ length front =
                ap (λ (x : List ℕ × Pos). length x.0) (sym same) in
              let (b₁, (run₁, f₁)) = put_on-Filled alloc b front v e (omega (arith, h, sum)) in
              (
                b₁,
                (
                  pour_near alloc size node nodes n p front b b₁ y a run₁
                      ∙ ap (λ (x : List ℕ × Pos). some (b₁, x.1)) same,
                  subst (λ (x : List ℕ × Pos). Filled b x.0 b₁) same f₁,
                ),
              )
        ]
        | inr y ↦ elim (Option-cases (read_in node p.curr_buf p.remaining)) [
          | inl a ↦ absurd (none-ne-some (sym (rw (get_bytes, y, a) refl) ∙ run))
          | inr (front, a) ↦ elim (Option-cases (get_loop size nodes (n - p.remaining) p)) [
            | inl c ↦ absurd (none-ne-some (sym (rw (get_bytes, y, a, c) refl) ∙ run))
            | inr ((more, q'), c) ↦
                let got : get_bytes size (node ∷ nodes) n p ≡ some (front ++ more, q') =
                  rw (get_bytes, y, a, c) refl in
                let same : (front ++ more, q') ≡ (bytes, q) = some-eq (sym got ∙ run) in
                let sum : length bytes ≡ length front + length more =
                  ap (λ (x : List ℕ × Pos). length x.0) (sym same) ∙ length-append front more in
                let (b₁, (run₁, f₁)) = put_on-Filled alloc b front v e (omega (arith, h, sum)) in
                let (b₂, (run₂, f₂)) =
                  pour_loop-Filled alloc size nodes (n - p.remaining) p q' more b₁ c f₁.valid
                    f₁.writes (omega (arith, h, sum, f₁.position, f₁.usable)) in
                (
                  b₂,
                  (
                    pour_far alloc size node nodes n p q' front b b₁ b₂ y a run₁ run₂
                        ∙ ap (λ (x : List ℕ × Pos). some (b₂, x.1)) same,
                    subst (λ (x : List ℕ × Pos). Filled b x.0 b₂) same
                        (both-Filled b b₁ b₂ front more f₁ f₂),
                  ),
                )
          ]
        ]
      ]

  -- What a transfer of `n` bytes leaves of the unread bytes `s` and the written bytes `w`.
  pub record Poured (s w : List ℕ) (n : ℕ) (r : Bool × LinkedBuffer × LinkedBuffer) : Type 0 where
    pub source : IsValid r.1
    pub target : IsValid r.2
    pub moved : r.0 ≡ true → (view r.1 ≡ unread (drop n s)) × (view r.2 ≡ written (w ++ take n s))
    pub refused :
        r.0 ≡ false
        → (view r.1 ≡ unread s) × (view r.2 ≡ written w) × (alloc (length r.2.blocks) ≡ none)

  -- The runs of `get_into`.
  into_refuses :
      (a b b' : LinkedBuffer) (n : ℕ)
      → (a.limit.invalid
          || ltb (sub32 a.limit.position a.current.position) n
          || not b.limit.invalid)
        ≡ false
      → room alloc b n ≡ some (false, b')
      → get_into alloc a b n ≡ some (false, a, b')
  unfolding get_into
  into_refuses a b b' n e run = rw (e, run) refl

  into_grants :
      (a b b₁ b₂ : LinkedBuffer) (n : ℕ) (q : Pos)
      → (a.limit.invalid
          || ltb (sub32 a.limit.position a.current.position) n
          || not b.limit.invalid)
        ≡ false
      → room alloc b n ≡ some (true, b₁)
      → pour_bytes alloc a.block_size (chain a a.current) n a.current b₁ ≡ some (b₂, q)
      → get_into alloc a b n ≡ some (true, record a { current = moved q n }, b₂)
  unfolding get_into
  into_grants a b b₁ b₂ n q e run pour = rw (e, run, pour) refl

  -- Between two valid chains, one that is read and has `n` unread bytes, and one that is written,
  -- whose new blocks have the size of its blocks and where the sum of position, `n`, two blocks
  -- and one is a 32-bit number, `get` takes the next `n` bytes of the first and appends them to
  -- the second, whatever the sizes of their blocks are; unless a block could not be had, and then
  -- the first has the same unread bytes as before and the second the same written ones. Both stay
  -- valid.
  pub get_into-Poured :
      (a b : LinkedBuffer) (s w : List ℕ) (n : ℕ)
      → Nodes alloc b.block_size
      → IsValid a
      → IsValid b
      → view a ≡ unread s
      → view b ≡ written w
      → n ≤ length s
      → b.current.position + n + 1 + (b.block_size + b.block_size) < 2 ^ 32
      → (r : Bool × LinkedBuffer × LinkedBuffer) × (get_into alloc a b n ≡ some r) × Poured s w n r
  unfolding left
  get_into-Poured a b s w n nodes va vb fa fb le small = elim (Bool-cases a.limit.invalid) [
    | inl ea ↦ absurd (two_frames (sym (seen_written a ea) ∙ fa))
    | inr ea ↦ elim (Bool-cases b.limit.invalid) [
      | inr eb ↦ absurd (two_frames (sym fb ∙ seen_unread b eb))
      | inl eb ↦
          let same_s : left a n va ea ≡ s = ground (arith, sym (seen_unread a ea) ∙ fa) in
          let same_w : take b.current.position (content b) ≡ w =
            ground (arith, sym (seen_written b eb) ∙ fb) in
          pour ea eb same_s same_w (omega (arith, le, ap length same_s))
            (room-Grown alloc b n nodes vb small)
    ]
  ]
    where
      two_frames : {x y : List ℕ} → written x ≡ unread y → ⊥
      two_frames e = absurd cc

      pour :
          (ea : a.limit.invalid ≡ false)
          → b.limit.invalid ≡ true
          → left a n va ea ≡ s
          → take b.current.position (content b) ≡ w
          → n ≤ length (left a n va ea)
          → Grown alloc b (b.current.position + n + 1) (room alloc b n)
          → (r : Bool × LinkedBuffer × LinkedBuffer) × (get_into alloc a b n ≡ some r)
            × Poured s w n r
      pour ea eb same_s same_w le' g =
          let b' = extend b g.extra g.capacity g.usable in
          let kept = extend_content alloc b g.extra g.capacity g.usable vb ∙ same_w in
          let go : (a.limit.invalid
                || ltb (sub32 a.limit.position a.current.position) n
                || not b.limit.invalid)
              ≡ false =
            rw (ea, grants a n va ea le', eb) refl in
          elim (Bool-cases g.ok) [
            | inr k ↦ (
              (false, a, b'),
              into_refuses a b b' n go (g.runs ∙ ap (λ t. some (t, b')) k),
              record {
                source = va;
                target = g.valid;
                moved = λ z. absurd cc;
                refused = λ z. (fa, (seen_written b' eb ∙ ap written kept), (g.refused k).0);
              },
            )
            | inl k ↦
                let (q, r) = reach a a.current n va va.current_at (inside a n va ea le') in
                let bytes = take n (drop a.current.position (content a)) in
                let taken : bytes ≡ take n s =
                  sym (
                    take-take (drop a.current.position (content a)) n
                      (a.limit.position - a.current.position)
                      (omega (arith, le', length-left a n va ea)))
                  ∙ ap (λ t. take n t) same_s in
                let size : length bytes ≡ n =
                  ap length taken ∙ omega (arith, length-take n s, le) in
                let (b₂, (run, f)) =
                  pour_bytes-Filled a.block_size (chain a a.current) n a.current q bytes b' r.gets
                    g.valid eb (omega (arith, size, g.enough k)) in
                (
                  (true, record a { current = moved q n }, b₂),
                  into_grants a b b' b₂ n q go (g.runs ∙ ap (λ t. some (t, b')) k) run,
                  record {
                    source = moved-IsValid a n va ea le' q r;
                    target = f.valid;
                    moved = λ z. (
                      moved-view a n va ea le' q r ∙ ap (λ t. unread (drop n t)) same_s,
                      seen_written b₂ f.writes
                          ∙ ap written (f.holds ∙ ap₂ (λ x y. x ++ y) kept taken),
                    );
                    refused = λ z. absurd cc;
                  },
                )
          ]
