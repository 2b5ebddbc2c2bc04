-- ===== src/Linked/Pour.antt =====
-- `get` of libsax/sax/net/linked_buffer.h from one chain into another.
use xlibsax.Prelude.{
  ℕ, ◌+◌, ◌-◌, ◌<◌, ◌≡◌, refl, sym, ap, ◌∙◌, inl, inr, Bool, true, false, not, ◌||◌, Option, none,
  some, List, [], ◌∷◌, ◌++◌, append_assoc, arith, length, take, length-append, run, ltb,
  if◌then◌else◌, Bool-cases, Option-cases, add32, sub32, some-eq,
}
use mathlib.Core.Path.{subst}
use xlibsax.Linked.{
  Pos, LinkedBuffer, chain, within, enter, moved, at_most, read_in, get_loop, room, put,
}
use xlibsax.Linked.Valid.{content, IsValid}
use xlibsax.Linked.Reach.{reach}
use xlibsax.Linked.Put.{stored, puts, stored-IsValid, stored-view, put_grants}

module _ (alloc : ℕ → Option (List ℕ)) where
  -- `get(buf, length)` into another chain: the loop, and the whole. What its `put` returns is ignored.
  unfoldable pub put_on : LinkedBuffer → List ℕ → Option LinkedBuffer
  put_on dst bytes = elim (put alloc dst bytes) [ none ↦ none | some (ok, dst') ↦ some dst' ]

  unfoldable pub pour_loop :
      ℕ → List (List ℕ) → ℕ → Pos → LinkedBuffer → Option (LinkedBuffer × Pos)
  pour_loop block_size [] n p dst = none
  pour_loop block_size (node ∷ nodes) n p dst =
      let tmp = at_most block_size n in
      let p' = within (enter block_size p) tmp in
      let rest = λ (d : LinkedBuffer). pour_loop block_size nodes (n - tmp) p' d in
      elim (read_in node 0 tmp) [
        | none ↦ none
        | some bytes ↦ elim (put_on dst bytes) [
          | none ↦ none
          | some dst' ↦ if ltb 0 (n - tmp) then rest dst' else some (dst', p')
        ]
      ]

  unfoldable pub pour_bytes :
      ℕ → List (List ℕ) → ℕ → Pos → LinkedBuffer → Option (LinkedBuffer × Pos)
  pour_bytes block_size [] n p dst = none
  pour_bytes block_size (node ∷ nodes) n p dst =
      let tmp = if ltb n p.remaining then n else p.remaining in
      elim (read_in node p.curr_buf tmp) [
        | none ↦ none
        | some bytes ↦ elim (put_on dst bytes) [
          | none ↦ none
          | some dst' ↦
              if ltb n p.remaining
              then some (dst', within p n)
              else pour_loop block_size nodes (n - p.remaining) p dst'
        ]
      ]

  unfoldable pub get_into :
      LinkedBuffer → LinkedBuffer → ℕ → Option (Bool × LinkedBuffer × LinkedBuffer)
  get_into src dst n =
      if src.limit.invalid
        || ltb (sub32 src.limit.position src.current.position) n
        || not dst.limit.invalid
      then some (false, src, dst)
      else elim (room alloc dst n) [
        | none ↦ none
        | some (false, dst') ↦ some (false, src, dst')
        | some (true, dst') ↦
            elim (pour_bytes src.block_size (chain src src.current) n src.current dst') [
              | none ↦ none
              | some (dst'', p) ↦ some (true, record src { current = moved p n }, dst'')
            ]
      ]

pub none-ne-some : {A : Type 0} {a : A} → none ≡ some a → ⊥
none-ne-some e = absurd cc

-- More bytes are written, and nothing else is changed that can be seen.
pub record Filled (dst : LinkedBuffer) (bytes : List ℕ) (dst' : LinkedBuffer) : Type 0 where
  pub valid : IsValid dst'
  pub writes : dst'.limit.invalid ≡ true
  pub usable : dst'.usable ≡ dst.usable
  pub position : dst'.current.position ≡ dst.current.position + length bytes
  pub holds :
      take dst'.current.position (content dst') ≡ take dst.current.position (content dst) ++ bytes

pub both-Filled :
    (a b c : LinkedBuffer) (xs ys : List ℕ) → Filled a xs b → Filled b ys c → Filled a (xs ++ ys) c
both-Filled a b c xs ys f g = record {
  valid = g.valid;
  writes = g.writes;
  usable = g.usable ∙ f.usable;
  position = omega (arith, f.position, g.position, length-append xs ys);
  holds =
      g.holds
      ∙ ap (λ t. t ++ ys) f.holds
      ∙ append_assoc (take a.current.position (content a)) xs ys;
}

module _ (alloc : ℕ → Option (List ℕ)) where
  room_fits :
      (b : LinkedBuffer) (n : ℕ)
      → IsValid b
      → b.current.position + n < b.usable
      → room alloc b n ≡ some (true, b)
  unfolding room
  room_fits b n v h =
      let end : add32 b.current.position n ≡ b.current.position + n =
        omega (arith, h, v.small, v.used) in
      let one : add32 (b.current.position + n) 1 ≡ b.current.position + n + 1 =
        omega (arith, h, v.small, v.used) in
      let fits : ltb b.usable (b.current.position + n + 1) ≡ false = ground (arith, h) in
      rw (end, one, fits) refl

  -- A `put` that has room.
  pub put_on-Filled :
      (b : LinkedBuffer) (bytes : List ℕ)
      → IsValid b
      → b.limit.invalid ≡ true
      → b.current.position + length bytes < b.usable
      → (b' : LinkedBuffer) × ((put_on alloc b bytes ≡ some b') × Filled b bytes b')
  unfolding put_on
  put_on-Filled b bytes v e h =
      let (q, r) = reach b b.current (length bytes) v v.current_at h in
      let (nodes, p) = puts b bytes v h q r in
      let run = put_grants alloc b b bytes nodes q e (room_fits b (length bytes) v h) p.runs in
      (
        stored b nodes q (length bytes),
        (
          rw (put_on, run) refl,
          record {
            valid = stored-IsValid b bytes v h e q r nodes p;
            writes = e;
            usable = refl;
            position = r.position;
            holds = stored-view b bytes v h q r nodes p;
          },
        ),
      )

  pour_more :
      (size : ℕ) (node : List ℕ) (nodes : List (List ℕ)) (n : ℕ) (p q : Pos) (front : List ℕ)
      (b b₁ b₂ : LinkedBuffer)
      → ltb size n ≡ true
      → read_in node 0 size ≡ some front
      → put_on alloc b front ≡ some b₁
      → pour_loop alloc size nodes (n - size) (within (enter size p) size) b₁ ≡ some (b₂, q)
      → pour_loop alloc size (node ∷ nodes) n p b ≡ some (b₂, q)
  unfolding pour_loop
  pour_more size node nodes n p q front b b₁ b₂ y a run₁ run₂ =
      let again : ltb 0 (n - size) ≡ true = ground (arith, y) in
      rw (pour_loop, y, a, run₁, y, again, run₂) refl

  pour_last :
      (size : ℕ) (node : List ℕ) (nodes : List (List ℕ)) (n : ℕ) (p : Pos) (front : List ℕ)
      (b b₁ : LinkedBuffer)
      → ltb size n ≡ false
      → read_in node 0 n ≡ some front
      → put_on alloc b front ≡ some b₁
      → pour_loop alloc size (node ∷ nodes) n p b ≡ some (b₁, within (enter size p) n)
  unfolding pour_loop
  pour_last size node nodes n p front b b₁ y a run₁ =
      let done : ltb 0 (n - n) ≡ false = ground arith in rw (pour_loop, y, a, run₁, y, done) refl

  -- The loop puts what that of `get` gets.
  pub pour_loop-Filled :
      (size : ℕ) (nodes : List (List ℕ)) (n : ℕ) (p q : Pos) (bytes : List ℕ) (b : LinkedBuffer)
      → get_loop size nodes n p ≡ some (bytes, q)
      → IsValid b
      → b.limit.invalid ≡ true
      → b.current.position + length bytes < b.usable
      → (b' : LinkedBuffer) × ((pour_loop alloc size nodes n p b ≡ some (b', q))
          × Filled b bytes b')
  unfolding get_loop pour_loop
  pour_loop-Filled size [] n p q bytes b run v e h = absurd cc
  pour_loop-Filled size (node ∷ nodes) n p q bytes b run v e h = elim (Bool-cases (ltb size n)) [
    | inl y ↦
        let again : ltb 0 (n - size) ≡ true = ground (arith, y) in
        let p' = within (enter size p) size in
        elim (Option-cases (read_in node 0 size)) [
          | inl a ↦ absurd (none-ne-some (sym (rw (get_loop, y, a) refl) ∙ run))
          | inr (front, a) ↦ elim (Option-cases (get_loop size nodes (n - size) p')) [
            | inl c ↦ absurd (none-ne-some (sym (rw (get_loop, y, a, y, again, c) refl) ∙ run))
            | inr ((more, q'), c) ↦
                let got : get_loop size (node ∷ nodes) n p ≡ some (front ++ more, q') =
                  rw (get_loop, y, a, y, again, c) refl in
                let same : (front ++ more, q') ≡ (bytes, q) = some-eq (sym got ∙ run) in
                let sum : length bytes ≡ length front + length more =
                  ap (λ (x : List ℕ × Pos). length x.0) (sym same) ∙ length-append front more in
                let (b₁, (run₁, f₁)) = put_on-Filled b front v e (omega (arith, h, sum)) in
                let (b₂, (run₂, f₂)) =
                  pour_loop-Filled size nodes (n - size) p' q' more b₁ c f₁.valid f₁.writes
                    (omega (arith, h, sum, f₁.position, f₁.usable)) in
                (
                  b₂,
                  (
                    pour_more size node nodes n p q' front b b₁ b₂ y a run₁ run₂
                        ∙ ap (λ (x : List ℕ × Pos). some (b₂, x.1)) same,
                    subst (λ (x : List ℕ × Pos). Filled b x.0 b₂) same
                        (both-Filled b b₁ b₂ front more f₁ f₂),
                  ),
                )
          ]
        ]
    | inr y ↦
        let done : ltb 0 (n - n) ≡ false = ground arith in
        let p' = within (enter size p) n in
        elim (Option-cases (read_in node 0 n)) [
          | inl a ↦ absurd (none-ne-some (sym (rw (get_loop, y, a) refl) ∙ run))
          | inr (front, a) ↦
              let got : get_loop size (node ∷ nodes) n p ≡ some (front, p') =
                rw (get_loop, y, a, y, done) refl in
              let same : (front, p') ≡ (bytes, q) = some-eq (sym got ∙ run) in
              let sum : length bytes ≡ length front =
                ap (λ (x : List ℕ × Pos). length x.0) (sym same) in
              let (b₁, (run₁, f₁)) = put_on-Filled b front v e (omega (arith, h, sum)) in
              (
                b₁,
                (
                  pour_last size node nodes n p front b b₁ y a run₁
                      ∙ ap (λ (x : List ℕ × Pos). some (b₁, x.1)) same,
                  subst (λ (x : List ℕ × Pos). Filled b x.0 b₁) same f₁,
                ),
              )
        ]
  ]
