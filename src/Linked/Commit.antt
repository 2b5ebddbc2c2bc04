-- ===== src/Linked/Commit.antt =====
-- `direct_get` and `commit_get` of libsax/sax/net/linked_buffer.h, one after the other.
use xlibsax.Prelude.{
  ℕ, suc, ◌+◌, ◌-◌, ◌^◌, ◌≤◌, ◌<◌, ◌≡◌, refl, sym, ap, ◌∙◌, ◌≢◌, inl, inr, true, false, not, ◌||◌,
  none, some, List, [], ◌∷◌, arith, length, drop, length-drop, run, ltb, ◌==◌, if◌then◌else◌,
  ==_iff, Bool-cases, add32, sub32, some-eq,
}
use xlibsax.Buffer.Valid.{written, unread}
use xlibsax.Linked.{Pos, LinkedBuffer, chain, enter, moved}
use xlibsax.Linked.Direct.{direct_get, commit_get}
use xlibsax.Linked.Chain.{span, span_lower}
use xlibsax.Linked.Valid.{view, Stands, IsValid}
use xlibsax.Linked.Reach.{chain_lem}
use xlibsax.Linked.Transfer.{
  left, length-left, difference, shifted-IsValid, shifted-view, seen_written, seen_unread,
}
use xlibsax.Linked.Compact.{limit_behind}

head_of : (xs : List (List ℕ)) → 0 < length xs → (x : List ℕ) × (ys : List (List ℕ)) × (xs ≡ x ∷ ys)
head_of [] h = absurd (omega arith)
head_of (x ∷ xs) h = (x, xs, refl)

-- A valid chain that is read and has unread bytes; `n` of those that `direct_get` offers are taken.
module _ (b : LinkedBuffer) (v : IsValid b) (e : b.limit.invalid ≡ false) (n : ℕ) where
  -- What `direct_get` offers, in the two cases.
  offered : ℕ
  offered =
      if b.current.block == b.limit.block
      then b.limit.position - b.current.position
      else b.current.remaining

  direct_get-offered : direct_get b ≡ some ((b.current.block, b.current.curr_buf), offered)
  unfolding direct_get offered
  direct_get-offered =
      ap
        (λ t.
          if t
          then none
          else some (
            (b.current.block, b.current.curr_buf),
            if b.current.block == b.limit.block
                then sub32 b.limit.position b.current.position
                else b.current.remaining,
          ))
        e
      ∙ ap
          (λ t. some (
            (b.current.block, b.current.curr_buf),
            if b.current.block == b.limit.block then t else b.current.remaining,
          ))
          (difference b 0 v e)

  module _ (some_left : b.current.position < b.limit.position) (h : n ≤ offered) where
    same_span :
        (b.current.block == b.limit.block) ≡ true
        → span b.block_size (v.limit_at e).index ≡ span b.block_size v.current_at.index
    same_span q =
        let same : (v.limit_at e).index ≡ v.current_at.index =
          ground (arith, q, (v.limit_at e).named, v.current_at.named) in
        ap (λ j. span b.block_size j) same

    later : (b.current.block == b.limit.block) ≡ false → suc v.current_at.index < length b.blocks
    later q =
        let l = v.limit_at e in
        let apart : v.current_at.index ≢ l.index =
          λ i. ground (arith, q, i, v.current_at.named, l.named) in
        omega (arith, limit_behind b v e some_left, apart, l.inside)

    size_small : b.block_size < 2 ^ 32
    size_small = omega (
      arith,
      span_lower b.block_size 0 (length b.blocks) (omega (arith, v.current_at.inside)),
      v.held,
      v.small,
    )

    -- The offered bytes lie in the block of the position, before the limit.
    in_block : n ≤ b.current.remaining
    unfolding offered
    in_block = elim (Bool-cases (b.current.block == b.limit.block)) [
      | inr q ↦
          let offers : offered ≡ b.current.remaining = unfold offered in rw q refl in
          omega (arith, h, offers)
      | inl q ↦
          let offers : offered ≡ b.limit.position - b.current.position =
            unfold offered in rw q refl in
          omega (
            arith,
            h,
            offers,
            (v.limit_at e).offset,
            (v.limit_at e).whole,
            v.current_at.offset,
            v.current_at.whole,
            same_span q,
          )
    ]

    before_limit : b.current.position + n ≤ b.limit.position
    unfolding offered
    before_limit = elim (Bool-cases (b.current.block == b.limit.block)) [
      | inr q ↦
          let offers : offered ≡ b.current.remaining = unfold offered in rw q refl in
          let l = v.limit_at e in
          let apart : v.current_at.index ≢ l.index =
            λ i. ground (arith, q, i, v.current_at.named, l.named) in
          let after =
            span_lower b.block_size v.current_at.index l.index
              (omega (arith, limit_behind b v e some_left, apart)) in
          omega (arith, h, offers, after, l.offset, v.current_at.offset, v.current_at.whole)
      | inl q ↦
          let offers : offered ≡ b.limit.position - b.current.position =
            unfold offered in rw q refl in
          omega (arith, h, offers, some_left)
    ]

    all_left : n ≤ length (left b n v e)
    all_left = omega (arith, length-left b n v e, before_limit)

    diff_small : sub32 b.current.remaining n ≡ b.current.remaining - n
    diff_small = omega (arith, in_block, size_small)

    -- The position in the same block, and at the start of the next one.
    near : Pos
    near = record (moved b.current n) {
      curr_buf = b.current.curr_buf + n;
      remaining = sub32 b.current.remaining n;
    }

    on : add32 b.current.position n ≡ b.current.position + n
    on = omega (arith, before_limit, (v.limit_in e).1, v.small, v.used)

    near-Stands : Stands b near
    unfolding near
    near-Stands = record {
      index = v.current_at.index;
      named = v.current_at.named;
      inside = v.current_at.inside;
      offset = omega (arith, v.current_at.offset, on);
      whole = omega (arith, v.current_at.whole, in_block, diff_small);
    }

    next-Stands :
        (b.current.block == b.limit.block) ≡ false
        → b.current.remaining ≡ n
        → Stands b (moved (enter b.block_size b.current) n)
    next-Stands q r = record {
      index = suc v.current_at.index;
      named = omega (arith, v.current_at.named);
      inside = later q;
      offset = omega (arith, v.current_at.offset, v.current_at.whole, on, r);
      whole = omega arith;
    }

    guard :
        (b.limit.invalid
          || not (b.current.block == b.current.block)
          || not (b.current.curr_buf == b.current.curr_buf))
        ≡ false
    guard =
        let same_block : (b.current.block == b.current.block) ≡ true = ground arith in
        let same_byte : (b.current.curr_buf == b.current.curr_buf) ≡ true = ground arith in
        rw (e, same_block, same_byte) refl

    next_block :
        (b.current.block == b.limit.block) ≡ false
        → (node : List ℕ) × (nodes : List (List ℕ)) × (drop 1 (chain b b.current) ≡ node ∷ nodes)
    next_block q =
        let at = ap (λ t. length (drop 1 t)) (chain_lem b b.current v.current_at) in
        let count = length-drop 1 (drop v.current_at.index b.blocks) in
        head_of (drop 1 (chain b b.current))
          (omega (arith, at, count, length-drop v.current_at.index b.blocks, later q))

    abbrev Commits : Type 0
    Commits =
        (b' : LinkedBuffer) × ((commit_get b (b.current.block, b.current.curr_buf) n
            ≡ some (true, b'))
          × IsValid b'
          × (view b' ≡ unread (drop n (left b n v e))))

    at_near :
        commit_get b (b.current.block, b.current.curr_buf) n
          ≡ some (true, record b { current = near })
        → Commits
    unfolding near
    at_near run = (
      record b { current = near },
      (
        run,
        shifted-IsValid b n v e all_left near near-Stands on v.current_valid,
        shifted-view b n v e all_left near near-Stands on v.current_valid,
      ),
    )

    commits : Commits
    unfolding commit_get near
    commits = elim (Bool-cases (b.current.block == b.limit.block)) [
      | inl q ↦
          let fits : ltb b.limit.position (add32 b.current.position n) ≡ false =
            ground (arith, before_limit, on) in
          at_near (rw (guard, q, fits) refl)
      | inr q ↦
          let fits : ltb b.current.remaining n ≡ false = ground (arith, in_block) in
          elim (Bool-cases (b.current.remaining == n)) [
            | inr r ↦ at_near (rw (guard, q, fits, r) refl)
            | inl r ↦
                let p = moved (enter b.block_size b.current) n in
                let (node, nodes, found) = next_block q in
                let stands = next-Stands q ((==_iff _ _).0 r) in
                (
                  record b { current = p },
                  (
                    rw (guard, q, fits, r, found) refl,
                    shifted-IsValid b n v e all_left p stands on v.current_valid,
                    shifted-view b n v e all_left p stands on v.current_valid,
                  ),
                )
          ]
    ]

-- On a valid chain that is read and has unread bytes, `direct_get` offers no more bytes than are
-- unread, and `commit_get` of its pointer takes the next `n` unread bytes for each `n` that it
-- offers, and leaves the others and a valid chain.
pub commit_get-direct_get :
    (b : LinkedBuffer) (x : ℕ) (s : List ℕ) (ptr : ℕ × ℕ) (len n : ℕ)
    → IsValid b
    → view b ≡ unread (x ∷ s)
    → direct_get b ≡ some (ptr, len)
    → n ≤ len
    → (len ≤ length (x ∷ s))
      × ((b' : LinkedBuffer) × ((commit_get b ptr n ≡ some (true, b'))
            × IsValid b'
            × (view b' ≡ unread (drop n (x ∷ s)))))
unfolding left offered
commit_get-direct_get b x s ptr len n v f d h = elim (Bool-cases b.limit.invalid) [
  | inl e ↦ absurd (two_frames (sym (seen_written b e) ∙ f))
  | inr e ↦
      let same : left b n v e ≡ x ∷ s = ground (arith, sym (seen_unread b e) ∙ f) in
      let lengths : b.limit.position - b.current.position ≡ length (x ∷ s) =
        sym (length-left b n v e) ∙ ap length same in
      let offer : ((b.current.block, b.current.curr_buf), offered b v e n) ≡ (ptr, len) =
        some-eq (sym (direct_get-offered b v e n) ∙ d) in
      let more : b.current.position < b.limit.position = omega (arith, lengths) in
      let all : offered b v e n ≡ len = ap (λ (y : (ℕ × ℕ) × ℕ). y.1) offer in
      let (b', (run, v', u)) = commits b v e n more (omega (arith, h, all)) in
      let whole : b.current.position + offered b v e n ≤ b.limit.position =
        before_limit b v e (offered b v e n) more (omega arith) in
      (
        omega (arith, whole, all, lengths),
        (
          b',
          (
            ap (λ (y : (ℕ × ℕ) × ℕ). commit_get b y.0 n) (sym offer) ∙ run,
            v',
            u ∙ ap (λ t. unread (drop n t)) same,
          ),
        ),
      )
]
  where
    two_frames : {xs ys : List ℕ} → written xs ≡ unread ys → ⊥
    two_frames p = absurd cc
