-- ===== src/Linked/Walk.antt =====
-- The moves of `skip`, `get` and `put` of libsax/sax/net/linked_buffer.h over the blocks of a chain.
use xlibsax.Prelude.{
  ℕ, suc, ◌+◌, ◌-◌, ◌≤◌, ◌<◌, ◌≡◌, refl, sym, ap, ap₂, ◌∙◌, inl, inr, true, false, Option, some,
  List, [], ◌∷◌, ◌++◌, append-nil, append_assoc, arith, length, take, drop, length-append,
  length-take, length-drop, take-append-drop, take_all, run, ltb, Bool-cases, some-eq,
}
use xlibsax.Linked.{Pos, within, enter, read_in, write_in, skip_loop, get_loop, put_loop}
use xlibsax.Linked.Chain.{
  concat, span, Sized, take-append_left, take-append_right, drop-append_left, drop-append_right,
  drop_all,
}

-- `q` is `n` bytes behind the start of the block after that of `p`.
pub record Lands (size count n : ℕ) (p q : Pos) : Type 0 where
  pub step : ℕ
  pub few : step < count
  pub block : q.block ≡ p.block + 1 + step
  pub offset : span size step + q.curr_buf ≡ n
  pub whole : q.curr_buf + q.remaining ≡ size
  pub position : q.position ≡ p.position
  pub invalid : q.invalid ≡ p.invalid

-- The loop of `skip` stays in the chain while there is a byte more.
pub skip_loop_lem :
    (size : ℕ) (nodes : List (List ℕ)) (n : ℕ) (p : Pos)
    → n < span size (length nodes)
    → (q : Pos) × ((skip_loop size nodes n p ≡ some q) × Lands size (length nodes) n p q)
unfolding skip_loop
skip_loop_lem size [] n p h = absurd (omega arith)
skip_loop_lem size (node ∷ nodes) n p h = elim (Bool-cases (ltb size n)) [
  | inl e ↦
      let more : ltb 0 (n - size) ≡ true = ground (arith, e) in
      let (q, (run, l)) =
        skip_loop_lem size nodes (n - size) (within (enter size p) size) (ground (arith, h, e)) in
      (
        q,
        (
          rw (e, more) run,
          record {
            step = suc l.step;
            few = omega (arith, l.few);
            block = omega (arith, l.block);
            offset = ground (arith, l.offset, e);
            whole = l.whole;
            position = l.position;
            invalid = l.invalid;
          },
        ),
      )
  | inr e ↦
      let done : ltb 0 (n - n) ≡ false = ground arith in
      (
        within (enter size p) n,
        (
          rw (e, done) refl,
          record {
            step = 0;
            few = omega arith;
            block = omega arith;
            offset = omega arith;
            whole = ground (arith, e);
            position = refl;
            invalid = refl;
          },
        ),
      )
]

pub read_in_lem :
    (node : List ℕ) (i n : ℕ) → i + n ≤ length node → read_in node i n ≡ some (take n (drop i node))
unfolding read_in
read_in_lem node i n h = ground (arith, h)

pub write_in_lem :
    (node : List ℕ) (i : ℕ) (bytes : List ℕ)
    → i + length bytes ≤ length node
    → write_in node i bytes ≡ some (take i node ++ (bytes ++ drop (i + length bytes) node))
unfolding write_in
write_in_lem node i bytes h = ground (arith, h)

skip_loop_more :
    (size : ℕ) (node : List ℕ) (nodes : List (List ℕ)) (n : ℕ) (p : Pos)
    → ltb size n ≡ true
    → skip_loop size (node ∷ nodes) n p
      ≡ skip_loop size nodes (n - size) (within (enter size p) size)
unfolding skip_loop
skip_loop_more size node nodes n p e =
    let more : ltb 0 (n - size) ≡ true = ground (arith, e) in rw (e, more) refl

skip_loop_last :
    (size : ℕ) (node : List ℕ) (nodes : List (List ℕ)) (n : ℕ) (p : Pos)
    → ltb size n ≡ false
    → skip_loop size (node ∷ nodes) n p ≡ some (within (enter size p) n)
unfolding skip_loop
skip_loop_last size node nodes n p e =
    let done : ltb 0 (n - n) ≡ false = ground arith in rw (e, done) refl

-- The loop of `get` ends where that of `skip` does, with the bytes between.
pub get_loop_lem :
    (size : ℕ) (nodes : List (List ℕ)) (n : ℕ) (p q : Pos)
    → Sized size nodes
    → skip_loop size nodes n p ≡ some q
    → get_loop size nodes n p ≡ some (take n (concat nodes), q)
unfolding skip_loop get_loop
get_loop_lem size [] n p q s run = cc
get_loop_lem size (node ∷ nodes) n p q (len, s) run = elim (Bool-cases (ltb size n)) [
  | inl e ↦
      let more : ltb 0 (n - size) ≡ true = ground (arith, e) in
      let all : take size node ≡ node = rw (sym len) (take_all node) in
      let reads : read_in node 0 size ≡ some node =
        read_in_lem node 0 size (omega (arith, len)) ∙ ap (λ t. some t) all in
      let ih =
        get_loop_lem size nodes (n - size) (within (enter size p) size) q s
          (sym (skip_loop_more size node nodes n p e) ∙ run) in
      let border = take-append_right n node (concat nodes) (ground (arith, len, e)) in
      let left : n - length node ≡ n - size = ap (λ k. n - k) len in
      rw (get_loop, e, reads, e, more, ih)
        (ap (λ t. some (t, q)) (sym (border ∙ ap (λ k. node ++ take k (concat nodes)) left)))
  | inr e ↦
      let done : ltb 0 (n - n) ≡ false = ground arith in
      let short : n ≤ length node = ground (arith, len, e) in
      let ends : within (enter size p) n ≡ q =
        some-eq (sym (skip_loop_last size node nodes n p e) ∙ run) in
      rw (get_loop, e, read_in_lem node 0 n (omega (arith, short)), e, done)
        (ap₂ (λ t r. some (t, r)) (sym (take-append_left n node (concat nodes) short)) ends)
]

-- The loop of `put` too, and it leaves blocks of the same sizes with the bytes at their start.
abbrev pub Stores : ℕ → List (List ℕ) → List ℕ → Pos → Option (List (List ℕ) × Pos) → Type 0
Stores size nodes bytes q r =
    (nodes' : List (List ℕ)) × ((r ≡ some (nodes', q))
      × Sized size nodes'
      × (length nodes' ≡ length nodes)
      × (concat nodes' ≡ bytes ++ drop (length bytes) (concat nodes)))

write_in_start :
    (node bytes : List ℕ)
    → length bytes ≤ length node
    → write_in node 0 bytes ≡ some (bytes ++ drop (length bytes) node)
write_in_start node bytes h =
    write_in_lem node 0 bytes (omega (arith, h))
    ∙ ap (λ k. some (bytes ++ drop k node)) (omega arith)

over : (node bytes : List ℕ) → length bytes ≡ length node → write_in node 0 bytes ≡ some bytes
over node bytes e =
    let none_left : drop (length bytes) node ≡ [] = rw e (drop_all node) in
    write_in_start node bytes (omega (arith, e))
    ∙ ap (λ t. some t) (ap (λ t. bytes ++ t) none_left ∙ append-nil bytes)

pub put_loop_lem :
    (size : ℕ) (nodes : List (List ℕ)) (bytes : List ℕ) (p q : Pos)
    → Sized size nodes
    → skip_loop size nodes (length bytes) p ≡ some q
    → Stores size nodes bytes q (put_loop size nodes bytes p)
unfolding skip_loop put_loop
put_loop_lem size [] bytes p q s run = absurd cc
put_loop_lem size (node ∷ nodes) bytes p q (len, s) run =
    elim (Bool-cases (ltb size (length bytes))) [
      | inl e ↦
          let more : ltb 0 (length bytes - size) ≡ true = ground (arith, e) in
          let lent : length (drop size bytes) ≡ length bytes - size = length-drop size bytes in
          let part : length (take size bytes) ≡ size = ground (arith, length-take size bytes, e) in
          let here : write_in node 0 (take size bytes) ≡ some (take size bytes) =
            over node (take size bytes) (omega (arith, len, part)) in
          let rest_run : skip_loop size nodes (length (drop size bytes))
                (within (enter size p) size)
              ≡ some q =
            rw lent (sym (skip_loop_more size node nodes (length bytes) p e) ∙ run) in
          let (nodes', (stores, s', count, same)) =
            put_loop_lem size nodes (drop size bytes) (within (enter size p) size) q s rest_run in
          (
            take size bytes ∷ nodes',
            (
              rw (put_loop, e, here, e, more, stores) refl,
              (part, s'),
              ap suc count,
              joined nodes' e same,
            ),
          )
      | inr e ↦
          let done : ltb 0 (length bytes - length bytes) ≡ false = ground arith in
          let short : length bytes ≤ length node = ground (arith, len, e) in
          let ends : within (enter size p) (length bytes) ≡ q =
            some-eq (sym (skip_loop_last size node nodes (length bytes) p e) ∙ run) in
          let node' = bytes ++ drop (length bytes) node in
          let here : write_in node 0 (take (length bytes) bytes) ≡ some node' =
            ap (λ t. write_in node 0 t) (take_all bytes) ∙ write_in_start node bytes short in
          let border = drop-append_left (length bytes) node (concat nodes) short in
          (
            node' ∷ nodes,
            (
              rw (put_loop, e, here, e, done) (ap (λ r. some (node' ∷ nodes, r)) ends),
              (
                omega (
                  arith,
                  length-append bytes (drop (length bytes) node),
                  length-drop (length bytes) node,
                  len,
                  short,
                ),
                s,
              ),
              refl,
              append_assoc bytes (drop (length bytes) node) (concat nodes)
                  ∙ ap (λ t. bytes ++ t) (sym border),
            ),
          )
    ]
  where
    joined :
        (nodes' : List (List ℕ))
        → ltb size (length bytes) ≡ true
        → concat nodes' ≡ drop size bytes ++ drop (length (drop size bytes)) (concat nodes)
        → take size bytes ++ concat nodes' ≡ bytes ++ drop (length bytes) (node ++ concat nodes)
    joined nodes' e same =
        let border =
          drop-append_right (length bytes) node (concat nodes) (ground (arith, len, e)) in
        let left : length (drop size bytes) ≡ length bytes - length node =
          omega (arith, len, length-drop size bytes) in
        let rest = drop (length (drop size bytes)) (concat nodes) in
        ap (λ t. take size bytes ++ t) same
        ∙ sym (append_assoc (take size bytes) (drop size bytes) rest)
        ∙ ap₂ (λ s t. s ++ t) (take-append-drop size bytes)
            (ap (λ k. drop k (concat nodes)) left ∙ sym border)
