-- ===== src/Timer/Tick.antt =====
-- One tick of libsax/sax/timer.c: the cascade, and `fire` on the ring that has come up.
use xlibsax.Prelude.{
  ℕ, zero, suc, ◌%◌, ◌^◌, ◌≤◌, ◌<◌, ◌≡◌, refl, sym, ap, ◌∙◌, ◌≢◌, ◌⊎◌, inl, inr, ◌&&◌, some, List,
  [], ◌∷◌, ◌++◌, append-nil, append_assoc, arith, length, All, On, All-map, ◌==◌, ==_refl, ==_iff,
  ==_ne, Bool-cases, add32, sub32, map_right,
}
use xlibsax.Pool.Xslab
use xlibsax.Timer.{
  Node, Level, lv1, lv2, lv3, lv4, Timer, put_ring, Request, same_level, fire_node, fire, cascade,
  tick,
}
use xlibsax.Timer.Place.{IsPlaced, IsPlaced-ahead, IsPlaced-next}
use xlibsax.Timer.Wheel.{Holds, settled, strictly, anywhere, put_ring-All, same_ring}
use xlibsax.Timer.Keep.{Has, On-put_ring_self}
use xlibsax.Timer.Cascade.{cascade-Holds, cascade-Has}
use xlibsax.Timer.Start.{Valid, due_ring}
use xlibsax.Timer.Serve.{IsPolite, IsGentle, serve_all_total}

settled_le : (lv : Level) → settled lv ≤ 1
settled_le lv1 = omega arith
settled_le lv2 = omega arith
settled_le lv3 = omega arith
settled_le lv4 = omega arith

-- What firing does: `news` are the nodes whose callback ran, each of them at its expiry.
pub record Fires (t t' : Timer) : Type 0 where
  pub valid : Valid strictly t'
  pub last : t'.last ≡ t.last
  pub news : List Node
  pub fired : t'.fired ≡ t.fired ++ news
  pub exact : All (λ (n : Node). n.expire ≡ t.last) news

-- The ring that has come up holds nodes that expire now, and no others.
due_now : (now e : ℕ) → now < 2 ^ 32 → IsPlaced 0 now lv1 (now % 256) e → e ≡ now
due_now now e hn h = omega arith

-- With that ring empty, every node is ahead of the clock.
empty-strictly : (t : Timer) → Valid settled t → due_ring t ≡ [] → Valid strictly t
empty-strictly t v nil = record { clock = v.clock; pool = v.pool; placed = go }
  where
    go : Holds strictly t.last t.wheel
    go lv2 j = v.placed lv2 j
    go lv3 j = v.placed lv3 j
    go lv4 j = v.placed lv4 j
    go lv1 j = elim (Bool-cases (t.last % 256 == j)) [
      | inl e ↦ rw (← (==_iff _ j).0 e) (rw nil tt)
      | inr e ↦
          All-map (λ (n : Node). IsPlaced 0 t.last lv1 j n.expire) _ (t.wheel lv1 j)
            (λ n q. IsPlaced-ahead t.last lv1 j n.expire v.clock (λ d. ==_ne _ j e d.1) q)
            (v.placed lv1 j)
    ]

-- The timer as `g_timer_poll` hands it to `fire`.
abbrev pub advanced : Timer → Timer
advanced t = record t { wheel = cascade t.wheel (add32 t.last 1); last = add32 t.last 1 }

late : (now i : ℕ) (lv : Level) (e : ℕ) → now < 2 ^ 32 → IsPlaced 1 now lv i e → 1 ≤ sub32 e now
late now i lv1 e h q = omega arith
late now i lv2 e h q = omega arith
late now i lv3 e h q = omega arith
late now i lv4 e h q = omega arith

-- A node of a valid wheel has a delay left.
pub Has-ahead :
    (t : Timer) (n : Node) → Valid strictly t → Has t.wheel n → 1 ≤ sub32 n.expire t.last
Has-ahead t n v (lv, i, o) = go (t.wheel lv i) (v.placed lv i) o
  where
    go :
        (ns : List Node)
        → All (λ (m : Node). IsPlaced 1 t.last lv i m.expire) ns
        → On n ns
        → 1 ≤ sub32 n.expire t.last
    go [] q e = absurd e
    go (m ∷ ns) q (inl p) = rw p (late t.last i lv m.expire v.clock q.0)
    go (m ∷ ns) q (inr e) = go ns q.1 e

pub Has-ne : (t : Timer) (n : Node) → Valid strictly t → Has t.wheel n → n.expire ≢ t.last
Has-ne t n v has e = absurd (omega (arith, Has-ahead t n v has, v.clock))

module _ (func : Node → List Request) (polite : (n : Node) → All IsPolite (func n)) where
  -- One round of `fire`.
  fire_node_total :
      (t : Timer) (i : ℕ) (node : Node) (rest : List Node)
      → Valid settled t
      → i ≡ t.last % 256
      → t.wheel lv1 i ≡ node ∷ rest
      → (t' : Timer) × (fire_node func t i node rest ≡ some t')
        × Valid settled t'
        × (t'.last ≡ t.last)
        × (t'.fired ≡ t.fired ++ (node ∷ []))
        × (length (due_ring t') ≤ length rest)
        × (((n : Node) → All IsGentle (func n))
            → (n : Node) → Has t.wheel n
            → (n ≡ node) ⊎ Has t'.wheel n)
  unfolding fire_node
  fire_node_total t i node rest v ei ring =
      let (t₂, run, k, keep) = serve_all_total settled settled_le (func node) t₁ v₁ (polite node) in
      (
        record t₂ { pool = Xslab.free t₂.pool node.addr },
        rw (run, fire_node),
        record {
          clock = k.valid.clock;
          pool = Xslab.free-IsValid t₂.pool node.addr k.valid.pool;
          placed = k.valid.placed;
        },
        k.last,
        k.fired,
        omega (arith, k.due, ap length due₁),
        λ g n h. map_right (keep (g node) n) (still n h),
      )
    where
      t₁ : Timer
      t₁ = record t {
        wheel = put_ring t.wheel lv1 i rest;
        count = sub32 t.count 1;
        fired = t.fired ++ (node ∷ []);
      }

      here : All (λ (n : Node). IsPlaced 0 t.last lv1 i n.expire) (node ∷ rest)
      here = rw ring at (v.placed lv1 i)

      v₁ : Valid settled t₁
      v₁ = record {
        clock = v.clock;
        pool = v.pool;
        placed =
            put_ring-All (λ lv j m. IsPlaced (settled lv) t.last lv j m.expire) t.wheel lv1 i rest
              v.placed here.1;
      }

      due₁ : due_ring t₁ ≡ rest
      due₁ = rw (← ei, ==_refl i)

      still : (n : Node) → Has t.wheel n → (n ≡ node) ⊎ Has t₁.wheel n
      still n (lv, j, o) = elim (Bool-cases (same_level lv1 lv && i == j)) [
        | inr e ↦ inr (lv, j, rw e o)
        | inl e ↦
            let (p, q) = same_ring lv1 lv i j e in
            let o' : On n (t.wheel lv1 i) = rw (q, p) o in
            let o'' : On n (node ∷ rest) = rw ring at o' in
            map_right (λ r. (lv1, i, On-put_ring_self t.wheel lv1 i rest n r)) o''
      ]

  -- What `fire` leaves: `Fires`, and each node stays or is fired if no callback cancels.
  Outcome : Timer → Timer → Type 0
  Outcome t t' =
      (o : Fires t t') × (((n : Node) → All IsGentle (func n))
        → (n : Node) → Has t.wheel n
        → Has t'.wheel n ⊎ On n o.news)

  first :
      (t : Timer) (i : ℕ) (node : Node) (rest : List Node)
      → Valid settled t
      → i ≡ t.last % 256
      → t.wheel lv1 i ≡ node ∷ rest
      → IsPlaced 0 t.last lv1 (t.last % 256) node.expire
  first t i node rest v ei er =
      let h : All (λ (n : Node). IsPlaced 0 t.last lv1 i n.expire) (node ∷ rest) =
        rw er at (v.placed lv1 i) in
      rw (← ei) h.0

  fire_total :
      (fuel : ℕ) (t : Timer) (i : ℕ) (ring : List Node)
      → Valid settled t
      → i ≡ t.last % 256
      → t.wheel lv1 i ≡ ring
      → length ring < fuel
      → (t' : Timer) × (fire func fuel t i ≡ some t') × Outcome t t'
  unfolding fire Outcome
  fire_total zero t i ring v ei er h = absurd (omega arith)
  fire_total (suc fuel) t i [] v ei er h = (
    t,
    rw (er, fire),
    (
      record {
        valid = empty-strictly t v (ap (t.wheel lv1) (sym ei) ∙ er);
        last = refl;
        news = [];
        fired = sym (append-nil t.fired);
        exact = tt;
      },
      λ g n o. inl o,
    ),
  )
  fire_total (suc fuel) t i (node ∷ rest) v ei er h =
      let (t₁, run₁, v₁, l₁, f₁, d₁, k₁) = fire_node_total t i node rest v ei er in
      let ei₁ : i ≡ t₁.last % 256 = rw l₁ ei in
      let (t₂, run₂, (o, k₂)) =
        fire_total fuel t₁ i (t₁.wheel lv1 i) v₁ ei₁ refl
          (omega (arith, d₁, ap (λ k. length (t₁.wheel lv1 k)) ei₁)) in
      (
        t₂,
        rw (er, fire, run₁) run₂,
        (
          record {
            valid = o.valid;
            last = o.last ∙ l₁;
            news = node ∷ o.news;
            fired = o.fired ∙ rw f₁ (append_assoc t.fired (node ∷ []) o.news);
            exact = (
              due_now t.last node.expire v.clock (first t i node rest v ei er),
              All-map (λ (n : Node). n.expire ≡ t₁.last) _ o.news (λ n q. q ∙ l₁) o.exact,
            );
          },
          λ g n h. after (k₂ g n) (k₁ g n h),
        ),
      )
    where
      after : {A B C D : Type 0} → (A → B ⊎ C) → D ⊎ A → B ⊎ (D ⊎ C)
      after f (inl d) = inr (inl d)
      after f (inr a) = map_right inr (f a)

  anywhere_next : (t : Timer) → Valid strictly t → Holds anywhere (add32 t.last 1) t.wheel
  anywhere_next t v lv i =
      All-map (λ (n : Node). IsPlaced 1 t.last lv i n.expire) _ (t.wheel lv i)
        (λ n q. IsPlaced-next t.last lv i n.expire v.clock q) (v.placed lv i)

  advanced-Valid : (t : Timer) → Valid strictly t → Valid settled (advanced t)
  advanced-Valid t v = record {
    clock = omega arith;
    pool = v.pool;
    placed = cascade-Holds (add32 t.last 1) (omega arith) t.wheel (anywhere_next t v);
  }

  -- One tick: the clock moves by one, and what was fired expires exactly now.
  pub tick_total :
      (fuel : ℕ) (t : Timer)
      → Valid strictly t
      → length (due_ring (advanced t)) < fuel
      → (t' : Timer) × (tick func fuel t ≡ some t')
        × (o : Fires (advanced t) t') × (((n : Node) → All IsGentle (func n))
            → (n : Node) → Has t.wheel n
            → (n.expire ≡ t'.last → On n o.news) × (n.expire ≢ t'.last → Has t'.wheel n))
  unfolding tick Outcome
  tick_total fuel t v h =
      let (t', run, (o, keep)) =
        fire_total fuel (advanced t) (add32 t.last 1 % 256) _ (advanced-Valid t v) refl refl h in
      (
        t',
        run,
        o,
        λ g n has. split n t' o (
            keep g n
              (cascade-Has (add32 t.last 1) (omega arith) t.wheel n (anywhere_next t v) has)),
      )
    where
      exact_at :
          (n : Node) (ns : List Node) (now : ℕ)
          → All (λ (m : Node). m.expire ≡ now) ns
          → On n ns
          → n.expire ≡ now
      exact_at n [] now q e = absurd e
      exact_at n (m ∷ ns) now q (inl e) = ap (λ (x : Node). x.expire) e ∙ q.0
      exact_at n (m ∷ ns) now q (inr e) = exact_at n ns now q.1 e

      split :
          (n : Node) (t' : Timer) (o : Fires (advanced t) t')
          → Has t'.wheel n ⊎ On n o.news
          → (n.expire ≡ t'.last → On n o.news) × (n.expire ≢ t'.last → Has t'.wheel n)
      split n t' o (inl has) = (λ e. absurd (Has-ne t' n o.valid has e), λ e. has)
      split n t' o (inr on) =
          (λ e. on, λ ne. absurd (ne (exact_at n o.news _ o.exact on ∙ sym o.last)))
