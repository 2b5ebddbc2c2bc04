-- ===== src/Pool/Fsb/Init.antt =====
-- `g_fsb_init` of libsax/sax/mempool.c makes a valid pool.
use xlibsax.Prelude.{
  ℕ, zero, suc, ◌+◌, ◌^◌, ◌≤◌, ◌<◌, ◌≡◌, refl, ap, ap₂, ◌∙◌, ◌≢◌, ◌⊎◌, inl, inr, true, some, List,
  [], ◌∷◌, ◌++◌, arith, length, get_or, All, On, Distinct, length-append, ◌==◌, ==_refl, ==_iff,
  ==_ne, Bool-cases,
}
use xlibsax.Pool.Fsb.{
  Header, Fsb, data_of, put_header, no_header, next, id_range, clear_headers, init, header_size,
}
use xlibsax.Pool.Fsb.Ring.{window}
use xlibsax.Pool.Fsb.Laws.{free_count, free_ids, IsValid, data_of-ne}

length-id_range : (i n : ℕ) → length (id_range i n) ≡ n
length-id_range i zero = refl
length-id_range i (suc n) = ap suc (length-id_range (i + 1) n)

On-id_range : (i n a : ℕ) → On a (id_range i n) → (i ≤ a) × (a < i + n)
On-id_range i zero a h = absurd h
On-id_range i (suc n) a (inl e) = (omega arith, omega arith)
On-id_range i (suc n) a (inr h) =
    let (p, q) = On-id_range (i + 1) n a h in (omega arith, omega arith)

id_range-On : (i n a : ℕ) → i ≤ a → a < i + n → On a (id_range i n)
id_range-On i zero a h k = absurd (omega arith)
id_range-On i (suc n) a h k = elim (Bool-cases (a == i)) [
  | inl e ↦ inl ((==_iff a i).0 e)
  | inr e ↦ inr (id_range-On (i + 1) n a (omega (arith, ==_ne a i e)) (omega arith))
]

Distinct-id_range : (i n : ℕ) → Distinct (id_range i n)
Distinct-id_range i zero = tt
Distinct-id_range i (suc n) =
    (λ o. absurd (omega (arith, (On-id_range (i + 1) n i o).0)), Distinct-id_range (i + 1) n)

All-id_range : (i n c : ℕ) → i + n ≤ c → All (λ x. x < c) (id_range i n)
All-id_range i zero c h = tt
All-id_range i (suc n) c h = (omega arith, All-id_range (i + 1) n c (omega arith))

get_or-id_range : (i n k : ℕ) (r : List ℕ) → k < n → get_or (id_range i n ++ r) k 0 ≡ i + k
get_or-id_range i zero k r h = absurd (omega arith)
get_or-id_range i (suc n) zero r h = omega arith
get_or-id_range i (suc n) (suc k) r h = get_or-id_range (i + 1) n k r (omega arith) ∙ omega arith

window-range :
    (slots h n : ℕ) (ids : List ℕ)
    → h + n < slots
    → ((k : ℕ) → k < h + n → get_or ids k 0 ≡ k)
    → window slots ids h n ≡ id_range h n
window-range slots h zero ids lt same = refl
window-range slots h (suc n) ids lt same = ap₂ ◌∷◌ (same h (omega arith)) (
    ap (λ j. window slots ids j n) step
    ∙ window-range slots (h + 1) n ids (omega arith) (λ k kl. same k (omega arith)))
  where
    step : next slots h ≡ h + 1
    step = ground arith

cleared :
    (bs : ℕ) (f : ℕ → Header) (i n a : ℕ)
    → 8 < bs
    → (f (data_of bs a) ≡ no_header) ⊎ ((i ≤ a) × (a < i + n))
    → clear_headers bs f i n (data_of bs a) ≡ no_header
cleared bs f i zero a h (inl e) = e
cleared bs f i zero a h (inr (p, q)) = absurd (omega arith)
cleared bs f i (suc n) a h c = elim (Bool-cases (i == a)) [
  | inl e ↦
      cleared bs (put_header f (data_of bs i) no_header) (i + 1) n a h
        (inl (rw ((==_iff i a).0 e, ==_refl (data_of bs a))))
  | inr e ↦ cleared bs (put_header f (data_of bs i) no_header) (i + 1) n a h (later (==_ne i a e) c)
]
  where
    later :
        i ≢ a
        → (f (data_of bs a) ≡ no_header) ⊎ ((i ≤ a) × (a < i + suc n))
        → (put_header f (data_of bs i) no_header (data_of bs a) ≡ no_header)
          ⊎ ((i + 1 ≤ a) × (a < i + 1 + n))
    later ne (inl q) = inl (rw (data_of-ne bs i a h ne) q)
    later ne (inr (p, q)) = inr (omega arith, omega arith)

-- A pool that `g_fsb_init` makes on enough memory, for a count that is an `int`, is valid, and all
-- its blocks are free, in ascending order.
pub init-IsValid :
    (memory : ℕ → Header) (spare total block_size block_count : ℕ) {p : Fsb}
    → block_count < 2 ^ 31
    → init true memory spare total block_size block_count ≡ some p
    → IsValid p × (free_ids p ≡ id_range 0 block_count)
unfolding init
init-IsValid memory spare total block_size block_count {p} h e = rw (← made) (
  record {
    wide = ground (arith, e);
    small = h;
    magic32 = omega arith;
    slots =
        omega (
          arith,
          length-append (id_range 0 block_count) (spare ∷ []),
          length-id_range 0 block_count,
        );
    begin_in = omega arith;
    end_in = omega arith;
    distinct = rw queue (Distinct-id_range 0 block_count);
    bounded = rw queue (All-id_range 0 block_count block_count (omega arith));
    vacant = λ id o. clear id (omega (arith, (On-id_range 0 block_count id (rw queue at o)).1));
    live = λ id lt out.
        absurd (out (rw queue (id_range-On 0 block_count id (omega arith) (omega arith))));
  },
  queue,
)
  where
    q : Fsb
    q = record {
      block_size = block_size + header_size;
      block_count = block_count;
      begin = 0;
      end = block_count;
      next_magic = 0;
      ids = id_range 0 block_count ++ (spare ∷ []);
      header = clear_headers (block_size + header_size) memory 0 block_count;
    }

    made : q ≡ p
    made = ground (arith, e)

    queue : free_ids q ≡ id_range 0 block_count
    queue =
        ap (λ k. window (block_count + 1) q.ids 0 k) count'
        ∙ window-range (block_count + 1) 0 block_count q.ids (omega arith)
            (λ k lt. get_or-id_range 0 block_count k (spare ∷ []) (omega arith) ∙ omega arith)
      where
        count' : free_count q ≡ block_count
        count' = ground arith

    clear :
        (id : ℕ) → id < block_count → q.header (data_of (block_size + header_size) id) ≡ no_header
    clear id lt =
        cleared (block_size + header_size) memory 0 block_count id (ground (arith, e))
          (inr (omega arith, omega arith))
