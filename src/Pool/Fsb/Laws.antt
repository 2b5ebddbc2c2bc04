-- ===== src/Pool/Fsb/Laws.antt =====
-- `fsb_pool_t` of libsax/sax/mempool.c as a queue of free identifiers, and its checks on what is freed.
use native.Mathlib.Nat.{div-eq_of_lt-le}
use xlibsax.Prelude.{
  ℕ, suc, ◌+◌, ◌-◌, ◌/◌, ◌^◌, ◌≤◌, ◌<◌, ◌≡◌, refl, sym, ap, ◌∙◌, ◌≢◌, inl, inr, false, Option, none,
  some, List, [], ◌∷◌, arith, length, get_or, All, On, Distinct, leb, ◌==◌, if◌then◌else◌, ==_refl,
  ==_iff, ==_ne, Bool-cases,
}
use xlibsax.Pool.Fsb.{Fsb, data_of, put_header, no_header, next, next_magic_of, used, alloc}
use xlibsax.Pool.Fsb.Ring.{window, step, length-window}

-- How many blocks are free: the distance from `begin` to `end` round the ring.
abbrev pub free_count : Fsb → ℕ
free_count p = if leb p.begin p.end then p.end - p.begin else p.end + (p.block_count + 1) - p.begin

-- The identifiers of the free blocks, the next one first.
abbrev pub free_ids : Fsb → List ℕ
free_ids p = window (p.block_count + 1) p.ids p.begin (free_count p)

pub record IsValid (p : Fsb) : Type 0 where
  pub wide : 8 < p.block_size
  pub small : p.block_count < 2 ^ 31
  pub magic32 : p.next_magic < 2 ^ 32
  pub slots : length p.ids ≡ p.block_count + 1
  pub begin_in : p.begin ≤ p.block_count
  pub end_in : p.end ≤ p.block_count
  pub distinct : Distinct (free_ids p)
  pub bounded : All (λ id. id < p.block_count) (free_ids p)
  pub vacant : (id : ℕ) → On id (free_ids p) → p.header (data_of p.block_size id) ≡ no_header
  pub live :
      (id : ℕ)
      → id < p.block_count
      → ¬ (On id (free_ids p))
      → ((p.header (data_of p.block_size id)).id ≡ id)
        × ((p.header (data_of p.block_size id)).magic ≢ 0)

-- Different identifiers have different blocks, and a block tells its identifier.
pub data_of-div : (bs id : ℕ) → 8 < bs → data_of bs id / bs ≡ id
data_of-div bs id h = div-eq_of_lt-le bs (omega arith) (grind arith)

pub data_of-ne : (bs a b : ℕ) → 8 < bs → a ≢ b → (data_of bs a == data_of bs b) ≡ false
data_of-ne bs a b h ne = elim (Bool-cases (data_of bs a == data_of bs b)) [
  | inr e ↦ e
  | inl e ↦
      absurd
        (ne (sym (data_of-div bs a h) ∙ (ap (λ x. x / bs) ((==_iff _ _).0 e) ∙ data_of-div bs b h)))
]

-- The number in use that `g_fsb_used` computes is what is not free.
pub used-free_count : (p : Fsb) → IsValid p → used p + length (free_ids p) ≡ p.block_count
unfolding used
used-free_count p v =
    rw (length-window (p.block_count + 1) p.ids p.begin (free_count p)) (ground arith)

pub end-step : (p : Fsb) → IsValid p → p.end ≡ step (p.block_count + 1) p.begin (free_count p)
end-step p v = ground arith

pub free_count-lt : (p : Fsb) → IsValid p → free_count p < p.block_count + 1
free_count-lt p v = ground arith

pub next_magic_of-pos : (m : ℕ) → m < 2 ^ 32 → (next_magic_of m ≢ 0) × (next_magic_of m < 2 ^ 32)
unfolding next_magic_of
next_magic_of-pos m h = ground arith

-- The pool after an allocation from a ring that is not empty.
abbrev taken : Fsb → Fsb
taken p =
    let id = get_or p.ids p.begin 0 in
    record p {
      begin = next (p.block_count + 1) p.begin;
      next_magic = next_magic_of p.next_magic;
      header =
          put_header p.header (data_of p.block_size id)
            (record { id = id; magic = next_magic_of p.next_magic });
    }

free_count-taken :
    (p : Fsb) → IsValid p → p.begin ≢ p.end → free_count p ≡ suc (free_count (taken p))
free_count-taken p v ne = ground arith

free_ids-taken :
    (p : Fsb)
    → IsValid p
    → p.begin ≢ p.end
    → free_ids p ≡ get_or p.ids p.begin 0 ∷ free_ids (taken p)
free_ids-taken p v ne = rw (free_count-taken p v ne)

taken-IsValid : (p : Fsb) → IsValid p → p.begin ≢ p.end → IsValid (taken p)
taken-IsValid p v ne = record {
  wide = v.wide;
  small = v.small;
  magic32 = (next_magic_of-pos p.next_magic v.magic32).1;
  slots = v.slots;
  begin_in = ground arith;
  end_in = v.end_in;
  distinct = distinct'.1;
  bounded = bounded'.1;
  vacant = λ id o.
      rw (data_of-ne p.block_size id₀ id v.wide (λ e. distinct'.0 (rw e o)))
        (v.vacant id (rw q (inr o)));
  live = λ id lt out. elim (Bool-cases (id₀ == id)) [
    | inl e ↦
        rw (← (==_iff id₀ id).0 e, ==_refl (data_of p.block_size id₀))
          (refl, (next_magic_of-pos p.next_magic v.magic32).0)
    | inr e ↦
        rw (data_of-ne p.block_size id₀ id v.wide (==_ne id₀ id e))
          (v.live id lt (λ o. other id (==_ne id₀ id e) out (rw q at o)))
  ];
}
  where
    id₀ : ℕ
    id₀ = get_or p.ids p.begin 0

    q : free_ids p ≡ id₀ ∷ free_ids (taken p)
    q = free_ids-taken p v ne

    distinct' : Distinct (id₀ ∷ free_ids (taken p))
    distinct' = rw q at v.distinct

    bounded' : All (λ id. id < p.block_count) (id₀ ∷ free_ids (taken p))
    bounded' = rw q at v.bounded

    other :
        (id : ℕ) → id₀ ≢ id → ¬ (On id (free_ids (taken p))) → On id (id₀ ∷ free_ids (taken p)) → ⊥
    other id ne out (inl e) = ne (sym e)
    other id ne out (inr o) = out o

-- What `g_fsb_alloc` does, by the queue of free identifiers.
abbrev pub Takes : Fsb → List ℕ → Option ℕ × Fsb → Type 0
Takes p [] r = r ≡ (none, p)
Takes p (id ∷ rest) r =
    (r.0 ≡ some (data_of p.block_size id))
    × (free_ids r.1 ≡ rest)
    × IsValid r.1
    × (r.1.header (data_of p.block_size id)
        ≡ record { id = id; magic = next_magic_of p.next_magic })

pub alloc-Takes : (p : Fsb) → IsValid p → Takes p (free_ids p) (alloc p)
unfolding alloc
alloc-Takes p v = elim (Bool-cases (p.begin == p.end)) [
  | inl e ↦ rw (none_free ((==_iff _ _).0 e), e) refl
  | inr e ↦
      let ne = ==_ne p.begin p.end e in
      rw (free_ids-taken p v ne, e)
        (
          refl,
          refl,
          taken-IsValid p v ne,
          rw (==_refl (data_of p.block_size (get_or p.ids p.begin 0))),
        )
]
  where
    none_free : p.begin ≡ p.end → free_ids p ≡ []
    none_free e = let z : free_count p ≡ 0 = ground arith in rw z
