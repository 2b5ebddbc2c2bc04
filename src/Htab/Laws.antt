-- ===== src/Htab/Laws.antt =====
-- `g_htab_create` and `g_htab_insert` of libsax/sax/htab.c keep every entry in its chain.
use xlibsax.Prelude.{
  ℕ, zero, suc, ◌+◌, ◌-◌, ◌%◌, ◌^◌, ◌<◌, ◌≡◌, refl, ◌∙◌, ◌↔◌, ◌⊎◌, inl, inr, Bool, true, false,
  some, List, [], arith, length, get_or, replicate, On, length-replicate, run, ltb, ◌==◌, ==_ne,
  ltb→lt, Bool-cases, add32, passes, passes-at,
}
use xlibsax.Htab.{Entry, Htab, primes, prime_table_length, do_hash, move_all, expand, grow}
use xlibsax.Htab.Chains.{total, Stands, Adds, move_all-Adds}

-- Every entry stands in the chain of its hash, and `entrycount` is `extra` above their number.
pub record Ordered {K V : Type 0} (hashfn : K → ℕ) (extra : ℕ) (t : Htab K V) : Type 0 where
  pub width : length t.table ≡ t.tablelength
  pub index : t.primeindex < prime_table_length
  pub prime : t.tablelength ≡ get_or primes t.primeindex 0
  pub placed :
      (x : Entry K V) (j : ℕ)
      → On x (get_or t.table j [])
      → (x.h % t.tablelength ≡ j) × (x.h ≡ do_hash hashfn x.k)
  pub counted : total t.table + extra ≡ t.entrycount

-- The invariant of the table between two calls.
abbrev pub IsValid : {K V : Type 0} → (K → ℕ) → Htab K V → Type 0
IsValid hashfn t = Ordered hashfn 0 t

-- No prime of the table is 0.
primes_pos : (i : ℕ) → i < prime_table_length → 0 < get_or primes i 0
primes_pos i h = ltb→lt 0 _ (passes-at (λ i. ltb 0 (get_or primes i 0)) i h (unfold passes in refl))

pub get_or-replicate_nil : {A : Type 0} (n i : ℕ) → get_or {A = List A} (replicate n []) i [] ≡ []
get_or-replicate_nil zero i = refl
get_or-replicate_nil (suc n) zero = refl
get_or-replicate_nil (suc n) (suc i) = get_or-replicate_nil n i

pub total-replicate : (A : Type 0) (n : ℕ) → total {A = A} (replicate n []) ≡ 0
total-replicate A zero = refl
total-replicate A (suc n) = omega (arith, total-replicate A n)

module _ {K V : Type 0} (hashfn : K → ℕ) (load_limit : ℕ → ℕ) where
  pub tablelength-pos : (extra : ℕ) (t : Htab K V) → Ordered hashfn extra t → 0 < t.tablelength
  tablelength-pos extra t v = rw v.prime (primes_pos t.primeindex v.index)

  -- `htab_expand` with the new table allocated.
  abbrev expanded : Htab K V → Htab K V
  expanded t =
      let newsize = get_or primes (t.primeindex + 1) 0 in
      record t {
        table = move_all newsize t.table (replicate newsize []);
        tablelength = newsize;
        loadlimit = load_limit newsize;
        primeindex = t.primeindex + 1;
      }

  -- Two tables hold the same entries.
  abbrev pub SameEntries : Htab K V → Htab K V → Type 0
  SameEntries t t' = (x : Entry K V) → Stands t.table x ↔ Stands t'.table x

  expanded-Adds :
      (t : Htab K V)
      → t.primeindex + 1 < prime_table_length
      → let n = get_or primes (t.primeindex + 1) 0 in
        Adds n (Stands t.table) (total t.table) (replicate n []) (expanded t).table
  expanded-Adds t h =
      let n = get_or primes (t.primeindex + 1) 0 in
      move_all-Adds n t.table (replicate n []) (primes_pos (t.primeindex + 1) h)
        (length-replicate n [])

  expanded-Same :
      (t : Htab K V) → t.primeindex + 1 < prime_table_length → SameEntries t (expanded t)
  expanded-Same t h x = (λ s. a.into x (inr s), λ (i, o). back i (a.from x i o))
    where
      n : ℕ
      n = get_or primes (t.primeindex + 1) 0

      a : Adds n (Stands t.table) (total t.table) (replicate n []) (expanded t).table
      a = expanded-Adds t h

      back :
          (i : ℕ)
          → On x (get_or (replicate n []) i []) ⊎ (Stands t.table x × (x.h % n ≡ i))
          → Stands t.table x
      back i (inl o) = absurd (rw (get_or-replicate_nil n i) at o)
      back i (inr p) = p.0

  expanded-Ordered :
      (extra : ℕ) (t : Htab K V)
      → Ordered hashfn extra t
      → t.primeindex + 1 < prime_table_length
      → Ordered hashfn extra (expanded t)
  expanded-Ordered extra t v h = record {
    width = a.width ∙ length-replicate n [];
    index = h;
    prime = refl;
    placed = λ x j o. back x j (a.from x j o);
    counted = omega (arith, a.counted, total-replicate (Entry K V) n, v.counted);
  }
    where
      n : ℕ
      n = get_or primes (t.primeindex + 1) 0

      a : Adds n (Stands t.table) (total t.table) (replicate n []) (expanded t).table
      a = expanded-Adds t h

      back :
          (x : Entry K V) (j : ℕ)
          → On x (get_or (replicate n []) j []) ⊎ (Stands t.table x × (x.h % n ≡ j))
          → (x.h % n ≡ j) × (x.h ≡ do_hash hashfn x.k)
      back x j (inl o) = absurd (rw (get_or-replicate_nil n j) at o)
      back x j (inr ((i, o), e)) = (e, (v.placed x i o).1)

  Same_refl : (t : Htab K V) → SameEntries t t
  Same_refl t x = (λ s. s, λ s. s)

  -- Unless the second plan of `htab_expand` is taken, it keeps the entries and the invariant.
  expand_total :
      (extra : ℕ) (malloced realloced : Bool) (t : Htab K V)
      → (malloced ≡ true) ⊎ (realloced ≡ false)
      → Ordered hashfn extra t
      → (r : Bool × Htab K V) × (expand load_limit malloced realloced t ≡ some r)
        × Ordered hashfn extra r.1
        × SameEntries t r.1
        × (r.1.entrycount ≡ t.entrycount)
  unfolding expand
  expand_total extra malloced realloced t plan v =
      elim (Bool-cases (t.primeindex == prime_table_length - 1)) [
        | inl e ↦ ((false, t), rw e, v, Same_refl t, refl)
        | inr e ↦ elim (Bool-cases malloced) [
          | inl m ↦
              let h : t.primeindex + 1 < prime_table_length = omega (arith, v.index, ==_ne _ _ e) in
              ((true, expanded t), rw (e, m), expanded-Ordered extra t v h, expanded-Same t h, refl)
          | inr m ↦ ((false, t), rw (e, m) (ground (arith, plan)), v, Same_refl t, refl)
        ]
      ]

  pub grow_total :
      (malloced realloced : Bool) (t : Htab K V)
      → (malloced ≡ true) ⊎ (realloced ≡ false)
      → IsValid hashfn t
      → t.entrycount + 1 < 2 ^ 32
      → (t' : Htab K V) × (grow load_limit malloced realloced t ≡ some t')
        × Ordered hashfn 1 t'
        × SameEntries t t'
        × (t'.entrycount ≡ t.entrycount + 1)
  unfolding grow
  grow_total malloced realloced t plan v h = elim (Bool-cases (ltb t.loadlimit t₁.entrycount)) [
    | inr e ↦ (t₁, rw e, v₁, Same_refl t, omega arith)
    | inl e ↦
        let (r, run, v₂, same, count) = expand_total 1 malloced realloced t₁ plan v₁ in
        (r.1, rw (e, run), v₂, same, omega (arith, count))
  ]
    where
      t₁ : Htab K V
      t₁ = record t { entrycount = add32 t.entrycount 1 }

      v₁ : Ordered hashfn 1 t₁
      v₁ = record {
        width = v.width;
        index = v.index;
        prime = v.prime;
        placed = v.placed;
        counted = omega (arith, v.counted);
      }
