-- ===== src/Htab/Create.antt =====
-- `g_htab_create` of libsax/sax/htab.c: the size of a new table.
use native.Mathlib.Nat.{zero-add}
use xlibsax.Prelude.{
  ℕ, suc, ◌+◌, ◌^◌, ◌≤◌, ◌<◌, ◌≡◌, refl, sym, ◌⊎◌, inl, inr, Bool, false, some, List, [], ◌∷◌,
  arith, length, get_or, replicate, length-replicate, ltb, ltb→lt, Bool-cases,
}
use xlibsax.Htab.{Entry, Htab, primes, choose_prime, create}
use xlibsax.Htab.Chains.{Stands}
use xlibsax.Htab.Laws.{IsValid, get_or-replicate_nil, total-replicate}

-- Some number of the list is above `m`.
abbrev Exceeds : ℕ → List ℕ → Type 0
Exceeds m [] = ⊥
Exceeds m (p ∷ ps) = (m < p) ⊎ Exceeds m ps

choose_prime_lem :
    (ps : List ℕ) (i m : ℕ)
    → Exceeds m ps
    → (m < (choose_prime ps i m).0)
      × ((d : ℕ) × ((choose_prime ps i m).1 ≡ i + d)
          × (d < length ps)
          × (get_or ps d 0 ≡ (choose_prime ps i m).0))
unfolding choose_prime
choose_prime_lem [] i m h = absurd h
choose_prime_lem (p ∷ ps) i m h = elim (Bool-cases (ltb m p)) [
  | inl e ↦ rw e (ltb→lt m p e, (0, omega arith, omega arith, refl))
  | inr e ↦
      let (a, (d, b, c, g)) = choose_prime_lem ps (i + 1) m (rest h e) in
      rw e (a, (suc d, omega arith, omega arith, g))
]
  where
    rest : (m < p) ⊎ Exceeds m ps → ltb m p ≡ false → Exceeds m ps
    rest (inl lt) e = absurd (ground (arith, e))
    rest (inr x) e = x

-- The largest prime of the table is above every size that `g_htab_create` accepts.
last_above : (m : ℕ) → m ≤ 2 ^ 30 → Exceeds m primes
last_above m h = inr (
    inr (
      inr (
        inr (
          inr (
            inr (
              inr (
                inr (
                  inr (
                    inr (
                      inr (
                        inr (
                          inr (
                            inr (
                              inr (
                                inr (
                                  inr (
                                    inr (
                                      inr (
                                        inr (
                                          inr (
                                            inr (
                                              inr (
                                                inr (inr (inl (omega arith))))))))))))))))))))))))))

module _ {K V : Type 0} (hashfn : K → ℕ) (load_limit : ℕ → ℕ) where
  -- A table that `g_htab_create` returns is valid and empty, and has more chains than was asked for.
  pub create-IsValid :
      (made cleared : Bool) (minsize : ℕ) {t : Htab K V}
      → create load_limit made cleared minsize ≡ some t
      → IsValid hashfn t
        × (t.entrycount ≡ 0)
        × (minsize < t.tablelength)
        × ((e : Entry K V) → ¬ (Stands t.table e))
  unfolding create
  create-IsValid made cleared minsize {t} h = elim (Bool-cases (ltb (2 ^ 30) minsize)) [
    | inl big ↦ absurd (ground (arith, h, big))
    | inr fits ↦
        let (above, (d, e, lt, p)) =
          choose_prime_lem primes 0 minsize (last_above minsize (ground arith)) in
        let made' : fresh ≡ t = ground (arith, h, fits) in
        rw (← made') (
          record {
            width = length-replicate _ [];
            index = omega arith;
            prime = rw (e, zero-add) (sym p);
            placed = λ x j o.
                absurd (rw (get_or-replicate_nil (choose_prime primes 0 minsize).0 j) at o);
            counted = omega (arith, total-replicate (Entry K V) (choose_prime primes 0 minsize).0);
          },
          refl,
          above,
          λ x (has : Stands fresh.table x).
              rw (get_or-replicate_nil (choose_prime primes 0 minsize).0 has.0) at has.1,
        )
  ]
    where
      fresh : Htab K V
      fresh =
          let r = choose_prime primes 0 minsize in
          record {
            table = replicate r.0 [];
            tablelength = r.0;
            entrycount = 0;
            loadlimit = load_limit r.0;
            primeindex = r.1;
          }
