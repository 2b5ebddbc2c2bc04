-- ===== src/Htab/Remove.antt =====
-- `g_htab_search` and `g_htab_remove` of libsax/sax/htab.c: what is found is what was put in.
use xlibsax.Prelude.{
  ℕ, ◌+◌, ◌%◌, ◌^◌, ◌<◌, ◌≡◌, refl, sym, ap, ◌∙◌, ◌↔◌, ◌⊎◌, inl, inr, Bool, true, false, Option,
  none, some, [], ◌∷◌, arith, length, get_or, set, On, length-set, get_or-set_self, get_or-set_ne,
  ◌==◌, ==_iff, ==_ne, Bool-cases, Option-cases, map_right, some-eq,
}
use xlibsax.Htab.{Entry, Chain, Htab, do_hash, insert, matches, find, search, unlink, remove}
use xlibsax.Htab.Chains.{total, total-set, Stands}
use xlibsax.Htab.Laws.{IsValid, tablelength-pos}
use xlibsax.Htab.Search.{entry_of, insert_total}

-- What the table asks of the user's functions: `eqfn` is reflexive and equal keys hash alike.
pub record Suits {K : Type 0} (hashfn : K → ℕ) (eqfn : K → K → Bool) : Type 0 where
  pub eq_refl : (k : K) → eqfn k k ≡ true
  pub hash-eq : (a b : K) → eqfn a b ≡ true → hashfn a ≡ hashfn b

module _ {K V : Type 0} (hashfn : K → ℕ) (eqfn : K → K → Bool) where
  find-some :
      (k : K) (c : Chain K V) {v : V}
      → find hashfn eqfn k c ≡ some v
      → (e : Entry K V) × On e c × (matches hashfn eqfn k e ≡ true) × (e.v ≡ v)
  unfolding find
  find-some k [] h = cc
  find-some k (e ∷ es) h = elim (Bool-cases (matches hashfn eqfn k e)) [
    | inl m ↦ (e, inl refl, m, some-eq (rw m at h))
    | inr m ↦ let (x, o, mx, ev) = find-some k es (rw m at h) in (x, inr o, mx, ev)
  ]

  find-none :
      (k : K) (c : Chain K V) (e : Entry K V)
      → find hashfn eqfn k c ≡ none
      → On e c
      → matches hashfn eqfn k e ≡ false
  unfolding find
  find-none k [] e h o = absurd o
  find-none k (x ∷ xs) e h o = elim (Bool-cases (matches hashfn eqfn k x)) [
    | inl m ↦ absurd (clash (rw m at h))
    | inr m ↦ each o m (λ r. find-none k xs e (rw m at h) r)
  ]
    where
      clash : some x.v ≡ none → ⊥
      clash q = cc

      each :
          On e (x ∷ xs)
          → matches hashfn eqfn k x ≡ false
          → (On e xs → matches hashfn eqfn k e ≡ false)
          → matches hashfn eqfn k e ≡ false
      each (inl q) m rec = rw q m
      each (inr r) m rec = rec r

  -- What `g_htab_search` returns is the value of an entry whose key is equal.
  pub search-some :
      (t : Htab K V) (k : K) {v : V}
      → search hashfn eqfn t k ≡ some v
      → (e : Entry K V) × Stands t.table e × (eqfn k e.k ≡ true) × (e.v ≡ v)
  unfolding search
  search-some t k h = let (e, o, m, q) = find-some k _ h in (e, (_, o), ground (arith, m), q)

  -- Where equality is reflexive and equal keys hash alike, `g_htab_search` on a valid table returns
  -- NULL only if no entry's key is equal.
  pub search-none :
      Suits hashfn eqfn
      → (t : Htab K V) (k : K) (e : Entry K V) → IsValid hashfn t
      → search hashfn eqfn t k ≡ none
      → Stands t.table e
      → eqfn k e.k ≡ false
  unfolding search
  search-none s t k e valid h (j, o) = elim (Bool-cases (eqfn k e.k)) [
    | inr n ↦ n
    | inl y ↦
        let (slot, hash) = valid.placed e j o in
        let same : e.h ≡ do_hash hashfn k = rw (s.hash-eq k e.k y) hash in
        let here : do_hash hashfn k % t.tablelength ≡ j = rw (← same) slot in
        let o' : On e (get_or t.table (do_hash hashfn k % t.tablelength) []) = rw here o in
        let m = find-none k _ e h o' in absurd (yes_no (ground (arith, m, y, same)))
  ]
    where
      yes_no : true ≡ false → ⊥
      yes_no q = cc

  -- Where equality is reflexive and equal keys hash alike, a key that was not found in a valid table
  -- with fewer than 2 ^ 32 - 1 entries is found with its value after `g_htab_insert` succeeded; any
  -- other key that is found then has the value of an entry of before with an equal key, and one
  -- that is not found has no such entry. The growth has the memory for a new table, or can neither
  -- allocate nor reallocate one.
  pub search-insert :
      (load_limit : ℕ → ℕ) (malloced realloced : Bool) (t t' : Htab K V) (k : K) (v : V)
      → Suits hashfn eqfn
      → (malloced ≡ true) ⊎ (realloced ≡ false)
      → IsValid hashfn t
      → t.entrycount + 1 < 2 ^ 32
      → search hashfn eqfn t k ≡ none
      → insert load_limit hashfn malloced realloced true t k v ≡ some (true, t')
      → (search hashfn eqfn t' k ≡ some v)
        × ((q : K) (w : V)
            → eqfn q k ≡ false
            → search hashfn eqfn t' q ≡ some w
            → (e : Entry K V) × Stands t.table e × (eqfn q e.k ≡ true) × (e.v ≡ w))
        × ((q : K) (e : Entry K V)
            → Stands t.table e
            → search hashfn eqfn t' q ≡ none
            → eqfn q e.k ≡ false)
  search-insert load_limit malloced realloced t t' k v s plan valid h fresh run =
      let (u, run', valid', count, iff) =
        insert_total hashfn load_limit malloced realloced t k v plan valid h in
      let same : u ≡ t' = ap (λ (r : Bool × Htab K V). r.1) (some-eq (sym run' ∙ run)) in
      let valid'' : IsValid hashfn t' = rw same at valid' in
      let iff' : (x : Entry K V)
          → Stands t'.table x ↔ (Stands t.table x ⊎ (x ≡ entry_of hashfn load_limit k v)) =
        rw same at iff in
      (
        found valid'' iff' (search hashfn eqfn t' k) refl,
        λ q w ne e.
            let (x, st, eq, xv) = search-some t' q e in
            (x, other q ne x eq ((iff' x).0 st), eq, xv),
        λ q x st e. search-none s t' q x valid'' e ((iff' x).1 (inl st)),
      )
    where
      new : Entry K V
      new = entry_of hashfn load_limit k v

      found :
          IsValid hashfn t'
          → ((x : Entry K V) → Stands t'.table x ↔ (Stands t.table x ⊎ (x ≡ new)))
          → (o : Option V) → search hashfn eqfn t' k ≡ o
          → search hashfn eqfn t' k ≡ some v
      found valid' iff none e =
          absurd (clash (search-none s t' k new valid' e ((iff new).1 (inr refl))) (s.eq_refl k))
        where
          clash : eqfn k k ≡ false → eqfn k k ≡ true → ⊥
          clash a b = cc
      found valid' iff (some w) e =
          let (x, st, eq, xv) = search-some t' k e in
          e ∙ ap some (sym xv ∙ which x eq ((iff x).0 st))
        where
          clash : (b : Bool) → b ≡ false → b ≡ true → ⊥
          clash b p q = cc

          which : (x : Entry K V) → eqfn k x.k ≡ true → Stands t.table x ⊎ (x ≡ new) → x.v ≡ v
          which x eq (inl st) = absurd (clash _ (search-none s t k x valid fresh st) eq)
          which x eq (inr q) = ap (λ (y : Entry K V). y.v) q

      other :
          (q : K)
          → eqfn q k ≡ false
          → (x : Entry K V) → eqfn q x.k ≡ true
          → Stands t.table x ⊎ (x ≡ new)
          → Stands t.table x
      other q ne x eq (inl st) = st
      other q ne x eq (inr e) = absurd (clash (rw (ap (λ (y : Entry K V). y.k) e) ne) eq)
        where
          clash : eqfn q x.k ≡ false → eqfn q x.k ≡ true → ⊥
          clash a b = cc

  On-unlink : (k : K) (c : Chain K V) (x : Entry K V) → On x (unlink hashfn eqfn k c) → On x c
  unfolding unlink
  On-unlink k [] x h = h
  On-unlink k (e ∷ es) x h = elim (Bool-cases (matches hashfn eqfn k e)) [
    | inl m ↦ inr (rw m at h)
    | inr m ↦ map_right (On-unlink k es x) (rw m at h)
  ]

  unlink-On :
      (k : K) (c : Chain K V) (x : Entry K V)
      → matches hashfn eqfn k x ≡ false
      → On x c
      → On x (unlink hashfn eqfn k c)
  unfolding unlink
  unlink-On k [] x n h = h
  unlink-On k (e ∷ es) x n h = elim (Bool-cases (matches hashfn eqfn k e)) [
    | inl m ↦ rw m (later h m)
    | inr m ↦ rw m (map_right (unlink-On k es x n) h)
  ]
    where
      later : On x (e ∷ es) → matches hashfn eqfn k e ≡ true → On x es
      later (inr o) m = o
      later (inl q) m = absurd (clash (rw q at n) m)
        where
          clash : matches hashfn eqfn k e ≡ false → matches hashfn eqfn k e ≡ true → ⊥
          clash a b = cc

  length-unlink :
      (k : K) (c : Chain K V) {v : V}
      → find hashfn eqfn k c ≡ some v
      → length (unlink hashfn eqfn k c) + 1 ≡ length c
  unfolding unlink find
  length-unlink k [] h = cc
  length-unlink k (e ∷ es) {v} h = ground (arith, length-unlink k es {v = v})

  -- What `g_htab_remove` did when it returned `v`.
  pub record Removes (t : Htab K V) (k : K) (t' : Htab K V) : Type 0 where
    pub valid : IsValid hashfn t'
    pub counted : t'.entrycount + 1 ≡ t.entrycount
    pub fewer : (x : Entry K V) → Stands t'.table x → Stands t.table x
    pub kept : (x : Entry K V) → eqfn k x.k ≡ false → Stands t.table x → Stands t'.table x

  -- `g_htab_remove` on a valid table with fewer than 2 ^ 32 entries returns what `g_htab_search`
  -- finds. Finding nothing it changes nothing; else the table stays valid, counts one entry less, gains none and loses none of another key.
  pub remove_total :
      (t : Htab K V) (k : K)
      → IsValid hashfn t
      → t.entrycount < 2 ^ 32
      → ((remove hashfn eqfn t k).0 ≡ search hashfn eqfn t k)
        × (search hashfn eqfn t k ≡ none → (remove hashfn eqfn t k).1 ≡ t)
        × ((v : V) → search hashfn eqfn t k ≡ some v → Removes t k (remove hashfn eqfn t k).1)
  unfolding remove search
  remove_total t k valid small = (value, nothing, gone)
    where
      i : ℕ
      i = do_hash hashfn k % t.tablelength

      c : Chain K V
      c = get_or t.table i []

      here : i < length t.table
      here = omega (arith, tablelength-pos hashfn (λ n. n) 0 t valid, valid.width)

      value : (remove hashfn eqfn t k).0 ≡ search hashfn eqfn t k
      value = elim (Option-cases (find hashfn eqfn k c)) [
        | inl e ↦ rw (e, remove)
        | inr (v, e) ↦ rw (e, remove)
      ]

      nothing : search hashfn eqfn t k ≡ none → (remove hashfn eqfn t k).1 ≡ t
      nothing e = rw (e, remove)

      gone : (v : V) → search hashfn eqfn t k ≡ some v → Removes t k (remove hashfn eqfn t k).1
      gone v e =
          rw (e, remove)
            (record {
              valid = record {
                width = length-set t.table i u ∙ valid.width;
                index = valid.index;
                prime = valid.prime;
                placed = λ x j o. valid.placed x j (back x j o);
                counted = omega (arith, shorter, valid.counted);
              };
              counted = omega (arith, shorter, valid.counted);
              fewer = λ x (j, o). (j, back x j o);
              kept = λ x ne (j, o). (j, stay x j ne o);
            })
        where
          u : Chain K V
          u = unlink hashfn eqfn k c

          shorter : total (set t.table i u) + 1 ≡ total t.table
          shorter = omega (arith, total-set t.table i u here, length-unlink k c e)

          back :
              (x : Entry K V) (j : ℕ)
              → On x (get_or (set t.table i u) j [])
              → On x (get_or t.table j [])
          back x j o = elim (Bool-cases (i == j)) [
            | inl q ↦
                let q' = (==_iff i j).0 q in
                rw (← q') (On-unlink k c x (rw (← q', get_or-set_self t.table i u [] here) at o))
            | inr q ↦ rw (get_or-set_ne t.table i j u [] (==_ne i j q)) at o
          ]

          stay :
              (x : Entry K V) (j : ℕ)
              → eqfn k x.k ≡ false
              → On x (get_or t.table j [])
              → On x (get_or (set t.table i u) j [])
          stay x j ne o = elim (Bool-cases (i == j)) [
            | inl q ↦
                let q' = (==_iff i j).0 q in
                rw (← q', get_or-set_self t.table i u [] here)
                  (unlink-On k c x (ground (arith, ne)) (rw q' o))
            | inr q ↦ rw (get_or-set_ne t.table i j u [] (==_ne i j q)) o
          ]
