-- ===== src/Htab/Search.antt =====
-- `g_htab_insert`, `g_htab_search` and `g_htab_remove` of libsax/sax/htab.c as operations on the entries.
use xlibsax.Prelude.{
  ℕ, ◌+◌, ◌-◌, ◌%◌, ◌^◌, ◌<◌, ◌≡◌, ◌∙◌, ◌≢◌, ◌↔◌, ◌⊎◌, inl, inr, Bool, true, false, none, some, [],
  arith, get_or, On, add32, map_left,
}
use xlibsax.Htab.{Entry, Htab, do_hash, push, grow, insert, expand, prime_table_length}
use xlibsax.Htab.Chains.{Stands, Adds, push-Adds}
use xlibsax.Htab.Laws.{Ordered, IsValid, SameEntries, tablelength-pos, grow_total}

module _ {K V : Type 0} (hashfn : K → ℕ) (load_limit : ℕ → ℕ) where
  -- The entry that `g_htab_insert` makes.
  abbrev pub entry_of : K → V → Entry K V
  entry_of k v = record { k = k; v = v; h = do_hash hashfn k }

  pushed :
      (t : Htab K V) (k : K) (v : V)
      → Ordered hashfn 1 t
      → Adds t.tablelength
          (λ x. x ≡ entry_of k v)
          1
          t.table
          (push t.table (do_hash hashfn k % t.tablelength) (entry_of k v))
  pushed t k v o =
      push-Adds t.table t.tablelength (entry_of k v) (tablelength-pos hashfn load_limit 1 t o)
        o.width

  -- With memory for the entry, `g_htab_insert` on a valid table with fewer than 2 ^ 32 - 1 entries
  -- succeeds and keeps it valid: it
  -- holds the old entries and the new one, whether the table grew or not, and counts one more.
  -- The growth has the memory for a new table, or can neither allocate nor reallocate one.
  pub insert_total :
      (malloced realloced : Bool) (t : Htab K V) (k : K) (v : V)
      → (malloced ≡ true) ⊎ (realloced ≡ false)
      → IsValid hashfn t
      → t.entrycount + 1 < 2 ^ 32
      → (t' : Htab K V) × (insert load_limit hashfn malloced realloced true t k v ≡ some (true, t'))
        × IsValid hashfn t'
        × (t'.entrycount ≡ t.entrycount + 1)
        × ((x : Entry K V) → Stands t'.table x ↔ (Stands t.table x ⊎ (x ≡ entry_of k v)))
  unfolding insert
  insert_total malloced realloced t k v plan valid h =
      let (t₂, run, o, same, count) =
        grow_total hashfn load_limit malloced realloced t plan valid h in
      let a = pushed t₂ k v o in
      (
        record t₂ { table = push t₂.table (do_hash hashfn k % t₂.tablelength) (entry_of k v) },
        rw (run, insert),
        record {
          width = a.width ∙ o.width;
          index = o.index;
          prime = o.prime;
          placed = λ x j on. place t₂ o x j (a.from x j on);
          counted = omega (arith, a.counted, o.counted);
        },
        count,
        λ x. (λ (j, on). back t₂ same x j (a.from x j on), λ s. a.into x (map_left (same x).0 s)),
      )
    where
      place :
          (t₂ : Htab K V) (o : Ordered hashfn 1 t₂) (x : Entry K V) (j : ℕ)
          → On x (get_or t₂.table j []) ⊎ ((x ≡ entry_of k v) × (x.h % t₂.tablelength ≡ j))
          → (x.h % t₂.tablelength ≡ j) × (x.h ≡ do_hash hashfn x.k)
      place t₂ o x j (inl on) = o.placed x j on
      place t₂ o x j (inr (e, q)) = (q, rw e)

      back :
          (t₂ : Htab K V) (same : SameEntries hashfn load_limit t t₂) (x : Entry K V) (j : ℕ)
          → On x (get_or t₂.table j []) ⊎ ((x ≡ entry_of k v) × (x.h % t₂.tablelength ≡ j))
          → Stands t.table x ⊎ (x ≡ entry_of k v)
      back t₂ same x j (inl on) = inl ((same x).1 (j, on))
      back t₂ same x j (inr (e, q)) = inr e

  -- `g_htab_insert` faults exactly when the table has to grow and can, no memory is left for the
  -- new table, and `realloc` then succeeds.
  pub insert_faults :
      (malloced realloced allocated : Bool) (t : Htab K V) (k : K) (v : V)
      → (insert load_limit hashfn malloced realloced allocated t k v ≡ none) ↔ (
          (t.loadlimit < add32 t.entrycount 1)
          × (t.primeindex ≢ prime_table_length - 1)
          × (malloced ≡ false)
          × (realloced ≡ true))
  unfolding insert grow expand
  insert_faults malloced realloced allocated t k v = ground arith
