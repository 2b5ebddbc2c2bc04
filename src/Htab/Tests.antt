-- ===== src/Htab/Tests.antt =====
-- Runs of the hash table of libsax/sax/htab.c, with numbers for keys.
use xlibsax.Prelude.{
  ℕ, ◌/◌, ◌%◌, ◌≡◌, refl, sym, ap, ◌∙◌, ◌↔◌, ◌⊎◌, inl, Bool, true, false, none, some, [], arith,
  replicate, run, ◌==◌, ==_refl, ==_iff, some-eq,
}
use xlibsax.Htab.{
  Entry, Htab, do_hash, create, insert, search, remove, choose_prime, mix, grow, push,
}
use xlibsax.Htab.Chains.{Stands}
use xlibsax.Htab.Laws.{IsValid}
use xlibsax.Htab.Search.{entry_of, insert_total}
use xlibsax.Htab.Remove.{Suits, Removes, search-insert, remove_total}
use xlibsax.Htab.Create.{create-IsValid}

abbrev same : ℕ → ℕ
same k = k

abbrev half : ℕ → ℕ
half n = n / 2

abbrev empty : Htab ℕ ℕ
empty = record {
  table = replicate 53 [];
  tablelength = 53;
  entrycount = 0;
  loadlimit = 26;
  primeindex = 0;
}

empty_made : create half true true 10 ≡ some empty
unfolding create choose_prime
empty_made = refl

Suits-same : Suits same (λ a b. a == b)
Suits-same = record { eq_refl = ==_refl; hash-eq = λ a b e. (==_iff a b).0 e }

insert_total_example :
    (t' : Htab ℕ ℕ) × (insert half same true true true empty 7 70 ≡ some (true, t'))
    × IsValid same t'
    × (t'.entrycount ≡ 1)
    × ((x : Entry ℕ ℕ) → Stands t'.table x ↔ (Stands empty.table x ⊎ (x ≡ entry_of same half 7 70)))
insert_total_example =
    insert_total {V = ℕ} same half true true empty 7 70 (inl refl)
      (create-IsValid same half true true 10 empty_made).0 (omega arith)

-- The table with the value 70 for the key 7.
seven : Htab ℕ ℕ
seven = record empty {
  table = push empty.table (do_hash same 7 % 53) (record { k = 7; v = 70; h = do_hash same 7 });
  entrycount = 1;
}

seven_made : insert half same true true true empty 7 70 ≡ some (true, seven)
unfolding insert grow seven
seven_made = refl

nothing_found : search same (λ a b. a == b) empty 7 ≡ none
unfolding search mix
nothing_found = refl

search-insert_example :
    (search same (λ a b. a == b) seven 7 ≡ some 70)
    × ((q w : ℕ)
        → (q == 7) ≡ false
        → search same (λ a b. a == b) seven q ≡ some w
        → (e : Entry ℕ ℕ) × Stands empty.table e × ((q == e.k) ≡ true) × (e.v ≡ w))
    × ((q : ℕ) (e : Entry ℕ ℕ)
        → Stands empty.table e
        → search same (λ a b. a == b) seven q ≡ none
        → (q == e.k) ≡ false)
search-insert_example =
    search-insert same (λ a b. a == b) half true true empty seven 7 70 Suits-same (inl refl)
      (create-IsValid same half true true 10 empty_made).0 (omega arith) nothing_found seven_made

seven-IsValid : IsValid same seven
seven-IsValid =
    let (t', run, valid, counted, same_entries) = insert_total_example in
    let e : (true, t') ≡ (true, seven) = some-eq (sym run ∙ seven_made) in
    rw (ap (λ (x : Bool × Htab ℕ ℕ). x.1) e) at valid

no_five : search same (λ a b. a == b) seven 5 ≡ none
unfolding search seven mix
no_five = refl

seven-Stands : Stands seven.table (entry_of same half 7 70)
unfolding seven mix
seven-Stands = (do_hash same 7 % 53, inl refl)

remove_total_example :
    let t' = (remove same (λ a b. a == b) seven 7).1 in
    ((remove same (λ a b. a == b) seven 7).0 ≡ search same (λ a b. a == b) seven 7)
    × (search same (λ a b. a == b) seven 7 ≡ none → t' ≡ seven)
    × ((v : ℕ)
        → search same (λ a b. a == b) seven 7 ≡ some v
        → Removes same (λ a b. a == b) seven 7 t')
unfolding seven
remove_total_example = remove_total same (λ a b. a == b) seven 7 seven-IsValid (omega arith)

-- A full table, without memory for a larger one.
abbrev full : Htab ℕ ℕ
full = record empty { entrycount = 26 }
