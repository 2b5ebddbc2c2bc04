-- ===== src/Htab.antt =====
-- The chained hash table of libsax/sax/htab.c. An entry is a record, a chain the list of its entries, and
-- what `malloc`, `calloc` and `realloc` answer is an argument. The hash and equality functions are
-- the user's; `load_limit` stands for the single-precision `(uint32_t) (size * 0.65f + 0.5f)`.
pub mod Chains
pub mod Remove
pub mod Create
pub mod Laws
pub mod Search
mod Tests
use xlibsax.Prelude.{
  ℕ, ◌+◌, ◌-◌, ◌*◌, ◌/◌, ◌%◌, ◌^◌, bit_or, bit_xor, Bool, true, false, ◌&&◌, Option, none, some,
  List, [], ◌∷◌, ◌++◌, get_or, set, replicate, ltb, ◌==◌, if◌then◌else◌, add32, sub32,
}

pub record Entry (K V : Type 0) : Type 0 where
  pub k : K
  pub v : V
  pub h : ℕ

abbrev pub Chain : Type 0 → Type 0 → Type 0
Chain K V = List (Entry K V)

pub record Htab (K V : Type 0) : Type 0 where
  pub table : List (Chain K V)
  pub tablelength : ℕ
  pub entrycount : ℕ
  pub loadlimit : ℕ
  pub primeindex : ℕ

abbrev pub primes : List ℕ
primes =
    53 ∷ 97 ∷ 193 ∷ 389 ∷ 769 ∷ 1543 ∷ 3079 ∷ 6151 ∷ 12289 ∷ 24593 ∷ 49157 ∷ 98317 ∷ 196613 ∷ 393241
    ∷ 786433 ∷ 1572869 ∷ 3145739 ∷ 6291469 ∷ 12582917 ∷ 25165843 ∷ 50331653 ∷ 100663319 ∷ 201326611
    ∷ 402653189 ∷ 805306457 ∷ 1610612741 ∷ []

abbrev pub prime_table_length : ℕ
prime_table_length = 26

-- `x << n` and `~x` on `uint32_t`
abbrev pub shl32 : ℕ → ℕ → ℕ
shl32 x n = x * 2 ^ n % 2 ^ 32

abbrev pub not32 : ℕ → ℕ
not32 x = 2 ^ 32 - 1 - x

-- The mixing of `do_hash`, statement by statement.
unfoldable pub mix : ℕ → ℕ
mix i₀ =
    let i₁ = add32 i₀ (not32 (shl32 i₀ 9)) in
    let i₂ = bit_xor i₁ (bit_or (i₁ / 2 ^ 14) (shl32 i₁ 18)) in
    let i₃ = add32 i₂ (shl32 i₂ 4) in bit_xor i₃ (bit_or (i₃ / 2 ^ 10) (shl32 i₃ 22))

-- The first prime above `minsize`, with its index; the first prime of all where none is.
unfoldable pub choose_prime : List ℕ → ℕ → ℕ → ℕ × ℕ
choose_prime [] i minsize = (53, i)
choose_prime (p ∷ ps) i minsize = if ltb minsize p then (p, i) else choose_prime ps (i + 1) minsize

abbrev pub do_hash : {K : Type 0} → (K → ℕ) → K → ℕ
do_hash hashfn k = mix (hashfn k)

module _ {K V : Type 0} where
  -- The entry becomes the head of its chain.
  abbrev pub push : List (Chain K V) → ℕ → Entry K V → List (Chain K V)
  push table i e = set table i (e ∷ get_or table i [])

  -- The loops of `htab_expand`: every chain is taken off from its head.
  unfoldable pub move_chain : ℕ → Chain K V → List (Chain K V) → List (Chain K V)
  move_chain newsize [] newtable = newtable
  move_chain newsize (e ∷ es) newtable = move_chain newsize es (push newtable (e.h % newsize) e)

  unfoldable pub move_all : ℕ → List (Chain K V) → List (Chain K V) → List (Chain K V)
  unfolding move_chain
  move_all newsize [] newtable = newtable
  move_all newsize (c ∷ cs) newtable = move_all newsize cs (move_chain newsize c newtable)

module _ {K V : Type 0} (load_limit : ℕ → ℕ) where
  -- `made` and `cleared` are the answers of `malloc` and `calloc`.
  unfoldable pub create : Bool → Bool → ℕ → Option (Htab K V)
  create made cleared minsize =
      if ltb (2 ^ 30) minsize
      then none
      else (let (size, pindex) = choose_prime primes 0 minsize in
          if made && cleared
          then some (record {
            table = replicate size [];
            tablelength = size;
            entrycount = 0;
            loadlimit = load_limit size;
            primeindex = pindex;
          })
          else none)

  -- `htab_expand`, with its return value as a Boolean. Where `malloc` fails and `realloc` succeeds,
  -- the code hands `memset` the uninitialised pointer `newtable[h->tablelength]`: a fault, `none`.
  unfoldable pub expand : Bool → Bool → Htab K V → Option (Bool × Htab K V)
  expand malloced realloced t =
      if t.primeindex == prime_table_length - 1
      then some (false, t)
      else (let newsize = get_or primes (t.primeindex + 1) 0 in
          if malloced
          then some (
            true,
            record t {
              table = move_all newsize t.table (replicate newsize []);
              tablelength = newsize;
              loadlimit = load_limit newsize;
              primeindex = t.primeindex + 1;
            },
          )
          else (if realloced then none else some (false, t)))

  -- The growth at the start of `g_htab_insert`.
  unfoldable pub grow : Bool → Bool → Htab K V → Option (Htab K V)
  grow malloced realloced t =
      let t₁ : Htab K V = record t { entrycount = add32 t.entrycount 1 } in
      if ltb t.loadlimit t₁.entrycount
      then elim (expand malloced realloced t₁) [ none ↦ none | some (done, t₂) ↦ some t₂ ]
      else some t₁

  -- `g_htab_insert`; `allocated` tells whether there is memory for the entry.
  unfoldable pub insert : (K → ℕ) → Bool → Bool → Bool → Htab K V → K → V → Option (Bool × Htab K V)
  insert hashfn malloced realloced allocated t k v = elim (grow malloced realloced t) [
    | none ↦ none
    | some t₂ ↦
        if allocated
        then some (
          true,
          record t₂ {
            table =
                push t₂.table (do_hash hashfn k % t₂.tablelength)
                  (record { k = k; v = v; h = do_hash hashfn k });
          },
        )
        else some (false, record t₂ { entrycount = sub32 t₂.entrycount 1 })
  ]

module _ {K V : Type 0} (hashfn : K → ℕ) (eqfn : K → K → Bool) where
  -- The test of `g_htab_search` and `g_htab_remove`.
  abbrev pub matches : K → Entry K V → Bool
  matches k e = do_hash hashfn k == e.h && eqfn k e.k

  unfoldable pub find : K → Chain K V → Option V
  find k [] = none
  find k (e ∷ es) = if matches k e then some e.v else find k es

  unfoldable pub search : Htab K V → K → Option V
  unfolding find
  search t k = find k (get_or t.table (do_hash hashfn k % t.tablelength) [])

  -- The chain without the first entry that matches.
  unfoldable pub unlink : K → Chain K V → Chain K V
  unlink k [] = []
  unlink k (e ∷ es) = if matches k e then es else e ∷ unlink k es

  unfoldable pub remove : Htab K V → K → Option V × Htab K V
  unfolding find unlink
  remove t k =
      let i = do_hash hashfn k % t.tablelength in
      let c = get_or t.table i [] in
      elim (find k c) [
        | none ↦ (none, t)
        | some v ↦ (
          some v,
          record t { table = set t.table i (unlink k c); entrycount = sub32 t.entrycount 1 },
        )
      ]

-- `g_htab_foreach`: `cb` answers whether to go on, and changes the user's data `s`.
module _ {K V S : Type 0} (cb : K → V → S → Bool × S) where
  visit_chain : Chain K V → S → Bool × S
  visit_chain [] s = (true, s)
  visit_chain (e ∷ es) s =
      let (go_on, s') = cb e.k e.v s in
      let rest = visit_chain es s' in if go_on then rest else (false, s')

  visit_all : List (Chain K V) → S → S
  unfolding visit_chain
  visit_all [] s = s
  visit_all (c ∷ cs) s =
      let (go_on, s') = visit_chain c s in let rest = visit_all cs s' in if go_on then rest else s'

  pub foreach : Htab K V → S → S
  unfolding visit_all
  foreach t s = visit_all t.table s

module _ {K V : Type 0} where
  -- The entries that `g_htab_destroy` frees, first first.
  unfoldable pub chain_entries : List (Chain K V) → List (Entry K V)
  chain_entries [] = []
  chain_entries (c ∷ cs) = c ++ chain_entries cs

  unfoldable pub destroy : Htab K V → List (Entry K V)
  destroy t = chain_entries t.table

  -- `g_htab_count`
  unfoldable pub entries_counted : Htab K V → ℕ
  entries_counted t = t.entrycount
