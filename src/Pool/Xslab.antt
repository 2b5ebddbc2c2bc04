-- ===== src/Pool/Xslab.antt =====
-- The fixed-size pool `g_xslab_t` of libsax/sax/mempool.c. A block is its address; the free blocks,
-- chained through their first word, are the list from `head` on. Each free block takes eight bytes
-- at least, so the 32-bit counters do not overflow in memory that a process can have.
use xlibsax.Prelude.{
  ℕ, zero, suc, ◌+◌, ◌-◌, ◌≤◌, ◌≡◌, refl, sym, ◌∙◌, inl, inr, Bool, true, Option, none, some, List,
  [], ◌∷◌, ◌++◌, append-nil, append_assoc, arith, length, ltb, ◌==◌, if◌then◌else◌, Bool-cases,
}

-- `freed` collects, first first, the blocks handed back to `free()`.
pub record Xslab : Type 0 where
  pub free_list : List ℕ
  pub usable_amount : ℕ
  pub shrink_amount : ℕ
  pub alloc_size : ℕ
  pub freed : List ℕ

-- `sizeof(void*)`
abbrev pub ptr_size : ℕ
ptr_size = 8

-- `created` says whether the `malloc` of the pool's own record succeeded.
unfoldable pub init : Bool → ℕ → Option Xslab
init created size =
    if created
    then some (record {
      free_list = [];
      usable_amount = 0;
      shrink_amount = 0;
      alloc_size = if ltb size ptr_size then ptr_size else size;
      freed = [];
    })
    else none

-- Unlink the head of the free list; `none` where the code would read through a null `head`.
pop_head : Xslab → List ℕ → Option (ℕ × Xslab)
pop_head s [] = none
pop_head s (p ∷ ps) = some (p, record s { free_list = ps; usable_amount = s.usable_amount - 1 })

-- `answer` is what `malloc(alloc_size)` returns if it is called. The outer option is a fault.
unfoldable pub alloc : Xslab → Option ℕ → Option (Option ℕ × Xslab)
unfolding pop_head
alloc s answer =
    if ltb 0 s.usable_amount
    then elim (pop_head s s.free_list) [ none ↦ none | some (p, s') ↦ some (some p, s') ]
    else some (answer, s)

unfoldable pub free : Xslab → ℕ → Xslab
free s p =
    if s.shrink_amount == 0
    then record s { free_list = p ∷ s.free_list; usable_amount = s.usable_amount + 1 }
    else record s { freed = s.freed ++ (p ∷ []); shrink_amount = s.shrink_amount - 1 }

-- `kept n` is `(int32_t) (n * keep)`.
unfoldable pub shrink : (ℕ → ℕ) → Xslab → Xslab
shrink kept s = record s { shrink_amount = s.usable_amount - kept s.usable_amount }

-- The loop of `g_xslab_destroy`, `n` being `usable_amount`; `none` is a fault.
destroy_loop : ℕ → Xslab → Option Xslab
unfolding pop_head
destroy_loop zero s = some s
destroy_loop (suc n) s = elim (pop_head s s.free_list) [
  | none ↦ none
  | some (p, s') ↦ destroy_loop n (record s' { freed = s'.freed ++ (p ∷ []) })
]

unfoldable pub destroy : Xslab → Option Xslab
unfolding destroy_loop
destroy s = destroy_loop s.usable_amount s

-- The count is the length of the chain, and a block holds the link.
pub record IsValid (s : Xslab) : Type 0 where
  pub counted : s.usable_amount ≡ length s.free_list
  pub wide : ptr_size ≤ s.alloc_size

pub init-IsValid : (size : ℕ) {s : Xslab} → init true size ≡ some s → IsValid s
unfolding init
init-IsValid size h = ground arith

-- An allocation from a valid pool does not fault and leaves a valid pool.
pub alloc_total :
    (s : Xslab) (answer : Option ℕ)
    → IsValid s
    → (r : Option ℕ × Xslab) × (alloc s answer ≡ some r) × IsValid r.1
unfolding alloc
alloc_total s answer v = elim (Bool-cases (ltb 0 s.usable_amount)) [
  | inr e ↦ ((answer, s), rw e, v)
  | inl e ↦ head e s.free_list refl
]
  where
    head :
        ltb 0 s.usable_amount ≡ true
        → (ps : List ℕ) → s.free_list ≡ ps
        → (r : Option ℕ × Xslab) × (alloc s answer ≡ some r) × IsValid r.1
    head e [] q = absurd (ground (arith, e, v.counted, q))
    head e (p ∷ ps) q = (
      (some p, record s { free_list = ps; usable_amount = s.usable_amount - 1 }),
      ground (arith, e, q),
      ground (arith, v.counted, q),
    )

-- `g_xslab_free` keeps the pool valid.
pub free-IsValid : (s : Xslab) (p : ℕ) → IsValid s → IsValid (free s p)
unfolding free
free-IsValid s p v = ground arith

-- The pool is a stack: a block freed while no shrinking is due is the next one allocated, and the
-- pool is then as before.
pub alloc-free :
    (s : Xslab) (p : ℕ) (answer : Option ℕ)
    → s.shrink_amount ≡ 0
    → alloc (free s p) answer ≡ some (some p, s)
unfolding alloc free
alloc-free s p answer h = ground arith

unfoldable pub free_all : Xslab → List ℕ → Xslab
unfolding free
free_all s [] = s
free_all s (p ∷ ps) = free_all (free s p) ps

free_all-freed :
    (ps : List ℕ) (s : Xslab)
    → length ps ≤ s.shrink_amount
    → ((free_all s ps).free_list ≡ s.free_list)
      × ((free_all s ps).usable_amount ≡ s.usable_amount)
      × ((free_all s ps).freed ≡ s.freed ++ ps)
      × ((free_all s ps).shrink_amount + length ps ≡ s.shrink_amount)
unfolding free_all
free_all-freed [] s h = (refl, refl, sym (append-nil s.freed), omega arith)
free_all-freed (p ∷ ps) s h =
    ground (arith, free_all-freed ps (free s p), append_assoc s.freed (p ∷ []) ps)

-- After a shrink to `kept n` of its `n` free blocks, the pool hands the next `n - kept n` freed
-- blocks back to the system, in order, and its chain stays as it is; then no shrinking is due.
pub free_all-shrink :
    (kept : ℕ → ℕ) (s : Xslab) (ps : List ℕ)
    → length ps ≡ s.usable_amount - kept s.usable_amount
    → let t = free_all (shrink kept s) ps in
      (t.free_list ≡ s.free_list)
      × (t.usable_amount ≡ s.usable_amount)
      × (t.freed ≡ s.freed ++ ps)
      × (t.shrink_amount ≡ 0)
unfolding shrink
free_all-shrink kept s ps h = ground (arith, free_all-freed ps (shrink kept s))

destroy_loop_lem :
    (n : ℕ) (s : Xslab) (ps : List ℕ)
    → s.free_list ≡ ps
    → n ≡ length ps
    → (t : Xslab) × (destroy_loop n s ≡ some t) × (t.freed ≡ s.freed ++ ps) × (t.free_list ≡ [])
unfolding destroy_loop
destroy_loop_lem zero s [] e h = (s, refl, sym (append-nil s.freed), e)
destroy_loop_lem zero s (p ∷ ps) e h = absurd (omega arith)
destroy_loop_lem (suc n) s [] e h = absurd (omega arith)
destroy_loop_lem (suc n) s (p ∷ ps) e h =
    let s' : Xslab = record s {
      free_list = ps;
      usable_amount = s.usable_amount - 1;
      freed = s.freed ++ (p ∷ []);
    } in
    let (t, run, out, nil) = destroy_loop_lem n s' ps refl (omega arith) in
    (t, rw (e, pop_head) run, out ∙ append_assoc s.freed (p ∷ []) ps, nil)

-- Destroying a valid pool does not fault, and frees exactly the blocks of its chain, in order.
pub destroy_total :
    (s : Xslab)
    → IsValid s
    → (t : Xslab) × (destroy s ≡ some t) × (t.freed ≡ s.freed ++ s.free_list) × (t.free_list ≡ [])
unfolding destroy
destroy_total s v = destroy_loop_lem s.usable_amount s s.free_list refl v.counted
