-- ===== src/Pool/Tests.antt =====
-- Runs of the pools of libsax/sax/mempool.c.
use xlibsax.Prelude.{◌≡◌, refl, inl, inr, true, none, some, [], ◌∷◌, arith, ◌==◌, if◌then◌else◌}
use xlibsax.Pool.Xslab
use xlibsax.Pool.Fsb.{Fsb, no_header, init, alloc, free, getkey, getblock}
use xlibsax.Pool.Fsb.Laws.{IsValid, free_ids, Takes, alloc-Takes}
use xlibsax.Pool.Fsb.Release.{free_gives, free_rejects, getblock-getkey}
use xlibsax.Pool.Fsb.Init.{init-IsValid}

-- Two blocks of 16 bytes.
abbrev two : Fsb
two = record {
  block_size = 24;
  block_count = 2;
  begin = 0;
  end = 2;
  next_magic = 0;
  ids = 0 ∷ 1 ∷ 77 ∷ [];
  header = λ q. if 32 == q then no_header else (if 8 == q then no_header else no_header);
}

two_made : init true (λ q. no_header) 77 1000 16 2 ≡ some two
unfolding init
two_made = refl

init-IsValid_example : IsValid two × (free_ids two ≡ 0 ∷ 1 ∷ [])
init-IsValid_example = init-IsValid (λ q. no_header) 77 1000 16 2 (omega arith) two_made

alloc-Takes_example : Takes two (0 ∷ 1 ∷ []) (alloc two)
alloc-Takes_example = alloc-Takes two init-IsValid_example.0

-- The pool with its first block in use.
one : Fsb
one = (alloc two).1

one-IsValid : IsValid one
unfolding one
one-IsValid = alloc-Takes_example.2

free_gives_example :
    let r = free one 8 in (r.0 ≡ some 0) × (free_ids r.1 ≡ 1 ∷ 0 ∷ []) × IsValid r.1
unfolding one alloc
free_gives_example = free_gives one one-IsValid 0 (omega arith, λ o. ground (arith, o))

getblock-getkey_example : getblock one (getkey one 8) ≡ some 8
unfolding one alloc
getblock-getkey_example = getblock-getkey one one-IsValid 0 (omega arith, λ o. ground (arith, o))

free_rejects_example : (free two 32 ≡ (none, two)) × (getkey two 32 ≡ 0)
free_rejects_example = free_rejects two init-IsValid_example.0 1 (inr (inl refl))

-- Three free blocks of 40 bytes.
abbrev chain : Xslab.Xslab
chain = record {
  free_list = 8 ∷ 48 ∷ 88 ∷ [];
  usable_amount = 3;
  shrink_amount = 0;
  alloc_size = 40;
  freed = [];
}
