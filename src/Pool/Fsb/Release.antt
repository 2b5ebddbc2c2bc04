-- ===== src/Pool/Fsb/Release.antt =====
-- `g_fsb_free`, `g_fsb_getkey` and `g_fsb_getblock` of libsax/sax/mempool.c on a valid pool.
use xlibsax.Prelude.{
  ℕ, suc, ◌+◌, ◌*◌, ◌/◌, ◌%◌, ◌^◌, ◌<◌, ◌≡◌, refl, sym, ap, ◌∙◌, ◌≢◌, ◌⊎◌, inl, inr, true, false,
  not, ◌&&◌, none, some, [], ◌∷◌, ◌++◌, arith, set, On, length-append, length-set, All-append,
  On-append_left, On-append_right, On-append, Distinct-append, ltb, ◌==◌, if◌then◌else◌, ==_refl,
  ==_iff, ==_ne, Bool-cases,
}
use xlibsax.Pool.Fsb.{
  key_of, Fsb, data_of, put_header, no_header, next, live_block, free, getkey, getblock,
}
use xlibsax.Pool.Fsb.Ring.{window, length-window, window-push}
use xlibsax.Pool.Fsb.Pigeonhole.{length-le}
use xlibsax.Pool.Fsb.Laws.{
  free_count, free_ids, IsValid, data_of-div, data_of-ne, end-step, free_count-lt,
}

-- An identifier in use: a block that was handed out and not freed since.
abbrev pub IsUsed : Fsb → ℕ → Type 0
IsUsed p id = (id < p.block_count) × ¬ (On id (free_ids p))

module _ (p : Fsb) (v : IsValid p) (id : ℕ) where
  live-used : IsUsed p id → live_block p (data_of p.block_size id) ≡ true
  live-used u =
      let (a, b) = v.live id u.0 u.1 in rw (data_of-div p.block_size id v.wide) (ground arith)

  live-free : On id (free_ids p) → live_block p (data_of p.block_size id) ≡ false
  live-free o = rw (v.vacant id o) (ground arith)

  -- The pool after the block of `id` is freed.
  abbrev given : Fsb
  given = record p {
    header = put_header p.header (data_of p.block_size id) no_header;
    ids = set p.ids p.end id;
    end = next (p.block_count + 1) p.end;
  }

  few : IsUsed p id → free_count p < p.block_count
  few u =
      let d = Distinct-append (free_ids p) id v.distinct u.1 in
      let b = All-append (λ x. x < p.block_count) (free_ids p) (id ∷ []) v.bounded (u.0, tt) in
      omega (
        arith,
        length-le p.block_count (free_ids p ++ (id ∷ [])) d b,
        length-append (free_ids p) (id ∷ []),
        length-window (p.block_count + 1) p.ids p.begin (free_count p),
      )

  free_count-given : IsUsed p id → free_count given ≡ suc (free_count p)
  free_count-given u = ground (arith, few u)

  free_ids-given : IsUsed p id → free_ids given ≡ free_ids p ++ (id ∷ [])
  free_ids-given u =
      let slots = p.block_count + 1 in
      ap (λ k. window slots (set p.ids p.end id) p.begin k) (free_count-given u)
      ∙ (ap (λ e. window slots (set p.ids e id) p.begin (suc (free_count p))) (end-step p v)
          ∙ window-push slots p.ids p.begin (free_count p) id (omega arith) (free_count-lt p v)
              (omega (arith, v.slots)))

  given-IsValid : IsUsed p id → IsValid given
  given-IsValid u = record {
    wide = v.wide;
    small = v.small;
    magic32 = v.magic32;
    slots = length-set p.ids p.end id ∙ v.slots;
    begin_in = v.begin_in;
    end_in = ground arith;
    distinct = rw (free_ids-given u) (Distinct-append (free_ids p) id v.distinct u.1);
    bounded =
        rw (free_ids-given u)
          (All-append (λ x. x < p.block_count) (free_ids p) (id ∷ []) v.bounded (u.0, tt));
    vacant = λ id' o. elim (Bool-cases (id == id')) [
      | inl e ↦ rw (← (==_iff id id').0 e, ==_refl (data_of p.block_size id))
      | inr e ↦ rw (data_of-ne p.block_size id id' v.wide (==_ne id id' e)) (
          v.vacant id' (
            old id' (==_ne id id' e)
              (On-append (free_ids p) (id ∷ []) id' (rw (free_ids-given u) at o))))
    ];
    live = λ id' lt out. elim (Bool-cases (id == id')) [
      | inl e ↦ absurd (
          out (
            rw (free_ids-given u)
              (On-append_right (free_ids p) (id ∷ []) id' (inl (sym ((==_iff id id').0 e))))))
      | inr e ↦ rw (data_of-ne p.block_size id id' v.wide (==_ne id id' e)) (
          v.live id' lt
            (λ o. out (rw (free_ids-given u) (On-append_left (free_ids p) (id ∷ []) id' o))))
    ];
  }
    where
      old : (id' : ℕ) → id ≢ id' → On id' (free_ids p) ⊎ On id' (id ∷ []) → On id' (free_ids p)
      old id' ne (inl o) = o
      old id' ne (inr (inl e)) = absurd (ne (sym e))
      old id' ne (inr (inr o)) = absurd o

  -- In a valid pool `g_fsb_free` of a block in use puts its identifier at the end of the queue of free ones and
  -- keeps the pool valid.
  pub free_gives :
      IsUsed p id
      → let r = free p (data_of p.block_size id) in
        (r.0 ≡ some 0) × (free_ids r.1 ≡ free_ids p ++ (id ∷ [])) × IsValid r.1
  unfolding free
  free_gives u =
      rw (live-used u, data_of-div p.block_size id v.wide) (refl, free_ids-given u, given-IsValid u)

  -- In a valid pool, freeing the block of a free identifier, so freeing a block twice, fails and changes nothing,
  -- and such a block has the key 0.
  pub free_rejects :
      On id (free_ids p)
      → (free p (data_of p.block_size id) ≡ (none, p)) × (getkey p (data_of p.block_size id) ≡ 0)
  unfolding free getkey
  free_rejects o = rw (live-free o) (refl, refl)

  -- What `g_fsb_getblock` makes of the two halves of a key.
  getblock_halves :
      (magic : ℕ)
      → id < 2 ^ 31
      → getblock p (key_of (record { id = id; magic = magic })) ≡ (
          if not (magic == 0) && ltb id p.block_count
          then (if key_of (p.header (data_of p.block_size id)) == magic * 2 ^ 32 + id
              then some (data_of p.block_size id)
              else none)
          else none)
  unfolding getblock
  getblock_halves magic h =
      let lo : (magic * 2 ^ 32 + id) % 2 ^ 32 ≡ id = omega arith in
      let hi : (magic * 2 ^ 32 + id) / 2 ^ 32 ≡ magic = omega arith in rw (lo, hi) (ground arith)

  -- In a valid pool the key of a block in use finds the block again.
  pub getblock-getkey :
      IsUsed p id → getblock p (getkey p (data_of p.block_size id)) ≡ some (data_of p.block_size id)
  unfolding getkey
  getblock-getkey u =
      let (same, ne) = v.live id u.0 u.1 in
      let m = (p.header (data_of p.block_size id)).magic in
      let key : getkey p (data_of p.block_size id) ≡ m * 2 ^ 32 + id =
        rw (live-used u) (omega arith) in
      rw (key, getblock_halves m (omega (arith, v.small, u.0))) (ground (arith, v.small))
