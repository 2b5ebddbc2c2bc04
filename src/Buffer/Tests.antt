-- ===== src/Buffer/Tests.antt =====
-- Runs of the buffer of libsax/sax/net/buffer.h.
use xlibsax.Prelude.{
  ℕ, ◌+◌, ◌-◌, ◌*◌, ◌%◌, ◌^◌, ◌≡◌, refl, sym, ap, ◌∙◌, inl, inr, Bool, true, Option, some, List, [],
  ◌∷◌, arith, length, replicate, length-replicate, some-eq,
}
use xlibsax.Buffer.{Buffer, invalid, compact, get, put, reserve}
use xlibsax.Buffer.Valid.{view, IsValid}
use xlibsax.Buffer.Modes.{Compacts, compact_lem}
use xlibsax.Buffer.Transfer.{Gets, get_lem}
use xlibsax.Buffer.Store.{Pages, Puts, put_lem}

-- Two bytes written on a page of four.
abbrev filling : Buffer
filling = record {
  base = 4096;
  buf = 5 ∷ 6 ∷ 0 ∷ 0 ∷ [];
  current = 2;
  mark = invalid;
  limit = invalid;
  capacity = 4;
  block_size = 4;
}

filling-IsValid : IsValid filling
filling-IsValid = record {
  paged = omega arith;
  held = refl;
  small = omega arith;
  position = omega arith;
  limited = inl refl;
  marked = inl refl;
}

-- One byte read of three.
abbrev draining : Buffer
draining = record filling { current = 1; limit = 3; mark = 0 }

draining-IsValid : IsValid draining
draining-IsValid = record {
  paged = omega arith;
  held = refl;
  small = omega arith;
  position = omega arith;
  limited = inr (omega arith);
  marked = inr (omega arith);
}

abbrev pages : ℕ → Option (ℕ × List ℕ)
pages k = some (8192, replicate (k * 4) 0)

pages-Pages : Pages pages 4
pages-Pages k base fresh e =
    let q : replicate (k * 4) 0 ≡ fresh = ap (λ (x : ℕ × List ℕ). x.1) (some-eq e) in
    ap length (sym q) ∙ length-replicate (k * 4) 0

compact_lem_example : Compacts draining (view draining) (compact draining)
compact_lem_example = compact_lem draining draining-IsValid

get_lem_example : Gets draining 2 (view draining) (get draining 2)
get_lem_example = get_lem draining 2 draining-IsValid (omega arith)

put_lem_example :
    (r : Bool × Buffer) × (put pages filling (7 ∷ 8 ∷ 9 ∷ []) ≡ some r)
    × Puts pages filling (7 ∷ 8 ∷ 9 ∷ []) (5 ∷ 6 ∷ []) r
unfolding view
put_lem_example =
    put_lem pages filling (7 ∷ 8 ∷ 9 ∷ []) (5 ∷ 6 ∷ []) pages-Pages filling-IsValid refl
      (omega arith)

-- A length near 2 ^ 32 wraps the sum of position and length: no page is asked for.
wrapped_reserve : reserve pages filling ((2 + (2 ^ 32 - 1)) % 2 ^ 32) ≡ some (true, filling)
unfolding reserve
wrapped_reserve = refl
