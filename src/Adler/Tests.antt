-- ===== src/Adler/Tests.antt =====
-- A run of the checksum of libsax/sax/adler32.c.
use xlibsax.Prelude.{◌≡◌, refl, [], ◌∷◌, arith}
use xlibsax.Adler.{add_bytes, batches, rounds, calc_adler32}
use xlibsax.Adler.Equal.{checksum, calc_adler32_lem, calc_adler32-append}

-- The checksum of "Wikipedia".
wikipedia : calc_adler32 1 (87 ∷ 105 ∷ 107 ∷ 105 ∷ 112 ∷ 101 ∷ 100 ∷ 105 ∷ 97 ∷ []) ≡ 0x11e60398
unfolding calc_adler32 rounds batches add_bytes
wikipedia = refl

calc_adler32_lem_example : calc_adler32 1 (97 ∷ 98 ∷ []) ≡ checksum 1 (97 ∷ 98 ∷ [])
calc_adler32_lem_example = calc_adler32_lem 1 (97 ∷ 98 ∷ []) (omega arith) (omega arith)

calc_adler32-append_example :
    calc_adler32 (calc_adler32 1 (97 ∷ [])) (98 ∷ []) ≡ calc_adler32 1 (97 ∷ 98 ∷ [])
calc_adler32-append_example =
    calc_adler32-append 1 (97 ∷ []) (98 ∷ []) (omega arith) (omega arith) (omega arith)
