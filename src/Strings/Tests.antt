-- ===== src/Strings/Tests.antt =====
-- Runs of the string routines of libsax/sax/os_api.c.
use xlibsax.Prelude.{◌≡◌, refl, ◌↔◌, some, [], ◌∷◌, map, arith}
use xlibsax.Strings.Bounded.{strlcpy, strlcat}
use xlibsax.Strings.Bounded.Stored.{strlcpy_lem, strlcat_lem}
use xlibsax.Strings.Compare.{pos, stricmp}
use xlibsax.Strings.Compare.Laws.{lower, stricmp_zero}
use xlibsax.Strings.Base64.{
  letter, code, patch, encode_group, decode_group, encode_loop, encode, decode_loop, decode,
}
use xlibsax.Strings.Base64.Round.{decode_group-encode_group}

strlcpy_lem_example :
    strlcpy (1 ∷ 2 ∷ 3 ∷ 4 ∷ []) (65 ∷ 66 ∷ 67 ∷ []) 3 ≡ some (65 ∷ 66 ∷ 0 ∷ 4 ∷ [], some 3)
strlcpy_lem_example =
    strlcpy_lem (1 ∷ 2 ∷ 3 ∷ 4 ∷ []) (65 ∷ 66 ∷ 67 ∷ []) 3 (omega arith) (omega arith)

strlcat_lem_example :
    strlcat (65 ∷ 0 ∷ 3 ∷ 4 ∷ []) (66 ∷ 67 ∷ []) 4 ≡ some (65 ∷ 66 ∷ 67 ∷ 0 ∷ [], 3)
strlcat_lem_example =
    strlcat_lem (65 ∷ []) (3 ∷ 4 ∷ []) (66 ∷ 67 ∷ []) 4 (omega arith, tt) (omega arith)

stricmp_zero_example :
    (stricmp (65 ∷ 98 ∷ []) (97 ∷ 66 ∷ []) ≡ pos 0)
    ↔ (map lower (65 ∷ 98 ∷ []) ≡ map lower (97 ∷ 66 ∷ []))
stricmp_zero_example =
    stricmp_zero (65 ∷ 98 ∷ []) (97 ∷ 66 ∷ [])
      ((omega arith, omega arith), ((omega arith, omega arith), tt))
      ((omega arith, omega arith), ((omega arith, omega arith), tt))

decode_group-encode_group_example :
    decode_group (encode_group (1 ∷ 2 ∷ 255 ∷ []) 4).0 3 ≡ some (1 ∷ 2 ∷ 255 ∷ [], 3)
decode_group-encode_group_example =
    decode_group-encode_group 1 2 255 3 (omega arith) (omega arith) (omega arith) (omega arith)

-- The table of the source gives 224 of its 256 entries, so the byte 224 reads as the digit 0.
high_bytes : decode (224 ∷ 65 ∷ 65 ∷ 65 ∷ []) (9 ∷ 9 ∷ 9 ∷ []) 3 ≡ some (0 ∷ 0 ∷ 0 ∷ [], 3)
unfolding decode decode_loop decode_group patch code
high_bytes = refl

-- One byte is read back as two.
one_byte :
    (encode (77 ∷ []) (9 ∷ 9 ∷ 9 ∷ []) 3 ≡ (84 ∷ 81 ∷ 0 ∷ [], 2))
    × (decode (84 ∷ 81 ∷ []) (9 ∷ 9 ∷ 9 ∷ []) 3 ≡ some (77 ∷ 0 ∷ 0 ∷ [], 2))
unfolding encode encode_loop encode_group letter decode decode_loop decode_group patch code
one_byte = (refl, refl)
