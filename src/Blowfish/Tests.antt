-- ===== src/Blowfish/Tests.antt =====
-- Runs of the cipher of libsax/sax/blowfish.c.
use xlibsax.Prelude.{ℕ, ◌≡◌, refl, Option, none, some, List, [], ◌∷◌, arith}
use xlibsax.Blowfish.{
  Blowfish, mangle, feistel, rounds_up, encrypt, key_word, keyed, fill_p, fill_box, fill_s, init,
  enc, dec,
}
use xlibsax.Blowfish.Schedule.{dec-enc-init}

program : Unit {0}
unfolding init fill_p fill_s fill_box keyed key_word encrypt rounds_up feistel mangle
program = tt

abbrev words : Option Blowfish → ℕ × ℕ
words none = (0, 0)
words (some ctx) = encrypt ctx (1, 2)

-- The published vector: the key "TESTKEY" and the block 1, 2.
vector :
    words (init (b'T' ∷ b'E' ∷ b'S' ∷ b'T' ∷ b'K' ∷ b'E' ∷ b'Y' ∷ [])) ≡ (0xdf333fd2, 0x30a71bb4)
unfolding program
vector = refl

abbrev test_key : List ℕ
test_key = b'T' ∷ b'E' ∷ b'S' ∷ b'T' ∷ []

made : Blowfish
unfolding init
made = elim (init test_key) [ none ↦ record { p = []; s = [] } | some ctx ↦ ctx ]

init-made : init test_key ≡ some made
unfolding init made
init-made = refl

abbrev text : List ℕ
text = 1 ∷ 2 ∷ 3 ∷ 4 ∷ 5 ∷ 6 ∷ 7 ∷ 8 ∷ 9 ∷ 10 ∷ []

dec-enc-init_example : dec made (enc made text 10).0 10 ≡ (text, (enc made text 10).1)
dec-enc-init_example =
    dec-enc-init test_key text 10 (omega arith) init-made (omega arith) (omega arith)
