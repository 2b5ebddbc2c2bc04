-- ===== src/Strings/Url.antt =====
-- `g_url_decode`, `g_url_encode`, the trimming and `do_escape_slash` of libsax/sax/os_api.c, in the C
-- locale.
use xlibsax.Prelude.{
  ℕ, zero, suc, ◌+◌, ◌-◌, ◌*◌, ◌/◌, ◌%◌, Bool, not, ◌&&◌, ◌||◌, Option, none, some, List, [], ◌∷◌,
  length, get_or, set, ltb, leb, ◌==◌, if◌then◌else◌,
}

abbrev pub is_digit : ℕ → Bool
is_digit c = leb 48 c && leb c 57

abbrev pub is_alnum : ℕ → Bool
is_alnum c = is_digit c || (leb 65 c && leb c 90) || (leb 97 c && leb c 122)

abbrev pub is_xdigit : ℕ → Bool
is_xdigit c = is_digit c || (leb 65 c && leb c 70) || (leb 97 c && leb c 102)

abbrev pub is_space : ℕ → Bool
is_space c = c == 32 || (leb 9 c && leb c 13)

abbrev pub to_lower : ℕ → ℕ
to_lower c = if leb 65 c && leb c 90 then c + 32 else c

-- `HEXTOI(x)`
abbrev pub hex_value : ℕ → ℕ
hex_value x = if is_digit x then x - 48 else x - 87

-- The loop of `g_url_decode` on the memory at `src`, which is 0 after the list; every round moves `i`,
-- so fuel for `src_len` rounds is enough.
unfoldable pub url_decode_loop : ℕ → List ℕ → ℕ → ℕ → Bool → ℕ → ℕ → List ℕ → List ℕ × ℕ
url_decode_loop zero src src_len dst_len form i j dst = (dst, j)
url_decode_loop (suc fuel) src src_len dst_len form i j dst =
    let c : ℕ = get_or src i 0 in
    let escaped : Bool =
      c == 37 && is_xdigit (get_or src (i + 1) 0) && is_xdigit (get_or src (i + 2) 0) in
    let out : ℕ =
      if escaped
      then hex_value (to_lower (get_or src (i + 1) 0)) * 16
        + hex_value (to_lower (get_or src (i + 2) 0))
      else if form && c == 43
      then 32
      else c in
    let later =
      url_decode_loop fuel src src_len dst_len form (if escaped then i + 3 else i + 1) (j + 1)
        (set dst j out) in
    if ltb i src_len && ltb j (dst_len - 1) then later else (dst, j)

unfoldable pub url_decode : List ℕ → ℕ → List ℕ → ℕ → Bool → List ℕ × ℕ
url_decode src src_len dst dst_len form =
    let n : ℕ = if src_len == 0 then length src else src_len in
    let (filled, j) = url_decode_loop n src n dst_len form 0 0 dst in (set filled j 0, j)

-- The characters of `dont_escape`.
abbrev pub is_plain : ℕ → Bool
is_plain c =
    c == 46 || c == 95 || c == 45 || c == 36 || c == 44 || c == 59 || c == 126 || c == 40 || c == 41

abbrev pub hex_digit : ℕ → ℕ
hex_digit n = if ltb n 10 then n + 48 else n + 87

-- An escape that does not fit writes nothing, but the position still moves by one.
unfoldable pub url_encode_loop : List ℕ → ℕ → ℕ → List ℕ → List ℕ × ℕ
url_encode_loop [] d end dst = (dst, d)
url_encode_loop (c ∷ src) d end dst =
    let plain = url_encode_loop src (d + 1) end (set dst d c) in
    let escaped =
      url_encode_loop src (d + 3) end
        (set (set (set dst d 37) (d + 1) (hex_digit (c / 16))) (d + 2) (hex_digit (c % 16))) in
    let skipped = url_encode_loop src (d + 1) end dst in
    if not (ltb d end)
    then (dst, d)
    else if is_alnum c || is_plain c
    then plain
    else if ltb (d + 2) end
    then escaped
    else skipped

unfoldable pub url_encode : List ℕ → List ℕ → ℕ → List ℕ × ℕ
url_encode src dst dst_len =
    let (filled, d) = url_encode_loop src 0 (dst_len - 1) dst in (set filled d 0, d)

-- `g_strrtrim`: the string is cut where only white space follows.
unfoldable pub strrtrim : List ℕ → List ℕ
strrtrim [] = []
strrtrim (c ∷ s) = elim (strrtrim s) [ [] ↦ if is_space c then [] else c ∷ [] | d ∷ r ↦ c ∷ d ∷ r ]

unfoldable pub skip_space : List ℕ → List ℕ
skip_space [] = []
skip_space (c ∷ s) = if is_space c then skip_space s else c ∷ s

unfoldable pub strtrim : List ℕ → List ℕ
strtrim s = skip_space (strrtrim s)

-- `do_escape_slash`
unfoldable pub escape_slash : List ℕ → List ℕ
escape_slash [] = []
escape_slash (c ∷ s) = (if c == 92 then 47 else c) ∷ escape_slash s

-- `g_strrchr`, for a byte that is not NUL: the index of the last one.
unfoldable pub strrchr : List ℕ → ℕ → Option ℕ
strrchr [] c = none
strrchr (d ∷ s) c = elim (strrchr s c) [
  | none ↦ if d == c then some 0 else none
  | some i ↦ some (i + 1)
]
