-- ===== src/Strings/Wild/Documented.antt =====
-- What libsax/sax/os_api.h says of `g_strmatch`: it matches `*` and `?`.
use xlibsax.Prelude.{ℕ, ◌+◌, ◌*◌, ◌≤◌, ◌≡◌, ◌≢◌, Bool, true, some, List, get_or}
use xlibsax.Strings.Wild.{star, ended, folded, strmatch}
use xlibsax.Strings.Wild.Matches.{Upto, start, one, none_for_star, one_for_star, Ends}
use xlibsax.Strings.Wild.Hope.{IsPlain}
use xlibsax.Strings.Wild.Run.{strmatch_finds}

abbrev pub question : ℕ
question = 63

-- The first `i` characters of the string match the first `j` of the pattern: a `*` stands for any
-- number of characters, a `?` for any one of them, and another character for itself.
pub data Wildcards (string pattern : List ℕ) (sensitive : Bool) : ℕ → ℕ → Type 0 where
  first : Wildcards string pattern sensitive 0 0
  same :
      (i j : ℕ)
      → Wildcards string pattern sensitive i j
      → folded sensitive (get_or string i 0) ≡ folded sensitive (get_or pattern j 0)
      → Wildcards string pattern sensitive (i + 1) (j + 1)
  any :
      (i j : ℕ)
      → Wildcards string pattern sensitive i j
      → get_or pattern j 0 ≡ question
      → Wildcards string pattern sensitive (i + 1) (j + 1)
  stop :
      (i j : ℕ)
      → Wildcards string pattern sensitive i j
      → get_or pattern j 0 ≡ star
      → Wildcards string pattern sensitive i (j + 1)
  more :
      (i j : ℕ)
      → Wildcards string pattern sensitive i (j + 1)
      → get_or pattern j 0 ≡ star
      → Wildcards string pattern sensitive (i + 1) (j + 1)

module _ {string pattern : List ℕ} {sensitive : Bool}
    (plain : (j : ℕ) → get_or pattern j 0 ≢ question) where
  Wildcards-Upto :
      {i j : ℕ} → Wildcards string pattern sensitive i j → Upto string pattern sensitive i j
  Wildcards-Upto first = start
  Wildcards-Upto (same i j w e) = one i j (Wildcards-Upto w) e
  Wildcards-Upto (any i j w e) = absurd (plain j e)
  Wildcards-Upto (stop i j w e) = none_for_star i j (Wildcards-Upto w) e
  Wildcards-Upto (more i j w e) = one_for_star i j (Wildcards-Upto w) e

-- Where the pattern has no `?` and at most one `*`, the string has no `*`, and the terminator stands
-- below `*`, a string that matches the pattern as the header file says, up to an end of it, is answered
-- with 1, within the given number of turns.
pub strmatch-Wildcards :
    (string pattern : List ℕ) (sensitive : Bool) (terminator last nul j fuel : ℕ)
    → Ends string pattern terminator last nul
    → IsPlain string pattern sensitive terminator
    → ((k : ℕ) → get_or pattern k 0 ≢ question)
    → (nul + 2) * (last + 2) * (last + 1) * (nul + 1) ≤ fuel
    → Wildcards string pattern sensitive last j
    → ended terminator (get_or pattern j 0) ≡ true
    → strmatch string pattern sensitive terminator fuel ≡ some 1
strmatch-Wildcards string pattern sensitive terminator last nul j fuel e plain no_question enough w
      over =
    strmatch_finds string pattern sensitive terminator last nul fuel e plain enough
      (j, (Wildcards-Upto no_question w, over))
