-- ===== src/Strings/Wild.antt =====
-- `g_strmatch` of libsax/sax/os_api.c: a string against a pattern in which `*` stands for any
-- characters. A string is its characters up to the NUL; pointers are offsets.
pub mod Measure
pub mod Matches
pub mod Sound
pub mod Turns
pub mod Run
pub mod Documented
mod Tests
pub mod Rest
pub mod Hope
pub mod Complete
use xlibsax.Prelude.{
  ℕ, zero, suc, ◌+◌, Bool, ◌||◌, Option, none, some, List, get_or, ◌==◌, if◌then◌else◌,
}
use xlibsax.Strings.Url.{to_lower}

-- `str`, `pat`, `pAfterLastWild` and `pAfterLastTame`; a null pointer is `none`.
pub record Cursor : Type 0 where
  pub str : ℕ
  pub pat : ℕ
  pub after_wild : Option ℕ
  pub after_tame : Option ℕ

-- One turn of the loop; `faults` is the read of a null pointer.
pub data Turn : Type 0 where
  returns : ℕ → Turn
  goes_on : Cursor → Turn
  faults : Turn

-- `'*'`
abbrev pub star : ℕ
star = 42

-- The NUL or the terminator.
abbrev pub ended : ℕ → ℕ → Bool
ended terminator c = c == 0 || c == terminator

-- A character as it is compared.
abbrev pub folded : Bool → ℕ → ℕ
folded sensitive c = if sensitive then c else to_lower c

-- The end of the string, where the pattern goes on: the next place for the last `*`.
unfoldable pub retry : List ℕ → ℕ → Option ℕ → Option ℕ → Turn
retry string terminator wild none = returns 0
retry string terminator none (some k) =
    if ended terminator (get_or string k 0) then returns 0 else faults
retry string terminator (some p) (some k) =
    if ended terminator (get_or string k 0)
    then returns 0
    else goes_on (record { str = k; pat = p; after_wild = some p; after_tame = some (k + 1) })

module _ (string pattern : List ℕ) (sensitive : Bool) (terminator : ℕ) where
  -- A character of the string that differs from the pattern's: the last `*` takes what stands
  -- before it.
  unfoldable pub swallow : ℕ → Option ℕ → Option ℕ → Turn
  swallow i none tame = returns 0
  swallow i (some p) tame =
      if ended terminator (get_or pattern p 0)
      then returns 1
      else goes_on (record {
        str = i + 1;
        pat =
            if folded sensitive (get_or string i 0) == folded sensitive (get_or pattern p 0)
            then p + 1
            else p;
        after_wild = some p;
        after_tame = tame;
      })

  -- The turn at the end of the string.
  unfoldable pub turn_ended : Cursor → Turn
  turn_ended c =
      let w = get_or pattern c.pat 0 in
      if ended terminator w
      then returns 1
      else if w == star
      then goes_on (record c { pat = c.pat + 1 })
      else retry string terminator c.after_wild c.after_tame

  -- The turn on a character of the string.
  unfoldable pub turn_inside : Cursor → Turn
  turn_inside c =
      let t = folded sensitive (get_or string c.str 0) in
      let w = folded sensitive (get_or pattern c.pat 0) in
      if t == w
      then goes_on (record c { str = c.str + 1; pat = c.pat + 1 })
      else if w == star
      then goes_on (record {
        str = c.str;
        pat = c.pat + 1;
        after_wild = some (c.pat + 1);
        after_tame = some c.str;
      })
      else swallow c.str c.after_wild c.after_tame

  unfoldable pub turn : Cursor → Turn
  turn c = if ended terminator (get_or string c.str 0) then turn_ended c else turn_inside c

  -- The loop, on fuel.
  unfoldable pub strmatch_loop : ℕ → Cursor → Option ℕ
  strmatch_loop zero c = none
  strmatch_loop (suc fuel) c = elim (turn c) [
    | returns r ↦ some r
    | goes_on d ↦ strmatch_loop fuel d
    | faults ↦ none
  ]

  unfoldable pub strmatch : ℕ → Option ℕ
  strmatch fuel =
      strmatch_loop fuel (record { str = 0; pat = 0; after_wild = none; after_tame = none })
