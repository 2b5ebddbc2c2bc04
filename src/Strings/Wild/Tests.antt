-- ===== src/Strings/Wild/Tests.antt =====
-- Runs of `g_strmatch` of libsax/sax/os_api.c.
use xlibsax.Prelude.{
  ℕ, zero, suc, ◌<◌, ◌≡◌, refl, ◌≢◌, true, false, some, List, [], ◌∷◌, arith, get_or,
}
use xlibsax.Strings.Wild.{
  star, ended, folded, retry, swallow, turn_ended, turn_inside, turn, strmatch_loop, strmatch,
}
use xlibsax.Strings.Wild.Matches.{Ends}
use xlibsax.Strings.Wild.Documented.{
  question, Wildcards, first, same, any, stop, more, strmatch-Wildcards,
}
use xlibsax.Strings.Wild.Hope.{IsPlain}
use xlibsax.Strings.Wild.Run.{Answers, strmatch_lem}

-- "aab" and "A*b"
abbrev aab : List ℕ
aab = 97 ∷ 97 ∷ 98 ∷ []

abbrev a_star_b : List ℕ
a_star_b = 65 ∷ 42 ∷ 98 ∷ []

aab-Ends : Ends aab a_star_b 0 3 3
aab-Ends = record { at_last = refl; before = before; at_nul = refl }
  where
    before : (i : ℕ) → i < 3 → ended 0 (get_or aab i 0) ≡ false
    before zero h = refl
    before (suc zero) h = refl
    before (suc (suc zero)) h = refl
    before (suc (suc (suc i))) h = absurd (omega (arith, h))

aab-IsPlain : IsPlain aab a_star_b false 0
aab-IsPlain = record {
  single = λ j k p q. omega (arith, only j p, only k q);
  no_star = no_star;
  low = omega arith;
}
  where
    only : (j : ℕ) → get_or a_star_b j 0 ≡ star → j ≡ 1
    only zero p = absurd (omega (arith, p))
    only (suc zero) p = refl
    only (suc (suc zero)) p = absurd (omega (arith, p))
    only (suc (suc (suc zero))) p = absurd (omega (arith, p))
    only (suc (suc (suc (suc j)))) p = absurd (omega (arith, p))

    no_star : (i : ℕ) → folded false (get_or aab i 0) ≢ folded false star
    no_star zero p = omega (arith, p)
    no_star (suc zero) p = omega (arith, p)
    no_star (suc (suc zero)) p = omega (arith, p)
    no_star (suc (suc (suc i))) p = omega (arith, p)

aab-Wildcards : Wildcards aab a_star_b false 3 3
aab-Wildcards = same 2 2 (more 1 1 (stop 1 1 (same 0 0 first refl) refl) refl) refl

no_question : (j : ℕ) → get_or a_star_b j 0 ≢ question
no_question zero p = omega (arith, p)
no_question (suc zero) p = omega (arith, p)
no_question (suc (suc zero)) p = omega (arith, p)
no_question (suc (suc (suc j))) p = omega (arith, p)

strmatch_lem_example : Answers aab a_star_b false 0 3 3 (strmatch aab a_star_b false 0 400)
strmatch_lem_example = strmatch_lem aab a_star_b false 0 3 3 400 aab-Ends (omega arith)

strmatch-Wildcards_example : strmatch aab a_star_b false 0 400 ≡ some 1
strmatch-Wildcards_example =
    strmatch-Wildcards aab a_star_b false 0 3 3 3 400 aab-Ends aab-IsPlain no_question (omega arith)
      aab-Wildcards refl

-- "abc" matches "a?c" as it is documented, and is answered with 0.
question_missed :
    Wildcards (97 ∷ 98 ∷ 99 ∷ []) (97 ∷ 63 ∷ 99 ∷ []) true 3 3
    × (strmatch (97 ∷ 98 ∷ 99 ∷ []) (97 ∷ 63 ∷ 99 ∷ []) true 0 200 ≡ some 0)
unfolding strmatch strmatch_loop turn turn_ended turn_inside swallow retry
question_missed = (same 2 2 (any 1 1 (same 0 0 first refl) refl) refl, refl)

-- "mississippi" against "*sip*", and "aaabXaabc" against "*aab*X*": the second one, which is a match,
-- is missed.
runs :
    (strmatch
        (109 ∷ 105 ∷ 115 ∷ 115 ∷ 105 ∷ 115 ∷ 115 ∷ 105 ∷ 112 ∷ 112 ∷ 105 ∷ [])
        (42 ∷ 115 ∷ 105 ∷ 112 ∷ 42 ∷ [])
        true
        0
        200
      ≡ some 1)
    × (strmatch
          (97 ∷ 97 ∷ 97 ∷ 98 ∷ 88 ∷ 97 ∷ 97 ∷ 98 ∷ 99 ∷ [])
          (42 ∷ 97 ∷ 97 ∷ 98 ∷ 42 ∷ 88 ∷ 42 ∷ [])
          true
          0
          200
        ≡ some 0)
    × (strmatch (97 ∷ 97 ∷ 97 ∷ 98 ∷ 88 ∷ []) (42 ∷ 97 ∷ 97 ∷ 98 ∷ 42 ∷ 88 ∷ 42 ∷ []) true 0 200
        ≡ some 1)
unfolding strmatch strmatch_loop turn turn_ended turn_inside swallow retry
runs = (refl, refl, refl)
