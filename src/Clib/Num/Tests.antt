-- ===== src/Clib/Num/Tests.antt =====
-- The theorems on the printing and the reading of numbers, at 42.
use kludgeos.Base.{
  suc, leb, [], ◌∷◌, ◌+◌, ◌≡◌, refl, length, ◌==◌, if◌then◌else◌, none, some, arith,
}
use kludgeos.Clib.Str.{Mem, digit_value, strtol}
use kludgeos.Clib.Num.{printnum}
use kludgeos.Clib.Num.Digits.{Holds, strtol-printnum}

-- "  42" at 8.
abbrev answer : Mem
answer i = if leb i 9 then b' ' else if i == 10 then b'4' else if i == 11 then b'2' else 0

printed : printnum 42 10 4 b' ' ≡ b' ' ∷ b' ' ∷ b'4' ∷ b'2' ∷ []
unfolding printnum
printed = refl

answer-Holds : Holds answer 8 (printnum 42 10 4 b' ')
answer-Holds = rw printed (refl, (refl, (refl, (refl, tt))))

answer_ends : digit_value (answer (8 + length (printnum 42 10 4 b' '))) ≡ none
unfolding digit_value
answer_ends = rw printed refl

strtol-printnum_example :
    strtol (suc 0 + length (printnum 42 10 4 b' ')) answer 8 10
    ≡ some (42, 8 + length (printnum 42 10 4 b' '))
strtol-printnum_example = strtol-printnum 0 42 4 answer 8 (omega arith) answer-Holds answer_ends
