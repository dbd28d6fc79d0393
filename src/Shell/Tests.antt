-- ===== src/Shell/Tests.antt =====
-- The theorem on the shell's tokens at the line "a |".
use kludgeos.Base.{◌≡◌, refl, ◌==◌, if◌then◌else◌, [], ◌∷◌, some, arith}
use kludgeos.Clib.Str.{Mem}
use kludgeos.Shell.{Scan, strchr_of, gettoken}
use kludgeos.Shell.Lexing.{word, lex}
use kludgeos.Shell.Tokens.{Looks, LooksAt, IsArgument, gettoken_lem}

abbrev line_at : Mem
line_at a = if a == 100 then b'a' else if a == 101 then 32 else if a == 102 then b'|' else 0

-- The statics once the word was seen.
abbrev statics : Scan
statics = record { token = b'w'; p1 = 100; p2 = 101; mem = line_at }

statics-Looks : Looks statics (word (b'a' ∷ [])) (32 ∷ b'|' ∷ [])
unfolding strchr_of
statics-Looks =
    (refl, (λ e. cc), (refl, (λ e. cc), (refl, (λ e. cc), refl)), refl, (refl, (λ e. cc), tt), refl)

gettoken_lem_example :
    (lx' : Scan) × (gettoken 9 statics ≡ some (b'w', 100, lx'))
    × LooksAt lx' (lex (32 ∷ b'|' ∷ []))
    × IsArgument (word (b'a' ∷ [])) lx'.mem 100
gettoken_lem_example =
    gettoken_lem 9 statics (word (b'a' ∷ [])) (32 ∷ b'|' ∷ []) statics-Looks (omega arith)
