-- ===== src/Clib/Line/Tests.antt =====
-- The theorem on readline at the keys "a", "b", backspace, "c" and return.
use kludgeos.Base.{ℕ, ◌<◌, refl, [], ◌∷◌, List, length, ok}
use kludgeos.Clib.Line.{buflen, readline}
use kludgeos.Clib.Line.Editing.{keys, typed, IsLine, readline_lem}

abbrev pressed : List ℕ
pressed = b'a' ∷ b'b' ∷ 8 ∷ b'c' ∷ []

readline_lem_example :
    IsLine (keys pressed []) (readline (typed pressed (ok 13 ∷ [])) (λ i. 0))
    × (length (keys pressed []) < buflen)
readline_lem_example = readline_lem pressed 13 [] (λ i. 0) (refl, (refl, (refl, (refl, tt)))) refl
