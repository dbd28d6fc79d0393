-- ===== src/Clib/Fprintf/Tests.antt =====
-- The theorem on fprintf at two characters, with a write that takes everything.
use kludgeos.Base.{ℕ, [], ◌∷◌, List, length, Code, ok}

abbrev text : List ℕ
text = b'o' ∷ b'k' ∷ []

abbrev takes_all : List (List ℕ) → List ℕ → Code ℕ
takes_all calls bs = ok (length bs)
