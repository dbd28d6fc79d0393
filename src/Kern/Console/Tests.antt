-- ===== src/Kern/Console/Tests.antt =====
-- The theorem on the console's buffer where it wraps.
use kludgeos.Base.{◌%◌, ◌≡◌, ◌++◌, [], ◌∷◌, arith}
use kludgeos.Kern.Console.{Cons, cons_put}
use kludgeos.Kern.Console.Ring.{InBuffer, contents, cons_put_lem}

-- The characters 510 and 511 of the buffer wait.
abbrev at_wrap : Cons
at_wrap = record { buf = λ i. i % 256; rpos = 510; wpos = 0 }

cons_put_lem_example :
    InBuffer (cons_put 97 at_wrap)
    × (contents (cons_put 97 at_wrap) ≡ contents at_wrap ++ (97 ∷ []))
cons_put_lem_example = cons_put_lem at_wrap (omega arith, omega arith) 97 (λ e. cc) (omega arith)
