-- ===== src/Kern/Console.antt =====
-- The console's input buffer: cons_intr and cons_getc of kern/console.c.
pub mod Ring
mod Tests
use kludgeos.Base.{
  ℕ, zero, suc, ◌+◌, ◌%◌, ◌^◌, Bool, true, false, ◌==◌, if◌then◌else◌, update, List, [], ◌∷◌,
}

abbrev pub consbufsize : ℕ
consbufsize = 512

pub record Cons : Type 0 where
  pub buf : ℕ → ℕ
  pub rpos : ℕ
  pub wpos : ℕ

-- The next place in the buffer.
abbrev pub advance : ℕ → ℕ
advance pos = if pos + 1 == consbufsize then 0 else pos + 1

-- The body of the loop of cons_intr, at a character that is not -1.
pub cons_put : ℕ → Cons → Cons
cons_put c s =
    if c == 0 then s else record s { buf = update s.buf s.wpos (c % 2 ^ 8); wpos = advance s.wpos }

-- cons_intr, with what `proc` gives until it gives -1.
unfoldable cons_intr : List ℕ → Cons → Cons
cons_intr [] s = s
cons_intr (c ∷ cs) s = cons_intr cs (cons_put c s)

-- The end of cons_getc.
pub cons_take : Cons → ℕ × Cons
cons_take s =
    if s.rpos == s.wpos then (0, s) else (s.buf s.rpos, record s { rpos = advance s.rpos })

-- cons_getc, with what the serial port and the keyboard give.
unfoldable cons_getc : List ℕ → List ℕ → Cons → ℕ × Cons
cons_getc serial kbd s = cons_take (cons_intr kbd (cons_intr serial s))
