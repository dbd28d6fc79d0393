-- ===== src/Shell.antt =====
-- The shell's tokenizer: _gettoken and gettoken of user/sh.c, over a memory of bytes.
pub mod Lexing
pub mod Tokens
mod Tests
use kludgeos.Base.{
  ℕ, zero, suc, ◌+◌, Bool, true, false, ◌&&◌, ◌||◌, not, ◌==◌, if◌then◌else◌, update, List, [], ◌∷◌,
  ◌++◌, Option, none, some,
}
use kludgeos.Clib.Str.{Mem}

abbrev pub whitespace : List ℕ
whitespace = 32 ∷ 9 ∷ 13 ∷ 10 ∷ []

-- "<|>&;()"
abbrev pub symbols : List ℕ
symbols = 60 ∷ 124 ∷ 62 ∷ 38 ∷ 59 ∷ 40 ∷ 41 ∷ []

-- Whether strchr finds the byte in the literal; the 0 at its end it does not find.
pub strchr_of : List ℕ → ℕ → Bool
strchr_of [] c = false
strchr_of (x ∷ xs) c = (x == c) || strchr_of xs c

-- What _gettoken returns and leaves in `*p1`, `*p2` and the memory. A null `s` leaves both as they
-- were, so it takes them.
pub record Scan : Type 0 where
  pub token : ℕ
  pub p1 : ℕ
  pub p2 : ℕ
  pub mem : Mem

-- The first loop: white space becomes 0.
pub skip_whitespace : ℕ → Mem → ℕ → Option (ℕ × Mem)
skip_whitespace zero m s = none
skip_whitespace (suc f) m s =
    let more = skip_whitespace f (update m s 0) (s + 1) in
    if strchr_of whitespace (m s) then more else some (s, m)

-- The second loop: the end of a word.
pub word_end : ℕ → Mem → ℕ → Option ℕ
word_end zero m s = none
word_end (suc f) m s =
    let more = word_end f m (s + 1) in
    if not (m s == 0) && not (strchr_of (whitespace ++ symbols) (m s)) then more else some s

-- The token that begins at `s`, which is not white space.
pub scan_token : ℕ → Mem → ℕ → Option Scan
scan_token f m s =
    if m s == 0
    then some (record { token = 0; p1 = 0; p2 = 0; mem = m })
    else if strchr_of symbols (m s)
    then some (record { token = m s; p1 = s; p2 = s + 1; mem = update m s 0 })
    else elim (word_end f m s) [
      | none ↦ none
      | some e ↦ some (record { token = b'w'; p1 = s; p2 = e; mem = m })
    ]

pub _gettoken : ℕ → Mem → ℕ → ℕ → ℕ → Option Scan
_gettoken f m s q1 q2 =
    if s == 0
    then some (record { token = 0; p1 = q1; p2 = q2; mem = m })
    else elim (skip_whitespace f m s) [ none ↦ none | some (s', m') ↦ scan_token f m' s' ]

-- The statics `nc`, `np1` and `np2` of gettoken with the memory; `c` is what it returned.
pub set_string : ℕ → Scan → ℕ → Option Scan
set_string f lx s = _gettoken f lx.mem s lx.p1 lx.p2

-- gettoken(0, p1): what it returns, `*p1` and the statics after it.
pub gettoken : ℕ → Scan → Option (ℕ × ℕ × Scan)
gettoken f lx = elim (_gettoken f lx.mem lx.p2 lx.p1 lx.p2) [
  | none ↦ none
  | some lx' ↦ some (lx.token, lx.p1, lx')
]
