-- ===== src/Clib/Line.antt =====
-- readline of lib/readline.c, less its echo.
pub mod Editing
mod Tests
use kludgeos.Base.{
  ℕ, zero, suc, ◌+◌, ◌-◌, ◌%◌, ◌^◌, Bool, ◌&&◌, ◌||◌, ◌==◌, ltb, leb, if◌then◌else◌, update, List,
  [], ◌∷◌, Code, ok, err,
}

abbrev pub buflen : ℕ
buflen = 1024

-- How a call ends: with the buffer, with the null pointer, not before more is typed, or with an
-- access outside the buffer.
pub data Read : Type 0 where
  line : (ℕ → ℕ) → Read
  null : Read
  waits : Read
  outside : Read

-- `i` is an int, kept as the word of its bits: i < BUFLEN - 1
abbrev has_room : ℕ → Bool
has_room i = leb (2 ^ 31) i || ltb i (buflen - 1)

-- i > 0
abbrev has_text : ℕ → Bool
has_text i = ltb 0 i && ltb i (2 ^ 31)

-- The loop, with what getchar gives, the buffer and `i`.
pub readline_loop : List (Code ℕ) → (ℕ → ℕ) → ℕ → Read
readline_loop [] buf i = waits
readline_loop (err e ∷ cs) buf i = null
readline_loop (ok c ∷ cs) buf i =
    let stored = readline_loop cs (update buf i (c % 2 ^ 8)) ((i + 1) % 2 ^ 32) in
    let erased = readline_loop cs buf ((i + (2 ^ 32 - 1)) % 2 ^ 32) in
    let ignored = readline_loop cs buf i in
    if leb 32 c && has_room i
    then if ltb i buflen then stored else outside
    else if (c == 8) && has_text i
    then erased
    else if (c == 10) || (c == 13)
    then if ltb i buflen then line (update buf i 0) else outside
    else ignored

pub readline : List (Code ℕ) → (ℕ → ℕ) → Read
readline cs buf = readline_loop cs buf 0
