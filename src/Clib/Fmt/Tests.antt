-- ===== src/Clib/Fmt/Tests.antt =====
-- The theorems on vsnprintf at a format with one number, in a buffer that is too short for it.
use kludgeos.Base.{
  ℕ, ◌-◌, ◌%◌, ◌^◌, ◌≤◌, ◌≡◌, refl, List, [], ◌∷◌, ◌++◌, length, take, false, some, arith,
}
use kludgeos.Clib.Fmt.{
  Arg, word, vprintfmt, format_loop, reswitch, finish, convert, convert_int, print_number, getint,
  digit_step, end_digits, flag_step, process_precision, vsnprintf, wrote,
}
use kludgeos.Clib.Fmt.Bounded.{bytes, vsnprintf_lem}
use kludgeos.Clib.Num.{printnum, printnum_fuel, hex_digit}

-- "n=%d"
abbrev format : List ℕ
format = b'n' ∷ b'=' ∷ b'%' ∷ b'd' ∷ []

abbrev arguments : List Arg
arguments = word 421 ∷ []

abbrev output : List ℕ
output = b'n' ∷ b'=' ∷ b'4' ∷ b'2' ∷ b'1' ∷ []

format_prints : vprintfmt format arguments ≡ some output
unfolding vprintfmt format_loop reswitch finish convert convert_int print_number getint digit_step
    end_digits flag_step process_precision printnum printnum_fuel hex_digit
format_prints = refl

vsnprintf_lem_example :
    (vsnprintf false 4 format arguments
      ≡ some (wrote (length output % 2 ^ 32) (take (4 - 1) (bytes output) ++ (0 ∷ []))))
    × (length (take (4 - 1) (bytes output) ++ (0 ∷ [])) ≤ 4)
vsnprintf_lem_example = vsnprintf_lem 4 format arguments output (omega arith) format_prints
