-- ===== src/Clib/Fmt.antt =====
-- vprintfmt, vsnprintf and sprintputch of lib/printfmt.c.
--
-- A format and a string are the bytes before the NUL that ends them. What is printed is the list
-- of the characters handed to `putch`. An argument that is not of the type that `va_arg` asks for
-- is a fault, `none`.
pub mod Bounded
mod Tests
use kludgeos.Base.{
  ℕ, zero, suc, ◌+◌, ◌-◌, ◌*◌, ◌/◌, ◌%◌, ◌^◌, ◌<◌, min, Bool, true, false, not, ◌&&◌, ◌||◌, Option,
  none, some, List, [], ◌∷◌, ◌++◌, ◌==◌, ltb, leb, if◌then◌else◌, length, take, replicate,
  get_elem?, map,
}
use kludgeos.Clib.Num.{printnum}
use Prim.Native.Char.{code}
use Prim.Native.String.{String}

-- An int that may be negative: `negsuc n` is -(n + 1).
pub data ℤ : Type 0 where
  pos : ℕ → ℤ
  negsuc : ℕ → ℤ

abbrev pos_part : ℤ → ℕ
pos_part (pos n) = n
pos_part (negsuc n) = 0

abbrev pub minus : ℤ → ℕ → ℤ
minus (pos a) n = if leb n a then pos (a - n) else negsuc (n - a - 1)
minus (negsuc a) n = negsuc (a + n)

abbrev is_negative : ℤ → Bool
is_negative (pos n) = false
is_negative (negsuc n) = true

-- The int32_t that a word stands for.
abbrev signed : ℕ → ℤ
signed w = if ltb w (2 ^ 31) then pos w else negsuc (2 ^ 32 - w - 1)

abbrev codes : String → List ℕ
codes String.[] = []
codes (String.◌∷◌ c s) = code c ∷ codes s

-- An argument: a 32-bit word, a 64-bit word, or a pointer to a string, which may be null.
pub data Arg : Type 0 where
  word : ℕ → Arg
  long_long : ℕ → Arg
  string : Option (List ℕ) → Arg

pub record Flags : Type 0 where
  pub padc : ℕ
  pub width : ℤ
  pub precision : ℤ
  pub lflag : ℕ
  pub altflag : Bool

abbrev pub no_flags : Flags
no_flags = record {
  padc = b' ';
  width = negsuc 0;
  precision = negsuc 0;
  lflag = 0;
  altflag = false;
}

-- error_string, from index 0, which is null.
abbrev error_string : List (List ℕ)
error_string =
    []
    ∷ codes "unspecified error"
    ∷ codes "bad environment"
    ∷ codes "invalid parameter"
    ∷ codes "out of memory"
    ∷ codes "out of environments"
    ∷ codes "segmentation fault"
    ∷ codes "env is not recving"
    ∷ codes "unexpected end of file"
    ∷ codes "no free space on disk"
    ∷ codes "too many files are open"
    ∷ codes "file or block not found"
    ∷ codes "invalid path"
    ∷ codes "file already exists"
    ∷ codes "file is not a valid executable"
    ∷ []

-- process_precision, with the precision that was read.
pub process_precision : Flags → ℤ → Flags
process_precision fl p =
    if is_negative fl.width
    then record fl { width = p; precision = negsuc 0 }
    else record fl { precision = p }

-- The cases of the switch that set a flag and go on at `reswitch`.
pub flag_step : Flags → ℕ → List Arg → Option (Flags × List Arg)
unfolding process_precision
flag_step fl ch args =
    if ch == b'-'
    then some (record fl { padc = b'-' }, args)
    else if ch == b'0'
    then some (record fl { padc = b'0' }, args)
    else if ch == b'*'
    then elim args [ word w ∷ rest ↦ some (process_precision fl (signed w), rest) | _ ↦ none ]
    else if ch == b'.'
    then some (if is_negative fl.width then record fl { width = pos 0 } else fl, args)
    else if ch == b'#'
    then some (record fl { altflag = true }, args)
    else if ch == b'l'
    then some (record fl { lflag = fl.lflag + 1 }, args)
    else none

-- getuint
getuint : ℕ → List Arg → Option (ℕ × List Arg)
getuint lflag [] = none
getuint lflag (word w ∷ args) = if leb 2 lflag then none else some (w, args)
getuint lflag (long_long w ∷ args) = if leb 2 lflag then some (w, args) else none
getuint lflag (string s ∷ args) = none

-- getint, as a sign and a magnitude.
pub getint : ℕ → List Arg → Option ((Bool × ℕ) × List Arg)
getint lflag [] = none
getint lflag (word w ∷ args) =
    if leb 2 lflag
    then none
    else if ltb w (2 ^ 31)
    then some ((false, w), args)
    else some ((true, 2 ^ 32 - w), args)
getint lflag (long_long w ∷ args) =
    if leb 2 lflag
    then (if ltb w (2 ^ 63) then some ((false, w), args) else some ((true, 2 ^ 64 - w), args))
    else none
getint lflag (string s ∷ args) = none

-- The characters of a string that %s prints: at most `precision`, where it is not negative.
shown : ℤ → List ℕ → List ℕ
shown (pos n) s = take n s
shown (negsuc n) s = s

-- altflag: what is not printable is shown as '?'.
masked : Bool → ℕ → ℕ
masked alt ch = if alt && (ltb ch b' ' || ltb b'~' ch) then b'?' else ch

-- The case 's'.
print_string : Flags → List ℕ → List ℕ
unfolding shown masked
print_string fl s =
    let text = shown fl.precision s in
    let left = ltb 0 (pos_part fl.width) && not (fl.padc == b'-') in
    let narrow = minus fl.width (length text) in
    let pads = if left then replicate (pos_part narrow) fl.padc else [] in
    let width' = if left then minus narrow (pos_part narrow) else fl.width in
    pads ++ (map (masked fl.altflag) text ++ replicate (pos_part (minus width' (length text))) b' ')

-- The label `number`.
pub print_number : Flags → ℕ → ℕ → List ℕ
unfolding printnum
print_number fl num base = printnum num base (pos_part fl.width) fl.padc

-- The case 'e'; the magnitude 2^31 has no negation, and indexes out of the table.
print_error : ℕ → Option (List ℕ)
unfolding printnum
print_error w =
    let err = if ltb w (2 ^ 31) then w else 2 ^ 32 - w in
    if err == 2 ^ 31
    then none
    else if ltb 14 err || err == 0
    then some (codes "error " ++ printnum err 10 0 b' ')
    else get_elem? error_string err

-- What a conversion does: it prints and takes arguments, it is not known, or it faults.
pub data Conversion : Type 0 where
  prints : List ℕ → List Arg → Conversion
  unknown : Conversion
  faults : Conversion

print_uint : Flags → ℕ → List Arg → Conversion
unfolding getuint print_number
print_uint fl base args = elim (getuint fl.lflag args) [
  | none ↦ faults
  | some (num, rest) ↦ prints (print_number fl num base) rest
]

convert_word : (ℕ → Option (List ℕ)) → List Arg → Conversion
convert_word f (word w ∷ rest) = elim (f w) [ none ↦ faults | some out ↦ prints out rest ]
convert_word f _ = faults

convert_string : Flags → List Arg → Conversion
unfolding print_string
convert_string fl (string none ∷ rest) = prints (print_string fl (codes "(null)")) rest
convert_string fl (string (some s) ∷ rest) = prints (print_string fl s) rest
convert_string fl _ = faults

pub convert_int : Flags → List Arg → Conversion
unfolding getint print_number
convert_int fl args = elim (getint fl.lflag args) [
  | none ↦ faults
  | some (n, rest) ↦ prints ((if n.0 then b'-' ∷ [] else []) ++ print_number fl (n.1) 10) rest
]

-- The cases of the switch that end an escape. A char is put as an unsigned char would be.
pub convert : Flags → ℕ → List Arg → Conversion
unfolding print_uint convert_word convert_string convert_int print_number print_error
convert fl ch args =
    if ch == b'c'
    then convert_word (λ w. some (w ∷ [])) args
    else if ch == b'e'
    then convert_word print_error args
    else if ch == b's'
    then convert_string fl args
    else if ch == b'd'
    then convert_int fl args
    else if ch == b'u'
    then print_uint fl 10 args
    else if ch == b'o'
    then print_uint fl 8 args
    else if ch == b'p'
    then convert_word (λ w. some (b'0' ∷ b'x' ∷ print_number fl w 16)) args
    else if ch == b'x'
    then print_uint fl 16 args
    else if ch == b'%'
    then prints (b'%' ∷ []) args
    else unknown

-- The precision being read by the digit loop, if it runs, and whether `ch` goes on with it.
pub digit_step : Option ℕ → ℕ → Option ℕ
digit_step none ch = if leb b'1' ch && leb ch b'9' then some (ch - b'0') else none
digit_step (some n) ch = if leb b'0' ch && leb ch b'9' then some (n * 10 + (ch - b'0')) else none

pub end_digits : Flags → Option ℕ → Flags
unfolding process_precision
end_digits fl none = fl
end_digits fl (some n) = process_precision fl (pos n)

abbrev pub emit : List ℕ → Option (List ℕ) → Option (List ℕ)
emit out none = none
emit out (some rest) = some (out ++ rest)

-- From `reswitch` to the end of the escape; `next` is the outer loop. An unknown escape goes on
-- behind the '%', at `after`. The NUL, the list's end, is such an escape.
module _ (next : List ℕ → List Arg → Option (List ℕ)) (after : List ℕ) where
  finish : Flags → ℕ → List ℕ → List Arg → Option (List ℕ)
  finish fl ch rest args = elim (convert fl ch args) [
    | prints out args' ↦ emit out (next rest args')
    | unknown ↦ emit (b'%' ∷ []) (next after args)
    | faults ↦ none
  ]

  pub reswitch : Flags → Option ℕ → List ℕ → List Arg → Option (List ℕ)
  reswitch fl number [] args = emit (b'%' ∷ []) (next after args)
  reswitch fl number (ch ∷ rest) args = elim (digit_step number ch) [
    | some n ↦ reswitch fl (some n) rest args
    | none ↦ elim (flag_step (end_digits fl number) ch args) [
      | some (fl', args') ↦ reswitch fl' none rest args'
      | none ↦ if ch == b'*' then none else finish (end_digits fl number) ch rest args
    ]
  ]

-- The outer loop; each round takes a character of the format, so that its length is enough fuel.
pub format_loop : ℕ → List ℕ → List Arg → Option (List ℕ)
format_loop zero fmt args = none
format_loop (suc f) [] args = some []
format_loop (suc f) (ch ∷ fmt) args = elim (ch == b'%') [
  | true ↦ reswitch (format_loop f) fmt no_flags none fmt args
  | false ↦ emit (ch ∷ []) (format_loop f fmt args)
]

pub vprintfmt : List ℕ → List Arg → Option (List ℕ)
vprintfmt fmt args = format_loop (length fmt + 1) fmt args

-- struct sprintbuf: what has been stored in the buffer, the room left (ebuf - buf), and the count,
-- an int as the word of its bits.
pub record Sprintbuf : Type 0 where
  pub stored : List ℕ
  pub room : ℕ
  pub cnt : ℕ

pub sprintputch : ℕ → Sprintbuf → Sprintbuf
sprintputch ch b =
    if ltb 0 b.room
    then record {
      stored = b.stored ++ (ch % 2 ^ 8 ∷ []);
      room = b.room - 1;
      cnt = (b.cnt + 1) % 2 ^ 32;
    }
    else record b { cnt = (b.cnt + 1) % 2 ^ 32 }

pub put_all : List ℕ → Sprintbuf → Sprintbuf
unfolding sprintputch
put_all [] b = b
put_all (ch ∷ out) b = put_all out (sprintputch ch b)

-- What vsnprintf returns: -E_INVAL, or the count, with the bytes that it writes into the buffer.
pub data Printed : Type 0 where
  inval : Printed
  wrote : ℕ → List ℕ → Printed

pub vsnprintf : Bool → ℕ → List ℕ → List Arg → Option Printed
vsnprintf null n fmt args = if null || ltb n 1 then some inval else elim (vprintfmt fmt args) [
  | none ↦ none
  | some out ↦
      let b = put_all out (record { stored = []; room = n - 1; cnt = 0 }) in
      some (wrote b.cnt (b.stored ++ (0 ∷ [])))
]
