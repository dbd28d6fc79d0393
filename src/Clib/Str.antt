-- ===== src/Clib/Str.antt =====
-- The string functions of lib/string.c over a memory of bytes. A loop whose end depends on the
-- bytes takes fuel, and gives `none` where it runs out; a count bounds the others.
pub mod Measure
pub mod Copy
use kludgeos.Base.{
  ℕ, zero, suc, ◌+◌, ◌-◌, ◌*◌, ◌/◌, ◌%◌, ◌^◌, Bool, true, false, not, ◌&&◌, ◌||◌, Option, none,
  some, ◌==◌, ltb, leb, if◌then◌else◌, update,
}

abbrev pub Mem : Type 0
Mem = ℕ → ℕ

-- a - b of two bytes, as a C int: a sign and a magnitude.
pub record Difference : Type 0 where
  pub negative : Bool
  pub magnitude : ℕ

pub byte_diff : ℕ → ℕ → Difference
byte_diff a b = record { negative = ltb a b; magnitude = if ltb a b then b - a else a - b }

strlen_loop : ℕ → Mem → ℕ → ℕ → Option ℕ
strlen_loop zero m s n = none
strlen_loop (suc f) m s n =
    let more = strlen_loop f m (s + 1) (n + 1) in if m s == 0 then some n else more

pub strlen : ℕ → Mem → ℕ → Option ℕ
unfolding strlen_loop
strlen f m s = strlen_loop f m s 0

strnlen_loop : ℕ → Mem → ℕ → ℕ → ℕ
strnlen_loop zero m s n = n
strnlen_loop (suc size) m s n =
    let more = strnlen_loop size m (s + 1) (n + 1) in if m s == 0 then n else more

pub strnlen : Mem → ℕ → ℕ → ℕ
unfolding strnlen_loop
strnlen m s size = strnlen_loop size m s 0

-- The memory after the copy.
pub strcpy : ℕ → Mem → ℕ → ℕ → Option Mem
strcpy zero m dst src = none
strcpy (suc f) m dst src =
    let m' = update m dst (m src) in
    let more = strcpy f m' (dst + 1) (src + 1) in if m src == 0 then some m' else more

strncpy : Mem → ℕ → ℕ → ℕ → Mem
strncpy m dst src zero = m
strncpy m dst src (suc size) =
    let m' = update m dst (m src) in
    strncpy m' (dst + 1) (if m' src == 0 then src else src + 1) size

-- The loop of strlcpy: `size` is the value before `--size`; the result is the memory and `dst`.
strlcpy_loop : Mem → ℕ → ℕ → ℕ → Mem × ℕ
strlcpy_loop m dst src zero = (m, dst)
strlcpy_loop m dst src (suc size) =
    let more = strlcpy_loop (update m dst (m src)) (dst + 1) (src + 1) size in
    if ltb 0 size && not (m src == 0) then more else (m, dst)

-- The memory, and the number of bytes copied.
strlcpy : Mem → ℕ → ℕ → ℕ → Mem × ℕ
unfolding strlcpy_loop
strlcpy m dst src zero = (m, 0)
strlcpy m dst src (suc size) =
    let (m', dst') = strlcpy_loop m dst src (suc size) in (update m' dst' 0, dst' - dst)

pub strcmp : ℕ → Mem → ℕ → ℕ → Option Difference
unfolding byte_diff
strcmp zero m p q = none
strcmp (suc f) m p q =
    let more = strcmp f m (p + 1) (q + 1) in
    if not (m p == 0) && m p == m q then more else some (byte_diff (m p) (m q))

strncmp : Mem → ℕ → ℕ → ℕ → Difference
unfolding byte_diff
strncmp m p q zero = byte_diff 0 0
strncmp m p q (suc n) =
    let more = strncmp m (p + 1) (q + 1) n in
    if not (m p == 0) && m p == m q then more else byte_diff (m p) (m q)

-- `some none` is the null pointer.
strchr : ℕ → Mem → ℕ → ℕ → Option (Option ℕ)
strchr zero m s c = none
strchr (suc f) m s c =
    let more = strchr f m (s + 1) c in
    if m s == 0 then some none else if m s == c then some (some s) else more

unfoldable pub strfind : ℕ → Mem → ℕ → ℕ → Option ℕ
strfind zero m s c = none
strfind (suc f) m s c =
    let more = strfind f m (s + 1) c in
    if m s == 0 then some s else if m s == c then some s else more

memcmp : Mem → ℕ → ℕ → ℕ → Difference
unfolding byte_diff
memcmp m s1 s2 zero = byte_diff 0 0
memcmp m s1 s2 (suc n) =
    let more = memcmp m (s1 + 1) (s2 + 1) n in
    if m s1 == m s2 then more else byte_diff (m s1) (m s2)

memfind : Mem → ℕ → ℕ → ℕ → ℕ
memfind m s c zero = s
memfind m s c (suc n) = let more = memfind m (s + 1) c n in if m s == c % 256 then s else more

unfoldable pub skip_blanks : ℕ → Mem → ℕ → Option ℕ
skip_blanks zero m s = none
skip_blanks (suc f) m s =
    let more = skip_blanks f m (s + 1) in if m s == b' ' || m s == 9 then more else some s

-- The value of a digit, of any base up to 36.
unfoldable pub digit_value : ℕ → Option ℕ
digit_value c =
    if leb b'0' c && leb c b'9'
    then some (c - b'0')
    else if leb b'a' c && leb c b'z'
    then some (c - b'a' + 10)
    else if leb b'A' c && leb c b'Z'
    then some (c - b'A' + 10)
    else none

-- The digits of strtol: the value, a 32-bit word, and where it ends.
unfoldable pub digits_loop : ℕ → Mem → ℕ → ℕ → ℕ → Option (ℕ × ℕ)
unfolding digit_value
digits_loop zero m s base val = none
digits_loop (suc f) m s base val = elim (digit_value (m s)) [
  | none ↦ some (val, s)
  | some dig ↦
      let more = digits_loop f m (s + 1) base ((val * base + dig) % 2 ^ 32) in
      if leb base dig then some (val, s) else more
]

-- The base prefix: the base to use, and where the digits begin.
base_prefix : Mem → ℕ → ℕ → ℕ × ℕ
base_prefix m s base =
    if (base == 0 || base == 16) && (m s == b'0' && m (s + 1) == b'x')
    then (16, s + 2)
    else if base == 0 && m s == b'0'
    then (8, s + 1)
    else if base == 0
    then (10, s)
    else (base, s)

-- The value, as a 32-bit word, and `*endptr`.
unfoldable pub strtol : ℕ → Mem → ℕ → ℕ → Option (ℕ × ℕ)
unfolding skip_blanks base_prefix digits_loop
strtol f m s base = elim (skip_blanks f m s) [
  | none ↦ none
  | some s1 ↦
      let neg = m s1 == b'-' in
      let s2 = if m s1 == b'+' || neg then s1 + 1 else s1 in
      let (base', s3) = base_prefix m s2 base in
      elim (digits_loop f m s3 base' 0) [
        | none ↦ none
        | some (val, end) ↦ some (if neg then (2 ^ 32 - val) % 2 ^ 32 else val, end)
      ]
]
