-- ===== src/Clib/Moves.antt =====
-- memset, memmove and memcpy of lib/string.c, in the variant that is built (ASM is 1): string
-- instructions that move or store units of 4 bytes where all is aligned, and of 1 byte else.
-- Addresses do not wrap.
pub mod Copies
mod Tests
use kludgeos.Base.{
  ℕ, zero, suc, ◌+◌, ◌-◌, ◌*◌, ◌/◌, ◌%◌, ◌^◌, Bool, ◌&&◌, ◌==◌, ltb, leb, if◌then◌else◌, bit_or,
}
use kludgeos.Clib.Str.{Mem}

-- Whether the address is one of the `n` from `start` on.
abbrev pub in_range : ℕ → ℕ → ℕ → Bool
in_range start n i = leb start i && ltb i (start + n)

-- movs of a unit of `u` bytes: it reads the unit and then writes it.
pub movs : ℕ → Mem → ℕ → ℕ → Mem
movs u m d s i = if in_range d u i then m (s + (i - d)) else m i

-- cld; rep movs
pub rep_movs_up : ℕ → ℕ → Mem → ℕ → ℕ → Mem
rep_movs_up u zero m d s = m
rep_movs_up u (suc n) m d s = rep_movs_up u n (movs u m d s) (d + u) (s + u)

-- std; rep movs
pub rep_movs_down : ℕ → ℕ → Mem → ℕ → ℕ → Mem
rep_movs_down u zero m d s = m
rep_movs_down u (suc n) m d s = rep_movs_down u n (movs u m d s) (d - u) (s - u)

-- Whether a call moves units of 4 bytes.
abbrev aligned : ℕ → ℕ → ℕ → Bool
aligned s d n = (s % 4 == 0) && ((d % 4 == 0) && (n % 4 == 0))

pub memmove : Mem → ℕ → ℕ → ℕ → Mem
memmove m dst src n =
    if ltb src dst && ltb dst (src + n)
    then (if aligned (src + n) (dst + n) n
        then rep_movs_down 4 (n / 4) m (dst + n - 4) (src + n - 4)
        else rep_movs_down 1 n m (dst + n - 1) (src + n - 1))
    else if aligned src dst n
    then rep_movs_up 4 (n / 4) m dst src
    else rep_movs_up 1 n m dst src

unfoldable memcpy : Mem → ℕ → ℕ → ℕ → Mem
memcpy m dst src n = memmove m dst src n

-- stos of the `u` low bytes of a word, the lowest first.
pub stos : ℕ → Mem → ℕ → ℕ → Mem
stos u m d w i = if in_range d u i then w / 256 ^ (i - d) % 256 else m i

-- cld; rep stos
pub rep_stos : ℕ → ℕ → Mem → ℕ → ℕ → Mem
rep_stos u zero m d w = m
rep_stos u (suc n) m d w = rep_stos u n (stos u m d w) (d + u) w

-- (c<<24)|(c<<16)|(c<<8)|c
pub four_times : ℕ → ℕ
four_times c = bit_or (bit_or (bit_or (c * 2 ^ 24) (c * 2 ^ 16)) (c * 2 ^ 8)) c

-- A negative `c` is its 32-bit word.
pub memset : Mem → ℕ → ℕ → ℕ → Mem
memset m v c n =
    if n == 0
    then m
    else if (v % 4 == 0) && (n % 4 == 0)
    then rep_stos 4 (n / 4) m v (four_times (c % 256))
    else rep_stos 1 n m v c
