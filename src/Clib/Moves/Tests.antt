-- ===== src/Clib/Moves/Tests.antt =====
-- Moves over overlapping ranges, upwards by words and downwards by bytes.
use kludgeos.Base.{◌≡◌, refl}
use kludgeos.Clib.Str.{Mem}
use kludgeos.Clib.Moves.{movs, rep_movs_down, memmove}
use kludgeos.Clib.Moves.Copies.{copied, memmove_lem}

abbrev counting : Mem
counting i = i

-- The byte 11 comes from 9, which the move overwrites, too.
memmove_down : memmove counting 10 8 5 11 ≡ 9
unfolding memmove rep_movs_down movs
memmove_down = refl

memmove_lem_example : memmove counting 10 8 5 11 ≡ copied counting 10 8 5 11
memmove_lem_example = memmove_lem counting 10 8 5 11
