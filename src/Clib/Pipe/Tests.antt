-- ===== src/Clib/Pipe/Tests.antt =====
-- The theorem on pipes at a first byte.
use kludgeos.Base.{ℕ, ◌+◌, ◌^◌, arith, ◌≤◌, ◌<◌, ◌≡◌, refl, update}
use kludgeos.Clib.Pipe.{
  System, Reach, start, next, see_room, store_byte, move_wpos, see_byte, take_byte, move_rpos,
  initial, is_full, is_empty, front, advance, deposit, publish, slot,
}
use kludgeos.Clib.Pipe.Fifo.{pipe_fifo}

-- The writer writes 5, and the reader reads it.
abbrev fives : ℕ → ℕ
fives i = 5

abbrev one_written : System
one_written = record initial {
  pipe = record { p_rpos = 0; p_wpos = 1; p_buf = update (λ _. 0) 0 5 };
  given = 1;
}

one_read : System
one_read = record initial {
  pipe = advance (publish (deposit initial.pipe 5));
  got = update initial.got 0 (front (publish (deposit initial.pipe 5)));
  taken = 1;
  given = 1;
}

one_read-Reach : Reach fives initial one_read
unfolding one_read initial is_full is_empty front advance deposit publish slot
one_read-Reach =
    next
      (next
        (next
          (next (next (next start (see_room _ refl refl)) (store_byte _ refl)) (move_wpos _ refl))
          (see_byte _ refl refl))
        (take_byte _ refl))
      (move_rpos _ refl)

one_read_low : one_read.given < 2 ^ 31
unfolding one_read
one_read_low = omega arith

pipe_fifo_example :
    ((i : ℕ) → i < one_read.taken → one_read.got i ≡ fives i)
    × (one_read.taken ≤ one_read.given)
    × (one_read.given ≤ one_read.taken + 32)
pipe_fifo_example = pipe_fifo fives one_read-Reach one_read_low
