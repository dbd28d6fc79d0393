-- ===== src/Clib/Pipe/Fifo.antt =====
-- The pipe of lib/pipe.c under every interleaving of its reader and its writer.
use kludgeos.Base.{ℕ, ◌+◌, ◌%◌, ◌^◌, ◌≤◌, ◌<◌, ◌≡◌, refl, arith}
use kludgeos.Clib.Pipe.{
  System, Point, testing, passed, moved, Step, see_byte, take_byte, move_rpos, see_room, store_byte,
  move_wpos, Reach, start, next, initial, is_empty, is_full, front, advance, deposit, publish, slot,
  pipebufsiz,
}

-- 1 where a byte stands in the slot at its end before its position moves.
abbrev pending : Point → ℕ
pending testing = 0
pending passed = 0
pending moved = 1

-- 1 where the process has passed its test.
abbrev allowed : Point → ℕ
allowed testing = 0
allowed passed = 1
allowed moved = 1

module _ (source : ℕ → ℕ) where
  -- The positions count the finished bytes, the ring holds the bytes between them, in order, and
  -- the reader has the bytes before the read position.
  pub record Inv (s : System) : Type 0 where
    pub read_count : s.pipe.p_rpos ≡ s.taken
    pub write_count : s.pipe.p_wpos ≡ s.given
    pub ordered : s.taken + allowed s.reader ≤ s.given
    pub fits : s.given + allowed s.writer ≤ s.taken + pipebufsiz
    pub held :
        (i : ℕ)
        → s.taken ≤ i
        → i < s.given + pending s.writer
        → s.pipe.p_buf (i % pipebufsiz) ≡ source i
    pub received : (i : ℕ) → i < s.taken + pending s.reader → s.got i ≡ source i

  initial-Inv : Inv initial
  unfolding initial
  initial-Inv = record {
    read_count = refl;
    write_count = refl;
    ordered = omega arith;
    fits = omega arith;
    held = λ i a b. absurd (omega arith);
    received = λ i b. absurd (omega arith);
  }

  -- The steps below the largest position that is not negative keep the invariant.
  Step-Inv : {s t : System} → Step source s t → t.given < 2 ^ 31 → Inv s → Inv t
  unfolding is_empty is_full front advance deposit publish slot
  Step-Inv (see_byte s at seen) low v = record {
    read_count = v.read_count;
    write_count = v.write_count;
    ordered = ground (arith, v.ordered, v.read_count, v.write_count);
    fits = v.fits;
    held = v.held;
    received = λ i b. ground (arith, v.received i);
  }
  Step-Inv (take_byte s at) low v = record {
    read_count = v.read_count;
    write_count = v.write_count;
    ordered = ground (arith, v.ordered);
    fits = v.fits;
    held = v.held;
    received = λ i b. ground (arith, v.received i, v.held s.taken, v.read_count, v.ordered);
  }
  Step-Inv (move_rpos s at) low v = record {
    read_count = ground (arith, v.read_count);
    write_count = v.write_count;
    ordered = ground (arith, v.ordered);
    fits = ground (arith, v.fits);
    held = λ i a b. v.held i (omega arith) b;
    received = λ i b. ground (arith, v.received i);
  }
  Step-Inv (see_room s at seen) low v = record {
    read_count = v.read_count;
    write_count = v.write_count;
    ordered = v.ordered;
    fits = ground (arith, v.fits, v.read_count, v.write_count);
    held = λ i a b. ground (arith, v.held i);
    received = v.received;
  }
  Step-Inv (store_byte s at) low v = record {
    read_count = v.read_count;
    write_count = v.write_count;
    ordered = v.ordered;
    fits = ground (arith, v.fits);
    held = λ i a b. ground (arith, v.held i, v.write_count, v.fits);
    received = v.received;
  }
  Step-Inv (move_wpos s at) low v = record {
    read_count = v.read_count;
    write_count = ground (arith, v.write_count);
    ordered = ground (arith, v.ordered);
    fits = ground (arith, v.fits);
    held = λ i a b. ground (arith, v.held i);
    received = v.received;
  }

  Step-given : {s t : System} → Step source s t → s.given ≤ t.given
  Step-given (see_byte s at seen) = omega arith
  Step-given (take_byte s at) = omega arith
  Step-given (move_rpos s at) = omega arith
  Step-given (see_room s at seen) = omega arith
  Step-given (store_byte s at) = omega arith
  Step-given (move_wpos s at) = omega arith

  Reach-Inv : {s t : System} → Inv s → Reach source s t → t.given < 2 ^ 31 → Inv t
  Reach-Inv v start low = v
  Reach-Inv v (next r st) low = Step-Inv st low (Reach-Inv v r (omega (arith, Step-given st)))

  -- In every state that a new pipe can reach, under any interleaving, before 2^31 bytes are written:
  -- the bytes that the reader has finished are the first bytes that the writer wrote, in order; it
  -- has not finished more bytes than were written, and at most 32 bytes are written and not yet
  -- read.
  pub pipe_fifo :
      {t : System}
      → Reach source initial t
      → t.given < 2 ^ 31
      → ((i : ℕ) → i < t.taken → t.got i ≡ source i)
        × (t.taken ≤ t.given)
        × (t.given ≤ t.taken + 32)
  pipe_fifo {t} r low =
      let v = Reach-Inv initial-Inv r low in
      (λ i b. v.received i (omega arith), omega (arith, v.ordered), omega (arith, v.fits))
