-- ===== src/Clib/Pipe.antt =====
-- The pipe of lib/pipe.c: one reader and one writer on a shared ring of bytes, as interleaved steps.
--
-- A step is what a process does to the shared page between two points where the other may run; the
-- store of a byte and the move of its position are two steps, in the source's order. The positions
-- are int32_t's, kept as the words of their bits.
pub mod Fifo
pub mod Reading
mod Tests
use kludgeos.Base.{
  ℕ, zero, suc, List, [], ◌∷◌, length, ◌&&◌, ◌+◌, ◌-◌, ◌%◌, ◌^◌, ◌≤◌, ◌<◌, Bool, true, false, ◌==◌,
  ◌≡◌, ltb, leb, if◌then◌else◌, update, Option, none, some,
}

abbrev pub pipebufsiz : ℕ
pipebufsiz = 32

-- `p_buf` is what stands at an offset from the start of the buffer, a 32-bit word too.
pub record Pipe : Type 0 where
  pub p_rpos : ℕ
  pub p_wpos : ℕ
  pub p_buf : ℕ → ℕ

-- The test of piperead's inner loop, and that of pipewrite's.
pub is_empty : Pipe → Bool
is_empty p = p.p_rpos == p.p_wpos

-- The size is a size_t, so that the positions are compared as words.
pub is_full : Pipe → Bool
is_full p = leb ((p.p_rpos + pipebufsiz) % 2 ^ 32) p.p_wpos

-- pos % PIPEBUFSIZ, of ints: a negative position has a negative remainder, which is an offset in
-- front of the buffer.
pub slot : ℕ → ℕ
slot pos =
    if ltb pos (2 ^ 31) then pos % pipebufsiz else (2 ^ 32 - (2 ^ 32 - pos) % pipebufsiz) % 2 ^ 32

-- buf[i] = p->p_buf[p->p_rpos % PIPEBUFSIZ];
pub front : Pipe → ℕ
front p = p.p_buf (slot p.p_rpos)

-- p->p_rpos++;
pub advance : Pipe → Pipe
advance p = record p { p_rpos = (p.p_rpos + 1) % 2 ^ 32 }

-- p->p_buf[p->p_wpos % PIPEBUFSIZ] = buf[i];
pub deposit : Pipe → ℕ → Pipe
deposit p byte = record p { p_buf = update p.p_buf (slot p.p_wpos) byte }

-- p->p_wpos++;
pub publish : Pipe → Pipe
publish p = record p { p_wpos = (p.p_wpos + 1) % 2 ^ 32 }

-- st_size of pipestat.
pipe_size : Pipe → ℕ
pipe_size p = (p.p_wpos + (2 ^ 32 - p.p_rpos)) % 2 ^ 32

-- Where each process is: at the test of its loop, or between its two statements.
pub data Point : Type 0 where
  testing : Point
  passed : Point
  moved : Point

-- The pipe and its two users. `got` is the reader's buffer over all its calls, `taken` the bytes
-- it has finished.
pub record System : Type 0 where
  pub pipe : Pipe
  pub reader : Point
  pub got : ℕ → ℕ
  pub taken : ℕ
  pub writer : Point
  pub given : ℕ

-- The writer writes the bytes `source 0`, `source 1`, ... in its calls of write.
module _ (source : ℕ → ℕ) where
  pub data Step : System → System → Type 0 where
    -- piperead: the pipe is not empty; the byte is taken; rpos moves.
    see_byte :
        (s : System)
        → s.reader ≡ testing
        → is_empty s.pipe ≡ false
        → Step s (record s { reader = passed })
    take_byte :
        (s : System)
        → s.reader ≡ passed
        → Step s (record s { reader = moved; got = update s.got s.taken (front s.pipe) })
    move_rpos :
        (s : System)
        → s.reader ≡ moved
        → Step s (record s { reader = testing; taken = s.taken + 1; pipe = advance s.pipe })
    -- pipewrite: the pipe is not full; the byte is stored; wpos moves.
    see_room :
        (s : System)
        → s.writer ≡ testing
        → is_full s.pipe ≡ false
        → Step s (record s { writer = passed })
    store_byte :
        (s : System)
        → s.writer ≡ passed
        → Step s (record s { writer = moved; pipe = deposit s.pipe (source s.given) })
    move_wpos :
        (s : System)
        → s.writer ≡ moved
        → Step s (record s { writer = testing; given = s.given + 1; pipe = publish s.pipe })

  pub data Reach (s : System) : System → Type 0 where
    start : Reach s s
    next : {t u : System} → Reach s t → Step t u → Reach s u

-- A new pipe: sys_page_alloc gives a page of zeros.
pub initial : System
initial = record {
  pipe = record { p_rpos = 0; p_wpos = 0; p_buf = λ _. 0 };
  reader = testing;
  got = λ _. 0;
  taken = 0;
  writer = testing;
  given = 0;
}

-- What piperead and pipewrite do when they run with no other process between: they return, or
-- they reach sys_yield, the writer with the bytes that it has left.
pub data Io : Type 0 where
  done : ℕ → List ℕ → Pipe → Io
  waits : List ℕ → Pipe → Io

-- The rounds of piperead once a byte has been seen: it stops at an empty pipe.
read_rounds : ℕ → Pipe → List ℕ × Pipe
unfolding is_empty front advance
read_rounds zero p = ([], p)
read_rounds (suc n) p =
    let more = read_rounds n (advance p) in
    if is_empty p then ([], p) else (front p ∷ more.0, more.1)

-- `closed` is what _pipeisclosed gives. With i > 0 an empty pipe ends the call.
pub piperead : ℕ → Bool → Pipe → Io
unfolding read_rounds is_empty
piperead n closed p =
    if ltb 0 n && is_empty p
    then (if closed then done 0 [] p else waits [] p)
    else let (bytes, p') = read_rounds n p in done (length bytes) bytes p'

-- `i` bytes are written; on a closed pipe the call returns 0, whatever `i`.
write_rounds : List ℕ → ℕ → Bool → Pipe → Io
unfolding is_full deposit publish
write_rounds [] i closed p = done i [] p
write_rounds (b ∷ bytes) i closed p =
    let more = write_rounds bytes (i + 1) closed (publish (deposit p b)) in
    if is_full p then (if closed then done 0 (b ∷ bytes) p else waits (b ∷ bytes) p) else more

pub pipewrite : List ℕ → Bool → Pipe → Io
unfolding write_rounds
pipewrite bytes closed p = write_rounds bytes 0 closed p

-- One round of _pipeisclosed: env_runs before, the two page references, env_runs after.
record Look : Type 0 where
  pub runs_before : ℕ
  pub fd_refs : ℕ
  pub pipe_refs : ℕ
  pub runs_after : ℕ

-- The loop goes on until no other process has run in the round; `none` where it still does.
pipe_is_closed : List Look → Option Bool
pipe_is_closed [] = none
pipe_is_closed (l ∷ looks) =
    let more = pipe_is_closed looks in
    if l.runs_before == l.runs_after then some (l.fd_refs == l.pipe_refs) else more
