-- ===== src/Clib/Fprintf.antt =====
-- The buffer of fprintf in lib/fprintf.c: writebuf, putch, and vfprintf on the characters that
-- vprintfmt puts. What write answers to a call, after the calls before it, is an argument.
pub mod Writing
mod Tests
use kludgeos.Base.{
  ℕ, zero, suc, ◌+◌, ◌%◌, ◌^◌, Bool, true, false, ◌==◌, ltb, if◌then◌else◌, update, List, [], ◌∷◌,
  ◌++◌, Code, ok, err, Errno,
}
use kludgeos.Clib.Printbuf.{bytes_from}

abbrev pub bufsize : ℕ
bufsize = 256

-- `error`: 1 as long as every write was full, 0 after one that wrote less, or the error of one.
pub data Error : Type 0 where
  one zero_written : Error
  failed : Errno → Error

-- struct printbuf, and what write was given so far, call by call.
pub record Printbuf : Type 0 where
  pub idx : ℕ
  pub result : ℕ
  pub error : Error
  pub buf : ℕ → ℕ
  pub calls : List (List ℕ)

-- What vfprintf returns: `b.result`, or `b.error`.
pub data Answer : Type 0 where
  count : ℕ → Answer
  no_count : Error → Answer

module _ (write : List (List ℕ) → List ℕ → Code ℕ) where
  -- The part of writebuf after the call of write.
  unfoldable pub written : Printbuf → Code ℕ → Printbuf
  written b (err x) = record b { error = failed x }
  written b (ok n) =
      let b1 = record b { result = b.result + n } in
      if n == b.idx then b1 else record b1 { error = zero_written }

  unfoldable pub writebuf : Printbuf → Printbuf
  writebuf b = elim b.error [
    | zero_written ↦ b
    | failed x ↦ b
    | one ↦
        let data_out = bytes_from b.buf 0 b.idx in
        written (record b { calls = b.calls ++ (data_out ∷ []) }) (write b.calls data_out)
  ]

  unfoldable pub putch : ℕ → Printbuf → Printbuf
  putch ch b =
      let b1 = record b { buf = update b.buf b.idx (ch % 2 ^ 8); idx = b.idx + 1 } in
      if b1.idx == bufsize then record (writebuf b1) { idx = 0 } else b1

  unfoldable pub putch_all : List ℕ → Printbuf → Printbuf
  putch_all [] b = b
  putch_all (c ∷ cs) b = putch_all cs (putch c b)

  unfoldable pub answer : Printbuf → Answer
  answer b = if b.result == 0 then no_count b.error else count b.result

  -- vfprintf: what it returns, and the calls of write.
  unfoldable pub vfprintf : List ℕ → (ℕ → ℕ) → Answer × List (List ℕ)
  vfprintf cs garbage =
      let b =
        putch_all cs (record { idx = 0; result = 0; error = one; buf = garbage; calls = [] }) in
      let b' = if ltb 0 b.idx then writebuf b else b in (answer b', b'.calls)
