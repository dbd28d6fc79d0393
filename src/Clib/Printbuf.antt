-- ===== src/Clib/Printbuf.antt =====
-- The buffer of cprintf in lib/printf.c: putch, and vcprintf on the characters that vprintfmt puts.
pub mod Output
use kludgeos.Base.{
  ℕ, zero, suc, ◌+◌, ◌-◌, ◌%◌, ◌^◌, Bool, ◌==◌, if◌then◌else◌, update, List, [], ◌∷◌, ◌++◌,
}

abbrev pub bufsize : ℕ
bufsize = 256

-- struct printbuf, and what sys_cputs was given so far, call by call.
pub record Printbuf : Type 0 where
  pub idx : ℕ
  pub cnt : ℕ
  pub buf : ℕ → ℕ
  pub calls : List (List ℕ)

-- The bytes `buf[i]` on, `n` of them.
unfoldable pub bytes_from : (ℕ → ℕ) → ℕ → ℕ → List ℕ
bytes_from buf i zero = []
bytes_from buf i (suc n) = buf i ∷ bytes_from buf (i + 1) n

abbrev pub sys_cputs : Printbuf → Printbuf
sys_cputs b = record b { calls = b.calls ++ (bytes_from b.buf 0 b.idx ∷ []) }

pub putch : ℕ → Printbuf → Printbuf
putch ch b =
    let b1 = record b { buf = update b.buf b.idx (ch % 2 ^ 8); idx = b.idx + 1 } in
    let b2 = if b1.idx == bufsize - 1 then record (sys_cputs b1) { idx = 0 } else b1 in
    record b2 { cnt = b2.cnt + 1 }

pub putch_all : List ℕ → Printbuf → Printbuf
putch_all [] b = b
putch_all (c ∷ cs) b = putch_all cs (putch c b)

-- vcprintf: what it returns, and the calls of sys_cputs.
pub vcprintf : List ℕ → (ℕ → ℕ) → ℕ × List (List ℕ)
vcprintf cs garbage =
    let b = putch_all cs (record { idx = 0; cnt = 0; buf = garbage; calls = [] }) in
    (b.cnt, (sys_cputs b).calls)
