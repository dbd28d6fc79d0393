-- ===== src/Clib.antt =====
-- The C library: lib/string.c, lib/printfmt.c, lib/printf.c, lib/fprintf.c, lib/readline.c and lib/pipe.c.
pub mod Str
pub mod Moves
pub mod Line
pub mod Printbuf
pub mod Fprintf
pub mod Num
pub mod Fmt
pub mod Pipe
