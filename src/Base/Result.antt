-- ===== src/Base/Result.antt =====
-- Error codes of inc/error.h, and what a C function that returns an `int` code returns.
use Prim.Native.Nat.{ℕ}

pub data Errno : Type 0 where
  e_unspecified e_bad_env e_inval e_no_mem e_no_free_env e_fault e_ipc_not_recv e_eof : Errno
  e_no_disk e_max_open e_not_found e_bad_path e_file_exists e_not_exec : Errno

-- A code: `ok a` is a result that is not negative (`a` is what the out parameters hold, too),
-- `err e` is `-e`.
pub data Code {ℓ} (A : Type ℓ) : Type ℓ where
  ok : A → Code A
  err : Errno → Code A

-- The number of an error, `E_...`.
abbrev pub errno_code : Errno → ℕ
errno_code e_unspecified = 1
errno_code e_bad_env = 2
errno_code e_inval = 3
errno_code e_no_mem = 4
errno_code e_no_free_env = 5
errno_code e_fault = 6
errno_code e_ipc_not_recv = 7
errno_code e_eof = 8
errno_code e_no_disk = 9
errno_code e_max_open = 10
errno_code e_not_found = 11
errno_code e_bad_path = 12
errno_code e_file_exists = 13
errno_code e_not_exec = 14
