-- ===== src/User/Spawn.antt =====
-- The stack of a new process: init_stack of lib/spawn.c.
--
-- `argv` is the list of its strings. What the system calls answer is an argument: `none` is success.
-- The memory is that of the page at UTEMP, by its addresses.
pub mod Filling
pub mod Stack
pub mod Shared
pub mod Inherited
mod Tests
use kludgeos.Base.{
  ℕ, zero, suc, ◌+◌, ◌-◌, ◌*◌, ◌/◌, ◌%◌, ◌^◌, ◌==◌, ltb, if◌then◌else◌, update, List, [], ◌∷◌,
  length, Option, none, some, Errno, e_no_mem,
}
use kludgeos.Clib.Str.{Mem}

abbrev pub pgsize : ℕ
pgsize = 4096

abbrev pub utemp : ℕ
utemp = 0x400000

abbrev pub ustacktop : ℕ
ustacktop = 0xeebfe000

-- UTEMP2USTACK(addr)
abbrev pub utemp2ustack : ℕ → ℕ
utemp2ustack addr = (addr + (ustacktop - pgsize - utemp)) % 2 ^ 32

-- The loop that adds up `string_size`.
pub string_size : List (List ℕ) → ℕ
string_size [] = 0
string_size (s ∷ ss) = (length s + 1 + string_size ss) % 2 ^ 32

-- *(uintptr_t *) a = w
pub store_word : Mem → ℕ → ℕ → Mem
store_word m a w =
    update
      (update (update (update m a (w % 256)) (a + 1) (w / 256 % 256)) (a + 2) (w / 65536 % 256))
      (a + 3) (w / 16777216 % 256)

-- strcpy(a, s)
pub store_string : Mem → ℕ → List ℕ → Mem
store_string m a [] = update m a 0
store_string m a (x ∷ xs) = store_string (update m a x) (a + 1) xs

-- The loop over the arguments, with `argv_store + i` and `string_store`: the memory, and the last
-- `string_store`.
pub fill_args : Mem → ℕ → ℕ → List (List ℕ) → Mem × ℕ
fill_args m a store [] = (m, store)
fill_args m a store (s ∷ ss) =
    fill_args (store_string (store_word m a (utemp2ustack store)) store s) (a + 4)
      (store + length s + 1) ss

pub data Init : Type 0 where
  -- returns 0 with *init_esp, and the page as the child gets it
  ready : ℕ → Mem → Init
  fails : Errno → Init
  -- the failed assert
  dies : Init

-- The part of init_stack after the page is there; `store` and `a` are `string_store` and
-- `argv_store` before the loop.
pub fill_stack : Option Errno → Option Errno → List (List ℕ) → Mem → ℕ → ℕ → Init
fill_stack map unmap argv m store a =
    let argc = length argv in
    let (filled, end) = fill_args m a store argv in
    let m1 = store_word filled (a + 4 * argc) 0 in
    let m2 = store_word m1 (a - 4) (utemp2ustack a) in
    let m3 = store_word m2 (a - 8) argc in
    if end == utemp + pgsize
    then elim map [
      | some x ↦ fails x
      | none ↦ elim unmap [ some x ↦ fails x | none ↦ ready (utemp2ustack (a - 8)) m3 ]
    ]
    else dies

pub init_stack : Option Errno → Option Errno → Option Errno → List (List ℕ) → Mem → Init
init_stack alloc map unmap argv m =
    let store = (utemp + pgsize + 2 ^ 32 - string_size argv) % 2 ^ 32 in
    let a = (store - store % 4 + 2 ^ 32 - 4 * (length argv + 1)) % 2 ^ 32 in
    if ltb ((a + 2 ^ 32 - 8) % 2 ^ 32) utemp
    then fails e_no_mem
    else elim alloc [ some x ↦ fails x | none ↦ fill_stack map unmap argv m store a ]
