-- ===== src/Fs/File.antt =====
-- The blocks of a file: file_block_walk to file_dirty, and file_truncate_blocks to file_close of
-- fs/fs.c. A `struct File *` is the index of the file's first word; sizes are not negative.
pub mod Sync
pub mod Indirect
use kludgeos.Base.{
  ℕ, zero, suc, ◌+◌, ◌-◌, ◌*◌, ◌/◌, ◌%◌, ◌^◌, Bool, true, false, not, ◌&&◌, ◌||◌, ◌==◌, ltb, leb,
  if◌then◌else◌, Option, none, some, Code, ok, err, Errno, e_not_found, e_inval, errno_code,
}
use kludgeos.Fs.Disk.{
  Fs, M, returns, panics, pure, ◌>>=◌, ◌>>◌, try, gets, panic, assert, when, load, store, blkwords,
  blksize, diskmap, s_nblocks,
}
use kludgeos.Fs.Block.{diskaddr, read_block, write_block, free_block, alloc_block, block_is_dirty}

abbrev pub ndirect : ℕ
ndirect = 10

abbrev pub nindirect : ℕ
nindirect = 1024

-- The words of the fields of a struct File.
abbrev pub f_size : ℕ → ℕ
f_size f = f + 32

abbrev pub f_type : ℕ → ℕ
f_type f = f + 33

abbrev f_direct : ℕ → ℕ
f_direct f = f + 34

abbrev pub f_indirect : ℕ → ℕ
f_indirect f = f + 44

abbrev pub f_dir : ℕ → ℕ
f_dir f = f + 45

-- The indirect block of a file that has none: the code stores alloc_block's result in the uint32_t
-- f_indirect and tests that for being negative, which it never is.
pub new_indirect : ℕ → M ℕ
new_indirect f = do
  r ← alloc_block
  elim r [
    | ok bno ↦ do store (f_indirect f) bno; diskaddr bno
    | err e ↦ do store (f_indirect f) (2 ^ 32 - errno_code e); diskaddr (2 ^ 32 - errno_code e)
  ]

-- The word of the slot. With a disk error at the indirect block the code returns 0 and leaves
-- `*ppdiskbno` as it was, the `none`.
pub file_block_walk : ℕ → ℕ → Bool → M (Code (Option ℕ))
file_block_walk f filebno alloc =
    if ltb filebno ndirect
    then pure (ok (some (f_direct f + filebno)))
    else if leb nindirect filebno
    then pure (err e_inval)
    else do
      indirect ← load (f_indirect f)
      if indirect == 0
          then (if not alloc
              then pure (err e_not_found)
              else do ptr ← new_indirect f; pure (ok (some (ptr + filebno))))
          else do
            r ← read_block indirect
            elim r [ err _ ↦ pure (ok none) | ok ptr ↦ pure (ok (some (ptr + filebno))) ]

-- The slot that the walk found; a pointer that was not set is a fault.
abbrev slot_of : Option ℕ → M ℕ
slot_of none = panic
slot_of (some slot) = pure slot

unfoldable pub file_map_block : ℕ → ℕ → Bool → M (Code ℕ)
file_map_block f filebno alloc = try (file_block_walk f filebno alloc) λ o. do
  ptr ← slot_of o
  bno ← load ptr
  if not (bno == 0)
      then pure (ok bno)
      else if not alloc
      then pure (err e_not_found)
      else try alloc_block λ r. do store ptr r; pure (ok r)

unfoldable pub file_clear_block : ℕ → ℕ → M (Code ℕ)
file_clear_block f filebno = try (file_block_walk f filebno false) λ o. do
  ptr ← slot_of o
  bno ← load ptr
  when (not (bno == 0)) (do free_block bno; store ptr 0)
  pure (ok 0)

unfoldable pub file_get_block : ℕ → ℕ → M (Code ℕ)
file_get_block f filebno = try (file_map_block f filebno true) λ diskbno. read_block diskbno

unfoldable pub file_dirty : ℕ → ℕ → M (Code ℕ)
file_dirty f offset =
    try (file_get_block f (offset / blksize)) λ blk. do v ← load blk; store blk v; pure (ok 0)

-- for (j = i; j < i + n; j++) body(j)
abbrev pub for_range : ℕ → ℕ → (ℕ → M (Unit {0})) → M (Unit {0})
for_range zero i body = pure tt
for_range (suc n) i body = body i >>= λ _. for_range n (i + 1) body

abbrev blocks_of : ℕ → ℕ
blocks_of size = (size + blksize - 1) / blksize

-- A failure only prints a warning.
unfoldable pub clear_or_warn : ℕ → ℕ → M (Unit {0})
clear_or_warn f bno = do _ ← file_clear_block f bno; pure tt

unfoldable pub file_truncate_blocks : ℕ → ℕ → M (Unit {0})
file_truncate_blocks f newsize = do
  size ← load (f_size f)
  for_range (blocks_of size - blocks_of newsize) (blocks_of newsize) (clear_or_warn f)
  indirect ← load (f_indirect f)
  when (leb (blocks_of newsize) ndirect && not (indirect == 0))
      (do free_block indirect; store (f_indirect f) 0)

unfoldable pub flush_block : ℕ → ℕ → M (Unit {0})
flush_block f i = do
  r ← file_map_block f i false
  elim r [
    | err _ ↦ pure tt
    | ok diskbno ↦ do stale ← block_is_dirty diskbno; when stale (write_block diskbno)
  ]

unfoldable pub file_flush : ℕ → M (Unit {0})
file_flush f = do size ← load (f_size f); for_range (blocks_of size) 0 (flush_block f)

-- if (f->f_dir) file_flush(f->f_dir), a pointer to an address from DISKMAP on.
unfoldable pub flush_dir : ℕ → M (Unit {0})
flush_dir f = do dir ← load (f_dir f); when (not (dir == 0)) (file_flush ((dir - diskmap) / 4))

unfoldable pub file_set_size : ℕ → ℕ → M (Code ℕ)
file_set_size f newsize = do
  size ← load (f_size f)
  when (ltb newsize size) (file_truncate_blocks f newsize)
  store (f_size f) newsize
  flush_dir f
  pure (ok 0)

pub sync_block : ℕ → M (Unit {0})
sync_block i = do stale ← block_is_dirty i; when stale (write_block i)

pub fs_sync : M (Unit {0})
fs_sync = do n ← load s_nblocks; for_range n 0 sync_block

unfoldable pub file_close : ℕ → M (Unit {0})
file_close f = do file_flush f; flush_dir f
