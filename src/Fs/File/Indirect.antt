-- ===== src/Fs/File/Indirect.antt =====
-- file_block_walk of fs/fs.c.
use kludgeos.Base.{ℕ, ◌/◌, ◌≤◌, ◌<◌, ◌≡◌, ◌≢◌, true, err, e_no_disk, arith}
use kludgeos.Fs.Disk.{Fs, returns, panics, blkwords, s_nblocks}
use kludgeos.Fs.Block.{diskaddr, alloc_block, alloc_block_num}
use kludgeos.Fs.File.{file_block_walk, new_indirect, f_indirect, ndirect, nindirect}

-- The flaw of file_block_walk: on a disk that is full, where the walk has to allocate the indirect
-- block, it does not return -E_NO_DISK: f_indirect is unsigned, so the test for an error never holds,
-- and the server panics on the error code as a block number.
pub walk_panics_when_full :
    (s : Fs) (f filebno : ℕ)
    → s.super_set ≡ true
    → s.mapped 1 ≡ true
    → s.mapped (f_indirect f / blkwords) ≡ true
    → f_indirect f ≢ s_nblocks
    → s.mem s_nblocks ≤ 0xc0000
    → s.mem (f_indirect f) ≡ 0
    → ndirect ≤ filebno
    → filebno < nindirect
    → alloc_block_num s ≡ returns (err e_no_disk) s
    → file_block_walk f filebno true s ≡ panics
unfolding file_block_walk new_indirect alloc_block diskaddr
walk_panics_when_full s f filebno known super there apart few unset lo hi full = ground arith
