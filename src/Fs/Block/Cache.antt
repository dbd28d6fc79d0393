-- ===== src/Fs/Block/Cache.antt =====
-- The block cache of fs/fs.c: a block in memory that is not dirty is the block on the disk.
use kludgeos.Base.{ℕ, ◌*◌, ◌/◌, ◌<◌, ◌≡◌, true, false, ◌&&◌, ◌==◌, if◌then◌else◌, update, arith}
use kludgeos.Fs.Disk.{Fs, returns, blkwords, s_nblocks}
use kludgeos.Fs.Block.{diskaddr, block_is_mapped, block_is_dirty, write_block, ide_write, remap}

-- The superblock is known and in memory.
pub record HasSuper (s : Fs) : Type 0 where
  pub super_known : s.super_set ≡ true
  pub super_mapped : s.mapped 1 ≡ true

diskaddr_lem :
    (s : Fs) (b : ℕ) → HasSuper s → b < s.mem s_nblocks → diskaddr b s ≡ returns (b * blkwords) s
unfolding diskaddr
diskaddr_lem s b v lt = ground (arith, v.super_known, v.super_mapped)

block_is_mapped_lem :
    (s : Fs) (b : ℕ)
    → HasSuper s
    → b < s.mem s_nblocks
    → block_is_mapped b s ≡ returns (s.mapped b) s
unfolding block_is_mapped
block_is_mapped_lem s b v lt = ground (arith, diskaddr_lem s b v lt)

pub block_is_dirty_lem :
    (s : Fs) (b : ℕ)
    → HasSuper s
    → b < s.mem s_nblocks
    → block_is_dirty b s ≡ returns (s.mapped b && s.dirty b) s
unfolding block_is_dirty
block_is_dirty_lem s b v lt = ground (arith, diskaddr_lem s b v lt)

-- The server once the block `b` is written out.
abbrev pub flushed : Fs → ℕ → Fs
flushed s b = record s {
  disk = λ w. if w / blkwords == b then s.mem w else s.disk w;
  dirty = update s.dirty b false;
}

-- write_block of a block in memory writes it to the disk as it stands, clears its dirty bit, and
-- changes nothing else.
pub write_block_lem :
    (s : Fs) (b : ℕ)
    → HasSuper s
    → b < s.mem s_nblocks
    → s.mapped b ≡ true
    → s.disk_fails b ≡ false
    → write_block b s ≡ returns tt (flushed s b)
unfolding write_block ide_write remap
write_block_lem s b v lt there works =
    ground (arith, block_is_mapped_lem s b v lt, diskaddr_lem s b v lt)

abbrev pub Coherent : Fs → Type 0
Coherent s =
    (w : ℕ) → s.mapped (w / blkwords) ≡ true → s.dirty (w / blkwords) ≡ false → s.mem w ≡ s.disk w

pub flushed-Coherent : (s : Fs) (b : ℕ) → Coherent s → Coherent (flushed s b)
flushed-Coherent s b c w there clean = ground (arith, c w)
