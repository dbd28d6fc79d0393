-- ===== src/Fs/Tests.antt =====
-- The theorems on the file server at a disk of 64 blocks.
use kludgeos.Base.{
  ℕ, ◌+◌, ◌*◌, ◌/◌, ◌<◌, ◌≡◌, refl, Bool, true, false, ◌==◌, leb, if◌then◌else◌, List, [], ◌∷◌, err,
  e_no_disk, arith,
}
use kludgeos.Fs.Disk.{Fs, returns, panics, blkwords, s_nblocks}
use kludgeos.Fs.Block.{alloc_block_num, find_word}
use kludgeos.Fs.Block.Alloc.{IsReady, Allocated, alloc_block_num_lem}
use kludgeos.Fs.Block.Cache.{HasSuper, Coherent}
use kludgeos.Fs.File.{file_block_walk, fs_sync}
use kludgeos.Fs.File.Sync.{fs_sync_lem}
use kludgeos.Fs.Dir.Entries.{InMemory}
use kludgeos.Fs.File.Indirect.{walk_panics_when_full}

-- The superblock in block 1 and the bitmap in block 2, whose first word is `word`.
abbrev contents : ℕ → ℕ → ℕ
contents word w = if w == 1025 then 64 else if w == 2048 then word else 0

-- The bitmap is on the disk already or, where `stale`, only in memory.
abbrev server : ℕ → Bool → Fs
server word stale = record {
  super_set = true;
  bitmap_set = true;
  mem = contents word;
  mapped = λ b. leb b 7;
  dirty = λ b. if b == 2 then stale else false;
  disk = if stale then contents 0 else contents word;
  disk_fails = λ b. false;
  frames = 9;
}

-- The blocks 4 and 5 are free, and the bitmap that says so is not on the disk.
abbrev ready : Fs
ready = server 48 true

-- No block is free.
abbrev exhausted : Fs
exhausted = server 0 false

ready-IsReady : IsReady ready
ready-IsReady = record {
  super_known = refl;
  bitmap_known = refl;
  super_mapped = refl;
  bitmap_mapped = λ i h. ground arith;
  words = λ w. ground arith;
}

ready-HasSuper : HasSuper ready
ready-HasSuper = record { super_known = refl; super_mapped = refl }

ready-Coherent : Coherent ready
ready-Coherent w there clean = ground arith

exhausted_lem : alloc_block_num exhausted ≡ returns (err e_no_disk) exhausted
unfolding alloc_block_num find_word
exhausted_lem = refl

alloc_block_num_lem_example : Allocated ready (alloc_block_num ready)
alloc_block_num_lem_example = alloc_block_num_lem ready ready-IsReady

fs_sync_lem_example :
    (t : Fs) × (fs_sync ready ≡ returns tt t)
    × ((w : ℕ) → t.mem w ≡ ready.mem w)
    × ((w : ℕ)
        → w / blkwords < ready.mem s_nblocks
        → ready.mapped (w / blkwords) ≡ true
        → t.disk w ≡ ready.mem w)
fs_sync_lem_example = fs_sync_lem ready ready-HasSuper (λ b _. refl) ready-Coherent

walk_panics_when_full_example : file_block_walk 0x1800 12 true exhausted ≡ panics
walk_panics_when_full_example =
    walk_panics_when_full exhausted 0x1800 12 refl refl refl (omega arith) (omega arith) refl
      (omega arith) (omega arith) exhausted_lem

-- "/a/b"
abbrev path : List ℕ
path = b'/' ∷ b'a' ∷ b'/' ∷ b'b' ∷ []

entries_there : (j : ℕ) → j < 2 → InMemory ready (3072 + 64 * j)
entries_there j h w h' = ground arith
