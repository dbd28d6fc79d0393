-- ===== src/Fs/File/Sync.antt =====
-- fs_sync of fs/fs.c brings the disk up to date.
use kludgeos.Base.{
  ℕ, zero, suc, ◌+◌, ◌/◌, ◌<◌, ◌≡◌, refl, ◌∙◌, inl, inr, true, false, ◌&&◌, Bool-cases, arith,
}
use kludgeos.Fs.Disk.{Fs, returns, blkwords, s_nblocks}
use kludgeos.Fs.Block.Cache.{
  HasSuper, Coherent, flushed, flushed-Coherent, block_is_dirty_lem, write_block_lem,
}
use kludgeos.Fs.File.{sync_block, fs_sync, for_range}

sync_dirty :
    (s : Fs) (b : ℕ)
    → HasSuper s
    → b < s.mem s_nblocks
    → s.disk_fails b ≡ false
    → (s.mapped b && s.dirty b) ≡ true
    → sync_block b s ≡ returns tt (flushed s b)
unfolding sync_block
sync_dirty s b v lt works e =
    ground (arith, block_is_dirty_lem s b v lt, write_block_lem s b v lt (ground arith) works)

sync_clean :
    (s : Fs) (b : ℕ)
    → HasSuper s
    → b < s.mem s_nblocks
    → (s.mapped b && s.dirty b) ≡ false
    → sync_block b s ≡ returns tt s
unfolding sync_block
sync_clean s b v lt e = ground (arith, block_is_dirty_lem s b v lt)

-- No block below `n` is dirty in memory.
abbrev Clean : Fs → ℕ → Type 0
Clean s n = (b : ℕ) → b < n → s.mapped b ≡ true → s.dirty b ≡ false

abbrev Rounds : ℕ → ℕ → Fs → ℕ → Type 0
Rounds n i s m =
    (t : Fs) × (for_range n i sync_block s ≡ returns tt t)
    × ((w : ℕ) → t.mem w ≡ s.mem w)
    × ((b : ℕ) → t.mapped b ≡ s.mapped b)
    × Coherent t
    × Clean t m

one_more :
    (n i : ℕ) (s u : Fs)
    → sync_block i s ≡ returns tt u
    → for_range (suc n) i sync_block s ≡ for_range n (i + 1) sync_block u
one_more n i s u e = ground arith

sync-Rounds :
    (n i m : ℕ) (s : Fs)
    → i + n ≡ m
    → s.mem s_nblocks ≡ m
    → HasSuper s
    → ((b : ℕ) → b < m → s.disk_fails b ≡ false)
    → Coherent s
    → Clean s i
    → Rounds n i s m
sync-Rounds zero i m s e count v works c clean =
    (s, refl, λ w. refl, λ b. refl, c, λ b lt. clean b (omega arith))
sync-Rounds (suc n) i m s e count v works c clean = elim (Bool-cases (s.mapped i && s.dirty i)) [
  | inl stale ↦
      let u : Fs = flushed s i in
      let (t, runs, mem, mapped, c', clean') =
        sync-Rounds n (i + 1) m u (omega arith) count
          (record { super_known = v.super_known; super_mapped = v.super_mapped }) works
          (flushed-Coherent s i c) (λ b lt there. ground (arith, clean b)) in
      (
        t,
        one_more n i s u (sync_dirty s i v (omega arith) (works i (omega arith)) stale) ∙ runs,
        mem,
        mapped,
        c',
        clean',
      )
  | inr fresh ↦
      let (t, runs, mem, mapped, c', clean') =
        sync-Rounds n (i + 1) m s (omega arith) count v works c
          (λ b lt there. ground (arith, clean b)) in
      (t, one_more n i s s (sync_clean s i v (omega arith) fresh) ∙ runs, mem, mapped, c', clean')
]

-- From a state whose clean blocks agree with the disk, and on a disk that does not fail, fs_sync
-- ends without a panic: memory is as it was, and every block of the disk that is in memory is now
-- on the disk as it stands in memory.
pub fs_sync_lem :
    (s : Fs)
    → HasSuper s
    → ((b : ℕ) → b < s.mem s_nblocks → s.disk_fails b ≡ false)
    → Coherent s
    → (t : Fs) × (fs_sync s ≡ returns tt t)
      × ((w : ℕ) → t.mem w ≡ s.mem w)
      × ((w : ℕ)
          → w / blkwords < s.mem s_nblocks
          → s.mapped (w / blkwords) ≡ true
          → t.disk w ≡ s.mem w)
unfolding fs_sync
fs_sync_lem s v works c =
    let (t, runs, mem, mapped, c', clean) =
      sync-Rounds (s.mem s_nblocks) 0 (s.mem s_nblocks) s (omega arith) refl v works c
        (λ b lt. absurd (omega arith)) in
    (
      t,
      ground (arith, v.super_mapped, runs),
      mem,
      λ w lt there. ground (arith, mem w, mapped (w / blkwords), c' w, clean (w / blkwords) lt),
    )
