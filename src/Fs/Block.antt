-- ===== src/Fs/Block.antt =====
-- Blocks and the block bitmap: diskaddr to read_bitmap of fs/fs.c.
pub mod Bitmap
pub mod Alloc
pub mod Cache
use kludgeos.Base.{
  ℕ, zero, suc, ◌+◌, ◌-◌, ◌*◌, ◌/◌, ◌%◌, ◌^◌, Bool, true, false, not, ◌&&◌, ◌||◌, ◌==◌, ltb, leb,
  if◌then◌else◌, update, has, bit_and, bit_or, Option, none, some, Code, ok, err, e_no_disk,
  e_no_mem, e_unspecified,
}
use kludgeos.Fs.Disk.{
  Fs, Outcome, M, returns, panics, pure, ◌>>=◌, ◌>>◌, try, gets, modify, panic, assert, when, load,
  store, blkwords, blksize, blkbitsize, disksize, s_magic, s_nblocks, bitmap,
}

-- The first word of the block.
unfoldable pub diskaddr : ℕ → M ℕ
diskaddr blockno s =
    if s.super_set
    then (do n ← load s_nblocks; if leb n blockno then panic else pure (blockno * blkwords)) s
    else returns (blockno * blkwords) s

-- va_is_mapped of the block's address, which is never null.
pub block_is_mapped : ℕ → M Bool
block_is_mapped blockno = do va ← diskaddr blockno; gets (λ s. s.mapped (va / blkwords))

pub block_is_dirty : ℕ → M Bool
block_is_dirty blockno = do
  va ← diskaddr blockno
  gets (λ s. s.mapped (va / blkwords) && s.dirty (va / blkwords))

-- sys_page_alloc(0, va, PTE_U|PTE_P|PTE_W): a page of zeros in place of what was there.
unfoldable pub page_alloc : ℕ → M (Code ℕ)
page_alloc va s = elim (s.frames == 0) [
  | true ↦ returns (err e_no_mem) s
  | false ↦ returns (ok 0) (record s {
    frames = s.frames - 1;
    mapped = update s.mapped (va / blkwords) true;
    dirty = update s.dirty (va / blkwords) false;
    mem = λ w. if w / blkwords == va / blkwords then 0 else s.mem w;
  })
]

-- sys_page_map(0, va, 0, va, perm): PTE_D is clear in the new entry.
pub remap : ℕ → M (Unit {0})
remap va = modify (λ s. record s { dirty = update s.dirty (va / blkwords) false })

-- ide_read and ide_write of the sectors of one block.
unfoldable pub ide_read : ℕ → ℕ → M (Code ℕ)
ide_read blockno va s = elim (s.disk_fails blockno) [
  | true ↦ returns (err e_unspecified) s
  | false ↦ returns (ok 0) (record s {
    mem = λ w. if w / blkwords == va / blkwords then s.disk w else s.mem w;
    dirty = update s.dirty (va / blkwords) true;
  })
]

pub ide_write : ℕ → ℕ → M (Code ℕ)
ide_write blockno va s = elim (s.disk_fails blockno) [
  | true ↦ returns (err e_unspecified) s
  | false ↦
      returns (ok 0)
        (record s { disk = λ w. if w / blkwords == blockno then s.mem w else s.disk w })
]

unfoldable pub map_block : ℕ → M (Code ℕ)
map_block blockno = do
  there ← block_is_mapped blockno
  if there then pure (ok 0) else (do va ← diskaddr blockno; page_alloc va)

-- bitmap[blockno / 32] & (1 << (blockno % 32)), where `super` is set and covers the block.
unfoldable pub block_is_free : ℕ → M Bool
block_is_free blockno s =
    if not s.super_set
    then returns false s
    else (do
      n ← load s_nblocks
      if leb n blockno
          then pure false
          else if not s.bitmap_set
          then panic
          else do w ← load (bitmap + blockno / 32); pure (has w (2 ^ (blockno % 32))))
        s

-- The address of the block in memory, which the source stores through `blk` if that is not null.
unfoldable pub read_block : ℕ → M (Code ℕ)
read_block blockno = do
  known ← gets (λ s. s.super_set)
  when known (do n ← load s_nblocks; when (leb n blockno) panic)
  loaded ← gets (λ s. s.bitmap_set)
  when loaded (do unused ← block_is_free blockno; when unused panic)
  addr ← diskaddr blockno
  there ← block_is_mapped blockno
  if there
      then pure (ok addr)
      else try (page_alloc addr) λ _. try (ide_read blockno addr) λ _. do remap addr; pure (ok addr)

pub write_block : ℕ → M (Unit {0})
write_block blockno = do
  there ← block_is_mapped blockno
  when (not there) panic
  addr ← diskaddr blockno
  r ← ide_write blockno addr
  elim r [ ok _ ↦ remap addr | err _ ↦ panic ]

unfoldable unmap_block : ℕ → M (Unit {0})
unmap_block blockno = do
  there ← block_is_mapped blockno
  when there (do
    unused ← block_is_free blockno
    stale ← block_is_dirty blockno
    assert (unused || not stale)
    va ← diskaddr blockno
    modify
        (λ s. record s { mapped = update s.mapped (va / blkwords) false; frames = s.frames + 1 }))

-- `bitmap` is null before read_bitmap, and the access faults.
pub free_block : ℕ → M (Unit {0})
free_block blockno = do
  when (blockno == 0) panic
  loaded ← gets (λ s. s.bitmap_set)
  assert loaded
  w ← load (bitmap + blockno / 32)
  store (bitmap + blockno / 32) (bit_or w (2 ^ (blockno % 32)))

-- The first loop of alloc_block_num: `n` rounds, from word `i`.
unfoldable pub find_word : ℕ → ℕ → M (Option ℕ)
find_word zero i = pure none
find_word (suc n) i =
    load (bitmap + i) >>= λ w. elim (w == 0) [ true ↦ find_word n (i + 1) | false ↦ pure (some i) ]

-- The second loop: the first bit set, of `n` from bit `j`.
pub find_bit : ℕ → ℕ → ℕ → ℕ
find_bit zero w j = j
find_bit (suc n) w j = let more = find_bit n w (j + 1) in if has w (2 ^ j) then j else more

-- ~(1 << j)
abbrev pub clear_mask : ℕ → ℕ
clear_mask j = 2 ^ 32 - 1 - 2 ^ j

unfoldable pub alloc_block_num : M (Code ℕ)
alloc_block_num = do
  loaded ← gets (λ s. s.super_set && s.bitmap_set)
  assert loaded
  nblocks ← load s_nblocks
  found ← find_word (nblocks / 32) 0
  elim found [
    | none ↦ pure (err e_no_disk)
    | some i ↦ do
      w ← load (bitmap + i)
      store (bitmap + i) (bit_and w (clear_mask (find_bit 32 w 0)))
      pure (ok (i * 32 + find_bit 32 w 0))
  ]

unfoldable pub alloc_block : M (Code ℕ)
alloc_block = try alloc_block_num λ bno. do
  r ← map_block bno
  elim r [
    | err e ↦ do free_block bno; pure (err e)
    | ok _ ↦ do write_block (2 + bno / blkbitsize); pure (ok bno)
  ]

unfoldable read_super : M (Unit {0})
read_super = do
  r ← read_block 1
  elim r [
    | err _ ↦ panic
    | ok _ ↦ do
      modify (λ s. record s { super_set = true })
      magic ← load s_magic
      when (not (magic == 0x4a05_30ae)) panic
      nblocks ← load s_nblocks
      when (ltb (disksize / blksize) nblocks) panic
  ]

-- `f` rounds of the loop of read_bitmap, from round `i`; a disk has at most 24 bitmap blocks.
unfoldable bitmap_rounds : ℕ → ℕ → M (Unit {0})
bitmap_rounds zero i = panic
bitmap_rounds (suc f) i = load s_nblocks >>= λ nblocks. elim (ltb (i * blkbitsize) nblocks) [
  | false ↦ pure tt
  | true ↦ read_block (2 + i) >>= λ r. elim r [
    | err _ ↦ panic
    | ok _ ↦ when (i == 0) (modify (λ s. record s { bitmap_set = true })) >>= λ _.
        block_is_free (2 + i) >>= λ unused. assert (not unused) >>= λ _. bitmap_rounds f (i + 1)
  ]
]

unfoldable read_bitmap : M (Unit {0})
read_bitmap = do
  bitmap_rounds 25 0
  zero_free ← block_is_free 0
  assert (not zero_free)
  one_free ← block_is_free 1
  assert (not one_free)
  loaded ← gets (λ s. s.bitmap_set)
  assert loaded

-- fs_init, after ide_probe_disk1 and ide_set_disk have chosen the disk.
unfoldable fs_init : M (Unit {0})
fs_init = do read_super; read_bitmap
