-- ===== src/Fs/Block/Alloc.antt =====
-- alloc_block_num and free_block of fs/fs.c against the set of free blocks.
use kludgeos.Base.{
  ℕ, zero, suc, ◌+◌, ◌*◌, ◌/◌, ◌%◌, ◌^◌, ◌≤◌, ◌<◌, ◌≡◌, refl, ◌∙◌, ap, ◌≢◌, inl, inr, true, false,
  ◌==◌, if◌then◌else◌, Bool-cases, ==→eq, update, bit, bit_and, bit_or, bit-zero, Option, none,
  some, Code, ok, err, e_no_disk, arith,
}
use kludgeos.Fs.Disk.{Fs, Outcome, returns, blkwords, bitmap, s_nblocks}
use kludgeos.Fs.Block.{find_word, find_bit, clear_mask, alloc_block_num, free_block}
use kludgeos.Fs.Block.Bitmap.{free_bit, bit-cleared, bit-set, zero_of_bits, find_bit_lem}

-- The server after read_bitmap: the words of the superblock's number of blocks and of the bitmap
-- are in memory, and a word has 32 bits.
pub record IsReady (s : Fs) : Type 0 where
  pub super_known : s.super_set ≡ true
  pub bitmap_known : s.bitmap_set ≡ true
  pub super_mapped : s.mapped 1 ≡ true
  pub bitmap_mapped : (i : ℕ) → i ≤ s.mem s_nblocks / 32 → s.mapped ((bitmap + i) / blkwords) ≡ true
  pub words : (w : ℕ) → s.mem w < 2 ^ 32

-- What the first loop finds.
abbrev FoundWord : Fs → ℕ → ℕ → Option ℕ → Type 0
FoundWord s i n none = (k : ℕ) → i ≤ k → k < i + n → s.mem (bitmap + k) ≡ 0
FoundWord s i n (some k) = (i ≤ k) × (k < i + n) × (s.mem (bitmap + k) ≢ 0)

find_word_hit :
    (n i : ℕ) (s : Fs)
    → s.mapped ((bitmap + i) / blkwords) ≡ true
    → (s.mem (bitmap + i) == 0) ≡ false
    → find_word (suc n) i s ≡ returns (some i) s
unfolding find_word
find_word_hit n i s there e = ground arith

find_word_skip :
    (n i : ℕ) (s : Fs)
    → s.mapped ((bitmap + i) / blkwords) ≡ true
    → (s.mem (bitmap + i) == 0) ≡ true
    → find_word (suc n) i s ≡ find_word n (i + 1) s
unfolding find_word
find_word_skip n i s there e = ground arith

find_word_lem :
    (n i : ℕ) (s : Fs)
    → ((k : ℕ) → k < i + n → s.mapped ((bitmap + k) / blkwords) ≡ true)
    → (o : Option ℕ) × (find_word n i s ≡ returns o s) × FoundWord s i n o
unfolding find_word
find_word_lem zero i s there = (none, refl, λ k a b. absurd (omega arith))
find_word_lem (suc n) i s there = elim (Bool-cases (s.mem (bitmap + i) == 0)) [
  | inr e ↦ (
    some i,
    find_word_hit n i s (there i (omega arith)) e,
    (omega arith, omega arith, ground arith),
  )
  | inl e ↦
      let (o, runs, found) = find_word_lem n (i + 1) s (λ k lt. there k (omega arith)) in
      (
        o,
        find_word_skip n i s (there i (omega arith)) e ∙ runs,
        widen o (==→eq (s.mem (bitmap + i)) 0 e) found,
      )
]
  where
    widen :
        (o : Option ℕ) → s.mem (bitmap + i) ≡ 0 → FoundWord s (i + 1) n o → FoundWord s i (suc n) o
    widen none e found = λ k a b. elim (Bool-cases (k == i)) [
      | inl same ↦ ground (arith, ==→eq k i same)
      | inr other ↦ found k (ground arith) (omega arith)
    ]
    widen (some k) e found = (omega arith, omega arith, found.2)

-- The server once the block `b` is taken.
abbrev pub taken : Fs → ℕ → ℕ → Fs
taken s i j = record s {
  mem = update s.mem (bitmap + i) (bit_and (s.mem (bitmap + i)) (clear_mask j));
  dirty = update s.dirty ((bitmap + i) / blkwords) true;
}

-- What alloc_block_num returns, and what that means for the bits of the blocks.
pub data Allocated (s : Fs) : Outcome (Code ℕ) → Type 0 where
  full :
      ((b : ℕ) → b < s.mem s_nblocks / 32 * 32 → free_bit s b ≡ 0)
      → Allocated s (returns (err e_no_disk) s)
  block :
      (b : ℕ) (t : Fs)
      → b < s.mem s_nblocks / 32 * 32
      → free_bit s b ≡ 1
      → ((c : ℕ) → free_bit t c ≡ (if c == b then 0 else free_bit s c))
      → t.mem s_nblocks ≡ s.mem s_nblocks
      → Allocated s (returns (ok b) t)

free_bit-taken :
    (s : Fs) (i j c : ℕ)
    → j < 32
    → free_bit (taken s i j) c ≡ (if c == i * 32 + j then 0 else free_bit s c)
unfolding free_bit
free_bit-taken s i j c lt =
    ground (arith, bit-cleared (s.mem (bitmap + i)) j (c % 32) lt (omega arith))

all_zero :
    (s : Fs)
    → ((k : ℕ) → 0 ≤ k → k < 0 + s.mem s_nblocks / 32 → s.mem (bitmap + k) ≡ 0)
    → (b : ℕ) → b < s.mem s_nblocks / 32 * 32
    → free_bit s b ≡ 0
unfolding free_bit
all_zero s zeros b lt =
    ap (λ (w : ℕ). bit w (b % 32)) (zeros (b / 32) (omega arith) (omega arith)) ∙ bit-zero (b % 32)

free_here :
    (s : Fs) (i j : ℕ) → bit (s.mem (bitmap + i)) j ≡ 1 → j < 32 → free_bit s (i * 32 + j) ≡ 1
unfolding free_bit
free_here s i j hit small =
    let word : (i * 32 + j) / 32 ≡ i = omega arith in
    let place : (i * 32 + j) % 32 ≡ j = omega arith in rw (word, place) hit

take_bit :
    (s : Fs) (i : ℕ)
    → IsReady s
    → i < s.mem s_nblocks / 32
    → s.mem (bitmap + i) ≢ 0
    → (bit (s.mem (bitmap + i)) (find_bit 32 (s.mem (bitmap + i)) 0) ≡ 1)
      × (find_bit 32 (s.mem (bitmap + i)) 0 < 32)
take_bit s i v lt some_bit = elim (find_bit_lem 32 (s.mem (bitmap + i)) 0) [
  | inl (hit, lo, hi) ↦ (hit, omega arith)
  | inr clear ↦ absurd (
      some_bit (
        zero_of_bits 32 (s.mem (bitmap + i)) (v.words (bitmap + i))
          (λ k h. clear k (omega arith) (omega arith))))
]

-- What alloc_block_num runs to once a word is found.
alloc_found :
    (s : Fs) (i : ℕ)
    → IsReady s
    → s.mapped ((bitmap + i) / blkwords) ≡ true
    → find_word (s.mem s_nblocks / 32) 0 s ≡ returns (some i) s
    → alloc_block_num s
      ≡ returns
          (ok (i * 32 + find_bit 32 (s.mem (bitmap + i)) 0))
          (taken s i (find_bit 32 (s.mem (bitmap + i)) 0))
unfolding alloc_block_num
alloc_found s i v there e = ground (arith, v.super_known, v.bitmap_known, v.super_mapped)

alloc_none :
    (s : Fs)
    → IsReady s
    → find_word (s.mem s_nblocks / 32) 0 s ≡ returns none s
    → alloc_block_num s ≡ returns (err e_no_disk) s
unfolding alloc_block_num
alloc_none s v e = ground (arith, v.super_known, v.bitmap_known, v.super_mapped)

nblocks-taken : (s : Fs) (i j : ℕ) → (taken s i j).mem s_nblocks ≡ s.mem s_nblocks
nblocks-taken s i j = ground arith

-- Once the file system is read in, alloc_block_num ends without a panic: either it returns a block
-- whose bit said free, clears that bit and no other bit of any block, and keeps the number of
-- blocks, or it returns -E_NO_DISK, changes nothing, and no block of the whole words is free.
pub alloc_block_num_lem : (s : Fs) → IsReady s → Allocated s (alloc_block_num s)
alloc_block_num_lem s v =
    let n : ℕ = s.mem s_nblocks / 32 in
    cases (find_word_lem n 0 s (λ k lt. v.bitmap_mapped k (omega arith)))
  where
    cases :
        (o : Option ℕ) × (find_word (s.mem s_nblocks / 32) 0 s ≡ returns o s)
          × FoundWord s 0 (s.mem s_nblocks / 32) o
        → Allocated s (alloc_block_num s)
    cases (none, runs, zeros) = rw (alloc_none s v runs) (full (all_zero s zeros))
    cases (some i, runs, (lo, hi, some_bit)) =
        let j : ℕ = find_bit 32 (s.mem (bitmap + i)) 0 in
        let (hit, small) = take_bit s i v (omega arith) some_bit in
        rw (alloc_found s i v (v.bitmap_mapped i (omega arith)) runs) (
          block (i * 32 + j) (taken s i j) (omega arith) (free_here s i j hit small)
            (λ c. free_bit-taken s i j c small) (nblocks-taken s i j))

-- free_block sets the bit of its block and of no other one; the block 0 panics.
free_block_lem :
    (s : Fs) (b : ℕ)
    → IsReady s
    → b ≢ 0
    → b < s.mem s_nblocks
    → (t : Fs) × (free_block b s ≡ returns tt t)
      × ((c : ℕ) → free_bit t c ≡ (if c == b then 1 else free_bit s c))
unfolding free_block free_bit
free_block_lem s b v nonzero lt = (
  record s {
    mem = update s.mem (bitmap + b / 32) (bit_or (s.mem (bitmap + b / 32)) (2 ^ (b % 32)));
    dirty = update s.dirty ((bitmap + b / 32) / blkwords) true;
  },
  ground (arith, v.bitmap_known, v.bitmap_mapped (b / 32) (omega arith)),
  λ c. ground (arith, bit-set (s.mem (bitmap + b / 32)) (b % 32) (c % 32)),
)
