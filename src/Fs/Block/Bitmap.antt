-- ===== src/Fs/Block/Bitmap.antt =====
-- The bits of the block bitmap of fs/fs.c: a block is free where its bit is 1.
use kludgeos.Base.{
  holds_on, holds_on-true, ℕ, zero, suc, ◌+◌, ◌/◌, ◌%◌, ◌^◌, ◌≤◌, ◌<◌, ◌≡◌, refl, ◌⊎◌, inl, inr,
  Bool, true, ◌==◌, if◌then◌else◌, Bool-cases, ==→eq, has, bit, bit_and, bit_or, bit_and-bit,
  bit_or-bit, bit_pow, bit-lt, has_pow, arith,
}
use native.Mathlib.Nat.{pow-suc}
use kludgeos.Fs.Disk.{Fs, bitmap}
use kludgeos.Fs.Block.{find_bit, clear_mask}

-- The bit of a block.
unfoldable pub free_bit : Fs → ℕ → ℕ
free_bit s b = bit (s.mem (bitmap + b / 32)) (b % 32)

abbrev mask_row : ℕ → ℕ → Bool
mask_row j i = bit (clear_mask j) i == (if i == j then 0 else 1)

mask_table : holds_on (λ j. holds_on (mask_row j) 0 32) 0 32 ≡ true
unfolding holds_on bit
mask_table = refl

bit-clear_mask : (j i : ℕ) → j < 32 → i < 32 → bit (clear_mask j) i ≡ (if i == j then 0 else 1)
bit-clear_mask j i hj hi = ==→eq (bit (clear_mask j) i) (if i == j then 0 else 1) (
    holds_on-true (mask_row j) 32 0 i
      (holds_on-true (λ k. holds_on (mask_row k) 0 32) 32 0 j mask_table (omega arith) hj)
      (omega arith) hi)

-- Clearing one bit of a word.
pub bit-cleared :
    (w j i : ℕ)
    → j < 32
    → i < 32
    → bit (bit_and w (clear_mask j)) i ≡ (if i == j then 0 else bit w i)
bit-cleared w j i hj hi =
    ground (arith, bit_and-bit i w (clear_mask j), bit-clear_mask j i hj hi, bit-lt w i)

-- Setting one.
pub bit-set : (w j i : ℕ) → bit (bit_or w (2 ^ j)) i ≡ (if i == j then 1 else bit w i)
bit-set w j i = ground (arith, bit_or-bit i w (2 ^ j), bit_pow j i, bit-lt w i)

-- A word whose low bits are all 0 is 0.
pub zero_of_bits : (n w : ℕ) → w < 2 ^ n → ((i : ℕ) → i < n → bit w i ≡ 0) → w ≡ 0
unfolding bit
zero_of_bits zero w h bits = omega arith
zero_of_bits (suc n) w h bits =
    let half : w / 2 ≡ 0 =
      zero_of_bits n (w / 2) (omega (arith, pow-suc 2 n)) (λ i lt. bits (suc i) (omega arith)) in
    omega (arith, bits 0 (omega arith))

-- The second loop of alloc_block_num finds a bit that is set, or there is none.
pub find_bit_lem :
    (n w j : ℕ)
    → ((bit w (find_bit n w j) ≡ 1) × (j ≤ find_bit n w j) × (find_bit n w j < j + n))
      ⊎ ((i : ℕ) → j ≤ i → i < j + n → bit w i ≡ 0)
unfolding find_bit
find_bit_lem zero w j = inr (λ i a b. absurd (omega arith))
find_bit_lem (suc n) w j = elim (Bool-cases (has w (2 ^ j))) [
  | inl e ↦ inl (ground (arith, has_pow w j))
  | inr e ↦ elim (find_bit_lem n w (j + 1)) [
    | inl (hit, lo, hi) ↦ inl (ground arith)
    | inr clear ↦ inr (λ i a b. ground (arith, clear i, has_pow w j, bit-lt w j))
  ]
]
