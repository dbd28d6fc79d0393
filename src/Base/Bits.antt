-- ===== src/Base/Bits.antt =====
-- The binary digits of a number, and what `bit_and` and `bit_or` do to them.
use Prim.Native.Nat.{
  ℕ, zero, suc, ◌+◌, ◌*◌, ◌/◌, ◌%◌, ◌^◌, ◌≤◌, ◌<◌, min, max, bit_and, bit_or, digits, bitwise,
  bit_and-bitwise, bit_or-bitwise,
}
use mathlib.Core.Path.{◌≡◌, refl, ap, ap₂, ◌∙◌}
use mathlib.Core.Logic.{◌⊎◌, inl, inr}
use mathlib.Core.Bool.{Bool, not}
use native.Mathlib.Nat.{pow-suc, one-le-pow}
use native.Mathlib.Omega.{arith}
use kludgeos.Base.Tests.{◌==◌, if◌then◌else◌}

-- Bit `i` of a word.
unfoldable pub bit : ℕ → ℕ → ℕ
bit x zero = x % 2
bit x (suc i) = bit (x / 2) i

-- `x & m` as a test.
abbrev pub has : ℕ → ℕ → Bool
has x m = not (bit_and x m == 0)

module _ (z : ℕ → ℕ) (f : ℕ → ℕ → ℕ) where
  -- One digit to go more than the first number has changes nothing.
  spare_digit : (k a b : ℕ) → a ≤ k → digits z f (suc k) a b ≡ digits z f k a b
  spare_digit zero zero b h = refl
  spare_digit zero (suc a) b h = absurd (omega arith)
  spare_digit (suc k) zero b h = refl
  spare_digit (suc k) (suc a) b h = omega (arith, spare_digit k (suc a / 2) (b / 2) (omega arith))

  exact_digits : (k a b : ℕ) → a ≤ k → digits z f k a b ≡ bitwise z f a b
  exact_digits zero zero b h = refl
  exact_digits zero (suc a) b h = absurd (omega arith)
  exact_digits (suc k) a b h = elim (le_cases a k h) [
    | inl below ↦ spare_digit k a b below ∙ exact_digits k a b below
    | inr top ↦ rw top refl
  ]
    where
      le_cases : (x y : ℕ) → x ≤ suc y → (x ≤ y) ⊎ (x ≡ suc y)
      le_cases x y l = omega arith

  lowest_digit :
      (a b : ℕ)
      → bitwise z f (suc a) b ≡ bitwise z f (suc a / 2) (b / 2) * 2 + f (suc a % 2) (b % 2)
  lowest_digit a b = omega (arith, exact_digits a (suc a / 2) (b / 2) (omega arith))

pub bit_or_step : (x y : ℕ) → bit_or x y ≡ bit_or (x / 2) (y / 2) * 2 + max (x % 2) (y % 2)
bit_or_step zero y = omega (arith, bit_or-bitwise 0 y, bit_or-bitwise 0 (y / 2))
bit_or_step (suc x) y = omega (
  arith,
  lowest_digit (λ b. b) max x y,
  bit_or-bitwise (suc x) y,
  bit_or-bitwise (suc x / 2) (y / 2),
)

bit_and_step : (x y : ℕ) → bit_and x y ≡ bit_and (x / 2) (y / 2) * 2 + min (x % 2) (y % 2)
bit_and_step zero y = omega (arith, bit_and-bitwise 0 y, bit_and-bitwise 0 (y / 2))
bit_and_step (suc x) y = omega (
  arith,
  lowest_digit (λ b. 0) min x y,
  bit_and-bitwise (suc x) y,
  bit_and-bitwise (suc x / 2) (y / 2),
)

-- Two functions that agree at 0 and have the same lowest digits are the same.
same_halves :
    (g h : ℕ → ℕ) (d : ℕ → ℕ)
    → g 0 ≡ h 0
    → ((a : ℕ) → g a ≡ g (a / 2) * 2 + d a)
    → ((a : ℕ) → h a ≡ h (a / 2) * 2 + d a)
    → (n a : ℕ) → a ≤ n
    → g a ≡ h a
same_halves g h d start left right n zero below = start
same_halves g h d start left right zero (suc a) below = absurd (omega arith)
same_halves g h d start left right (suc n) (suc a) below = omega (
  arith,
  left (suc a),
  right (suc a),
  same_halves g h d start left right n (suc a / 2) (omega arith),
)

pub bit_or-zero : (a : ℕ) → bit_or a 0 ≡ a
bit_or-zero a =
    same_halves (λ x. bit_or x 0) (λ x. x) (λ x. x % 2) refl (λ x. omega (arith, bit_or_step x 0))
      (λ x. omega arith) a a (omega arith)

bit_and-zero : (a : ℕ) → bit_and a 0 ≡ 0
bit_and-zero a =
    same_halves (λ x. bit_and x 0) (λ x. 0) (λ x. 0) refl (λ x. omega (arith, bit_and_step x 0))
      (λ x. omega arith) a a (omega arith)

-- A conjunction has no more digits than its second number.
pub bit_and-lt : (k x y : ℕ) → y < 2 ^ k → bit_and x y < 2 ^ k
bit_and-lt zero x y lt = rw (only y lt) (omega (arith, bit_and-zero x))
  where
    only : (a : ℕ) → a < 1 → a ≡ 0
    only a h = omega arith
bit_and-lt (suc k) x y lt = omega (
  arith,
  bit_and_step x y,
  pow-suc 2 k,
  bit_and-lt k (x / 2) (y / 2) (omega (arith, lt, pow-suc 2 k)),
)

-- A word is 0 or has its digit-wise conjunction with a single bit decided by that bit.
bit_and_pow : (i x : ℕ) → bit_and x (2 ^ i) ≡ bit x i * 2 ^ i
unfolding bit
bit_and_pow zero x = omega (arith, bit_and_step x 1, bit_and-zero (x / 2))
bit_and_pow (suc i) x = omega (
  arith,
  bit_and_step x (2 ^ suc i),
  pow-suc 2 i,
  ap (bit_and (x / 2)) halved,
  bit_and_pow i (x / 2),
  ap (λ (t : ℕ). bit (x / 2) i * t) (pow-suc 2 i),
)
  where
    halved : 2 ^ suc i / 2 ≡ 2 ^ i
    halved = omega (arith, pow-suc 2 i)

pub bit-lt : (x i : ℕ) → bit x i < 2
unfolding bit
bit-lt x zero = omega arith
bit-lt x (suc i) = bit-lt (x / 2) i

-- `x & (1 << i)` is nonzero exactly when bit `i` is set.
pub has_pow : (x i : ℕ) → has x (2 ^ i) ≡ (bit x i == 1)
has_pow x i = ground (arith, bit_and_pow i x, bit-lt x i, one-le-pow i 2, cases)
  where
    cases : (bit x i ≡ 1 → bit x i * 2 ^ i ≡ 2 ^ i) × (bit x i ≡ 0 → bit x i * 2 ^ i ≡ 0)
    cases = (λ e. rw e (omega arith), λ e. rw e (omega arith))

pub bit_or-bit : (i x y : ℕ) → bit (bit_or x y) i ≡ max (bit x i) (bit y i)
unfolding bit
bit_or-bit zero x y = omega (arith, bit_or_step x y)
bit_or-bit (suc i) x y = ap (λ (t : ℕ). bit t i) halved ∙ bit_or-bit i (x / 2) (y / 2)
  where
    halved : bit_or x y / 2 ≡ bit_or (x / 2) (y / 2)
    halved = omega (arith, bit_or_step x y)

pub bit_and-bit : (i x y : ℕ) → bit (bit_and x y) i ≡ min (bit x i) (bit y i)
unfolding bit
bit_and-bit zero x y = omega (arith, bit_and_step x y)
bit_and-bit (suc i) x y = ap (λ (t : ℕ). bit t i) halved ∙ bit_and-bit i (x / 2) (y / 2)
  where
    halved : bit_and x y / 2 ≡ bit_and (x / 2) (y / 2)
    halved = omega (arith, bit_and_step x y)

pub bit-zero : (j : ℕ) → bit 0 j ≡ 0
unfolding bit
bit-zero zero = refl
bit-zero (suc j) = bit-zero j

pub bit_pow : (i j : ℕ) → bit (2 ^ i) j ≡ (if j == i then 1 else 0)
unfolding bit
bit_pow zero zero = refl
bit_pow zero (suc j) = ground (arith, bit-zero j)
bit_pow (suc i) zero = ground (arith, pow-suc 2 i)
bit_pow (suc i) (suc j) = ground (arith, ap (λ (t : ℕ). bit t j) halved, bit_pow i j)
  where
    halved : 2 ^ suc i / 2 ≡ 2 ^ i
    halved = omega (arith, pow-suc 2 i)

bit_or_cong : (a b c d : ℕ) → a ≡ b → c ≡ d → bit_or a c ≡ bit_or b d
bit_or_cong a b c d p q = ap₂ bit_or p q

bit_or-half : (x y : ℕ) → bit_or x y / 2 ≡ bit_or (x / 2) (y / 2)
bit_or-half x y = omega (arith, bit_or_step x y)

bit_or-quarter : (x y : ℕ) → bit_or x y / 4 ≡ bit_or (x / 4) (y / 4)
bit_or-quarter x y = omega (
  arith,
  bit_or-half x y,
  bit_or-half (x / 2) (y / 2),
  bit_or_cong (x / 2 / 2) (x / 4) (y / 2 / 2) (y / 4) (omega arith) (omega arith),
)

bit_or-sixteenth : (x y : ℕ) → bit_or x y / 16 ≡ bit_or (x / 16) (y / 16)
bit_or-sixteenth x y = omega (
  arith,
  bit_or-quarter x y,
  bit_or-quarter (x / 4) (y / 4),
  bit_or_cong (x / 4 / 4) (x / 16) (y / 4 / 4) (y / 16) (omega arith) (omega arith),
)

-- The page numbers of a disjunction: `x | y` above bit 12.
pub bit_or-page : (x y : ℕ) → bit_or x y / 4096 ≡ bit_or (x / 4096) (y / 4096)
bit_or-page x y = omega (
  arith,
  bit_or-sixteenth x y,
  bit_or-sixteenth (x / 16) (y / 16),
  bit_or-sixteenth (x / 16 / 16) (y / 16 / 16),
  bit_or_cong (x / 16 / 16 / 16) (x / 4096) (y / 16 / 16 / 16) (y / 4096) (omega arith)
      (omega arith),
)
