-- ===== src/Clib/Moves/Copies.antt =====
-- memset, memmove and memcpy move and fill whole ranges, whatever the units and the overlap.
use kludgeos.Base.{
  ℕ, zero, suc, ◌+◌, ◌-◌, ◌*◌, ◌/◌, ◌%◌, ◌^◌, ◌≤◌, ◌<◌, ◌≡◌, refl, ◌∙◌, ap, ◌⊎◌, inl, inr, true,
  ◌==◌, if◌then◌else◌, holds_on, holds_on-true, ==→eq, arith,
}
use native.Mathlib.Nat.{suc-mul}
use kludgeos.Clib.Str.{Mem}
use kludgeos.Clib.Moves.{
  in_range, movs, rep_movs_up, rep_movs_down, memmove, stos, rep_stos, four_times, memset,
}

-- The memory `m` with `n` bytes from `src` copied to `dst` at once.
abbrev pub copied : Mem → ℕ → ℕ → ℕ → Mem
copied m dst src n i = if in_range dst n i then m (src + (i - dst)) else m i

-- Reads at equal addresses.
same_byte : (m : Mem) (a b : ℕ) → a ≡ b → m a ≡ m b
same_byte m a b e = ap m e

rep_movs_up-copied :
    (u n : ℕ) (m : Mem) (d s i : ℕ)
    → (d ≤ s) ⊎ (s + n * u ≤ d)
    → rep_movs_up u n m d s i ≡ copied m d s (n * u) i
unfolding rep_movs_up movs
rep_movs_up-copied u zero m d s i apart = ground arith
rep_movs_up-copied u (suc n) m d s i apart =
    rep_movs_up-copied u n (movs u m d s) (d + u) (s + u) i (ground (arith, suc-mul n u)) ∙ step
  where
    step : copied (movs u m d s) (d + u) (s + u) (n * u) i ≡ copied m d s (suc n * u) i
    step = ground (
      arith,
      suc-mul n u,
      λ (h : d + u ≤ i). same_byte m (s + u + (i - (d + u))) (s + (i - d)) (omega arith),
    )

rep_movs_down-copied :
    (u n : ℕ) (m : Mem) (b c d s i : ℕ)
    → c ≤ b
    → (n ≡ 0) ⊎ ((d + u ≡ b + n * u) × (s + u ≡ c + n * u))
    → rep_movs_down u n m d s i ≡ copied m b c (n * u) i
unfolding rep_movs_down movs
rep_movs_down-copied u zero m b c d s i le at = ground arith
rep_movs_down-copied u (suc n) m b c d s i le at =
    rep_movs_down-copied u n (movs u m d s) b c (d - u) (s - u) i le
      (rest n (ground arith) (ground arith))
    ∙ step
  where
    rest :
        (k : ℕ)
        → d + u ≡ b + suc k * u
        → s + u ≡ c + suc k * u
        → (k ≡ 0) ⊎ ((d - u + u ≡ b + k * u) × (s - u + u ≡ c + k * u))
    rest zero p q = inl refl
    rest (suc k) p q = inr (
      omega (arith, suc-mul (suc k) u, suc-mul k u),
      omega (arith, suc-mul (suc k) u, suc-mul k u),
    )

    step : copied (movs u m d s) b c (n * u) i ≡ copied m b c (suc n * u) i
    step = ground (
      arith,
      suc-mul n u,
      λ (h : d ≤ i). same_byte m (s + (i - d)) (c + (i - b)) (omega (arith, suc-mul n u)),
    )

-- However the ranges overlap, and whether memmove moves words or bytes, upwards or downwards: at
-- the end each byte of the destination is the one that the source had at the start, and no other
-- byte has changed.
pub memmove_lem : (m : Mem) (dst src n i : ℕ) → memmove m dst src n i ≡ copied m dst src n i
unfolding memmove
memmove_lem m dst src n i = ground (arith, words, bytes, words_down, bytes_down)
  where
    words :
        (n % 4 ≡ 0)
        → ((dst ≤ src) ⊎ (src + n ≤ dst))
        → rep_movs_up 4 (n / 4) m dst src i ≡ copied m dst src n i
    words h a = rep_movs_up-copied 4 (n / 4) m dst src i (ground arith) ∙ ground arith

    bytes : ((dst ≤ src) ⊎ (src + n ≤ dst)) → rep_movs_up 1 n m dst src i ≡ copied m dst src n i
    bytes a = rep_movs_up-copied 1 n m dst src i (ground arith) ∙ ground arith

    words_down :
        (n % 4 ≡ 0)
        → (src < dst)
        → (dst < src + n)
        → rep_movs_down 4 (n / 4) m (dst + n - 4) (src + n - 4) i ≡ copied m dst src n i
    words_down h lt lt' =
        rep_movs_down-copied 4 (n / 4) m dst src (dst + n - 4) (src + n - 4) i (omega arith)
          (inr (omega arith))
        ∙ ground arith

    bytes_down :
        (src < dst)
        → (dst < src + n)
        → rep_movs_down 1 n m (dst + n - 1) (src + n - 1) i ≡ copied m dst src n i
    bytes_down lt lt' =
        rep_movs_down-copied 1 n m dst src (dst + n - 1) (src + n - 1) i (omega arith)
          (inr (omega arith))
        ∙ ground arith

rep_stos_lem :
    (u n : ℕ) (m : Mem) (d w c i : ℕ)
    → ((k : ℕ) → k < u → w / 256 ^ k % 256 ≡ c)
    → rep_stos u n m d w i ≡ (if in_range d (n * u) i then c else m i)
unfolding rep_stos stos
rep_stos_lem u zero m d w c i all = ground arith
rep_stos_lem u (suc n) m d w c i all = rep_stos_lem u n (stos u m d w) (d + u) w c i all ∙ step
  where
    step :
        (if in_range (d + u) (n * u) i then c else stos u m d w i)
        ≡ (if in_range d (suc n * u) i then c else m i)
    step = ground (arith, suc-mul n u, all (i - d))

four_times_table :
    holds_on (λ c. holds_on (λ k. four_times c / 256 ^ k % 256 == c) 0 4) 0 256 ≡ true
unfolding holds_on four_times
four_times_table = refl

four_times_byte : (c k : ℕ) → c < 256 → k < 4 → four_times c / 256 ^ k % 256 ≡ c
four_times_byte c k hc hk = ==→eq _ _ (
    holds_on-true (λ j. four_times c / 256 ^ j % 256 == c) 4 0 k
      (holds_on-true (λ b. holds_on (λ j. four_times b / 256 ^ j % 256 == b) 0 4) 256 0 c
        four_times_table (omega arith) hc)
      (omega arith) hk)

-- memset writes the low byte of `c` to the `n` bytes from `v` on, and no other byte.
memset_lem : (m : Mem) (v c n i : ℕ) → memset m v c n i ≡ (if in_range v n i then c % 256 else m i)
unfolding memset
memset_lem m v c n i = ground (arith, words, bytes)
  where
    words :
        (n % 4 ≡ 0)
        → rep_stos 4 (n / 4) m v (four_times (c % 256)) i
          ≡ (if in_range v n i then c % 256 else m i)
    words h =
        rep_stos_lem 4 (n / 4) m v (four_times (c % 256)) (c % 256) i
          (λ k hk. four_times_byte (c % 256) k (omega arith) hk)
        ∙ ground arith

    byte : (k : ℕ) → k < 1 → c / 256 ^ k % 256 ≡ c % 256
    byte zero h = ground arith
    byte (suc k) h = absurd (omega arith)

    bytes : rep_stos 1 n m v c i ≡ (if in_range v n i then c % 256 else m i)
    bytes = rep_stos_lem 1 n m v c (c % 256) i byte ∙ ground arith
