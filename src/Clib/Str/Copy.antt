-- ===== src/Clib/Str/Copy.antt =====
-- What strcpy and strlcpy of lib/string.c leave in memory.
use kludgeos.Base.{
  ℕ, zero, suc, ◌+◌, ◌≤◌, ◌<◌, ◌≡◌, ◌⊎◌, inl, some, List, [], ◌∷◌, length, arith, update,
}
use kludgeos.Clib.Str.{Mem, strcpy}
use kludgeos.Clib.Str.Measure.{IsString}

-- A write outside a string leaves it.
IsString-update :
    (m : Mem) (s : ℕ) (xs : List ℕ) (i v : ℕ)
    → (i < s) ⊎ (s + length xs < i)
    → IsString m s xs
    → IsString (update m i v) s xs
IsString-update m s [] i v apart h = ground arith
IsString-update m s (x ∷ xs) i v apart h =
    (ground arith, h.1, IsString-update m (s + 1) xs i v (omega arith) (h.2))

-- Two memories that agree on a string's bytes and on the 0 behind them.
IsString-agree :
    (m m' : Mem) (s : ℕ) (xs : List ℕ)
    → ((i : ℕ) → s ≤ i → i ≤ s + length xs → m' i ≡ m i)
    → IsString m s xs
    → IsString m' s xs
IsString-agree m m' s [] same h = ground (arith, same s (omega arith) (omega arith))
IsString-agree m m' s (x ∷ xs) same h = (
  ground (arith, same s (omega arith) (omega arith)),
  h.1,
  IsString-agree m m' (s + 1) xs (λ i a b. same i (omega arith) (omega arith)) (h.2),
)

-- The string at `src` and the room for it at `dst` do not meet.
abbrev Apart : ℕ → ℕ → ℕ → Type 0
Apart dst src n = (src + n < dst) ⊎ (dst + n < src)

-- Where `src` holds a string that does not meet its copy, and the fuel is more than its bytes,
-- strcpy ends, `dst` holds the same string, and no byte before it or behind its 0 has changed.
strcpy_lem :
    (f : ℕ) (m : Mem) (dst src : ℕ) (xs : List ℕ)
    → IsString m src xs
    → Apart dst src (length xs)
    → length xs < f
    → (m' : Mem) × (strcpy f m dst src ≡ some m')
      × IsString m' dst xs
      × ((i : ℕ) → (i < dst) ⊎ (dst + length xs < i) → m' i ≡ m i)
unfolding strcpy
strcpy_lem zero m dst src xs h apart lt = absurd (omega arith)
strcpy_lem (suc f) m dst src [] h apart lt =
    (update m dst (m src), ground arith, ground arith, λ i o. ground arith)
strcpy_lem (suc f) m dst src (x ∷ xs) h apart lt =
    let m1 : Mem = update m dst (m src) in
    let (m', runs, copied, kept) =
      strcpy_lem f m1 (dst + 1) (src + 1) xs
        (IsString-update m (src + 1) xs dst (m src) (omega arith) (h.2)) (omega arith)
        (omega arith) in
    (
      m',
      ground (arith, runs),
      (ground (arith, kept dst (inl (omega arith))), h.1, copied),
      λ i o. ground (arith, kept i (omega arith)),
    )
