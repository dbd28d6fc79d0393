-- ===== src/Clib/Str/Measure.antt =====
-- What the searching and comparing functions of lib/string.c return on a string in memory.
use kludgeos.Base.{
  ℕ, zero, suc, ◌+◌, ◌<◌, min, ◌≡◌, refl, ◌≢◌, ◌↔◌, some, List, [], ◌∷◌, ◌==◌, length, arith,
  if◌then◌else◌,
}
use kludgeos.Clib.Str.{
  Mem, Difference, byte_diff, strlen, strlen_loop, strnlen, strnlen_loop, strcmp,
}

-- The bytes `xs`, none of them 0, stand at `s`, and a 0 behind them.
abbrev pub IsString : Mem → ℕ → List ℕ → Type 0
IsString m s [] = m s ≡ 0
IsString m s (x ∷ xs) = (m s ≡ x) × (x ≢ 0) × IsString m (s + 1) xs

strlen_loop_lem :
    (f : ℕ) (m : Mem) (s n : ℕ) (xs : List ℕ)
    → IsString m s xs
    → length xs < f
    → strlen_loop f m s n ≡ some (n + length xs)
unfolding strlen_loop
strlen_loop_lem zero m s n xs h lt = absurd (omega arith)
strlen_loop_lem (suc f) m s n [] h lt = ground arith
strlen_loop_lem (suc f) m s n (x ∷ xs) h lt =
    ground (arith, strlen_loop_lem f m (s + 1) (n + 1) xs (h.2) (omega arith))

-- On a string, with more fuel than it has bytes, strlen ends and returns the number of its bytes.
strlen_lem :
    (f : ℕ) (m : Mem) (s : ℕ) (xs : List ℕ)
    → IsString m s xs
    → length xs < f
    → strlen f m s ≡ some (length xs)
unfolding strlen
strlen_lem f m s xs h lt = ground (arith, strlen_loop_lem f m s 0 xs h lt)

strnlen_loop_lem :
    (size : ℕ) (m : Mem) (s n : ℕ) (xs : List ℕ)
    → IsString m s xs
    → strnlen_loop size m s n ≡ n + min size (length xs)
unfolding strnlen_loop
strnlen_loop_lem zero m s n xs h = omega arith
strnlen_loop_lem (suc size) m s n [] h = ground arith
strnlen_loop_lem (suc size) m s n (x ∷ xs) h =
    ground (arith, strnlen_loop_lem size m (s + 1) (n + 1) xs (h.2))

-- strnlen returns the smaller of its bound and the number of the string's bytes.
strnlen_lem :
    (m : Mem) (s size : ℕ) (xs : List ℕ) → IsString m s xs → strnlen m s size ≡ min size (length xs)
unfolding strnlen
strnlen_lem m s size xs h = omega (arith, strnlen_loop_lem size m s 0 xs h)

-- The sign and size that strcmp finds: those of the first difference, the 0 at the end included.
compare_strings : List ℕ → List ℕ → Difference
unfolding byte_diff
compare_strings [] [] = byte_diff 0 0
compare_strings [] (y ∷ ys) = byte_diff 0 y
compare_strings (x ∷ xs) [] = byte_diff x 0
compare_strings (x ∷ xs) (y ∷ ys) =
    let rest = compare_strings xs ys in if x == y then rest else byte_diff x y

strcmp_compares :
    (f : ℕ) (m : Mem) (p q : ℕ) (xs ys : List ℕ)
    → IsString m p xs
    → IsString m q ys
    → length xs < f
    → strcmp f m p q ≡ some (compare_strings xs ys)
unfolding strcmp compare_strings
strcmp_compares zero m p q xs ys h h' lt = absurd (omega arith)
strcmp_compares (suc f) m p q [] [] h h' lt = ground arith
strcmp_compares (suc f) m p q [] (y ∷ ys) h h' lt = ground arith
strcmp_compares (suc f) m p q (x ∷ xs) [] h h' lt = ground arith
strcmp_compares (suc f) m p q (x ∷ xs) (y ∷ ys) h h' lt =
    ground (arith, strcmp_compares f m (p + 1) (q + 1) xs ys (h.2) (h'.2) (omega arith))

compare_zero :
    (xs ys : List ℕ) (m : Mem) (p q : ℕ)
    → IsString m p xs
    → IsString m q ys
    → (compare_strings xs ys).magnitude ≡ 0
    → xs ≡ ys
unfolding compare_strings
compare_zero [] [] m p q h h' e = refl
compare_zero [] (y ∷ ys) m p q h h' e = absurd (ground arith)
compare_zero (x ∷ xs) [] m p q h h' e = absurd (ground arith)
compare_zero (x ∷ xs) (y ∷ ys) m p q h h' e =
    ground (arith, compare_zero xs ys m (p + 1) (q + 1) (h.2) (h'.2))

compare_self : (xs : List ℕ) → (compare_strings xs xs).magnitude ≡ 0
unfolding compare_strings
compare_self [] = refl
compare_self (x ∷ xs) = ground (arith, compare_self xs)

compare_eq : (xs ys : List ℕ) → xs ≡ ys → (compare_strings xs ys).magnitude ≡ 0
compare_eq xs ys e = ground (arith, compare_self xs)

-- On two strings, with more fuel than the first has bytes, strcmp ends, and its result is 0
-- exactly when the strings are equal.
strcmp_zero_iff :
    (f : ℕ) (m : Mem) (p q : ℕ) (xs ys : List ℕ)
    → IsString m p xs
    → IsString m q ys
    → length xs < f
    → (r : Difference) × (strcmp f m p q ≡ some r) × ((r.magnitude ≡ 0) ↔ (xs ≡ ys))
strcmp_zero_iff f m p q xs ys h h' lt = (
  compare_strings xs ys,
  strcmp_compares f m p q xs ys h h' lt,
  (compare_zero xs ys m p q h h', compare_eq xs ys),
)
