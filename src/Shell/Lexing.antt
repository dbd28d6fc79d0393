-- ===== src/Shell/Lexing.antt =====
-- The tokens of a command line, and that the tokenizer of user/sh.c gives them.
use kludgeos.Base.{
  ℕ, zero, suc, ◌+◌, ◌≤◌, ◌<◌, ◌≡◌, refl, sym, ◌∙◌, ◌≢◌, Bool, true, false, Bool-cases, inl, inr,
  ◌||◌, if◌then◌else◌, update, List, [], ◌∷◌, ◌++◌, length, some, arith,
}
use kludgeos.Clib.Str.{Mem}
use kludgeos.Clib.Str.Measure.{IsString}
use kludgeos.Shell.{whitespace, symbols, strchr_of, skip_whitespace, word_end}

pub data Token : Type 0 where
  end_of_line : Token
  symbol : ℕ → Token
  word : List ℕ → Token

abbrev pub is_blank : ℕ → Bool
is_blank c = strchr_of whitespace c

abbrev pub is_symbol : ℕ → Bool
is_symbol c = strchr_of symbols c

abbrev pub drop_blanks : List ℕ → List ℕ
drop_blanks [] = []
drop_blanks (x ∷ xs) = if is_blank x then drop_blanks xs else x ∷ xs

-- The first word, and what follows it.
abbrev pub first_word : List ℕ → List ℕ
first_word [] = []
first_word (x ∷ xs) = if is_blank x || is_symbol x then [] else x ∷ first_word xs

abbrev pub after_word : List ℕ → List ℕ
after_word [] = []
after_word (x ∷ xs) = if is_blank x || is_symbol x then x ∷ xs else after_word xs

abbrev pub token_of : List ℕ → Token × List ℕ
token_of [] = (end_of_line, [])
token_of (x ∷ xs) =
    if is_symbol x then (symbol x, xs) else (word (first_word (x ∷ xs)), after_word (x ∷ xs))

-- The first token of a line, and the rest of the line.
abbrev pub lex : List ℕ → Token × List ℕ
lex xs = token_of (drop_blanks xs)

abbrev pub code_of : Token → ℕ
code_of end_of_line = 0
code_of (symbol c) = c
code_of (word w) = b'w'

-- The bytes `xs`, none of them 0, stand at `s`.
abbrev pub Bytes : Mem → ℕ → List ℕ → Type 0
Bytes m s [] = Unit {0}
Bytes m s (x ∷ xs) = (m s ≡ x) × (x ≢ 0) × Bytes m (s + 1) xs

pub IsString-same :
    (m m' : Mem) (s : ℕ) (xs : List ℕ)
    → ((a : ℕ) → s ≤ a → m' a ≡ m a)
    → IsString m s xs
    → IsString m' s xs
IsString-same m m' s [] same str = ground (arith, same s (omega arith))
IsString-same m m' s (x ∷ xs) same (at, ne, more) = (
  ground (arith, same s (omega arith)),
  ne,
  IsString-same m m' (s + 1) xs (λ a le. same a (omega arith)) more,
)

true-false : true ≢ false
true-false e = ground (arith, e)

zero_not_blank : is_blank 0 ≡ false
unfolding strchr_of
zero_not_blank = refl

pub drop_blanks-stop : (x : ℕ) (xs : List ℕ) → is_blank x ≡ false → drop_blanks (x ∷ xs) ≡ x ∷ xs
drop_blanks-stop x xs other = rw other refl

drop_blanks-skip : (x : ℕ) (xs : List ℕ) → is_blank x ≡ true → drop_blanks (x ∷ xs) ≡ drop_blanks xs
drop_blanks-skip x xs blank = rw blank refl

-- The loop goes on from white space, which it overwrites, and stops at all else.
abbrev pub Advances : Mem → ℕ → ℕ → List ℕ → Type 0
Advances m s s' [] = s ≡ s'
Advances m s s' (x ∷ xs) =
    (is_blank x ≡ true → (s < s') × (m s ≡ 0)) × (is_blank x ≡ false → s ≡ s')

-- The first loop stops at the first byte that is not white space.
abbrev Skips : ℕ → Mem → ℕ → List ℕ → Type 0
Skips f m s xs =
    (s' : ℕ) × (m' : Mem) × (skip_whitespace f m s ≡ some (s', m'))
    × (s ≤ s')
    × IsString m' s' (drop_blanks xs)
    × ((a : ℕ) → a < s → m' a ≡ m a)
    × Advances m' s s' xs

pub skip_whitespace_lem :
    (f : ℕ) (m : Mem) (s : ℕ) (xs : List ℕ) → IsString m s xs → length xs < f → Skips f m s xs
unfolding skip_whitespace
skip_whitespace_lem zero m s xs str lt = absurd (omega arith)
skip_whitespace_lem (suc f) m s [] str lt =
    (s, m, ground (arith, str, zero_not_blank), omega arith, str, λ a h. refl, refl)
skip_whitespace_lem (suc f) m s (x ∷ xs) (at, ne, more) lt = elim (Bool-cases (is_blank x)) [
  | inr other ↦ (
    s,
    m,
    ground (arith, at, other),
    omega arith,
    rw (drop_blanks-stop x xs other) (at, ne, more),
    λ a h. refl,
    (λ blank. absurd (true-false (sym blank ∙ other)), λ h. refl),
  )
  | inl blank ↦
      let (s', m', run, le, str', below, _) =
        skip_whitespace_lem f (update m s 0) (s + 1) xs
          (IsString-same m (update m s 0) (s + 1) xs (λ a h. ground arith) more) (omega arith) in
      (
        s',
        m',
        ground (arith, at, blank, run),
        omega arith,
        rw (drop_blanks-skip x xs blank) str',
        λ a h. ground (arith, below a (omega arith)),
        (
          λ h. (omega arith, ground (arith, below s (omega arith))),
          λ plain. absurd (true-false (sym blank ∙ plain)),
        ),
      )
]

zero_not_symbol : is_symbol 0 ≡ false
unfolding strchr_of
zero_not_symbol = refl

-- A byte that ends a word.
abbrev ends_word : ℕ → Bool
ends_word c = is_blank c || is_symbol c

-- The rest of a line after a word: it is empty, or such a byte comes first.
abbrev pub Delimited : List ℕ → Type 0
Delimited [] = Unit {0}
Delimited (x ∷ xs) = ends_word x ≡ true

strchr_of-append :
    (xs ys : List ℕ) (c : ℕ) → strchr_of (xs ++ ys) c ≡ (strchr_of xs c || strchr_of ys c)
unfolding strchr_of
strchr_of-append [] ys c = refl
strchr_of-append (x ∷ xs) ys c = ground (arith, strchr_of-append xs ys c)

module _ (x : ℕ) (xs : List ℕ) where
  first_word-ends : ends_word x ≡ true → first_word (x ∷ xs) ≡ []
  first_word-ends ends = rw ends refl

  first_word-goes : ends_word x ≡ false → first_word (x ∷ xs) ≡ x ∷ first_word xs
  first_word-goes goes = rw goes refl

  after_word-ends : ends_word x ≡ true → after_word (x ∷ xs) ≡ x ∷ xs
  after_word-ends ends = rw ends refl

  after_word-goes : ends_word x ≡ false → after_word (x ∷ xs) ≡ after_word xs
  after_word-goes goes = rw goes refl

-- The second loop stops where the word does.
abbrev EndsWord : ℕ → Mem → ℕ → List ℕ → Type 0
EndsWord f m s xs =
    (e : ℕ) × (word_end f m s ≡ some e)
    × (e ≡ s + length (first_word xs))
    × Bytes m s (first_word xs)
    × IsString m e (after_word xs)
    × Delimited (after_word xs)

pub word_end_lem :
    (f : ℕ) (m : Mem) (s : ℕ) (xs : List ℕ) → IsString m s xs → length xs < f → EndsWord f m s xs
unfolding word_end
word_end_lem zero m s xs str lt = absurd (omega arith)
word_end_lem (suc f) m s [] str lt = (s, ground (arith, str), omega arith, tt, str, tt)
word_end_lem (suc f) m s (x ∷ xs) (at, ne, more) lt = elim (Bool-cases (ends_word x)) [
  | inl ends ↦ (
    s,
    ground (arith, at, ends, strchr_of-append whitespace symbols x),
    rw (first_word-ends x xs ends) (omega arith),
    rw (first_word-ends x xs ends) tt,
    rw (after_word-ends x xs ends) (at, ne, more),
    rw (after_word-ends x xs ends) ends,
  )
  | inr goes ↦
      let (e, run, at_e, bytes, str', delim) = word_end_lem f m (s + 1) xs more (omega arith) in
      (
        e,
        ground (arith, at, ne, goes, run, strchr_of-append whitespace symbols x),
        rw (first_word-goes x xs goes) (omega (arith, at_e)),
        rw (first_word-goes x xs goes) (at, ne, bytes),
        rw (after_word-goes x xs goes) str',
        rw (after_word-goes x xs goes) delim,
      )
]
