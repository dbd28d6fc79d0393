-- ===== src/Shell/Tokens.antt =====
-- The calls of gettoken of user/sh.c give the tokens of the line, one after the other.
use kludgeos.Base.{
  ℕ, ◌+◌, ◌≤◌, ◌<◌, ◌≡◌, refl, ◌≢◌, true, false, Bool-cases, inl, inr, update, List, [], ◌∷◌,
  length, Option, some, arith,
}
use kludgeos.Clib.Str.{Mem}
use kludgeos.Clib.Str.Measure.{IsString}
use kludgeos.Shell.{Scan, scan_token, _gettoken, set_string, gettoken}
use kludgeos.Shell.Lexing.{
  Token, end_of_line, symbol, word, is_blank, is_symbol, drop_blanks, first_word, after_word,
  token_of, lex, code_of, Bytes, IsString-same, Delimited, skip_whitespace_lem, word_end_lem,
  Advances, drop_blanks-stop,
}

-- The statics hold the token that comes next and stand before the rest of the line.
abbrev pub Looks : Scan → Token → List ℕ → Type 0
Looks lx end_of_line rest = (lx.token ≡ 0) × (lx.p2 ≡ 0) × (rest ≡ [])
Looks lx (symbol c) rest = (lx.token ≡ c) × (lx.p2 ≢ 0) × IsString lx.mem lx.p2 rest
Looks lx (word w) rest =
    (lx.token ≡ b'w')
    × (lx.p2 ≢ 0)
    × IsString lx.mem lx.p2 rest
    × (lx.p2 ≡ lx.p1 + length w)
    × Bytes lx.mem lx.p1 w
    × Delimited rest

-- The pointer that is returned with a word is that of the word as a string.
abbrev pub IsArgument : Token → Mem → ℕ → Type 0
IsArgument end_of_line m p = Unit {0}
IsArgument (symbol c) m p = Unit {0}
IsArgument (word w) m p = IsString m p w

abbrev pub LooksAt : Scan → Token × List ℕ → Type 0
LooksAt lx (tok, rest) = Looks lx tok rest

-- A symbol that comes first is overwritten.
abbrev Erased : Mem → ℕ → List ℕ → Type 0
Erased m s [] = m s ≡ 0
Erased m s (x ∷ xs) = is_symbol x ≡ true → m s ≡ 0

abbrev Scans : Option Scan → Mem → ℕ → List ℕ → Type 0
Scans run m s xs =
    (lx : Scan) × (run ≡ some lx)
    × LooksAt lx (token_of xs)
    × ((a : ℕ) → a < s → lx.mem a ≡ m a)
    × Erased lx.mem s xs

token_of-symbol : (x : ℕ) (xs : List ℕ) → is_symbol x ≡ true → token_of (x ∷ xs) ≡ (symbol x, xs)
token_of-symbol x xs h = rw h refl

token_of-word :
    (x : ℕ) (xs : List ℕ)
    → is_symbol x ≡ false
    → token_of (x ∷ xs) ≡ (word (first_word (x ∷ xs)), after_word (x ∷ xs))
token_of-word x xs h = rw h refl

scan_token_lem :
    (f : ℕ) (m : Mem) (s : ℕ) (xs : List ℕ)
    → IsString m s xs
    → length xs < f
    → s ≢ 0
    → Scans (scan_token f m s) m s xs
unfolding scan_token
scan_token_lem f m s [] str lt nz = (
  record { token = 0; p1 = 0; p2 = 0; mem = m },
  ground (arith, str),
  (refl, refl, refl),
  λ a h. refl,
  str,
)
scan_token_lem f m s (x ∷ xs) (at, ne, more) lt nz = elim (Bool-cases (is_symbol x)) [
  | inl sign ↦ (
    record { token = m s; p1 = s; p2 = s + 1; mem = update m s 0 },
    ground (arith, at, ne, sign),
    rw (token_of-symbol x xs sign)
        (at, omega arith, IsString-same m (update m s 0) (s + 1) xs (λ a h. ground arith) more),
    λ a h. ground arith,
    λ h. ground arith,
  )
  | inr plain ↦
      let (e, run, at_e, bytes, str', delim) = word_end_lem f m s (x ∷ xs) (at, ne, more) lt in
      (
        record { token = b'w'; p1 = s; p2 = e; mem = m },
        ground (arith, at, ne, plain, run),
        rw (token_of-word x xs plain) (refl, ground (arith, at_e, nz), str', at_e, bytes, delim),
        λ a h. refl,
        λ sign. ground (arith, plain, sign),
      )
]

length-drop_blanks : (xs : List ℕ) → length (drop_blanks xs) ≤ length xs
length-drop_blanks [] = omega arith
length-drop_blanks (x ∷ xs) = ground (arith, length-drop_blanks xs)

-- What _gettoken does at the line `xs`.
abbrev Gets : Option Scan → Mem → ℕ → List ℕ → Type 0
Gets run m s xs =
    (lx : Scan) × (run ≡ some lx)
    × LooksAt lx (lex xs)
    × ((a : ℕ) → a < s → lx.mem a ≡ m a)
    × (Delimited xs → lx.mem s ≡ 0)

-- White space, a symbol and the end of the line end a word: a 0 takes the place of the first two.
terminated :
    (m m' : Mem) (s s' : ℕ) (xs : List ℕ)
    → Advances m s s' xs
    → ((a : ℕ) → a < s' → m' a ≡ m a)
    → Erased m' s' (drop_blanks xs)
    → Delimited xs
    → m' s ≡ 0
terminated m m' s s' [] same below erased delim = rw same erased
terminated m m' s s' (x ∷ xs) (blank_first, other_first) below erased delim =
    elim (Bool-cases (is_blank x)) [
      | inl blank ↦ let (lt, zeroed) = blank_first blank in ground (arith, zeroed, below s lt)
      | inr other ↦
          rw (other_first other)
            ((rw (drop_blanks-stop x xs other) at erased) (ground (arith, delim, other)))
    ]

_gettoken_lem :
    (f : ℕ) (m : Mem) (s q1 q2 : ℕ) (xs : List ℕ)
    → IsString m s xs
    → length xs < f
    → s ≢ 0
    → Gets (_gettoken f m s q1 q2) m s xs
unfolding _gettoken
_gettoken_lem f m s q1 q2 xs str lt nz =
    let (s', m', run, le, str', below, blanked) = skip_whitespace_lem f m s xs str lt in
    let (lx, scanned, looks, below', erased) =
      scan_token_lem f m' s' (drop_blanks xs) str' (omega (arith, length-drop_blanks xs))
        (λ e. ground (arith, e, le, nz)) in
    (
      lx,
      ground (arith, nz, run, scanned),
      looks,
      λ a h. ground (arith, below a h, below' a (omega arith)),
      terminated m' lx.mem s s' xs blanked below' erased,
    )

-- The bytes of a word and a 0 after them are a string.
Bytes-IsString :
    (m m' : Mem) (p e : ℕ) (w : List ℕ)
    → e ≡ p + length w
    → Bytes m p w
    → ((a : ℕ) → a < e → m' a ≡ m a)
    → m' e ≡ 0
    → IsString m' p w
Bytes-IsString m m' p e [] at_e bytes same end = ground (arith, end, at_e)
Bytes-IsString m m' p e (x ∷ xs) at_e (at, ne, more) same end = (
  ground (arith, same p (omega (arith, at_e)), at),
  ne,
  Bytes-IsString m m' (p + 1) e xs (omega (arith, at_e)) more same end,
)

gettoken_step :
    (f : ℕ) (lx lx' : Scan) (c : ℕ)
    → lx.token ≡ c
    → _gettoken f lx.mem lx.p2 lx.p1 lx.p2 ≡ some lx'
    → gettoken f lx ≡ some (c, lx.p1, lx')
unfolding gettoken
gettoken_step f lx lx' c is run = ground (arith, is, run)

gettoken_null :
    (f : ℕ) (m : Mem) (s q1 q2 : ℕ)
    → s ≡ 0
    → _gettoken f m s q1 q2 ≡ some (record { token = 0; p1 = q1; p2 = q2; mem = m })
unfolding _gettoken
gettoken_null f m s q1 q2 null = ground (arith, null)

-- gettoken(s, 0) on a string: the statics hold the first token of it.
set_string_lem :
    (f : ℕ) (lx : Scan) (s : ℕ) (xs : List ℕ)
    → IsString lx.mem s xs
    → length xs < f
    → s ≢ 0
    → (lx' : Scan) × (set_string f lx s ≡ some lx') × LooksAt lx' (lex xs)
unfolding set_string
set_string_lem f lx s xs str lt nz =
    let (lx', run, looks, _, _) = _gettoken_lem f lx.mem s lx.p1 lx.p2 xs str lt nz in
    (lx', run, looks)

-- The statics hold the token `tok`, with the rest of the line after it: gettoken(0, &t) ends, returns
-- the token, and leaves the first token of the rest; with a word, `t` is the word as a string.
pub gettoken_lem :
    (f : ℕ) (lx : Scan) (tok : Token) (rest : List ℕ)
    → Looks lx tok rest
    → length rest < f
    → (lx' : Scan) × (gettoken f lx ≡ some (code_of tok, lx.p1, lx'))
      × LooksAt lx' (lex rest)
      × IsArgument tok lx'.mem lx.p1
gettoken_lem f lx end_of_line rest (ended, null, nil) lt = (
  record { token = 0; p1 = lx.p1; p2 = lx.p2; mem = lx.mem },
  gettoken_step f lx _ 0 ended (gettoken_null f lx.mem lx.p2 lx.p1 lx.p2 null),
  rw nil (refl, null, refl),
  tt,
)
gettoken_lem f lx (symbol c) rest (is, nz, str) lt =
    let (lx', run, looks, _, _) = _gettoken_lem f lx.mem lx.p2 lx.p1 lx.p2 rest str lt nz in
    (lx', gettoken_step f lx lx' c is run, looks, tt)
gettoken_lem f lx (word w) rest (is, nz, str, at_end, bytes, delim) lt =
    let (lx', run, looks, same, ended) = _gettoken_lem f lx.mem lx.p2 lx.p1 lx.p2 rest str lt nz in
    (
      lx',
      gettoken_step f lx lx' b'w' is run,
      looks,
      Bytes-IsString lx.mem lx'.mem lx.p1 lx.p2 w at_end bytes same (ended delim),
    )
