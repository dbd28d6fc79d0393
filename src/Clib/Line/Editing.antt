-- ===== src/Clib/Line/Editing.antt =====
-- What a line that was typed and edited holds.
use kludgeos.Base.{
  ℕ, ◌+◌, ◌-◌, ◌%◌, ◌^◌, ◌≤◌, ◌<◌, ◌≡◌, refl, ◌≢◌, inl, inr, Bool, true, false, Bool-cases,
  number_cases, sym, ◌&&◌, ◌||◌, ◌==◌, ltb, leb, if◌then◌else◌, update, List, [], ◌∷◌, length, Code,
  ok, arith,
}
use kludgeos.Clib.Line.{buflen, Read, line, null, waits, outside, readline_loop, readline}

-- The key at the end of a line.
abbrev is_return : ℕ → Bool
is_return c = (c == 10) || (c == 13)

-- The text, its last character first, after a key: a printable one is added where there is room,
-- a backspace takes the last one off.
abbrev rest_of : List ℕ → List ℕ
rest_of [] = []
rest_of (x ∷ xs) = xs

abbrev key : ℕ → List ℕ → List ℕ
key c text =
    if leb 32 c && ltb (length text) (buflen - 1)
    then c % 2 ^ 8 ∷ text
    else if c == 8
    then rest_of text
    else text

abbrev pub keys : List ℕ → List ℕ → List ℕ
keys [] text = text
keys (c ∷ cs) text = keys cs (key c text)

-- The buffer holds the text below `i`.
abbrev HoldsText : (ℕ → ℕ) → ℕ → List ℕ → Type 0
HoldsText buf i [] = i ≡ 0
HoldsText buf i (x ∷ xs) = (0 < i) × (buf (i - 1) ≡ x) × HoldsText buf (i - 1) xs

HoldsText-length : (buf : ℕ → ℕ) (i : ℕ) (xs : List ℕ) → HoldsText buf i xs → i ≡ length xs
HoldsText-length buf i [] is = is
HoldsText-length buf i (x ∷ xs) (pos, at, more) =
    omega (arith, HoldsText-length buf (i - 1) xs more)

HoldsText-update :
    (buf : ℕ → ℕ) (i w v : ℕ) (xs : List ℕ)
    → i ≤ w
    → HoldsText buf i xs
    → HoldsText (update buf w v) i xs
HoldsText-update buf i w v [] le is = is
HoldsText-update buf i w v (x ∷ xs) le (pos, at, more) =
    (pos, ground (arith, at, pos, le), HoldsText-update buf (i - 1) w v xs (omega arith) more)

-- The text is a string at the start of the buffer.
abbrev pub IsLine : List ℕ → Read → Type 0
IsLine text (line buf) = HoldsText buf (length text) text × (buf (length text) ≡ 0)
IsLine text null = ⊥
IsLine text waits = ⊥
IsLine text outside = ⊥

abbrev pub typed : List ℕ → List (Code ℕ) → List (Code ℕ)
typed [] rest = rest
typed (c ∷ cs) rest = ok c ∷ typed cs rest

abbrev NoReturn : List ℕ → Type 0
NoReturn [] = Unit {0}
NoReturn (c ∷ cs) = (is_return c ≡ false) × NoReturn cs

module _ (c i : ℕ) (buf : ℕ → ℕ) (cs : List (Code ℕ)) (inside : i < buflen) where
  step_store :
      (leb 32 c && ltb i (buflen - 1)) ≡ true
      → readline_loop (ok c ∷ cs) buf i ≡ readline_loop cs (update buf i (c % 2 ^ 8)) (i + 1)
  unfolding readline_loop
  step_store h = ground (arith, h, inside)

  step_erase : c ≡ 8 → readline_loop (ok c ∷ cs) buf i ≡ readline_loop cs buf (i - 1)
  unfolding readline_loop
  step_erase is = elim (number_cases i 0) [
    | inl none_there ↦ ground (arith, is, none_there)
    | inr some_there ↦
        let back : (i + (2 ^ 32 - 1)) % 2 ^ 32 ≡ i - 1 = omega (arith, inside, some_there) in
        ground (arith, is, some_there, inside, back)
  ]

  step_return : is_return c ≡ true → readline_loop (ok c ∷ cs) buf i ≡ line (update buf i 0)
  unfolding readline_loop
  step_return h = ground (arith, h, inside)

  step_ignore :
      (leb 32 c && ltb i (buflen - 1)) ≡ false
      → c ≢ 8
      → is_return c ≡ false
      → readline_loop (ok c ∷ cs) buf i ≡ readline_loop cs buf i
  unfolding readline_loop
  step_ignore h ne plain = ground (arith, h, ne, plain, inside)

stored :
    (c i : ℕ) (buf : ℕ → ℕ) (text : List ℕ)
    → HoldsText buf i text
    → HoldsText (update buf i c) (i + 1) (c ∷ text)
stored c i buf text holds =
    (omega arith, ground arith, rw back (HoldsText-update buf i i c text (omega arith) holds))
  where
    back : i + 1 - 1 ≡ i
    back = omega arith

erased :
    (buf : ℕ → ℕ) (i : ℕ) (text : List ℕ)
    → HoldsText buf i text
    → HoldsText buf (i - 1) (rest_of text)
erased buf i [] is = omega (arith, is)
erased buf i (x ∷ xs) (pos, at, more) = more

key-store :
    (c i : ℕ) (text : List ℕ)
    → i ≡ length text
    → (leb 32 c && ltb i (buflen - 1)) ≡ true
    → key c text ≡ c % 2 ^ 8 ∷ text
key-store c i text is h = rw (sym is) (rw h refl)

key-other :
    (c i : ℕ) (text : List ℕ)
    → i ≡ length text
    → (leb 32 c && ltb i (buflen - 1)) ≡ false
    → key c text ≡ (if c == 8 then rest_of text else text)
key-other c i text is h = rw (sym is) (rw h refl)

length-key : (c : ℕ) (text : List ℕ) → length text < buflen → length (key c text) < buflen
length-key c [] lt = ground (arith, lt)
length-key c (x ∷ xs) lt = ground (arith, lt)

-- The loop, on keys without a return and then one, ends with the text that the keys make.
readline_loop_lem :
    (cs : List ℕ) (c : ℕ) (rest : List (Code ℕ)) (buf : ℕ → ℕ) (i : ℕ) (text : List ℕ)
    → HoldsText buf i text
    → length text < buflen
    → NoReturn cs
    → is_return c ≡ true
    → IsLine (keys cs text) (readline_loop (typed cs (ok c ∷ rest)) buf i)
readline_loop_lem [] c rest buf i text holds fits plain ret =
    let is = HoldsText-length buf i text holds in
    rw (step_return c i buf rest (omega arith) ret)
      (rw (sym is) (HoldsText-update buf i i 0 text (omega arith) holds, ground arith))
readline_loop_lem (k ∷ cs) c rest buf i text holds fits (other, plain) ret =
    let is = HoldsText-length buf i text holds in
    let more : length (key k text) < buflen = length-key k text fits in
    elim (Bool-cases (leb 32 k && ltb i (buflen - 1))) [
      | inl h ↦ rw (step_store k i buf (typed cs (ok c ∷ rest)) (omega arith) h) (
          rw (key-store k i text is h) (
            readline_loop_lem cs c rest (update buf i (k % 2 ^ 8)) (i + 1) (k % 2 ^ 8 ∷ text)
              (stored (k % 2 ^ 8) i buf text holds) (rw (key-store k i text is h) at more) plain
              ret))
      | inr h ↦ rw (key-other k i text is h) (elim (number_cases k 8) [
        | inl erase ↦ rw (step_erase k i buf (typed cs (ok c ∷ rest)) (omega arith) erase) (
            rw (takes_off erase) (
              readline_loop_lem cs c rest buf (i - 1) (rest_of text) (erased buf i text holds)
                (rw (key-other k i text is h, takes_off erase) at more) plain ret))
        | inr ne ↦
            rw (step_ignore k i buf (typed cs (ok c ∷ rest)) (omega arith) h ne other)
              (rw (leaves ne) (readline_loop_lem cs c rest buf i text holds fits plain ret))
      ])
    ]
  where
    takes_off : k ≡ 8 → (if k == 8 then rest_of text else text) ≡ rest_of text
    takes_off e = ground (arith, e)

    leaves : k ≢ 8 → (if k == 8 then rest_of text else text) ≡ text
    leaves ne = ground (arith, ne)

length-keys : (cs text : List ℕ) → length text < buflen → length (keys cs text) < buflen
length-keys [] text lt = lt
length-keys (c ∷ cs) text lt = length-keys cs (key c text) (length-key c text lt)

-- readline ends at the first return key, and gives the text that the keys before it make, at most
-- 1023 bytes of it and a 0; it stores nothing outside its buffer.
pub readline_lem :
    (cs : List ℕ) (c : ℕ) (rest : List (Code ℕ)) (buf : ℕ → ℕ)
    → NoReturn cs
    → is_return c ≡ true
    → IsLine (keys cs []) (readline (typed cs (ok c ∷ rest)) buf) × (length (keys cs []) < buflen)
unfolding readline
readline_lem cs c rest buf plain ret = (
  readline_loop_lem cs c rest buf 0 [] refl (omega arith) plain ret,
  length-keys cs [] (omega arith),
)
