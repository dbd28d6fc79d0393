-- ===== src/Clib/Num/Digits.antt =====
-- What printnum of lib/printfmt.c prints, and that strtol of lib/string.c reads it back.
use kludgeos.Base.{
  ℕ, zero, suc, ◌+◌, ◌-◌, ◌*◌, ◌/◌, ◌%◌, ◌^◌, ◌≤◌, ◌<◌, ◌≡◌, ◌∙◌, ap, inl, inr, true, false, none,
  some, List, [], ◌∷◌, ◌++◌, ◌==◌, leb, Bool-cases, length, replicate, length-append, arith, refl,
  if◌then◌else◌, append_assoc,
}
use mathlib.Core.Path.{ap₂}
use native.Mathlib.Nat.{div-add-mod', mod-eq_of_lt}
use kludgeos.Clib.Str.{Mem, digit_value, digits_loop, skip_blanks, strtol}
use kludgeos.Clib.Num.{hex_digit, printnum, printnum_fuel}

-- The digits of a number, most significant first.
pub digits : ℕ → ℕ → ℕ → List ℕ
unfolding hex_digit
digits zero num base = []
digits (suc f) num base =
    let high = digits f (num / base) base in
    (if leb base num then high else []) ++ hex_digit (num % base) ∷ []

-- One fewer pad for each digit.
pads_shift : (w n : ℕ) → w - 1 - n ≡ w - (1 + n)
pads_shift w n = omega arith

div_falls : (num base : ℕ) → 2 ≤ base → base ≤ num → num / base < num
div_falls num base h le = grind arith

printnum_fuel_lem :
    (f num base width padc : ℕ)
    → 2 ≤ base
    → num < f
    → printnum_fuel f num base width padc
      ≡ replicate (width - length (digits f num base)) padc ++ digits f num base
unfolding printnum_fuel digits
printnum_fuel_lem zero num base width padc h lt = absurd (omega arith)
printnum_fuel_lem (suc f) num base width padc h lt = elim (Bool-cases (leb base num)) [
  | inl more ↦
      rw (more, printnum_fuel_lem f (num / base) base (width - 1) padc h (div_bound more))
        (split (digits f (num / base) base))
  | inr last ↦ rw last
]
  where
    div_bound : leb base num ≡ true → num / base < f
    div_bound more = ground (arith, div_falls num base h)

    split :
        (high : List ℕ)
        → (replicate (width - 1 - length high) padc ++ high) ++ hex_digit (num % base) ∷ []
          ≡ replicate (width - length (high ++ hex_digit (num % base) ∷ [])) padc
            ++ (high ++ hex_digit (num % base) ∷ [])
    split high =
        append_assoc (replicate (width - 1 - length high) padc) high (hex_digit (num % base) ∷ [])
        ∙ ap (λ (n : ℕ). replicate n padc ++ (high ++ hex_digit (num % base) ∷ []))
            (omega (arith, length-append high (hex_digit (num % base) ∷ [])))

-- printnum pads on the left with `padc` up to the width, and then prints the digits.
printnum_lem :
    (num base width padc : ℕ)
    → 2 ≤ base
    → printnum num base width padc
      ≡ replicate (width - length (digits (num + 1) num base)) padc ++ digits (num + 1) num base
unfolding printnum
printnum_lem num base width padc h = printnum_fuel_lem (num + 1) num base width padc h (omega arith)

-- The bytes `xs` stand in memory from `s` on.
abbrev pub Holds : Mem → ℕ → List ℕ → Type 0
Holds m s [] = Unit {0}
Holds m s (x ∷ xs) = (m s ≡ x) × Holds m (s + 1) xs

Holds-append :
    (m : Mem) (s : ℕ) (xs ys : List ℕ)
    → Holds m s (xs ++ ys)
    → Holds m s xs × Holds m (s + length xs) ys
Holds-append m s [] ys h = (tt, ground arith)
Holds-append m s (x ∷ xs) ys h =
    let (left, right) = Holds-append m (s + 1) xs ys (h.1) in
    let same : s + 1 + length xs ≡ s + suc (length xs) = omega arith in
    ((h.0, left), rw same at right)

length-replicate : (n x : ℕ) → length (replicate n x) ≡ n
length-replicate zero x = refl
length-replicate (suc n) x = omega (arith, length-replicate n x)

digit_value-hex : (d : ℕ) → d < 16 → digit_value (hex_digit d) ≡ some d
unfolding digit_value hex_digit
digit_value-hex d h = ground arith

-- One round of the digit loop of strtol, on a digit of the base.
digits_loop-step :
    (F : ℕ) (m : Mem) (s base val d : ℕ)
    → d < base
    → base ≤ 16
    → m s ≡ hex_digit d
    → val * base + d < 2 ^ 32
    → digits_loop (suc F) m s base val ≡ digits_loop F m (s + 1) base (val * base + d)
unfolding digits_loop
digits_loop-step F m s base val d lo hi e small =
    ground (arith, ap digit_value e, digit_value-hex d)

-- The loop of strtol, over the digits of `num`, arrives at `num`.
digits_loop-reads :
    (f F num base : ℕ) (m : Mem) (s : ℕ)
    → 2 ≤ base
    → base ≤ 16
    → num < f
    → num < 2 ^ 32
    → Holds m s (digits f num base)
    → digits_loop (F + length (digits f num base)) m s base 0
      ≡ digits_loop F m (s + length (digits f num base)) base num
unfolding digits
digits_loop-reads zero F num base m s lo hi lt small h = absurd (omega arith)
digits_loop-reads (suc f) F num base m s lo hi lt small h = elim (Bool-cases (leb base num)) [
  | inl more ↦ rw more (
      step (digits f (num / base) base) (fall more) (rw more at h)
        (λ hh. digits_loop-reads f (suc F) (num / base) base m s lo hi (fall more) (quotient) hh))
  | inr last ↦ rw last (final (rw last at h) (ground arith))
]
  where
    value : num / base * base + num % base ≡ num
    value = div-add-mod' num base

    digit : num % base < base
    digit = omega arith

    quotient : num / base < 2 ^ 32
    quotient = omega arith

    fall : leb base num ≡ true → num / base < f
    fall more = ground (arith, div_falls num base lo)

    step :
        (high : List ℕ)
        → num / base < f
        → Holds m s (high ++ hex_digit (num % base) ∷ [])
        → (Holds m s high
            → digits_loop (suc F + length high) m s base 0
              ≡ digits_loop (suc F) m (s + length high) base (num / base))
        → digits_loop (F + length (high ++ hex_digit (num % base) ∷ [])) m s base 0
          ≡ digits_loop F m (s + length (high ++ hex_digit (num % base) ∷ [])) base num
    step high small' hh ih =
        let last = hex_digit (num % base) ∷ [] in
        let (before, here) = Holds-append m s high last hh in
        let one : length (high ++ last) ≡ length high + 1 = length-append high last in
        ap (λ (n : ℕ). digits_loop n m s base 0)
          (let e : F + length (high ++ last) ≡ suc F + length high = omega arith in e)
        ∙ ih before
        ∙ digits_loop-step F m (s + length high) base (num / base) (num % base) digit hi (here.0)
            (omega (arith, value))
        ∙ ap₂ (λ (a v : ℕ). digits_loop F m a base v)
            (let e : s + length high + 1 ≡ s + length (high ++ last) = omega arith in e) value

    final :
        Holds m s (hex_digit (num % base) ∷ [])
        → num < base
        → digits_loop (F + 1) m s base 0 ≡ digits_loop F m (s + 1) base num
    final hh lt' =
        let e : num % base ≡ num = mod-eq_of_lt lt' in
        ap (λ (n : ℕ). digits_loop n m s base 0) (let e' : F + 1 ≡ suc F = omega arith in e')
        ∙ digits_loop-step F m s base 0 num lt' hi (hh.0 ∙ ap hex_digit e) (omega arith)
        ∙ ap (digits_loop F m (s + 1) base) (let e' : 0 * base + num ≡ num = omega arith in e')

-- The first character that printnum prints for a number is a digit.
first_digit :
    (f num base : ℕ) (m : Mem) (s : ℕ)
    → 2 ≤ base
    → num < f
    → Holds m s (digits f num base)
    → (d : ℕ) × (d < base) × (m s ≡ hex_digit d)
unfolding digits
first_digit zero num base m s lo lt h = absurd (omega arith)
first_digit (suc f) num base m s lo lt h = elim (Bool-cases (leb base num)) [
  | inl more ↦
      first_digit f (num / base) base m s lo (ground (arith, div_falls num base lo))
        (Holds-append m s (digits f (num / base) base) (hex_digit (num % base) ∷ [])
          (rw more at h)).0
  | inr last ↦ (num % base, omega arith, (rw last at h).0)
]

skip_blanks-digit :
    (f d : ℕ) (m : Mem) (s : ℕ) → d < 10 → m s ≡ hex_digit d → skip_blanks (suc f) m s ≡ some s
unfolding skip_blanks hex_digit
skip_blanks-digit f d m s lt e = ground arith

digits_loop-stop :
    (f : ℕ) (m : Mem) (s val : ℕ)
    → digit_value (m s) ≡ none
    → digits_loop (suc f) m s 10 val ≡ some (val, s)
unfolding digits_loop
digits_loop-stop f m s val stop = rw (stop, digits_loop)

shift : (F len : ℕ) → suc F + len ≡ suc (F + len)
shift F len = omega arith

not_sign : (d c : ℕ) → d < 10 → c ≡ hex_digit d → ((c == b'-') ≡ false) × ((c == b'+') ≡ false)
unfolding hex_digit
not_sign d c lt e = ground arith

skip_blanks-pads :
    (n g : ℕ) (m : Mem) (s : ℕ)
    → Holds m s (replicate n b' ')
    → skip_blanks (n + g) m s ≡ skip_blanks g m (s + n)
unfolding skip_blanks
skip_blanks-pads zero g m s h = ap₂ (λ f a. skip_blanks f m a) (omega arith) (omega arith)
skip_blanks-pads (suc n) g m s h =
    let more = skip_blanks-pads n g m (s + 1) h.1 in
    let next : s + 1 + n ≡ s + suc n = omega arith in
    let fuel : suc n + g ≡ suc (n + g) = omega arith in
    rw fuel (rw (h.0) (more ∙ ap (skip_blanks g m) next))

-- The same for the digits themselves, behind pads.
strtol-digits :
    (F n num : ℕ) (m : Mem) (s : ℕ)
    → num < 2 ^ 32
    → Holds m s (replicate n b' ')
    → Holds m (s + n) (digits (num + 1) num 10)
    → digit_value (m (s + n + length (digits (num + 1) num 10))) ≡ none
    → strtol (suc F + (n + length (digits (num + 1) num 10))) m s 10
      ≡ some (num, s + n + length (digits (num + 1) num 10))
unfolding strtol
strtol-digits F n num m s small pads h stop =
    let len : ℕ = length (digits (num + 1) num 10) in
    let (d, lt, first) = first_digit (num + 1) num 10 m (s + n) (omega arith) (omega arith) h in
    let (minus, plus) = not_sign d (m (s + n)) lt first in
    let start : skip_blanks (suc F + (n + len)) m s ≡ some (s + n) =
      ap (λ (k : ℕ). skip_blanks k m s) {x = suc F + (n + len)} {y = n + suc (F + len)}
        (omega arith)
      ∙ skip_blanks-pads n (suc (F + len)) m s pads
      ∙ skip_blanks-digit (F + len) d m (s + n) lt first in
    let loop : digits_loop (suc F + (n + len)) m (s + n) 10 0 ≡ some (num, s + n + len) =
      ap (λ (k : ℕ). digits_loop k m (s + n) 10 0) {x = suc F + (n + len)} {y = suc (F + n) + len}
        (omega arith)
      ∙ digits_loop-reads (num + 1) (suc (F + n)) num 10 m (s + n) (omega arith) (omega arith)
          (omega arith) small h
      ∙ digits_loop-stop (F + n) m (s + n + len) num stop in
    ground (arith, start, minus, plus, loop)

-- Where the characters that printnum prints for a number below 2^32 in base 10, padded with blanks
-- to any width, stand in memory and no digit comes behind them, strtol in base 10 ends and gives the
-- number back, with the address behind them.
pub strtol-printnum :
    (F num width : ℕ) (m : Mem) (s : ℕ)
    → num < 2 ^ 32
    → Holds m s (printnum num 10 width b' ')
    → digit_value (m (s + length (printnum num 10 width b' '))) ≡ none
    → strtol (suc F + length (printnum num 10 width b' ')) m s 10
      ≡ some (num, s + length (printnum num 10 width b' '))
strtol-printnum F num width m s small h stop =
    let n : ℕ = width - length (digits (num + 1) num 10) in
    let pads : List ℕ = replicate n b' ' in
    let is = printnum_lem num 10 width b' ' (omega arith) in
    let sizes : length (printnum num 10 width b' ') ≡ n + length (digits (num + 1) num 10) =
      ap length is
      ∙ length-append pads (digits (num + 1) num 10)
      ∙ ap (λ (k : ℕ). k + length (digits (num + 1) num 10)) (length-replicate n b' ') in
    let (left, right) = Holds-append m s pads (digits (num + 1) num 10) (rw is at h) in
    let all : s + (n + length (digits (num + 1) num 10))
        ≡ s + n + length (digits (num + 1) num 10) =
      omega arith in
    let stop' : digit_value (m (s + n + length (digits (num + 1) num 10))) ≡ none =
      rw (sizes, all) at stop in
    rw (sizes, all)
      (strtol-digits F n num m s small left
        (rw (let e : length pads ≡ n = length-replicate n b' ' in e) at right) stop')
