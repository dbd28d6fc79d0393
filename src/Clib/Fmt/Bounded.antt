-- ===== src/Clib/Fmt/Bounded.antt =====
-- vsnprintf of lib/printfmt.c writes inside its buffer, and vprintfmt ends on every format.
use kludgeos.Base.{
  ℕ, zero, suc, ◌+◌, ◌-◌, ◌%◌, ◌^◌, map, ◌≤◌, ◌<◌, ◌≡◌, refl, inl, inr, ap, false, Option, none,
  some, List, [], ◌∷◌, ◌++◌, ◌==◌, if◌then◌else◌, length, take, append_assoc, append-nil, arith,
  Option-cases, Bool-cases, length-append, length-take,
}
use kludgeos.Clib.Fmt.{
  Arg, Flags, no_flags, vprintfmt, format_loop, reswitch, finish, convert, Conversion, prints,
  unknown, faults, emit, Sprintbuf, sprintputch, put_all, wrote, vsnprintf, digit_step, flag_step,
  end_digits,
}

-- A character as the byte that a char keeps of it.
abbrev pub bytes : List ℕ → List ℕ
bytes out = map (λ c. c % 2 ^ 8) out

put_all_lem :
    (out st : List ℕ) (room cnt : ℕ)
    → (put_all out (record { stored = st; room = room; cnt = cnt })).stored
      ≡ st ++ take room (bytes out)
unfolding put_all sprintputch
put_all_lem [] st zero cnt = rw append-nil
put_all_lem [] st (suc room) cnt = rw append-nil
put_all_lem (ch ∷ out) st zero cnt = ground (arith, put_all_lem out st zero ((cnt + 1) % 2 ^ 32))
put_all_lem (ch ∷ out) st (suc room) cnt = ground (
  arith,
  put_all_lem out (st ++ (ch % 2 ^ 8 ∷ [])) room ((cnt + 1) % 2 ^ 32),
  append_assoc st (ch % 2 ^ 8 ∷ []) (take room (bytes out)),
)

put_all-cnt :
    (out : List ℕ) (b : Sprintbuf)
    → b.cnt < 2 ^ 32
    → (put_all out b).cnt ≡ (b.cnt + length out) % 2 ^ 32
unfolding put_all sprintputch
put_all-cnt [] b lt = omega (arith, lt)
put_all-cnt (ch ∷ out) b lt =
    let more = put_all-cnt out (sprintputch ch b) (ground arith) in
    let counted : (sprintputch ch b).cnt ≡ (b.cnt + 1) % 2 ^ 32 = ground arith in
    omega (arith, more, counted)

-- Where the format prints `out`, vsnprintf into a buffer of n ≥ 1 bytes returns the number of the
-- characters of `out`, as a 32-bit word, and writes the first n - 1 of them, each cut off to a byte,
-- and a 0, which fit the buffer.
pub vsnprintf_lem :
    (n : ℕ) (fmt : List ℕ) (args : List Arg) (out : List ℕ)
    → 1 ≤ n
    → vprintfmt fmt args ≡ some out
    → (vsnprintf false n fmt args
        ≡ some (wrote (length out % 2 ^ 32) (take (n - 1) (bytes out) ++ (0 ∷ []))))
      × (length (take (n - 1) (bytes out) ++ (0 ∷ [])) ≤ n)
unfolding vsnprintf
vsnprintf_lem n fmt args out h e = (
  ground (
    arith,
    e,
    put_all_lem out [] (n - 1) 0,
    put_all-cnt out (record { stored = []; room = n - 1; cnt = 0 }) (omega arith),
  ),
  omega (arith, length-append (take (n - 1) (bytes out)) (0 ∷ []), length-take (n - 1) (bytes out)),
)

-- Two outer loops that agree on every format of at most N characters.
abbrev Agree :
    ℕ → (List ℕ → List Arg → Option (List ℕ)) → (List ℕ → List Arg → Option (List ℕ)) → Type 0
Agree n g h = (l : List ℕ) (args : List Arg) → length l ≤ n → g l args ≡ h l args

module _ (n : ℕ) (g h : List ℕ → List Arg → Option (List ℕ)) (agree : Agree n g h) (after : List ℕ)
    (fits : length after ≤ n) where
  finish_agree :
      (fl : Flags) (ch : ℕ) (rest : List ℕ) (args : List Arg)
      → length rest ≤ n
      → finish g after fl ch rest args ≡ finish h after fl ch rest args
  unfolding finish
  finish_agree fl ch rest args le = cases (convert fl ch args)
    where
      cases :
          (c : Conversion)
          → ◌≡◌ {A = Option (List ℕ)}
              (elim c [
                | prints out args' ↦ emit out (g rest args')
                | unknown ↦ emit (b'%' ∷ []) (g after args)
                | faults ↦ none
              ])
              (elim c [
                | prints out args' ↦ emit out (h rest args')
                | unknown ↦ emit (b'%' ∷ []) (h after args)
                | faults ↦ none
              ])
      cases (prints out args') = ap (emit out) (agree rest args' le)
      cases unknown = ap (emit (b'%' ∷ [])) (agree after args fits)
      cases faults = refl

  reswitch_agree :
      (fl : Flags) (number : Option ℕ) (rest : List ℕ) (args : List Arg)
      → length rest ≤ n
      → reswitch g after fl number rest args ≡ reswitch h after fl number rest args
  unfolding reswitch
  reswitch_agree fl number [] args le = ap (emit (b'%' ∷ [])) (agree after args fits)
  reswitch_agree fl number (ch ∷ rest) args le = elim (Option-cases (digit_step number ch)) [
    | inr (k, e) ↦ rw (e, reswitch) (reswitch_agree fl (some k) rest args (omega arith))
    | inl e ↦
        rw (e, reswitch)
          (elim (Option-cases (flag_step (end_digits fl number) ch args)) [
            | inr ((fl', args'), e') ↦
                rw (e', reswitch) (reswitch_agree fl' none rest args' (omega arith))
            | inl e' ↦
                rw (e', reswitch)
                  (ap (λ (r : Option (List ℕ)). if ch == b'*' then none else r)
                    (finish_agree (end_digits fl number) ch rest args (omega arith)))
          ])
  ]

fuel_agree :
    (f f' : ℕ) (fmt : List ℕ) (args : List Arg)
    → length fmt < f
    → length fmt < f'
    → format_loop f fmt args ≡ format_loop f' fmt args
unfolding format_loop
fuel_agree zero f' fmt args lt lt' = absurd (omega arith)
fuel_agree (suc f) zero fmt args lt lt' = absurd (omega arith)
fuel_agree (suc f) (suc f') [] args lt lt' = refl
fuel_agree (suc f) (suc f') (ch ∷ fmt) args lt lt' = elim (Bool-cases (ch == b'%')) [
  | inl e ↦
      rw (e, format_loop)
        (reswitch_agree (length fmt) (format_loop f) (format_loop f')
          (λ l a le. fuel_agree f f' l a (omega arith) (omega arith)) fmt (omega arith) no_flags
          none fmt args (omega arith))
  | inr e ↦
      rw (e, format_loop)
        (ap (emit (ch ∷ [])) (fuel_agree f f' fmt args (omega arith) (omega arith)))
]

-- The loop of vprintfmt ends on every format: more rounds than the format has characters change
-- nothing, so that it fails only by an argument that is not of the type asked for.
vprintfmt_ends :
    (f : ℕ) (fmt : List ℕ) (args : List Arg)
    → length fmt < f
    → format_loop f fmt args ≡ vprintfmt fmt args
unfolding vprintfmt
vprintfmt_ends f fmt args lt = fuel_agree f (length fmt + 1) fmt args lt (omega arith)
