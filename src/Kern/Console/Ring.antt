-- ===== src/Kern/Console/Ring.antt =====
-- The console's buffer as a queue of characters.
use kludgeos.Base.{
  ℕ, zero, suc, ◌+◌, ◌-◌, ◌%◌, ◌^◌, ◌<◌, ◌≡◌, refl, ◌≢◌, inl, inr, number_cases, update, List, [],
  ◌∷◌, ◌++◌, arith,
}
use kludgeos.Kern.Console.{Cons, consbufsize, advance, cons_put, cons_take}

-- The `n` characters from `pos` on.
abbrev ring_list : (ℕ → ℕ) → ℕ → ℕ → List ℕ
ring_list buf pos zero = []
ring_list buf pos (suc n) = buf pos ∷ ring_list buf (advance pos) n

abbrev waiting : Cons → ℕ
waiting s = (s.wpos + consbufsize - s.rpos) % consbufsize

-- The characters that are waiting, the oldest first.
abbrev pub contents : Cons → List ℕ
contents s = ring_list s.buf s.rpos (waiting s)

abbrev pub InBuffer : Cons → Type 0
InBuffer s = (s.rpos < consbufsize) × (s.wpos < consbufsize)

ring_list-write :
    (buf : ℕ → ℕ) (c n pos w : ℕ)
    → pos < consbufsize
    → w < consbufsize
    → n < consbufsize - 1
    → w ≡ (pos + n) % consbufsize
    → ring_list (update buf w c) pos (suc n) ≡ ring_list buf pos n ++ (c ∷ [])
ring_list-write buf c zero pos w in_pos in_w room at = ground (arith, here)
  where
    here : w ≡ pos
    here = omega (arith, at)
ring_list-write buf c (suc n) pos w in_pos in_w room at = ground (
  arith,
  other,
  ring_list-write buf c n (advance pos) w (ground (arith, in_pos)) in_w (omega arith) next,
)
  where
    other : pos ≢ w
    other e = omega (arith, at, e)

    next : w ≡ (advance pos + n) % consbufsize
    next = elim (number_cases (pos + 1) consbufsize) [
      | inl last ↦ ground (arith, last, at)
      | inr more ↦ ground (arith, more, at)
    ]

module _ (s : Cons) (valid : InBuffer s) where
  written : ℕ → Cons
  written c = record s { buf = update s.buf s.wpos c; wpos = advance s.wpos }

  cons_put-write : (c : ℕ) → c ≢ 0 → cons_put c s ≡ written (c % 2 ^ 8)
  unfolding cons_put written
  cons_put-write c nz = ground (arith, nz)

  waiting-written : (c : ℕ) → waiting s < consbufsize - 1 → waiting (written c) ≡ suc (waiting s)
  unfolding written
  waiting-written c room =
      let (in_r, in_w) = valid in
      elim (number_cases (s.wpos + 1) consbufsize) [
        | inl last ↦ ground (arith, last, room, in_r, in_w)
        | inr more ↦ ground (arith, more, room, in_r, in_w)
      ]

  contents-written :
      (c : ℕ) → waiting s < consbufsize - 1 → contents (written c) ≡ contents s ++ (c ∷ [])
  unfolding written
  contents-written c room =
      rw (waiting-written c room)
        (ring_list-write s.buf c (waiting s) s.rpos s.wpos valid.0 valid.1 room at)
    where
      at : s.wpos ≡ (s.rpos + waiting s) % consbufsize
      at = omega (arith, valid.0, valid.1)

  -- A character that comes in while fewer than 511 wait goes to the end of the queue.
  pub cons_put_lem :
      (c : ℕ)
      → c ≢ 0
      → waiting s < consbufsize - 1
      → InBuffer (cons_put c s) × (contents (cons_put c s) ≡ contents s ++ (c % 2 ^ 8 ∷ []))
  unfolding written
  cons_put_lem c nz room =
      rw (cons_put-write c nz)
        ((valid.0, ground (arith, valid.1)), contents-written (c % 2 ^ 8) room)

  -- A character that comes in while 511 wait empties the queue.
  pub cons_put_full : (c : ℕ) → c ≢ 0 → waiting s ≡ consbufsize - 1 → contents (cons_put c s) ≡ []
  unfolding written
  cons_put_full c nz full = rw (cons_put-write c nz) (rw none_left refl)
    where
      none_left : waiting (written (c % 2 ^ 8)) ≡ 0
      none_left =
          let (in_r, in_w) = valid in
          elim (number_cases (s.wpos + 1) consbufsize) [
            | inl last ↦ ground (arith, last, full, in_r, in_w)
            | inr more ↦ ground (arith, more, full, in_r, in_w)
          ]

  taken : Cons
  taken = record s { rpos = advance s.rpos }

  waiting-taken : s.rpos ≢ s.wpos → waiting s ≡ suc (waiting taken)
  unfolding taken
  waiting-taken some_there =
      let (in_r, in_w) = valid in
      elim (number_cases (s.rpos + 1) consbufsize) [
        | inl last ↦ ground (arith, last, some_there, in_r, in_w)
        | inr more ↦ ground (arith, more, some_there, in_r, in_w)
      ]

  waiting-none : s.rpos ≡ s.wpos → waiting s ≡ 0
  waiting-none same = omega (arith, same, valid.1)

  -- What reading does with a queue of these characters.
  abbrev pub Takes : List ℕ → Type 0
  Takes [] = cons_take s ≡ (0, s)
  Takes (x ∷ xs) = (s' : Cons) × (cons_take s ≡ (x, s')) × InBuffer s' × (contents s' ≡ xs)

  -- The end of cons_getc gives 0 where no character waits, and else the oldest, which leaves the queue.
  pub cons_take_lem : Takes (contents s)
  unfolding cons_take taken
  cons_take_lem = elim (number_cases s.rpos s.wpos) [
    | inl same ↦ rw (waiting-none same) (ground (arith, same))
    | inr other ↦
        rw (waiting-taken other)
          (taken, ground (arith, other), (ground (arith, valid.0), valid.1), refl)
  ]
