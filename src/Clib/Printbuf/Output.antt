-- ===== src/Clib/Printbuf/Output.antt =====
-- What cprintf prints is what vprintfmt puts, in calls of at most 255 bytes.
use kludgeos.Base.{
  ℕ, zero, suc, ◌+◌, ◌-◌, ◌%◌, ◌^◌, ◌<◌, ◌≡◌, refl, sym, ◌∙◌, ap, inl, inr, number_cases, ◌≢◌,
  update, List, [], ◌∷◌, ◌++◌, append_assoc, append-nil, length, map, arith,
}
use kludgeos.Clib.Printbuf.{Printbuf, bufsize, bytes_from, sys_cputs, putch, putch_all, vcprintf}

abbrev pub concat : List (List ℕ) → List ℕ
concat [] = []
concat (x ∷ xs) = x ++ concat xs

abbrev Short : List (List ℕ) → Type 0
Short [] = Unit {0}
Short (x ∷ xs) = (length x < bufsize) × Short xs

pub concat-append : (xs ys : List (List ℕ)) → concat (xs ++ ys) ≡ concat xs ++ concat ys
concat-append [] ys = refl
concat-append (x ∷ xs) ys =
    ap (λ (t : List ℕ). x ++ t) (concat-append xs ys) ∙ sym (append_assoc x (concat xs) (concat ys))

Short-append : (xs ys : List (List ℕ)) → Short xs → Short ys → Short (xs ++ ys)
Short-append [] ys short short' = short'
Short-append (x ∷ xs) ys (lt, short) short' = (lt, Short-append xs ys short short')

pub length-bytes_from : (buf : ℕ → ℕ) (i n : ℕ) → length (bytes_from buf i n) ≡ n
unfolding bytes_from
length-bytes_from buf i zero = refl
length-bytes_from buf i (suc n) = ap suc (length-bytes_from buf (i + 1) n)

pub bytes_from-write :
    (buf : ℕ → ℕ) (c i n w : ℕ)
    → w ≡ i + n
    → bytes_from (update buf w c) i (n + 1) ≡ bytes_from buf i n ++ (c ∷ [])
unfolding bytes_from
bytes_from-write buf c i zero w at = ground (arith, at)
bytes_from-write buf c i (suc n) w at =
    ground (arith, at, bytes_from-write buf c (i + 1) n w (omega (arith, at)))

-- What was put so far: what was printed, and what waits in the buffer.
abbrev put_so_far : Printbuf → List ℕ
put_so_far b = concat b.calls ++ bytes_from b.buf 0 b.idx

pub record IsValid (b : Printbuf) : Type 0 where
  pub room : b.idx < bufsize - 1
  pub short : Short b.calls

module _ (c : ℕ) (b : Printbuf) (valid : IsValid b) where
  written : Printbuf
  written = record b { buf = update b.buf b.idx (c % 2 ^ 8); idx = b.idx + 1; cnt = b.cnt + 1 }

  flushed : Printbuf
  flushed = record written { calls = (sys_cputs written).calls; idx = 0 }

  Puts : Printbuf → Type 0
  Puts b' = IsValid b' × (put_so_far b' ≡ put_so_far b ++ (c % 2 ^ 8 ∷ [])) × (b'.cnt ≡ b.cnt + 1)

  putch-flushed : b.idx + 1 ≡ bufsize - 1 → putch c b ≡ flushed
  unfolding putch flushed written
  putch-flushed full = ground (arith, full)

  putch-written : b.idx + 1 ≢ bufsize - 1 → putch c b ≡ written
  unfolding putch written
  putch-written more = ground (arith, more)

  put-written : put_so_far written ≡ put_so_far b ++ (c % 2 ^ 8 ∷ [])
  unfolding written
  put-written =
      ap (λ (t : List ℕ). concat b.calls ++ t)
        (bytes_from-write b.buf (c % 2 ^ 8) 0 b.idx b.idx (omega arith))
      ∙ sym (append_assoc (concat b.calls) (bytes_from b.buf 0 b.idx) (c % 2 ^ 8 ∷ []))

  put-flushed : put_so_far flushed ≡ put_so_far written
  unfolding flushed bytes_from
  put-flushed =
      append-nil (concat flushed.calls)
      ∙ concat-append written.calls (bytes_from written.buf 0 written.idx ∷ [])
      ∙ ap (λ (t : List ℕ). concat written.calls ++ t)
          (append-nil (bytes_from written.buf 0 written.idx))

  Short-flushed : b.idx + 1 ≡ bufsize - 1 → Short flushed.calls
  unfolding flushed written
  Short-flushed full =
      Short-append b.calls _ valid.short
        (omega (arith, length-bytes_from written.buf 0 (b.idx + 1), full), tt)

  flushed-IsValid : b.idx + 1 ≡ bufsize - 1 → IsValid flushed
  unfolding flushed
  flushed-IsValid full = record { room = omega arith; short = Short-flushed full }

  written-IsValid : b.idx + 1 ≢ bufsize - 1 → IsValid written
  unfolding written
  written-IsValid more = record { room = omega (arith, valid.room, more); short = valid.short }

  counted : written.cnt ≡ b.cnt + 1
  unfolding written
  counted = refl

  counted-flushed : flushed.cnt ≡ b.cnt + 1
  unfolding flushed written
  counted-flushed = refl

  -- A character is put: nothing else that is printed or waits changes, and the buffer has room again.
  putch_lem : Puts (putch c b)
  unfolding Puts
  putch_lem = elim (number_cases (b.idx + 1) (bufsize - 1)) [
    | inl full ↦
        rw (putch-flushed full) (flushed-IsValid full, put-flushed ∙ put-written, counted-flushed)
    | inr more ↦ rw (putch-written more) (written-IsValid more, put-written, counted)
  ]

abbrev pub as_bytes : List ℕ → List ℕ
as_bytes cs = map (λ c. c % 2 ^ 8) cs

putch_all_lem :
    (cs : List ℕ) (b : Printbuf)
    → IsValid b
    → IsValid (putch_all cs b)
      × (put_so_far (putch_all cs b) ≡ put_so_far b ++ as_bytes cs)
      × ((putch_all cs b).cnt ≡ b.cnt + length cs)
unfolding putch_all Puts
putch_all_lem [] b valid = (valid, sym (append-nil (put_so_far b)), omega arith)
putch_all_lem (c ∷ cs) b valid =
    let (valid1, put1, cnt1) = putch_lem c b valid in
    let (valid', put', cnt') = putch_all_lem cs (putch c b) valid1 in
    (
      valid',
      put'
          ∙ ap (λ (t : List ℕ). t ++ as_bytes cs) put1
          ∙ append_assoc (put_so_far b) (c % 2 ^ 8 ∷ []) (as_bytes cs),
      omega (arith, cnt1, cnt'),
    )

-- vcprintf prints exactly the bytes that vprintfmt puts, in calls of at most 255 bytes, and returns
-- how many they are.
vcprintf_lem :
    (cs : List ℕ) (garbage : ℕ → ℕ)
    → let (cnt, calls) = vcprintf cs garbage in
      (concat calls ≡ as_bytes cs) × Short calls × (cnt ≡ length cs)
unfolding vcprintf bytes_from
vcprintf_lem cs garbage =
    let start : Printbuf = record { idx = 0; cnt = 0; buf = garbage; calls = [] } in
    let (valid, put, cnt) = putch_all_lem cs start (record { room = omega arith; short = tt }) in
    let b = putch_all cs start in
    (
      concat-append b.calls (bytes_from b.buf 0 b.idx ∷ [])
          ∙ ap (λ (t : List ℕ). concat b.calls ++ t) (append-nil (bytes_from b.buf 0 b.idx))
          ∙ put,
      Short-append b.calls _ valid.short
          (omega (arith, length-bytes_from b.buf 0 b.idx, valid.room), tt),
      omega (arith, cnt),
    )
