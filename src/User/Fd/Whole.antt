-- ===== src/User/Fd/Whole.antt =====
-- readn of lib/fd.c reads until it has all that was asked for or the device has no more.
use kludgeos.Base.{
  ℕ, zero, suc, ◌+◌, ◌-◌, ◌≤◌, ◌<◌, ◌≡◌, refl, inl, inr, ltb, Bool-cases, number_cases, List, ok,
  arith, min,
}
use kludgeos.User.Space.{Space, returns}
use kludgeos.User.Fd.{Frames, Dev, read, readn_from, readn}

module _ {τ : Type 0} (devtab : List (Dev τ)) (fdnum buf n : ℕ)
    (I : ℕ → ℕ → Space (Frames τ) → Type 0) where
  -- In a state with `tot` bytes read and `a` left, a read of the rest of the buffer returns at most
  -- what is left, and at least one byte if there is one; `I a tot` is the invariant of such states.
  abbrev pub Streams : Type 0
  Streams =
      (a tot : ℕ) (s : Space (Frames τ))
      → tot < n
      → I a tot s
      → (m : ℕ) × (s' : Space (Frames τ)) × (read devtab fdnum (buf + tot) (n - tot) s
          ≡ returns (ok m) s')
        × ((m ≤ n - tot) × (m ≤ a) × (min 1 a ≤ m))
        × I (a - m) (tot + m) s'

  abbrev Reads : ℕ → ℕ → ℕ → ℕ → Space (Frames τ) → Type 0
  Reads fuel tot a result s =
      (s' : Space (Frames τ)) × (readn_from devtab fuel fdnum buf n tot s
        ≡ returns (ok (tot + result)) s')
      × I (a - result) (tot + result) s'

  -- No round is left to do.
  readn_from-done :
      (fuel tot a : ℕ) (s : Space (Frames τ))
      → n ≤ tot
      → I a tot s
      → Reads fuel tot a (min (n - tot) a) s
  unfolding readn_from
  readn_from-done fuel tot a s le holds =
      let none_left : min (n - tot) a ≡ 0 = omega arith in
      let same : a - 0 ≡ a = omega arith in
      let same' : tot + 0 ≡ tot = omega arith in rw (none_left, same, same') (s, stops fuel, holds)
    where
      stops : (fuel : ℕ) → readn_from devtab fuel fdnum buf n tot s ≡ returns (ok tot) s
      stops zero = refl
      stops (suc fuel) = ground (arith, le)

  readn_from_lem :
      (fuel tot a : ℕ) (s : Space (Frames τ))
      → Streams
      → n ≤ tot + fuel
      → I a tot s
      → Reads fuel tot a (min (n - tot) a) s
  unfolding readn_from
  readn_from_lem zero tot a s streams enough holds =
      readn_from-done zero tot a s (omega arith) holds
  readn_from_lem (suc fuel) tot a s streams enough holds = elim (Bool-cases (ltb tot n)) [
    | inr past ↦ readn_from-done (suc fuel) tot a s (ground (arith, past)) holds
    | inl more ↦
        let (m, s1, run, (le, le', pos), left) = streams a tot s (ground (arith, more)) holds in
        elim (number_cases m 0) [
          | inl empty ↦
              let result : min (n - tot) a ≡ m = omega (arith, empty, pos) in
              rw result (s1, ground (arith, more, run, empty), left)
          | inr some_read ↦
              let (s', rest, left') =
                readn_from_lem fuel (tot + m) (a - m) s1 streams (omega (arith, some_read)) left in
              let sum : tot + m + min (n - (tot + m)) (a - m) ≡ tot + min (n - tot) a =
                omega (arith, le, le') in
              let after : a - m - min (n - (tot + m)) (a - m) ≡ a - min (n - tot) a =
                omega (arith, le, le') in
              (s', ground (arith, more, run, some_read, rest, sum), rw (sum, after) at left')
        ]
  ]

  -- Where, with `a` bytes left, every read of the rest of the buffer returns at most what is left
  -- and at most what it is asked for, and a byte if there is one, readn returns the smaller of `n`
  -- and `a`: the `n` rounds of its loop are enough.
  pub readn_lem :
      (a : ℕ) (s : Space (Frames τ))
      → Streams
      → I a 0 s
      → (s' : Space (Frames τ)) × (readn devtab fdnum buf n s ≡ returns (ok (min n a)) s')
        × I (a - min n a) (min n a) s'
  unfolding readn
  readn_lem a s streams holds =
      let (s', run, left) = readn_from_lem n 0 a s streams (omega arith) holds in
      let all : min (n - 0) a ≡ min n a = omega arith in
      let start : 0 + min n a ≡ min n a = omega arith in
      (s', rw (all, start) at run, rw (all, start) at left)
