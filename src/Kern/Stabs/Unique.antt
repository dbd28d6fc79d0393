-- ===== src/Kern/Stabs/Unique.antt =====
-- The region that stab_binsearch leaves is the only one that brackets the address, and no search
-- leaves its region to the left.
use kludgeos.Base.{
  ℕ, zero, suc, ◌+◌, ◌-◌, ◌*◌, ◌^◌, ◌≤◌, ◌<◌, ◌≡◌, ap, ◌∙◌, ◌≢◌, inl, inr, Bool, true, false, ltb,
  some, Bool-cases, arith,
}
use kludgeos.Kern.Stabs.{Stab, Bounds, Region, settle, search_ends, search_start, stab_binsearch}
use kludgeos.Kern.Stabs.Search.{
  Round, skips, goes_right, goes_left, hits, search_rounds_lem, search_start-IsEnough,
}
use kludgeos.Kern.Stabs.Bracket.{IsSpaced, Ends, at_end, at_next, Brackets, entry_before}
use kludgeos.Kern.Stabs.Found.{search_returns, stab_binsearch_finds}

module _ (stabs : ℕ → Stab) (type left right_end addr : ℕ) where
  -- No search leaves its region to the left.
  record Stays (b : Bounds) : Type 0 where
    low : left ≤ b.l
    low_left : left ≤ b.region_left
    low_end : left ≤ b.region_end

  Round-Stays : (b b' : Bounds) → Round stabs type b b' → b.l < b.r_end → Stays b → Stays b'
  Round-Stays b b' (skips mid low high bare) inside h = record {
    low = omega (arith, h.low);
    low_left = h.low_left;
    low_end = h.low_end;
  }
  Round-Stays b b' (goes_right mid m high last lt) inside h = record {
    low = omega (arith, h.low, last.low, last.high);
    low_left = omega (arith, h.low, last.low);
    low_end = h.low_end;
  }
  Round-Stays b b' (goes_left mid m high last gt) inside h = record {
    low = h.low;
    low_left = h.low_left;
    low_end = omega (arith, h.low, last.low);
  }
  Round-Stays b b' (hits mid m high last eq) inside h = record {
    low = omega (arith, h.low, last.low);
    low_left = omega (arith, h.low, last.low);
    low_end = h.low_end;
  }

  settle_from : (at count : ℕ) → at ≤ settle stabs type at count
  unfolding settle
  settle_from at zero = omega arith
  settle_from at (suc count) = ground (arith, settle_from at count)

  search_ends_within : (b : Bounds) → Stays b → left ≤ (search_ends stabs type b).left_end
  unfolding search_ends
  search_ends_within b h =
      ground
        (arith, h.low_left, h.low_end, settle_from b.region_left (b.region_end - 1 - b.region_left))

  pub stab_binsearch_within :
      left ≤ right_end
      → (r : Region) × (stab_binsearch stabs type left right_end addr ≡ some r)
        × (left ≤ r.left_end)
  stab_binsearch_within le =
      let (b, run, over, h) =
        search_rounds_lem stabs type Stays Round-Stays (2 * right_end + 2)
          (search_start left right_end addr) (search_start-IsEnough stabs type left right_end addr)
          (record { low = omega arith; low_left = omega arith; low_end = le }) in
      (
        search_ends stabs type b,
        search_returns stabs type left right_end addr b run,
        search_ends_within b h,
      )

  module _ (spaced : IsSpaced stabs type left right_end addr) (fits : addr + 1 < 2 ^ 32) where
    not_further :
        (f e f' e' : ℕ)
        → Brackets stabs type left right_end addr f e
        → Brackets stabs type left right_end addr f' e'
        → f' ≤ f
    not_further f e f' e' b b' = elim (Bool-cases (ltb f f')) [
      | inr ge ↦ ground (arith, ge)
      | inl lt ↦ absurd (
          apart b'.entry.match (
            b.alone f' (ground (arith, lt)) (
              entry_before stabs type left right_end addr spaced fits e f' b'.entry b'.contains
                b.ends)))
    ]
      where
        apart : {c : Bool} → c ≡ true → c ≢ false
        apart p q = ground (arith, p, q)

    no_longer :
        (f e e' : ℕ)
        → Brackets stabs type left right_end addr f e
        → Brackets stabs type left right_end addr f e'
        → e' ≤ e
    no_longer f e e' b b' = by_end b.ends b'.ends
      where
        apart : {c : Bool} → c ≡ true → c ≢ false
        apart p q = ground (arith, p, q)

        reaches : Ends stabs type left right_end addr e' → e' ≤ right_end
        reaches (at_end is) = omega arith
        reaches (at_next n gt) = omega (arith, n.high)

        by_end :
            Ends stabs type left right_end addr e → Ends stabs type left right_end addr e' → e' ≤ e
        by_end (at_end is) ends' = omega (arith, reaches ends')
        by_end (at_next n gt) ends' = elim (Bool-cases (ltb e e')) [
          | inr ge ↦ ground (arith, ge)
          | inl lt ↦ absurd (
              apart n.match (
                b'.alone e
                  (omega (
                    arith,
                    entry_before stabs type left right_end addr spaced fits e f b.entry b.contains
                        b.ends,
                  ))
                  (ground (arith, lt))))
        ]

    -- The bracket is the one that the search finds.
    pub stab_binsearch_brackets :
        (f e : ℕ)
        → Brackets stabs type left right_end addr f e
        → stab_binsearch stabs type left right_end addr
          ≡ some (record { left_end = f + 1; right_end = e })
    stab_binsearch_brackets f e b =
        let (f', e', run, b') =
          stab_binsearch_finds stabs type left right_end addr spaced fits f b.entry b.contains in
        let same_f : f' ≡ f =
          omega (arith, not_further f e f' e' b b', not_further f' e' f e b' b) in
        let at : Brackets stabs type left right_end addr f e' = rw same_f at b' in
        let same_e : e' ≡ e = omega (arith, no_longer f e e' b at, no_longer f e' e at b) in
        run ∙ ap some (ground (arith, same_f, same_e))
