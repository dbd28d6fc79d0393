-- ===== src/Kern/Stabs/Found.antt =====
-- What stab_binsearch finds: the entry that contains the address, or a region below the first entry.
use kludgeos.Base.{
  ℕ, ◌+◌, ◌-◌, ◌*◌, ◌^◌, ◌≤◌, ◌<◌, ◌≡◌, ap, ◌∙◌, inl, inr, true, Bool-cases, number_cases, ltb,
  if◌then◌else◌, none, some, arith,
}
use kludgeos.Kern.Stabs.{Stab, Bounds, search_start, search_rounds, search_ends, stab_binsearch}
use kludgeos.Kern.Stabs.Search.{IsBare}
use kludgeos.Kern.Stabs.Bracket.{
  value, IsSpaced, IsEntry, Ends, at_end, at_next, Brackets, Holds, Left, unset, is_set, settle_lem,
  not_bare, searched, bracketed,
}

module _ (stabs : ℕ → Stab) (type left right_end addr : ℕ) where
  -- The function returns what follows the loop.
  pub search_returns :
      (b : Bounds)
      → search_rounds stabs type (2 * right_end + 2) (search_start left right_end addr) ≡ some b
      → stab_binsearch stabs type left right_end addr ≡ some (search_ends stabs type b)
  unfolding stab_binsearch
  search_returns b run =
      ap (λ o. elim o [ none ↦ none | some b' ↦ some (search_ends stabs type b') ]) run

  search_ends_settled :
      (b : Bounds)
      → b.any_matches ≡ true
      → b.region_left < b.region_end
      → IsBare stabs type (b.region_left + 1) b.region_end
      → search_ends stabs type b ≡ record { left_end = b.region_left + 1; right_end = b.region_end }
  unfolding search_ends
  search_ends_settled b any lt bare = ground (
    arith,
    any,
    lt,
    settle_lem stabs type left right_end addr b.region_left (b.region_end - 1 - b.region_left)
        (λ i low high. bare i low (omega arith)),
  )

  search_ends_empty :
      (b : Bounds)
      → b.any_matches ≡ true
      → b.region_end ≤ b.region_left
      → search_ends stabs type b ≡ record { left_end = b.region_end; right_end = b.region_end }
  unfolding search_ends
  search_ends_empty b any le = ground (arith, any, le)

  any_match :
      (b : Bounds) (j : ℕ)
      → IsEntry stabs type left right_end addr j
      → Holds stabs type left right_end addr b
      → b.r_end ≤ b.l
      → b.any_matches ≡ true
  any_match b j e h over = elim h.any [
    | inl set ↦ set
    | inr (is, bare) ↦
        absurd (omega (arith, e.high, not_bare stabs type left right_end addr bare e e.low))
  ]

  module _ (spaced : IsSpaced stabs type left right_end addr) (fits : addr + 1 < 2 ^ 32) where
    -- On a table whose entries of the type lie in order and more than one address apart, with an
    -- entry at or below the address, which is below the last one of the address space,
    -- stab_binsearch leaves an entry of the type at or below the address, and the region behind it
    -- holds no other entry of the type and ends where the searched region does or before an entry
    -- above the address.
    pub stab_binsearch_finds :
        (j : ℕ)
        → IsEntry stabs type left right_end addr j
        → value stabs type left right_end addr j ≤ addr
        → (found end : ℕ) × (stab_binsearch stabs type left right_end addr
            ≡ some (record { left_end = found + 1; right_end = end }))
          × Brackets stabs type left right_end addr found end
    stab_binsearch_finds j e le =
        let (b, run, over, h) = searched stabs type left right_end addr spaced fits in
        let (brackets, lt) =
          bracketed stabs type left right_end addr spaced fits b j e le h over h.lefts in
        (
          b.region_left,
          b.r_end,
          search_returns b run
              ∙ ap some (
                  search_ends_settled b (any_match b j e h over) (omega (arith, h.same, lt))
                    (λ i low high. brackets.alone i low (omega (arith, h.same)))
                  ∙ ap (λ t. record { left_end = b.region_left + 1; right_end = t }) h.same),
          brackets,
        )

    -- The region ends before the first entry, which is above the address.
    stops_below :
        (b : Bounds) (k : ℕ)
        → IsEntry stabs type left right_end addr k
        → addr < value stabs type left right_end addr k
        → IsBare stabs type left k
        → Holds stabs type left right_end addr b
        → b.r_end ≤ b.l
        → Left stabs type left right_end addr b
        → Ends stabs type left right_end addr b.r_end
        → (b.region_left ≡ left) × (b.r_end ≡ k) × IsBare stabs type left b.l
    stops_below b k e above bare h over (is_set at contains rest) ends =
        absurd (elim (number_cases k b.region_left) [
          | inl same ↦
              omega (arith, above, contains, ap (value stabs type left right_end addr) same)
          | inr ne ↦ omega (
            arith,
            above,
            contains,
            not_bare stabs type left right_end addr bare at at.low,
            ne,
            spaced k b.region_left e.low
                (omega (arith, ne, not_bare stabs type left right_end addr bare at at.low)) at.high
                e.match at.match,
          )
        ])
    stops_below b k e above bare h over (unset is rest) (at_end end) =
        absurd (omega (arith, e.high, not_bare stabs type left right_end addr rest e e.low))
    stops_below b k e above bare h over (unset is rest) (at_next n gt) = (
      is,
      omega (
        arith,
        not_bare stabs type left right_end addr rest e e.low,
        not_bare stabs type left right_end addr bare n n.low,
      ),
      rest,
    )

    -- On such a table, where the first entry of the type in the region is above the address, the
    -- right end is the index before that entry, and the left end is that index too or the start of
    -- the region, so that the region is not marked as empty.
    pub stab_binsearch_before :
        (k : ℕ)
        → IsEntry stabs type left right_end addr k
        → addr < value stabs type left right_end addr k
        → IsBare stabs type left k
        → stab_binsearch stabs type left right_end addr
          ≡ some (record { left_end = if ltb left k then left + 1 else k; right_end = k })
    stab_binsearch_before k e above bare =
        let (b, run, over, h) = searched stabs type left right_end addr spaced fits in
        let (is, end, rest) = stops_below b k e above bare h over h.lefts h.ends in
        search_returns b run
        ∙ ap some (elim (Bool-cases (ltb left k)) [
          | inl lt ↦
              search_ends_settled b (any_match b k e h over) (ground (arith, is, end, h.same, lt))
                (λ i low high. rest i (omega (arith, is)) (omega (arith, h.same)))
              ∙ ground (arith, is, end, h.same, lt)
          | inr ge ↦
              search_ends_empty b (any_match b k e h over) (ground (arith, is, end, h.same, ge))
              ∙ ground (arith, is, end, h.same, ge)
        ])
