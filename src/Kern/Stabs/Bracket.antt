-- ===== src/Kern/Stabs/Bracket.antt =====
-- stab_binsearch brackets the address in a table whose entries of the type are in order.
use kludgeos.Base.{
  ℕ, zero, suc, ◌+◌, ◌*◌, ◌%◌, ◌^◌, ◌≤◌, ◌<◌, ◌≡◌, refl, ap, ◌≢◌, ◌⊎◌, inl, inr, true, false,
  Bool-cases, number_cases, ltb, some, arith,
}
use kludgeos.Kern.Stabs.{Stab, Bounds, matches, settle, search_start, search_rounds}
use kludgeos.Kern.Stabs.Search.{
  IsBare, IsLast, Round, skips, goes_right, goes_left, hits, search_rounds_lem,
  search_start-IsEnough,
}

module _ (stabs : ℕ → Stab) (type left right_end addr : ℕ) where
  abbrev pub value : ℕ → ℕ
  value i = (stabs i).n_value

  -- The entries of the type lie in increasing order, with more than one address between two.
  abbrev pub IsSpaced : Type 0
  IsSpaced =
      (i j : ℕ)
      → left ≤ i
      → i < j
      → j < right_end
      → matches stabs type i ≡ true
      → matches stabs type j ≡ true
      → value i + 1 < value j

  -- An entry of the type in the region.
  pub record IsEntry (i : ℕ) : Type 0 where
    pub low : left ≤ i
    pub high : i < right_end
    pub match : matches stabs type i ≡ true

  pub data Ends (end : ℕ) : Type 0 where
    at_end : end ≡ right_end → Ends end
    at_next : IsEntry end → addr < value end → Ends end

  -- `found` is the entry that contains the address, and the region ends before the next one.
  pub record Brackets (found end : ℕ) : Type 0 where
    pub entry : IsEntry found
    pub contains : value found ≤ addr
    pub alone : IsBare stabs type (found + 1) end
    pub ends : Ends end

  pub data Addressed (a : ℕ) : Type 0 where
    still : a ≡ addr → Addressed a
    bumped : (k : ℕ) → IsEntry k → value k ≡ addr → a ≡ addr + 1 → Addressed a

  pub data Left (b : Bounds) : Type 0 where
    unset : b.region_left ≡ left → IsBare stabs type left b.l → Left b
    is_set :
        IsEntry b.region_left
        → value b.region_left ≤ addr
        → IsBare stabs type (b.region_left + 1) b.l
        → Left b

  pub record Holds (b : Bounds) : Type 0 where
    pub low : left ≤ b.l
    pub high : b.r_end ≤ right_end
    pub same : b.region_end ≡ b.r_end
    pub addressed : Addressed b.addr
    pub lefts : Left b
    pub ends : Ends b.r_end
    pub any : (b.any_matches ≡ true) ⊎ ((b.r_end ≡ right_end) × IsBare stabs type left b.l)

  IsBare-join :
      (lo mid hi : ℕ)
      → IsBare stabs type lo mid
      → IsBare stabs type mid hi
      → IsBare stabs type lo hi
  IsBare-join lo mid hi first second i low high = elim (Bool-cases (ltb i mid)) [
    | inl lt ↦ first i low (ground (arith, lt))
    | inr ge ↦ second i (ground (arith, ge)) high
  ]

  Left-skips :
      (b : Bounds) (mid : ℕ)
      → Left b
      → IsBare stabs type b.l (mid + 1)
      → Left (record b { l = mid + 1 })
  Left-skips b mid (unset is bare) more = unset is (IsBare-join left b.l (mid + 1) bare more)
  Left-skips b mid (is_set entry le bare) more =
      is_set entry le (IsBare-join (b.region_left + 1) b.l (mid + 1) bare more)

  Left-above :
      (b : Bounds) (m : ℕ)
      → Left b
      → Left (record b { any_matches = true; region_end = m; r_end = m })
  Left-above b m (unset is bare) = unset is bare
  Left-above b m (is_set entry le bare) = is_set entry le bare

  entry :
      (b : Bounds) (mid m : ℕ)
      → mid < b.r_end
      → IsLast stabs type b.l (mid + 1) m
      → Holds b
      → IsEntry m
  entry b mid m high last h = record {
    low = omega (arith, h.low, last.low);
    high = omega (arith, h.high, last.high);
    match = last.match;
  }

  Holds-start : Holds (search_start left right_end addr)
  Holds-start = record {
    low = omega arith;
    high = omega arith;
    same = refl;
    addressed = still refl;
    lefts = unset refl (λ i low high. absurd (omega arith));
    ends = at_end refl;
    any = inr (refl, λ i low high. absurd (omega arith));
  }

  pub settle_lem :
      (at count : ℕ) → IsBare stabs type (at + 1) (at + count + 1) → settle stabs type at count ≡ at
  unfolding settle
  settle_lem at zero bare = refl
  settle_lem at (suc count) bare =
      rw (bare (at + suc count) (omega arith) (omega arith))
        (settle_lem at count (λ i low high. bare i low (omega arith)))

  -- An entry in the searched region and not bare where it stands.
  pub not_bare : {lo hi i : ℕ} → IsBare stabs type lo hi → IsEntry i → lo ≤ i → hi ≤ i
  not_bare {lo} {hi} {i} bare e low = elim (Bool-cases (ltb i hi)) [
    | inl lt ↦ absurd (apart e.match (bare i low (ground (arith, lt))))
    | inr ge ↦ ground (arith, ge)
  ]
    where
      apart : matches stabs type i ≡ true → matches stabs type i ≢ false
      apart a b = ground (arith, a, b)

  module _ (spaced : IsSpaced) (fits : addr + 1 < 2 ^ 32) where
    -- Two entries whose values are no further apart than one address are the same.
    bumped_apart : (a m : ℕ) → IsEntry m → value m ≤ a → Addressed a → value m ≤ addr
    bumped_apart a m entry le (still same) = omega arith
    bumped_apart a m entry le (bumped k at is same) = elim (number_cases m k) [
      | inl eq ↦ rw eq (omega (arith, is))
      | inr ne ↦ elim (Bool-cases (ltb m k)) [
        | inl lt ↦
            omega (arith, spaced m k entry.low (ground (arith, lt)) at.high entry.match at.match)
        | inr ge ↦ absurd (
            omega (
              arith,
              is,
              spaced k m at.low (ground (arith, ge, ne)) entry.high at.match entry.match,
            ))
      ]
    ]

    Addressed-bump :
        (a m : ℕ) → IsEntry m → value m ≡ a → Addressed a → Addressed ((a + 1) % 2 ^ 32)
    Addressed-bump a m entry at (still same) =
        bumped m entry (omega arith) (omega (arith, fits, same))
    Addressed-bump a m entry at (bumped k e is same) =
        absurd (omega (arith, bumped_apart a m entry (omega arith) (bumped k e is same)))

    Addressed-le : (a : ℕ) → Addressed a → addr ≤ a
    Addressed-le a (still same) = omega arith
    Addressed-le a (bumped k e is same) = omega arith

    Round-Holds : (b b' : Bounds) → Round stabs type b b' → b.l < b.r_end → Holds b → Holds b'
    Round-Holds b b' (skips mid low high bare) inside h = record {
      low = omega (arith, h.low);
      high = h.high;
      same = h.same;
      addressed = h.addressed;
      lefts = Left-skips b mid h.lefts bare;
      ends = h.ends;
      any = elim h.any [
        | inl set ↦ inl set
        | inr (is, none_yet) ↦ inr (is, IsBare-join left b.l (mid + 1) none_yet bare)
      ];
    }
    Round-Holds b b' (goes_right mid m high last lt) inside h = record {
      low = omega (arith, h.low, last.low, last.high);
      high = h.high;
      same = h.same;
      addressed = h.addressed;
      lefts =
          is_set (entry b mid m high last h)
            (bumped_apart b.addr m (entry b mid m high last h) (omega arith) h.addressed) last.rest;
      ends = h.ends;
      any = inl refl;
    }
    Round-Holds b b' (goes_left mid m high last gt) inside h = record {
      low = h.low;
      high = omega (arith, h.high, last.high);
      same = refl;
      addressed = h.addressed;
      lefts = Left-above b m h.lefts;
      ends = at_next (entry b mid m high last h) (omega (arith, Addressed-le b.addr h.addressed));
      any = inl refl;
    }
    Round-Holds b b' (hits mid m high last eq) inside h = record {
      low = omega (arith, h.low, last.low);
      high = h.high;
      same = h.same;
      addressed = Addressed-bump b.addr m (entry b mid m high last h) eq h.addressed;
      lefts =
          is_set (entry b mid m high last h)
            (bumped_apart b.addr m (entry b mid m high last h) (omega arith) h.addressed)
            (λ i lo hi. absurd (omega arith));
      ends = h.ends;
      any = inl refl;
    }

    pub searched :
        (b : Bounds) × (search_rounds stabs type
            (2 * right_end + 2)
            (search_start left right_end addr)
          ≡ some b)
        × (b.r_end ≤ b.l)
        × Holds b
    searched =
        search_rounds_lem stabs type Holds Round-Holds (2 * right_end + 2)
          (search_start left right_end addr) (search_start-IsEnough stabs type left right_end addr)
          Holds-start

    -- An entry at or below the address lies before the end of the region.
    pub entry_before : (end j : ℕ) → IsEntry j → value j ≤ addr → Ends end → j < end
    entry_before end j e le (at_end is) = omega (arith, e.high)
    entry_before end j e le (at_next n gt) = elim (number_cases j end) [
      | inl same ↦ absurd (omega (arith, le, gt, ap value same))
      | inr ne ↦ elim (Bool-cases (ltb j end)) [
        | inl lt ↦ ground (arith, lt)
        | inr ge ↦ absurd (
            omega
              (arith, le, gt, spaced end j n.low (ground (arith, ge, ne)) e.high n.match e.match))
      ]
    ]

    pub bracketed :
        (b : Bounds) (j : ℕ)
        → IsEntry j
        → value j ≤ addr
        → Holds b
        → b.r_end ≤ b.l
        → Left b
        → Brackets b.region_left b.r_end × (b.region_left < b.r_end)
    bracketed b j e le h over (unset is bare) =
        absurd (omega (arith, not_bare bare e e.low, entry_before b.r_end j e le h.ends))
    bracketed b j e le h over (is_set at contains bare) = (
      record {
        entry = at;
        contains = contains;
        alone = λ i low high. bare i low (omega arith);
        ends = h.ends;
      },
      entry_before b.r_end b.region_left at contains h.ends,
    )
