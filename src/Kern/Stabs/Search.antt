-- ===== src/Kern/Stabs/Search.antt =====
-- stab_binsearch ends on every table, whatever its order: the rounds of its loop, and its fuel.
use kludgeos.Base.{
  ℕ, zero, suc, ◌+◌, ◌-◌, ◌*◌, ◌/◌, ◌%◌, ◌^◌, ◌≤◌, ◌<◌, ◌≡◌, refl, ap, ◌≢◌, ◌⊎◌, inl, inr, true,
  false, Bool-cases, number_cases, ltb, none, some, arith,
}
use kludgeos.Kern.Stabs.{
  Stab, Bounds, Region, matches, last_match, search_scanned, search_round, search_rounds,
  search_start, search_ends, stab_binsearch,
}

module _ (stabs : ℕ → Stab) (type : ℕ) where
  -- No entry of the type from `lo` on and below `hi`.
  abbrev pub IsBare : ℕ → ℕ → Type 0
  IsBare lo hi = (i : ℕ) → lo ≤ i → i < hi → matches stabs type i ≡ false

  -- The last entry of the type among those from `l` on and below `hi`.
  pub record IsLast (l hi m : ℕ) : Type 0 where
    pub low : l ≤ m
    pub high : m < hi
    pub match : matches stabs type m ≡ true
    pub rest : IsBare (m + 1) hi

  pub last_match_lem :
      (l count : ℕ)
      → ((last_match stabs type l count ≡ none) × IsBare l (l + count))
        ⊎ ((m : ℕ) × (last_match stabs type l count ≡ some m) × IsLast l (l + count) m)
  unfolding last_match
  last_match_lem l zero = inl (refl, λ i low high. absurd (omega arith))
  last_match_lem l (suc count) = elim (Bool-cases (matches stabs type (l + count))) [
    | inl here ↦ inr (
      l + count,
      rw here refl,
      record {
        low = omega arith;
        high = omega arith;
        match = here;
        rest = λ i low high. absurd (omega arith);
      },
    )
    | inr other ↦ elim (last_match_lem l count) [
      | inl (is, bare) ↦ inl (rw other is, λ i low high. by_index i other bare low high)
      | inr (m, is, last) ↦ inr (
        m,
        rw other is,
        record {
          low = last.low;
          high = omega (arith, last.high);
          match = last.match;
          rest = λ i low high. by_index i other last.rest low high;
        },
      )
    ]
  ]
    where
      by_index :
          (i : ℕ) {lo : ℕ}
          → matches stabs type (l + count) ≡ false
          → IsBare lo (l + count)
          → lo ≤ i
          → i < l + suc count
          → matches stabs type i ≡ false
      by_index i other bare low high = elim (number_cases i (l + count)) [
        | inl same ↦ rw same other
        | inr ne ↦ bare i low (omega arith)
      ]

  -- The rounds of the loop: `m` is the entry that the scan down from `mid` stops at.
  pub data Round (b : Bounds) : Bounds → Type 0 where
    skips :
        (mid : ℕ)
        → b.l ≤ mid
        → mid < b.r_end
        → IsBare b.l (mid + 1)
        → Round b (record b { l = mid + 1 })
    goes_right :
        (mid m : ℕ)
        → mid < b.r_end
        → IsLast b.l (mid + 1) m
        → (stabs m).n_value < b.addr
        → Round b (record b { any_matches = true; region_left = m; l = mid + 1 })
    goes_left :
        (mid m : ℕ)
        → mid < b.r_end
        → IsLast b.l (mid + 1) m
        → b.addr < (stabs m).n_value
        → Round b (record b { any_matches = true; region_end = m; r_end = m })
    hits :
        (mid m : ℕ)
        → mid < b.r_end
        → IsLast b.l (mid + 1) m
        → (stabs m).n_value ≡ b.addr
        → Round b
            (record b { any_matches = true; region_left = m; l = m; addr = (b.addr + 1) % 2 ^ 32 })

  search_scanned-Round :
      (b : Bounds) (mid m : ℕ)
      → mid < b.r_end
      → IsLast b.l (mid + 1) m
      → Round b (search_scanned stabs type b mid (some m))
  unfolding search_scanned
  search_scanned-Round b mid m high last = elim (Bool-cases (ltb ((stabs m).n_value) b.addr)) [
    | inl lt ↦ rw lt (goes_right mid m high last (ground (arith, lt)))
    | inr ge ↦ elim (Bool-cases (ltb b.addr ((stabs m).n_value))) [
      | inl gt ↦ rw (ge, gt) (goes_left mid m high last (ground (arith, gt)))
      | inr le ↦ rw (ge, le) (hits mid m high last (ground (arith, ge, le)))
    ]
  ]

  search_round-Round : (b : Bounds) → b.l < b.r_end → Round b (search_round stabs type b)
  unfolding search_round search_scanned
  search_round-Round b inside =
      let mid = (b.l + (b.r_end - 1)) / 2 in
      let count : b.l + (mid + 1 - b.l) ≡ mid + 1 = omega arith in
      elim (last_match_lem b.l (mid + 1 - b.l)) [
        | inl (is, bare) ↦ rw is (skips mid (omega arith) (omega arith) (rw count at bare))
        | inr (m, is, last) ↦ rw is (search_scanned-Round b mid m (omega arith) (rw count at last))
      ]

  -- The last hit was at `l`: the next round moves on.
  abbrev pub IsSettled : Bounds → Type 0
  IsSettled b = (stabs b.l).n_value ≢ b.addr

  abbrev pub IsEnough : ℕ → Bounds → Type 0
  IsEnough fuel b = (2 * (b.r_end - b.l) + 1 ≤ fuel) ⊎ (IsSettled b × (2 * (b.r_end - b.l) ≤ fuel))

  Round-IsEnough :
      {b b' : Bounds} (fuel : ℕ)
      → Round b b'
      → b.l < b.r_end
      → IsEnough (suc fuel) b
      → IsEnough fuel b'
  Round-IsEnough fuel (skips mid low high bare) inside enough = inl (ground (arith, enough))
  Round-IsEnough fuel (goes_right mid m high last lt) inside enough =
      inl (ground (arith, enough, last.low, last.high))
  Round-IsEnough fuel (goes_left mid m high last gt) inside enough = elim enough [
    | inl more ↦ inl (omega (arith, last.low, last.high))
    | inr (settled, more) ↦ inr (settled, omega (arith, last.low, last.high))
  ]
  Round-IsEnough {b} fuel (hits mid m high last eq) inside enough = inr (
    λ same. ground (arith, same, eq),
    elim enough [
      | inl more ↦ omega (arith, last.low)
      | inr (settled, more) ↦ elim (number_cases m b.l) [
        | inl at ↦ absurd (settled (rw at at eq))
        | inr ne ↦ omega (arith, last.low, last.high)
      ]
    ],
  )

  -- The loop ends, with whatever every round keeps.
  pub search_rounds_lem :
      (I : Bounds → Type 0)
      → ((b b' : Bounds) → Round b b' → b.l < b.r_end → I b → I b')
      → (fuel : ℕ) (b : Bounds) → IsEnough fuel b
      → I b
      → (b' : Bounds) × (search_rounds stabs type fuel b ≡ some b') × (b'.r_end ≤ b'.l) × I b'
  unfolding search_rounds
  search_rounds_lem I keeps zero b enough holds =
      (b, ground (arith, enough), ground (arith, enough), holds)
  search_rounds_lem I keeps (suc fuel) b enough holds = elim (Bool-cases (ltb b.l b.r_end)) [
    | inr past ↦ (b, rw past refl, ground (arith, past), holds)
    | inl inside ↦
        let round = search_round-Round b (ground (arith, inside)) in
        let (b', run, ends, holds') =
          search_rounds_lem I keeps fuel (search_round stabs type b)
            (Round-IsEnough fuel round (ground (arith, inside)) enough)
            (keeps b _ round (ground (arith, inside)) holds) in
        (b', rw inside run, ends, holds')
  ]

  pub search_start-IsEnough :
      (left right_end addr : ℕ) → IsEnough (2 * right_end + 2) (search_start left right_end addr)
  search_start-IsEnough left right_end addr = inl (omega arith)

  -- On any table, in order or not, and on any region, the search ends with an answer.
  pub stab_binsearch_ends :
      (left right_end addr : ℕ)
      → (found : Region) × (stab_binsearch stabs type left right_end addr ≡ some found)
  unfolding stab_binsearch
  stab_binsearch_ends left right_end addr =
      let (b, run, ends, holds) =
        search_rounds_lem (λ b. Unit {0}) (λ b b' round inside u. tt) (2 * right_end + 2)
          (search_start left right_end addr) (search_start-IsEnough left right_end addr) tt in
      (
        search_ends stabs type b,
        ap (λ o. elim o [ none ↦ none | some b' ↦ some (search_ends stabs type b') ]) run,
      )
