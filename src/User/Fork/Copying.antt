-- ===== src/User/Fork/Copying.antt =====
-- What the copy of the address space in lib/fork.c leaves.
use kludgeos.Base.{
  ℕ, ◌+◌, ◌/◌, ◌≤◌, ◌≡◌, refl, ◌∙◌, ◌⊎◌, inl, inr, Bool, true, false, Bool-cases, number_cases, leb,
  ltb, not, ◌&&◌, ◌||◌, ◌==◌, if◌then◌else◌, update, has, bit_and, Option, none, some, Option-cases,
  Code, ok, err, Errno, arith,
}
use kludgeos.User.Fork.{
  Family, Target, to_child, to_own, with_perm, pte_w, pte_share, pte_cow, pte_user, perm_cow,
  nptentries, stack_page, try_then, sys_page_map, duppage,
}

-- A page that the processes may not share: it is written, or was copied, and is not marked as shared.
abbrev pub is_private : ℕ → Bool
is_private e =
    not (has (bit_and e pte_user) pte_share)
    && (has (bit_and e pte_user) pte_w || has (bit_and e pte_user) pte_cow)

-- The entries of a page that was copied: a private one is read-only and copy-on-write in both.
abbrev own_after : ℕ → ℕ
own_after e = if is_private e then with_perm e perm_cow else e

abbrev pub child_after : ℕ → ℕ
child_after e = with_perm e (if is_private e then perm_cow else bit_and e pte_user)

module _ (refuses : Target → ℕ → ℕ → Family → Option Errno) where
  -- The kernel refused a call with this error.
  abbrev pub Refusal : Errno → Type 0
  Refusal x =
      (target : Target) × (pn : ℕ) × (perm : ℕ) × (s : Family) × (refuses target pn perm s ≡ some x)

  -- The page `pn` was copied, and nothing else changed.
  pub record Copied (pn : ℕ) (s s' : Family) : Type 0 where
    at_own : (p : ℕ) → s'.own p ≡ update s.own pn (own_after (s.own pn)) p
    at_child : (p : ℕ) → s'.child p ≡ update s.child pn (child_after (s.own pn)) p
    at_table : (i : ℕ) → s'.own_table i ≡ s.own_table i

  unfoldable pub mapped : Target → ℕ → ℕ → Family → Family
  mapped to_child pn perm s = record s { child = update s.child pn (with_perm (s.own pn) perm) }
  mapped to_own pn perm s = record s { own = update s.own pn (with_perm (s.own pn) perm) }

  -- A call maps the page, or refuses and changes nothing.
  pub map_cases :
      (target : Target) (pn perm : ℕ) (s : Family)
      → (sys_page_map refuses target pn perm s ≡ (ok tt, mapped target pn perm s))
        ⊎ ((x : Errno) × (Refusal x) × (sys_page_map refuses target pn perm s ≡ (err x, s)))
  unfolding sys_page_map mapped
  map_cases target pn perm s = elim (Option-cases (refuses target pn perm s)) [
    | inl granted ↦ inl (by_target target granted)
    | inr (x, refused) ↦ inr (x, (target, pn, perm, s, refused), ground (arith, refused))
  ]
    where
      by_target :
          (to : Target)
          → refuses to pn perm s ≡ none
          → sys_page_map refuses to pn perm s ≡ (ok tt, mapped to pn perm s)
      by_target to_child granted = ground (arith, granted)
      by_target to_own granted = ground (arith, granted)

  abbrev pub DupEnds : ℕ → Family → Code (Unit {0}) × Family → Type 0
  DupEnds pn s (ok u, s') = Copied pn s s'
  DupEnds pn s (err x, s') = Refusal x

  module _ (pn : ℕ) (s : Family) where
    private_dup :
        is_private (s.own pn) ≡ true
        → duppage refuses pn s
          ≡ try_then
              (sys_page_map refuses to_child pn perm_cow s)
              (sys_page_map refuses to_own pn perm_cow)
    unfolding duppage
    private_dup private = rw private refl

    public_dup :
        is_private (s.own pn) ≡ false
        → duppage refuses pn s ≡ sys_page_map refuses to_child pn (bit_and (s.own pn) pte_user) s
    unfolding duppage
    public_dup public = rw public refl

    -- Where duppage succeeds, the page was copied.
    pub duppage_lem : DupEnds pn s (duppage refuses pn s)
    unfolding mapped
    duppage_lem = elim (Bool-cases (is_private (s.own pn))) [
      | inl private ↦ rw (private_dup private) (elim (map_cases to_child pn perm_cow s) [
        | inr (x, cause, refused) ↦ rw refused cause
        | inl granted ↦
            rw granted (elim (map_cases to_own pn perm_cow (mapped to_child pn perm_cow s)) [
              | inr (x, cause, refused) ↦ rw refused cause
              | inl granted' ↦ rw granted' (record {
                at_own = λ p. ground (arith, private);
                at_child = λ p. ground (arith, private);
                at_table = λ i. refl;
              })
            ])
      ])
      | inr public ↦
          rw (public_dup public) (elim (map_cases to_child pn (bit_and (s.own pn) pte_user) s) [
            | inr (x, cause, refused) ↦ rw refused cause
            | inl granted ↦ rw granted (record {
              at_own = λ p. ground (arith, public);
              at_child = λ p. ground (arith, public);
              at_table = λ i. refl;
            })
          ])
    ]

  -- The pages that are copied: all that are mapped, but that of the exception stack.
  abbrev pub copies : Family → ℕ → Bool
  copies s p = s.own_table (p / nptentries) && (has (s.own p) 1 && not (p == stack_page))

  abbrev pub between : ℕ → ℕ → ℕ → Bool
  between lo hi p = leb lo p && ltb p hi

  -- The pages from `lo` on and below `hi` were copied.
  pub record Dups (lo hi : ℕ) (s s' : Family) : Type 0 where
    pub owns :
        (p : ℕ)
        → s'.own p ≡ (if between lo hi p && copies s p then own_after (s.own p) else s.own p)
    pub gives :
        (p : ℕ)
        → s'.child p ≡ (if between lo hi p && copies s p then child_after (s.own p) else s.child p)
    pub table : (i : ℕ) → s'.own_table i ≡ s.own_table i

  abbrev pub SpaceEnds : ℕ → ℕ → Family → Code (Unit {0}) × Family → Type 0
  SpaceEnds lo hi s (ok u, s') = Dups lo hi s s'
  SpaceEnds lo hi s (err x, s') = Refusal x

  pub Dups-none : (lo hi : ℕ) (s : Family) → hi ≤ lo → Dups lo hi s s
  Dups-none lo hi s le = record {
    owns = λ p. ground arith;
    gives = λ p. ground arith;
    table = λ i. refl;
  }

  pub Dups-then :
      (lo mid hi : ℕ) (s s1 s' : Family)
      → lo ≤ mid
      → mid ≤ hi
      → Dups lo mid s s1
      → Dups mid hi s1 s'
      → Dups lo hi s s'
  Dups-then lo mid hi s s1 s' le le' first second = record {
    owns = λ p. ground (arith, first.owns p, second.owns p, first.table (p / nptentries));
    gives = λ p.
        ground (arith, first.owns p, first.gives p, second.gives p, first.table (p / nptentries));
    table = λ i. second.table i ∙ first.table i;
  }

  pub Dups-one :
      (pn : ℕ) (s s' : Family) → copies s pn ≡ true → Copied pn s s' → Dups pn (pn + 1) s s'
  Dups-one pn s s' is copied = record {
    owns = λ p. elim (number_cases p pn) [
      | inl same ↦ ground (arith, same, is, copied.at_own p)
      | inr other ↦ ground (arith, other, copied.at_own p)
    ];
    gives = λ p. elim (number_cases p pn) [
      | inl same ↦ ground (arith, same, is, copied.at_child p)
      | inr other ↦ ground (arith, other, copied.at_child p)
    ];
    table = copied.at_table;
  }

  pub Dups-skip : (pn : ℕ) (s : Family) → copies s pn ≡ false → Dups pn (pn + 1) s s
  Dups-skip pn s not_it = record {
    owns = λ p. elim (number_cases p pn) [
      | inl same ↦ ground (arith, same, not_it)
      | inr other ↦ ground (arith, other)
    ];
    gives = λ p. elim (number_cases p pn) [
      | inl same ↦ ground (arith, same, not_it)
      | inr other ↦ ground (arith, other)
    ];
    table = λ i. refl;
  }
