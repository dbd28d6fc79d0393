-- ===== src/User/Spawn/Inherited.antt =====
-- The child of spawn has the shared pages of its parent and no others from copy_shared_pages of
-- lib/spawn.c.
use kludgeos.Base.{
  ℕ, zero, suc, ◌+◌, ◌*◌, ◌/◌, ◌≤◌, ◌<◌, ◌≡◌, ◌≢◌, refl, ap, ◌∙◌, inl, inr, Bool, true, false,
  Bool-cases, number_cases, leb, ltb, ◌&&◌, if◌then◌else◌, bit_and, Option, Code, ok, err, Errno,
  arith,
}
use kludgeos.User.Fork.{
  Family, Target, to_child, with_perm, pte_user, nptentries, vpd_utop, try_then, sys_page_map,
}
use kludgeos.User.Fork.Copying.{Refusal, mapped, map_cases}
use kludgeos.User.Spawn.Shared.{is_shared, share_entries, share_tables, copy_shared_pages}

-- Whether the page `p` is one that the child gets.
abbrev inherits : Family → ℕ → Bool
inherits s p = s.own_table (p / nptentries) && is_shared (s.own p)

-- The pages from `lo` on and below `hi` are passed on.
pub record Shares (lo hi : ℕ) (s s' : Family) : Type 0 where
  pub own : (p : ℕ) → s'.own p ≡ s.own p
  pub own_table : (i : ℕ) → s'.own_table i ≡ s.own_table i
  pub child :
      (p : ℕ)
      → s'.child p ≡ (
          if leb lo p && ltb p hi && inherits s p
          then with_perm (s.own p) (bit_and (s.own p) pte_user)
          else s.child p)

Shares-none : (lo hi : ℕ) (s : Family) → hi ≤ lo → Shares lo hi s s
Shares-none lo hi s le = record {
  own = λ p. refl;
  own_table = λ i. refl;
  child = λ p. ground (arith, le);
}

Shares-then :
    (lo mid hi : ℕ) (s s1 s' : Family)
    → lo ≤ mid
    → mid ≤ hi
    → Shares lo mid s s1
    → Shares mid hi s1 s'
    → Shares lo hi s s'
Shares-then lo mid hi s s1 s' le le' first rest = record {
  own = λ p. rest.own p ∙ first.own p;
  own_table = λ i. rest.own_table i ∙ first.own_table i;
  child = λ p.
      ground (
        arith,
        le,
        le',
        rest.child p,
        first.child p,
        first.own p,
        first.own_table (p / nptentries),
      );
}

module _ (refuses : Target → ℕ → ℕ → Family → Option Errno) where
  -- A run that shares the pages, or that ends with a refusal of the kernel.
  abbrev pub SharesEnd : ℕ → ℕ → Family → Code (Unit {0}) × Family → Type 0
  SharesEnd lo hi s (ok u, s') = Shares lo hi s s'
  SharesEnd lo hi s (err x, s') = Refusal refuses x

  SharesEnd-then :
      (lo mid hi : ℕ) (s : Family) (q : Code (Unit {0}) × Family)
      (f : Family → Code (Unit {0}) × Family)
      → lo ≤ mid
      → mid ≤ hi
      → SharesEnd lo mid s q
      → ((s1 : Family) → Shares lo mid s s1 → SharesEnd mid hi s1 (f s1))
      → SharesEnd lo hi s (try_then q f)
  SharesEnd-then lo mid hi s (err x, s1) f le le' first rest = first
  SharesEnd-then lo mid hi s (ok u, s1) f le le' first rest = join (f s1) (rest s1 first)
    where
      join : (q : Code (Unit {0}) × Family) → SharesEnd mid hi s1 q → SharesEnd lo hi s q
      join (err x, s') cause = cause
      join (ok u', s') shares = Shares-then lo mid hi s s1 s' le le' first shares

  skip :
      (lo hi : ℕ) (s : Family) (q : Code (Unit {0}) × Family)
      → lo + 1 ≤ hi
      → inherits s lo ≡ false
      → SharesEnd (lo + 1) hi s q
      → SharesEnd lo hi s q
  skip lo hi s (err x, s') le not_shared cause = cause
  skip lo hi s (ok u, s') le not_shared shares =
      Shares-then lo (lo + 1) hi s s s' (omega arith) le
        (record {
          own = λ p. refl;
          own_table = λ i. refl;
          child = λ p. elim (number_cases p lo) [
            | inl same ↦ ground (arith, same, not_shared)
            | inr ne ↦ ground (arith, ne)
          ];
        })
        shares

  share_one :
      (pn : ℕ) (s : Family)
      → inherits s pn ≡ true
      → SharesEnd pn (pn + 1) s (sys_page_map refuses to_child pn (bit_and (s.own pn) pte_user) s)
  unfolding mapped
  share_one pn s shared = elim (map_cases refuses to_child pn (bit_and (s.own pn) pte_user) s) [
    | inr (x, cause, refused) ↦ rw refused cause
    | inl granted ↦ rw granted (record {
      own = λ p. refl;
      own_table = λ i. refl;
      child = λ p. elim (number_cases p pn) [
        | inl same ↦ ground (arith, same, shared)
        | inr ne ↦ ground (arith, ne)
      ];
    })
  ]

  share_entries_lem :
      (n pn hi : ℕ) (s : Family)
      → pn + n ≡ hi
      → ((p : ℕ) → pn ≤ p → p < hi → s.own_table (p / nptentries) ≡ true)
      → SharesEnd pn hi s (share_entries refuses n pn s)
  unfolding share_entries
  share_entries_lem zero pn hi s all there = Shares-none pn hi s (omega arith)
  share_entries_lem (suc n) pn hi s all there = elim (Bool-cases (is_shared (s.own pn))) [
    | inl shared ↦ rw shared (
        SharesEnd-then pn (pn + 1) hi s
          (sys_page_map refuses to_child pn (bit_and (s.own pn) pte_user) s)
          (share_entries refuses n (pn + 1)) (omega arith) (omega arith)
          (share_one pn s (ground (arith, shared, there pn (omega arith) (omega arith))))
          (λ s1 first.
            share_entries_lem n (pn + 1) hi s1 (omega arith)
              (λ p low high. first.own_table (p / nptentries) ∙ there p (omega arith) high)))
    | inr private ↦ rw private (
        skip pn hi s (share_entries refuses n (pn + 1) s) (omega arith) (ground (arith, private)) (
          share_entries_lem n (pn + 1) hi s (omega arith)
            (λ p low high. there p (omega arith) high)))
  ]

  -- The pages of a table that is not there are passed over.
  Shares-absent :
      (i : ℕ) (s : Family)
      → s.own_table i ≡ false
      → Shares (i * nptentries) ((i + 1) * nptentries) s s
  Shares-absent i s absent = record {
    own = λ p. refl;
    own_table = λ j. refl;
    child = λ p. elim (number_cases (p / nptentries) i) [
      | inl same ↦ ground (arith, ap s.own_table same ∙ absent)
      | inr ne ↦ outside p ne
    ];
  }
    where
      outside :
          (p : ℕ)
          → p / nptentries ≢ i
          → s.child p ≡ (
              if leb (i * nptentries) p && ltb p ((i + 1) * nptentries) && inherits s p
              then with_perm (s.own p) (bit_and (s.own p) pte_user)
              else s.child p)
      outside p ne = elim (Bool-cases (leb (i * nptentries) p && ltb p ((i + 1) * nptentries))) [
        | inl within ↦ absurd (ne (ground (arith, within)))
        | inr no_page ↦ ground (arith, no_page)
      ]

  share_tables_lem :
      (n i hi : ℕ) (s : Family)
      → i + n ≡ hi
      → SharesEnd (i * nptentries) (hi * nptentries) s (share_tables refuses n i s)
  unfolding share_tables
  share_tables_lem zero i hi s all = Shares-none (i * nptentries) (hi * nptentries) s (omega arith)
  share_tables_lem (suc n) i hi s all = elim (Bool-cases (s.own_table i)) [
    | inl there ↦ rw there (
        SharesEnd-then (i * nptentries) ((i + 1) * nptentries) (hi * nptentries) s
          (share_entries refuses nptentries (i * nptentries) s) (share_tables refuses n (i + 1))
          (omega arith) (omega arith)
          (share_entries_lem nptentries (i * nptentries) ((i + 1) * nptentries) s (omega arith)
            (λ p low high. ap s.own_table (omega arith) ∙ there))
          (λ s1 first. share_tables_lem n (i + 1) hi s1 (omega arith)))
    | inr absent ↦ rw absent (
        after_none (share_tables refuses n (i + 1) s) absent
          (share_tables_lem n (i + 1) hi s (omega arith)))
  ]
    where
      after_none :
          (q : Code (Unit {0}) × Family)
          → s.own_table i ≡ false
          → SharesEnd ((i + 1) * nptentries) (hi * nptentries) s q
          → SharesEnd (i * nptentries) (hi * nptentries) s q
      after_none (err x, s') absent cause = cause
      after_none (ok u, s') absent shares =
          Shares-then (i * nptentries) ((i + 1) * nptentries) (hi * nptentries) s s s' (omega arith)
            (omega arith) (Shares-absent i s absent) shares

  -- copy_shared_pages maps in the child, with the permissions of the parent, exactly the pages below
  -- UTOP that are present and marked as shared, and changes nothing else; it fails only with an error
  -- with which the kernel refused a call.
  pub copy_shared_pages_lem :
      (s : Family) → SharesEnd 0 (vpd_utop * nptentries) s (copy_shared_pages refuses s)
  unfolding copy_shared_pages
  copy_shared_pages_lem s = share_tables_lem vpd_utop 0 vpd_utop s refl
