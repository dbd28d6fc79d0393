-- ===== src/User/Fork/Copies.antt =====
-- The loops of fork in lib/fork.c copy every page that is mapped.
use kludgeos.Base.{
  ℕ, zero, suc, ◌+◌, ◌*◌, ◌/◌, ◌%◌, ◌≤◌, ◌<◌, ◌≡◌, refl, ◌∙◌, inl, inr, true, false, Bool-cases,
  ==→eq, number_cases, ◌==◌, has, has_pow, bit, sym, ap, ◌^◌, bit_and, Option, Code, ok, err, Errno,
  arith,
}
use kludgeos.User.Fork.{
  Family, Target, vpd_utop, nptentries, stack_page, try_then, duppage, dup_entries, dup_tables,
  dup_space, with_perm, pte_user, pte_share, perm_cow,
}
use kludgeos.User.Fork.Copying.{
  DupEnds, duppage_lem, copies, Dups, SpaceEnds, Dups-none, Dups-then, Dups-one, Dups-skip,
  child_after, is_private,
}

module _ (refuses : Target → ℕ → ℕ → Family → Option Errno) where
  join :
      (lo mid hi : ℕ) (s s1 : Family) (q : Code (Unit {0}) × Family)
      → lo ≤ mid
      → mid ≤ hi
      → Dups refuses lo mid s s1
      → SpaceEnds refuses mid hi s1 q
      → SpaceEnds refuses lo hi s q
  join lo mid hi s s1 (ok u, s') le le' first second =
      Dups-then refuses lo mid hi s s1 s' le le' first second
  join lo mid hi s s1 (err x, s') le le' first cause = cause

  then_ends :
      (lo mid hi : ℕ) (s : Family) (q : Code (Unit {0}) × Family)
      (f : Family → Code (Unit {0}) × Family)
      → lo ≤ mid
      → mid ≤ hi
      → SpaceEnds refuses lo mid s q
      → ((s1 : Family) → Dups refuses lo mid s s1 → SpaceEnds refuses mid hi s1 (f s1))
      → SpaceEnds refuses lo hi s (try_then q f)
  then_ends lo mid hi s (ok u, s1) f le le' first rest =
      join lo mid hi s s1 (f s1) le le' first (rest s1 first)
  then_ends lo mid hi s (err x, s1) f le le' cause rest = cause

  one_ends :
      (pn : ℕ) (s : Family) (q : Code (Unit {0}) × Family)
      → copies refuses s pn ≡ true
      → DupEnds refuses pn s q
      → SpaceEnds refuses pn (pn + 1) s q
  one_ends pn s (ok u, s') is copied = Dups-one refuses pn s s' is copied
  one_ends pn s (err x, s') is cause = cause

  -- The rounds on the table `i`, from the page `pn` on, copy what is mapped.
  module _ (i : ℕ) where
    skip_step :
        (n j : ℕ) (s : Family)
        → has (s.own (i * nptentries + j)) 1 ≡ false
        → dup_entries refuses (suc n) i j s ≡ dup_entries refuses n i (j + 1) s
    unfolding dup_entries
    skip_step n j s absent = rw absent refl

    stop_step :
        (n j : ℕ) (s : Family)
        → has (s.own (i * nptentries + j)) 1 ≡ true
        → (i * nptentries + j == stack_page) ≡ true
        → dup_entries refuses (suc n) i j s ≡ (ok tt, s)
    unfolding dup_entries
    stop_step n j s there stack = rw there (rw stack refl)

    copy_step :
        (n j : ℕ) (s : Family)
        → has (s.own (i * nptentries + j)) 1 ≡ true
        → (i * nptentries + j == stack_page) ≡ false
        → dup_entries refuses (suc n) i j s
          ≡ try_then (duppage refuses (i * nptentries + j) s) (dup_entries refuses n i (j + 1))
    unfolding dup_entries
    copy_step n j s there other = rw there (rw other refl)

  dup_entries_lem :
      (n i j hi : ℕ) (s : Family)
      → s.own_table i ≡ true
      → j + n ≡ nptentries
      → hi ≡ i * nptentries + j + n
      → SpaceEnds refuses (i * nptentries + j) hi s (dup_entries refuses n i j s)
  unfolding dup_entries
  dup_entries_lem zero i j hi s there at_end is = Dups-none refuses _ hi s (omega (arith, is))
  dup_entries_lem (suc n) i j hi s there at_end is = elim (Bool-cases (has (s.own pn) 1)) [
    | inr absent ↦ rw (skip_step i n j s absent) (
        join pn (pn + 1) hi s s _ (omega arith) (omega (arith, is))
          (Dups-skip refuses pn s (ground (arith, absent)))
          (rw assoc at (dup_entries_lem n i (j + 1) hi s there (omega arith) (omega (arith, is)))))
    | inl present ↦ elim (Bool-cases (pn == stack_page)) [
      | inl stack ↦ rw (stop_step i n j s present stack) (
          rw (last_one (==→eq pn stack_page stack))
            (Dups-skip refuses pn s (ground (arith, stack))))
      | inr other ↦ rw (copy_step i n j s present other) (
          then_ends pn (pn + 1) hi s _ _ (omega arith) (omega (arith, is))
            (one_ends pn s _ (ground (arith, present, other, table_of, there))
              (duppage_lem refuses pn s))
            (λ s1 dups. rw assoc at (
              dup_entries_lem n i (j + 1) hi s1 (dups.table i ∙ there) (omega arith)
                (omega (arith, is)))))
    ]
  ]
    where
      pn : ℕ
      pn = i * nptentries + j

      assoc : i * nptentries + (j + 1) ≡ pn + 1
      assoc = omega arith

      table_of : pn / nptentries ≡ i
      table_of = omega arith

      last_one : pn ≡ stack_page → hi ≡ pn + 1
      last_one e = omega (arith, e, is)

  dup_tables_lem :
      (n i : ℕ) (s : Family)
      → SpaceEnds refuses (i * nptentries) ((i + n) * nptentries) s (dup_tables refuses n i s)
  unfolding dup_tables
  dup_tables_lem zero i s = Dups-none refuses _ _ s (omega arith)
  dup_tables_lem (suc n) i s = elim (Bool-cases (s.own_table i)) [
    | inl there ↦ rw there (
        then_ends (i * nptentries) ((i + 1) * nptentries) ((i + suc n) * nptentries) s _ _
          (omega arith) (omega arith)
          (rw first at
            (dup_entries_lem nptentries i 0 ((i + 1) * nptentries) s there refl (omega arith)))
          (λ s1 dups. rw rest at (dup_tables_lem n (i + 1) s1)))
    | inr absent ↦ rw absent (
        join (i * nptentries) ((i + 1) * nptentries) ((i + suc n) * nptentries) s s _ (omega arith)
          (omega arith) (no_table absent) (rw rest at (dup_tables_lem n (i + 1) s)))
  ]
    where
      first : i * nptentries + 0 ≡ i * nptentries
      first = omega arith

      rest : i + 1 + n ≡ i + suc n
      rest = omega arith

      no_table : s.own_table i ≡ false → Dups refuses (i * nptentries) ((i + 1) * nptentries) s s
      no_table absent = record {
        owns = λ p. elim (number_cases (p / nptentries) i) [
          | inl same ↦ ground (arith, same, absent)
          | inr other ↦ ground (arith, other)
        ];
        gives = λ p. elim (number_cases (p / nptentries) i) [
          | inl same ↦ ground (arith, same, absent)
          | inr other ↦ ground (arith, other)
        ];
        table = λ k. refl;
      }

  -- The copy of an address space ends, with an error only where the kernel refused a call. Where it
  -- succeeds, every page below UTOP that is mapped, but that of the exception stack, is mapped in the
  -- child to the same memory, with the parent's permissions where it is shared or read-only, and
  -- copy-on-write in both where it is not; no other entry has changed.
  pub dup_space_lem :
      (s : Family) → SpaceEnds refuses 0 (vpd_utop * nptentries) s (dup_space refuses s)
  unfolding dup_space
  dup_space_lem s = dup_tables_lem vpd_utop 0 s

has-with_perm : (e x : ℕ) → has (with_perm e x) 2 ≡ has x 2
unfolding bit
has-with_perm e x = has_pow (with_perm e x) 1 ∙ ap (λ (b : ℕ). b == 1) same ∙ sym (has_pow x 1)
  where
    halves : (e / 2 ^ 12 * 2 ^ 12 + x) / 2 % 2 ≡ x / 2 % 2
    halves = omega arith

    same : bit (with_perm e x) 1 ≡ bit x 1
    same = halves

child_after-shared :
    (e : ℕ) → has (child_after e) 2 ≡ true → has (bit_and e pte_user) pte_share ≡ true
child_after-shared e h = elim (Bool-cases (is_private e)) [
  | inl private ↦ absurd (ground (arith, private, h, has-with_perm e perm_cow))
  | inr public ↦ ground (arith, public, h, has-with_perm e (bit_and e pte_user))
]

-- Where the copy succeeds, a copied page that the child may write is a page marked as shared.
dup_space_isolates :
    (refuses : Target → ℕ → ℕ → Family → Option Errno) (s s' : Family) (p : ℕ)
    → dup_space refuses s ≡ (ok tt, s')
    → p < vpd_utop * nptentries
    → copies refuses s p ≡ true
    → has (s'.child p) 2 ≡ true
    → has (bit_and (s.own p) pte_user) pte_share ≡ true
dup_space_isolates refuses s s' p run lt is writable =
    child_after-shared (s.own p) (ground (arith, dups.gives p, lt, is, writable))
  where
    dups : Dups refuses 0 (vpd_utop * nptentries) s s'
    dups = rw run at (dup_space_lem refuses s)
