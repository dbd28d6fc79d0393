-- ===== src/Kern/PageTable/Valid.antt =====
-- pgdir_walk that makes a page table, and page_insert of kern/pmap.c, on every branch that one CPU
-- can take: the free list stays valid.
use kludgeos.Base.{
  ℕ, ◌+◌, ◌%◌, ◌^◌, ◌≤◌, ◌<◌, ◌≡◌, refl, ◌≢◌, ◌∙◌, ◌⊎◌, inl, inr, true, false, update, has, List,
  list_cases, [], ◌∷◌, mem, some, ok, err, e_no_mem, arith,
}
use kludgeos.Kern.Machine.{Kern, returns, pte_p, pdx, ptx}
use kludgeos.Kern.Page.{atomic_inc, page2pa, kaddr, page2kva, page_alloc}
use kludgeos.Kern.Page.FreeList.{
  FreeListValid, FreeListValid-same, not_free, page_alloc-FreeListValid,
}
use kludgeos.Kern.PageTable.{page_lookup, new_table, entry_of, pgdir_walk, page_insert}
use kludgeos.Kern.PageTable.Entry.{pte_of-page, pte_of-present, pde_of, pde_of-page, pde_of-present}
use kludgeos.Kern.PageTable.Walk.{HasTable, pgdir_walk_found, page_lookup_found}
use kludgeos.Kern.PageTable.Remove.{Maps}
use kludgeos.Kern.PageTable.Insert.{
  page_insert_lookup, inserted, replaced, page_insert_empty, page_insert_over,
}

-- The kernel once pgdir_walk has made the page `pg` of the free list the table for `va`.
abbrev with_table : Kern → ℕ → ℕ → ℕ → List ℕ → Kern
with_table k pgdir va pg rest = record k {
  page_free_list = rest;
  word =
      update (update k.word pg (λ _. 0)) pgdir
        (update ((update k.word pg (λ _. 0)) pgdir) (pdx va) (pde_of pg));
  pp_ref = update k.pp_ref pg ((k.pp_ref pg + 1) % 2 ^ 32);
}

pub page2kva_lem :
    (k : Kern) (pg : ℕ) → pg < k.npage → k.npage ≤ 2 ^ 20 → page2kva pg k ≡ returns pg k
unfolding page2kva kaddr page2pa
page2kva_lem k pg lt few = ground arith

new_table_lem :
    (k : Kern) (pgdir va pg : ℕ)
    → k.ismp ≡ false
    → pg < k.npage
    → k.npage ≤ 2 ^ 20
    → new_table pgdir va pg k ≡ returns tt (with_table k pgdir va pg k.page_free_list)
unfolding new_table atomic_inc pde_of
new_table_lem k pgdir va pg up lt few = ground (arith, page2kva_lem k pg lt few)

-- With a free page, pgdir_walk makes a table of it, in which nothing is mapped.
pgdir_walk_new :
    (k : Kern) (pgdir va pg : ℕ) (rest : List ℕ)
    → k.ismp ≡ false
    → has (k.word pgdir (pdx va)) pte_p ≡ false
    → k.page_free_list ≡ pg ∷ rest
    → pg < k.npage
    → k.npage ≤ 2 ^ 20
    → pgdir_walk pgdir va true k ≡ returns (some (pg, ptx va)) (with_table k pgdir va pg rest)
unfolding pgdir_walk page_alloc entry_of kaddr
pgdir_walk_new k pgdir va pg rest up missing e lt few = ground (
  arith,
  new_table_lem (record k { page_free_list = rest }) pgdir va pg up lt few,
  pde_of-page pg (omega arith),
)

-- The entry for `va`, before a page is inserted there.
pub data Slot (k : Kern) (pgdir va : ℕ) : Type 0 where
  no_table : has (k.word pgdir (pdx va)) pte_p ≡ false → Slot k pgdir va
  vacant :
      (table : ℕ)
      → HasTable k pgdir va table
      → table ≢ pgdir
      → has (k.word table (ptx va)) pte_p ≡ false
      → Slot k pgdir va
  mapped : (table q : ℕ) → Maps k pgdir va table q → table ≢ pgdir → Slot k pgdir va

-- What the callers of page_insert see to: neither the page nor the directory is free.
pub record CanInsert (k : Kern) (pgdir pp va perm : ℕ) : Type 0 where
  pub one_cpu : k.ismp ≡ false
  pub few : k.npage ≤ 2 ^ 20
  pub page_in : pp < k.npage
  pub kept : mem pp k.page_free_list ≡ false
  pub dir_kept : mem pgdir k.page_free_list ≡ false
  pub fits : perm < 4096
  pub small : k.pp_ref pp + 1 < 2 ^ 32
  pub slot : Slot k pgdir va

-- A result of page_insert: `pp` is mapped at `va`, has a reference, and the free list is valid.
pub record IsInserted (k' : Kern) (pgdir pp va : ℕ) : Type 0 where
  pub list_valid : FreeListValid k'
  pub referenced : 0 < k'.pp_ref pp
  pub found : (table : ℕ) × (page_lookup pgdir va k' ≡ returns (some (pp, (table, ptx va))) k')

insert_vacant :
    (k : Kern) (pgdir pp va perm table : ℕ)
    → FreeListValid k
    → k.ismp ≡ false
    → k.npage ≤ 2 ^ 20
    → pp < k.npage
    → mem pp k.page_free_list ≡ false
    → perm < 4096
    → k.pp_ref pp + 1 < 2 ^ 32
    → HasTable k pgdir va table
    → table ≢ pgdir
    → has (k.word table (ptx va)) pte_p ≡ false
    → IsInserted (inserted k pp va perm table) pgdir pp va
insert_vacant k pgdir pp va perm table v up few page_in kept fits small h apart empty = record {
  list_valid =
      FreeListValid-same k (inserted k pp va perm table) v refl refl
        (λ p m. ground (arith, v.unreferenced p));
  referenced = ground arith;
  found =
      (table, (page_insert_lookup k pgdir pp va perm table up h empty apart page_in few fits).1);
}

insert_over :
    (k : Kern) (pgdir pp va perm table q : ℕ)
    → FreeListValid k
    → k.npage ≤ 2 ^ 20
    → pp < k.npage
    → mem pp k.page_free_list ≡ false
    → perm < 4096
    → k.pp_ref pp + 1 < 2 ^ 32
    → Maps k pgdir va table q
    → table ≢ pgdir
    → IsInserted (replaced k pgdir pp va perm table q) pgdir pp va
insert_over k pgdir pp va perm table q v few page_in kept fits small m apart = record {
  list_valid = record {
    distinct = ground (arith, v.distinct, not_free k q v m.counted);
    unreferenced = λ p h. ground (arith, v.unreferenced p, m.counted, not_free k q v m.counted);
    inside = λ p h. ground (arith, v.inside p, m.page_in);
  };
  referenced = ground (arith, m.counted);
  found = (
    table,
    page_lookup_found (replaced k pgdir pp va perm table q) pgdir va table pp
        (record {
          linked = ground (arith, m.has_table.linked);
          names = ground (arith, m.has_table.names);
          in_memory = m.has_table.in_memory;
        })
        (ground (arith, pte_of-present pp perm)) (ground (arith, pte_of-page pp perm)) page_in,
  );
}

-- With a new table, page_insert does what it does where the table was there before.
insert_with_table :
    (k : Kern) (pgdir pp va perm pg : ℕ) (rest : List ℕ)
    → k.ismp ≡ false
    → has (k.word pgdir (pdx va)) pte_p ≡ false
    → k.page_free_list ≡ pg ∷ rest
    → pg < k.npage
    → k.npage ≤ 2 ^ 20
    → HasTable (with_table k pgdir va pg rest) pgdir va pg
    → page_insert pgdir pp va perm k ≡ page_insert pgdir pp va perm (with_table k pgdir va pg rest)
unfolding page_insert
insert_with_table k pgdir pp va perm pg rest up missing e lt few h = ground (
  arith,
  pgdir_walk_new k pgdir va pg rest up missing e lt few,
  pgdir_walk_found (with_table k pgdir va pg rest) pgdir va pg true h,
)

insert_no_memory :
    (k : Kern) (pgdir pp va perm : ℕ)
    → has (k.word pgdir (pdx va)) pte_p ≡ false
    → k.page_free_list ≡ []
    → page_insert pgdir pp va perm k ≡ returns (err e_no_mem) k
unfolding page_insert pgdir_walk page_alloc
insert_no_memory k pgdir pp va perm missing e = ground arith

-- What page_insert ends with: -E_NO_MEM and an unchanged kernel, or a page that is inserted.
abbrev pub InsertEnds : Kern → ℕ → ℕ → ℕ → ℕ → Type 0
InsertEnds k pgdir pp va perm =
    (page_insert pgdir pp va perm k ≡ returns (err e_no_mem) k)
    ⊎ ((k' : Kern) × (page_insert pgdir pp va perm k ≡ returns (ok 0) k')
        × IsInserted k' pgdir pp va)

insert_new_table :
    (k : Kern) (pgdir pp va perm pg : ℕ) (rest : List ℕ)
    → FreeListValid k
    → CanInsert k pgdir pp va perm
    → has (k.word pgdir (pdx va)) pte_p ≡ false
    → k.page_free_list ≡ pg ∷ rest
    → InsertEnds k pgdir pp va perm
insert_new_table k pgdir pp va perm pg rest v c missing e =
    let (_, v1, unused, lt, gone) = page_alloc-FreeListValid k pg rest v e in
    let apart : pg ≢ pgdir = ground (arith, c.dir_kept) in
    let other : pg ≢ pp = ground (arith, c.kept) in
    let h : HasTable (with_table k pgdir va pg rest) pgdir va pg = record {
      linked = ground (arith, pde_of-present pg);
      names = ground (arith, pde_of-page pg (omega (arith, c.few)));
      in_memory = lt;
    } in
    let v2 : FreeListValid (with_table k pgdir va pg rest) =
      FreeListValid-same (record k { page_free_list = rest }) (with_table k pgdir va pg rest) v1
        refl refl (λ p m. ground (arith, v1.unreferenced p)) in
    let empty : has ((with_table k pgdir va pg rest).word pg (ptx va)) pte_p ≡ false =
      ground arith in
    inr (
      inserted (with_table k pgdir va pg rest) pp va perm pg,
      insert_with_table k pgdir pp va perm pg rest c.one_cpu missing e lt c.few h
          ∙ page_insert_empty (with_table k pgdir va pg rest) pgdir pp va perm pg c.one_cpu h empty,
      insert_vacant (with_table k pgdir va pg rest) pgdir pp va perm pg v2 c.one_cpu c.few c.page_in
          (ground (arith, c.kept)) c.fits (ground (arith, c.small)) h apart empty,
    )

insert_by_slot :
    (k : Kern) (pgdir pp va perm : ℕ)
    → FreeListValid k
    → CanInsert k pgdir pp va perm
    → Slot k pgdir va
    → InsertEnds k pgdir pp va perm
insert_by_slot k pgdir pp va perm v c (no_table missing) = elim (list_cases k.page_free_list) [
  | inl e ↦ inl (insert_no_memory k pgdir pp va perm missing e)
  | inr (pg, (rest, e)) ↦ insert_new_table k pgdir pp va perm pg rest v c missing e
]
insert_by_slot k pgdir pp va perm v c (vacant table h apart empty) = inr (
  inserted k pp va perm table,
  page_insert_empty k pgdir pp va perm table c.one_cpu h empty,
  insert_vacant k pgdir pp va perm table v c.one_cpu c.few c.page_in c.kept c.fits c.small h apart
      empty,
)
insert_by_slot k pgdir pp va perm v c (mapped table q m apart) = inr (
  replaced k pgdir pp va perm table q,
  page_insert_over k pgdir pp va perm table q c.one_cpu
      (record {
        has_table = record {
          linked = m.has_table.linked;
          names = m.has_table.names;
          in_memory = m.has_table.in_memory;
        };
        present = m.present;
        page = m.page;
        page_in = m.page_in;
        counted = ground (arith, m.counted, c.small);
        count_small = ground (arith, m.count_small, c.small);
      })
      apart,
  insert_over k pgdir pp va perm table q v c.few c.page_in c.kept c.fits c.small m apart,
)

-- On one CPU, with a valid free list that holds neither the page nor the directory, page_insert
-- always returns: either with -E_NO_MEM, and nothing has changed, or with 0, and the page has a
-- reference, a lookup of `va` finds it, and the free list is valid. This covers the branch that
-- makes a page table, that of an entry that is not present, and that of one that is replaced.
pub page_insert-InsertEnds :
    (k : Kern) (pgdir pp va perm : ℕ)
    → FreeListValid k
    → CanInsert k pgdir pp va perm
    → InsertEnds k pgdir pp va perm
page_insert-InsertEnds k pgdir pp va perm v c = insert_by_slot k pgdir pp va perm v c c.slot
