-- ===== src/Kern/Syscall/Memory.antt =====
-- sys_page_alloc of kern/syscall.c on one CPU: every way it ends, with the pages and the free list.
use kludgeos.Base.{
  ℕ, ◌^◌, ◌≤◌, ◌<◌, ◌≡◌, refl, ◌⊎◌, inl, inr, true, false, update, List, list_cases, [], ◌∷◌, mem,
  ok, err, e_no_mem, arith,
}
use kludgeos.Kern.Machine.{Kern, returns}
use kludgeos.Kern.Page.{page_alloc, page_free}
use kludgeos.Kern.Page.FreeList.{FreeListValid, FreeListValid-same, page_alloc-FreeListValid}
use kludgeos.Kern.PageTable.{page_insert}
use kludgeos.Kern.PageTable.Walk.{HasTable}
use kludgeos.Kern.PageTable.Valid.{
  Slot, no_table, vacant, mapped, CanInsert, IsInserted, page2kva_lem, page_insert-InsertEnds,
}
use kludgeos.Kern.Syscall.{find_env, bad_perm, bad_va, sys_page_alloc}

-- The first free page taken and zeroed.
abbrev pub zeroed : Kern → ℕ → List ℕ → Kern
zeroed k p rest = record k { page_free_list = rest; word = update k.word p (λ _. 0) }

-- The kernel's books on the address space `pgdir` at `va`: the directory and its table are not
-- free, and what the entry maps is counted.
pub record IsKept (k : Kern) (pgdir va : ℕ) : Type 0 where
  pub dir_kept : mem pgdir k.page_free_list ≡ false
  pub table_kept : (table : ℕ) → HasTable k pgdir va table → mem table k.page_free_list ≡ false
  pub slot : Slot k pgdir va

-- The walk from the directory does not go through the page that is zeroed.
Slot-zeroed :
    (k : Kern) (pgdir va p : ℕ) (rest : List ℕ)
    → k.page_free_list ≡ p ∷ rest
    → mem pgdir k.page_free_list ≡ false
    → ((table : ℕ) → HasTable k pgdir va table → mem table k.page_free_list ≡ false)
    → Slot k pgdir va
    → Slot (zeroed k p rest) pgdir va
Slot-zeroed k pgdir va p rest e dir tables (no_table missing) = no_table (ground arith)
Slot-zeroed k pgdir va p rest e dir tables (vacant table h apart empty) =
    vacant table
      (record {
        linked = ground (arith, h.linked);
        names = ground (arith, h.names);
        in_memory = h.in_memory;
      })
      apart (ground (arith, tables table h))
Slot-zeroed k pgdir va p rest e dir tables (mapped table q m apart) =
    mapped table q
      (record {
        has_table = record {
          linked = ground (arith, m.has_table.linked);
          names = ground (arith, m.has_table.names);
          in_memory = m.has_table.in_memory;
        };
        present = ground (arith, tables table m.has_table, m.present);
        page = ground (arith, tables table m.has_table, m.page);
        page_in = m.page_in;
        counted = m.counted;
        count_small = m.count_small;
      })
      apart

-- -E_NO_MEM, and no page is lost: the free list and the counts are as before, and so are the words
-- of every page that is not free.
pub record IsRefused (k k' : Kern) : Type 0 where
  pub same_list : k'.page_free_list ≡ k.page_free_list
  pub same_counts : (p : ℕ) → k'.pp_ref p ≡ k.pp_ref p
  pub same_words : (p i : ℕ) → mem p k.page_free_list ≡ false → k'.word p i ≡ k.word p i

-- How sys_page_alloc ends.
abbrev pub AllocEnds : Kern → ℕ → ℕ → ℕ → ℕ → Type 0
AllocEnds k envid pgdir va perm =
    (k' : Kern) × (((sys_page_alloc envid va perm k ≡ returns (err e_no_mem) k') × IsRefused k k')
      ⊎ ((sys_page_alloc envid va perm k ≡ returns (ok 0) k')
          × ((p : ℕ) × (mem p k.page_free_list ≡ true) × IsInserted k' pgdir p va)))

module _ (k : Kern) (envid e va perm : ℕ) (who : find_env envid true k ≡ returns (ok e) k)
    (good_perm : bad_perm perm ≡ false) (good_va : bad_va va ≡ false) where
  no_page : k.page_free_list ≡ [] → sys_page_alloc envid va perm k ≡ returns (err e_no_mem) k
  unfolding sys_page_alloc page_alloc
  no_page h = ground arith

  module _ (p : ℕ) (rest : List ℕ) (list : k.page_free_list ≡ p ∷ rest) (lt : p < k.npage)
      (few : k.npage ≤ 2 ^ 20) where
    insert_done :
        (k' : Kern)
        → page_insert ((k.envs e).env_pgdir) p va perm (zeroed k p rest) ≡ returns (ok 0) k'
        → sys_page_alloc envid va perm k ≡ returns (ok 0) k'
    unfolding sys_page_alloc page_alloc
    insert_done k' h = ground (arith, page2kva_lem (record k { page_free_list = rest }) p lt few)

    insert_failed :
        k.pp_ref p ≡ 0
        → page_insert ((k.envs e).env_pgdir) p va perm (zeroed k p rest)
          ≡ returns (err e_no_mem) (zeroed k p rest)
        → sys_page_alloc envid va perm k
          ≡ returns (err e_no_mem) (record (zeroed k p rest) { page_free_list = p ∷ rest })
    unfolding sys_page_alloc page_alloc page_free
    insert_failed unused h =
        ground (arith, page2kva_lem (record k { page_free_list = rest }) p lt few)

    with_page :
        FreeListValid k
        → k.ismp ≡ false
        → perm < 4096
        → IsKept k ((k.envs e).env_pgdir) va
        → AllocEnds k envid ((k.envs e).env_pgdir) va perm
    with_page v up fits kept =
        let (_, v1, unused, _, gone) = page_alloc-FreeListValid k p rest v list in
        let v2 : FreeListValid (zeroed k p rest) =
          FreeListValid-same (record k { page_free_list = rest }) (zeroed k p rest) v1 refl refl
            v1.unreferenced in
        let c : CanInsert (zeroed k p rest) ((k.envs e).env_pgdir) p va perm = record {
          one_cpu = up;
          few = few;
          page_in = lt;
          kept = gone;
          dir_kept = ground (arith, kept.dir_kept);
          fits = fits;
          small = ground arith;
          slot =
              Slot-zeroed k ((k.envs e).env_pgdir) va p rest list kept.dir_kept kept.table_kept
                kept.slot;
        } in
        elim (page_insert-InsertEnds (zeroed k p rest) ((k.envs e).env_pgdir) p va perm v2 c) [
          | inl h ↦ (
            record (zeroed k p rest) { page_free_list = p ∷ rest },
            inl (
              insert_failed unused h,
              record {
                same_list = ground arith;
                same_counts = λ q. refl;
                same_words = λ q i h'. ground arith;
              },
            ),
          )
          | inr (k', h, i) ↦ (k', inr (insert_done k' h, (p, ground arith, i)))
        ]

-- On one CPU, where the caller may act on the environment, the arguments are in order and the free
-- list is valid, sys_page_alloc returns. With -E_NO_MEM no page is lost: the free list, the counts
-- and the pages in use are as before, even where the page was taken and its table could not be. With
-- 0 a page that was free is mapped at `va`, has a reference, and the free list is valid again.
pub sys_page_alloc_ends :
    (k : Kern) (envid e va perm : ℕ)
    → find_env envid true k ≡ returns (ok e) k
    → bad_perm perm ≡ false
    → bad_va va ≡ false
    → perm < 4096
    → k.ismp ≡ false
    → k.npage ≤ 2 ^ 20
    → FreeListValid k
    → IsKept k ((k.envs e).env_pgdir) va
    → AllocEnds k envid ((k.envs e).env_pgdir) va perm
sys_page_alloc_ends k envid e va perm who good_perm good_va fits up few v kept =
    elim (list_cases k.page_free_list) [
      | inl h ↦ (
        k,
        inl (
          no_page k envid e va perm who good_perm good_va h,
          record { same_list = refl; same_counts = λ p. refl; same_words = λ p i h'. refl },
        ),
      )
      | inr (p, (rest, h)) ↦
          with_page k envid e va perm who good_perm good_va p rest h (ground (arith, v.inside p))
            few v up fits kept
    ]
