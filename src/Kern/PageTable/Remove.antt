-- ===== src/Kern/PageTable/Remove.antt =====
-- What page_remove of kern/pmap.c does to the page tables, the reference counts and the free list, on
-- one CPU, where the page table for the address is there.
use kludgeos.Base.{
  ℕ, ◌-◌, ◌/◌, ◌^◌, ◌<◌, ◌≡◌, ◌≢◌, true, false, ◌==◌, if◌then◌else◌, update, has, none, some, List,
  ◌∷◌, arith,
}
use kludgeos.Kern.Machine.{Kern, returns, ptx, pte_p, Tlb, invlpg}
use kludgeos.Kern.Page.{atomic_dec, atomic_dec_and_test, page_free, page_decref}
use kludgeos.Kern.PageTable.{tlb_invalidate, unmap_entry, page_remove, page_lookup}
use kludgeos.Kern.PageTable.Walk.{HasTable, page_lookup_found, page_lookup_empty}

-- The log of the TLB after tlb_invalidate.
abbrev pub flushed : Kern → ℕ → ℕ → List Tlb
flushed k pgdir va = elim k.curenv [
  | none ↦ invlpg va ∷ k.tlb
  | some e ↦ if (k.envs e).env_pgdir == pgdir then invlpg va ∷ k.tlb else k.tlb
]

-- One reference less, the last of which frees the page.
abbrev dropped : Kern → ℕ → Kern
dropped k pp = record k {
  pp_ref = update k.pp_ref pp (k.pp_ref pp - 1);
  page_free_list = if k.pp_ref pp == 1 then pp ∷ k.page_free_list else k.page_free_list;
}

-- A word written.
abbrev pub written : Kern → ℕ → ℕ → ℕ → Kern
written k table i v = record k { word = update k.word table (update (k.word table) i v) }

-- page_decref drops one reference, and frees the page with the last.
page_decref_lem :
    (k : Kern) (pp : ℕ)
    → 0 < k.pp_ref pp
    → k.pp_ref pp < 2 ^ 32
    → page_decref pp k ≡ returns tt (dropped k pp)
unfolding page_decref atomic_dec_and_test atomic_dec page_free
page_decref_lem k pp some_ref small = ground arith

tlb_invalidate_lem :
    (k : Kern) (pgdir va : ℕ)
    → tlb_invalidate pgdir va k ≡ returns tt (record k { tlb = flushed k pgdir va })
unfolding tlb_invalidate
tlb_invalidate_lem k pgdir va = ground arith

-- The kernel once page_remove has taken `pp` from the entry (table, i), which maps `va`.
abbrev pub unmapped : Kern → ℕ → ℕ → ℕ → ℕ → ℕ → Kern
unmapped k pgdir va pp table i = record (written (dropped k pp) table i 0) {
  tlb = flushed k pgdir va;
}

-- The entry of `va` maps the page `pp`, which has a reference.
pub record Maps (k : Kern) (pgdir va table pp : ℕ) : Type 0 where
  pub has_table : HasTable k pgdir va table
  pub present : has (k.word table (ptx va)) pte_p ≡ true
  pub page : k.word table (ptx va) / 4096 ≡ pp
  pub page_in : pp < k.npage
  pub counted : 0 < k.pp_ref pp
  pub count_small : k.pp_ref pp < 2 ^ 32

unmap_entry_lem :
    (k : Kern) (pgdir va pp table i : ℕ)
    → k.ismp ≡ false
    → 0 < k.pp_ref pp
    → k.pp_ref pp < 2 ^ 32
    → unmap_entry pgdir va pp table i k ≡ returns tt (unmapped k pgdir va pp table i)
unfolding unmap_entry
unmap_entry_lem k pgdir va pp table i up some_ref small = ground (
  arith,
  page_decref_lem k pp some_ref small,
  tlb_invalidate_lem (written (dropped k pp) table i 0) pgdir va,
)

-- The page table is still there: the entry is not in the directory.
keeps_table :
    (k : Kern) (pgdir va pp table : ℕ)
    → table ≢ pgdir
    → HasTable k pgdir va table
    → HasTable (unmapped k pgdir va pp table (ptx va)) pgdir va table
keeps_table k pgdir va pp table apart v = record {
  linked = ground (arith, v.linked);
  names = ground (arith, v.names);
  in_memory = v.in_memory;
}

empty_slot :
    (k : Kern) (pgdir va pp table : ℕ)
    → has ((unmapped k pgdir va pp table (ptx va)).word table (ptx va)) pte_p ≡ false
empty_slot k pgdir va pp table = ground arith

-- On one CPU, where `va` maps a page that has a reference, page_remove ends without a panic: it
-- clears the entry and no other word, drops one reference and frees the page with the last, and
-- asks the TLB to forget `va` where the directory is in use. Then nothing is mapped at `va`.
pub page_remove_lem :
    (k : Kern) (pgdir va table pp : ℕ)
    → k.ismp ≡ false
    → Maps k pgdir va table pp
    → table ≢ pgdir
    → (page_remove pgdir va k ≡ returns tt (unmapped k pgdir va pp table (ptx va)))
      × (page_lookup pgdir va (unmapped k pgdir va pp table (ptx va))
          ≡ returns none (unmapped k pgdir va pp table (ptx va)))
unfolding page_remove
page_remove_lem k pgdir va table pp up v apart = (removes, gone)
  where
    removes : page_remove pgdir va k ≡ returns tt (unmapped k pgdir va pp table (ptx va))
    removes = ground (
      arith,
      page_lookup_found k pgdir va table pp v.has_table v.present v.page v.page_in,
      unmap_entry_lem k pgdir va pp table (ptx va) up v.counted v.count_small,
    )

    gone :
        page_lookup pgdir va (unmapped k pgdir va pp table (ptx va))
        ≡ returns none (unmapped k pgdir va pp table (ptx va))
    gone =
        page_lookup_empty (unmapped k pgdir va pp table (ptx va)) pgdir va table
          (keeps_table k pgdir va pp table apart v.has_table) (empty_slot k pgdir va pp table)
