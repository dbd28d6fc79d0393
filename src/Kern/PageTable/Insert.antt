-- ===== src/Kern/PageTable/Insert.antt =====
-- What page_insert of kern/pmap.c does, on one CPU, where the page table for the address is there.
use kludgeos.Base.{
  ℕ, ◌+◌, ◌/◌, ◌%◌, ◌^◌, ◌≤◌, ◌<◌, ◌≡◌, ◌≢◌, ◌⊎◌, true, false, ◌==◌, if◌then◌else◌, update, has,
  some, ◌∷◌, ok, arith,
}
use kludgeos.Kern.Machine.{Kern, returns, ptx, pte_p}
use kludgeos.Kern.Page.{atomic_inc}
use kludgeos.Kern.PageTable.{page_insert, fill_entry, pte_of, page_lookup}
use kludgeos.Kern.PageTable.Entry.{pte_of-page, pte_of-present}
use kludgeos.Kern.PageTable.Walk.{HasTable, pgdir_walk_found, page_lookup_found}
use kludgeos.Kern.PageTable.Remove.{Maps, written, unmapped, page_remove_lem}

-- One reference more, on 32 bits.
abbrev referred : Kern → ℕ → Kern
referred k pp = record k { pp_ref = update k.pp_ref pp ((k.pp_ref pp + 1) % 2 ^ 32) }

-- The kernel after page_insert into an entry that is not present.
abbrev pub inserted : Kern → ℕ → ℕ → ℕ → ℕ → Kern
inserted k pp va perm table = written (referred k pp) table (ptx va) (pte_of pp perm)

pub page_insert_empty :
    (k : Kern) (pgdir pp va perm table : ℕ)
    → k.ismp ≡ false
    → HasTable k pgdir va table
    → has (k.word table (ptx va)) pte_p ≡ false
    → page_insert pgdir pp va perm k ≡ returns (ok 0) (inserted k pp va perm table)
unfolding page_insert fill_entry atomic_inc
page_insert_empty k pgdir pp va perm table up v vacant =
    ground (arith, pgdir_walk_found k pgdir va table true v)

-- The directory's word for `va` after a word was written in another page.
HasTable-written :
    (k : Kern) (pgdir va table t i v pp : ℕ)
    → t ≢ pgdir
    → HasTable k pgdir va table
    → HasTable (written (referred k pp) t i v) pgdir va table
HasTable-written k pgdir va table t i v pp apart h = record {
  linked = ground (arith, h.linked);
  names = ground (arith, h.names);
  in_memory = h.in_memory;
}

-- On one CPU, where the page table for `va` is there and `va` is not mapped, page_insert ends with
-- 0: it gives the page one reference and writes the one entry, and no other word. A lookup of `va`
-- then finds the page, and a lookup of an address whose entry is another one (in this directory
-- or in another, with their tables) finds what it found before.
pub page_insert_lookup :
    (k : Kern) (pgdir pp va perm table : ℕ)
    → k.ismp ≡ false
    → HasTable k pgdir va table
    → has (k.word table (ptx va)) pte_p ≡ false
    → table ≢ pgdir
    → pp < k.npage
    → k.npage ≤ 2 ^ 20
    → perm < 4096
    → (page_insert pgdir pp va perm k ≡ returns (ok 0) (inserted k pp va perm table))
      × (page_lookup pgdir va (inserted k pp va perm table)
          ≡ returns (some (pp, (table, ptx va))) (inserted k pp va perm table))
      × ((d va' t q : ℕ)
          → table ≢ d
          → HasTable k d va' t
          → has (k.word t (ptx va')) pte_p ≡ true
          → k.word t (ptx va') / 4096 ≡ q
          → q < k.npage
          → (t ≢ table) ⊎ (ptx va' ≢ ptx va)
          → page_lookup d va' (inserted k pp va perm table)
            ≡ returns (some (q, (t, ptx va'))) (inserted k pp va perm table))
page_insert_lookup k pgdir pp va perm table up v vacant apart page_in few fits = (
  page_insert_empty k pgdir pp va perm table up v vacant,
  page_lookup_found after pgdir va table pp
      (HasTable-written k pgdir va table table (ptx va) (pte_of pp perm) pp apart v)
      (ground (arith, pte_of-present pp perm)) (ground (arith, pte_of-page pp perm)) page_in,
  λ d va' t q out h there names q_in other.
      page_lookup_found after d va' t q
        (HasTable-written k d va' t table (ptx va) (pte_of pp perm) pp out h) (ground arith)
        (ground arith) q_in,
)
  where
    after : Kern
    after = inserted k pp va perm table

-- page_insert over an entry that maps `q`.
abbrev pub replaced : Kern → ℕ → ℕ → ℕ → ℕ → ℕ → ℕ → Kern
replaced k pgdir pp va perm table q =
    written (unmapped (referred k pp) pgdir va q table (ptx va)) table (ptx va) (pte_of pp perm)

pub page_insert_over :
    (k : Kern) (pgdir pp va perm table q : ℕ)
    → k.ismp ≡ false
    → Maps (referred k pp) pgdir va table q
    → table ≢ pgdir
    → page_insert pgdir pp va perm k ≡ returns (ok 0) (replaced k pgdir pp va perm table q)
unfolding page_insert fill_entry atomic_inc
page_insert_over k pgdir pp va perm table q up v apart = ground (
  arith,
  pgdir_walk_found k pgdir va table true (record {
    linked = v.has_table.linked;
    names = v.has_table.names;
    in_memory = v.has_table.in_memory;
  }),
  v.present,
  (page_remove_lem (referred k pp) pgdir va table q up v apart).0,
)

-- The corner case of page_insert: on one CPU, a page that is mapped at `va` already and is
-- inserted there again keeps its reference count, is not freed, and gets the new permissions.
page_insert_again :
    (k : Kern) (pgdir pp va perm table : ℕ)
    → k.ismp ≡ false
    → Maps k pgdir va table pp
    → k.pp_ref pp + 1 < 2 ^ 32
    → table ≢ pgdir
    → (k' : Kern) × (page_insert pgdir pp va perm k ≡ returns (ok 0) k')
      × ((p : ℕ) → k'.pp_ref p ≡ k.pp_ref p)
      × (k'.page_free_list ≡ k.page_free_list)
      × (k'.word table (ptx va) ≡ pte_of pp perm)
page_insert_again k pgdir pp va perm table up v small apart = (
  replaced k pgdir pp va perm table pp,
  page_insert_over k pgdir pp va perm table pp up again apart,
  λ p. ground (arith, v.counted),
  ground (arith, v.counted),
  ground arith,
)
  where
    again : Maps (referred k pp) pgdir va table pp
    again = record {
      has_table = record {
        linked = v.has_table.linked;
        names = v.has_table.names;
        in_memory = v.has_table.in_memory;
      };
      present = v.present;
      page = v.page;
      page_in = v.page_in;
      counted = ground (arith, v.counted);
      count_small = ground arith;
    }

-- On one CPU, a page that is inserted where another one is mapped takes its place: the new page
-- gains a reference, the old one loses one and is freed, first in the free list, with its last,
-- no other count changes, and the entry is the new page's.
page_insert_replaces :
    (k : Kern) (pgdir pp va perm table q : ℕ)
    → k.ismp ≡ false
    → Maps k pgdir va table q
    → q ≢ pp
    → k.pp_ref pp + 1 < 2 ^ 32
    → table ≢ pgdir
    → (k' : Kern) × (page_insert pgdir pp va perm k ≡ returns (ok 0) k')
      × (k'.pp_ref pp ≡ k.pp_ref pp + 1)
      × (k'.pp_ref q + 1 ≡ k.pp_ref q)
      × ((p : ℕ) → p ≢ pp → p ≢ q → k'.pp_ref p ≡ k.pp_ref p)
      × (k'.page_free_list ≡ (if k.pp_ref q == 1 then q ∷ k.page_free_list else k.page_free_list))
      × (k'.word table (ptx va) ≡ pte_of pp perm)
page_insert_replaces k pgdir pp va perm table q up v other small apart = (
  replaced k pgdir pp va perm table q,
  page_insert_over k pgdir pp va perm table q up old apart,
  ground arith,
  ground (arith, v.counted),
  λ p n n'. ground arith,
  ground arith,
  ground arith,
)
  where
    old : Maps (referred k pp) pgdir va table q
    old = record {
      has_table = record {
        linked = v.has_table.linked;
        names = v.has_table.names;
        in_memory = v.has_table.in_memory;
      };
      present = v.present;
      page = v.page;
      page_in = v.page_in;
      counted = ground (arith, v.counted);
      count_small = ground (arith, v.count_small);
    }
