-- ===== src/Kern/Tests/Paging.antt =====
-- The theorems on page tables at the small machine, and runs of the page functions.
use kludgeos.Base.{ℕ, ◌/◌, ◌<◌, ◌≡◌, refl, ◌≢◌, ◌⊎◌, true, has, some, ok, arith}
use kludgeos.Kern.Machine.{returns, pte_p, ptx}
use kludgeos.Kern.PageTable.{page_lookup, page_insert, user_mem_check}
use kludgeos.Kern.PageTable.Walk.{HasTable, user_mem_check_one_page}
use kludgeos.Kern.PageTable.Remove.{Maps}
use kludgeos.Kern.PageTable.Insert.{inserted, page_insert_lookup}
use kludgeos.Kern.Tests.{bare, full}

bare-HasTable : HasTable bare 1 4096 2
bare-HasTable = record { linked = refl; names = refl; in_memory = omega arith }

full-HasTable : HasTable full 1 4096 2
full-HasTable = record { linked = refl; names = refl; in_memory = omega arith }

full-Maps : Maps full 1 4096 2 3
full-Maps = record {
  has_table = full-HasTable;
  present = refl;
  page = refl;
  page_in = omega arith;
  counted = omega arith;
  count_small = omega arith;
}

page_insert_lookup_example :
    (page_insert 1 3 4096 7 bare ≡ returns (ok 0) (inserted bare 3 4096 7 2))
    × (page_lookup 1 4096 (inserted bare 3 4096 7 2)
        ≡ returns (some (3, (2, ptx 4096))) (inserted bare 3 4096 7 2))
    × ((d va' t q : ℕ)
        → 2 ≢ d
        → HasTable bare d va' t
        → has (bare.word t (ptx va')) pte_p ≡ true
        → bare.word t (ptx va') / 4096 ≡ q
        → q < bare.npage
        → (t ≢ 2) ⊎ (ptx va' ≢ ptx 4096)
        → page_lookup d va' (inserted bare 3 4096 7 2)
          ≡ returns (some (q, (t, ptx va'))) (inserted bare 3 4096 7 2))
page_insert_lookup_example =
    page_insert_lookup bare 1 3 4096 7 2 refl bare-HasTable refl (omega arith) (omega arith)
      (omega arith) (omega arith)

-- The first page of the range is mapped, the second is not.
user_mem_check_one_page_example : user_mem_check 1 4096 8192 5 full ≡ returns (ok 0) full
user_mem_check_one_page_example =
    user_mem_check_one_page full 1 4096 8192 5 2 (omega arith) (omega arith) full-HasTable refl
