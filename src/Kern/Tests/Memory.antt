-- ===== src/Kern/Tests/Memory.antt =====
-- The theorems on memory at the small machine.
use kludgeos.Base.{ℕ, ◌/◌, ◌≡◌, refl, true, false, ◌&&◌, ◌||◌, ltb, leb, mem, ok, arith}
use kludgeos.Kern.Machine.{Kern, returns, pgsize}
use kludgeos.Kern.Page.{page_init}
use kludgeos.Kern.Page.FreeList.{FreeListValid, page_init-FreeListValid}
use kludgeos.Kern.PageTable.Valid.{Slot, vacant, InsertEnds, page_insert-InsertEnds}
use kludgeos.Kern.Env.{envid2env}
use kludgeos.Kern.Syscall.{find_env, bad_perm, bad_va}
use kludgeos.Kern.Syscall.Memory.{IsKept, AllocEnds, sys_page_alloc_ends}
use kludgeos.Kern.Tests.{bare}

bare-FreeListValid : FreeListValid bare
bare-FreeListValid = record {
  distinct = (refl, (refl, tt));
  unreferenced = λ p h. ground (arith, h);
  inside = λ p h. ground (arith, h);
}

bare-Slot : Slot bare 1 4096
bare-Slot =
    vacant 2 (record { linked = refl; names = refl; in_memory = omega arith }) (λ e. cc) refl

page_insert-InsertEnds_example : InsertEnds bare 1 3 4096 7
page_insert-InsertEnds_example = page_insert-InsertEnds bare 1 3 4096 7 bare-FreeListValid (record {
  one_cpu = refl;
  few = omega arith;
  page_in = omega arith;
  kept = refl;
  dir_kept = refl;
  fits = omega arith;
  small = omega arith;
  slot = bare-Slot;
})

caller_found : find_env 0 true bare ≡ returns (ok 1) bare
unfolding find_env envid2env
caller_found = refl

fine_perm : bad_perm 7 ≡ false
unfolding bad_perm
fine_perm = refl

fine_va : bad_va 4096 ≡ false
unfolding bad_va
fine_va = refl

bare-IsKept : IsKept bare 1 4096
bare-IsKept = record {
  dir_kept = refl;
  table_kept = λ table h. ground (arith, h.names);
  slot = bare-Slot;
}

sys_page_alloc_ends_example : AllocEnds bare 0 1 4096 7
sys_page_alloc_ends_example =
    sys_page_alloc_ends bare 0 1 4096 7 caller_found fine_perm fine_va (omega arith) refl
      (omega arith) bare-FreeListValid bare-IsKept

-- 256 pages, of which the first 200 lie below the end of the kernel.
abbrev larger : Kern
larger = record bare { npage = 256 }

page_init-FreeListValid_example :
    (k' : Kern) × (page_init 200 larger ≡ returns tt k')
    × FreeListValid k'
    × ((p : ℕ)
        → mem p k'.page_free_list
          ≡ (ltb 0 p && ltb p (0xa0000 / pgsize)) || (leb 200 p && ltb p 256))
page_init-FreeListValid_example = page_init-FreeListValid larger 200 (omega arith) (omega arith)
