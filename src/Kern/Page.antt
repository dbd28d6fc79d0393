-- ===== src/Kern/Page.antt =====
-- Physical pages: inc/atomic.h, the inline functions of kern/pmap.h, and page_init, page_alloc,
-- page_free and page_decref of kern/pmap.c.
pub mod FreeList
use kludgeos.Base.{
  true, false, ℕ, zero, suc, ◌+◌, ◌-◌, ◌*◌, ◌/◌, ◌%◌, ◌^◌, Bool, [], ◌∷◌, ◌==◌, ltb, leb, update,
  Code, ok, err, e_no_mem,
}
use kludgeos.Kern.Machine.{
  Kern, M, returns, panics, ◌>>=◌, ◌>>◌, gets, modify, assert, when, pgsize, ppn,
}

-- atomic_inc and atomic_dec of `pages[pp].pp_ref`, a uint32_t.
unfoldable pub atomic_inc : ℕ → M (Unit {0})
atomic_inc pp k = returns tt (record k { pp_ref = update k.pp_ref pp ((k.pp_ref pp + 1) % 2 ^ 32) })

unfoldable pub atomic_dec : ℕ → M (Unit {0})
atomic_dec pp k =
    returns tt (record k { pp_ref = update k.pp_ref pp ((k.pp_ref pp + 2 ^ 32 - 1) % 2 ^ 32) })

unfoldable pub atomic_dec_and_test : ℕ → M Bool
atomic_dec_and_test pp = do atomic_dec pp; gets (λ k. k.pp_ref pp == 0)

unfoldable pub page2pa : ℕ → ℕ
page2pa pp = pp * pgsize % 2 ^ 32

-- The kernel address (a page number) of a physical address.
unfoldable pub kaddr : ℕ → M ℕ
kaddr pa k = elim (leb k.npage (ppn pa)) [ true ↦ panics | false ↦ returns (ppn pa) k ]

unfoldable pub pa2page : ℕ → M ℕ
pa2page pa k = elim (leb k.npage (ppn pa)) [ true ↦ panics | false ↦ returns (ppn pa) k ]

unfoldable pub page2kva : ℕ → M ℕ
page2kva pp = kaddr (page2pa pp)

-- for (i = start; i < start + n; i++) { pp_ref = 0; LIST_INSERT_HEAD }
unfoldable init_range : ℕ → ℕ → Kern → Kern
init_range zero i k = k
init_range (suc n) i k =
    init_range n (i + 1)
      (record k { pp_ref = update k.pp_ref i 0; page_free_list = i ∷ k.page_free_list })

-- `first` is PADDR(boot_freemem) / PGSIZE. The rounds of a loop whose start is past its end are 0.
pub page_init : ℕ → M (Unit {0})
page_init first k =
    let low = init_range (0xa0000 / pgsize - 1) 1 (record k { page_free_list = [] }) in
    returns tt (init_range (k.npage - first) first low)

unfoldable pub page_alloc : M (Code ℕ)
page_alloc k = elim k.page_free_list [
  | [] ↦ returns (err e_no_mem) k
  | pp ∷ rest ↦ returns (ok pp) (record k { page_free_list = rest })
]

unfoldable pub page_free : ℕ → M (Unit {0})
page_free pp = do
  ref ← gets (λ k. k.pp_ref pp)
  assert (ref == 0)
  modify (λ k. record k { page_free_list = pp ∷ k.page_free_list })

unfoldable pub page_decref : ℕ → M (Unit {0})
page_decref pp = do
  ref ← gets (λ k. k.pp_ref pp)
  assert (ltb 0 ref)
  gone ← atomic_dec_and_test pp
  when gone (page_free pp)
