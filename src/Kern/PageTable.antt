-- ===== src/Kern/PageTable.antt =====
-- Page tables: pgdir_walk, page_insert, boot_map_segment, page_lookup, page_remove,
-- tlb_invalidate, user_mem_check of kern/pmap.c.
--
-- A `pte_t *` is a pair, the page of the table and the index in it.
pub mod Entry
pub mod Walk
pub mod Remove
pub mod Insert
pub mod Valid
use kludgeos.Base.{
  ℕ, zero, suc, ◌+◌, ◌-◌, ◌*◌, ◌/◌, ◌%◌, ◌^◌, Bool, true, false, not, ◌&&◌, Option, none, some, ◌∷◌,
  ◌==◌, ltb, leb, if◌then◌else◌, has, bit_or, bit_and, Code, ok, err, e_no_mem, e_fault,
}
use kludgeos.Kern.Machine.{
  Kern, M, returns, spins, pure, ◌>>=◌, ◌>>◌, gets, modify, assert, when, panic, load, store,
  zero_page, curenv_field, invlpg, ipi_broadcast, pgsize, ulim, pdx, ptx, pte_p, pte_w, pte_u,
  round_down, round_up,
}
use kludgeos.Kern.Page.{atomic_inc, page2pa, kaddr, pa2page, page2kva, page_alloc, page_decref}

pub tlb_invalidate : ℕ → ℕ → M (Unit {0})
tlb_invalidate pgdir va k = elim k.curenv [
  | none ↦ returns tt flushed
  | some e ↦ elim ((k.envs e).env_pgdir == pgdir) [
    | true ↦ returns tt flushed
    | false ↦ returns tt k
  ]
]
  where
    flushed : Kern
    flushed = record k { tlb = invlpg va ∷ k.tlb }

-- The shootdown of the SMP branches of pgdir_walk and page_insert, with the write in its middle.
unfoldable shootdown : ℕ → M (Unit {0}) → M (Unit {0})
shootdown va write = do
  modify (λ k. record k { tlb = ipi_broadcast ∷ k.tlb })
  write
  modify (λ k. record k { tlb_va = va })
  cur ← curenv_field (λ e. e.env_pgdir)
  tlb_invalidate cur va

-- &((pte_t *)KADDR(PTE_ADDR(pgdir[PDX(va)])))[PTX(va)]
unfoldable pub entry_of : ℕ → ℕ → M (ℕ × ℕ)
entry_of pgdir va = do
  pde ← load pgdir (pdx va)
  table ← kaddr (round_down pde pgsize)
  pure (table, ptx va)

-- The branch of pgdir_walk that makes a page table out of the page `pg`.
pub new_table : ℕ → ℕ → ℕ → M (Unit {0})
new_table pgdir va pg = do
  kva ← page2kva pg
  zero_page kva
  smp ← gets (λ k. k.booted && k.ismp)
  let link = store pgdir (pdx va) (bit_or (bit_or (bit_or (page2pa pg) pte_u) pte_w) pte_p)
  if smp then shootdown va link else link
  atomic_inc pg

unfoldable pub pgdir_walk : ℕ → ℕ → Bool → M (Option (ℕ × ℕ))
pgdir_walk pgdir va create = do
  pde ← load pgdir (pdx va)
  if has pde pte_p
      then (do p ← entry_of pgdir va; pure (some p))
      else if not create
      then pure none
      else do
        r ← page_alloc
        elim r [
          | err e ↦ pure none
          | ok pg ↦ do new_table pgdir va pg; p ← entry_of pgdir va; pure (some p)
        ]

pub page_lookup : ℕ → ℕ → M (Option (ℕ × (ℕ × ℕ)))
page_lookup pgdir va = do
  r ← pgdir_walk pgdir va false
  elim r [
    | none ↦ pure none
    | some (table, i) ↦ do
      pte ← load table i
      if has pte pte_p then (do pp ← pa2page pte; pure (some (pp, (table, i)))) else pure none
  ]

-- The tail of page_remove: the entry `(table, i)` maps `pp`.
pub unmap_entry : ℕ → ℕ → ℕ → ℕ → ℕ → M (Unit {0})
unmap_entry pgdir va pp table i = do
  page_decref pp
  store table i 0
  smp ← gets (λ k. k.ismp)
  if smp
      then (do
        modify (λ k. record k { tlb = ipi_broadcast ∷ k.tlb })
        tlb_invalidate pgdir va
        modify (λ k. record k { tlb_va = va })
        cur ← curenv_field (λ e. e.env_pgdir)
        tlb_invalidate cur va)
      else tlb_invalidate pgdir va

pub page_remove : ℕ → ℕ → M (Unit {0})
page_remove pgdir va = do
  r ← page_lookup pgdir va
  elim r [ none ↦ pure tt | some (pp, (table, i)) ↦ unmap_entry pgdir va pp table i ]

-- The entry that page_insert writes.
pub pte_of : ℕ → ℕ → ℕ
pte_of pp perm = bit_or (bit_or (page2pa pp) perm) pte_p

-- page_insert once pgdir_walk has found the entry.
pub fill_entry : ℕ → ℕ → ℕ → ℕ → ℕ → ℕ → M (Unit {0})
fill_entry pgdir pp va perm table i = do
  atomic_inc pp
  old ← load table i
  when (has old pte_p) (page_remove pgdir va)
  smp ← gets (λ k. k.booted && k.ismp)
  now ← load table i
  if smp
      then (do assert (not (has now pte_p)); shootdown va (store table i (pte_of pp perm)))
      else store table i (pte_of pp perm)

pub page_insert : ℕ → ℕ → ℕ → ℕ → M (Code ℕ)
page_insert pgdir pp va perm = do
  r ← pgdir_walk pgdir va true
  elim r [
    | none ↦ pure (err e_no_mem)
    | some (table, i) ↦ do fill_entry pgdir pp va perm table i; pure (ok 0)
  ]

-- `n` rounds of the loop of boot_map_segment, from round `i`.
unfoldable map_rounds : ℕ → ℕ → ℕ → ℕ → ℕ → ℕ → M (Unit {0})
map_rounds zero i pgdir la pa perm = pure tt
map_rounds (suc n) i pgdir la pa perm = pgdir_walk pgdir la true >>= λ r. elim r [
  | none ↦ panic
  | some (table, j) ↦
      store table j (bit_or (bit_or ((pa + pgsize * i) % 2 ^ 32) perm) pte_p) >>= λ _.
      map_rounds n (i + 1) pgdir ((la + pgsize) % 2 ^ 32) pa perm
]

unfoldable boot_map_segment : ℕ → ℕ → ℕ → ℕ → ℕ → M (Unit {0})
boot_map_segment pgdir la size pa perm = map_rounds (size / pgsize) 0 pgdir la pa perm

-- The loop of user_mem_check: `i` and `b` move on, and `va` is what each round tests. The bound
-- `(b - e) / PGSIZE` is computed anew in each round, on 32 bits.
unfoldable pub check_loop : ℕ → ℕ → ℕ → ℕ → ℕ → ℕ → ℕ → M (Code ℕ)
check_loop zero pgdir va perm i b e = spins
check_loop (suc fuel) pgdir va perm i b e =
    let fault : M (Code ℕ) = (λ k.
      returns (err e_fault) (record k { user_mem_check_addr = if ltb va b then b else va })) in
    elim (ltb i ((b + 2 ^ 32 - e) % 2 ^ 32 / pgsize)) [
      | false ↦ pure (ok 0)
      | true ↦ elim (leb ulim va) [
        | true ↦ fault
        | false ↦ pgdir_walk pgdir va false >>= λ r. elim r [
          | none ↦ fault
          | some (table, j) ↦ load table j >>= λ pte. elim (bit_and pte perm == perm) [
            | true ↦ check_loop fuel pgdir va perm (i + 1) ((b + pgsize) % 2 ^ 32) e
            | false ↦ fault
          ]
        ]
      ]
    ]

-- The fuel is more than the pages of the address space.
unfoldable pub user_mem_check : ℕ → ℕ → ℕ → ℕ → M (Code ℕ)
user_mem_check env va len perm k =
    let b = round_down va pgsize in
    let e = round_up ((va + len) % 2 ^ 32) pgsize in
    check_loop (2 ^ 20) (k.envs env).env_pgdir va perm 0 b e k
