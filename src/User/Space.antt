-- ===== src/User/Space.antt =====
-- The address space of a process as lib/fd.c and lib/file.c see it through `vpd` and `vpt`, and the
-- file server at the other end of lib/fsipc.c.
use kludgeos.Base.{ℕ, Bool, false, update, has, Option, none, some, Code}

abbrev pub pgsize : ℕ
pgsize = 4096

-- The pages that a page table maps, PTSIZE / PGSIZE.
abbrev pub ptpages : ℕ
ptpages = 1024

abbrev pub pte_p : ℕ
pte_p = 1

abbrev pub pte_d : ℕ
pte_d = 0x40

-- `vpt n` is vpt[n]; it is `none` where vpd has no page table, and the read faults. `server` is
-- all that the file server and the pages it shares hold.
pub record Space (σ : Type 0) : Type 0 where
  pub vpt : ℕ → Option ℕ
  pub server : σ

-- The requests of lib/fsipc.c that file.c makes: `map` is what the server sends back with an offset
-- of a file, with the entry of the page it maps; `f_size` reads a file's size in the Fd page.
pub record Server (σ : Type 0) : Type 0 where
  pub fsipc_map : ℕ → ℕ → σ → Code ℕ × σ
  pub fsipc_set_size : ℕ → ℕ → σ → Code (Unit {0}) × σ
  pub fsipc_close : ℕ → σ → Code (Unit {0}) × σ
  pub fsipc_dirty : ℕ → ℕ → σ → Code (Unit {0}) × σ
  pub file_id : ℕ → σ → ℕ
  pub f_size : ℕ → σ → ℕ

pub data Run (σ A : Type 0) : Type 0 where
  returns : A → Space σ → Run σ A
  -- a page fault, or a failed assert
  dies : Run σ A

abbrev pub P : Type 0 → Type 0 → Type 0
P σ A = Space σ → Run σ A

module _ {σ : Type 0} where
  infixl 5 ◌>>=◌
  abbrev pub ◌>>=◌ : {A B : Type 0} → P σ A → (A → P σ B) → P σ B
  ◌>>=◌ m f s = elim (m s) [ returns a s' ↦ f a s' | dies ↦ dies ]

  abbrev pub pure : {A : Type 0} → A → P σ A
  pure a s = returns a s

  -- vpt[n]
  abbrev pub read_vpt : ℕ → P σ ℕ
  read_vpt n s = elim (s.vpt n) [ none ↦ dies | some e ↦ returns e s ]

  -- sys_page_unmap(0, va) of page `n`.
  abbrev pub sys_page_unmap : ℕ → P σ (Unit {0})
  sys_page_unmap n s = elim (s.vpt n) [
    | none ↦ returns tt s
    | some e ↦ returns tt (record s { vpt = update s.vpt n (some 0) })
  ]

  abbrev pub ask : {A : Type 0} → (σ → A × σ) → P σ A
  ask f s = let (a, t) = f s.server in returns a (record s { server = t })

  abbrev pub present : Space σ → ℕ → Bool
  present s n = elim (s.vpt n) [ none ↦ false | some e ↦ has e pte_p ]
