-- ===== src/User/File.antt =====
-- Open files of a process: the descriptor table of lib/fd.c, and the mapped pages of lib/file.c.
pub mod Mapping
pub mod Table
pub mod Receiving
pub mod FirstPage
use kludgeos.Base.{
  ℕ, zero, suc, ◌+◌, ◌-◌, ◌*◌, ◌/◌, ◌%◌, Bool, true, false, ◌&&◌, ◌==◌, ltb, leb, if◌then◌else◌,
  update, has, Option, none, some, Code, ok, err, Errno, e_max_open, e_inval, e_no_disk,
}
use kludgeos.User.Space.{
  Space, Server, Run, P, returns, dies, ◌>>=◌, pure, read_vpt, sys_page_unmap, ask, present, pgsize,
  ptpages, pte_p, pte_d,
}

abbrev pub maxfd : ℕ
maxfd = 32

abbrev pub maxfilesize : ℕ
maxfilesize = 0x400000

-- The pages of INDEX2FD(fd) and INDEX2DATA(fd); a `struct Fd *` is its number.
abbrev pub fd_page : ℕ → ℕ
fd_page fd = 0xd0000 - ptpages + fd

abbrev pub data_page : ℕ → ℕ
data_page fd = 0xd0000 + ptpages * fd

-- The pages that `a` bytes touch, and ROUNDUP(a, PGSIZE).
abbrev pub pages_of : ℕ → ℕ
pages_of a = (a + (pgsize - 1)) / pgsize

abbrev pub round_up : ℕ → ℕ
round_up a = pages_of a * pgsize

-- The entries with those of the page table of the page `n` there, zeros if there was none.
pub with_table : (ℕ → Option ℕ) → ℕ → ℕ → Option ℕ
with_table vpt n p =
    if p / ptpages == n / ptpages then some (elim (vpt p) [ none ↦ 0 | some e ↦ e ]) else vpt p

-- The entries after the kernel has mapped a page at `n`.
pub map_entry : (ℕ → Option ℕ) → ℕ → ℕ → ℕ → Option ℕ
unfolding with_table
map_entry vpt n e = update (with_table vpt n) n (some e)

module _ {σ : Type 0} where
  -- The loop of fd_alloc: `n` rounds from `i`.
  unfoldable pub fd_alloc_from : ℕ → ℕ → Space σ → Code ℕ
  fd_alloc_from zero i s = err e_max_open
  fd_alloc_from (suc n) i s =
      let more = fd_alloc_from n (i + 1) s in if present s (fd_page i) then more else ok i

  unfoldable pub fd_alloc : Space σ → Code ℕ
  fd_alloc s = fd_alloc_from maxfd 0 s

  -- `fdnum` is not negative.
  unfoldable pub fd_lookup : ℕ → Space σ → Code ℕ
  fd_lookup fdnum s =
      if leb maxfd fdnum
      then err e_inval
      else if present s (fd_page fdnum)
      then ok fdnum
      else err e_inval

module _ {σ : Type 0} (server : Server σ) where
  -- `if (dirty && (vpt[VPN(va)] & PTE_D) && (r = fsipc_dirty(...)) < 0) ret = r;`
  unfoldable pub report_dirty : ℕ → Bool → ℕ → Code (Unit {0}) → P σ (Code (Unit {0}))
  report_dirty fd dirty i ret s = elim dirty [
    | false ↦ returns ret s
    | true ↦
        (read_vpt (data_page fd) >>= λ e0. elim (has e0 pte_d) [
          | false ↦ pure ret
          | true ↦ ask (λ t. server.fsipc_dirty (server.file_id fd t) i t) >>= λ r. elim r [
            | ok u ↦ pure ret
            | err x ↦ pure (err x)
          ]
        ])
          s
  ]

  -- The body of the loop of funmap at the offset `i`; the result is `ret`.
  unfoldable pub funmap_page : ℕ → Bool → ℕ → Code (Unit {0}) → P σ (Code (Unit {0}))
  funmap_page fd dirty i ret s =
      (read_vpt (data_page fd + i / pgsize) >>= λ e. elim (has e pte_p) [
        | false ↦ pure ret
        | true ↦ report_dirty fd dirty i ret >>= λ ret'.
            sys_page_unmap (data_page fd + i / pgsize) >>= λ _. pure ret'
      ])
        s

  -- The loop, with at most `n` rounds from the offset `i`.
  unfoldable pub funmap_from : ℕ → ℕ → Bool → ℕ → ℕ → Code (Unit {0}) → P σ (Code (Unit {0}))
  funmap_from zero fd dirty i oldsize ret s = returns ret s
  funmap_from (suc n) fd dirty i oldsize ret s = elim (ltb i oldsize) [
    | false ↦ returns ret s
    | true ↦
        (funmap_page fd dirty i ret >>= λ ret'. funmap_from n fd dirty (i + pgsize) oldsize ret') s
  ]

  -- The pages that `oldsize` bytes touch are rounds enough.
  unfoldable pub funmap : ℕ → ℕ → ℕ → Bool → P σ (Code (Unit {0}))
  funmap fd oldsize newsize dirty =
      funmap_from (oldsize / pgsize + 1) fd dirty (round_up newsize) oldsize (ok tt)

  -- A page of the file is received at its place; the kernel makes a page table where there is none.
  unfoldable pub fmap_page : ℕ → ℕ → P σ (Code (Unit {0}))
  fmap_page fd i s =
      (ask (λ t. server.fsipc_map (server.file_id fd t) i t) >>= λ r. elim r [
        | err x ↦ pure (err x)
        | ok e ↦
            λ s. returns (ok tt) (record s { vpt = map_entry s.vpt (data_page fd + i / pgsize) e })
      ])
        s

  unfoldable pub fmap_from : ℕ → ℕ → ℕ → ℕ → ℕ → P σ (Code (Unit {0}))
  fmap_from zero fd i oldsize newsize s = returns (ok tt) s
  fmap_from (suc n) fd i oldsize newsize s = elim (ltb i newsize) [
    | false ↦ returns (ok tt) s
    | true ↦
        (fmap_page fd i >>= λ r. elim r [
          | err x ↦ funmap fd i oldsize false >>= λ _. pure (err x)
          | ok u ↦ fmap_from n fd (i + pgsize) oldsize newsize
        ])
          s
  ]

  unfoldable pub fmap : ℕ → ℕ → ℕ → P σ (Code (Unit {0}))
  fmap fd oldsize newsize = fmap_from (newsize / pgsize + 1) fd (round_up oldsize) oldsize newsize

  -- file_close of lib/file.c.
  unfoldable pub file_close : ℕ → P σ (Code (Unit {0}))
  file_close fd s =
      (funmap fd (server.f_size fd s.server) 0 true >>= λ r. elim r [
        | err x ↦ pure (err x)
        | ok u ↦ ask (λ t. server.fsipc_close (server.file_id fd t) t)
      ])
        s

  unfoldable pub file_trunc : ℕ → ℕ → P σ (Code (Unit {0}))
  file_trunc fd newsize s = elim (ltb maxfilesize newsize) [
    | true ↦ returns (err e_no_disk) s
    | false ↦
        let oldsize = server.f_size fd s.server in
        (ask (λ t. server.fsipc_set_size (server.file_id fd t) newsize t) >>= λ r. elim r [
          | err x ↦ pure (err x)
          | ok u ↦ λ s'. elim (server.f_size fd s'.server == newsize) [
            | false ↦ dies
            | true ↦
                (fmap fd oldsize newsize >>= λ q. elim q [
                  | err x ↦ pure (err x)
                  | ok v ↦ funmap fd oldsize newsize false >>= λ _. pure (ok tt)
                ])
                  s'
          ]
        ])
          s
  ]
