-- ===== src/User/Fd/Dup.antt =====
-- dup of lib/fd.c, for a new descriptor whose pages lie in the address space.
use kludgeos.Base.{
  ℕ, zero, suc, ◌+◌, bit_and, Bool, true, false, has, none, some, List, Code, ok, err, Errno,
}
use kludgeos.User.Space.{P, returns, ◌>>=◌, pure, read_vpt, sys_page_unmap, ptpages, pte_p}
use kludgeos.User.File.{fd_page, data_page, fd_lookup}
use kludgeos.User.Fd.{Frames, Dev, pte_user, sys_page_map, close}

module _ {τ : Type 0} where
  -- A round of the loop over the data pages.
  unfoldable pub dup_page : (ℕ → Bool) → ℕ → ℕ → P (Frames τ) (Code (Unit {0}))
  dup_page refuses src dst s =
      (read_vpt src >>= λ e. elim (has e pte_p) [
        | false ↦ pure (ok tt)
        | true ↦ sys_page_map refuses src dst (bit_and e pte_user)
      ])
        s

  -- The loop: `n` rounds from the pages `src` and `dst`.
  unfoldable pub dup_pages : (ℕ → Bool) → ℕ → ℕ → ℕ → P (Frames τ) (Code (Unit {0}))
  dup_pages refuses zero src dst s = returns (ok tt) s
  dup_pages refuses (suc n) src dst s =
      (dup_page refuses src dst >>= λ r. elim r [
        | err x ↦ pure (err x)
        | ok u ↦ dup_pages refuses n (src + 1) (dst + 1)
      ])
        s

  -- `if (vpd[PDX(ova)])`, and the loop.
  unfoldable pub dup_data : (ℕ → Bool) → ℕ → ℕ → P (Frames τ) (Code (Unit {0}))
  dup_data refuses fd newfd s = elim (s.vpt (data_page fd)) [
    | none ↦ returns (ok tt) s
    | some e ↦ dup_pages refuses ptpages (data_page fd) (data_page newfd) s
  ]

  -- The mapping of the page of the descriptor itself.
  unfoldable pub dup_fd : (ℕ → Bool) → ℕ → ℕ → P (Frames τ) (Code (Unit {0}))
  dup_fd refuses fd newfd s =
      (read_vpt (fd_page fd) >>= λ e.
      sys_page_map refuses (fd_page fd) (fd_page newfd) (bit_and e pte_user))
        s

  unfoldable pub unmap_pages : ℕ → ℕ → P (Frames τ) (Unit {0})
  unmap_pages zero p s = returns tt s
  unmap_pages (suc n) p s = (sys_page_unmap p >>= λ u. unmap_pages n (p + 1)) s

  -- What follows `err:`
  unfoldable pub dup_fails : ℕ → Errno → P (Frames τ) (Code ℕ)
  dup_fails newfd x s =
      (sys_page_unmap (fd_page newfd) >>= λ u.
      unmap_pages ptpages (data_page newfd) >>= λ v. pure (err x))
        s

  -- The part after the close of the new descriptor.
  unfoldable pub dup_onto : (ℕ → Bool) → ℕ → ℕ → P (Frames τ) (Code ℕ)
  dup_onto refuses fd newfd s =
      (dup_data refuses fd newfd >>= λ r. elim r [
        | err x ↦ dup_fails newfd x
        | ok u ↦ dup_fd refuses fd newfd >>= λ q. elim q [
          | err x ↦ dup_fails newfd x
          | ok v ↦ pure (ok newfd)
        ]
      ])
        s

  unfoldable pub dup : List (Dev τ) → (ℕ → Bool) → ℕ → ℕ → P (Frames τ) (Code ℕ)
  dup devtab refuses oldfd newfd s = elim (fd_lookup oldfd s) [
    | err x ↦ returns (err x) s
    | ok fd ↦ (close devtab newfd >>= λ r. dup_onto refuses fd newfd) s
  ]
