-- ===== src/User/Fd/Self.antt =====
-- dup of lib/fd.c of a descriptor onto itself.
use kludgeos.Base.{
  ℕ, zero, suc, ◌+◌, ◌<◌, ◌≡◌, ◌≢◌, refl, ap, ◌∙◌, inl, Bool, false, has, none, some, List, Code,
  ok, err, e_inval, arith,
}
use kludgeos.User.Space.{Space, returns, pte_p, ptpages}
use kludgeos.User.File.{maxfd, fd_page, data_page, fd_lookup}
use kludgeos.User.Fd.{Frames, Dev, mapped_entry, sys_page_map}
use kludgeos.User.Fd.Dup.{dup_page, dup_pages, dup_data, dup_fd, dup_fails, dup_onto, dup}
use kludgeos.User.Fd.Closing.{
  without, Closes, by_device, unknown, fd_lookup_open, fd_lookup_closed, close_lem,
}
use kludgeos.User.Fd.Copied.{sys_page_unmap_lem, unmap_pages_lem}

module _ {τ : Type 0} (devtab : List (Dev τ)) (refuses : ℕ → Bool) where
  -- Pages that are not present, in a page table that is there.
  abbrev pub AreEmpty : ℕ → ℕ → Space (Frames τ) → Type 0
  AreEmpty n from s =
      (i : ℕ) → i < n → (e : ℕ) × (s.vpt (from + i) ≡ some e) × (has e pte_p ≡ false)

  dup_pages_none :
      (n src dst : ℕ) (s : Space (Frames τ))
      → AreEmpty n src s
      → dup_pages refuses n src dst s ≡ returns (ok tt) s
  unfolding dup_pages dup_page
  dup_pages_none zero src dst s empty = refl
  dup_pages_none (suc n) src dst s empty =
      let (e, at, gone) = empty 0 (omega arith) in
      let first : s.vpt src ≡ some e = ap s.vpt (omega arith) ∙ at in
      ground (
        arith,
        first,
        gone,
        dup_pages_none n (src + 1) (dst + 1) s (λ i lt.
            let (e', at', gone') = empty (i + 1) (omega arith) in
            (e', ap s.vpt (omega arith) ∙ at', gone')),
      )

  is_open :
      (fd : ℕ) (r : Code (Unit {0})) (s s1 : Space (Frames τ))
      → fd < maxfd
      → Closes devtab fd s r s1
      → fd_lookup fd s ≡ ok fd
  is_open fd r s s1 lt (by_device d e at there found run) = fd_lookup_open devtab fd e s lt at there
  is_open fd r s s1 lt (unknown e at there found is same) = fd_lookup_open devtab fd e s lt at there

  dup_data_none :
      (fd : ℕ) (s : Space (Frames τ))
      → AreEmpty ptpages (data_page fd) s
      → dup_data refuses fd fd s ≡ returns (ok tt) s
  unfolding dup_data
  dup_data_none fd s empty =
      let (e, at, gone) = empty 0 (omega arith) in
      let first : s.vpt (data_page fd) ≡ some e = ap s.vpt (omega arith) ∙ at in
      ground (arith, first, dup_pages_none ptpages (data_page fd) (data_page fd) s empty)

  dup_fd_none :
      (fd : ℕ) (s : Space (Frames τ))
      → s.vpt (fd_page fd) ≡ some 0
      → dup_fd refuses fd fd s ≡ returns (err e_inval) s
  unfolding dup_fd sys_page_map mapped_entry
  dup_fd_none fd s at = ground (arith, at)

  -- Where the device lets an open descriptor be closed, and leaves its data pages unmapped in a
  -- page table that is there, dup of the descriptor onto itself returns -E_INVAL and the
  -- descriptor is closed.
  pub dup_self :
      (fd : ℕ) (r : Code (Unit {0})) (s s1 : Space (Frames τ))
      → fd < maxfd
      → Closes devtab fd s r s1
      → s1.vpt (fd_page fd) ≢ none
      → AreEmpty ptpages (data_page fd) (without devtab s1 fd)
      → (s' : Space (Frames τ)) × (dup devtab refuses fd fd s ≡ returns (err e_inval) s')
        × (fd_lookup fd s' ≡ err e_inval)
  unfolding dup dup_onto dup_fails
  dup_self fd r s s1 lt closes kept empty =
      let closed = close_lem devtab fd s s1 r lt closes kept in
      let (s2, run2, gone2, kept2, frames2) =
        sys_page_unmap_lem refuses (fd_page fd) (without devtab s1 fd) in
      let (s3, run3, un) = unmap_pages_lem refuses ptpages (data_page fd) s2 in
      (
        s3,
        ground (
          arith,
          is_open fd r s s1 lt closes,
          closed,
          dup_data_none fd (without devtab s1 fd) empty,
          dup_fd_none fd (without devtab s1 fd) (ground arith),
          run2,
          run3,
        ),
        fd_lookup_closed devtab fd s3
            (ground (arith, gone2, un.kept (fd_page fd) (inl (omega arith)))),
      )
