-- ===== src/User/Fd/Sharing.antt =====
-- dup of lib/fd.c: the two descriptors share their offset and the pages of the file, or the new one
-- stays closed; and dup of a descriptor onto itself.
use kludgeos.Base.{
  ℕ, ◌+◌, ◌*◌, ◌/◌, ◌<◌, ◌≡◌, ◌≢◌, refl, ap, sym, ◌∙◌, ◌⊎◌, inl, inr, Bool, true, false,
  Option-cases, update, has, bit_and, Option, none, some, List, Code, ok, err, e_inval, e_no_mem,
  arith,
}
use kludgeos.User.Space.{Space, Run, returns, present, pte_p, ptpages}
use kludgeos.User.File.{maxfd, fd_page, data_page, fd_lookup}
use kludgeos.User.Fd.{Frames, Dev, pte_user, with_table, sys_page_map, close}
use kludgeos.User.Fd.Dup.{dup_data, dup_fd, dup_fails, dup_onto, dup}
use kludgeos.User.Fd.Closing.{fd_lookup_open, close_closed}
use kludgeos.User.Fd.Copied.{
  copy, Mapped, mapped, refused, sys_page_map_copy, Dups, dup_pages_lem, sys_page_unmap_lem,
  unmap_pages_lem,
}

table_page : (n i : ℕ) → data_page n + i ≡ (832 + n) * ptpages + i
table_page n i = omega arith

module _ {τ : Type 0} (refuses : ℕ → Bool) (fd newfd : ℕ) where
  -- The page table of the file's pages is there in full, or not at all.
  abbrev pub HasTableOrNone : Space (Frames τ) → Type 0
  HasTableOrNone s =
      ((i : ℕ) → i < ptpages → s.vpt (data_page fd + i) ≡ none)
      ⊎ ((i : ℕ) → i < ptpages → s.vpt (data_page fd + i) ≢ none)

  -- The data pages of the new descriptor are those of the old one.
  record DataShared (s s' : Space (Frames τ)) : Type 0 where
    frames : s'.server ≡ s.server
    kept : (p : ℕ) → p / ptpages ≢ 832 + newfd → s'.vpt p ≡ s.vpt p

  -- What the copy of the data pages ends in.
  data DataEnd (s s' : Space (Frames τ)) : Code (Unit {0}) → Type 0 where
    data_done :
        DataShared s s'
        → ((i e : ℕ)
            → i < ptpages
            → s.vpt (data_page fd + i) ≡ some e
            → has e pte_p ≡ true
            → s'.vpt (data_page newfd + i) ≡ some (copy e))
        → DataEnd s s' (ok tt)
    data_refused : DataShared s s' → DataEnd s s' (err e_no_mem)

  Dups-DataEnd :
      (r : Code (Unit {0})) (s s' : Space (Frames τ))
      → Dups refuses 0 (832 + fd) (832 + newfd) s r s'
      → DataEnd s s' r
  Dups-DataEnd (ok u) s s' dups =
      data_done (record { frames = dups.frames; kept = dups.kept })
        (λ i e lt at there.
          ap s'.vpt (table_page newfd i)
          ∙ dups.copied i e (omega arith) lt (sym (ap s.vpt (table_page fd i)) ∙ at) there)
  Dups-DataEnd (err x) s s' dups =
      rw dups.copied (data_refused (record { frames = dups.frames; kept = dups.kept }))

  dup_data_lem :
      (s : Space (Frames τ))
      → fd ≢ newfd
      → HasTableOrNone s
      → (r : Code (Unit {0})) × (s' : Space (Frames τ)) × (dup_data refuses fd newfd s
          ≡ returns r s')
        × DataEnd s s' r
  unfolding dup_data
  dup_data_lem s ne (inl is) = (
    ok tt,
    s,
    ground (arith, start_none is),
    data_done (record { frames = refl; kept = λ p apart. refl })
        (λ i e lt at there. lone (is i lt) at),
  )
    where
      start_none :
          ((i : ℕ) → i < ptpages → s.vpt (data_page fd + i) ≡ none) → s.vpt (data_page fd) ≡ none
      start_none all = ap s.vpt (omega arith) ∙ all 0 (omega arith)

      lone : {o : Option ℕ} {e : ℕ} {A : Type 0} → o ≡ none → o ≡ some e → A
      lone p q = absurd (ground (arith, p, q))
  dup_data_lem s ne (inr tables) =
      let (r, s', run, dups) =
        dup_pages_lem refuses ptpages 0 (832 + fd) (832 + newfd) s refl (λ e. ne (omega (arith, e)))
          (λ i lt is. tables i lt (ap s.vpt (table_page fd i) ∙ is)) in
      elim (Option-cases (s.vpt (data_page fd))) [
        | inl is ↦ absurd (tables 0 (omega arith) (ap s.vpt (omega arith) ∙ is))
        | inr (e, at) ↦
            (r, s', ground (arith, at, rw (start fd, start newfd) at run), Dups-DataEnd r s s' dups)
      ]
    where
      start : (n : ℕ) → (832 + n) * ptpages + 0 ≡ data_page n
      start n = omega arith

  -- What dup returns.
  pub data DupEnds (e : ℕ) (s : Space (Frames τ)) : Run (Frames τ) (Code ℕ) → Type 0 where
    shares :
        (s' : Space (Frames τ))
        → s'.server ≡ s.server
        → s'.vpt (fd_page fd) ≡ some e
        → s'.vpt (fd_page newfd) ≡ some (copy e)
        → ((i e' : ℕ)
            → i < ptpages
            → s.vpt (data_page fd + i) ≡ some e'
            → has e' pte_p ≡ true
            → s'.vpt (data_page newfd + i) ≡ some (copy e'))
        → DupEnds e s (returns (ok newfd) s')
    undone :
        (s' : Space (Frames τ))
        → s'.server ≡ s.server
        → s'.vpt (fd_page fd) ≡ some e
        → present s' (fd_page newfd) ≡ false
        → ((i : ℕ) → i < ptpages → present s' (data_page newfd + i) ≡ false)
        → DupEnds e s (returns (err e_no_mem) s')

  -- The error path unmaps what the loop had mapped.
  dup_fails_lem :
      (e : ℕ) (s s1 : Space (Frames τ))
      → fd < maxfd
      → newfd < maxfd
      → fd ≢ newfd
      → s1.server ≡ s.server
      → s1.vpt (fd_page fd) ≡ some e
      → DupEnds e s (dup_fails newfd e_no_mem s1)
  unfolding dup_fails
  dup_fails_lem e s s1 lt newlt ne frames at =
      let (s2, run2, gone2, kept2, frames2) = sys_page_unmap_lem refuses (fd_page newfd) s1 in
      let (s3, run3, un) = unmap_pages_lem refuses ptpages (data_page newfd) s2 in
      let fails : dup_fails newfd e_no_mem s1 ≡ returns (err e_no_mem) s3 =
        ground (arith, run2, run3) in
      rw fails (
        undone s3 (un.frames ∙ frames2 ∙ frames)
          (un.kept (fd_page fd) (inl (omega arith))
            ∙ kept2 (fd_page fd) (λ is. ne (omega (arith, is)))
            ∙ at)
          (ground (arith, gone2, un.kept (fd_page newfd) (inl (omega arith))))
          (λ i low. un.gone (data_page newfd + i) (omega arith) (omega arith)))

  dup_onto_lem :
      (e : ℕ) (s : Space (Frames τ))
      → fd < maxfd
      → newfd < maxfd
      → fd ≢ newfd
      → HasTableOrNone s
      → s.vpt (fd_page fd) ≡ some e
      → has e pte_p ≡ true
      → DupEnds e s (dup_onto refuses fd newfd s)
  unfolding dup_onto dup_fd
  dup_onto_lem e s lt newlt ne tables at there =
      let (r, s1, run, end) = dup_data_lem s ne tables in after_data r s1 run end
    where
      fd_kept : (s1 : Space (Frames τ)) → DataShared s s1 → s1.vpt (fd_page fd) ≡ some e
      fd_kept s1 shared = shared.kept (fd_page fd) (λ h. omega (arith, h, lt)) ∙ at

      after_fd :
          {run : Run (Frames τ) (Code (Unit {0}))} (s1 : Space (Frames τ))
          → dup_data refuses fd newfd s ≡ returns (ok tt) s1
          → DataShared s s1
          → ((i e' : ℕ)
              → i < ptpages
              → s.vpt (data_page fd + i) ≡ some e'
              → has e' pte_p ≡ true
              → s1.vpt (data_page newfd + i) ≡ some (copy e'))
          → sys_page_map refuses (fd_page fd) (fd_page newfd) (bit_and e pte_user) s1 ≡ run
          → Mapped refuses s1 e (fd_page newfd) run
          → DupEnds e s (dup_onto refuses fd newfd s)
      after_fd s1 run1 shared copies is mapped =
          let s2 : Space (Frames τ) = record s1 {
            vpt = update (with_table s1.vpt (fd_page newfd)) (fd_page newfd) (some (copy e));
          } in
          let done : dup_onto refuses fd newfd s ≡ returns (ok newfd) s2 =
            ground (arith, run1, fd_kept s1 shared, is) in
          rw done (
            shares s2 shared.frames (ground (arith, fd_kept s1 shared, ne)) (ground arith)
              (λ i e' low at' there'. ground (arith, copies i e' low at' there', newlt)))
      after_fd s1 run1 shared copies is refused =
          let fails : dup_onto refuses fd newfd s ≡ dup_fails newfd e_no_mem s1 =
            ground (arith, run1, fd_kept s1 shared, is) in
          rw fails (dup_fails_lem e s s1 lt newlt ne shared.frames (fd_kept s1 shared))

      after_data :
          (r : Code (Unit {0})) (s1 : Space (Frames τ))
          → dup_data refuses fd newfd s ≡ returns r s1
          → DataEnd s s1 r
          → DupEnds e s (dup_onto refuses fd newfd s)
      after_data r s1 run1 (data_done shared copies) =
          after_fd s1 run1 shared copies refl
            (sys_page_map_copy refuses s1 (fd_page fd) (fd_page newfd) e (fd_kept s1 shared) there)
      after_data r s1 run1 (data_refused shared) =
          let fails : dup_onto refuses fd newfd s ≡ dup_fails newfd e_no_mem s1 =
            ground (arith, run1) in
          rw fails (dup_fails_lem e s s1 lt newlt ne shared.frames (fd_kept s1 shared))

  -- For an open descriptor and another one that is closed, with a page table for the data pages
  -- that is there in full or not at all, dup makes the new descriptor name the frame of the old
  -- one and each data page the frame that the old one has, or it fails with -E_NO_MEM and leaves
  -- the new descriptor closed and none of its data pages mapped. The old descriptor and the
  -- contents of the frames do not change.
  pub dup_lem :
      (devtab : List (Dev τ)) (e : ℕ) (s : Space (Frames τ))
      → fd < maxfd
      → newfd < maxfd
      → fd ≢ newfd
      → HasTableOrNone s
      → s.vpt (fd_page fd) ≡ some e
      → has e pte_p ≡ true
      → present s (fd_page newfd) ≡ false
      → DupEnds e s (dup devtab refuses fd newfd s)
  unfolding dup
  dup_lem devtab e s lt newlt ne tables at there free =
      rw (onto (fd_lookup_open devtab fd e s lt at there) (close_closed devtab newfd s free))
        (dup_onto_lem e s lt newlt ne tables at there)
    where
      onto :
          fd_lookup fd s ≡ ok fd
          → close devtab newfd s ≡ returns (err e_inval) s
          → dup devtab refuses fd newfd s ≡ dup_onto refuses fd newfd s
      onto found closed = ground (arith, found, closed)
