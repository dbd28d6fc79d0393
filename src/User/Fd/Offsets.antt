-- ===== src/User/Fd/Offsets.antt =====
-- Descriptors on one frame have one offset: seek, and dup before it.
use kludgeos.Base.{
  ℕ, ◌+◌, ◌*◌, ◌/◌, ◌%◌, ◌<◌, ◌≡◌, ◌≢◌, refl, ap, sym, ◌∙◌, ◌⊎◌, inl, inr, ◌==◌, Bool, true, false,
  has, has_pow, bit, bit_and, bit_and-bit, bit_and-lt, some, List, Code, ok, err, e_no_mem, arith,
}
use kludgeos.User.Space.{Space, Run, returns, present, pte_p}
use kludgeos.User.File.{maxfd, fd_page}
use kludgeos.User.Fd.{Frames, Dev, pte_w, pte_user, frame_of, read_fd, set_offset, put_offset, seek}
use kludgeos.User.Fd.Dup.{dup}
use kludgeos.User.Fd.Closing.{fd_lookup_open, read_fd_open}
use kludgeos.User.Fd.Copied.{copy}
use kludgeos.User.Fd.Sharing.{HasTableOrNone, DupEnds, shares, undone, dup_lem}

copy_frame : (e : ℕ) → copy e / 4096 ≡ e / 4096
copy_frame e = omega (arith, bit_and-lt 12 e pte_user (omega arith))

copy_p : (e : ℕ) → has (copy e) pte_p ≡ has e pte_p
unfolding bit
copy_p e = has_pow (copy e) 0 ∙ ap (λ (b : ℕ). b == 1) same ∙ sym (has_pow e 0)
  where
    low : (e / 4096 * 4096 + bit_and e pte_user) % 2 ≡ bit_and e pte_user % 2
    low = omega arith

    same : bit (copy e) 0 ≡ bit e 0
    same = low ∙ bit_and-bit 0 e pte_user ∙ omega arith

copy_w : (e : ℕ) → has (copy e) pte_w ≡ has e pte_w
unfolding bit
copy_w e = has_pow (copy e) 1 ∙ ap (λ (b : ℕ). b == 1) same ∙ sym (has_pow e 1)
  where
    low : (e / 4096 * 4096 + bit_and e pte_user) / 2 % 2 ≡ bit_and e pte_user / 2 % 2
    low = omega arith

    same : bit (copy e) 1 ≡ bit e 1
    same = low ∙ bit_and-bit 1 e pte_user ∙ omega arith

module _ {τ : Type 0} (devtab : List (Dev τ)) where
  -- A seek of one descriptor moves the offset of every other that maps the same frame.
  seek_lem :
      (fd other e e' off : ℕ) (s : Space (Frames τ))
      → fd < maxfd
      → s.vpt (fd_page fd) ≡ some e
      → has e pte_p ≡ true
      → has e pte_w ≡ true
      → s.vpt (fd_page other) ≡ some e'
      → has e' pte_p ≡ true
      → e / 4096 ≡ e' / 4096
      → (s' : Space (Frames τ)) × (seek devtab fd off s ≡ returns (ok tt) s')
        × (read_fd other s' ≡ returns (record (s.server.fds (e' / 4096)) { fd_offset = off }) s')
  unfolding seek set_offset frame_of
  seek_lem fd other e e' off s lt at there writable at' there' same =
      let s' : Space (Frames τ) = record s { server = put_offset (e / 4096) off s.server } in
      (
        s',
        ground (arith, fd_lookup_open devtab fd e s lt at there, at, there, writable),
        read_fd_open devtab other e' s' at' there' ∙ ap (λ f. returns f s') (ground (arith, same)),
      )

  -- In the same situation, with a page of the descriptor that can be written, dup fails with
  -- -E_NO_MEM, or it succeeds and a seek of the new descriptor returns 0 and gives the old one the
  -- offset.
  pub dup_shares_offset :
      (refuses : ℕ → Bool) (fd newfd e off : ℕ) (s : Space (Frames τ))
      → fd < maxfd
      → newfd < maxfd
      → fd ≢ newfd
      → HasTableOrNone refuses fd newfd s
      → s.vpt (fd_page fd) ≡ some e
      → has e pte_p ≡ true
      → has e pte_w ≡ true
      → present s (fd_page newfd) ≡ false
      → ((s1 : Space (Frames τ)) × (dup devtab refuses fd newfd s ≡ returns (err e_no_mem) s1))
        ⊎ ((s1 : Space (Frames τ)) × (dup devtab refuses fd newfd s ≡ returns (ok newfd) s1)
            × ((s2 : Space (Frames τ)) × (seek devtab newfd off s1 ≡ returns (ok tt) s2)
                × (read_fd fd s2
                    ≡ returns (record (s.server.fds (e / 4096)) { fd_offset = off }) s2)))
  dup_shares_offset refuses fd newfd e off s lt newlt ne tables at there writable free =
      by_end refl (dup_lem refuses fd newfd devtab e s lt newlt ne tables at there free)
    where
      by_end :
          {run : Run (Frames τ) (Code ℕ)}
          → dup devtab refuses fd newfd s ≡ run
          → DupEnds refuses fd newfd e s run
          → ((s1 : Space (Frames τ)) × (dup devtab refuses fd newfd s ≡ returns (err e_no_mem) s1))
            ⊎ ((s1 : Space (Frames τ)) × (dup devtab refuses fd newfd s ≡ returns (ok newfd) s1)
                × ((s2 : Space (Frames τ)) × (seek devtab newfd off s1 ≡ returns (ok tt) s2)
                    × (read_fd fd s2
                        ≡ returns (record (s.server.fds (e / 4096)) { fd_offset = off }) s2)))
      by_end run (undone s1 frames at1 gone pages) = inl (s1, run)
      by_end run (shares s1 frames at1 new_at copies) =
          let (s2, seeks, reads) =
            seek_lem newfd fd (copy e) e off s1 newlt new_at (copy_p e ∙ there)
              (copy_w e ∙ writable) at1 there (copy_frame e) in
          inr (
            s1,
            run,
            (
              s2,
              seeks,
              reads ∙ ap (λ t. returns (record (t.fds (e / 4096)) { fd_offset = off }) s2) frames,
            ),
          )
