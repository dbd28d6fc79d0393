-- ===== src/User/Fd/Files.antt =====
-- close_all of lib/fd.c over the device of files of lib/file.c.
use kludgeos.Base.{
  ℕ, ◌+◌, ◌/◌, ◌≤◌, ◌<◌, ◌≡◌, refl, inl, inr, ◌==◌, Bool, true, Bool-cases, number_cases, ◌⊎◌, ◌≢◌,
  Option-cases, some, [], ◌∷◌, Code, ok, err, e_inval, arith,
}
use kludgeos.User.Space.{Space, Server, returns, present}
use kludgeos.User.File.{
  maxfd, maxfilesize, fd_page, data_page, pages_of, fd_lookup, funmap_from, funmap, file_close,
}
use kludgeos.User.File.Mapping.{HasTable, Unmaps, Unmaps-none, funmap_lem}
use kludgeos.User.Fd.{Frames, dev_lookup, close_all}
use kludgeos.User.Fd.Device.{devfile}
use kludgeos.User.Fd.Closing.{without, by_device, unknown, AllClose, close_all_lem}

module _ {σ : Type 0} (server : Server σ) where
  -- The page table of the data of a descriptor is there, or its file is empty, so that it never had
  -- one.
  abbrev pub HasData : Space σ → ℕ → Type 0
  HasData s fd = HasTable s fd ⊎ ((t : σ) → server.f_size fd t ≡ 0)

  -- The same for every descriptor that is open.
  abbrev pub HaveData : Space σ → Type 0
  HaveData s = (fd : ℕ) → fd < maxfd → present s (fd_page fd) ≡ true → HasData s fd

  -- The server keeps the size of no file above MAXFILESIZE.
  abbrev pub KeepsSizes : Type 0
  KeepsSizes = (fd : ℕ) (t : σ) → server.f_size fd t ≤ maxfilesize

  -- funmap of a file without pages.
  funmap_empty : (fd : ℕ) (s : Space σ) → funmap server fd 0 0 true s ≡ returns (ok tt) s
  unfolding funmap funmap_from
  funmap_empty fd s = ground arith

  from_start :
      (fd : ℕ) (s s1 : Space σ)
      → Unmaps s s1
          (data_page fd + pages_of 0)
          (data_page fd + pages_of (server.f_size fd s.server))
      → Unmaps s s1 (data_page fd) (data_page fd + pages_of (server.f_size fd s.server))
  from_start fd s s1 unmaps = record {
    gone = λ p low high. unmaps.gone p (omega arith) high;
    kept = λ p outside. unmaps.kept p (omega (arith, outside));
    tabled = unmaps.tabled;
  }

  by_result :
      (fd : ℕ) (s : Space σ) (r : Code (Unit {0})) (s1 : Space σ)
      → funmap server fd (server.f_size fd s.server) 0 true s ≡ returns r s1
      → Unmaps s s1
          (data_page fd + pages_of 0)
          (data_page fd + pages_of (server.f_size fd s.server))
      → (r : Code (Unit {0})) × (s' : Space σ) × (file_close server fd s ≡ returns r s')
        × Unmaps s s' (data_page fd) (data_page fd + pages_of (server.f_size fd s.server))
  unfolding file_close
  by_result fd s (err x) s1 run unmaps = (err x, s1, ground (arith, run), from_start fd s s1 unmaps)
  by_result fd s (ok u) s1 run unmaps =
      let (r, t) = server.fsipc_close (server.file_id fd s1.server) s1.server in
      (
        r,
        record s1 { server = t },
        ground (arith, run),
        from_start fd s (record s1 { server = t })
            (record { gone = unmaps.gone; kept = unmaps.kept; tabled = unmaps.tabled }),
      )

  -- file_close returns, unmaps the pages of the file and keeps the others.
  file_close_lem :
      (fd : ℕ) (s : Space σ)
      → KeepsSizes
      → HasData s fd
      → (r : Code (Unit {0})) × (s' : Space σ) × (file_close server fd s ≡ returns r s')
        × Unmaps s s' (data_page fd) (data_page fd + pages_of (server.f_size fd s.server))
  unfolding file_close
  file_close_lem fd s sizes (inr empty) =
      let size = empty s.server in
      by_result fd s (ok tt) s (rw size (funmap_empty fd s))
        (Unmaps-none s _ _ (omega (arith, size)))
  file_close_lem fd s sizes (inl tables) =
      let (r, s1, run, unmaps, quiet) =
        funmap_lem server fd true (server.f_size fd s.server) 0 s tables (sizes fd s.server) in
      by_result fd s r s1 run unmaps

module _ {τ : Type 0} (server : Server (Frames τ)) (is_dir : ℕ → Frames τ → Bool) where
  without-HaveData :
      (fd : ℕ) (s s' : Space (Frames τ))
      → ((p e : ℕ) → s.vpt p ≡ some e → (e' : ℕ) × (s'.vpt p ≡ some e'))
      → ((k : ℕ) → k < maxfd → s'.vpt (fd_page k) ≡ s.vpt (fd_page k))
      → fd < maxfd
      → HaveData server s
      → HaveData server (without (devfile server is_dir ∷ []) s' fd)
  without-HaveData fd s s' tabled kept lt pages k below there = elim (number_cases k fd) [
    | inl same ↦ absurd (ground (arith, same, there))
    | inr other ↦ elim (pages k below (was_there k below other there)) [
      | inr empty ↦ inr empty
      | inl tables ↦ inl (λ p above high.
          let (e, at) = tables p above high in
          let (e', at') = tabled p e at in (e', ground (arith, at', lt, above)))
    ]
  ]
    where
      was_there :
          (k : ℕ)
          → k < maxfd
          → k ≢ fd
          → present (without (devfile server is_dir ∷ []) s' fd) (fd_page k) ≡ true
          → present s (fd_page k) ≡ true
      was_there k below other there = ground (arith, kept k below, other, there)

  -- The device of files lets every descriptor be closed.
  files_close : KeepsSizes server → AllClose (devfile server is_dir ∷ []) (HaveData server)
  unfolding dev_lookup
  files_close sizes fd s lt tables there = elim (Option-cases (s.vpt (fd_page fd))) [
    | inl is ↦ absurd (ground (arith, is, there))
    | inr (e, at) ↦ elim (Bool-cases (0x66 == (s.server.fds (e / 4096)).fd_dev_id)) [
      | inl known ↦
          let (r, s', run, unmaps) = file_close_lem server fd s sizes (tables fd lt there) in
          let kept : (k : ℕ) → k < maxfd → s'.vpt (fd_page k) ≡ s.vpt (fd_page k) =
            λ k low. unmaps.kept (fd_page k) (inl (omega arith)) in
          (
            r,
            s',
            by_device (devfile server is_dir) e at (ground (arith, at, there))
                (ground (arith, known)) run,
            kept,
            without-HaveData fd s s' unmaps.tabled kept lt tables,
          )
      | inr other ↦ (
        err e_inval,
        s,
        unknown e at (ground (arith, at, there)) (ground (arith, other)) refl refl,
        (λ k low. refl),
        without-HaveData fd s s (λ p e' at'. (e', at')) (λ k low. refl) lt tables,
      )
    ]
  ]

  -- For a process whose open descriptors are files, each with the page table of its data there or
  -- always empty, and no file above MAXFILESIZE, close_all returns, whatever the server answers, and
  -- afterwards every descriptor is closed.
  pub close_all_files :
      (s : Space (Frames τ))
      → KeepsSizes server
      → HaveData server s
      → (s' : Space (Frames τ)) × (close_all (devfile server is_dir ∷ []) s ≡ returns tt s')
        × ((k : ℕ) → k < maxfd → fd_lookup k s' ≡ err e_inval)
  close_all_files s sizes tables =
      close_all_lem (devfile server is_dir ∷ []) (HaveData server) (files_close sizes) s tables
