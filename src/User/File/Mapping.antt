-- ===== src/User/File/Mapping.antt =====
-- What fmap and funmap of lib/file.c do to the pages of a file.
use kludgeos.Base.{
  ℕ, zero, suc, ◌+◌, ◌*◌, ◌/◌, ◌≤◌, ◌<◌, ◌≡◌, refl, sym, ap, ◌≢◌, ◌∙◌, ◌⊎◌, inl, inr, Bool, true,
  false, Bool-cases, number_cases, ◌&&◌, ◌==◌, ltb, if◌then◌else◌, update, has, some, Code, ok, err,
  arith,
}
use kludgeos.User.Space.{Space, Server, Run, returns, present, pgsize, ptpages, pte_p, pte_d}
use kludgeos.User.File.{
  data_page, maxfilesize, pages_of, report_dirty, funmap_page, funmap_from, funmap,
}

module _ {σ : Type 0} where
  -- The page table of the file's pages is there.
  abbrev pub HasTable : Space σ → ℕ → Type 0
  HasTable s fd =
      (p : ℕ) → data_page fd ≤ p → p < data_page fd + ptpages → (e : ℕ) × (s.vpt p ≡ some e)

  -- The pages from `lo` on and below `hi` are not mapped in `s'`; the others are as they were.
  pub record Unmaps (s s' : Space σ) (lo hi : ℕ) : Type 0 where
    pub gone : (p : ℕ) → lo ≤ p → p < hi → present s' p ≡ false
    pub kept : (p : ℕ) → (p < lo) ⊎ (hi ≤ p) → s'.vpt p ≡ s.vpt p
    pub tabled : (p e : ℕ) → s.vpt p ≡ some e → (e' : ℕ) × (s'.vpt p ≡ some e')

  pub Unmaps-none : (s : Space σ) (lo hi : ℕ) → hi ≤ lo → Unmaps s s lo hi
  Unmaps-none s lo hi le = record {
    gone = λ p low high. absurd (omega arith);
    kept = λ p h. refl;
    tabled = λ p e at. (e, at);
  }

  Unmaps-HasTable :
      (s s' : Space σ) (fd : ℕ)
      → HasTable s fd
      → ((p : ℕ) → (s'.vpt p ≡ s.vpt p) ⊎ (s'.vpt p ≡ some 0))
      → HasTable s' fd
  Unmaps-HasTable s s' fd tables either p low high = elim (either p) [
    | inl same ↦ let (e, at) = tables p low high in (e, same ∙ at)
    | inr zeroed ↦ (0, zeroed)
  ]

module _ {σ : Type 0} (server : Server σ) (fd : ℕ) (dirty : Bool) where
  -- Nothing is reported to the server: the pages are not dirty, or not the first one.
  abbrev pub Silent : Space σ → Type 0
  Silent s = (e : ℕ) → s.vpt (data_page fd) ≡ some e → (dirty && has e pte_d) ≡ false

  abbrev Reports : Space σ → Code (Unit {0}) → Run σ (Code (Unit {0})) → Type 0
  Reports s ret run =
      (r : Code (Unit {0})) × (t : σ) × (run ≡ returns r (record s { server = t }))
      × (Silent s → (r ≡ ret) × (t ≡ s.server))

  report_dirty_lem :
      (i : ℕ) (s : Space σ) (ret : Code (Unit {0})) (e0 : ℕ)
      → s.vpt (data_page fd) ≡ some e0
      → Reports s ret (report_dirty server fd dirty i ret s)
  unfolding report_dirty
  report_dirty_lem i s ret e0 at0 = elim (Bool-cases (dirty && has e0 pte_d)) [
    | inr quiet ↦ (ret, s.server, ground (arith, at0, quiet), λ h. (refl, refl))
    | inl loud ↦ (
      elim (asked.0) [ ok u ↦ ret | err x ↦ err x ],
      asked.1,
      by_answer loud asked.0 refl,
      λ h. absurd (loud_quiet loud (h e0 at0)),
    )
  ]
    where
      asked : Code (Unit {0}) × σ
      asked = server.fsipc_dirty (server.file_id fd s.server) i s.server

      loud_quiet : (dirty && has e0 pte_d) ≡ true → (dirty && has e0 pte_d) ≢ false
      loud_quiet a b = ground (arith, a, b)

      by_answer :
          (dirty && has e0 pte_d) ≡ true
          → (q : Code (Unit {0})) → asked.0 ≡ q
          → report_dirty server fd dirty i ret s
            ≡ returns (elim q [ ok u ↦ ret | err x ↦ err x ]) (record s { server = asked.1 })
      by_answer loud (ok u) is = ground (arith, at0, loud, is)
      by_answer loud (err x) is = ground (arith, at0, loud, is)

  -- A round of funmap at the page `j` of the file.
  abbrev Round : ℕ → Space σ → Code (Unit {0}) → Run σ (Code (Unit {0})) → Type 0
  Round j s ret run =
      (r : Code (Unit {0})) × (s' : Space σ) × (run ≡ returns r s')
      × ((p : ℕ)
          → s'.vpt p
            ≡ (if (p == data_page fd + j) && present s (data_page fd + j) then some 0 else s.vpt p))
      × (Silent s → (r ≡ ret) × (s'.server ≡ s.server))

  funmap_page_lem :
      (j : ℕ) (s : Space σ) (ret : Code (Unit {0}))
      → HasTable s fd
      → j < ptpages
      → Round j s ret (funmap_page server fd dirty (j * pgsize) ret s)
  unfolding funmap_page
  funmap_page_lem j s ret tables lt =
      let (e, at) = tables (data_page fd + j) (omega arith) (omega arith) in
      let (e0, at0) = tables (data_page fd) (omega arith) (omega arith) in
      let (r, t, run, quiet) = report_dirty_lem (j * pgsize) s ret e0 at0 in
      elim (Bool-cases (has e pte_p)) [
        | inr absent ↦ (
          ret,
          s,
          ground (arith, at, absent, page),
          λ p. ground (arith, at, absent),
          λ h. (refl, refl),
        )
        | inl there ↦ (
          r,
          record s { vpt = update s.vpt (data_page fd + j) (some 0); server = t },
          ground (arith, at, there, page, run),
          λ p. ground (arith, at, there),
          quiet,
        )
      ]
    where
      page : data_page fd + j * pgsize / pgsize ≡ data_page fd + j
      page = omega arith

  Silent-kept :
      (s s' : Space σ)
      → ((p : ℕ) → (s'.vpt p ≡ s.vpt p) ⊎ (s'.vpt p ≡ some 0))
      → Silent s
      → Silent s'
  Silent-kept s s' either quiet e at = elim (either (data_page fd)) [
    | inl same ↦ quiet e (sym same ∙ at)
    | inr zeroed ↦ ground (arith, zeroed, at, no_bits)
  ]
    where
      no_bits : has 0 pte_d ≡ false
      no_bits = refl

  -- What a round leaves of the entries.
  abbrev Paged : ℕ → Space σ → Space σ → Type 0
  Paged j s s' =
      (p : ℕ)
      → s'.vpt p
        ≡ (if (p == data_page fd + j) && present s (data_page fd + j) then some 0 else s.vpt p)

  Paged-either :
      (j : ℕ) (s s' : Space σ) → Paged j s s' → (p : ℕ) → (s'.vpt p ≡ s.vpt p) ⊎ (s'.vpt p ≡ some 0)
  Paged-either j s s' pages p =
      elim (Bool-cases ((p == data_page fd + j) && present s (data_page fd + j))) [
        | inl hit ↦ inr (ground (arith, pages p, hit))
        | inr miss ↦ inl (ground (arith, pages p, miss))
      ]

  Unmaps-step :
      (j hi : ℕ) (s s1 s' : Space σ)
      → Paged j s s1
      → Unmaps s1 s' (data_page fd + suc j) (data_page fd + hi)
      → j < hi
      → Unmaps s s' (data_page fd + j) (data_page fd + hi)
  Unmaps-step j hi s s1 s' pages unmaps lt = record {
    gone = λ p low high. elim (number_cases p (data_page fd + j)) [
      | inl same ↦ here p same
      | inr other ↦ unmaps.gone p (omega arith) high
    ];
    kept = λ p outside. elim outside [
      | inl below ↦ unmaps.kept p (inl (omega arith)) ∙ ground (arith, pages p)
      | inr above ↦ unmaps.kept p (inr above) ∙ ground (arith, pages p)
    ];
    tabled = λ p e at. elim (Paged-either j s s1 pages p) [
      | inl same ↦ unmaps.tabled p e (same ∙ at)
      | inr zeroed ↦ unmaps.tabled p 0 zeroed
    ];
  }
    where
      here : (p : ℕ) → p ≡ data_page fd + j → present s' p ≡ false
      here p same = ground (arith, pages p, unmaps.kept p (inl (omega (arith, same))), same)

  abbrev pub Loop : ℕ → ℕ → Space σ → Code (Unit {0}) → Run σ (Code (Unit {0})) → Type 0
  Loop j hi s ret run =
      (r : Code (Unit {0})) × (s' : Space σ) × (run ≡ returns r s')
      × Unmaps s s' (data_page fd + j) (data_page fd + hi)
      × (Silent s → (r ≡ ret) × (s'.server ≡ s.server))

  funmap_from_lem :
      (n j oldsize : ℕ) (s : Space σ) (ret : Code (Unit {0}))
      → HasTable s fd
      → oldsize ≤ maxfilesize
      → oldsize ≤ (j + n) * pgsize
      → Loop j (pages_of oldsize) s ret (funmap_from server n fd dirty (j * pgsize) oldsize ret s)
  unfolding funmap_from
  funmap_from_lem zero j oldsize s ret tables small enough =
      (ret, s, refl, Unmaps-none s _ _ (omega arith), λ h. (refl, refl))
  funmap_from_lem (suc n) j oldsize s ret tables small enough =
      elim (Bool-cases (ltb (j * pgsize) oldsize)) [
        | inr past ↦ (
          ret,
          s,
          ground (arith, past),
          Unmaps-none s _ _ (ground (arith, past)),
          λ h. (refl, refl),
        )
        | inl inside ↦
            let (r1, s1, run1, pages, quiet1) =
              funmap_page_lem j s ret tables (ground (arith, inside, small)) in
            let (r, s', run, unmaps, quiet) =
              funmap_from_lem n (suc j) oldsize s1 r1
                (Unmaps-HasTable s s1 fd tables (Paged-either j s s1 pages)) small (omega arith) in
            (
              r,
              s',
              ground (arith, inside, run1, rw next at run),
              Unmaps-step j _ s s1 s' pages unmaps (ground (arith, inside)),
              λ quiet_s.
                  let (same_r, same_t) = quiet1 quiet_s in
                  let (same_r', same_t') =
                    quiet (Silent-kept s s1 (Paged-either j s s1 pages) quiet_s) in
                  (same_r' ∙ same_r, same_t' ∙ same_t),
            )
      ]
    where
      next : suc j * pgsize ≡ j * pgsize + pgsize
      next = omega arith

  -- Every page of the file from `newsize` on is unmapped and no other entry changes; where the first
  -- page is not dirty, nothing is reported to the server, whatever the other pages are.
  pub funmap_lem :
      (oldsize newsize : ℕ) (s : Space σ)
      → HasTable s fd
      → oldsize ≤ maxfilesize
      → Loop
          (pages_of newsize)
          (pages_of oldsize)
          s
          (ok tt)
          (funmap server fd oldsize newsize dirty s)
  unfolding funmap
  funmap_lem oldsize newsize s tables small =
      funmap_from_lem (oldsize / pgsize + 1) (pages_of newsize) oldsize s (ok tt) tables small
        (omega arith)

-- Where the entry of the first page is not dirty, funmap unmaps the pages and tells the server of
-- none, even where the others are dirty.
pub funmap_unreported :
    {σ : Type 0} (server : Server σ) (fd oldsize newsize : ℕ) (s : Space σ)
    → HasTable s fd
    → oldsize ≤ maxfilesize
    → ((e : ℕ) → s.vpt (data_page fd) ≡ some e → has e pte_d ≡ false)
    → (s' : Space σ) × (funmap server fd oldsize newsize true s ≡ returns (ok tt) s')
      × (s'.server ≡ s.server)
      × Unmaps s s' (data_page fd + pages_of newsize) (data_page fd + pages_of oldsize)
funmap_unreported server fd oldsize newsize s tables small clean =
    let (r, s', run, unmaps, quiet) = funmap_lem server fd true oldsize newsize s tables small in
    let (done, same) = quiet clean in (s', run ∙ ap (λ c. returns c s') done, same, unmaps)
