-- ===== src/User/File/Receiving.antt =====
-- fmap of lib/file.c maps all of the pages it is asked for, or leaves none of them mapped.
use kludgeos.Base.{
  ℕ, zero, suc, ◌+◌, ◌*◌, ◌/◌, ◌≤◌, ◌<◌, ◌≡◌, ◌==◌, refl, ◌∙◌, ◌⊎◌, inl, inr, true, false,
  Bool-cases, number_cases, ltb, update, has, some, Code, Errno, ok, err, arith,
}
use kludgeos.User.Space.{Space, Server, Run, returns, present, pgsize, ptpages, pte_p}
use kludgeos.User.File.{
  data_page, maxfilesize, pages_of, map_entry, with_table, fmap_page, fmap_from, fmap,
}
use kludgeos.User.File.Mapping.{HasTable, Unmaps, funmap_lem}

-- A page that the server sends is present.
abbrev pub SendsPages : {σ : Type 0} → Server σ → Type 0
SendsPages {σ} server =
    (id offset : ℕ) (t t' : σ) (e : ℕ)
    → server.fsipc_map id offset t ≡ (ok e, t')
    → has e pte_p ≡ true

module _ {σ : Type 0} (server : Server σ) (fd : ℕ) (sends : SendsPages server) where
  -- The pages from `j` on and below `hi` are mapped, or an error left those from `lo` on unmapped up
  -- to the one that failed.
  abbrev pub MapEnds : ℕ → ℕ → ℕ → Space σ → Space σ → Code (Unit {0}) → Type 0
  MapEnds lo j hi s s' (ok u) =
      ((p : ℕ) → data_page fd + j ≤ p → p < data_page fd + hi → present s' p ≡ true)
      × ((p : ℕ) → (p < data_page fd + j) ⊎ (data_page fd + hi ≤ p) → s'.vpt p ≡ s.vpt p)
  MapEnds lo j hi s s' (err x) =
      (k : ℕ) × (j ≤ k) × (k < hi) × Unmaps s s' (data_page fd + lo) (data_page fd + k)

  -- What the page `j` of the file gives.
  data Received (j : ℕ) (s : Space σ) : Run σ (Code (Unit {0})) → Type 0 where
    received :
        (e : ℕ) (t : σ)
        → has e pte_p ≡ true
        → Received j s (
            returns
              (ok tt)
              (record s { vpt = update s.vpt (data_page fd + j) (some e); server = t }))
    refused : (x : Errno) (t : σ) → Received j s (returns (err x) (record s { server = t }))

  -- Where the table is there, mapping a page changes its entry only.
  map_entry-tabled :
      (j e : ℕ) (s : Space σ)
      → HasTable s fd
      → j < ptpages
      → map_entry s.vpt (data_page fd + j) e ≡ update s.vpt (data_page fd + j) (some e)
  unfolding map_entry with_table
  map_entry-tabled j e s tables lt = λ i p. at p i
    where
      inside : (p : ℕ) → (p / ptpages == (data_page fd + j) / ptpages) ≡ true → data_page fd ≤ p
      inside p eq = ground (arith, eq, lt)

      below :
          (p : ℕ)
          → (p / ptpages == (data_page fd + j) / ptpages) ≡ true
          → p < data_page fd + ptpages
      below p eq = ground (arith, eq, lt)

      at :
          (p : ℕ)
          → map_entry s.vpt (data_page fd + j) e p ≡ update s.vpt (data_page fd + j) (some e) p
      at p = elim (Bool-cases (p / ptpages == (data_page fd + j) / ptpages)) [
        | inl same ↦
            let (e', is) = tables p (inside p same) (below p same) in ground (arith, same, is)
        | inr other ↦ ground (arith, other)
      ]

  fmap_page_lem :
      (j : ℕ) (s : Space σ)
      → HasTable s fd
      → j < ptpages
      → Received j s (fmap_page server fd (j * pgsize) s)
  unfolding fmap_page
  fmap_page_lem j s tables lt = by_answer asked.0 refl
    where
      asked : Code ℕ × σ
      asked = server.fsipc_map (server.file_id fd s.server) (j * pgsize) s.server

      page : data_page fd + j * pgsize / pgsize ≡ data_page fd + j
      page = omega arith

      on_ok :
          (e : ℕ)
          → asked.0 ≡ ok e
          → fmap_page server fd (j * pgsize) s
            ≡ returns
                (ok tt)
                (record s { vpt = update s.vpt (data_page fd + j) (some e); server = asked.1 })
      on_ok e is = ground (arith, is, page, map_entry-tabled j e s tables lt)

      on_err :
          (x : Errno)
          → asked.0 ≡ err x
          → fmap_page server fd (j * pgsize) s ≡ returns (err x) (record s { server = asked.1 })
      on_err x is = ground (arith, is)

      by_answer : (q : Code ℕ) → asked.0 ≡ q → Received j s (fmap_page server fd (j * pgsize) s)
      by_answer (ok e) is = rw (on_ok e is) (
          received e asked.1 (
            sends (server.file_id fd s.server) (j * pgsize) s.server asked.1 e
              (λ i. (is i, asked.1))))
      by_answer (err x) is = rw (on_err x is) (refused x asked.1)

  abbrev pub Ends : ℕ → ℕ → ℕ → Space σ → Run σ (Code (Unit {0})) → Type 0
  Ends lo j hi s run =
      (r : Code (Unit {0})) × (s' : Space σ) × (run ≡ returns r s') × MapEnds lo j hi s s' r

  -- The rounds after a page is received end as the rounds from that page on.
  MapEnds-step :
      (lo j hi e : ℕ) (t : σ) (s s' : Space σ) (r : Code (Unit {0}))
      → has e pte_p ≡ true
      → lo ≤ j
      → j < hi
      → MapEnds lo
          (suc j)
          hi
          (record s { vpt = update s.vpt (data_page fd + j) (some e); server = t })
          s'
          r
      → MapEnds lo j hi s s' r
  MapEnds-step lo j hi e t s s' (ok u) there le lt (mapped, kept) = (
    λ p low high. elim (number_cases p (data_page fd + j)) [
      | inl same ↦ here p same
      | inr other ↦ mapped p (omega arith) high
    ],
    λ p outside. elim outside [
      | inl low ↦ kept p (inl (omega arith)) ∙ ground (arith, low)
      | inr high ↦ kept p (inr high) ∙ ground (arith, high, lt)
    ],
  )
    where
      here : (p : ℕ) → p ≡ data_page fd + j → present s' p ≡ true
      here p same = ground (arith, kept p (inl (omega (arith, same))), same, there)
  MapEnds-step lo j hi e t s s' (err x) there le lt (k, above, below, unmaps) = (
    k,
    omega arith,
    below,
    record {
      gone = unmaps.gone;
      kept = λ p outside. elim outside [
        | inl low ↦ unmaps.kept p (inl low) ∙ ground (arith, low, le)
        | inr high ↦ unmaps.kept p (inr high) ∙ ground (arith, high, above)
      ];
      tabled = λ p e' at. elim (number_cases p (data_page fd + j)) [
        | inl same ↦ unmaps.tabled p e (ground (arith, same))
        | inr ne ↦ unmaps.tabled p e' (ground (arith, ne, at))
      ];
    },
  )

  fmap_from_lem :
      (n j oldsize newsize : ℕ) (s : Space σ)
      → HasTable s fd
      → newsize ≤ maxfilesize
      → pages_of oldsize ≤ j
      → newsize ≤ (j + n) * pgsize
      → Ends
          (pages_of oldsize)
          j
          (pages_of newsize)
          s
          (fmap_from server n fd (j * pgsize) oldsize newsize s)
  unfolding fmap_from
  fmap_from_lem zero j oldsize newsize s tables small le enough =
      (ok tt, s, refl, (λ p low high. absurd (omega arith), λ p h. refl))
  fmap_from_lem (suc n) j oldsize newsize s tables small le enough =
      elim (Bool-cases (ltb (j * pgsize) newsize)) [
        | inr past ↦ (
          ok tt,
          s,
          ground (arith, past),
          (λ p low high. absurd (ground (arith, past)), λ p h. refl),
        )
        | inl inside ↦
            step (fmap_page server fd (j * pgsize) s) refl
              (fmap_page_lem j s tables (ground (arith, inside, small))) inside
              (λ s1 tables1.
                fmap_from_lem n (suc j) oldsize newsize s1 tables1 small (omega arith)
                  (omega arith))
      ]
    where
      next : suc j * pgsize ≡ j * pgsize + pgsize
      next = omega arith

      back : pages_of (j * pgsize) ≡ j
      back = omega arith

      with_page :
          (e : ℕ) (t : σ)
          → HasTable (record s { vpt = update s.vpt (data_page fd + j) (some e); server = t }) fd
      with_page e t p low high = elim (number_cases p (data_page fd + j)) [
        | inl same ↦ (e, ground (arith, same))
        | inr other ↦ let (e', at) = tables p low high in (e', ground (arith, other, at))
      ]

      step :
          (run : Run σ (Code (Unit {0})))
          → fmap_page server fd (j * pgsize) s ≡ run
          → Received j s run
          → ltb (j * pgsize) newsize ≡ true
          → ((s1 : Space σ)
              → HasTable s1 fd
              → Ends
                  (pages_of oldsize)
                  (suc j)
                  (pages_of newsize)
                  s1
                  (fmap_from server n fd (suc j * pgsize) oldsize newsize s1))
          → Ends
              (pages_of oldsize)
              j
              (pages_of newsize)
              s
              (fmap_from server (suc n) fd (j * pgsize) oldsize newsize s)
      step run is (received e t there) inside again =
          let s1 = record s { vpt = update s.vpt (data_page fd + j) (some e); server = t } in
          let (r, s', rest, ends) = again s1 (with_page e t) in
          (
            r,
            s',
            ground (arith, inside, is, rw next at rest),
            MapEnds-step (pages_of oldsize) j (pages_of newsize) e t s s' r there le
                (ground (arith, inside)) ends,
          )
      step run is (refused x t) inside again =
          let s1 = record s { server = t } in
          let (r, s', undone, unmaps, _) =
            funmap_lem server fd false (j * pgsize) oldsize s1 tables
              (ground (arith, inside, small)) in
          (
            err x,
            s',
            ground (arith, inside, is, undone),
            (
              j,
              omega arith,
              ground (arith, inside),
              record {
                gone = (rw back at unmaps).gone;
                kept = (rw back at unmaps).kept;
                tabled = (rw back at unmaps).tabled;
              },
            ),
          )

  -- fmap where the page table is there.
  pub tabled_lem :
      (oldsize newsize : ℕ) (s : Space σ)
      → HasTable s fd
      → newsize ≤ maxfilesize
      → Ends
          (pages_of oldsize)
          (pages_of oldsize)
          (pages_of newsize)
          s
          (fmap server fd oldsize newsize s)
  unfolding fmap
  tabled_lem oldsize newsize s tables small =
      fmap_from_lem (newsize / pgsize + 1) (pages_of oldsize) oldsize newsize s tables small
        (omega arith) (omega arith)
