-- ===== src/User/Fd/Copied.antt =====
-- The pages that dup of lib/fd.c maps: the entries it copies, its loop, and what its errors undo.
use kludgeos.Base.{
  ℕ, zero, suc, ◌+◌, ◌*◌, ◌/◌, ◌≤◌, ◌<◌, ◌≡◌, ◌≢◌, refl, sym, ◌∙◌, ◌⊎◌, inl, inr, Bool, true, false,
  Bool-cases, number_cases, Option-cases, update, has, has_pow, bit, bit_and, bit_and-bit, none,
  some, Code, ok, err, e_no_mem, arith,
}
use kludgeos.User.Space.{Space, Run, returns, sys_page_unmap, present, pte_p, ptpages}
use kludgeos.User.Fd.{Frames, pte_w, pte_user, with_table, mapped_entry, sys_page_map}
use kludgeos.User.Fd.Dup.{dup_page, dup_pages, unmap_pages}

-- The entry that dup makes of `e`: the same frame, with the permissions of PTE_USER.
abbrev pub copy : ℕ → ℕ
copy e = e / 4096 * 4096 + bit_and e pte_user

has-user_w : (e : ℕ) → has (bit_and e pte_user) pte_w ≡ has e pte_w
unfolding bit
has-user_w e =
    ground (arith, has_pow (bit_and e pte_user) 1, has_pow e 1, bit_and-bit 1 e pte_user, low)
  where
    low : bit pte_user 1 ≡ 1
    low = refl

module _ {τ : Type 0} (refuses : ℕ → Bool) where
  mapped_entry-copy :
      (s : Space (Frames τ)) (src e : ℕ)
      → s.vpt src ≡ some e
      → has e pte_p ≡ true
      → mapped_entry s src (bit_and e pte_user) ≡ some (copy e)
  unfolding mapped_entry
  mapped_entry-copy s src e at there = elim (Bool-cases (has e pte_w)) [
    | inl w ↦ ground (arith, at, there, w, has-user_w e)
    | inr ro ↦ ground (arith, at, there, ro, has-user_w e)
  ]

  -- What the mapping of a present page gives.
  pub data Mapped (s : Space (Frames τ)) (e dst : ℕ)
      : Run (Frames τ) (Code (Unit {0})) → Type 0 where
    mapped :
        Mapped s e dst
          (returns (ok tt) (record s { vpt = update (with_table s.vpt dst) dst (some (copy e)) }))
    refused : Mapped s e dst (returns (err e_no_mem) s)

  map_done :
      (s : Space (Frames τ)) (src dst e : ℕ)
      → s.vpt src ≡ some e
      → has e pte_p ≡ true
      → refuses dst ≡ false
      → sys_page_map refuses src dst (bit_and e pte_user) s
        ≡ returns (ok tt) (record s { vpt = update (with_table s.vpt dst) dst (some (copy e)) })
  unfolding sys_page_map
  map_done s src dst e at there free = ground (arith, mapped_entry-copy s src e at there, free)

  map_refused :
      (s : Space (Frames τ)) (src dst e : ℕ)
      → s.vpt src ≡ some e
      → has e pte_p ≡ true
      → refuses dst ≡ true
      → sys_page_map refuses src dst (bit_and e pte_user) s ≡ returns (err e_no_mem) s
  unfolding sys_page_map
  map_refused s src dst e at there full = ground (arith, mapped_entry-copy s src e at there, full)

  pub sys_page_map_copy :
      (s : Space (Frames τ)) (src dst e : ℕ)
      → s.vpt src ≡ some e
      → has e pte_p ≡ true
      → Mapped s e dst (sys_page_map refuses src dst (bit_and e pte_user) s)
  sys_page_map_copy s src dst e at there = elim (Bool-cases (refuses dst)) [
    | inl full ↦ rw (map_refused s src dst e at there full) refused
    | inr free ↦ rw (map_done s src dst e at there free) mapped
  ]

  -- After success each present page is mapped again; the only error is the kernel's.
  abbrev pub Copies : ℕ → ℕ → ℕ → Space (Frames τ) → Space (Frames τ) → Code (Unit {0}) → Type 0
  Copies j from to s s' (ok u) =
      (i e : ℕ)
      → j ≤ i
      → i < ptpages
      → s.vpt (from * ptpages + i) ≡ some e
      → has e pte_p ≡ true
      → s'.vpt (to * ptpages + i) ≡ some (copy e)
  Copies j from to s s' (err x) = x ≡ e_no_mem

  -- The run of the loop on the tables `from` and `to`, from the page `j` of each on.
  pub record Dups (j from to : ℕ) (s : Space (Frames τ)) (r : Code (Unit {0}))
      (s' : Space (Frames τ)) : Type 0 where
    pub frames : s'.server ≡ s.server
    pub kept : (p : ℕ) → p / ptpages ≢ to → s'.vpt p ≡ s.vpt p
    pub below : (p e : ℕ) → p < to * ptpages + j → s.vpt p ≡ some e → s'.vpt p ≡ some e
    pub copied : Copies j from to s s' r

  abbrev pub DupsEnd : ℕ → ℕ → ℕ → Space (Frames τ) → Run (Frames τ) (Code (Unit {0})) → Type 0
  DupsEnd j from to s run =
      (r : Code (Unit {0})) × (s' : Space (Frames τ)) × (run ≡ returns r s') × Dups j from to s r s'

  -- A page that is not present is passed over.
  Copies-skip :
      (j from to e : ℕ) (s s' : Space (Frames τ)) (r : Code (Unit {0}))
      → s.vpt (from * ptpages + j) ≡ some e
      → has e pte_p ≡ false
      → Copies (suc j) from to s s' r
      → Copies j from to s s' r
  Copies-skip j from to e s s' (err x) at gone copies = copies
  Copies-skip j from to e s s' (ok u) at gone copies = λ i e' low high at' there.
      elim (number_cases i j) [
        | inr ne ↦ copies i e' (omega (arith, ne)) high at' there
        | inl same ↦ absurd (ground (arith, at, gone, rw same at at', there))
      ]

  -- The state after the page `j` is mapped.
  abbrev with_copy : ℕ → ℕ → ℕ → Space (Frames τ) → Space (Frames τ)
  with_copy j to e s = record s {
    vpt = update (with_table s.vpt (to * ptpages + j)) (to * ptpages + j) (some (copy e));
  }

  with_copy-kept :
      (j to e p : ℕ) (s : Space (Frames τ))
      → j < ptpages
      → p / ptpages ≢ to
      → (with_copy j to e s).vpt p ≡ s.vpt p
  with_copy-kept j to e p s lt ne = elim (Option-cases (s.vpt p)) [
    | inl is ↦ ground (arith, is, ne)
    | inr (e', is) ↦ ground (arith, is, ne)
  ]

  with_copy-below :
      (j to e p e' : ℕ) (s : Space (Frames τ))
      → p < to * ptpages + j
      → s.vpt p ≡ some e'
      → (with_copy j to e s).vpt p ≡ some e'
  with_copy-below j to e p e' s lt is = ground (arith, is, lt)

  Copies-map :
      (j from to e : ℕ) (s s' : Space (Frames τ)) (r : Code (Unit {0}))
      → j < ptpages
      → from ≢ to
      → s.vpt (from * ptpages + j) ≡ some e
      → Dups (suc j) from to (with_copy j to e s) r s'
      → Copies j from to s s' r
  Copies-map j from to e s s' (err x) lt apart at dups = dups.copied
  Copies-map j from to e s s' (ok u) lt apart at dups = λ i e' low high at' there.
      elim (number_cases i j) [
        | inl same ↦ rw same (
            dups.below (to * ptpages + j) (copy e') (omega arith)
              (ground (arith, at, rw same at at')))
        | inr ne ↦
            dups.copied i e' (omega (arith, ne)) high
              (with_copy-kept j to e (from * ptpages + i) s lt (λ is. apart (omega (arith, is)))
                ∙ at')
              there
      ]

  Dups-map :
      (j from to e : ℕ) (s s' : Space (Frames τ)) (r : Code (Unit {0}))
      → j < ptpages
      → from ≢ to
      → s.vpt (from * ptpages + j) ≡ some e
      → Dups (suc j) from to (with_copy j to e s) r s'
      → Dups j from to s r s'
  Dups-map j from to e s s' r lt apart at dups = record {
    frames = dups.frames;
    kept = λ p ne. dups.kept p ne ∙ with_copy-kept j to e p s lt ne;
    below = λ p e' low is. dups.below p e' (omega arith) (with_copy-below j to e p e' s low is);
    copied = Copies-map j from to e s s' r lt apart at dups;
  }

  pub dup_pages_lem :
      (n j from to : ℕ) (s : Space (Frames τ))
      → j + n ≡ ptpages
      → from ≢ to
      → ((i : ℕ) → i < ptpages → s.vpt (from * ptpages + i) ≢ none)
      → DupsEnd j from to s (dup_pages refuses n (from * ptpages + j) (to * ptpages + j) s)
  unfolding dup_pages dup_page
  dup_pages_lem zero j from to s all apart tables = (
    ok tt,
    s,
    refl,
    record {
      frames = refl;
      kept = λ p ne. refl;
      below = λ p e lt at. at;
      copied = λ i e low high. absurd (omega arith);
    },
  )
  dup_pages_lem (suc n) j from to s all apart tables =
      elim (Option-cases (s.vpt (from * ptpages + j))) [
        | inl is ↦ absurd (tables j (omega arith) is)
        | inr (e, at) ↦ elim (Bool-cases (has e pte_p)) [
          | inr gone ↦
              let (r, s', run, dups) =
                dup_pages_lem n (suc j) from to s (omega arith) apart tables in
              (
                r,
                s',
                ground (arith, at, gone, rw (next from, next to) at run),
                record {
                  frames = dups.frames;
                  kept = dups.kept;
                  below = λ p e' lt is. dups.below p e' (omega arith) is;
                  copied = Copies-skip j from to e s s' r at gone dups.copied;
                },
              )
          | inl there ↦
              step e at there refl
                (sys_page_map_copy s (from * ptpages + j) (to * ptpages + j) e at there)
                (dup_pages_lem n (suc j) from to (with_copy j to e s) (omega arith) apart
                  (λ i lt is. tables i lt (
                    sym (
                      with_copy-kept j to e (from * ptpages + i) s (omega arith)
                        (λ eq. apart (omega (arith, eq))))
                    ∙ is)))
        ]
      ]
    where
      next : (t : ℕ) → t * ptpages + suc j ≡ t * ptpages + j + 1
      next t = omega arith

      step :
          (e : ℕ) {run : Run (Frames τ) (Code (Unit {0}))}
          → s.vpt (from * ptpages + j) ≡ some e
          → has e pte_p ≡ true
          → sys_page_map refuses (from * ptpages + j) (to * ptpages + j) (bit_and e pte_user) s
            ≡ run
          → Mapped s e (to * ptpages + j) run
          → DupsEnd (suc j) from to (with_copy j to e s) (
              dup_pages refuses n
                (from * ptpages + suc j)
                (to * ptpages + suc j)
                (with_copy j to e s))
          → DupsEnd j from to s
              (dup_pages refuses (suc n) (from * ptpages + j) (to * ptpages + j) s)
      step e at there is mapped (r, s', run, dups) = (
        r,
        s',
        ground (arith, at, there, is, rw (next from, next to) at run),
        Dups-map j from to e s s' r (omega arith) apart at dups,
      )
      step e at there is refused rest = (
        err e_no_mem,
        s,
        ground (arith, at, there, is),
        record { frames = refl; kept = λ p ne. refl; below = λ p e' lt is'. is'; copied = refl },
      )

  -- The pages that the error path unmaps.
  pub record Undone (from n : ℕ) (s s' : Space (Frames τ)) : Type 0 where
    pub gone : (p : ℕ) → from ≤ p → p < from + n → present s' p ≡ false
    pub kept : (p : ℕ) → (p < from) ⊎ (from + n ≤ p) → s'.vpt p ≡ s.vpt p
    pub frames : s'.server ≡ s.server

  pub sys_page_unmap_lem :
      (p : ℕ) (s : Space (Frames τ))
      → (s' : Space (Frames τ)) × (sys_page_unmap p s ≡ returns tt s')
        × (present s' p ≡ false)
        × ((q : ℕ) → q ≢ p → s'.vpt q ≡ s.vpt q)
        × (s'.server ≡ s.server)
  sys_page_unmap_lem p s = elim (Option-cases (s.vpt p)) [
    | inl is ↦ (s, ground (arith, is), ground (arith, is), (λ q ne. refl), refl)
    | inr (e, is) ↦ (
      record s { vpt = update s.vpt p (some 0) },
      ground (arith, is),
      ground arith,
      (λ q ne. ground (arith, ne)),
      refl,
    )
  ]

  pub unmap_pages_lem :
      (n from : ℕ) (s : Space (Frames τ))
      → (s' : Space (Frames τ)) × (unmap_pages n from s ≡ returns tt s') × Undone from n s s'
  unfolding unmap_pages
  unmap_pages_lem zero from s = (
    s,
    refl,
    record { gone = λ p low high. absurd (omega arith); kept = λ p h. refl; frames = refl },
  )
  unmap_pages_lem (suc n) from s =
      let (s1, first, gone1, kept1, frames1) = sys_page_unmap_lem from s in
      let (s', run, rest) = unmap_pages_lem n (from + 1) s1 in
      (
        s',
        ground (arith, first, run),
        record {
          gone = λ p low high. elim (number_cases p from) [
            | inl same ↦ ground (arith, same, gone1, rest.kept p (inl (omega arith)))
            | inr ne ↦ rest.gone p (omega arith) (omega arith)
          ];
          kept = λ p outside. elim outside [
            | inl low ↦ rest.kept p (inl (omega arith)) ∙ kept1 p (λ e. omega (arith, e, low))
            | inr high ↦ rest.kept p (inr (omega arith)) ∙ kept1 p (λ e. omega (arith, e, high))
          ];
          frames = rest.frames ∙ frames1;
        },
      )
