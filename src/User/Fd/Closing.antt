-- ===== src/User/Fd/Closing.antt =====
-- close of lib/fd.c leaves the descriptor closed, and close_all all of them.
use kludgeos.Base.{
  ℕ, zero, suc, ◌+◌, ◌/◌, ◌≤◌, ◌<◌, ◌≡◌, ◌≢◌, refl, ◌∙◌, ◌⊎◌, inl, inr, true, false, Bool-cases,
  number_cases, Option-cases, update, has, none, some, List, Code, ok, err, e_inval, arith,
}
use kludgeos.User.Space.{Space, returns, sys_page_unmap, present, pte_p}
use kludgeos.User.File.{maxfd, fd_page, fd_lookup}
use kludgeos.User.Fd.{
  Frames, Dev, frame_of, read_fd, dev_lookup, close_open, fd_close, close, close_from, close_all,
}

module _ {τ : Type 0} (devtab : List (Dev τ)) where
  -- The page of a descriptor with its entry unmapped.
  abbrev pub without : Space (Frames τ) → ℕ → Space (Frames τ)
  without s fd = record s { vpt = update s.vpt (fd_page fd) (some 0) }

  -- What the device of an open descriptor does when it is closed.
  pub data Closes (fd : ℕ) (s : Space (Frames τ)) (r : Code (Unit {0})) (s' : Space (Frames τ))
      : Type 0 where
    by_device :
        (d : Dev τ) (e : ℕ)
        → s.vpt (fd_page fd) ≡ some e
        → has e pte_p ≡ true
        → dev_lookup devtab ((s.server.fds (e / 4096)).fd_dev_id) ≡ ok d
        → d.dev_close fd s ≡ returns r s'
        → Closes fd s r s'
    unknown :
        (e : ℕ)
        → s.vpt (fd_page fd) ≡ some e
        → has e pte_p ≡ true
        → dev_lookup devtab ((s.server.fds (e / 4096)).fd_dev_id) ≡ err e_inval
        → r ≡ err e_inval
        → s' ≡ s
        → Closes fd s r s'

  pub fd_lookup_open :
      (fd e : ℕ) (s : Space (Frames τ))
      → fd < maxfd
      → s.vpt (fd_page fd) ≡ some e
      → has e pte_p ≡ true
      → fd_lookup fd s ≡ ok fd
  unfolding fd_lookup
  fd_lookup_open fd e s lt at there = ground (arith, lt, at, there)

  pub read_fd_open :
      (fd e : ℕ) (s : Space (Frames τ))
      → s.vpt (fd_page fd) ≡ some e
      → has e pte_p ≡ true
      → read_fd fd s ≡ returns (s.server.fds (e / 4096)) s
  unfolding read_fd frame_of
  read_fd_open fd e s at there = ground (arith, at, there)

  pub fd_lookup_closed :
      (fd : ℕ) (s : Space (Frames τ))
      → present s (fd_page fd) ≡ false
      → fd_lookup fd s ≡ err e_inval
  unfolding fd_lookup
  fd_lookup_closed fd s gone = ground (arith, gone)

  -- The page is unmapped after the device has closed.
  unmapped :
      (fd : ℕ) (s : Space (Frames τ))
      → s.vpt (fd_page fd) ≢ none
      → sys_page_unmap (fd_page fd) s ≡ returns tt (without s fd)
  unmapped fd s kept = elim (Option-cases (s.vpt (fd_page fd))) [
    | inl is ↦ absurd (kept is)
    | inr (e, is) ↦ ground (arith, is)
  ]

  pub close_lem :
      (fd : ℕ) (s s' : Space (Frames τ)) (r : Code (Unit {0}))
      → fd < maxfd
      → Closes fd s r s'
      → s'.vpt (fd_page fd) ≢ none
      → close devtab fd s ≡ returns r (without s' fd)
  unfolding close fd_close close_open
  close_lem fd s s' r lt (by_device d e at there found run) kept = ground (
    arith,
    fd_lookup_open fd e s lt at there,
    read_fd_open fd e s at there,
    found,
    run,
    unmapped fd s' kept,
  )
  close_lem fd s s' r lt (unknown e at there found is same) kept =
      rw (is, same)
        (ground (
          arith,
          fd_lookup_open fd e s lt at there,
          read_fd_open fd e s at there,
          found,
          unmapped fd s (rw same at kept),
        ))

  pub close_closed :
      (fd : ℕ) (s : Space (Frames τ))
      → present s (fd_page fd) ≡ false
      → close devtab fd s ≡ returns (err e_inval) s
  unfolding close
  close_closed fd s gone = ground (arith, fd_lookup_closed fd s gone)

  pub same_present :
      (n : ℕ) (s s' : Space (Frames τ)) → s'.vpt n ≡ s.vpt n → present s' n ≡ present s n
  same_present n s s' same = ground (arith, same)

  -- The devices close every descriptor that is open, under an invariant `I`, and leave the pages of
  -- FDTABLE alone.
  abbrev pub AllClose : (Space (Frames τ) → Type 0) → Type 0
  AllClose I =
      (fd : ℕ) (s : Space (Frames τ))
      → fd < maxfd
      → I s
      → present s (fd_page fd) ≡ true
      → (r : Code (Unit {0})) × (s' : Space (Frames τ)) × Closes fd s r s'
        × ((k : ℕ) → k < maxfd → s'.vpt (fd_page k) ≡ s.vpt (fd_page k))
        × I (without s' fd)

  module _ (I : Space (Frames τ) → Type 0) (all_close : AllClose I) where
    -- A run that leaves the descriptors in `closes` closed and no new one open.
    record Closed (closes : ℕ → Type 0) (s s' : Space (Frames τ)) : Type 0 where
      closed : (k : ℕ) → k < maxfd → closes k → present s' (fd_page k) ≡ false
      kept :
          (k : ℕ)
          → k < maxfd
          → (s'.vpt (fd_page k) ≡ s.vpt (fd_page k)) ⊎ (present s' (fd_page k) ≡ false)
      holds : I s'

    close_once :
        (fd : ℕ) (s : Space (Frames τ))
        → fd < maxfd
        → I s
        → (r : Code (Unit {0})) × (s' : Space (Frames τ)) × (close devtab fd s ≡ returns r s')
          × Closed (λ k. k ≡ fd) s s'
    close_once fd s lt holds = elim (Bool-cases (present s (fd_page fd))) [
      | inl there ↦
          let (r, s', closes, kept, holds') = all_close fd s lt holds there in
          (
            r,
            without s' fd,
            close_lem fd s s' r lt closes (entry s' (kept fd lt) there),
            record {
              closed = λ k low same. ground (arith, same);
              kept = λ k low. elim (number_cases k fd) [
                | inl same ↦ inr (ground (arith, same))
                | inr ne ↦ inl (ground (arith, kept k low, ne))
              ];
              holds = holds';
            },
          )
      | inr gone ↦ (
        err e_inval,
        s,
        close_closed fd s gone,
        record { closed = λ k low same. rw same gone; kept = λ k low. inl refl; holds = holds },
      )
    ]
      where
        entry :
            (s' : Space (Frames τ))
            → s'.vpt (fd_page fd) ≡ s.vpt (fd_page fd)
            → present s (fd_page fd) ≡ true
            → s'.vpt (fd_page fd) ≢ none
        entry s' same there is = ground (arith, same, there, is)

    close_from_lem :
        (n i : ℕ) (s : Space (Frames τ))
        → i + n ≤ maxfd
        → I s
        → (s' : Space (Frames τ)) × (close_from devtab n i s ≡ returns tt s')
          × Closed (λ k. (i ≤ k) × (k < i + n)) s s'
    unfolding close_from
    close_from_lem zero i s le holds = (
      s,
      refl,
      record {
        closed = λ k low within. absurd (omega arith);
        kept = λ k low. inl refl;
        holds = holds;
      },
    )
    close_from_lem (suc n) i s le holds =
        let (r, s1, run1, first) = close_once i s (omega arith) holds in
        let (s', run, rest) = close_from_lem n (i + 1) s1 (omega arith) first.holds in
        (
          s',
          ground (arith, run1, run),
          record {
            closed = λ k low within. elim (number_cases k i) [
              | inl same ↦ elim (rest.kept k low) [
                | inl eq ↦ same_present (fd_page k) s1 s' eq ∙ first.closed k low same
                | inr gone ↦ gone
              ]
              | inr ne ↦ rest.closed k low (omega (arith, within, ne))
            ];
            kept = λ k low. elim (rest.kept k low) [
              | inr gone ↦ inr gone
              | inl eq ↦ elim (first.kept k low) [
                | inl eq1 ↦ inl (eq ∙ eq1)
                | inr gone ↦ inr (same_present (fd_page k) s1 s' eq ∙ gone)
              ]
            ];
            holds = rest.holds;
          },
        )

    -- Where the devices answer every close, keep an invariant and leave the other descriptors
    -- alone, close_all returns, and afterwards every descriptor is closed.
    pub close_all_lem :
        (s : Space (Frames τ))
        → I s
        → (s' : Space (Frames τ)) × (close_all devtab s ≡ returns tt s')
          × ((k : ℕ) → k < maxfd → fd_lookup k s' ≡ err e_inval)
    unfolding close_all
    close_all_lem s holds =
        let (s', run, all) = close_from_lem maxfd 0 s (omega arith) holds in
        (s', run, λ k low. fd_lookup_closed k s' (all.closed k low (omega arith, omega arith)))
