-- ===== src/User/File/Table.antt =====
-- The descriptor table of lib/fd.c: which descriptor fd_alloc gives.
use kludgeos.Base.{
  ℕ, zero, suc, ◌+◌, ◌≤◌, ◌<◌, ◌≡◌, refl, inl, inr, true, false, Bool-cases, Code, ok, err,
  e_max_open, number_cases, arith,
}
use kludgeos.User.Space.{Space, present}
use kludgeos.User.File.{maxfd, fd_page, fd_alloc_from, fd_alloc}

module _ {σ : Type 0} (s : Space σ) where
  -- What fd_alloc may give among the descriptors from `i` on and below `hi`.
  abbrev pub Allocs : ℕ → ℕ → Code ℕ → Type 0
  Allocs i hi (ok fd) =
      (fd < hi)
      × (present s (fd_page fd) ≡ false)
      × ((j : ℕ) → i ≤ j → j < fd → present s (fd_page j) ≡ true)
  Allocs i hi (err e) = (e ≡ e_max_open) × ((j : ℕ) → i ≤ j → j < hi → present s (fd_page j) ≡ true)

  Allocs-next :
      (i hi : ℕ) (r : Code ℕ) → present s (fd_page i) ≡ true → Allocs (i + 1) hi r → Allocs i hi r
  Allocs-next i hi (ok fd) used (lt, free, below) = (
    lt,
    free,
    λ j low high. elim (number_cases j i) [
      | inl same ↦ ground (arith, same, used)
      | inr other ↦ below j (omega arith) high
    ],
  )
  Allocs-next i hi (err e) used (is, below) = (
    is,
    λ j low high. elim (number_cases j i) [
      | inl same ↦ ground (arith, same, used)
      | inr other ↦ below j (omega arith) high
    ],
  )

  fd_alloc_from_lem : (n i : ℕ) → Allocs i (i + n) (fd_alloc_from n i s)
  unfolding fd_alloc_from
  fd_alloc_from_lem zero i = (refl, λ j low high. absurd (omega arith))
  fd_alloc_from_lem (suc n) i = elim (Bool-cases (present s (fd_page i))) [
    | inr free ↦ rw free (omega arith, free, λ j low high. absurd (omega arith))
    | inl used ↦
        rw used (Allocs-next i (i + suc n) _ used (rw shift at (fd_alloc_from_lem n (i + 1))))
  ]
    where
      shift : i + 1 + n ≡ i + suc n
      shift = omega arith

  -- fd_alloc gives the first descriptor whose page is not mapped, and an error only where all 32 are.
  pub fd_alloc_lem : Allocs 0 maxfd (fd_alloc s)
  unfolding fd_alloc
  fd_alloc_lem = fd_alloc_from_lem maxfd 0
