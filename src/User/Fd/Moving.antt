-- ===== src/User/Fd/Moving.antt =====
-- What a move of bytes through the page entries of a process leaves in the frames.
use kludgeos.Base.{
  ℕ, zero, suc, ◌+◌, ◌/◌, ◌%◌, ◌<◌, ◌≡◌, ◌≢◌, refl, ap, ◌∙◌, ◌⊎◌, inl, inr, true, number_cases, has,
  some, arith,
}
use kludgeos.User.Space.{Space, returns, pgsize, pte_p}
use kludgeos.User.Fd.{Frames, pte_w, frame_of}
use kludgeos.User.Fd.Device.{load_byte, store_byte, put_byte}

module _ {τ : Type 0} where
  -- The entry that maps the byte at `va`, with the bit `need`.
  abbrev pub Maps : Space (Frames τ) → ℕ → ℕ → ℕ → Type 0
  Maps s need va e = (s.vpt (va / pgsize) ≡ some e) × (has e pte_p ≡ true) × (has e need ≡ true)

  -- The `n` bytes from `va` on are mapped, with the bit `need`.
  abbrev pub AreMapped : Space (Frames τ) → ℕ → ℕ → ℕ → Type 0
  AreMapped s need va n = (i : ℕ) → i < n → (e : ℕ) × Maps s need (va + i) e

  -- Two pages of the `n` bytes from `va` on are not the same frame.
  abbrev pub HasOwnFrames : Space (Frames τ) → ℕ → ℕ → Type 0
  HasOwnFrames s va n =
      (i j e e' : ℕ)
      → i < n
      → j < n
      → s.vpt ((va + i) / pgsize) ≡ some e
      → s.vpt ((va + j) / pgsize) ≡ some e'
      → (va + i) / pgsize ≢ (va + j) / pgsize
      → e / 4096 ≢ e' / 4096

  pub load_byte_lem :
      (s : Space (Frames τ)) (va e : ℕ)
      → Maps s pte_p va e
      → load_byte va s ≡ returns (s.server.bytes (e / 4096) (va % pgsize)) s
  unfolding load_byte frame_of
  load_byte_lem s va e (at, there, needed) = ground (arith, at, there)

  store_byte_lem :
      (s : Space (Frames τ)) (va e b : ℕ)
      → Maps s pte_w va e
      → store_byte va b s
        ≡ returns tt (record s { server = put_byte (e / 4096) (va % pgsize) b s.server })
  unfolding store_byte frame_of
  store_byte_lem s va e b (at, there, writable) = ground (arith, at, there, writable)

  -- What a store leaves of the bytes elsewhere.
  abbrev pub Elsewhere : Space (Frames τ) → ℕ → ℕ → ℕ → ℕ → Type 0
  Elsewhere s va n p o =
      (i e : ℕ)
      → i < n
      → s.vpt ((va + i) / pgsize) ≡ some e
      → (e / 4096 ≢ p) ⊎ ((va + i) % pgsize ≢ o)

  -- No page of the `n` bytes from `src` on is the frame of one of those from `dst` on.
  abbrev pub AreApart : Space (Frames τ) → ℕ → ℕ → ℕ → Type 0
  AreApart s dst src n =
      (i j e e' : ℕ)
      → i < n
      → j < n
      → s.vpt ((dst + i) / pgsize) ≡ some e
      → s.vpt ((src + j) / pgsize) ≡ some e'
      → e / 4096 ≢ e' / 4096

  -- The `n` bytes are moved, and nothing else changes.
  pub record Moves (s : Space (Frames τ)) (dst src n : ℕ) (t : Frames τ) : Type 0 where
    pub moved :
        (i e e' : ℕ)
        → i < n
        → s.vpt ((dst + i) / pgsize) ≡ some e
        → s.vpt ((src + i) / pgsize) ≡ some e'
        → t.bytes (e / 4096) ((dst + i) % pgsize) ≡ s.server.bytes (e' / 4096) ((src + i) % pgsize)
    pub kept : (p o : ℕ) → Elsewhere s dst n p o → t.bytes p o ≡ s.server.bytes p o
    pub same_fds : t.fds ≡ s.server.fds

  -- A process after a byte is stored.
  abbrev pub with_byte : Space (Frames τ) → ℕ → ℕ → ℕ → Space (Frames τ)
  with_byte s p o b = record s { server = put_byte p o b s.server }

  put_byte-other :
      (s : Space (Frames τ)) (p o b q i : ℕ)
      → (p ≢ q) ⊎ (o ≢ i)
      → (put_byte p o b s.server).bytes q i ≡ s.server.bytes q i
  put_byte-other s p o b q i (inl ne) = ground (arith, ne)
  put_byte-other s p o b q i (inr ne) = elim (number_cases p q) [
    | inl is ↦ ground (arith, is, ne)
    | inr isnt ↦ ground (arith, isnt)
  ]

  put_byte-there : (s : Space (Frames τ)) (p o b : ℕ) → (put_byte p o b s.server).bytes p o ≡ b
  put_byte-there s p o b = ground arith

  -- Two bytes of the destination are two bytes of the memory.
  two_places :
      (s : Space (Frames τ)) (dst n i j e e' : ℕ)
      → HasOwnFrames s dst n
      → i < n
      → j < n
      → i ≢ j
      → s.vpt ((dst + i) / pgsize) ≡ some e
      → s.vpt ((dst + j) / pgsize) ≡ some e'
      → (e / 4096 ≢ e' / 4096) ⊎ ((dst + i) % pgsize ≢ (dst + j) % pgsize)
  two_places s dst n i j e e' own lt lt' ne at at' =
      elim (number_cases ((dst + i) / pgsize) ((dst + j) / pgsize)) [
        | inl same ↦ inr (λ eq. omega (arith, same, eq, ne))
        | inr other ↦ inl (own i j e e' lt lt' at at' other)
      ]

  pub Moves-none : (s : Space (Frames τ)) (dst src : ℕ) → Moves s dst src 0 s.server
  Moves-none s dst src = record {
    moved = λ i e e' lt at at'. absurd (omega arith);
    kept = λ p o h. refl;
    same_fds = refl;
  }

  -- What holds of the bytes from `va` on holds of those behind the first.
  pub AreMapped-next :
      (s : Space (Frames τ)) (need va n : ℕ)
      → AreMapped s need va (suc n)
      → AreMapped s need (va + 1) n
  AreMapped-next s need va n maps i lt =
      let (e, (at, there, needed)) = maps (i + 1) (omega arith) in
      (e, (ap s.vpt (omega arith) ∙ at, there, needed))

  pub HasOwnFrames-next :
      (s : Space (Frames τ)) (va n : ℕ) → HasOwnFrames s va (suc n) → HasOwnFrames s (va + 1) n
  HasOwnFrames-next s va n own i j e e' lt lt' at at' ne =
      own (i + 1) (j + 1) e e' (omega arith) (omega arith) (ap s.vpt (omega arith) ∙ at)
        (ap s.vpt (omega arith) ∙ at') (λ same. ne (omega (arith, same)))

  pub AreApart-next :
      (s : Space (Frames τ)) (dst src n : ℕ)
      → AreApart s dst src (suc n)
      → AreApart s (dst + 1) (src + 1) n
  AreApart-next s dst src n apart i j e e' lt lt' at at' =
      apart (i + 1) (j + 1) e e' (omega arith) (omega arith) (ap s.vpt (omega arith) ∙ at)
        (ap s.vpt (omega arith) ∙ at')

  -- The bytes behind the first, counted from the first.
  pub Moves-next-moved :
      (s : Space (Frames τ)) (dst src n : ℕ) (t : Frames τ)
      → Moves s (dst + 1) (src + 1) n t
      → (i f f' : ℕ) → i < suc n
      → i ≢ 0
      → s.vpt ((dst + i) / pgsize) ≡ some f
      → s.vpt ((src + i) / pgsize) ≡ some f'
      → t.bytes (f / 4096) ((dst + i) % pgsize) ≡ s.server.bytes (f' / 4096) ((src + i) % pgsize)
  Moves-next-moved s dst src n t moves zero f f' lt ne at at' = absurd (omega (arith, ne))
  Moves-next-moved s dst src n t moves (suc i) f f' lt ne at at' =
      let d : dst + suc i ≡ dst + 1 + i = omega arith in
      let c : src + suc i ≡ src + 1 + i = omega arith in
      rw (d, c) (moves.moved i f f' (omega arith) (rw d at at) (rw c at at'))

  pub Moves-next-kept :
      (s : Space (Frames τ)) (dst src n : ℕ) (t : Frames τ)
      → Moves s (dst + 1) (src + 1) n t
      → (p o : ℕ)
      → ((i f : ℕ)
          → i < suc n
          → i ≢ 0
          → s.vpt ((dst + i) / pgsize) ≡ some f
          → (f / 4096 ≢ p) ⊎ ((dst + i) % pgsize ≢ o))
      → t.bytes p o ≡ s.server.bytes p o
  Moves-next-kept s dst src n t moves p o h = moves.kept p o there
    where
      there : Elsewhere s (dst + 1) n p o
      there i f lt at =
          let d : dst + 1 + i ≡ dst + suc i = omega arith in
          rw d (h (suc i) f (omega arith) (omega arith) (rw d at at))

  -- What one byte of a move does.
  abbrev pub Moved : ℕ → ℕ → Space (Frames τ) → ℕ → ℕ → Type 0
  Moved va va' s e e' =
      (load_byte va' s ≡ returns (s.server.bytes (e' / 4096) (va' % pgsize)) s)
      × (store_byte va (s.server.bytes (e' / 4096) (va' % pgsize)) s
          ≡ returns tt
              (with_byte s (e / 4096) (va % pgsize) (s.server.bytes (e' / 4096) (va' % pgsize))))

  -- The byte at `k` is moved first and then the others: all of them are moved.
  pub Moves-join :
      (s : Space (Frames τ)) (dst src n k e e' : ℕ) (t : Frames τ)
      → k < n
      → HasOwnFrames s dst n
      → AreApart s dst src n
      → s.vpt ((dst + k) / pgsize) ≡ some e
      → s.vpt ((src + k) / pgsize) ≡ some e'
      → let s1 =
          with_byte s
            (e / 4096)
            ((dst + k) % pgsize)
            (s.server.bytes (e' / 4096) ((src + k) % pgsize)) in
        ((i f f' : ℕ)
          → i < n
          → i ≢ k
          → s.vpt ((dst + i) / pgsize) ≡ some f
          → s.vpt ((src + i) / pgsize) ≡ some f'
          → t.bytes (f / 4096) ((dst + i) % pgsize)
            ≡ s1.server.bytes (f' / 4096) ((src + i) % pgsize))
        → ((p o : ℕ)
            → ((i f : ℕ)
                → i < n
                → i ≢ k
                → s.vpt ((dst + i) / pgsize) ≡ some f
                → (f / 4096 ≢ p) ⊎ ((dst + i) % pgsize ≢ o))
            → t.bytes p o ≡ s1.server.bytes p o)
        → t.fds ≡ s.server.fds
        → Moves s dst src n t
  Moves-join s dst src n k e e' t lt own apart at at' rest kept fds = record {
    moved = λ i f f' low at1 at2. elim (number_cases i k) [
      | inl same ↦ here i f f' same at1 at2
      | inr other ↦
          rest i f f' low other at1 at2
          ∙ put_byte-other s (e / 4096) ((dst + k) % pgsize) b (f' / 4096) ((src + i) % pgsize)
              (inl (apart k i e f' lt low at at2))
    ];
    kept = λ p o h.
        kept p o (λ i f low other at1. h i f low at1)
        ∙ put_byte-other s (e / 4096) ((dst + k) % pgsize) b p o (h k e lt at);
    same_fds = fds;
  }
    where
      b : ℕ
      b = s.server.bytes (e' / 4096) ((src + k) % pgsize)

      first : t.bytes (e / 4096) ((dst + k) % pgsize) ≡ b
      first =
          kept (e / 4096) ((dst + k) % pgsize)
            (λ i f low other at1. two_places s dst n i k f e own low lt other at1 at)
          ∙ put_byte-there s (e / 4096) ((dst + k) % pgsize) b

      here :
          (i f f' : ℕ)
          → i ≡ k
          → s.vpt ((dst + i) / pgsize) ≡ some f
          → s.vpt ((src + i) / pgsize) ≡ some f'
          → t.bytes (f / 4096) ((dst + i) % pgsize)
            ≡ s.server.bytes (f' / 4096) ((src + i) % pgsize)
      here i f f' same at1 at2 =
          let is : f ≡ e = ground (arith, rw same at at1, at) in
          let is' : f' ≡ e' = ground (arith, rw same at at2, at') in rw (same, is, is') first

  -- A byte that is mapped on both sides is moved.
  pub move_once :
      (s : Space (Frames τ)) (va va' e e' : ℕ)
      → Maps s pte_w va e
      → Maps s pte_p va' e'
      → Moved va va' s e e'
  move_once s va va' e e' to from = (
    load_byte_lem s va' e' from,
    store_byte_lem s va e (s.server.bytes (e' / 4096) (va' % pgsize)) to,
  )
