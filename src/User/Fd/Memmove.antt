-- ===== src/User/Fd/Memmove.antt =====
-- memmove of lib/string.c, through the page entries of a process, copies its bytes in both
-- directions.
use kludgeos.Base.{
  ℕ, zero, suc, Bool-cases, ltb, ◌&&◌, ◌+◌, ◌/◌, ◌%◌, ◌^◌, ◌<◌, ◌≡◌, refl, ap, ◌∙◌, inl, inr, arith,
}
use kludgeos.User.Space.{Space, returns, pgsize, pte_p}
use kludgeos.User.Fd.{Frames, pte_w}
use kludgeos.User.Fd.Device.{load_byte, move_up, move_down, memmove}
use kludgeos.User.Fd.Moving.{
  AreMapped, HasOwnFrames, AreApart, Moves, Moves-none, Moves-join, Moves-next-moved,
  Moves-next-kept, AreMapped-next, HasOwnFrames-next, AreApart-next, with_byte, move_once,
  load_byte_lem,
}

module _ {τ : Type 0} where
  move_up_lem :
      (n dst src : ℕ) (s : Space (Frames τ))
      → AreMapped s pte_p src n
      → AreMapped s pte_w dst n
      → HasOwnFrames s dst n
      → AreApart s dst src n
      → (t : Frames τ) × (move_up n dst src s ≡ returns tt (record s { server = t }))
        × Moves s dst src n t
  unfolding move_up
  move_up_lem zero dst src s from to own apart = (s.server, refl, Moves-none s dst src)
  move_up_lem (suc n) dst src s from to own apart =
      let (e, (at, there, needed)) = to 0 (omega arith) in
      let (e', (at', there', needed')) = from 0 (omega arith) in
      let (loads, stores) =
        move_once s (dst + 0) (src + 0) e e' (at, there, needed) (at', there', needed') in
      let b : ℕ = s.server.bytes (e' / 4096) ((src + 0) % pgsize) in
      let s1 : Space (Frames τ) = with_byte s (e / 4096) ((dst + 0) % pgsize) b in
      let (t, run, moves) =
        move_up_lem n (dst + 1) (src + 1) s1 (AreMapped-next s pte_p src n from)
          (AreMapped-next s pte_w dst n to) (HasOwnFrames-next s dst n own)
          (AreApart-next s dst src n apart) in
      let d0 : dst + 0 ≡ dst = omega arith in
      let s0 : src + 0 ≡ src = omega arith in
      (
        t,
        ground (arith, rw s0 at loads, rw (d0, s0) at stores, rw (d0, s0) at run),
        Moves-join s dst src (suc n) 0 e e' t (omega arith) own apart at at'
            (Moves-next-moved s1 dst src n t moves) (Moves-next-kept s1 dst src n t moves)
            moves.same_fds,
      )

  move_down_lem :
      (n dst src : ℕ) (s : Space (Frames τ))
      → AreMapped s pte_p src n
      → AreMapped s pte_w dst n
      → HasOwnFrames s dst n
      → AreApart s dst src n
      → (t : Frames τ) × (move_down n dst src s ≡ returns tt (record s { server = t }))
        × Moves s dst src n t
  unfolding move_down
  move_down_lem zero dst src s from to own apart = (s.server, refl, Moves-none s dst src)
  move_down_lem (suc n) dst src s from to own apart =
      let (e, at) = to n (omega arith) in
      let (e', at') = from n (omega arith) in
      let (loads, stores) = move_once s (dst + n) (src + n) e e' at at' in
      let b : ℕ = s.server.bytes (e' / 4096) ((src + n) % pgsize) in
      let (t, run, moves) =
        move_down_lem n dst src (with_byte s (e / 4096) ((dst + n) % pgsize) b)
          (λ i lt. from i (omega arith)) (λ i lt. to i (omega arith))
          (λ i j e1 e2 lt lt'. own i j e1 e2 (omega arith) (omega arith))
          (λ i j e1 e2 lt lt'. apart i j e1 e2 (omega arith) (omega arith)) in
      (
        t,
        ground (arith, loads, stores, run),
        Moves-join s dst src (suc n) n e e' t (omega arith) own apart at.0 at'.0
            (λ i f f' lt ne at1 at2. moves.moved i f f' (omega arith) at1 at2)
            (λ p o h. moves.kept p o (λ i f lt at1. h i f (omega arith) (omega arith) at1))
            moves.same_fds,
      )

  -- The bytes from `src` on before the move are those from `dst` on after it.
  abbrev pub Copied : ℕ → ℕ → ℕ → Space (Frames τ) → Space (Frames τ) → Type 0
  Copied dst src n s s' =
      (i : ℕ)
      → i < n
      → (b : ℕ) × (load_byte (src + i) s ≡ returns b s) × (load_byte (dst + i) s' ≡ returns b s')

  Moves-Copied :
      (s : Space (Frames τ)) (dst src n : ℕ) (t : Frames τ)
      → AreMapped s pte_p src n
      → AreMapped s pte_w dst n
      → Moves s dst src n t
      → Copied dst src n s (record s { server = t })
  Moves-Copied s dst src n t from to moves i lt =
      let (e, (at, there, needed)) = to i lt in
      let (e', (at', there', needed')) = from i lt in
      let s' : Space (Frames τ) = record s { server = t } in
      (
        s.server.bytes (e' / 4096) ((src + i) % pgsize),
        load_byte_lem s (src + i) e' (at', there', there'),
        load_byte_lem s' (dst + i) e (at, there, there)
            ∙ ap (λ b. returns b s') (moves.moved i e e' lt at at'),
      )

  pub memmove_pages :
      (dst src n : ℕ) (s : Space (Frames τ))
      → AreMapped s pte_p src n
      → AreMapped s pte_w dst n
      → HasOwnFrames s dst n
      → AreApart s dst src n
      → (t : Frames τ) × (memmove dst src n s ≡ returns tt (record s { server = t }))
        × Copied dst src n s (record s { server = t })
        × (t.fds ≡ s.server.fds)
  unfolding memmove
  memmove_pages dst src n s from to own apart =
      let (t, up, moves) = move_up_lem n dst src s from to own apart in
      let (t', down, moves') = move_down_lem n dst src s from to own apart in
      elim (Bool-cases (ltb src dst && ltb dst ((src + n) % 2 ^ 32))) [
        | inl behind ↦
            (t', rw behind down, Moves-Copied s dst src n t' from to moves', moves'.same_fds)
        | inr other ↦ (t, rw other up, Moves-Copied s dst src n t from to moves, moves.same_fds)
      ]
