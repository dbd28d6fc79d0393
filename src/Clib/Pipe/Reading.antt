-- ===== src/Clib/Pipe/Reading.antt =====
-- piperead and pipewrite of lib/pipe.c, run with no other process between.
use kludgeos.Base.{
  ℕ, zero, suc, ◌+◌, ◌-◌, ◌%◌, ◌^◌, ◌≤◌, ◌<◌, min, ◌≡◌, refl, ap, Bool, List, [], ◌∷◌, length, ◌++◌,
  update, append_assoc, append-nil, ◌∙◌, arith,
}
use kludgeos.Clib.Pipe.{
  Pipe, Io, done, read_rounds, piperead, write_rounds, pipewrite, is_empty, is_full, front, advance,
  deposit, publish, slot, pipebufsiz,
}

-- The bytes in the ring from position `r` on.
pub window : (ℕ → ℕ) → ℕ → ℕ → List ℕ
window buf r zero = []
window buf r (suc n) = buf (r % pipebufsiz) ∷ window buf (r + 1) n

length-window : (buf : ℕ → ℕ) (r n : ℕ) → length (window buf r n) ≡ n
unfolding window
length-window buf r zero = refl
length-window buf r (suc n) = ap suc (length-window buf (r + 1) n)

-- What a valid pipe holds: the positions are not negative, in order and at most the ring's size
-- apart.
pub record IsValid (p : Pipe) : Type 0 where
  pub ordered : p.p_rpos ≤ p.p_wpos
  pub fits : p.p_wpos ≤ p.p_rpos + pipebufsiz
  pub low : p.p_wpos < 2 ^ 31

abbrev moved_by : Pipe → ℕ → Pipe
moved_by p n = record p { p_rpos = p.p_rpos + n }

moved_none : (p : Pipe) (n : ℕ) → n ≡ 0 → moved_by p n ≡ p
moved_none p n e = ground arith

window_none : (buf : ℕ → ℕ) (r n : ℕ) → n ≡ 0 → window buf r n ≡ []
unfolding window
window_none buf r n e = rw e

min-suc : (n k : ℕ) → min (suc n) (suc k) ≡ suc (min n k)
min-suc n k = omega arith

read_rounds_lem :
    (n k : ℕ) (p : Pipe)
    → p.p_wpos ≡ p.p_rpos + k
    → p.p_wpos < 2 ^ 31
    → read_rounds n p ≡ (window p.p_buf p.p_rpos (min n k), moved_by p (min n k))
unfolding read_rounds is_empty front advance slot window
read_rounds_lem zero k p e low =
    ground (arith, window_none p.p_buf p.p_rpos (min 0 k), moved_none p (min 0 k))
read_rounds_lem (suc n) zero p e low =
    ground (arith, window_none p.p_buf p.p_rpos (min (suc n) 0), moved_none p (min (suc n) 0))
read_rounds_lem (suc n) (suc k) p e low = rw (min-suc n k) (
    ground
      (arith, read_rounds_lem n k (record p { p_rpos = p.p_rpos + 1 }) (omega arith) (omega arith)))

-- What a pipe holds, oldest byte first.
abbrev pub contents : Pipe → List ℕ
contents p = window p.p_buf p.p_rpos (p.p_wpos - p.p_rpos)

-- On a valid pipe that is not empty, a read of at least one byte returns without waiting: it gives
-- the oldest bytes in order, as many as were asked for or as there are, and moves past those.
piperead_lem :
    (n : ℕ) (closed : Bool) (p : Pipe)
    → IsValid p
    → p.p_rpos < p.p_wpos
    → let k = min n (p.p_wpos - p.p_rpos) in
      (length (window p.p_buf p.p_rpos k) ≡ k)
      × (piperead n closed p ≡ done k (window p.p_buf p.p_rpos k) (moved_by p k))
      × IsValid (moved_by p k)
unfolding piperead is_empty
piperead_lem n closed p v some_byte =
    let k : ℕ = min n (p.p_wpos - p.p_rpos) in
    let len : length (window p.p_buf p.p_rpos k) ≡ k = length-window p.p_buf p.p_rpos k in
    (
      len,
      ground (arith, len, read_rounds_lem n (p.p_wpos - p.p_rpos) p (omega arith) v.low),
      record { ordered = omega (arith, v.ordered); fits = omega (arith, v.fits); low = v.low },
    )

abbrev pub stored : Pipe → ℕ → Pipe
stored p b = record p { p_buf = update p.p_buf (p.p_wpos % pipebufsiz) b; p_wpos = p.p_wpos + 1 }

-- A store behind a window that leaves room for it.
window-update :
    (buf : ℕ → ℕ) (w r n b : ℕ)
    → r + n ≡ w
    → n < pipebufsiz
    → window (update buf (w % pipebufsiz) b) r (suc n) ≡ window buf r n ++ (b ∷ [])
unfolding window
window-update buf w r zero b e h = ground arith
window-update buf w r (suc n) b e h =
    ground (arith, window-update buf w (r + 1) n b (omega arith) (omega arith))

contents-stored :
    (p : Pipe) (b : ℕ)
    → IsValid p
    → p.p_wpos < p.p_rpos + pipebufsiz
    → contents (stored p b) ≡ contents p ++ (b ∷ [])
contents-stored p b v room =
    let e : p.p_wpos + 1 - p.p_rpos ≡ suc (p.p_wpos - p.p_rpos) = omega (arith, v.ordered) in
    rw e (
      window-update p.p_buf p.p_wpos p.p_rpos (p.p_wpos - p.p_rpos) b (omega (arith, v.ordered))
        (omega arith))

stored-IsValid :
    (p : Pipe) (b : ℕ)
    → IsValid p
    → p.p_wpos < p.p_rpos + pipebufsiz
    → p.p_wpos + 1 < 2 ^ 31
    → IsValid (stored p b)
stored-IsValid p b v room next_low = record {
  ordered = omega (arith, v.ordered);
  fits = omega arith;
  low = next_low;
}

abbrev Wrote : Pipe → List ℕ → ℕ → Io → Type 0
Wrote p bytes i r =
    (p' : Pipe) × (r ≡ done (i + length bytes) [] p')
    × IsValid p'
    × (p'.p_rpos ≡ p.p_rpos)
    × (contents p' ≡ contents p ++ bytes)

write_rounds_lem :
    (bytes : List ℕ) (i : ℕ) (closed : Bool) (p : Pipe)
    → IsValid p
    → p.p_wpos + length bytes ≤ p.p_rpos + pipebufsiz
    → p.p_wpos + length bytes < 2 ^ 31
    → Wrote p bytes i (write_rounds bytes i closed p)
unfolding write_rounds is_full deposit publish slot
write_rounds_lem [] i closed p v room low =
    (p, ground arith, v, refl, ground (arith, append-nil (contents p)))
write_rounds_lem (b ∷ bytes) i closed p v room low =
    let (p', runs, valid, kept, held) =
      write_rounds_lem bytes (i + 1) closed (stored p b)
        (stored-IsValid p b v (omega arith) (omega arith)) (omega arith) (omega arith) in
    (
      p',
      ground (arith, v.low, v.ordered, low, runs),
      valid,
      kept,
      held
          ∙ ap (λ (l : List ℕ). l ++ bytes) (contents-stored p b v (omega arith))
          ∙ append_assoc (contents p) (b ∷ []) bytes,
    )

-- On a valid pipe with room for all the bytes, and a write position that stays below 2^31, pipewrite returns their number without waiting,
-- the pipe stays valid, and holds the bytes, in order, behind what it held.
pipewrite_lem :
    (bytes : List ℕ) (closed : Bool) (p : Pipe)
    → IsValid p
    → p.p_wpos + length bytes ≤ p.p_rpos + pipebufsiz
    → p.p_wpos + length bytes < 2 ^ 31
    → Wrote p bytes 0 (pipewrite bytes closed p)
unfolding pipewrite
pipewrite_lem bytes closed p v room low = write_rounds_lem bytes 0 closed p v room low
