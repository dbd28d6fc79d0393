-- ===== src/User/Fd.antt =====
-- The calls of lib/fd.c on open descriptors, over any devices.
--
-- A descriptor is the frame that its page of FDTABLE maps, so that two descriptors that map the same
-- frame share the offset. `sys_page_map` stands for the system call on the caller's own pages; which
-- targets the kernel has no memory for is a parameter.
pub mod Dup
pub mod Device
pub mod Closing
pub mod Copied
pub mod Sharing
pub mod Offsets
pub mod Self
pub mod Moving
pub mod Memmove
pub mod Reading
pub mod Files
pub mod Whole
mod Tests
use kludgeos.Base.{
  ℕ, zero, suc, ◌+◌, ◌-◌, ◌*◌, ◌/◌, ◌%◌, ◌^◌, bit_and, Bool, true, false, not, ◌&&◌, ◌||◌, ◌==◌,
  ltb, leb, if◌then◌else◌, update, has, Option, none, some, List, [], ◌∷◌, Code, ok, err, e_inval,
  e_no_mem,
}
use kludgeos.User.Space.{
  Space, Run, P, returns, dies, ◌>>=◌, pure, read_vpt, sys_page_unmap, ptpages, pte_p,
}
use kludgeos.User.File.{maxfd, fd_page, data_page, fd_lookup}

-- The head of a struct Fd; its file belongs to the server of User/Space.
pub record Fd : Type 0 where
  pub fd_dev_id : ℕ
  pub fd_offset : ℕ
  pub fd_omode : ℕ

-- What the frames hold, as descriptors and as bytes, and what the devices act on.
pub record Frames (τ : Type 0) : Type 0 where
  pub fds : ℕ → Fd
  pub bytes : ℕ → ℕ → ℕ
  pub world : τ

-- The fields that a device fills of a struct Stat, `st_name` apart.
pub record Stat : Type 0 where
  pub st_size : ℕ
  pub st_isdir : Bool
  -- the `dev_id` of `st_dev`
  pub st_dev : ℕ

pub record Dev (τ : Type 0) : Type 0 where
  pub dev_id : ℕ
  pub dev_read : ℕ → ℕ → ℕ → ℕ → P (Frames τ) (Code ℕ)
  pub dev_write : ℕ → ℕ → ℕ → ℕ → P (Frames τ) (Code ℕ)
  pub dev_close : ℕ → P (Frames τ) (Code (Unit {0}))
  pub dev_stat : ℕ → Stat → P (Frames τ) (Code Stat)
  pub dev_trunc : ℕ → ℕ → P (Frames τ) (Code (Unit {0}))

abbrev pub pte_w : ℕ
pte_w = 2

-- O_RDONLY, O_WRONLY and `omode & O_ACCMODE`
abbrev o_rdonly : ℕ
o_rdonly = 0

abbrev o_wronly : ℕ
o_wronly = 1

abbrev accmode : Fd → ℕ
accmode f = bit_and f.fd_omode 3

abbrev pub pte_user : ℕ
pte_user = 0xe07

-- A table of 1024 entries where `vpt` has none.
abbrev pub with_table : (ℕ → Option ℕ) → ℕ → ℕ → Option ℕ
with_table vpt n p = elim (vpt p) [
  | some e ↦ some e
  | none ↦ if p / ptpages == n / ptpages then some 0 else none
]

module _ {τ : Type 0} where
  -- The frame of a page whose entry has the bit `need`; any other access faults.
  unfoldable pub frame_of : ℕ → ℕ → P (Frames τ) ℕ
  frame_of need n s =
      (read_vpt n >>= λ e. elim (has e pte_p && has e need) [
        | true ↦ pure (e / 4096)
        | false ↦ λ t. dies
      ])
        s

  -- Reads of `fd->...`
  unfoldable pub read_fd : ℕ → P (Frames τ) Fd
  read_fd fd s = (frame_of pte_p (fd_page fd) >>= λ p. λ t. returns (t.server.fds p) t) s

  abbrev pub put_offset : ℕ → ℕ → Frames τ → Frames τ
  put_offset p off t = record t { fds = update t.fds p (record (t.fds p) { fd_offset = off }) }

  -- fd->fd_offset = off
  unfoldable pub set_offset : ℕ → ℕ → P (Frames τ) (Unit {0})
  set_offset fd off s =
      (frame_of pte_w (fd_page fd) >>= λ p.
      λ t. returns tt (record t { server = put_offset p off t.server }))
        s

  -- fd->fd_offset += n
  unfoldable pub advance : ℕ → ℕ → P (Frames τ) (Unit {0})
  advance fd n s = (read_fd fd >>= λ f. set_offset fd ((f.fd_offset + n) % 2 ^ 32)) s

  -- The entry that sys_page_map copies, where the kernel accepts the source and `perm`.
  unfoldable pub mapped_entry : Space (Frames τ) → ℕ → ℕ → Option ℕ
  mapped_entry s src perm = elim (s.vpt src) [
    | none ↦ none
    | some e ↦
        if has e pte_p && (not (has perm pte_w) || has e pte_w)
        then some (e / 4096 * 4096 + perm)
        else none
  ]

  -- sys_page_map(0, src, 0, dst, perm), with the pages by their numbers.
  unfoldable pub sys_page_map : (ℕ → Bool) → ℕ → ℕ → ℕ → P (Frames τ) (Code (Unit {0}))
  sys_page_map refuses src dst perm s = elim (mapped_entry s src perm) [
    | none ↦ returns (err e_inval) s
    | some e ↦
        if refuses dst
        then returns (err e_no_mem) s
        else returns (ok tt) (record s { vpt = update (with_table s.vpt dst) dst (some e) })
  ]

  unfoldable pub dev_lookup : List (Dev τ) → ℕ → Code (Dev τ)
  dev_lookup [] id = err e_inval
  dev_lookup (d ∷ ds) id = let rest = dev_lookup ds id in if d.dev_id == id then ok d else rest

module _ {τ : Type 0} (devtab : List (Dev τ)) where
  -- The part of fd_close on a descriptor that is there.
  unfoldable pub close_open : ℕ → P (Frames τ) (Code (Unit {0}))
  close_open fd s =
      (read_fd fd >>= λ f.
      elim (dev_lookup devtab f.fd_dev_id) [ err x ↦ pure (err x) | ok d ↦ d.dev_close fd ] >>= λ r.
      sys_page_unmap (fd_page fd) >>= λ u. pure r)
        s

  unfoldable pub fd_close : ℕ → Bool → P (Frames τ) (Code (Unit {0}))
  fd_close fd must_exist s = elim (fd_lookup fd s) [
    | err x ↦ returns (if must_exist then err x else ok tt) s
    | ok n ↦ close_open fd s
  ]

  unfoldable pub close : ℕ → P (Frames τ) (Code (Unit {0}))
  close fdnum s = elim (fd_lookup fdnum s) [
    | err x ↦ returns (err x) s
    | ok fd ↦ fd_close fd true s
  ]

  -- The loop of close_all, with `n` rounds from `i`.
  unfoldable pub close_from : ℕ → ℕ → P (Frames τ) (Unit {0})
  close_from zero i s = returns tt s
  close_from (suc n) i s = (close i >>= λ r. close_from n (i + 1)) s

  unfoldable pub close_all : P (Frames τ) (Unit {0})
  close_all s = close_from maxfd 0 s

  -- What read, write, ftruncate and fstat do first: the descriptor, its page and its device.
  unfoldable pub with_device :
      {A : Type 0} → ℕ → (ℕ → Fd → Dev τ → P (Frames τ) (Code A)) → P (Frames τ) (Code A)
  with_device fdnum f s = elim (fd_lookup fdnum s) [
    | err x ↦ returns (err x) s
    | ok fd ↦
        (read_fd fd >>= λ h. elim (dev_lookup devtab h.fd_dev_id) [
          | err x ↦ pure (err x)
          | ok d ↦ f fd h d
        ])
          s
  ]

  -- The rest of read and write when the device has answered.
  unfoldable pub moved : ℕ → Code ℕ → P (Frames τ) (Code ℕ)
  moved fd (err x) s = returns (err x) s
  moved fd (ok m) s = (advance fd m >>= λ u. pure (ok m)) s

  unfoldable pub read : ℕ → ℕ → ℕ → P (Frames τ) (Code ℕ)
  read fdnum buf n = with_device fdnum (λ fd h d. elim (accmode h == o_wronly) [
    | true ↦ pure (err e_inval)
    | false ↦ d.dev_read fd buf n h.fd_offset >>= moved fd
  ])

  unfoldable pub write : ℕ → ℕ → ℕ → P (Frames τ) (Code ℕ)
  write fdnum buf n = with_device fdnum (λ fd h d. elim (accmode h == o_rdonly) [
    | true ↦ pure (err e_inval)
    | false ↦ d.dev_write fd buf n h.fd_offset >>= moved fd
  ])

  -- The loop of readn, with at most `fuel` rounds.
  unfoldable pub readn_from : ℕ → ℕ → ℕ → ℕ → ℕ → P (Frames τ) (Code ℕ)
  readn_from zero fdnum buf n tot s = returns (ok tot) s
  readn_from (suc fuel) fdnum buf n tot s = elim (ltb tot n) [
    | false ↦ returns (ok tot) s
    | true ↦
        (read fdnum (buf + tot) (n - tot) >>= λ r. elim r [
          | err x ↦ pure (err x)
          | ok m ↦ elim (m == 0) [
            | true ↦ pure (ok tot)
            | false ↦ readn_from fuel fdnum buf n (tot + m)
          ]
        ])
          s
  ]

  -- Every round but the last reads a byte, so that `n` rounds are enough.
  unfoldable pub readn : ℕ → ℕ → ℕ → P (Frames τ) (Code ℕ)
  readn fdnum buf n = readn_from n fdnum buf n 0

  unfoldable pub seek : ℕ → ℕ → P (Frames τ) (Code (Unit {0}))
  seek fdnum offset s = elim (fd_lookup fdnum s) [
    | err x ↦ returns (err x) s
    | ok fd ↦ (set_offset fd offset >>= λ u. pure (ok tt)) s
  ]

  unfoldable pub ftruncate : ℕ → ℕ → P (Frames τ) (Code (Unit {0}))
  ftruncate fdnum newsize = with_device fdnum (λ fd h d. elim (accmode h == o_rdonly) [
    | true ↦ pure (err e_inval)
    | false ↦ d.dev_trunc fd newsize
  ])

  unfoldable pub fstat : ℕ → P (Frames τ) (Code Stat)
  fstat fdnum =
      with_device fdnum
        (λ fd h d. d.dev_stat fd (record { st_size = 0; st_isdir = false; st_dev = d.dev_id }))
