-- ===== src/User/Fd/Device.antt =====
-- The device of files of lib/file.c: reading, writing, read_map and open, with the server of
-- User/Space behind them.
--
-- memmove of lib/string.c goes through the page entries of the process, so that a page that is not
-- mapped or not writable faults, in the direction that it takes from the virtual addresses. Where
-- all is aligned it moves words; a word lies in one page and two of them are the same or apart, so
-- that their bytes in order give the same.
use kludgeos.Base.{
  ℕ, zero, suc, ◌+◌, ◌-◌, ◌*◌, ◌/◌, ◌%◌, ◌^◌, Bool, ◌&&◌, true, false, ◌==◌, ltb, leb,
  if◌then◌else◌, update, List, Code, ok, err, e_no_disk, e_inval,
}
use kludgeos.User.Space.{Server, P, returns, ◌>>=◌, pure, ask, present, pgsize, pte_p}
use kludgeos.User.File.{
  map_entry, maxfilesize, fd_page, data_page, fd_alloc, fd_lookup, fmap, file_close, file_trunc,
}
use kludgeos.User.Fd.{Frames, Stat, Dev, pte_w, frame_of, read_fd, fd_close, fstat, close}

module _ {τ : Type 0} where
  unfoldable pub load_byte : ℕ → P (Frames τ) ℕ
  load_byte va s =
      (frame_of pte_p (va / pgsize) >>= λ p. λ t. returns (t.server.bytes p (va % pgsize)) t) s

  abbrev pub put_byte : ℕ → ℕ → ℕ → Frames τ → Frames τ
  put_byte p i b t = record t { bytes = update t.bytes p (update (t.bytes p) i b) }

  unfoldable pub store_byte : ℕ → ℕ → P (Frames τ) (Unit {0})
  store_byte va b s =
      (frame_of pte_w (va / pgsize) >>= λ p.
      λ t. returns tt (record t { server = put_byte p (va % pgsize) b t.server }))
        s

  -- The loops of memmove, up from the first byte and down from the last.
  unfoldable pub move_up : ℕ → ℕ → ℕ → P (Frames τ) (Unit {0})
  move_up zero dst src s = returns tt s
  move_up (suc n) dst src s =
      (load_byte src >>= λ b. store_byte dst b >>= λ u. move_up n (dst + 1) (src + 1)) s

  unfoldable pub move_down : ℕ → ℕ → ℕ → P (Frames τ) (Unit {0})
  move_down zero dst src s = returns tt s
  move_down (suc n) dst src s =
      (load_byte (src + n) >>= λ b. store_byte (dst + n) b >>= λ u. move_down n dst src) s

  unfoldable pub memmove : ℕ → ℕ → ℕ → P (Frames τ) (Unit {0})
  memmove dst src n s =
      if ltb src dst && ltb dst ((src + n) % 2 ^ 32)
      then move_down n dst src s
      else move_up n dst src s

-- fd2data(fd)
abbrev pub fd_data : ℕ → ℕ
fd_data fd = data_page fd * pgsize

module _ {τ : Type 0} (server : Server (Frames τ)) where
  -- The bytes that file_read copies: `offset` is not behind the end of the file.
  unfoldable pub read_count : ℕ → ℕ → ℕ → ℕ
  read_count size n offset = if ltb size ((offset + n) % 2 ^ 32) then size - offset else n

  unfoldable pub file_read : ℕ → ℕ → ℕ → ℕ → P (Frames τ) (Code ℕ)
  file_read fd buf n offset s =
      let size = server.f_size fd s.server in
      elim (ltb size offset) [
        | true ↦ returns (ok 0) s
        | false ↦
            let count = read_count size n offset in
            (memmove buf (fd_data fd + offset) count >>= λ u. pure (ok count)) s
      ]

  -- Step 2 of file_write, when the file is large enough.
  unfoldable pub write_data : ℕ → ℕ → ℕ → ℕ → P (Frames τ) (Code ℕ)
  write_data fd buf n offset s = (memmove (fd_data fd + offset) buf n >>= λ u. pure (ok n)) s

  unfoldable pub file_write : ℕ → ℕ → ℕ → ℕ → P (Frames τ) (Code ℕ)
  file_write fd buf n offset s =
      let tot = (offset + n) % 2 ^ 32 in
      elim (ltb maxfilesize tot) [
        | true ↦ returns (err e_no_disk) s
        | false ↦ elim (ltb (server.f_size fd s.server) tot) [
          | false ↦ write_data fd buf n offset s
          | true ↦
              (file_trunc server fd tot >>= λ r. elim r [
                | err x ↦ pure (err x)
                | ok u ↦ write_data fd buf n offset
              ])
                s
        ]
      ]

  -- Whether the file of a descriptor is a directory is read in its page.
  unfoldable pub file_stat : (ℕ → Frames τ → Bool) → ℕ → Stat → P (Frames τ) (Code Stat)
  file_stat is_dir fd st s =
      returns
        (ok (record st { st_size = server.f_size fd s.server; st_isdir = is_dir fd s.server })) s

  -- devfile; `dev_id` is 'f'.
  abbrev pub devfile : (ℕ → Frames τ → Bool) → Dev τ
  devfile is_dir = record {
    dev_id = 0x66;
    dev_read = file_read;
    dev_write = file_write;
    dev_close = file_close server;
    dev_stat = file_stat is_dir;
    dev_trunc = file_trunc server;
  }

  unfoldable pub read_map : ℕ → ℕ → P (Frames τ) (Code ℕ)
  read_map fdnum offset s = elim (fd_lookup fdnum s) [
    | err x ↦ returns (err x) s
    | ok fd ↦
        (read_fd fd >>= λ h. λ t.
            returns
              (if h.fd_dev_id == 0x66
                then if leb maxfilesize offset
                  then err e_no_disk
                  else if present t (data_page fd + offset / pgsize)
                  then ok (fd_data fd + offset)
                  else err e_no_disk
                else err e_inval)
              t)
          s
  ]

  -- The page of a new descriptor is the one that the answer to fsipc_open carries.
  unfoldable pub receive_fd : (Frames τ → Code ℕ × Frames τ) → ℕ → P (Frames τ) (Code (Unit {0}))
  receive_fd fsipc_open fd s =
      (ask fsipc_open >>= λ r. elim r [
        | err x ↦ pure (err x)
        | ok e ↦ λ t. returns (ok tt) (record t { vpt = map_entry t.vpt (fd_page fd) e })
      ])
        s

  -- `fsipc_open` is the request with its path and its mode.
  unfoldable pub open_file : List (Dev τ) → (Frames τ → Code ℕ × Frames τ) → P (Frames τ) (Code ℕ)
  open_file devtab fsipc_open s = elim (fd_alloc s) [
    | err x ↦ returns (err x) s
    | ok fd ↦
        (receive_fd fsipc_open fd >>= λ r. elim r [
          | err x ↦ fd_close devtab fd false >>= λ c. pure (err x)
          | ok u ↦ λ t.
              (fmap server fd 0 (server.f_size fd t.server) >>= λ q. elim q [
                | err x ↦ fd_close devtab fd false >>= λ c. pure (err x)
                | ok v ↦ pure (ok fd)
              ])
                t
        ])
          s
  ]

  -- stat of lib/fd.c
  unfoldable pub stat_path :
      List (Dev τ) → (Frames τ → Code ℕ × Frames τ) → P (Frames τ) (Code Stat)
  stat_path devtab fsipc_open s =
      (open_file devtab fsipc_open >>= λ r. elim r [
        | err x ↦ pure (err x)
        | ok fd ↦ fstat devtab fd >>= λ q. close devtab fd >>= λ c. pure q
      ])
        s
