-- ===== src/User/Fd/Reading.antt =====
-- file_read of lib/file.c copies the part of the file that is asked for and there.
use kludgeos.Base.{ℕ, ◌+◌, ◌-◌, ◌^◌, ◌≤◌, ◌<◌, ◌≡◌, ap, ◌∙◌, ok, arith, min}
use kludgeos.User.Space.{Space, Server, returns, pte_p}
use kludgeos.User.Fd.{Frames, pte_w}
use kludgeos.User.Fd.Device.{fd_data, read_count, file_read}
use kludgeos.User.Fd.Moving.{AreMapped, HasOwnFrames, AreApart}
use kludgeos.User.Fd.Memmove.{Copied, memmove_pages}

module _ {τ : Type 0} (server : Server (Frames τ)) where
  read_count_lem :
      (size n offset : ℕ)
      → offset ≤ size
      → offset + n < 2 ^ 32
      → read_count server size n offset ≡ min n (size - offset)
  unfolding read_count
  read_count_lem size n offset le fits = ground (arith, fits)

  -- A read from an offset within the file, where offset and length do not wrap, the pages of the
  -- file that are read are mapped, and those of the buffer are mapped, writable and in frames of
  -- their own, none of which is a frame of those pages of the file, returns the smaller of the
  -- length and what the file has left; that many bytes of the file are then in the buffer, and the
  -- descriptors are as they were.
  pub file_read_lem :
      (fd buf n offset size : ℕ) (s : Space (Frames τ))
      → server.f_size fd s.server ≡ size
      → offset ≤ size
      → offset + n < 2 ^ 32
      → AreMapped s pte_p (fd_data fd + offset) (min n (size - offset))
      → AreMapped s pte_w buf (min n (size - offset))
      → HasOwnFrames s buf (min n (size - offset))
      → AreApart s buf (fd_data fd + offset) (min n (size - offset))
      → (t : Frames τ) × (file_read server fd buf n offset s
          ≡ returns (ok (min n (size - offset))) (record s { server = t }))
        × Copied buf (fd_data fd + offset) (min n (size - offset)) s (record s { server = t })
        × (t.fds ≡ s.server.fds)
  unfolding file_read
  file_read_lem fd buf n offset size s is le fits from to own apart =
      let count : read_count server (server.f_size fd s.server) n offset ≡ min n (size - offset) =
        ap (λ z. read_count server z n offset) is ∙ read_count_lem size n offset le fits in
      let (t, run, copied, fds) =
        memmove_pages buf (fd_data fd + offset) (min n (size - offset)) s from to own apart in
      (t, ground (arith, is, le, count, run), copied, fds)
