-- ===== src/User/Fd/Tests.antt =====
-- The theorems on descriptors at small address spaces.
use kludgeos.Base.{
  ℕ, min, ◌-◌, ◌^◌, ◌+◌, ◌/◌, ◌%◌, ◌<◌, ◌≡◌, ◌⊎◌, refl, inl, ap, leb, ltb, number_cases, inr, ◌&&◌,
  ◌≤◌, ◌∙◌, sym, Option, false, ◌==◌, has, if◌then◌else◌, none, some, List, [], ◌∷◌, ok, err,
  e_inval, e_no_mem, arith,
}
use kludgeos.User.Space.{Space, Server, returns, pgsize, pte_p, ptpages}
use kludgeos.User.File.{maxfd, fd_page, data_page, fd_lookup}
use kludgeos.User.Fd.Whole.{Streams, readn_lem}
use kludgeos.User.Fd.{
  put_offset, read, readn, with_device, moved, advance, set_offset, frame_of, Frames, Dev, read_fd,
  seek, dev_lookup, close_all,
}
use kludgeos.User.Fd.Dup.{dup}
use kludgeos.User.Fd.Files.{HaveData, close_all_files}
use kludgeos.User.File.Mapping.{HasTable}
use kludgeos.User.Fd.Closing.{by_device}
use kludgeos.User.Fd.Offsets.{dup_shares_offset}
use kludgeos.User.Fd.Sharing.{DupEnds, dup_lem}
use kludgeos.User.Fd.Self.{dup_self}
use kludgeos.User.Fd.Device.{devfile, file_read, fd_data}
use kludgeos.User.Fd.Reading.{file_read_lem}
use kludgeos.User.Fd.Memmove.{Copied}

-- A device that reads nothing.
abbrev null : Dev ℕ
null = record {
  dev_id = 0x63;
  dev_read = λ fd buf n off s. returns (ok 0) s;
  dev_write = λ fd buf n off s. returns (ok n) s;
  dev_close = λ fd s. returns (ok tt) s;
  dev_stat = λ fd st s. returns (ok st) s;
  dev_trunc = λ fd n s. returns (err e_inval) s;
}

abbrev only_null : List (Dev ℕ)
only_null = null ∷ []

abbrev frames : Frames ℕ
frames = record {
  fds = λ p. record { fd_dev_id = 0x63; fd_offset = 0; fd_omode = 2 };
  bytes = λ p i. (p + i) % 256;
  world = 0;
}

-- The descriptor 0 is open on the frame 5.
abbrev one_open : Space (Frames ℕ)
one_open = record { vpt = λ p. if p == fd_page 0 then some 0x5007 else none; server = frames }

-- The same, with page tables for every page.
abbrev with_tables : Space (Frames ℕ)
with_tables = record { vpt = λ p. if p == fd_page 0 then some 0x5007 else some 0; server = frames }

no_data : (i : ℕ) → i < ptpages → one_open.vpt (data_page 0 + i) ≡ none
no_data i lt = ground arith

dup_lem_example : DupEnds (λ p. false) 0 3 0x5007 one_open (dup only_null (λ p. false) 0 3 one_open)
dup_lem_example =
    dup_lem (λ p. false) 0 3 only_null 0x5007 one_open (omega arith) (omega arith)
      (λ e. absurd (omega arith)) (inl no_data) refl refl refl

dup_shares_offset_example :
    ((s1 : Space (Frames ℕ)) × (dup only_null (λ p. false) 0 3 one_open
        ≡ returns (err e_no_mem) s1))
    ⊎ ((s1 : Space (Frames ℕ)) × (dup only_null (λ p. false) 0 3 one_open ≡ returns (ok 3) s1)
        × ((s2 : Space (Frames ℕ)) × (seek only_null 3 77 s1 ≡ returns (ok tt) s2)
            × (read_fd 0 s2
                ≡ returns (record { fd_dev_id = 0x63; fd_offset = 77; fd_omode = 2 }) s2)))
dup_shares_offset_example =
    dup_shares_offset only_null (λ p. false) 0 3 0x5007 77 one_open (omega arith) (omega arith)
      (λ e. absurd (omega arith)) (inl no_data) refl refl refl refl

empty_data :
    (i : ℕ)
    → i < ptpages
    → (e : ℕ) × ((if data_page 0 + i == fd_page 0
          then some 0
          else if data_page 0 + i == fd_page 0
          then some 0x5007
          else some 0)
        ≡ some e)
      × (has e pte_p ≡ false)
empty_data i lt = (0, ground arith, refl)

dup_self_example :
    (s' : Space (Frames ℕ)) × (dup only_null (λ p. false) 0 0 with_tables
      ≡ returns (err e_inval) s')
    × (fd_lookup 0 s' ≡ err e_inval)
unfolding dev_lookup
dup_self_example =
    dup_self only_null (λ p. false) 0 (ok tt) with_tables with_tables (omega arith)
      (by_device null 0x5007 refl refl refl refl) (λ is. absurd (ground (arith, is))) empty_data

-- A file of ten bytes in the frame 5, and a buffer in the frame 6.
abbrev ten_bytes : Server (Frames ℕ)
ten_bytes = record {
  fsipc_map = λ id offset t. (err e_no_mem, t);
  fsipc_set_size = λ id size t. (ok tt, t);
  fsipc_close = λ id t. (ok tt, t);
  fsipc_dirty = λ id offset t. (ok tt, t);
  file_id = λ fd t. 3;
  f_size = λ fd t. 10;
}

abbrev mapped : Space (Frames ℕ)
mapped = record {
  vpt = λ p. if p == data_page 0 then some 0x5007 else if p == 2 then some 0x6007 else none;
  server = frames;
}

file_page : (i : ℕ) → i < 6 → mapped.vpt ((fd_data 0 + 4 + i) / pgsize) ≡ some 0x5007
file_page i lt = ap mapped.vpt {x = (fd_data 0 + 4 + i) / pgsize} {y = data_page 0} (omega arith)

buffer_page : (i : ℕ) → i < 6 → mapped.vpt ((8192 + i) / pgsize) ≡ some 0x6007
buffer_page i lt = ap mapped.vpt {x = (8192 + i) / pgsize} {y = 2} (omega arith)

file_read_lem_example :
    (t : Frames ℕ) × (file_read ten_bytes 0 8192 100 4 mapped
      ≡ returns (ok 6) (record mapped { server = t }))
    × Copied 8192 (fd_data 0 + 4) 6 mapped (record mapped { server = t })
    × (t.fds ≡ frames.fds)
file_read_lem_example =
    file_read_lem ten_bytes 0 8192 100 4 10 mapped refl (omega arith) (omega arith)
      (λ i lt. (0x5007, (file_page i lt, refl, refl)))
      (λ i lt. (0x6007, (buffer_page i lt, refl, refl)))
      (λ i j e e' lt lt' at at' ne. absurd (ne (omega arith)))
      (λ i j e e' lt lt' at at'.
        let buffer : e ≡ 0x6007 = ground (arith, sym (buffer_page i lt), at) in
        let file : e' ≡ 0x5007 = ground (arith, sym (file_page j lt'), at') in
        omega (arith, buffer, file))

-- The descriptor 0 is a file, with the page table of its data, and no other is open.
abbrev one_file : Space (Frames ℕ)
one_file = record {
  vpt = λ p.
      if p == fd_page 0
      then some 0x5007
      else if leb (data_page 0) p && ltb p (data_page 0 + ptpages)
      then some 0
      else none;
  server = record frames { fds = λ p. record { fd_dev_id = 0x66; fd_offset = 0; fd_omode = 2 } };
}

file_table : HasTable one_file 0
file_table p low high = (0, ground (arith, low, high))

one_file_pages : HaveData ten_bytes one_file
one_file_pages fd lt there = elim (number_cases fd 0) [
  | inl first ↦ inl (rw first file_table)
  | inr other ↦ absurd (ground (arith, other, lt, there))
]

close_all_files_example :
    (s' : Space (Frames ℕ)) × (close_all (devfile ten_bytes (λ fd t. false) ∷ []) one_file
      ≡ returns tt s')
    × ((k : ℕ) → k < maxfd → fd_lookup k s' ≡ err e_inval)
close_all_files_example =
    close_all_files ten_bytes (λ fd t. false) one_file (λ fd t. omega arith) one_file_pages

-- The descriptor 0 is the file of ten bytes, with its page of data and a page for the buffer.
abbrev opened : ℕ → Option ℕ
opened p =
    if p == fd_page 0
    then some 0x4007
    else if p == data_page 0
    then some 0x5007
    else if p == 2
    then some 0x6007
    else none

-- `tot` bytes are read from the offset 4 on, and `a` are left.
record OnFile (a tot : ℕ) (s : Space (Frames ℕ)) : Type 0 where
  pages : s.vpt ≡ opened
  is_file : (s.server.fds 4).fd_dev_id ≡ 0x66
  for_both : (s.server.fds 4).fd_omode ≡ 2
  offset : (s.server.fds 4).fd_offset ≡ 4 + tot
  left : tot + a ≡ 6

abbrev files : List (Dev ℕ)
files = devfile ten_bytes (λ fd t. false) ∷ []

opened_data : (i : ℕ) → i < 10 → opened ((fd_data 0 + i) / pgsize) ≡ some 0x5007
opened_data i lt = ap opened {x = (fd_data 0 + i) / pgsize} {y = data_page 0} (omega arith)

opened_buffer : (i : ℕ) → i < 8 → opened ((8192 + i) / pgsize) ≡ some 0x6007
opened_buffer i lt = ap opened {x = (8192 + i) / pgsize} {y = 2} (omega arith)

same_entry : (x : Option ℕ) (e e' : ℕ) → x ≡ some e → x ≡ some e' → e' ≡ e
same_entry x e e' at at' = ground (arith, at, at')

after_read : ℕ → Space (Frames ℕ) → Frames ℕ → Space (Frames ℕ)
after_read off s t = record s { server = put_offset 4 off t }

-- The read of the device gives the read of the descriptor.
file_reads :
    (a tot m : ℕ) (s : Space (Frames ℕ)) (t : Frames ℕ)
    → OnFile a tot s
    → file_read ten_bytes 0 (8192 + tot) (8 - tot) (4 + tot) s
      ≡ returns (ok m) (record s { server = t })
    → t.fds ≡ s.server.fds
    → m ≤ a
    → read files 0 (8192 + tot) (8 - tot) s ≡ returns (ok m) (after_read (4 + (tot + m)) s t)
unfolding read with_device moved advance set_offset read_fd frame_of dev_lookup after_read fd_lookup
file_reads a tot m s t h run fds le =
    let entry : s.vpt (fd_page 0) ≡ some 0x4007 = ap (λ v. v (fd_page 0)) h.pages in
    let same : t.fds 4 ≡ s.server.fds 4 = ap (λ v. v 4) fds in
    let off : (4 + tot + m) % 2 ^ 32 ≡ 4 + (tot + m) = omega (arith, h.left) in
    ground (arith, entry, h.is_file, h.for_both, h.offset, run, same, off)

file_streams : Streams files 0 8192 8 OnFile
unfolding after_read
file_streams a tot s lt h =
    let m : ℕ = min (8 - tot) (10 - (4 + tot)) in
    let (t, run, copied, fds) =
      file_read_lem ten_bytes 0 (8192 + tot) (8 - tot) (4 + tot) 10 s refl (omega (arith, h.left))
        (omega (arith, h.left)) (λ i low. (0x5007, (data_at i low, refl, refl)))
        (λ i low. (0x6007, (buffer_at i low, refl, refl)))
        (λ i j e e' low low' at at' ne. absurd (ne (omega (arith, h.left))))
        (λ i j e e' low low' at at'.
          let buffer : e ≡ 0x6007 = same_entry _ 0x6007 e (buffer_at i low) at in
          let file : e' ≡ 0x5007 = same_entry _ 0x5007 e' (data_at j low') at' in
          omega (arith, buffer, file)) in
    (
      m,
      after_read (4 + (tot + m)) s t,
      file_reads a tot m s t h run fds (omega (arith, h.left)),
      (omega (arith, h.left), omega (arith, h.left), omega (arith, h.left)),
      record {
        pages = h.pages;
        is_file = ap (λ v. (v 4).fd_dev_id) fds ∙ h.is_file;
        for_both = ap (λ v. (v 4).fd_omode) fds ∙ h.for_both;
        offset = refl;
        left = omega (arith, h.left);
      },
    )
  where
    data_at :
        (i : ℕ)
        → i < min (8 - tot) (10 - (4 + tot))
        → s.vpt ((fd_data 0 + (4 + tot) + i) / pgsize) ≡ some 0x5007
    data_at i low =
        ap (λ v. v ((fd_data 0 + (4 + tot) + i) / pgsize)) h.pages
        ∙ ap opened {x = (fd_data 0 + (4 + tot) + i) / pgsize}
            {y = (fd_data 0 + (4 + tot + i)) / pgsize} (omega arith)
        ∙ opened_data (4 + tot + i) (omega (arith, h.left))

    buffer_at :
        (i : ℕ)
        → i < min (8 - tot) (10 - (4 + tot))
        → s.vpt ((8192 + tot + i) / pgsize) ≡ some 0x6007
    buffer_at i low =
        ap (λ v. v ((8192 + tot + i) / pgsize)) h.pages
        ∙ ap opened {x = (8192 + tot + i) / pgsize} {y = (8192 + (tot + i)) / pgsize} (omega arith)
        ∙ opened_buffer (tot + i) (omega (arith, h.left))

abbrev at_four : Space (Frames ℕ)
at_four = record {
  vpt = opened;
  server = record frames { fds = λ p. record { fd_dev_id = 0x66; fd_offset = 4; fd_omode = 2 } };
}

readn_lem_example :
    (s' : Space (Frames ℕ)) × (readn files 0 8192 8 at_four ≡ returns (ok 6) s') × OnFile 0 6 s'
readn_lem_example =
    readn_lem files 0 8192 8 OnFile 6 at_four file_streams
      (record { pages = refl; is_file = refl; for_both = refl; offset = refl; left = refl })
