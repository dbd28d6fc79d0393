-- ===== src/Fs/Serve/Opens.antt =====
-- Opening and looking up files in fs/serv.c, as operations on the map from ids to files.
use kludgeos.Base.{
  ℕ, ◌+◌, ◌/◌, ◌%◌, ◌^◌, ◌≤◌, ◌<◌, ◌≡◌, sym, ◌≢◌, inl, inr, true, number_cases, ◌==◌, ◌&&◌, ltb,
  if◌then◌else◌, update, List, none, some, ok, err, e_inval, e_max_open, arith,
}
use kludgeos.Fs.Disk.{Fs, returns, blkwords}
use kludgeos.Fs.Dir.{file_open}
use kludgeos.Fs.Serve.{
  Server, gives, dies, maxopen, pte_share, openfile_lookup, serve_open, fill_fd, req_path, page,
  fd_of, code, serve_close, file_of, serve_init,
}
use kludgeos.Fs.Serve.Table.{
  TableValid, open_files, next_id, Taken, with_page, openfile_alloc_lem, openfile_alloc_full,
}

-- The client has received the page of the entry: the server and the client have it.
abbrev pub received : ℕ → Server → Server
received i s = record s { fd_ref = update s.fd_ref i 2 }

-- The state after serve_open, when the entry `i` was taken in `s1`.
abbrev filled : Server → Fs → ℕ → ℕ → ℕ → Server
filled s1 t i f omode = record s1 {
  fs = t;
  opentab = update s1.opentab i (record (s1.opentab i) { o_file = some f; o_mode = omode });
  fd_page = update s1.fd_page i (record (s1.fd_page i) {
    fd_file = λ w. t.mem (f + w);
    fd_file_id = (s1.opentab i).o_fileid;
    fd_omode = omode;
    fd_dev_id = b'f';
  });
}

module _ (s : Server) (i f omode : ℕ) (t : Fs) (valid : TableValid s) (lt : i < maxopen) where
  next_mod : next_id s i % maxopen ≡ i
  next_mod = omega (arith, valid.ids i lt)

  next_word : next_id s i < 2 ^ 32
  next_word = omega arith

  module _ (s1 : Server) (taken : Taken s i s1) where
    at_id :
        (j : ℕ)
        → ((filled s1 t i f omode).opentab j).o_fileid
          ≡ (if j == i then next_id s i else (s.opentab j).o_fileid)
    at_id j = elim (number_cases j i) [
      | inl same ↦ rw same (ground (arith, taken.taken_id))
      | inr other ↦ ground (arith, other, taken.entries j (λ e. other (sym e)))
    ]

    at_file :
        (j : ℕ)
        → ((filled s1 t i f omode).opentab j).o_file
          ≡ (if j == i then some f else (s.opentab j).o_file)
    at_file j = elim (number_cases j i) [
      | inl same ↦ rw same (ground arith)
      | inr other ↦ ground (arith, other, taken.entries j (λ e. other (sym e)))
    ]

    at_ref :
        (j : ℕ) → (received i (filled s1 t i f omode)).fd_ref j ≡ (if j == i then 2 else s.fd_ref j)
    at_ref j = ground (arith, taken.refs j)

    filled-TableValid : TableValid (filled s1 t i f omode)
    filled-TableValid = record {
      ids = λ j h. rw (at_id j) (elim (number_cases j i) [
        | inl same ↦ rw same (ground (arith, next_mod))
        | inr other ↦ ground (arith, other, valid.ids j h)
      ]);
      words = λ j h. rw (at_id j) (elim (number_cases j i) [
        | inl same ↦ rw same (ground (arith, next_word))
        | inr other ↦ ground (arith, other, valid.words j h)
      ]);
    }

    filled-open_files :
        s.fd_ref i ≤ 1
        → (id : ℕ)
        → open_files (received i (filled s1 t i f omode)) id
          ≡ update (open_files s) (next_id s i) (some f) id
    filled-open_files free id = elim (number_cases (id % maxopen) i) [
      | inl same ↦ ground (arith, same, at_id i, at_file i, at_ref i, next_mod, free)
      | inr other ↦ ground (
        arith,
        other,
        at_id (id % maxopen),
        at_file (id % maxopen),
        at_ref (id % maxopen),
        next_mod,
      )
    ]

  next_id-fresh : s.fd_ref i ≤ 1 → open_files s (next_id s i) ≡ none
  next_id-fresh free = ground (arith, next_mod, free)

-- What a request that opens the file at `f` gives: the page of an entry, and one new open file.
pub record Opens (s : Server) (f : ℕ) (i : ℕ) (s' : Server) : Type 0 where
  pub keeps_valid : TableValid s'
  pub fresh : open_files s (next_id s i) ≡ none
  pub adds :
      (id : ℕ) → open_files (received i s') id ≡ update (open_files s) (next_id s i) (some f) id

module _ (s : Server) (bytes : List ℕ) (i f omode : ℕ) (t : Fs) where
  -- Where the table is valid, `i` is the first entry that no client has, its page can be had, its
  -- next id is below 2^31, the path names `f` and the block of `f` is in memory: serve_open sends the
  -- page of the entry, and once the client has it, the files that are open are those that were and
  -- `f`, under an id that no open file had.
  pub serve_open_lem :
      TableValid s
      → i < maxopen
      → ((j : ℕ) → j < i → 1 < s.fd_ref j)
      → s.fd_ref i ≤ 1
      → (s.fd_ref i ≡ 0 → 0 < s.fs.frames)
      → next_id s i < 2 ^ 31
      → file_open (req_path bytes) (with_page s i) ≡ returns (ok f) t
      → t.mapped (f / blkwords) ≡ true
      → (s' : Server) × (serve_open bytes omode s ≡ gives (page (fd_of i) (7 + pte_share)) s')
        × Opens s f i s'
  unfolding serve_open fill_fd
  serve_open_lem valid lt held free more low opened there =
      let (s1, run, same_fs, taken) = openfile_alloc_lem s i lt held free more in
      (
        filled s1 t i f omode,
        ground (arith, run, same_fs, opened, there, low),
        record {
          keeps_valid = filled-TableValid s i f omode t valid lt s1 taken;
          fresh = next_id-fresh s i f omode t valid lt free;
          adds = filled-open_files s i f omode t valid lt s1 taken free;
        },
      )

-- Where a client has every entry's page, serve_open refuses, and nothing changes.
serve_open_full :
    (s : Server) (bytes : List ℕ) (omode : ℕ)
    → ((j : ℕ) → j < maxopen → 1 < s.fd_ref j)
    → serve_open bytes omode s ≡ gives (code (err e_max_open)) s
unfolding serve_open
serve_open_full s bytes omode held = ground (arith, openfile_alloc_full s held)

-- On a table whose entries' pages are all there, the lookup of an id finds an entry exactly where the
-- map of the open files has one that was filled in, and its file is the file of the map.
openfile_lookup_lem :
    (s : Server) (id : ℕ)
    → s.fd_ref (id % maxopen) ≢ 0
    → openfile_lookup id s
      ≡ gives
          (if ltb 1 (s.fd_ref (id % maxopen)) && (s.opentab (id % maxopen)).o_fileid == id
            then ok (id % maxopen)
            else err e_inval)
          s
unfolding openfile_lookup
openfile_lookup_lem s id there = ground (arith, there)

-- The ids below 1024 that no one has opened: the lookup finds them, and closing one kills the server.
pub serve_close_never_opened :
    (s : Server) (id : ℕ)
    → id < maxopen
    → s.fd_ref id ≡ 0
    → (s.opentab id).o_file ≡ none
    → serve_close id (serve_init s) ≡ dies
unfolding serve_close openfile_lookup file_of serve_init
serve_close_never_opened s id lt zero_ref null = ground (arith, zero_ref, null, mod_lem)
  where
    mod_lem : id % maxopen ≡ id
    mod_lem = omega arith
