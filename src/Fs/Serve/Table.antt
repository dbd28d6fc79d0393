-- ===== src/Fs/Serve/Table.antt =====
-- The table of open files of fs/serv.c as a map from file ids to files.
use kludgeos.Base.{
  ℕ, zero, suc, ◌+◌, ◌-◌, ◌%◌, ◌^◌, ◌≤◌, ◌<◌, ◌≡◌, refl, ◌≢◌, inl, inr, number_cases, ◌==◌, ◌&&◌,
  ltb, if◌then◌else◌, update, Option, none, some, ok, err, e_max_open, Code, arith,
}
use kludgeos.Fs.Disk.{Fs}
use kludgeos.Fs.Serve.{
  Server, Served, gives, maxopen, zero_fd, take_entry, alloc_fd_page, alloc_from, openfile_alloc,
  serve_init,
}

-- The file id of an entry says which entry it is.
pub record TableValid (s : Server) : Type 0 where
  pub ids : (i : ℕ) → i < maxopen → (s.opentab i).o_fileid % maxopen ≡ i
  pub words : (i : ℕ) → i < maxopen → (s.opentab i).o_fileid < 2 ^ 32

pub serve_init-TableValid : (s : Server) → TableValid (serve_init s)
unfolding serve_init
serve_init-TableValid s = record { ids = λ i h. omega arith; words = λ i h. omega arith }

-- The open files, by id: an id counts while a client has the entry's page.
abbrev pub open_files : Server → ℕ → Option ℕ
open_files s id =
    if ltb 1 (s.fd_ref (id % maxopen)) && (s.opentab (id % maxopen)).o_fileid == id
    then (s.opentab (id % maxopen)).o_file
    else none

-- The id that the entry has after it is taken.
abbrev pub next_id : Server → ℕ → ℕ
next_id s i = ((s.opentab i).o_fileid + maxopen) % 2 ^ 32

-- What taking the entry `i` leaves: a client may not have its page, and the id has moved on.
pub record Taken (s : Server) (i : ℕ) (s' : Server) : Type 0 where
  pub refs : (j : ℕ) → s'.fd_ref j ≡ update s.fd_ref i 1 j
  pub entries : (j : ℕ) → (i ≢ j) → s'.opentab j ≡ s.opentab j
  pub taken_id : (s'.opentab i).o_fileid ≡ next_id s i

module _ (s : Server) (i : ℕ) where
  -- The file system as it is once the page of the entry is there.
  abbrev pub with_page : Fs
  with_page = record s.fs { frames = if s.fd_ref i == 0 then s.fs.frames - 1 else s.fs.frames }

  -- The run `r` gives the entry `i`.
  abbrev pub Gives : Served (Code (ℕ × Option ℕ)) → Type 0
  Gives r =
      (s' : Server) × (r ≡ gives (ok (next_id s i, some i)) s') × (s'.fs ≡ with_page) × Taken s i s'

  -- The server with the page there, and with the entry taken.
  paged : Server
  paged = record s {
    fs = record s.fs { frames = s.fs.frames - 1 };
    fd_ref = update s.fd_ref i 1;
    fd_page = update s.fd_page i zero_fd;
  }

  Gives-paged : (n : ℕ) → s.fd_ref i ≡ 0 → 0 < s.fs.frames → Gives (alloc_from (suc n) i s)
  unfolding alloc_from alloc_fd_page take_entry paged
  Gives-paged n zero_ref more = (
    record paged {
      opentab = update s.opentab i (record (s.opentab i) { o_fileid = next_id s i });
      fd_page = update paged.fd_page i zero_fd;
    },
    ground (arith, zero_ref, more),
    ground (arith, zero_ref),
    record { refs = λ j. refl; entries = λ j ne. ground (arith, ne); taken_id = ground arith },
  )

  Gives-there : (n : ℕ) → s.fd_ref i ≡ 1 → Gives (alloc_from (suc n) i s)
  unfolding alloc_from take_entry
  Gives-there n one = (
    record s {
      opentab = update s.opentab i (record (s.opentab i) { o_fileid = next_id s i });
      fd_page = update s.fd_page i zero_fd;
    },
    ground (arith, one),
    ground (arith, one),
    record {
      refs = λ j. ground (arith, one);
      entries = λ j ne. ground (arith, ne);
      taken_id = ground arith;
    },
  )

  alloc_from_first :
      (n d : ℕ)
      → d ≤ i
      → i < d + n
      → ((j : ℕ) → d ≤ j → j < i → 1 < s.fd_ref j)
      → s.fd_ref i ≤ 1
      → (s.fd_ref i ≡ 0 → 0 < s.fs.frames)
      → Gives (alloc_from n d s)
  unfolding alloc_from
  alloc_from_first zero d le lt held free more = absurd (omega arith)
  alloc_from_first (suc n) d le lt held free more = elim (number_cases d i) [
    | inl same ↦ rw same (at_entry n)
    | inr other ↦ skipped (held d (omega arith) (omega arith)) (
        alloc_from_first n (d + 1) (omega arith) (omega arith) (λ j low. held j (omega arith)) free
          more)
  ]
    where
      at_entry : (m : ℕ) → Gives (alloc_from (suc m) i s)
      at_entry m = elim (number_cases (s.fd_ref i) 0) [
        | inl zero_ref ↦ Gives-paged m zero_ref (more zero_ref)
        | inr ne ↦ Gives-there m (omega arith)
      ]

      step : 1 < s.fd_ref d → alloc_from (suc n) d s ≡ alloc_from n (d + 1) s
      step in_use = ground (arith, in_use)

      skipped : 1 < s.fd_ref d → Gives (alloc_from n (d + 1) s) → Gives (alloc_from (suc n) d s)
      skipped in_use g = rw (step in_use) g

  -- The first entry that is not in use is taken, and its page is allocated where it was not there.
  pub openfile_alloc_lem :
      i < maxopen
      → ((j : ℕ) → j < i → 1 < s.fd_ref j)
      → s.fd_ref i ≤ 1
      → (s.fd_ref i ≡ 0 → 0 < s.fs.frames)
      → Gives (openfile_alloc s)
  unfolding openfile_alloc
  openfile_alloc_lem lt held free more =
      alloc_from_first maxopen 0 (omega arith) (omega arith) (λ j low. held j) free more

alloc_from_full :
    (s : Server) (n d : ℕ)
    → ((j : ℕ) → d ≤ j → j < d + n → 1 < s.fd_ref j)
    → alloc_from n d s ≡ gives (err e_max_open) s
unfolding alloc_from
alloc_from_full s zero d held = refl
alloc_from_full s (suc n) d held = ground (
  arith,
  held d (omega arith) (omega arith),
  alloc_from_full s n (d + 1) (λ j low high. held j (omega arith) (omega arith)),
)

pub openfile_alloc_full :
    (s : Server)
    → ((j : ℕ) → j < maxopen → 1 < s.fd_ref j)
    → openfile_alloc s ≡ gives (err e_max_open) s
unfolding openfile_alloc
openfile_alloc_full s held = alloc_from_full s maxopen 0 (λ j low high. held j high)
