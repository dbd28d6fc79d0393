-- ===== src/Fs/Serve.antt =====
-- The file server's requests: fs/serv.c. A handler runs to its ipc_send, its last act; what it sends
-- is its result.
--
-- The `struct Fd` page of the open file `i` is a page of its own: `fd_ref i` is its pageref, which
-- clients raise by mapping the page and lower by closing it, and 0 where the page is not there. A
-- handler that follows a null or an unset pointer kills the server: `dies`.
pub mod Table
pub mod Opens
mod Tests
use kludgeos.Base.{
  ℕ, zero, suc, ◌+◌, ◌-◌, ◌*◌, ◌/◌, ◌%◌, ◌^◌, Bool, true, false, not, ◌&&◌, ◌||◌, ◌==◌, ltb, leb,
  if◌then◌else◌, update, has, bit_or, List, [], ◌∷◌, take, Option, none, some, Code, ok, err, Errno,
  e_max_open, e_inval,
}
use kludgeos.Fs.Disk.{Fs, Outcome, M, returns, panics, load, blksize}
use kludgeos.Fs.File.{file_get_block, file_set_size, file_dirty, file_close, fs_sync}
use kludgeos.Fs.Dir.{file_open, file_remove}

abbrev pub maxopen : ℕ
maxopen = 1024

abbrev maxpathlen : ℕ
maxpathlen = 1024

abbrev o_accmode_write : ℕ
o_accmode_write = 3

abbrev pub pte_share : ℕ
pte_share = 0x400

-- struct OpenFile; `o_fd` is the page of the same index, `o_file` null in a fresh entry.
pub record OpenFile : Type 0 where
  pub o_fileid : ℕ
  pub o_file : Option ℕ
  pub o_mode : ℕ

-- What the server writes of a struct Fd; `fd_file` is the 64 words of the struct File.
pub record Fd : Type 0 where
  pub fd_dev_id : ℕ
  pub fd_offset : ℕ
  pub fd_omode : ℕ
  pub fd_file_id : ℕ
  pub fd_file : ℕ → ℕ

abbrev zero_fd : Fd
zero_fd = record { fd_dev_id = 0; fd_offset = 0; fd_omode = 0; fd_file_id = 0; fd_file = λ _. 0 }

pub record Server : Type 0 where
  pub fs : Fs
  pub opentab : ℕ → OpenFile
  pub fd_ref : ℕ → ℕ
  pub fd_page : ℕ → Fd

pub data Served (A : Type 0) : Type 0 where
  gives : A → Server → Served A
  dies : Served A

abbrev S : Type 0 → Type 0
S A = Server → Served A

infixl 5 ◌>>=◌
abbrev pub ◌>>=◌ : {A B : Type 0} → S A → (A → S B) → S B
◌>>=◌ m f s = elim (m s) [ gives a s' ↦ f a s' | dies ↦ dies ]

abbrev pub pure : {A : Type 0} → A → S A
pure a s = gives a s

abbrev pub gets : {A : Type 0} → (Server → A) → S A
gets f s = gives (f s) s

abbrev set_open : ℕ → OpenFile → S (Unit {0})
set_open i o s = gives tt (record s { opentab = update s.opentab i o })

abbrev set_fd : ℕ → Fd → S (Unit {0})
set_fd i fd s = gives tt (record s { fd_page = update s.fd_page i fd })

-- A function of fs/fs.c.
abbrev lift : {A : Type 0} → M A → S A
lift m s = elim (m s.fs) [ returns a t ↦ gives a (record s { fs = t }) | panics ↦ dies ]

-- What a handler sends: ipc_send(envid, r, page, perm).
pub data Page : Type 0 where
  fd_of : ℕ → Page
  block_at : ℕ → Page

pub data Reply : Type 0 where
  code : Code ℕ → Reply
  -- a file id whose top bit is set: a negative int that stands for no error
  negative : ℕ → Reply
  page : Page → ℕ → Reply

-- serve_init: the table that is there, with file ids and addresses.
pub serve_init : Server → Server
serve_init s = record s { opentab = λ i. record (s.opentab i) { o_fileid = i } }

-- The case that takes the entry `i`: its page is cleared, and its file id moves on.
pub take_entry : ℕ → S (Code (ℕ × Option ℕ))
take_entry i s =
    let id = ((s.opentab i).o_fileid + maxopen) % 2 ^ 32 in
    gives (ok (id, some i)) (record s {
      opentab = update s.opentab i (record (s.opentab i) { o_fileid = id });
      fd_page = update s.fd_page i zero_fd;
    })

-- sys_page_alloc of the page of the entry `i`, and whether it failed.
pub alloc_fd_page : ℕ → S Bool
alloc_fd_page i s = elim (s.fs.frames == 0) [
  | true ↦ gives true s
  | false ↦ gives false (record s {
    fs = record s.fs { frames = s.fs.frames - 1 };
    fd_ref = update s.fd_ref i 1;
    fd_page = update s.fd_page i zero_fd;
  })
]

-- The loop of openfile_alloc: `n` rounds from entry `i`. Where the page cannot be had, the code
-- returns the value of the comparison, 1, as if it were a file id, and leaves `*o` unset.
pub alloc_from : ℕ → ℕ → S (Code (ℕ × Option ℕ))
alloc_from zero i s = gives (err e_max_open) s
alloc_from (suc n) i s = elim (s.fd_ref i == 0) [
  | true ↦
      (alloc_fd_page i >>= λ failed. elim failed [
        | true ↦ pure (ok (1, none))
        | false ↦ take_entry i
      ])
        s
  | false ↦ elim (s.fd_ref i == 1) [ true ↦ take_entry i s | false ↦ alloc_from n (i + 1) s ]
]

pub openfile_alloc : S (Code (ℕ × Option ℕ))
openfile_alloc = alloc_from maxopen 0

pub openfile_lookup : ℕ → S (Code ℕ)
openfile_lookup fileid s =
    let i = fileid % maxopen in
    elim ((s.fd_ref i == 1) || not ((s.opentab i).o_fileid == fileid)) [
      | true ↦ gives (err e_inval) s
      | false ↦ gives (ok i) s
    ]

-- The file of an entry; a null pointer kills the server.
pub file_of : ℕ → S ℕ
file_of i s = elim (s.opentab i).o_file [ none ↦ dies | some f ↦ gives f s ]

-- The path in a request, cut at its last byte.
pub until_nul : List ℕ → List ℕ
until_nul [] = []
until_nul (c ∷ cs) = let more = until_nul cs in if c == 0 then [] else c ∷ more

abbrev pub req_path : List ℕ → List ℕ
req_path bytes = until_nul (take (maxpathlen - 1) bytes)

-- The tail of serve_open: the entry and its page are filled in. The first word of the file is
-- read for all of its block.
pub fill_fd : ℕ → ℕ → ℕ → S (Unit {0})
fill_fd i f omode = lift (load f) >>= λ _. gets (λ s. s) >>= λ s.
    set_open i (record (s.opentab i) { o_file = some f; o_mode = omode }) >>= λ _.
    set_fd i (record (s.fd_page i) {
      fd_file = λ w. s.fs.mem (f + w);
      fd_file_id = (s.opentab i).o_fileid;
      fd_omode = omode;
      fd_dev_id = b'f';
    })

pub serve_open : List ℕ → ℕ → S Reply
serve_open bytes omode = openfile_alloc >>= λ r. elim r [
  | err e ↦ pure (code (err e))
  | ok (fileid, o) ↦ elim (ltb fileid (2 ^ 31)) [
    | false ↦ pure (negative fileid)
    | true ↦ lift (file_open (req_path bytes)) >>= λ q. elim q [
      | err e ↦ pure (code (err e))
      | ok f ↦ elim o [
        | none ↦ λ s. dies
        | some i ↦ fill_fd i f omode >>= λ _. pure (page (fd_of i) (7 + pte_share))
      ]
    ]
  ]
]

unfoldable serve_set_size : ℕ → ℕ → S Reply
serve_set_size fileid size = openfile_lookup fileid >>= λ r. elim r [
  | err e ↦ pure (code (err e))
  | ok i ↦ file_of i >>= λ f. lift (file_set_size f size) >>= λ q. elim q [
    | err e ↦ pure (code (err e))
    | ok c ↦ gets (λ s. s.fd_page i) >>= λ fd.
        set_fd i (record fd { fd_file = update fd.fd_file 32 size }) >>= λ _. pure (code (ok c))
  ]
]

unfoldable serve_map : ℕ → ℕ → S Reply
serve_map fileid offset = openfile_lookup fileid >>= λ r. elim r [
  | err e ↦ pure (code (err e))
  | ok i ↦ file_of i >>= λ f. lift (file_get_block f (offset / blksize)) >>= λ q. elim q [
    | err e ↦ pure (code (err e))
    | ok blk ↦ gets (λ s. (s.opentab i).o_mode) >>= λ mode.
        pure (page (block_at blk) (bit_or (if has mode o_accmode_write then 7 else 5) pte_share))
  ]
]

pub serve_close : ℕ → S Reply
serve_close fileid = openfile_lookup fileid >>= λ r. elim r [
  | err e ↦ pure (code (err e))
  | ok i ↦ file_of i >>= λ f. lift (file_close f) >>= λ _. pure (code (ok 0))
]

unfoldable serve_remove : List ℕ → S Reply
serve_remove bytes = lift (file_remove (req_path bytes)) >>= λ r. pure (code r)

unfoldable serve_dirty : ℕ → ℕ → S Reply
serve_dirty fileid offset = openfile_lookup fileid >>= λ r. elim r [
  | err e ↦ pure (code (err e))
  | ok i ↦ file_of i >>= λ f. lift (file_dirty f offset) >>= λ q. pure (code q)
]

unfoldable serve_sync : S Reply
serve_sync = lift fs_sync >>= λ _. pure (code (ok 0))

-- The requests of inc/fs.h with the arguments in the page at REQVA.
data Request : Type 0 where
  fsreq_open : List ℕ → ℕ → Request
  fsreq_map : ℕ → ℕ → Request
  fsreq_set_size : ℕ → ℕ → Request
  fsreq_close : ℕ → Request
  fsreq_dirty : ℕ → ℕ → Request
  fsreq_remove : List ℕ → Request
  fsreq_sync : Request
  other_request : Request

-- A round of serve, from the message to sys_page_unmap: what is sent back, if anything.
unfoldable serve_one : Bool → Request → S (Option Reply)
serve_one has_page req = elim has_page [
  | false ↦ pure none
  | true ↦ elim req [
    | fsreq_open bytes omode ↦ serve_open bytes omode >>= λ r. pure (some r)
    | fsreq_map fileid offset ↦ serve_map fileid offset >>= λ r. pure (some r)
    | fsreq_set_size fileid size ↦ serve_set_size fileid size >>= λ r. pure (some r)
    | fsreq_close fileid ↦ serve_close fileid >>= λ r. pure (some r)
    | fsreq_dirty fileid offset ↦ serve_dirty fileid offset >>= λ r. pure (some r)
    | fsreq_remove bytes ↦ serve_remove bytes >>= λ r. pure (some r)
    | fsreq_sync ↦ serve_sync >>= λ r. pure (some r)
    | other_request ↦ pure none
  ]
]
