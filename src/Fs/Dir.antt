-- ===== src/Fs/Dir.antt =====
-- Directories and paths: dir_lookup to file_open and file_remove of fs/fs.c, after read_super.
--
-- A name or a path is the list of its bytes, without the 0 behind them. A `struct File` is 64
-- words, its name the first 32 of them with the lowest byte of a word first.
pub mod Walk
pub mod Entries
pub mod Names
use kludgeos.Base.{
  ℕ, zero, suc, ◌+◌, ◌-◌, ◌*◌, ◌/◌, ◌%◌, ◌^◌, Bool, true, false, not, ◌==◌, leb, if◌then◌else◌,
  length, List, [], ◌∷◌, Option, none, some, Code, ok, err, Errno, e_not_found, e_bad_path,
  e_file_exists,
}
use kludgeos.Fs.Disk.{
  M, pure, ◌>>=◌, ◌>>◌, try, assert, when, load, store, blksize, diskmap, s_root,
}
use kludgeos.Fs.File.{f_size, f_type, f_dir, file_get_block, file_truncate_blocks, flush_dir}

abbrev maxnamelen : ℕ
maxnamelen = 128

abbrev blkfiles : ℕ
blkfiles = 16

abbrev ftype_dir : ℕ
ftype_dir = 1

-- The address of a struct File.
abbrev pointer_to : ℕ → ℕ
pointer_to f = diskmap + f * 4

-- f_name[i], and a write to it.
pub name_byte : ℕ → ℕ → M ℕ
name_byte f i = do w ← load (f + i / 4); pure (w / 256 ^ (i % 4) % 256)

pub store_name_byte : ℕ → ℕ → ℕ → M (Unit {0})
store_name_byte f i c = do
  w ← load (f + i / 4)
  store (f + i / 4) (w - w / 256 ^ (i % 4) % 256 * 256 ^ (i % 4) + c * 256 ^ (i % 4))

-- strcmp(f_name, name) == 0, from byte `i` on.
pub has_name : ℕ → ℕ → List ℕ → M Bool
has_name f i [] = name_byte f i >>= λ c. pure (c == 0)
has_name f i (x ∷ xs) =
    name_byte f i >>= λ c. elim (c == x) [ true ↦ has_name f (i + 1) xs | false ↦ pure false ]

-- strcpy(f_name + i, name)
pub store_name : ℕ → ℕ → List ℕ → M (Unit {0})
store_name f i [] = store_name_byte f i 0
store_name f i (x ∷ xs) = store_name_byte f i x >>= λ _. store_name f (i + 1) xs

-- The inner loop of dir_lookup and of dir_alloc_file: the first of `n` entries from `f` on that
-- passes the test.
pub find_entry : (ℕ → M Bool) → ℕ → ℕ → M (Option ℕ)
find_entry test zero f = pure none
find_entry test (suc n) f =
    test f >>= λ good. elim good [ true ↦ pure (some f) | false ↦ find_entry test n (f + 64) ]

-- The outer loop: `n` blocks from block `i`. The entry that is found gets the directory in f_dir.
unfoldable pub find_in : (ℕ → M Bool) → ℕ → ℕ → ℕ → M (Code (Option ℕ))
find_in test dir zero i = pure (ok none)
find_in test dir (suc n) i = file_get_block dir i >>= λ r. elim r [
  | err e ↦ pure (err e)
  | ok blk ↦ find_entry test blkfiles blk >>= λ o. elim o [
    | some f ↦ store (f_dir f) (pointer_to dir) >>= λ _. pure (ok (some f))
    | none ↦ find_in test dir n (i + 1)
  ]
]

unfoldable pub dir_lookup : ℕ → List ℕ → M (Code ℕ)
dir_lookup dir name = do
  size ← load (f_size dir)
  assert (size % blksize == 0)
  r ← find_in (λ f. has_name f 0 name) dir (size / blksize) 0
  elim r [ err e ↦ pure (err e) | ok none ↦ pure (err e_not_found) | ok (some f) ↦ pure (ok f) ]

-- Where no entry is unused the directory grows by a block.
unfoldable dir_alloc_file : ℕ → M (Code ℕ)
dir_alloc_file dir = do
  size ← load (f_size dir)
  assert (size % blksize == 0)
  r ← find_in (λ f. has_name f 0 []) dir (size / blksize) 0
  elim r [
    | err e ↦ pure (err e)
    | ok (some f) ↦ pure (ok f)
    | ok none ↦ do
      store (f_size dir) ((size + blksize) % 2 ^ 32)
      try (file_get_block dir (size / blksize))
          λ blk. do store (f_dir blk) (pointer_to dir); pure (ok blk)
  ]

unfoldable pub skip_slash : List ℕ → List ℕ
skip_slash [] = []
skip_slash (c ∷ path) = let more = skip_slash path in if c == b'/' then more else c ∷ path

-- The bytes before the next slash, and those from it on.
pub path_element : List ℕ → List ℕ × List ℕ
path_element [] = ([], [])
path_element (c ∷ path) =
    let more = path_element path in if c == b'/' then ([], c ∷ path) else (c ∷ more.0, more.1)

-- How walk_path ends: 0 with *pf (pdir is the directory, or null for the root); -E_NOT_FOUND with
-- the directory in *pdir and lastelem; or an error with a null *pdir.
pub data Walked : Type 0 where
  found : Option ℕ → ℕ → Walked
  missing : ℕ → List ℕ → Walked
  failed : Errno → Walked

abbrev is_not_found : Errno → Bool
is_not_found e_not_found = true
is_not_found _ = false

-- What a failed dir_lookup makes of the walk; `rest` is the path behind the element.
unfoldable pub not_in : ℕ → List ℕ → List ℕ → Errno → Walked
not_in dir name [] e = if is_not_found e then missing dir name else failed e
not_in dir name (c ∷ rest) e = failed e

-- A round of the loop, on an element of the path and what is behind it; `next` is the rest of the
-- loop, at the file that was found.
unfoldable pub walk_element : List ℕ → List ℕ → ℕ → (ℕ → M Walked) → M Walked
walk_element name rest f next = elim (leb maxnamelen (length name)) [
  | true ↦ pure (failed e_bad_path)
  | false ↦ load (f_type f) >>= λ type. elim (type == ftype_dir) [
    | false ↦ pure (failed e_not_found)
    | true ↦
        dir_lookup f name >>= λ r. elim r [ ok g ↦ next g | err e ↦ pure (not_in f name rest e) ]
  ]
]

-- The path behind its first element and the slashes that follow it.
pub behind : List ℕ → List ℕ
behind path = skip_slash (path_element path).1

-- The loop. Each round takes a byte of the path at least, so that its length is enough fuel.
unfoldable pub walk_rounds : ℕ → List ℕ → Option ℕ → ℕ → M Walked
walk_rounds n [] dir f = pure (found dir f)
walk_rounds zero (c ∷ path) dir f = pure (failed e_bad_path)
walk_rounds (suc n) (c ∷ path) dir f =
    walk_element (path_element (c ∷ path)).0 (behind (c ∷ path)) f
      (λ g. walk_rounds n (behind (c ∷ path)) (some f) g)

unfoldable pub walk_path : List ℕ → M Walked
walk_path path = walk_rounds (length path) (skip_slash path) none s_root

-- A failure of dir_alloc_file is returned as the -E_NOT_FOUND of walk_path.
unfoldable file_create : List ℕ → M (Code ℕ)
file_create path = do
  r ← walk_path path
  elim r [
    | found dir f ↦ pure (err e_file_exists)
    | failed e ↦ pure (err e)
    | missing dir name ↦ do
      a ← dir_alloc_file dir
      elim a [ err e ↦ pure (err e_not_found) | ok f ↦ do store_name f 0 name; pure (ok f) ]
  ]

abbrev walked_file : Walked → Code ℕ
walked_file (found dir f) = ok f
walked_file (missing dir name) = err e_not_found
walked_file (failed e) = err e

unfoldable pub file_open : List ℕ → M (Code ℕ)
file_open path = do r ← walk_path path; pure (walked_file r)

unfoldable pub file_remove : List ℕ → M (Code ℕ)
file_remove path = do
  r ← walk_path path
  try (pure (walked_file r)) λ f. do
    file_truncate_blocks f 0
    store_name_byte f 0 0
    store (f_size f) 0
    flush_dir f
    pure (ok 0)
