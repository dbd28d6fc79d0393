-- ===== src/Fs/Disk.antt =====
-- The file server's state and monad: the globals of fs/fs.c, the memory at DISKMAP and the disk.
--
-- Memory is an array of 32-bit words from DISKMAP on, a `char *` or `struct File *` into it the
-- index of its word; block `b` holds the words from 1024 b on. A word of a block that is not
-- mapped faults, which kills the server: `panics`.
use kludgeos.Base.{ℕ, ◌/◌, Bool, true, false, update, Code, ok, err}

-- Words in a block (BLKSIZE / 4), and bits in one (BLKBITSIZE).
abbrev pub blkwords : ℕ
blkwords = 1024

abbrev pub blksize : ℕ
blksize = 4096

abbrev pub blkbitsize : ℕ
blkbitsize = 32768

abbrev pub diskmap : ℕ
diskmap = 0x1000_0000

abbrev pub disksize : ℕ
disksize = 0xc000_0000

pub record Fs : Type 0 where
  -- `super` and `bitmap` are not null; both are fixed addresses, block 1 and block 2.
  pub super_set : Bool
  pub bitmap_set : Bool
  pub mem : ℕ → ℕ
  pub mapped : ℕ → Bool
  pub dirty : ℕ → Bool
  pub disk : ℕ → ℕ
  pub disk_fails : ℕ → Bool
  -- Physical pages that sys_page_alloc can still give.
  pub frames : ℕ

pub data Outcome (A : Type 0) : Type 0 where
  returns : A → Fs → Outcome A
  panics : Outcome A

abbrev pub M : Type 0 → Type 0
M A = Fs → Outcome A

abbrev pub pure : {A : Type 0} → A → M A
pure a s = returns a s

infixl 5 ◌>>=◌ ◌>>◌
abbrev pub ◌>>=◌ : {A B : Type 0} → M A → (A → M B) → M B
◌>>=◌ m f s = elim (m s) [ returns a s' ↦ f a s' | panics ↦ panics ]

abbrev pub ◌>>◌ : {B : Type 0} → M (Unit {0}) → M B → M B
m >> n = m >>= λ _. n

-- `if ((r = m) < 0) return r;`
abbrev pub try : {A B : Type 0} → M (Code A) → (A → M (Code B)) → M (Code B)
try m f = m >>= λ r. elim r [ ok a ↦ f a | err e ↦ pure (err e) ]

abbrev pub gets : {A : Type 0} → (Fs → A) → M A
gets f s = returns (f s) s

abbrev pub modify : (Fs → Fs) → M (Unit {0})
modify f s = returns tt (f s)

abbrev pub panic : {A : Type 0} → M A
panic s = panics

abbrev pub assert : Bool → M (Unit {0})
assert true s = returns tt s
assert false s = panics

abbrev pub when : Bool → M (Unit {0}) → M (Unit {0})
when b m s = elim b [ true ↦ m s | false ↦ returns tt s ]

-- A read and a write of a word; the write sets the page's PTE_D.
abbrev pub load : ℕ → M ℕ
load w s = elim (s.mapped (w / blkwords)) [ true ↦ returns (s.mem w) s | false ↦ panics ]

abbrev pub store : ℕ → ℕ → M (Unit {0})
store w v s = elim (s.mapped (w / blkwords)) [
  | true ↦
      returns tt (record s { mem = update s.mem w v; dirty = update s.dirty (w / blkwords) true })
  | false ↦ panics
]

-- The word of `super->s_magic`, `super->s_nblocks`, `super->s_root` and `bitmap[0]`.
abbrev pub s_magic : ℕ
s_magic = 1024

abbrev pub s_nblocks : ℕ
s_nblocks = 1025

abbrev pub s_root : ℕ
s_root = 1026

abbrev pub bitmap : ℕ
bitmap = 2048
