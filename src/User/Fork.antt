-- ===== src/User/Fork.antt =====
-- fork of lib/fork.c: duppage, the copy of the address space, and the handler of page faults.
--
-- What the kernel refuses is a parameter: `refuses` says with which error a call to map or allocate a
-- page ends, if with one. A call that is not refused maps the page that the source entry names.
pub mod Copying
pub mod Copies
pub mod Fault
use kludgeos.Base.{
  ℕ, zero, suc, ◌+◌, ◌*◌, ◌/◌, ◌^◌, Bool, true, false, not, ◌&&◌, ◌||◌, ◌==◌, if◌then◌else◌, update,
  has, bit_and, Option, none, some, Code, ok, err, Errno,
}

abbrev pub pte_w : ℕ
pte_w = 2

abbrev pub pte_share : ℕ
pte_share = 0x400

abbrev pub pte_cow : ℕ
pte_cow = 0x800

abbrev pub pte_user : ℕ
pte_user = 0xe07

-- PTE_P | PTE_U | PTE_COW
abbrev pub perm_cow : ℕ
perm_cow = 0x805

-- VPD(UTOP), NPTENTRIES, and the page of the exception stack.
abbrev pub vpd_utop : ℕ
vpd_utop = 955

abbrev pub nptentries : ℕ
nptentries = 1024

abbrev pub stack_page : ℕ
stack_page = 0xeebff

-- The entries of the parent, its `vpd`, and the entries of the child.
pub record Family : Type 0 where
  pub own : ℕ → ℕ
  pub own_table : ℕ → Bool
  pub child : ℕ → ℕ

pub data Target : Type 0 where
  to_child to_own : Target

abbrev pub with_perm : ℕ → ℕ → ℕ
with_perm e perm = e / 2 ^ 12 * 2 ^ 12 + perm

-- `if ((r = a) < 0) return r; b`
abbrev pub try_then :
    Code (Unit {0}) × Family → (Family → Code (Unit {0}) × Family) → Code (Unit {0}) × Family
try_then (ok u, s) f = f s
try_then (err x, s) f = (err x, s)

module _ (refuses : Target → ℕ → ℕ → Family → Option Errno) where
  -- sys_page_map(0, addr, envid or 0, addr, perm) of the page `pn`.
  unfoldable pub sys_page_map : Target → ℕ → ℕ → Family → Code (Unit {0}) × Family
  sys_page_map target pn perm s = elim (refuses target pn perm s) [
    | some x ↦ (err x, s)
    | none ↦ elim target [
      | to_child ↦ (ok tt, record s { child = update s.child pn (with_perm (s.own pn) perm) })
      | to_own ↦ (ok tt, record s { own = update s.own pn (with_perm (s.own pn) perm) })
    ]
  ]

  unfoldable pub duppage : ℕ → Family → Code (Unit {0}) × Family
  duppage pn s =
      let pte = bit_and (s.own pn) pte_user in
      if not (has pte pte_share) && (has pte pte_w || has pte pte_cow)
      then try_then (sys_page_map to_child pn perm_cow s) (sys_page_map to_own pn perm_cow)
      else sys_page_map to_child pn pte s

  -- The loop of fork on the table `i`: `n` rounds from the entry `j`.
  unfoldable pub dup_entries : ℕ → ℕ → ℕ → Family → Code (Unit {0}) × Family
  dup_entries zero i j s = (ok tt, s)
  dup_entries (suc n) i j s =
      let pn = i * nptentries + j in
      if not (has (s.own pn) 1)
      then dup_entries n i (j + 1) s
      else if pn == stack_page
      then (ok tt, s)
      else try_then (duppage pn s) (dup_entries n i (j + 1))

  -- The outer loop: `n` rounds from the table `i`.
  unfoldable pub dup_tables : ℕ → ℕ → Family → Code (Unit {0}) × Family
  dup_tables zero i s = (ok tt, s)
  dup_tables (suc n) i s =
      if s.own_table i
      then try_then (dup_entries nptentries i 0 s) (dup_tables n (i + 1))
      else dup_tables n (i + 1) s

  -- The copy of the parent's address space.
  unfoldable pub dup_space : Family → Code (Unit {0}) × Family
  dup_space = dup_tables vpd_utop 0
