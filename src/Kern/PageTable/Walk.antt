-- ===== src/Kern/PageTable/Walk.antt =====
-- What pgdir_walk and page_lookup of kern/pmap.c find, and what user_mem_check tests.
use kludgeos.Base.{
  ℕ, zero, suc, ◌+◌, ◌-◌, ◌*◌, ◌/◌, ◌%◌, ◌^◌, ◌≤◌, ◌<◌, ◌≡◌, ◌∙◌, Bool, true, false, has, bit_and,
  none, some, ok, arith,
}
use kludgeos.Kern.Machine.{Kern, returns, ulim, pgsize, pdx, ptx, pte_p, round_down, round_up}
use kludgeos.Kern.Page.{kaddr, pa2page}
use kludgeos.Kern.PageTable.{pgdir_walk, entry_of, page_lookup, check_loop, user_mem_check}

-- The directory entry for `va` is present, and its table `table` is a page of memory.
pub record HasTable (k : Kern) (pgdir va table : ℕ) : Type 0 where
  pub linked : has (k.word pgdir (pdx va)) pte_p ≡ true
  pub names : k.word pgdir (pdx va) / 4096 ≡ table
  pub in_memory : table < k.npage

-- The walk finds the entry of `va` in its table, and changes nothing.
pub pgdir_walk_found :
    (k : Kern) (pgdir va table : ℕ) (create : Bool)
    → HasTable k pgdir va table
    → pgdir_walk pgdir va create k ≡ returns (some (table, ptx va)) k
unfolding pgdir_walk entry_of kaddr
pgdir_walk_found k pgdir va table create v = ground (arith, v.linked, v.names, v.in_memory)

pub page_lookup_found :
    (k : Kern) (pgdir va table pp : ℕ)
    → HasTable k pgdir va table
    → has (k.word table (ptx va)) pte_p ≡ true
    → k.word table (ptx va) / 4096 ≡ pp
    → pp < k.npage
    → page_lookup pgdir va k ≡ returns (some (pp, (table, ptx va))) k
unfolding page_lookup pa2page
page_lookup_found k pgdir va table pp v there e lt =
    ground (arith, pgdir_walk_found k pgdir va table false v)

pub page_lookup_empty :
    (k : Kern) (pgdir va table : ℕ)
    → HasTable k pgdir va table
    → has (k.word table (ptx va)) pte_p ≡ false
    → page_lookup pgdir va k ≡ returns none k
unfolding page_lookup
page_lookup_empty k pgdir va table v there =
    ground (arith, pgdir_walk_found k pgdir va table false v)

-- A round of user_mem_check that finds `va` accessible goes on to the next.
check_step :
    (fuel : ℕ) (k : Kern) (pgdir va table perm i b e : ℕ)
    → va < ulim
    → HasTable k pgdir va table
    → bit_and (k.word table (ptx va)) perm ≡ perm
    → i < (b + 2 ^ 32 - e) % 2 ^ 32 / pgsize
    → check_loop (suc fuel) pgdir va perm i b e k
      ≡ check_loop fuel pgdir va perm (i + 1) ((b + pgsize) % 2 ^ 32) e k
unfolding check_loop
check_step fuel k pgdir va table perm i b e low v granted more =
    ground (arith, pgdir_walk_found k pgdir va table false v)

check_done :
    (fuel : ℕ) (k : Kern) (pgdir va perm i b e : ℕ)
    → (b + 2 ^ 32 - e) % 2 ^ 32 / pgsize ≤ i
    → check_loop (suc fuel) pgdir va perm i b e k ≡ returns (ok 0) k
unfolding check_loop
check_done fuel k pgdir va perm i b e last = ground arith

-- `r` rounds are left: `b` is `r` pages below `e`.
check_rounds :
    (r fuel : ℕ) (k : Kern) (pgdir va table perm i b e : ℕ)
    → r < fuel
    → i + r < 2 ^ 20
    → b < 2 ^ 32
    → e < 2 ^ 32
    → (b + 4096 * r) % 2 ^ 32 ≡ e
    → va < ulim
    → HasTable k pgdir va table
    → bit_and (k.word table (ptx va)) perm ≡ perm
    → check_loop fuel pgdir va perm i b e k ≡ returns (ok 0) k
check_rounds r zero k pgdir va table perm i b e lt small hb he at low v granted =
    absurd (omega arith)
check_rounds zero (suc fuel) k pgdir va table perm i b e lt small hb he at low v granted =
    check_done fuel k pgdir va perm i b e (omega arith)
check_rounds (suc r) (suc fuel) k pgdir va table perm i b e lt small hb he at low v granted =
    check_step fuel k pgdir va table perm i b e low v granted (omega arith)
    ∙ check_rounds r fuel k pgdir va table perm (i + 1) ((b + pgsize) % 2 ^ 32) e (omega arith)
        (omega arith) (omega arith) he (omega arith) low v granted

-- The flaw of user_mem_check: it tests the page of `va` in every round and never the pages behind
-- it. Where `va` lies below ULIM and its own page grants `perm`, the check passes for every length
-- that does not wrap, whatever the other pages of the range are.
pub user_mem_check_one_page :
    (k : Kern) (env va len perm table : ℕ)
    → va < ulim
    → va + len + pgsize ≤ 2 ^ 32
    → HasTable k ((k.envs env).env_pgdir) va table
    → bit_and (k.word table (ptx va)) perm ≡ perm
    → user_mem_check env va len perm k ≡ returns (ok 0) k
unfolding user_mem_check
user_mem_check_one_page k env va len perm table low fits v granted =
    let b : ℕ = round_down va pgsize in
    let e : ℕ = round_up ((va + len) % 2 ^ 32) pgsize in
    check_rounds ((e - b) / 4096) (2 ^ 20) k ((k.envs env).env_pgdir) va table perm 0 b e
      (omega arith) (omega arith) (omega arith) (omega arith) (omega arith) low v granted
