-- ===== src/User/Spawn/Shared.antt =====
-- copy_shared_pages of lib/spawn.c, on the address spaces of User/Fork.
use kludgeos.Base.{
  ℕ, zero, suc, ◌+◌, ◌*◌, Bool, ◌==◌, if◌then◌else◌, bit_and, Option, Code, ok, Errno,
}
use kludgeos.User.Fork.{
  Family, Target, to_child, try_then, sys_page_map, pte_user, nptentries, vpd_utop,
}

-- (e & (PTE_P | PTE_SHARE)) == (PTE_P | PTE_SHARE)
abbrev pub is_shared : ℕ → Bool
is_shared e = bit_and e 0x401 == 0x401

module _ (refuses : Target → ℕ → ℕ → Family → Option Errno) where
  -- The inner loop: `n` rounds from the page `pn`.
  unfoldable pub share_entries : ℕ → ℕ → Family → Code (Unit {0}) × Family
  share_entries zero pn s = (ok tt, s)
  share_entries (suc n) pn s =
      if is_shared (s.own pn)
      then try_then (sys_page_map refuses to_child pn (bit_and (s.own pn) pte_user) s)
          (share_entries n (pn + 1))
      else share_entries n (pn + 1) s

  -- The outer loop: `n` tables from the table `i`.
  unfoldable pub share_tables : ℕ → ℕ → Family → Code (Unit {0}) × Family
  share_tables zero i s = (ok tt, s)
  share_tables (suc n) i s =
      if s.own_table i
      then try_then (share_entries nptentries (i * nptentries) s) (share_tables n (i + 1))
      else share_tables n (i + 1) s

  unfoldable pub copy_shared_pages : Family → Code (Unit {0}) × Family
  copy_shared_pages = share_tables vpd_utop 0
