-- ===== src/User/Tests.antt =====
-- The theorems on the user library at small address spaces.
use kludgeos.Base.{
  ℕ, ◌+◌, ◌*◌, ◌≡◌, ◌≢◌, refl, Bool, true, false, ◌==◌, has, if◌then◌else◌, Option, none, some, ok,
  Errno, arith,
}
use kludgeos.User.Space.{Space, Server, returns, pte_d}
use kludgeos.User.File.{data_page, pages_of, funmap}
use kludgeos.User.File.Mapping.{HasTable, Unmaps, funmap_unreported}
use kludgeos.User.Fork.{Family, Target, vpd_utop, nptentries, dup_space}
use kludgeos.User.Fork.Copying.{SpaceEnds}
use kludgeos.User.Fork.Fault.{Memory, handled, pgfault, pftemp}
use kludgeos.User.Fork.Fault.Private.{pgfault_lem}
use kludgeos.User.Fork.Copies.{dup_space_lem}

-- A server that sends the page 5, and counts the blocks that it is told of.
abbrev counting : Server ℕ
counting = record {
  fsipc_map = λ id offset t. (ok 0x5007, t);
  fsipc_set_size = λ id size t. (ok tt, t);
  fsipc_close = λ id t. (ok tt, t);
  fsipc_dirty = λ id offset t. (ok tt, t + 1);
  file_id = λ fd t. 3;
  f_size = λ fd t. 8192;
}

-- The descriptor 0 has two pages of a file, and only the second is dirty.
abbrev two_pages : Space ℕ
two_pages = record {
  vpt = λ p.
      if p == data_page 0
      then some 0x5007
      else if p == data_page 0 + 1
      then some 0x6047
      else some 0;
  server = 0;
}

two_pages-HasTable : HasTable two_pages 0
two_pages-HasTable p low high =
    elim (p == data_page 0)
      as (λ b.
        (e : ℕ) × ((if b then some 0x5007 else if p == data_page 0 + 1 then some 0x6047 else some 0)
          ≡ some e)) [
            | true ↦ (0x5007, refl)
            | false ↦
                elim (p == data_page 0 + 1)
                  as (λ b. (e : ℕ) × ((if b then some 0x6047 else some 0) ≡ some e)) [
                    | true ↦ (0x6047, refl)
                    | false ↦ (0, refl)
                  ]
          ]

first_clean : (e : ℕ) → some 0x5007 ≡ some e → has e pte_d ≡ false
first_clean e h = ground (arith, h)

funmap_unreported_example :
    (s' : Space ℕ) × (funmap counting 0 8192 0 true two_pages ≡ returns (ok tt) s')
    × (s'.server ≡ 0)
    × Unmaps two_pages s' (data_page 0 + pages_of 0) (data_page 0 + pages_of 8192)
funmap_unreported_example =
    funmap_unreported counting 0 8192 0 two_pages two_pages-HasTable (omega arith) first_clean

-- A process without a page table.
abbrev no_tables : Space ℕ
no_tables = record { vpt = λ p. none; server = 0 }

abbrev granted : Target → ℕ → ℕ → Family → Option Errno
granted target pn perm s = none

-- A page that is written, a shared one and a read-only one.
abbrev three_pages : Family
three_pages = record {
  own = λ p. if p == 7 then 0x9007 else if p == 8 then 0xa407 else if p == 9 then 0xb005 else 0;
  own_table = λ i. i == 0;
  child = λ p. 0;
}

dup_space_lem_example :
    SpaceEnds granted 0 (vpd_utop * nptentries) three_pages (dup_space granted three_pages)
dup_space_lem_example = dup_space_lem granted three_pages

-- The page 9 is copy-on-write in the frame 5.
abbrev written_page : Memory
written_page = record { entry = λ p. if p == 9 then 0x5805 else 0; word = λ g w. g + w }

abbrev gives_frame : Memory → Option ℕ
gives_frame m = some 6

abbrev accepts : Memory → Bool
accepts m = false

pgfault_lem_example :
    (m' : Memory) × (pgfault gives_frame accepts 0x9004 2 written_page ≡ handled m')
    × (m'.entry 9 ≡ 0x6007)
    × ((w : ℕ) → m'.word 6 w ≡ 5 + w)
    × ((g w : ℕ) → (g ≢ 6) → m'.word g w ≡ g + w)
    × ((p : ℕ) → (p ≢ 9) → (p ≢ pftemp) → m'.entry p ≡ written_page.entry p)
pgfault_lem_example =
    pgfault_lem gives_frame accepts 0x9004 2 6 written_page refl refl refl refl (λ e. cc) (λ e. cc)
